-- ===== src/Queue/Placed.antt =====
-- Where a spawn puts its task (runtime/xiom_runtime.c, 7787 to 7819).
use stdlib.Base.{
  ℕ, zero, suc, ◌+◌, ◌-◌, ◌%◌, ◌^◌, ◌≤◌, ◌<◌, ◌≡◌, refl, sym, ap, ◌∙◌, ◌≢◌, subst, leb, length-set,
  dec_eq, ◌⊎◌, inl, inr, false, Option, none, some, List, [], ◌∷◌, ◌++◌, arith, length, get_or,
  Bool-cases,
}
use native.Mathlib.Nat.{mod-lt, mod-add-mod}
use stdlib.Queue.{Ring, push}
use stdlib.Queue.Fifo.{IsRing, contents, push-IsRing, contents-push, get_or-set_self, get_or-set_ne}
use stdlib.Queue.Threads.{
  Call, no_call, Worker, new_worker, Threads, has_room, next_with_room, choose, enqueue,
  threadpool_spawn,
}

-- The worker that the loop ends with is one of the pool, and if it has no room, none that was tried has.
next_with_room_lem :
    (left : ℕ) (ws : List Worker) (wid i last : ℕ)
    → last < length ws
    → (next_with_room left ws wid i last < length ws)
      × ((has_room ws (next_with_room left ws wid i last) ≡ false)
          → (k : ℕ) → i ≤ k
          → k < i + left
          → has_room ws ((wid + k) % length ws) ≡ false)
unfolding next_with_room
next_with_room_lem zero ws wid i last h = (h, λ full k lo hi. absurd (omega arith))
next_with_room_lem (suc left) ws wid i last h =
    let alt = (wid + i) % length ws in
    let in_pool : alt < length ws = mod-lt (wid + i) (omega arith) in
    let rest = next_with_room_lem left ws wid (i + 1) alt in_pool in
    elim (Bool-cases (has_room ws alt)) [
      | inl room ↦ rw room (in_pool, λ full k lo hi. cc)
      | inr none_left ↦ rw none_left (
        rest.0,
        λ full k lo hi. elim (dec_eq k i) [
          | yes same ↦ ap (λ m. has_room ws ((wid + m) % length ws)) same ∙ none_left
          | no later ↦ rest.1 full k (omega arith) (omega arith)
        ],
      )
    ]

-- The ring of a worker.
abbrev pub ring_of : Threads → ℕ → Ring Call
ring_of p i = (get_or p.workers i new_worker).tasks

abbrev pub AreRings : Threads → Type 0
AreRings p = (i : ℕ) → i < length p.workers → IsRing 256 (ring_of p i)

-- The task of a spawn is behind those of the worker `i`, and every other worker is as it was.
pub record Enqueued (call : Call) (p q : Threads) (i : ℕ) : Type 0 where
  pub in_pool : i < length p.workers
  pub room : (ring_of p i).count < 256
  pub behind :
      contents 256 no_call (ring_of q i) ≡ contents 256 no_call (ring_of p i) ++ (call ∷ [])
  pub shape : IsRing 256 (ring_of q i)
  pub others : (j : ℕ) → i ≢ j → get_or q.workers j new_worker ≡ get_or p.workers j new_worker
  pub same : length q.workers ≡ length p.workers
  pub dedicated : q.dedicated ≡ p.dedicated

-- The task went to a worker, or got a thread of its own because no worker has room.
abbrev pub Placed : Call → Threads → Option Threads → Type 0
Placed call p none = ⊥
Placed call p (some q) =
    (q.next_worker ≡ p.next_worker + 1)
    × (((i : ℕ) × Enqueued call p q i)
        ⊎ ((q.workers ≡ p.workers)
            × (q.dedicated ≡ p.dedicated ++ (call ∷ []))
            × ((k : ℕ)
                → k < length p.workers
                → 256 ≤ (ring_of p ((p.next_worker + k) % length p.workers)).count)))

enqueued :
    (call : Call) (p : Threads) (i : ℕ)
    → AreRings p
    → i < length p.workers
    → (ring_of p i).count < 256
    → Enqueued call p
        (record p { workers = enqueue call p.workers i; next_worker = p.next_worker + 1 })
        i
enqueued call p i rings lt room =
    let ring = ring_of p i in
    let worker : Worker = record (get_or p.workers i new_worker) { tasks = push 256 call ring } in
    let own = get_or-set_self p.workers i worker new_worker lt in
    record {
      in_pool = lt;
      room = room;
      behind =
          ap (λ (w : Worker). contents 256 no_call w.tasks) own
          ∙ contents-push 256 no_call call ring (rings i lt) room;
      shape =
          subst (λ (w : Worker). IsRing 256 w.tasks) (sym own)
            (push-IsRing 256 call ring (rings i lt) room);
      others = λ j ne. get_or-set_ne p.workers i j worker new_worker ne;
      same = length-set p.workers i worker;
      dedicated = refl;
    }

full_count :
    (ws : List Worker) (i : ℕ) → has_room ws i ≡ false → 256 ≤ (get_or ws i new_worker).tasks.count
full_count ws i h = ground arith

choose_lem :
    (ws : List Worker) (next : ℕ)
    → 0 < length ws
    → (choose ws (next % length ws) < length ws)
      × ((has_room ws (choose ws (next % length ws)) ≡ false)
          → (k : ℕ) → k < length ws
          → has_room ws ((next + k) % length ws) ≡ false)
choose_lem ws next some_worker =
    let wid = next % length ws in
    let in_pool : wid < length ws = mod-lt next some_worker in
    let rest = next_with_room_lem (length ws - 1) ws wid 1 wid in_pool in
    elim (Bool-cases (has_room ws wid)) [
      | inl room ↦ rw room (in_pool, λ full k hi. cc)
      | inr none_left ↦ rw none_left (
        rest.0,
        λ full k hi. elim (dec_eq k 0) [
          | yes same ↦
              let first : next + k ≡ next = omega (arith, same) in
              ap (λ m. has_room ws (m % length ws)) first ∙ none_left
          | no later ↦
              ap (has_room ws) (sym (mod-add-mod next (length ws) k))
              ∙ rest.1 full k (omega arith) (omega arith)
        ],
      )
    ]

-- A spawn with no call of another thread in between, before the 2 ^ 31-th: the task is put behind the tasks of one worker
-- that has room, with those in their order and every other worker as it was, or it gets a thread of its own, which
-- happens only when every worker that the turn can reach is full.
pub threadpool_spawn-Placed :
    (call : Call) (p : Threads)
    → 0 < length p.workers
    → AreRings p
    → p.next_worker < 2 ^ 31 - 1
    → Placed call p (threadpool_spawn call p)
unfolding threadpool_spawn
threadpool_spawn-Placed call p some_worker rings early =
    let chosen = choose p.workers (p.next_worker % length p.workers) in
    let (in_pool, full) = choose_lem p.workers p.next_worker some_worker in
    let counts : leb 2147483647 p.next_worker ≡ false = ground arith in
    elim (Bool-cases (has_room p.workers chosen)) [
      | inl room ↦
          rw (Placed, counts, room)
            (refl, inl (chosen, enqueued call p chosen rings in_pool (ground (arith, room))))
      | inr none_left ↦
          rw (Placed, counts, none_left)
            (refl, inr (refl, refl, λ k hi. full_count p.workers _ (full none_left k hi)))
    ]
