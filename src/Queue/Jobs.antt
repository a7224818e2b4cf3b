-- ===== src/Queue/Jobs.antt =====
-- The accounting of the worker pool (runtime/xiom_runtime.c, 7874 to 8009).
use stdlib.Base.{
  ℕ, zero, suc, ◌+◌, ◌<◌, ◌≡◌, refl, sym, ap, ◌∙◌, ◌⊎◌, inl, inr, false, Option, none, some, List,
  [], ◌∷◌, ◌++◌, arith, ltb, ◌==◌, length, length-append, Bool-cases,
}
use mathlib.Core.List.{append_assoc, append-nil}
use stdlib.Queue.{Ring, push, pop}
use stdlib.Queue.Fifo.{IsRing, contents, push-IsRing, contents-push, pop-IsRing, contents-pop}
use stdlib.Queue.Pool.{
  Task, no_task, Pool, submit_impl, take_task, finish_task, shut, System, Section, submits, begins,
  ends, shuts, without, step, run,
}

-- The tasks that wait in the queue, the first to begin first.
abbrev pub queued : Pool → List Task
queued p = contents p.cap no_task p.ring

-- The tasks accepted are those begun and those queued, in this order; the counts are those of the tasks
-- queued or running, and of those that have ended.
pub record IsSound (s : System) : Type 0 where
  pub shape : IsRing s.pool.cap s.pool.ring
  pub order : s.begun ++ queued s.pool ≡ s.accepted
  pub outstanding : s.pool.outstanding ≡ s.pool.ring.count + length s.running
  pub completed : s.pool.completed + length s.running ≡ length s.begun

abbrev pub Sound : Option System → Type 0
Sound none = Unit {0}
Sound (some s) = IsSound s

pub submit_cases :
    (t : Task) (p : Pool)
    → (submit_impl t p ≡ none)
      ⊎ ((submit_impl t p ≡ some (0, p))
          ⊎ (((p.ring.count == p.cap) ≡ false)
              × (submit_impl t p
                  ≡ some (
                    1,
                    record p { ring = push p.cap t p.ring; outstanding = p.outstanding + 1 },
                  ))))
unfolding submit_impl
submit_cases t p = elim (Bool-cases (t.fn == 0)) [
  | inl null ↦ inr (inl (rw null refl))
  | inr given ↦ elim (Bool-cases p.shutdown) [
    | inl down ↦ elim (Bool-cases (p.ring.count == p.cap)) [
      | inl full ↦ inr (inl (rw (given, full, down) refl))
      | inr room ↦ inr (inl (rw (given, room, down) refl))
    ]
    | inr up ↦ elim (Bool-cases (p.ring.count == p.cap)) [
      | inl full ↦ inl (rw (given, full, up) refl)
      | inr room ↦ inr (inr (room, rw (given, room, up) refl))
    ]
  ]
]

pub take_cases :
    (p : Pool)
    → (take_task p ≡ none)
      ⊎ ((take_task p ≡ some (none, p))
          ⊎ ((0 < p.ring.count)
              × (take_task p
                  ≡ some (
                    some (pop p.cap no_task p.ring).0,
                    record p { ring = (pop p.cap no_task p.ring).1 },
                  ))))
unfolding take_task
take_cases p = elim (Bool-cases (p.ring.count == 0)) [
  | inr filled ↦ inr (inr (ground arith, rw filled refl))
  | inl empty ↦ elim (Bool-cases p.shutdown) [
    | inr up ↦ inl (rw (empty, up) refl)
    | inl down ↦ inr (inl (rw (empty, down) refl))
  ]
]

pub length-without :
    (ts : List Task) (k : ℕ) → k < length ts → length (without ts k) + 1 ≡ length ts
length-without [] k h = elim h [ ]
length-without (t ∷ ts) zero h = omega arith
length-without (t ∷ ts) (suc k) h = omega (arith, length-without ts k (omega arith))

pub accepted_one :
    (s : System) (t : Task)
    → IsSound s
    → s.pool.ring.count < s.pool.cap
    → IsSound (record s {
      pool = record s.pool {
        ring = push s.pool.cap t s.pool.ring;
        outstanding = s.pool.outstanding + 1;
      };
      accepted = s.accepted ++ (t ∷ []);
    })
unfolding push
accepted_one s t v room = record {
  shape = push-IsRing s.pool.cap t s.pool.ring v.shape room;
  order =
      ap (λ ts. s.begun ++ ts) (contents-push s.pool.cap no_task t s.pool.ring v.shape room)
      ∙ sym (append_assoc s.begun (queued s.pool) (t ∷ []))
      ∙ ap (λ ts. ts ++ (t ∷ [])) v.order;
  outstanding = omega (arith, v.outstanding);
  completed = v.completed;
}

pub begun_one :
    (s : System)
    → IsSound s
    → 0 < s.pool.ring.count
    → IsSound (record s {
      pool = record s.pool { ring = (pop s.pool.cap no_task s.pool.ring).1 };
      running = s.running ++ ((pop s.pool.cap no_task s.pool.ring).0 ∷ []);
      begun = s.begun ++ ((pop s.pool.cap no_task s.pool.ring).0 ∷ []);
    })
unfolding pop
begun_one s v filled =
    let t = (pop s.pool.cap no_task s.pool.ring).0 in
    let more = length-append s.running (t ∷ []) in
    let more' = length-append s.begun (t ∷ []) in
    record {
      shape = pop-IsRing s.pool.cap no_task s.pool.ring v.shape filled;
      order =
          append_assoc s.begun (t ∷ []) _
          ∙ ap (λ ts. s.begun ++ ts) (sym (contents-pop s.pool.cap no_task s.pool.ring filled))
          ∙ v.order;
      outstanding = omega (arith, v.outstanding, more);
      completed = omega (arith, v.completed, more, more');
    }

same-IsSound :
    (s : System) (p : Pool)
    → IsSound s
    → p.ring ≡ s.pool.ring
    → p.cap ≡ s.pool.cap
    → p.outstanding ≡ s.pool.outstanding
    → p.completed ≡ s.pool.completed
    → IsSound (record s { pool = p })
same-IsSound s p v e1 e2 e3 e4 = record {
  shape = rw (e1, e2) v.shape;
  order = rw (e1, e2) v.order;
  outstanding = e3 ∙ v.outstanding ∙ ap (λ (r : Ring Task). r.count + length s.running) (sym e1);
  completed = ap (λ n. n + length s.running) e4 ∙ v.completed;
}

pub shut-IsSound : (s : System) → IsSound s → IsSound (record s { pool = (shut s.pool).0 })
unfolding shut
shut-IsSound s v = elim (Bool-cases s.pool.shutdown) [
  | inl down ↦ elim (Bool-cases s.pool.joined) [
    | inl j ↦ rw (down, j) (same-IsSound s _ v refl refl refl refl)
    | inr j ↦ rw (down, j) (same-IsSound s _ v refl refl refl refl)
  ]
  | inr up ↦ elim (Bool-cases s.pool.joined) [
    | inl j ↦ rw (up, j) (same-IsSound s _ v refl refl refl refl)
    | inr j ↦ rw (up, j) (same-IsSound s _ v refl refl refl refl)
  ]
]

pub ended_one :
    (s : System) (k : ℕ)
    → IsSound s
    → k < length s.running
    → IsSound (record s { pool = finish_task s.pool; running = without s.running k })
unfolding finish_task
ended_one s k v lt =
    let fewer = length-without s.running k lt in
    record {
      shape = v.shape;
      order = v.order;
      outstanding = omega (arith, v.outstanding, fewer);
      completed = omega (arith, v.completed, fewer);
    }

pub more_accepted : (s : System) → IsSound s → IsSound (record s { accepted = s.accepted ++ [] })
more_accepted s v = record {
  shape = v.shape;
  order = v.order ∙ sym (append-nil s.accepted);
  outstanding = v.outstanding;
  completed = v.completed;
}

step-Sound : (e : Section) (s : System) → IsSound s → Sound (step e s)
unfolding step
step-Sound (submits t) s v = elim (submit_cases t s.pool) [
  | inl waits ↦ rw (Sound, waits) tt
  | inr (inl refused) ↦ rw (Sound, refused) (more_accepted s v)
  | inr (inr (room, put)) ↦ rw (Sound, put) (accepted_one s t v (ground (arith, v.shape.count_le)))
]
step-Sound begins s v = elim (take_cases s.pool) [
  | inl waits ↦ rw (Sound, waits) tt
  | inr (inl leaves) ↦ rw (Sound, leaves) v
  | inr (inr (filled, got)) ↦ rw (Sound, got) (begun_one s v filled)
]
step-Sound (ends k) s v = elim (Bool-cases (ltb k (length s.running))) [
  | inl lt ↦ rw (Sound, lt) (ended_one s k v (ground arith))
  | inr ge ↦ rw (Sound, ge) tt
]
step-Sound shuts s v = shut-IsSound s v

behind :
    (es : List Section) (r : Option System)
    → Sound r
    → ((s : System) → IsSound s → Sound (run es s))
    → Sound (elim r [ none ↦ none | some s ↦ run es s ])
behind es none h k = tt
behind es (some s) h k = k s h

-- In any run of callers and workers, the tasks are begun in the order in which they were accepted, each
-- once, with the rest still queued in that order; `outstanding` counts the tasks queued or running and
-- `completed` those that have ended; the ring stays in shape.
pub run-Sound : (es : List Section) (s : System) → IsSound s → Sound (run es s)
unfolding run
run-Sound [] s v = v
run-Sound (e ∷ es) s v = behind es (step e s) (step-Sound e s v) (λ s' v'. run-Sound es s' v')
