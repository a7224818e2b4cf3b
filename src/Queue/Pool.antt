-- ===== src/Queue/Pool.antt =====
-- The worker pool (runtime/xiom_runtime.c, 7832 to 8045). The mutex is held through each critical section,
-- so that a run of the callers and the workers is a sequence of critical sections; one that waits on a
-- condition variable has no result, and takes its turn later. A handle is a pool that was created, not
-- NULL.
use stdlib.Base.{
  ℕ, zero, suc, ◌+◌, ◌-◌, ◌*◌, Bool, true, false, ◌&&◌, not, Option, none, some, List, [], ◌∷◌,
  ◌++◌, ltb, ◌==◌, if◌then◌else◌, length,
}
use stdlib.Base.Int.{ℤ, pos, negsuc}
use stdlib.Queue.{Ring, empty_ring, push, pop}

-- xiom_workerpool_task_t
pub record Task : Type 0 where
  pub fn : ℕ
  pub arg : ℤ
  pub has_arg : Bool

abbrev pub no_task : Task
no_task = record { fn = 0; arg = pos 0; has_arg = false }

-- xiom_workerpool_t, without the lock, the condition variables and the threads.
pub record Pool : Type 0 where
  pub ring : Ring Task
  pub cap : ℕ
  pub workers : ℕ
  pub shutdown : Bool
  pub joined : Bool
  pub outstanding : ℕ
  pub completed : ℕ

abbrev pub clamp_workers : ℤ → ℕ
clamp_workers (negsuc n) = 1
clamp_workers (pos n) = if ltb n 1 then 1 else if ltb 256 n then 256 else n

abbrev pub queue_cap : ℕ → ℕ
queue_cap workers = if ltb (workers * 256) 1024 then 1024 else workers * 256

-- The number of threads that start before the first that does not, of `n` from the index `i` on;
-- `starts` says whether the system starts the thread of an index.
unfoldable pub started_of : (ℕ → Bool) → ℕ → ℕ → ℕ
started_of starts i zero = 0
started_of starts i (suc n) = if starts i then suc (started_of starts (suc i) n) else 0

-- xiom_workerpool_create; `memory` says whether the three callocs give memory.
unfoldable pub create : (memory : Bool) → (ℕ → Bool) → ℤ → Option Pool
create memory starts workers =
    let n = clamp_workers workers in
    if not memory
    then none
    else if started_of starts 0 n == 0
    then none
    else some (record {
      ring = empty_ring (queue_cap n) no_task;
      cap = queue_cap n;
      workers = started_of starts 0 n;
      shutdown = false;
      joined = false;
      outstanding = 0;
      completed = 0;
    })

-- xiom_workerpool_submit_impl
unfoldable pub submit_impl : Task → Pool → Option (ℕ × Pool)
submit_impl t p =
    if t.fn == 0
    then some (0, p)
    else if (p.ring.count == p.cap) && not p.shutdown
    then none
    else if p.shutdown
    then some (0, p)
    else some (1, record p { ring = push p.cap t p.ring; outstanding = p.outstanding + 1 })

abbrev pub submit : ℕ → Pool → Option (ℕ × Pool)
submit fn p = submit_impl (record { fn = fn; arg = pos 0; has_arg = false }) p

abbrev pub submit_with : ℕ → ℤ → Pool → Option (ℕ × Pool)
submit_with fn arg p = submit_impl (record { fn = fn; arg = arg; has_arg = true }) p

-- The first critical section of xiom_workerpool_worker: the task, or `none` when the worker returns.
unfoldable pub take_task : Pool → Option (Option Task × Pool)
take_task p =
    if (p.ring.count == 0) && not p.shutdown
    then none
    else if (p.ring.count == 0) && p.shutdown
    then some (none, p)
    else let (t, ring) = pop p.cap no_task p.ring in some (some t, record p { ring = ring })

-- The second, behind the call of the task.
unfoldable pub finish_task : Pool → Pool
finish_task p = record p { completed = p.completed + 1; outstanding = p.outstanding - 1 }

-- xiom_workerpool_join
unfoldable pub join : Pool → Option ℤ
join p = if ltb 0 p.outstanding then none else some (pos 0)

-- The critical section of xiom_workerpool_shutdown, and whether the threads are joined behind it.
unfoldable pub shut : Pool → Pool × Bool
shut p =
    let q = if not p.shutdown then record p { shutdown = true } else p in
    if q.joined then (q, false) else (record q { joined = true }, true)

-- xiom_workerpool_size, xiom_workerpool_active and xiom_workerpool_completed
abbrev pub size : Pool → ℕ
size p = p.workers

abbrev pub active : Pool → ℕ
active p = p.outstanding

abbrev pub completed_of : Pool → ℕ
completed_of p = p.completed

-- The pool, the tasks that its workers are calling, and the tasks accepted and begun so far.
pub record System : Type 0 where
  pub pool : Pool
  pub running : List Task
  pub accepted : List Task
  pub begun : List Task

-- A critical section: of a caller that submits, of a worker that begins a task, of one whose `k`-th
-- running task has returned, and of a caller that shuts the pool down.
pub data Section : Type 0 where
  submits : Task → Section
  begins : Section
  ends : ℕ → Section
  shuts : Section

abbrev pub without : List Task → ℕ → List Task
without [] k = []
without (t ∷ ts) zero = ts
without (t ∷ ts) (suc k) = t ∷ without ts k

unfoldable pub step : Section → System → Option System
step (submits t) s = elim (submit_impl t s.pool) [
  | none ↦ none
  | some (ok, p) ↦
      some (record s { pool = p; accepted = s.accepted ++ (if ok == 0 then [] else t ∷ []) })
]
step begins s = elim (take_task s.pool) [
  | none ↦ none
  | some (none, p) ↦ some (record s { pool = p })
  | some (some t, p) ↦
      some (record s { pool = p; running = s.running ++ (t ∷ []); begun = s.begun ++ (t ∷ []) })
]
step (ends k) s =
    if ltb k (length s.running)
    then some (record s { pool = finish_task s.pool; running = without s.running k })
    else none
step shuts s = some (record s { pool = (shut s.pool).0 })

unfoldable pub run : List Section → System → Option System
run [] s = some s
run (e ∷ es) s = elim (step e s) [ none ↦ none | some s' ↦ run es s' ]
