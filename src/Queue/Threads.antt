-- ===== src/Queue/Threads.antt =====
-- The process-wide thread pool (runtime/xiom_runtime.c, 7716 to 7830): a ring of tasks for each worker, and
-- the choice of a worker by turns. A turn of a worker holds its lock throughout. A spawn locks the workers one
-- after another, handing the lock on; it is one step here, with nothing of another thread in between. The
-- number of processors and the memory of the workers are outside.
use stdlib.Base.{
  ℕ, zero, suc, ◌+◌, ◌-◌, ◌%◌, ◌^◌, leb, Bool, true, false, ◌&&◌, not, Option, none, some, List, [],
  ◌∷◌, ◌++◌, ltb, ◌==◌, if◌then◌else◌, length, get_or, set, replicate,
}
use stdlib.Base.Int.{ℤ, to_ℕ}
use stdlib.Queue.{Ring, empty_ring, push, pop}

-- xiom_tp_task_t
pub record Call : Type 0 where
  pub fn : ℕ
  pub arg : ℕ

abbrev pub no_call : Call
no_call = record { fn = 0; arg = 0 }

-- xiom_tp_worker_t
pub record Worker : Type 0 where
  pub tasks : Ring Call
  pub shutdown : Bool

abbrev pub new_worker : Worker
new_worker = record { tasks = empty_ring 256 no_call; shutdown = false }

-- xiom_tp_workers, xiom_tp_initialized, xiom_tp_next_worker and the calls that got a thread of their own.
pub record Threads : Type 0 where
  pub workers : List Worker
  pub initialized : Bool
  pub next_worker : ℕ
  pub dedicated : List Call

-- xiom_threadpool_init, for the number of processors.
unfoldable pub threadpool_init : ℕ → ℤ → Threads → Threads
threadpool_init processors num_workers p =
    if p.initialized
    then p
    else let asked =
        if to_ℕ num_workers == 0
        then (if ltb processors 1 then 1 else processors)
        else to_ℕ num_workers in
      record p {
        workers = replicate (if ltb 64 asked then 64 else asked) new_worker;
        initialized = true;
      }

-- One turn of xiom_tp_worker_loop up to the call: none while it waits, no task when the worker returns.
unfoldable pub next_call : Worker → Option (Option Call × Worker)
next_call w =
    if (w.tasks.count == 0) && not w.shutdown
    then none
    else if w.shutdown && (w.tasks.count == 0)
    then some (none, w)
    else let (call, tasks) = pop 256 no_call w.tasks in some (some call, record w { tasks = tasks })

abbrev pub has_room : List Worker → ℕ → Bool
has_room ws i = ltb (get_or ws i new_worker).tasks.count 256

-- The loop over the next workers in turn: the first with room, or the last one tried.
unfoldable pub next_with_room : ℕ → List Worker → ℕ → ℕ → ℕ → ℕ
next_with_room zero ws wid i last = last
next_with_room (suc left) ws wid i last =
    let alt = (wid + i) % length ws in
    let rest = next_with_room left ws wid (i + 1) alt in if has_room ws alt then alt else rest

abbrev pub choose : List Worker → ℕ → ℕ
choose ws wid = if has_room ws wid then wid else next_with_room (length ws - 1) ws wid 1 wid

abbrev pub enqueue : Call → List Worker → ℕ → List Worker
enqueue call ws i =
    set ws i
      (record (get_or ws i new_worker) { tasks = push 256 call (get_or ws i new_worker).tasks })

-- xiom_threadpool_spawn, once the pool is initialized. The counter of the turns is an int, whose overflow has no
-- result.
unfoldable pub threadpool_spawn : Call → Threads → Option Threads
threadpool_spawn call p =
    let wid = p.next_worker % length p.workers in
    let chosen = choose p.workers wid in
    if leb (2 ^ 31 - 1) p.next_worker
    then none
    else if has_room p.workers chosen
    then some
        (record p { workers = enqueue call p.workers chosen; next_worker = p.next_worker + 1 })
    else some (record p { dedicated = p.dedicated ++ (call ∷ []); next_worker = p.next_worker + 1 })
