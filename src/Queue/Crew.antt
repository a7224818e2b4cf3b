-- ===== src/Queue/Crew.antt =====
-- The workers of a pool until they return, and the end of the pool (runtime/xiom_runtime.c, 7874 to 7905 and 7991 to
-- 8019).
use stdlib.Base.{
  ℕ, ◌+◌, ◌-◌, Bool, true, Option, none, some, List, [], ◌∷◌, ◌++◌, ◌==◌, if◌then◌else◌,
}
use stdlib.Queue.Pool.{Task, Pool, take_task, System, Section, submits, begins, ends, shuts, step}

-- The pool with its system; the workers that wait or are between two turns, those that have returned, and whether
-- the memory of the pool has been freed.
pub record Crew : Type 0 where
  pub system : System
  pub idle : ℕ
  pub exited : ℕ
  pub freed : Bool

-- What the first section of a turn gave the worker: nothing while it waits, its return, or a task.
unfoldable pub turn_of : Crew → Option (Option Task × Pool) → Option Crew
turn_of c none = none
turn_of c (some (none, p)) =
    some
      (record c { system = record c.system { pool = p }; idle = c.idle - 1; exited = c.exited + 1 })
turn_of c (some (some t, p)) = some (record c {
  system = record c.system {
    pool = p;
    running = c.system.running ++ (t ∷ []);
    begun = c.system.begun ++ (t ∷ []);
  };
  idle = c.idle - 1;
})

unfoldable pub called : Crew → Option System → ℕ → Option Crew
called c none idle = none
called c (some s) idle = some (record c { system = s; idle = idle })

-- xiom_workerpool_worker, section by section, between the sections of the callers; nobody can take a step in a pool
-- that was freed.
unfoldable pub crew_step : Section → Crew → Option Crew
crew_step (submits t) c = if c.freed then none else called c (step (submits t) c.system) c.idle
crew_step begins c =
    if c.freed then none else if c.idle == 0 then none else turn_of c (take_task c.system.pool)
crew_step (ends k) c = if c.freed then none else called c (step (ends k) c.system) (c.idle + 1)
crew_step shuts c = if c.freed then none else called c (step shuts c.system) c.idle

unfoldable pub crew_run : List Section → Crew → Option Crew
crew_run [] c = some c
crew_run (e ∷ es) c = elim (crew_step e c) [ none ↦ none | some c' ↦ crew_run es c' ]

-- The joins behind the section of xiom_workerpool_shutdown: they wait until every worker has returned.
unfoldable pub join_threads : Crew → Option Crew
join_threads c = if c.exited == c.system.pool.workers then some c else none

-- xiom_workerpool_destroy, behind the section of its shutdown: the call that found the pool joined already does not
-- wait, and frees.
unfoldable pub destroy : Bool → Crew → Option Crew
destroy joins c =
    if joins
    then elim (join_threads c) [ none ↦ none | some c' ↦ some (record c' { freed = true }) ]
    else some (record c { freed = true })
