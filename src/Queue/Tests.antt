-- ===== src/Queue/Tests.antt =====
-- Runs of the channel and the worker pool (runtime/xiom_runtime.c, 7642 to 8045), and the theorems about
-- them at concrete inputs.
use stdlib.Base.{
  zero, suc, ◌≡◌, refl, inl, true, false, some, List, [], ◌∷◌, arith, replicate, length-replicate,
}
use stdlib.Base.Int.{pos, negsuc}
use stdlib.Queue.{Ring, empty_ring, push, pop}
use stdlib.Queue.Fifo.{empty_ring-IsRing}
use stdlib.Queue.Channel.{Channel, Move, sending, receiving, trying, create}
use stdlib.Queue.Traffic.{InOrder, run-InOrder}
use stdlib.Queue.Through.{Open, Through, channel-Through}
use stdlib.Queue.Pool.{
  Task, no_task, Pool, System, Section, submits, begins, ends, shuts, join, step, submit_impl,
  take_task, finish_task, shut,
}
use stdlib.Queue.Jobs.{IsSound, Sound, run-Sound}
use stdlib.Queue.Threads.{no_call, new_worker, Threads, threadpool_spawn}
use stdlib.Queue.Placed.{AreRings, Placed, threadpool_spawn-Placed}
use stdlib.Queue.Crew.{Crew, turn_of, called, crew_step, crew_run, join_threads, destroy}
use stdlib.Queue.Ended.{IsCrew, Ended, join_threads-Ended}

abbrev moves : List Move
moves = sending (pos 5) ∷ sending (negsuc 0) ∷ receiving ∷ trying ∷ trying ∷ []

run-InOrder_example : InOrder create (stdlib.Queue.Channel.run moves create)
run-InOrder_example = run-InOrder moves create (empty_ring-IsRing 64 (pos 0) (omega arith))

create-Open : Open 0 create
create-Open = record {
  unshut = refl;
  shape = empty_ring-IsRing 64 (pos 0) (omega arith);
  count = refl;
}

channel-Through_example : Through (pos 1 ∷ pos 2 ∷ pos 3 ∷ []) create
channel-Through_example =
    channel-Through (pos 1 ∷ pos 2 ∷ pos 3 ∷ []) create create-Open (omega arith)

-- A pool as created with one worker, and the same in a system with nothing submitted.
abbrev new_pool : Pool
new_pool = record {
  ring = empty_ring 1024 no_task;
  cap = 1024;
  workers = 1;
  shutdown = false;
  joined = false;
  outstanding = 0;
  completed = 0;
}

abbrev new_system : System
new_system = record { pool = new_pool; running = []; accepted = []; begun = [] }

new_system-IsSound : IsSound new_system
new_system-IsSound = record {
  shape = empty_ring-IsRing 1024 no_task (omega arith);
  order = refl;
  outstanding = refl;
  completed = refl;
}

abbrev job : Task
job = record { fn = 4096; arg = pos 3; has_arg = true }

abbrev sections : List Section
sections = submits job ∷ submits job ∷ begins ∷ begins ∷ ends 1 ∷ shuts ∷ submits job ∷ []

run-Sound_example : Sound (stdlib.Queue.Pool.run sections new_system)
run-Sound_example = run-Sound sections new_system new_system-IsSound

-- One job was run, and the ring stands one place further.
abbrev done_system : System
done_system = record {
  pool = record new_pool {
    ring = record { items = replicate 1024 job; head = 1; tail = 1; count = 0 };
    completed = 1;
  };
  running = [];
  accepted = job ∷ [];
  begun = job ∷ [];
}

done_system-IsSound : IsSound done_system
done_system-IsSound = record {
  shape = record {
    size = length-replicate 1024 job;
    head_lt = omega arith;
    count_le = omega arith;
    tail_at = refl;
  };
  order = refl;
  outstanding = refl;
  completed = refl;
}

done_joins : join done_system.pool ≡ some (pos 0)
unfolding join
done_joins = refl

-- One job runs and another is queued.
abbrev busy_system : System
busy_system = record {
  pool = record new_pool {
    ring = record { items = replicate 1024 job; head = 1; tail = 2; count = 1 };
    outstanding = 2;
    shutdown = true;
  };
  running = job ∷ [];
  accepted = job ∷ job ∷ [];
  begun = job ∷ [];
}

busy_system-IsSound : IsSound busy_system
busy_system-IsSound = record {
  shape = record {
    size = length-replicate 1024 job;
    head_lt = omega arith;
    count_le = omega arith;
    tail_at = refl;
  };
  order = refl;
  outstanding = refl;
  completed = refl;
}

-- The workers of a pool with one job running and another queued.
abbrev busy_crew : Crew
busy_crew = record {
  system = record busy_system { pool = record busy_system.pool { workers = 2 } };
  idle = 1;
  exited = 0;
  freed = false;
}

busy_crew-IsCrew : IsCrew busy_crew
busy_crew-IsCrew = record {
  sound = record {
    shape = busy_system-IsSound.shape;
    order = refl;
    outstanding = refl;
    completed = refl;
  };
  everyone = refl;
  closed = inl refl;
}

-- A shutdown by another thread has set the flags, and a destroy frees the pool while its workers are there.
freed_early : destroy false busy_crew ≡ some (record busy_crew { freed = true })
unfolding destroy
freed_early = refl

-- A pool whose one worker waits, a task of it, and the end of both.
abbrev new_crew : Crew
new_crew = record { system = new_system; idle = 1; exited = 0; freed = false }

new_crew-IsCrew : IsCrew new_crew
new_crew-IsCrew = record { sound = new_system-IsSound; everyone = refl; closed = inl refl }

abbrev working : List Section
working = submits job ∷ begins ∷ shuts ∷ ends 0 ∷ begins ∷ []

abbrev all_returned : Crew
all_returned = record {
  system = record {
    pool = record new_pool {
      ring = record { items = job ∷ replicate 1023 no_task; head = 1; tail = 1; count = 0 };
      shutdown = true;
      joined = true;
      completed = 1;
    };
    running = [];
    accepted = job ∷ [];
    begun = job ∷ [];
  };
  idle = 0;
  exited = 1;
  freed = false;
}

working_runs : crew_run working new_crew ≡ some all_returned
unfolding crew_run crew_step called turn_of step submit_impl take_task push finish_task shut pop
working_runs = refl

all_joined : join_threads all_returned ≡ some all_returned
unfolding join_threads
all_joined = refl

join_threads-Ended_example : Ended all_returned
join_threads-Ended_example =
    join_threads-Ended working new_crew all_returned new_crew-IsCrew working_runs (omega arith)
      all_joined

-- The worker in turn is full, and the next has room.
abbrev two_workers : Threads
two_workers = record {
  workers = record new_worker { tasks = record new_worker.tasks { count = 256 } } ∷ new_worker ∷ [];
  initialized = true;
  next_worker = 4;
  dedicated = [];
}

two_workers-AreRings : AreRings two_workers
two_workers-AreRings zero h = record {
  size = length-replicate 256 no_call;
  head_lt = omega arith;
  count_le = omega arith;
  tail_at = refl;
}
two_workers-AreRings (suc zero) h = empty_ring-IsRing 256 no_call (omega arith)
two_workers-AreRings (suc (suc i)) h = absurd (omega arith)

threadpool_spawn-Placed_example :
    Placed
      (record { fn = 5; arg = 6 })
      two_workers
      (threadpool_spawn (record { fn = 5; arg = 6 }) two_workers)
threadpool_spawn-Placed_example =
    threadpool_spawn-Placed (record { fn = 5; arg = 6 }) two_workers (omega arith)
      two_workers-AreRings (omega arith)
