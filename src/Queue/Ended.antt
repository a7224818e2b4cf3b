-- ===== src/Queue/Ended.antt =====
-- What a pool has done when its shutdown returns (runtime/xiom_runtime.c, 7874 to 7905 and 7991 to
-- 8008).
use stdlib.Base.{
  ℕ, ◌+◌, ◌<◌, ◌≡◌, refl, sym, ap, ◌∙◌, ◌⊎◌, inl, inr, true, false, Option, none, some, List, [],
  ◌∷◌, arith, ltb, ◌==◌, length, length-append, Bool-cases, if_either,
}
use stdlib.Base.Int.{pos}
use stdlib.Queue.{push, pop}
use stdlib.Queue.Pool.{
  Task, no_task, Pool, submit_impl, take_task, finish_task, shut, join, System, Section, submits,
  begins, ends, shuts, without, step,
}
use stdlib.Queue.Jobs.{
  IsSound, accepted_one, more_accepted, shut-IsSound, ended_one, submit_cases, take_cases,
  begun_one, length-without,
}
use stdlib.Queue.Drain.{join_complete}
use stdlib.Queue.Crew.{Crew, turn_of, called, crew_step, crew_run, join_threads}

-- A worker is idle, runs a task or has returned; once one has returned, the pool is shut and its queue is empty.
pub record IsCrew (c : Crew) : Type 0 where
  pub sound : IsSound c.system
  pub everyone : c.idle + length c.system.running + c.exited ≡ c.system.pool.workers
  pub closed : (c.exited ≡ 0) ⊎ ((c.system.pool.shutdown ≡ true) × (c.system.pool.ring.count ≡ 0))

abbrev pub Manned : Option Crew → Type 0
Manned none = Unit {0}
Manned (some c) = IsCrew c

-- What a call of a caller leaves: the workers and what runs, and a closed pool closed.
record Kept (s : System) (u : System) : Type 0 where
  sound : IsSound u
  workers : u.pool.workers ≡ s.pool.workers
  runs : length u.running ≡ length s.running
  still :
      s.pool.shutdown ≡ true → (u.pool.shutdown ≡ true) × (u.pool.ring.count ≡ s.pool.ring.count)

abbrev KeptBy : System → Option System → Type 0
KeptBy s none = Unit {0}
KeptBy s (some u) = Kept s u

called-Manned :
    (c : Crew) (r : Option System) → IsCrew c → KeptBy c.system r → Manned (called c r c.idle)
unfolding called
called-Manned c none h k = tt
called-Manned c (some u) h k = record {
  sound = k.sound;
  everyone = omega (arith, h.everyone, k.workers, k.runs);
  closed = elim h.closed [
    | inl fresh ↦ inl fresh
    | inr (down, empty) ↦ inr ((k.still down).0, (k.still down).1 ∙ empty)
  ];
}

refused_down : (t : Task) (p : Pool) → p.shutdown ≡ true → submit_impl t p ≡ some (0, p)
unfolding submit_impl
refused_down t p down = elim (Bool-cases (t.fn == 0)) [
  | inl null ↦ rw null refl
  | inr given ↦ elim (Bool-cases (p.ring.count == p.cap)) [
    | inl full ↦ rw (given, full, down) refl
    | inr room ↦ rw (given, room, down) refl
  ]
]

submits-Kept : (t : Task) (s : System) → IsSound s → KeptBy s (step (submits t) s)
unfolding step push
submits-Kept t s v = elim (submit_cases t s.pool) [
  | inl waits ↦ rw (KeptBy, waits) tt
  | inr (inl refused) ↦
      rw (KeptBy, refused)
        (record {
          sound = more_accepted s v;
          workers = refl;
          runs = refl;
          still = λ down. (down, refl);
        })
  | inr (inr (room, put)) ↦
      rw (KeptBy, put)
        (record {
          sound = accepted_one s t v (ground (arith, v.shape.count_le));
          workers = refl;
          runs = refl;
          still = λ down. absurd (let clash = sym put ∙ refused_down t s.pool down in cc);
        })
]

-- The section of a shutdown changes its two flags alone.
shut_keeps :
    (p : Pool)
    → ((shut p).0.workers ≡ p.workers) × ((shut p).0.ring ≡ p.ring) × ((shut p).0.shutdown ≡ true)
unfolding shut
shut_keeps p = elim (Bool-cases p.shutdown) [
  | inl down ↦ elim (Bool-cases p.joined) [
    | inl j ↦ rw (down, j) (refl, refl, refl)
    | inr j ↦ rw (down, j) (refl, refl, refl)
  ]
  | inr up ↦ elim (Bool-cases p.joined) [
    | inl j ↦ rw (up, j) (refl, refl, refl)
    | inr j ↦ rw (up, j) (refl, refl, refl)
  ]
]

shuts-Kept : (s : System) → IsSound s → Kept s (record s { pool = (shut s.pool).0 })
shuts-Kept s v =
    let (workers, ring, down) = shut_keeps s.pool in
    record {
      sound = shut-IsSound s v;
      workers = workers;
      runs = refl;
      still = λ d. (down, ap (λ r. r.count) ring);
    }

-- A worker that returns found the pool shut and the queue empty.
leaves_closed : (p : Pool) → take_task p ≡ some (none, p) → (p.shutdown ≡ true) × (p.ring.count ≡ 0)
unfolding take_task
leaves_closed p h = elim (Bool-cases (p.ring.count == 0)) [
  | inr filled ↦ absurd (let clash = rw filled at h in cc)
  | inl empty ↦ elim (Bool-cases p.shutdown) [
    | inl down ↦ (down, ground arith)
    | inr up ↦ absurd (let clash = rw (empty, up) at h in cc)
  ]
]

pub begins-Manned :
    (c : Crew) → 0 < c.idle → IsCrew c → Manned (turn_of c (take_task c.system.pool))
unfolding turn_of pop
begins-Manned c some_idle h = elim (take_cases c.system.pool) [
  | inl waits ↦ rw (Manned, waits) tt
  | inr (inl leaves) ↦
      rw (Manned, leaves)
        (record {
          sound = h.sound;
          everyone = omega (arith, h.everyone);
          closed = inr (leaves_closed c.system.pool leaves);
        })
  | inr (inr (filled, got)) ↦
      rw (Manned, got)
        (record {
          sound = begun_one c.system h.sound filled;
          everyone = omega (
            arith,
            h.everyone,
            length-append c.system.running
                ((pop c.system.pool.cap no_task c.system.pool.ring).0 ∷ []),
          );
          closed = elim h.closed [
            | inl fresh ↦ inl fresh
            | inr (down, empty) ↦ absurd (omega (arith, filled, empty))
          ];
        })
]

pub ended-IsCrew :
    (c : Crew) (k : ℕ)
    → IsCrew c
    → k < length c.system.running
    → IsCrew (record c {
      system = record c.system {
        pool = finish_task c.system.pool;
        running = without c.system.running k;
      };
      idle = c.idle + 1;
    })
unfolding finish_task
ended-IsCrew c k h lt = record {
  sound = ended_one c.system k h.sound lt;
  everyone = omega (arith, h.everyone, length-without c.system.running k lt);
  closed = h.closed;
}

crew_step-Manned : (e : Section) (c : Crew) → IsCrew c → Manned (crew_step e c)
unfolding crew_step step
crew_step-Manned (submits t) c h =
    if_either Manned c.freed tt
      (called-Manned c (step (submits t) c.system) h (submits-Kept t c.system h.sound))
crew_step-Manned begins c h = elim (Bool-cases (c.idle == 0)) [
  | inl none_idle ↦ if_either Manned c.freed tt (rw (Manned, none_idle) tt)
  | inr some_idle ↦ if_either Manned c.freed tt (rw some_idle (begins-Manned c (ground arith) h))
]
crew_step-Manned (ends k) c h = elim (Bool-cases (ltb k (length c.system.running))) [
  | inl lt ↦
      if_either Manned c.freed tt (unfold called in rw lt (ended-IsCrew c k h (ground arith)))
  | inr ge ↦ if_either Manned c.freed tt (unfold called in rw (Manned, ge) tt)
]
crew_step-Manned shuts c h =
    if_either Manned c.freed tt (called-Manned c (some _) h (shuts-Kept c.system h.sound))

going_on :
    (es : List Section) (r : Option Crew)
    → Manned r
    → ((c : Crew) → IsCrew c → Manned (crew_run es c))
    → Manned (elim r [ none ↦ none | some c ↦ crew_run es c ])
going_on es none h k = tt
going_on es (some c) h k = k c h

pub crew_run-Manned : (es : List Section) (c : Crew) → IsCrew c → Manned (crew_run es c)
unfolding crew_run
crew_run-Manned [] c h = h
crew_run-Manned (e ∷ es) c h =
    going_on es (crew_step e c) (crew_step-Manned e c h) (crew_run-Manned es)

-- A pool with nothing queued and nothing running joins.
idle_join :
    (s : System)
    → IsSound s
    → length s.running ≡ 0
    → s.pool.ring.count ≡ 0
    → join s.pool ≡ some (pos 0)
unfolding join
idle_join s v e1 e2 =
    let none_out : ltb 0 s.pool.outstanding ≡ false = ground (arith, v.outstanding) in
    rw none_out refl

-- What holds when the threads of a pool have been joined.
pub record Ended (c : Crew) : Type 0 where
  pub begun : c.system.begun ≡ c.system.accepted
  pub idle : c.idle ≡ 0
  pub running : c.system.running ≡ []
  pub completed : c.system.pool.completed ≡ length c.system.accepted
  pub closed : c.system.pool.shutdown ≡ true

-- When the joins of a shutdown return, after any run of callers and workers of a pool with at least one worker, no
-- worker is left, every task that was accepted has begun and ended, and the pool is shut.
pub join_threads-Ended :
    (es : List Section) (c last : Crew)
    → IsCrew c
    → crew_run es c ≡ some last
    → 0 < last.system.pool.workers
    → join_threads last ≡ some last
    → Ended last
unfolding join_threads
join_threads-Ended es c last h ran manned joined =
    let manned_last = crew_run-Manned es c h in
    let reached : IsCrew last = rw (Manned, ran) at manned_last in
    elim (Bool-cases (last.exited == last.system.pool.workers)) [
      | inr waits ↦ absurd (let clash = rw waits at joined in cc)
      | inl all ↦
          let gone : last.exited ≡ last.system.pool.workers = ground arith in
          elim reached.closed [
            | inl none_gone ↦ absurd (omega (arith, gone, none_gone))
            | inr (down, empty) ↦
                let none_runs : length last.system.running ≡ 0 =
                  omega (arith, reached.everyone, gone) in
                let done : join last.system.pool ≡ some (pos 0) =
                  idle_join last.system reached.sound none_runs empty in
                let (begun, running, completed) = join_complete last.system reached.sound done in
                record {
                  begun = begun;
                  idle = omega (arith, reached.everyone, gone);
                  running = running;
                  completed = completed;
                  closed = down;
                }
          ]
    ]
