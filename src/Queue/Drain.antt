-- ===== src/Queue/Drain.antt =====
-- Joining the worker pool (runtime/xiom_runtime.c, 7874 to 7905 and 7980 to 7989).
use stdlib.Base.{
  ◌-◌, ◌<◌, ◌≡◌, refl, sym, ap, ◌∙◌, inl, inr, true, false, some, List, [], ◌∷◌, ◌++◌, arith, ltb,
  ◌==◌, length, Bool-cases,
}
use mathlib.Core.List.{append-nil}
use stdlib.Base.Int.{pos}
use stdlib.Queue.{pop}
use stdlib.Queue.Fifo.{gather}
use stdlib.Queue.Pool.{
  Task, no_task, Pool, take_task, finish_task, join, System, ends, without, step,
}
use stdlib.Queue.Jobs.{IsSound}

no_tasks : (ts : List Task) → length ts ≡ 0 → ts ≡ []
no_tasks [] h = refl
no_tasks (t ∷ ts) h = cc

-- When a join returns, every task that was accepted has begun, and has ended.
pub join_complete :
    (s : System)
    → IsSound s
    → join s.pool ≡ some (pos 0)
    → (s.begun ≡ s.accepted) × (s.running ≡ []) × (s.pool.completed ≡ length s.accepted)
unfolding join
join_complete s v h = elim (Bool-cases (ltb 0 s.pool.outstanding)) [
  | inl busy ↦ cc
  | inr idle ↦
      let none_out : s.pool.outstanding ≡ 0 = ground arith in
      let none_queued : s.pool.ring.count ≡ 0 = omega (arith, v.outstanding) in
      let none_runs : length s.running ≡ 0 = omega (arith, v.outstanding) in
      let all_begun : s.begun ≡ s.accepted =
        sym (append-nil s.begun)
        ∙ ap (λ k. s.begun ++ gather s.pool.ring.items s.pool.cap no_task s.pool.ring.head k)
            (sym none_queued)
        ∙ v.order in
      (
        all_begun,
        no_tasks s.running none_runs,
        omega (arith, v.completed, none_runs, ap length all_begun),
      )
]

pub step_ends :
    (s : System)
    → 0 < length s.running
    → step (ends 0) s ≡ some (record s { pool = finish_task s.pool; running = without s.running 0 })
unfolding step
step_ends s h = let lt : ltb 0 (length s.running) ≡ true = ground arith in rw lt refl

pub take_filled :
    (p : Pool)
    → 0 < p.ring.count
    → take_task p
      ≡ some (some (pop p.cap no_task p.ring).0, record p { ring = (pop p.cap no_task p.ring).1 })
unfolding take_task
take_filled p h = let filled : (p.ring.count == 0) ≡ false = ground arith in rw filled refl

pub count-pop : (s : System) → (pop s.pool.cap no_task s.pool.ring).1.count ≡ s.pool.ring.count - 1
unfolding pop
count-pop s = refl
