-- ===== src/Guard/Nesting.antt =====
-- Nested confined blocks: `xiom_guard_heap_enter` and `xiom_guard_heap_exit`
-- (runtime/xiom_runtime.c, 523 to 558).
use stdlib.Base.{
  ℕ, zero, suc, ◌+◌, ◌-◌, ◌≡◌, refl, sym, ap, true, Option, none, some, List, [], ◌∷◌, ◌++◌, arith,
  ltb,
}
use mathlib.Core.List.{append_assoc}
use stdlib.Guard.Arena.{Slab, Thread, emptied, heap_enter, heap_exit}

-- A call of the instrumented code.
pub data Edge : Type 0 where
  enter : Edge
  exit : Edge

-- The calls in turn, with the slabs that they unmap.
unfoldable pub step : Edge → Thread → Thread × List Slab
step enter s = (heap_enter s, [])
step exit s = heap_exit s

unfoldable pub run : List Edge → Thread → Thread × List Slab
run [] s = (s, [])
run (e ∷ es) s = let (s', gone) = step e s in let (s'', more) = run es s' in (s'', gone ++ more)

-- The depth of blocks after the calls, `none` when a call leaves the outermost of them.
unfoldable pub depth : ℕ → List Edge → Option ℕ
depth d [] = some d
depth d (enter ∷ es) = depth (suc d) es
depth zero (exit ∷ es) = none
depth (suc zero) (exit ∷ es) = none
depth (suc (suc d)) (exit ∷ es) = depth (suc d) es

-- A thread at another depth.
abbrev pub at_depth : Thread → ℕ → Thread
at_depth s d = record s { arena = record s.arena { active = d } }

succ : (d : ℕ) → d + 1 ≡ suc d
succ d = omega arith

enter_inside :
    (s : Thread) (d : ℕ) → s.initialized ≡ true → heap_enter (at_depth s d) ≡ at_depth s (suc d)
unfolding heap_enter
enter_inside s d e = rw (e, succ d) refl

exit_inside : (s : Thread) (d : ℕ) → heap_exit (at_depth s (suc (suc d))) ≡ (at_depth s (suc d), [])
unfolding heap_exit
exit_inside s d =
    let still : ltb 0 (suc (suc d) - 1) ≡ true = ground arith in
    let less : suc (suc d) - 1 ≡ suc d = omega arith in rw (still, less) refl

exit_outermost :
    (s : Thread)
    → heap_exit (at_depth s 1) ≡ (record s { arena = emptied (at_depth s 0).arena }, s.arena.slabs)
unfolding heap_exit
exit_outermost s = refl

-- Inside a confined block, entering and leaving nested blocks keeps the slabs, the cursor and the free
-- lists, and unmaps nothing, as long as the calls do not leave the outermost block: only the depth
-- changes.
pub run_inside :
    (s : Thread) (d e : ℕ) (es : List Edge)
    → s.initialized ≡ true
    → depth (suc d) es ≡ some e
    → run es (at_depth s (suc d)) ≡ (at_depth s e, [])
unfolding run step depth
run_inside s d e [] on h = ap (λ k. (at_depth s k, [])) cc
run_inside s d e (enter ∷ es) on h =
    rw (enter_inside s (suc d) on, run_inside s (suc d) e es on h) refl
run_inside s zero e (exit ∷ es) on h = cc
run_inside s (suc d) e (exit ∷ es) on h = rw (exit_inside s d, run_inside s d e es on h) refl

run-append :
    (xs ys : List Edge) (s : Thread)
    → run (xs ++ ys) s ≡ ((run ys (run xs s).0).0, (run xs s).1 ++ (run ys (run xs s).0).1)
unfolding run
run-append [] ys s = refl
run-append (x ∷ xs) ys s =
    rw (run-append xs ys (step x s).0) (
      ap (λ gone. ((run ys (run xs (step x s).0).0).0, gone)) (sym (append_assoc (step x s).1 _ _)))

-- A whole outermost block: after any balanced nesting inside it, its last exit unmaps every slab, once,
-- and leaves an arena with no slab, no cursor and no free block, at depth 0.
pub run_block :
    (s : Thread) (es : List Edge)
    → s.initialized ≡ true
    → depth 1 es ≡ some 1
    → run (es ++ (exit ∷ [])) (at_depth s 1)
      ≡ (record s { arena = emptied (at_depth s 0).arena }, s.arena.slabs ++ [])
unfolding run step
run_block s es on h =
    rw (run-append es (exit ∷ []) (at_depth s 1), run_inside s 0 1 es on h, exit_outermost s) refl
