-- ===== src/Arrays/Tests.antt =====
-- Runs of the intrinsics on arrays (runtime/xiom_runtime.c, 7609 to 7639), and the theorem about them at a
-- concrete input.
use stdlib.Base.{◌≡◌, refl, some, List, [], ◌∷◌}
use stdlib.Base.Int.{ℤ, pos, negsuc}
use stdlib.Arrays.{sorted_loop, is_sorted}

abbrev elements : List ℤ
elements = negsuc 4 ∷ pos 2 ∷ pos 2 ∷ []

sorted_run : is_sorted (pos 3 ∷ elements) ≡ some 1
unfolding is_sorted sorted_loop
sorted_run = refl
