-- ===== src/Intern/Tests.antt =====
-- A run of the table of interned names (runtime/xiom_runtime.c, 1602 to 1629), and the theorem about it at
-- a concrete input.
use stdlib.Base.{ℕ, ◌≡◌, refl, true, arith, some, List, [], ◌∷◌}
use stdlib.Base.Int.{pos}
use stdlib.Intern.{intern, search_name}
use stdlib.Intern.Names.{Interned, intern-Interned}

abbrev source : List ℕ
source = 97 ∷ 98 ∷ 97 ∷ 98 ∷ 99 ∷ []

known_again :
    intern true (some source) 2 (pos 2) ((97 ∷ 98 ∷ []) ∷ []) ≡ some (1, (97 ∷ 98 ∷ []) ∷ [])
unfolding intern search_name
known_again = refl

intern-Interned_example :
    Interned
      (98 ∷ 97 ∷ 98 ∷ [])
      3
      ((97 ∷ 98 ∷ []) ∷ [])
      (intern true (some source) 1 (pos 3) ((97 ∷ 98 ∷ []) ∷ []))
intern-Interned_example = intern-Interned source 1 (pos 3) ((97 ∷ 98 ∷ []) ∷ []) (omega arith)
