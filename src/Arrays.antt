-- ===== src/Arrays.antt =====
-- The intrinsics on arrays of signed words (runtime/xiom_runtime.c, 7609 to 7639). An array that carries its
-- count has it at index 0 and its elements behind; a read outside the array has no result.
pub mod Contains
pub mod Tests
use stdlib.Base.{
  ℕ, zero, suc, ◌+◌, ◌-◌, Bool, true, false, Option, none, some, List, [], ◌∷◌, ltb, ◌==◌,
  if◌then◌else◌, get_elem?,
}
use stdlib.Base.Int.{ℤ, pos, negsuc, to_ℕ}

abbrev pub is_greater : ℤ → ℤ → Bool
is_greater (pos a) (pos b) = ltb b a
is_greater (pos a) (negsuc b) = true
is_greater (negsuc a) (pos b) = false
is_greater (negsuc a) (negsuc b) = ltb a b

abbrev pub same_word : ℤ → ℤ → Bool
same_word (pos a) (pos b) = a == b
same_word (pos a) (negsuc b) = false
same_word (negsuc a) (pos b) = false
same_word (negsuc a) (negsuc b) = a == b

-- The loop of xiom_is_sorted from the index `i` on.
unfoldable pub sorted_loop : ℕ → List ℤ → ℕ → Option ℕ
sorted_loop zero array i = some 1
sorted_loop (suc left) array i =
    let rest = sorted_loop left array (i + 1) in
    elim (get_elem? array i) [
      | none ↦ none
      | some a ↦ elim (get_elem? array (i + 1)) [
        | none ↦ none
        | some b ↦ if is_greater a b then some 0 else rest
      ]
    ]

-- xiom_is_sorted
unfoldable pub is_sorted : List ℤ → Option ℕ
is_sorted [] = none
is_sorted (len ∷ elements) = sorted_loop (to_ℕ len - 1) (len ∷ elements) 1

-- The loop of xiom_contains, over the elements from one on.
unfoldable pub contains_loop : ℕ → List ℤ → ℤ → Option ℕ
contains_loop zero elements val = some 0
contains_loop (suc left) [] val = none
contains_loop (suc left) (x ∷ xs) val =
    let rest = contains_loop left xs val in if same_word x val then some 1 else rest

-- xiom_contains
unfoldable pub array_contains : List ℤ → ℤ → Option ℕ
array_contains [] val = none
array_contains (len ∷ elements) val = contains_loop (to_ℕ len) elements val

-- The loops of xiom_all and xiom_none over the results of the predicate; they do not read the array.
unfoldable pub all_loop : ℕ → List ℤ → Option ℕ
all_loop zero pred = some 1
all_loop (suc left) [] = none
all_loop (suc left) (p ∷ ps) =
    let rest = all_loop left ps in if same_word p (pos 0) then some 0 else rest

unfoldable pub none_loop : ℕ → List ℤ → Option ℕ
none_loop zero pred = some 1
none_loop (suc left) [] = none
none_loop (suc left) (p ∷ ps) =
    let rest = none_loop left ps in if same_word p (pos 0) then rest else some 0

-- xiom_all and xiom_none
abbrev pub all_of : List ℤ → ℤ → List ℤ → Option ℕ
all_of array len pred = all_loop (to_ℕ len) pred

abbrev pub none_of : List ℤ → ℤ → List ℤ → Option ℕ
none_of array len pred = none_loop (to_ℕ len) pred
