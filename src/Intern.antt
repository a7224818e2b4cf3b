-- ===== src/Intern.antt =====
-- The table of interned names (runtime/xiom_runtime.c, 1602 to 1629).
pub mod Names
pub mod Tests
use stdlib.Base.{
  ℕ, zero, suc, ◌+◌, ◌-◌, ◌≤◌, Bool, true, false, ◌&&◌, not, Option, none, some, List, [], ◌∷◌,
  ◌++◌, ltb, leb, ◌==◌, if◌then◌else◌, length, get_elem?, take, drop, eq_list,
}
use stdlib.Base.Int.{ℤ, pos, negsuc, to_ℕ}

-- MAX_STRINGS
abbrev pub max_strings : ℕ
max_strings = 16384

-- string_table and string_count, which is its length
abbrev pub Names : Type 0
Names = List (List ℕ)

-- The `len` bytes of the source at `pos`, as `strncmp` and `strncpy` take them.
abbrev pub piece : List ℕ → ℕ → ℕ → List ℕ
piece source at len = take len (drop at source)

-- The search, with the index of the first string of the list.
unfoldable pub search_name : List ℕ → ℕ → ℕ → Names → Option ℕ
search_name name len i [] = none
search_name name len i (s ∷ rest) =
    let later = search_name name len (i + 1) rest in
    if (length s == len) && eq_list s name then some i else later

-- xiom_intern; `memory` says whether malloc gives memory for the copy. A position past the end of the source, and
-- the copy to NULL, have no result.
unfoldable pub intern : (memory : Bool) → Option (List ℕ) → ℕ → ℤ → Names → Option (ℕ × Names)
intern memory none at len names = some (0, names)
intern memory (some source) at len names =
    if to_ℕ len == 0
    then some (0, names)
    else if ltb (length source) at
    then none
    else elim (search_name (piece source at (to_ℕ len)) (to_ℕ len) 0 names) [
      | some i ↦ some (i + 1, names)
      | none ↦
          if leb max_strings (length names)
          then some (0, names)
          else if memory
          then some (length names + 1, names ++ (piece source at (to_ℕ len) ∷ []))
          else none
    ]

-- xiom_lookup
unfoldable pub lookup : ℤ → Names → Option (List ℕ)
lookup (negsuc n) names = none
lookup (pos zero) names = none
lookup (pos (suc n)) names = if ltb (length names) (suc n) then none else get_elem? names n
