-- ===== src/Quad/Compare.antt =====
-- The comparisons (runtime/fp128_helpers.c, 456 to 490).
use stdlib.Base.{◌%◌, ◌^◌, Bool, false, ◌&&◌, ◌||◌, not, ltb, ◌==◌, if◌then◌else◌}
use stdlib.Base.Int.{ℤ, pos, negsuc}
use stdlib.Quad.{F128, sign_of, isnan}

-- xiom_f128_cmp_unord_core
unfoldable pub cmp_unord : F128 → F128 → ℤ
cmp_unord a b = if isnan a || isnan b then pos 1 else pos 0

-- xiom_f128_cmp_eq_core
unfoldable pub cmp_eq : F128 → F128 → ℤ
cmp_eq a b =
    if isnan a || isnan b then pos 1 else if (a.hi == b.hi) && (a.lo == b.lo) then pos 0 else pos 1

abbrev pub is_nought : ℤ → Bool
is_nought (pos n) = n == 0
is_nought (negsuc n) = false

-- The comparison of the magnitudes; `negative` swaps the answers.
abbrev pub cmp_magnitudes : Bool → F128 → F128 → ℤ
cmp_magnitudes negative a b =
    let above = if negative then negsuc 0 else pos 1 in
    let below = if negative then pos 1 else negsuc 0 in
    if not (a.hi % 2 ^ 63 == b.hi % 2 ^ 63)
    then (if ltb (a.hi % 2 ^ 63) (b.hi % 2 ^ 63) then below else above)
    else if not (a.lo == b.lo)
    then (if ltb a.lo b.lo then below else above)
    else pos 0

-- xiom_f128_cmp_core
unfoldable pub cmp_core : F128 → F128 → ℤ
cmp_core a b =
    if isnan a || isnan b
    then pos 1
    else if is_nought (cmp_eq a b)
    then pos 0
    else if not (sign_of a == sign_of b)
    then (if sign_of a == 0 then pos 1 else negsuc 0)
    else cmp_magnitudes (not (sign_of a == 0)) a b

-- xiom_f128_cmp_get_core
unfoldable pub cmp_get : F128 → F128 → ℤ
cmp_get a b = elim (cmp_core a b) [
  | pos n ↦ (if n == 1 then pos 0 else pos n)
  | negsuc n ↦ negsuc n
]

-- xiom_f128_cmp_gt_core
unfoldable pub cmp_gt : F128 → F128 → ℤ
cmp_gt a b = elim (cmp_core a b) [ pos n ↦ (if ltb 0 n then pos 1 else pos 0) | negsuc n ↦ pos 0 ]

-- xiom_f128_cmp_le_core
unfoldable pub cmp_le : F128 → F128 → ℤ
cmp_le a b = elim (cmp_core a b) [
  | pos n ↦ (if n == 1 then pos 1 else if n == 0 then pos 0 else negsuc 0)
  | negsuc n ↦ negsuc 0
]

-- xiom_f128_cmp_lt_core
unfoldable pub cmp_lt : F128 → F128 → ℤ
cmp_lt a b = elim (cmp_core a b) [ pos n ↦ pos 0 | negsuc n ↦ negsuc 0 ]
