-- ===== src/Text/Decimal.antt =====
-- `xiom_int_to_string` (runtime/xiom_runtime.c, 1542 to 1557) prints in base 10.
use mathlib.Core.List.{reverse}
use stdlib.Base.{
  ℕ, zero, suc, ◌+◌, ◌-◌, ◌*◌, ◌^◌, ◌≤◌, ◌<◌, ◌≡◌, some, List, [], ◌∷◌, ◌++◌, ◌==◌, if◌then◌else◌,
  length,
}
use stdlib.Base.Int.{ℤ, pos, negsuc}
use stdlib.Text.{digits_loop}

-- The number that a list of digit characters spells, after `acc`.
abbrev pub spelled : ℕ → List ℕ → ℕ
spelled acc [] = acc
spelled acc (c ∷ cs) = spelled (acc * 10 + (c - 48)) cs

abbrev negate : ℕ → ℤ
negate zero = pos 0
negate (suc n) = negsuc n

-- The number that an optional minus sign and digits spell.
abbrev pub int_of : List ℕ → ℤ
int_of [] = pos 0
int_of (c ∷ cs) = if c == 45 then negate (spelled 0 cs) else pos (spelled 0 (c ∷ cs))

abbrev Digits : List ℕ → Type 0
Digits [] = Unit
Digits (c ∷ cs) = (48 ≤ c) × Digits cs

-- What the loop appends to `tmp`: the digits of `u`, lowest first.
record Printed (f u : ℕ) (tmp : List ℕ) : Type 0 where
  ds : List ℕ
  returns : digits_loop f u tmp ≡ some (tmp ++ ds)
  value : spelled 0 (reverse ds) ≡ u
  digits : Digits ds
  count : length ds ≤ f

-- The `long long` values.
abbrev pub IsLong : ℤ → Type 0
IsLong (pos n) = n < 2 ^ 63
IsLong (negsuc k) = k < 2 ^ 63
