-- ===== src/Wide.antt =====
-- The 128-bit division of the C runtime, for targets that link no compiler runtime
-- (runtime/xiom_runtime.c, 9169 to 9216).
pub mod Quotient
pub mod Signed
pub mod Remainder
pub mod Tests
use stdlib.Base.{
  ℕ, zero, suc, ◌+◌, ◌-◌, ◌*◌, ◌/◌, ◌%◌, ◌^◌, bit_or, Bool, true, false, ◌&&◌, ◌||◌, not, Option,
  none, some, ltb, leb, ◌==◌, if◌then◌else◌,
}
use stdlib.Base.Int.{ℤ, pos, negsuc, sub_ℕ, ◌-ℤ◌}

-- 2^128 and 2^127
abbrev pub full : ℕ
full = 340282366920938463463374607431768211456

abbrev pub half : ℕ
half = 170141183460469231731687303715884105728

-- The remainder shifted by one, with the next bit of the dividend.
abbrev pub shifted : ℕ → ℕ → ℕ → ℕ
shifted a k r = bit_or (r * 2 % full) (a / 2 ^ k % 2)

-- The test of one turn: the bit that the shift lost, or the comparison.
abbrev pub takes : ℕ → ℕ → ℕ → ℕ → Bool
takes a b k r = not (r / half == 0) || leb b (shifted a k r)

-- The turns of xiom_udivti3 for the bits below `k`.
unfoldable pub udiv_loop : ℕ → ℕ → ℕ → ℕ → ℕ → ℕ
udiv_loop zero a b q r = q
udiv_loop (suc k) a b q r =
    udiv_loop k a b (if takes a b k r then bit_or q (2 ^ k) else q)
      (if takes a b k r then (shifted a k r + full - b) % full else shifted a k r)

-- xiom_udivti3, and __udivti3, which is the same
unfoldable pub udivti3 : ℕ → ℕ → ℕ
udivti3 a b = udiv_loop 128 a b 0 0

-- __umodti3
unfoldable pub umodti3 : ℕ → ℕ → ℕ
umodti3 a b = (a + full - udivti3 a b * b % full) % full

abbrev pub is_negative : ℤ → Bool
is_negative (pos n) = false
is_negative (negsuc n) = true

-- The magnitude, as `(unsigned __int128)(-(a + 1)) + 1` has it.
abbrev pub magnitude : ℤ → ℕ
magnitude (pos n) = n
magnitude (negsuc n) = suc n

-- A pattern of 128 bits read as a signed number.
abbrev pub as_signed : ℕ → ℤ
as_signed n = if ltb n half then pos n else negsuc (full - 1 - n)

-- The negation of a signed number; that of the least one overflows.
abbrev pub negate : ℤ → Option ℤ
negate (pos zero) = some (pos zero)
negate (pos (suc n)) = some (negsuc n)
negate (negsuc n) = if suc n == half then none else some (pos (suc n))

-- __divti3; `none` is the signed overflow, which C leaves undefined.
unfoldable pub divti3 : ℤ → ℤ → Option ℤ
divti3 a b =
    if is_negative b && (magnitude b == 1) && is_negative a && (magnitude a == half)
    then some (negsuc (half - 1))
    else (let q = udivti3 (magnitude a) (magnitude b) in
        if not (is_negative a) && is_negative b || is_negative a && not (is_negative b)
        then negate (as_signed q)
        else some (as_signed q))

-- The product of two integers, by their signs.
abbrev pub times : ℤ → ℤ → ℤ
times (pos m) (pos n) = pos (m * n)
times (pos m) (negsuc n) = sub_ℕ 0 (m * suc n)
times (negsuc m) (pos n) = sub_ℕ 0 (suc m * n)
times (negsuc m) (negsuc n) = pos (suc m * suc n)

-- A number of 128 bits with a sign, and as the unsigned number of its pattern.
abbrev pub in_range : ℤ → Bool
in_range (pos n) = ltb n half
in_range (negsuc n) = ltb n half

abbrev pub unsigned : ℤ → ℕ
unsigned (pos n) = n
unsigned (negsuc n) = full - suc n

-- The product and the difference behind the division are signed, so that one out of range has no result.
unfoldable pub minus_product : ℤ → ℤ → Option ℤ → Option ℤ
minus_product a b none = none
minus_product a b (some q) =
    if in_range (times q b) && in_range (a -ℤ times q b) then some (a -ℤ times q b) else none

-- __modti3
unfoldable pub modti3 : ℤ → ℤ → Option ℤ
modti3 a b = minus_product a b (divti3 a b)

-- __multi3
abbrev pub multi3 : ℤ → ℤ → ℤ
multi3 a b = as_signed (unsigned a * unsigned b % full)
