-- ===== src/Quad.antt =====
-- The quadruple-precision numbers of the runtime (runtime/fp128_helpers.c): their fields, and the packing
-- and rounding of a result. A number is its bit pattern; a low mask is written as a remainder.
pub mod Arith
pub mod Convert
pub mod Compare
pub mod Fields
pub mod Lengths
pub mod Integers
pub mod Wide
pub mod Sums
pub mod Words
pub mod Products
pub mod Doubles
pub mod Order
pub mod Division
pub mod Infinite
pub mod Tests
use stdlib.Base.{
  ℕ, zero, suc, ◌+◌, ◌-◌, ◌*◌, ◌/◌, ◌%◌, ◌^◌, bit_or, Bool, ◌&&◌, ◌||◌, not, ltb, ◌==◌,
  if◌then◌else◌,
}
use stdlib.Base.Int.{ℤ, pos, negsuc, ◌+ℤ◌}
use stdlib.Base.Words.{u64, ◌<<<◌, ◌>>>◌}

-- xiom_f128
pub record F128 : Type 0 where
  pub lo : ℕ
  pub hi : ℕ

-- 2^128
abbrev pub full : ℕ
full = 340282366920938463463374607431768211456

-- XIOM_F128_EXP_MASK and XIOM_F128_BIAS
abbrev pub exp_mask : ℕ
exp_mask = 0x7FFF

abbrev pub bias : ℕ
bias = 16383

-- The three fields of the upper half, as every function takes them out.
abbrev pub sign_of : F128 → ℕ
sign_of f = f.hi >>> 63

abbrev pub exponent : F128 → ℕ
exponent f = (f.hi >>> 48) % 2 ^ 15

abbrev pub man_hi : F128 → ℕ
man_hi f = f.hi % 2 ^ 48

-- The significand with its implicit bit; the three parts of the `|` do not meet.
abbrev pub significand : F128 → ℕ
significand f = 2 ^ 112 + man_hi f * 2 ^ 64 + f.lo

-- xiom_f128_isnan, xiom_f128_isinf and xiom_f128_iszero
unfoldable pub isnan : F128 → Bool
isnan f = (exponent f == exp_mask) && not ((man_hi f == 0) && (f.lo == 0))

unfoldable pub isinf : F128 → Bool
isinf f = (exponent f == exp_mask) && (man_hi f == 0) && (f.lo == 0)

unfoldable pub iszero : F128 → Bool
iszero f = (f.hi % 2 ^ 63 == 0) && (f.lo == 0)

-- `exp & XIOM_F128_EXP_MASK` of an int, also where it is negative.
abbrev pub low15 : ℤ → ℕ
low15 (pos n) = n % 2 ^ 15
low15 (negsuc n) = 2 ^ 15 - 1 - n % 2 ^ 15

-- xiom_f128_pack
unfoldable pub pack : ℕ → ℤ → ℕ → ℕ → F128
pack sign exp mhi mlo = record {
  lo = mlo;
  hi = bit_or (bit_or ((sign % 2) <<< 63) (low15 exp <<< 48)) (mhi % 2 ^ 48);
}

-- The two halves of a significand, packed.
unfoldable pub pack_sig : ℕ → ℤ → ℕ → F128
pack_sig sign exp sig = pack sign exp (u64 (sig >>> 64)) (u64 sig)

-- The significand without its `drop + 1` guard bits, rounded to the nearest, ties to even.
abbrev pub rounded_sig : ℕ → ℕ → ℕ
rounded_sig sig drop =
    let rounded = sig >>> suc drop in
    if ((sig >>> drop) % 2 == 1) && (not (sig % 2 ^ drop == 0) || (rounded % 2 == 1))
    then rounded + 1
    else rounded

-- xiom_f128_round_pack
unfoldable pub round_pack : ℕ → ℤ → ℕ → ℕ → F128
round_pack sign exp sig zero = pack_sig sign exp sig
round_pack sign exp sig (suc drop) =
    let rounded = rounded_sig sig drop in
    if rounded >>> 113 == 0
    then pack_sig sign (if rounded == 0 then pos 0 else exp) rounded
    else pack_sig sign (if rounded >>> 1 == 0 then pos 0 else exp +ℤ pos 1) (rounded >>> 1)
