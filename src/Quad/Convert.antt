-- ===== src/Quad/Convert.antt =====
-- The conversions from and to integers and doubles (runtime/fp128_helpers.c, 271 to 308, 346 to 360 and
-- 365 to 454). A double is its bit pattern.
use stdlib.Base.{
  ℕ, zero, suc, ◌+◌, ◌-◌, ◌*◌, ◌/◌, ◌%◌, ◌^◌, bit_or, Bool, ◌&&◌, ◌||◌, not, Option, none, some,
  ltb, leb, ◌==◌, if◌then◌else◌,
}
use stdlib.Base.Int.{ℤ, pos, negsuc, sub_ℕ}
use stdlib.Base.Words.{u64, ◌<<<◌, ◌>>>◌}
use stdlib.Quad.{
  F128, full, bias, sign_of, exponent, man_hi, significand, isnan, isinf, pack, pack_sig,
}
use stdlib.Quad.Arith.{norm_loop}

-- The turns of `while (t) { t >>= 1; n++; }`
unfoldable pub count_bits : ℕ → ℕ → ℕ → ℕ
count_bits zero t n = n
count_bits (suc fuel) t n = let rest = count_bits fuel (t / 2) (n + 1) in if t == 0 then n else rest

-- The number of a sign and a magnitude that is not 0 and fits 64 bits.
unfoldable pub from_magnitude : ℕ → ℕ → F128
from_magnitude sign mag =
    let n = count_bits 64 mag 0 in
    pack_sig sign (pos (bias + n - 1)) (mag <<< (112 - (n - 1)) % full)

-- xiom_f128_from_i64_impl
unfoldable pub from_i64 : ℤ → F128
from_i64 (pos n) = if n == 0 then pack 0 (pos 0) 0 0 else from_magnitude 0 n
from_i64 (negsuc n) = from_magnitude 1 (n + 1)

-- xiom_f128_from_u64_impl
unfoldable pub from_u64 : ℕ → F128
from_u64 u = if u == 0 then pack 0 (pos 0) 0 0 else from_magnitude 0 u

-- xiom_f128_from_i128_sret, with the pattern `v`
unfoldable pub from_i128 : ℕ → Bool → F128
from_i128 v neg =
    let sign = if neg then 1 else 0 in
    let u = if neg then (full - v) % full else v in
    if u == 0
    then pack sign (pos 0) 0 0
    else (let (t, n) = norm_loop 128 u 128 in pack_sig sign (pos (bias + n - 1)) (t >>> 15))

-- xiom_f128_from_f64_impl
unfoldable pub from_f64 : ℕ → F128
from_f64 bits =
    let sign = bits >>> 63 in
    let e = (bits >>> 52) % 2 ^ 11 in
    let m = bits % 2 ^ 52 in
    if e == 0x7FF
    then pack sign (pos 0x7FFF) (if m == 0 then 0 else 1) m
    else if (e == 0) && (m == 0)
    then pack sign (pos 0) 0 0
    else pack_sig sign (sub_ℕ (e + bias) 1023) (2 ^ 112 + m <<< 60)

-- The rounding of a significand to 53 bits.
abbrev pub mantissa53 : ℕ → ℕ
mantissa53 sig =
    let mant = sig >>> 60 in
    if ((sig >>> 59) % 2 == 1) && (not (sig % 2 ^ 59 == 0) || (mant % 2 == 1))
    then mant + 1
    else mant

-- The bits of a double, from its three fields, which do not meet.
abbrev pub double_bits : ℕ → ℕ → ℕ → ℕ
double_bits sign e m = sign <<< 63 + e <<< 52 + m

-- The end of xiom_f128_to_f64_core, where the exponent is that of a normal double.
unfoldable pub to_f64_normal : ℕ → ℕ → ℕ → ℕ
to_f64_normal sign e64 sig =
    let mant = mantissa53 sig in
    if mant >>> 53 == 0
    then double_bits sign e64 (mant % 2 ^ 52)
    else double_bits sign (e64 + 1) ((mant >>> 1) % 2 ^ 52)

-- The path of an exponent that is too small; `under` is 1 - e64.
unfoldable pub to_f64_tiny : ℕ → ℕ → ℕ → ℕ
to_f64_tiny sign under sig =
    let shift = 113 - 53 + under in
    let shifted = if leb 128 shift then 0 else sig >>> shift in
    bit_or (sign <<< 63) (shifted >>> 60)

-- The three paths of a finite number, by its exponent `e64` as a double.
unfoldable pub to_f64_finite : ℕ → ℤ → ℕ → ℕ
to_f64_finite sign (negsuc n) sig = to_f64_tiny sign (n + 2) sig
to_f64_finite sign (pos e64) sig =
    if leb 0x7FF e64
    then double_bits sign 0x7FF 0
    else if e64 == 0
    then to_f64_tiny sign 1 sig
    else to_f64_normal sign e64 sig

-- xiom_f128_to_f64_core
unfoldable pub to_f64 : F128 → ℕ
to_f64 f =
    let sign = sign_of f in
    if isnan f
    then 0x7FF8000000000000
    else if exponent f == 0x7FFF
    then double_bits sign 0x7FF (man_hi f >>> 60)
    else if (exponent f == 0) && (man_hi f == 0) && (f.lo == 0)
    then sign <<< 63
    else to_f64_finite sign (sub_ℕ (exponent f + 1023) bias) (significand f)

-- The shift of the significand to its integer part; `none` where the code returns 0 at once.
abbrev pub shift_down : ℤ → ℕ → Option ℕ
shift_down (negsuc n) sig = none
shift_down (pos shift) sig = if leb 128 shift then none else some (sig >>> shift)

unfoldable pub integer_part : F128 → Option ℕ
integer_part f = shift_down (sub_ℕ (112 + bias) (exponent f)) (significand f)

abbrev pub none_or_zero : F128 → Bool
none_or_zero f = (exponent f == 0) && (man_hi f == 0) && (f.lo == 0)

-- A pattern of 64 or 128 bits, read as a signed number.
abbrev pub as_signed : ℕ → ℕ → ℤ
as_signed half n = if ltb n half then pos n else negsuc (half * 2 - 1 - n)

-- `-v` of an int64_t; that of the least one overflows.
abbrev pub negate64 : ℤ → Option ℤ
negate64 (pos zero) = some (pos zero)
negate64 (pos (suc n)) = some (negsuc n)
negate64 (negsuc n) = if suc n == 2 ^ 63 then none else some (pos (suc n))

-- xiom_f128_to_i64_core; `none` is the signed overflow of the negation.
unfoldable pub to_i64 : F128 → Option ℤ
to_i64 f =
    if isnan f || isinf f
    then some (pos 0)
    else if none_or_zero f
    then some (pos 0)
    else elim (integer_part f) [
      | none ↦ some (pos 0)
      | some mag ↦
          if ltb (2 ^ 63 - 1 + (if sign_of f == 0 then 0 else 1)) mag
          then some (pos 0)
          else if sign_of f == 0
          then some (as_signed (2 ^ 63) mag)
          else negate64 (as_signed (2 ^ 63) mag)
    ]

-- xiom_f128_to_u64_core
unfoldable pub to_u64 : F128 → ℕ
to_u64 f =
    if isnan f || isinf f || not (sign_of f == 0)
    then 0
    else if none_or_zero f
    then 0
    else elim (integer_part f) [ none ↦ 0 | some mag ↦ u64 mag ]

-- xiom_f128_to_i128_core
unfoldable pub to_i128 : F128 → ℤ
to_i128 f =
    if isnan f || isinf f then pos 0 else if none_or_zero f then pos 0 else elim (integer_part f) [
      | none ↦ pos 0
      | some mag ↦
          if sign_of f == 0
          then (if leb (2 ^ 127) mag then pos 0 else as_signed (2 ^ 127) mag)
          else if ltb (2 ^ 127) mag
          then pos 0
          else as_signed (2 ^ 127) ((full - mag) % full)
    ]

-- xiom_f128_to_u128_core
unfoldable pub to_u128 : F128 → ℕ
to_u128 f =
    if isnan f || isinf f || not (sign_of f == 0)
    then 0
    else if none_or_zero f
    then 0
    else elim (integer_part f) [ none ↦ 0 | some mag ↦ mag ]
