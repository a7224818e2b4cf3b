-- ===== src/Quad/Arith.antt =====
-- The sum, difference, product and quotient (runtime/fp128_helpers.c, 79 to 268).
use stdlib.Base.{
  ℕ, zero, suc, ◌+◌, ◌-◌, ◌*◌, ◌%◌, ◌^◌, bit_or, bit_xor, ◌&&◌, ◌||◌, not, Option, none, some, ltb,
  leb, ◌==◌, if◌then◌else◌,
}
use stdlib.Base.Int.{pos, sub_ℕ, ◌+ℤ◌}
use stdlib.Base.Words.{u64, ◌<<<◌, ◌>>>◌}
use stdlib.Quad.{
  F128, full, bias, sign_of, exponent, man_hi, significand, isnan, isinf, iszero, pack, pack_sig,
  round_pack,
}

-- The turns of `while ((s >> 127) == 0) { s <<= 1; n--; }`
unfoldable pub norm_loop : ℕ → ℕ → ℕ → ℕ × ℕ
norm_loop zero s n = (s, n)
norm_loop (suc fuel) s n =
    let rest = norm_loop fuel (s * 2 % full) (n - 1) in if s >>> 127 == 0 then rest else (s, n)

-- A shift of an unsigned __int128 by an int that is not negative; C leaves one by 128 or more undefined.
abbrev pub shr128 : ℕ → ℕ → Option ℕ
shr128 x k = if ltb k 128 then some (x >>> k) else none

-- inf - inf: the sign of `a`, the exponent of a NaN and the significand 1.
abbrev pub nan_of : F128 → F128
nan_of a = record { lo = 1; hi = bit_or (sign_of a <<< 63) 0x7FFF000000000000 }

-- The normalized sum or difference, packed; `s` is not 0.
unfoldable pub pack_norm : ℕ → ℕ → ℕ → F128
pack_norm sign e s =
    let (t, n) = norm_loop 128 s 128 in round_pack sign (sub_ℕ (e + n) 113) (t >>> 15) 0

-- The sum of the aligned significands, where both shifts are defined.
abbrev pub add_aligned : ℕ → ℕ → Option ℕ → Option ℕ → Option F128
add_aligned sign e none b = none
add_aligned sign e (some x) none = none
add_aligned sign e (some x) (some y) = some (pack_norm sign e ((x + y) % full))

-- The branch of equal signs.
unfoldable pub add_magnitudes : ℕ → ℕ → ℕ → ℕ → ℕ → Option F128
add_magnitudes sign ea eb ma mb =
    add_aligned sign (if ltb eb ea then ea else eb)
      (if ltb ea eb then shr128 ma (eb - ea) else some ma)
      (if ltb eb ea then shr128 mb (ea - eb) else some mb)

-- The branch of opposite signs, once the operands are in order.
unfoldable pub sub_ordered : ℕ → ℕ → ℕ → ℕ → ℕ → F128
sub_ordered sign ebig esmall big small =
    if leb 128 (ebig - esmall)
    then pack_sig sign (pos ebig) big
    else (let diff = big - (small >>> (ebig - esmall)) in
        if diff == 0 then pack 0 (pos 0) 0 0 else pack_norm sign ebig diff)

unfoldable pub sub_magnitudes : ℕ → ℕ → ℕ → ℕ → ℕ → ℕ → F128
sub_magnitudes sa sb ea eb ma mb =
    if ltb ea eb || (ea == eb) && ltb ma mb
    then sub_ordered sb eb ea mb ma
    else sub_ordered sa ea eb ma mb

-- xiom_f128_addsub; `subtract` is 0 or 1, and `none` is an undefined shift.
unfoldable pub addsub : F128 → F128 → ℕ → Option F128
addsub a b subtract =
    let sa = sign_of a in
    let sb = bit_xor (sign_of b) subtract in
    if isnan a
    then some a
    else if isnan b
    then some b
    else if isinf a
    then (if isinf b && (bit_xor a.hi b.hi >>> 63 == subtract) then some (nan_of a) else some a)
    else if isinf b
    then some b
    else if (exponent a == 0) && (man_hi a == 0) && (a.lo == 0)
    then (if (exponent b == 0) && (man_hi b == 0) && (b.lo == 0)
        then some (pack (if sa == sb then sa else 0) (pos 0) 0 0)
        else some (record b { hi = bit_or (b.hi % 2 ^ 63) (sb <<< 63) }))
    else if (exponent b == 0) && (man_hi b == 0) && (b.lo == 0)
    then some a
    else if sa == sb
    then add_magnitudes sa (exponent a) (exponent b) (significand a) (significand b)
    else some (sub_magnitudes sa sb (exponent a) (exponent b) (significand a) (significand b))

-- The four words of a product of two 128-bit numbers, the least first.
unfoldable pub mul_words : ℕ → ℕ → ℕ × ℕ × ℕ × ℕ
mul_words ma mb =
    let a0 = u64 ma in
    let a1 = u64 (ma >>> 64) in
    let b0 = u64 mb in
    let b1 = u64 (mb >>> 64) in
    let mid = (((a0 * b0) >>> 64) + u64 (a0 * b1) + u64 (a1 * b0)) % full in
    let hi2 = ((mid >>> 64) + ((a0 * b1) >>> 64) + ((a1 * b0) >>> 64) + a1 * b1) % full in
    (u64 (a0 * b0), u64 mid, u64 hi2, u64 (hi2 >>> 64))

-- The product of two finite numbers that are not zero.
unfoldable pub mul_finite : ℕ → F128 → F128 → F128
mul_finite sign a b =
    let (t0, t1, t2, t3) = mul_words (significand a) (significand b) in
    let e = sub_ℕ (exponent a + exponent b) bias in
    if t3 >>> 33 == 0
    then round_pack sign e (bit_or (bit_or (t3 <<< 80 % full) (t2 <<< 16)) (t1 >>> 48)) 0
    else round_pack sign (e +ℤ pos 1) (bit_or (bit_or (t3 <<< 79 % full) (t2 <<< 15)) (t1 >>> 49)) 0

-- xiom_f128_mul_impl
unfoldable pub mul_impl : F128 → F128 → F128
mul_impl a b =
    let sign = bit_xor (sign_of a) (sign_of b) in
    if isnan a
    then a
    else if isnan b
    then b
    else if isinf a || isinf b
    then (if iszero a || iszero b then pack sign (pos 0x7FFF) 0 1 else pack sign (pos 0x7FFF) 0 0)
    else if iszero a || iszero b
    then pack sign (pos 0) 0 0
    else mul_finite sign a b

-- The turns of xiom_f128_udiv_114; the local `hi` is written and never read.
unfoldable pub udiv_loop : ℕ → ℕ → ℕ → ℕ → ℕ
udiv_loop zero num den q = q
udiv_loop (suc turns) num den q =
    let shifted = num * 2 % full in
    let taken = not (num >>> 127 == 0) || leb den shifted in
    udiv_loop turns (if taken then (shifted + full - den) % full else shifted) den
      (if taken then bit_or (q * 2 % full) 1 else q * 2 % full)

unfoldable pub udiv_114 : ℕ → ℕ → ℕ
udiv_114 num den = udiv_loop 114 num den 0

-- The quotient of two finite numbers that are not zero.
unfoldable pub div_finite : ℕ → F128 → F128 → F128
div_finite sign a b =
    let ma = significand a in
    let mb = significand b in
    let e = sub_ℕ (exponent a + bias) (exponent b + 1) in
    if leb mb ma
    then round_pack sign (e +ℤ pos 1) (udiv_114 (ma >>> 1) mb) 1
    else round_pack sign e (udiv_114 ma mb) 1

-- xiom_f128_div_impl
unfoldable pub div_impl : F128 → F128 → F128
div_impl a b =
    let sign = bit_xor (sign_of a) (sign_of b) in
    if isnan a
    then a
    else if isnan b
    then b
    else if isinf a
    then (if isinf b then pack sign (pos 0x7FFF) 0 1 else pack sign (pos 0x7FFF) 0 0)
    else if iszero b
    then (if iszero a then pack sign (pos 0x7FFF) 0 1 else pack sign (pos 0x7FFF) 0 0)
    else if iszero a
    then pack sign (pos 0) 0 0
    else if isinf b
    then pack sign (pos 0) 0 0
    else div_finite sign a b

-- xiom_f128_neg_sret
unfoldable pub neg_sret : F128 → F128
neg_sret a = record a { hi = bit_xor a.hi 0x8000000000000000 }
