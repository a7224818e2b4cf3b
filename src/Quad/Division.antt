-- ===== src/Quad/Division.antt =====
-- The division of significands and the quotient of a number by itself (runtime/fp128_helpers.c, 215 to 268).
use stdlib.Base.{
  ℕ, zero, suc, ◌+◌, ◌-◌, ◌*◌, ◌/◌, ◌%◌, ◌^◌, ◌≤◌, ◌<◌, ◌≡◌, refl, sym, ap, ◌∙◌, inl, inr, true,
  false, arith, leb, ◌==◌, Bool-cases, if◌then◌else◌, bit_or, bit_xor,
}
use native.Mathlib.Nat.{pow-suc, one-le-pow, div-eq_of_lt-le}
use stdlib.Base.Bits.{bit_or_sum}
use stdlib.Base.Int.{pos, sub_ℕ, ◌+ℤ◌}
use stdlib.Base.Words.{◌>>>◌}
use stdlib.Quad.{
  F128, full, bias, exp_mask, sign_of, exponent, significand, isnan, isinf, iszero, pack, pack_sig,
  round_pack,
}
use stdlib.Quad.Arith.{udiv_loop, udiv_114, div_finite, div_impl}

appended : (q : ℕ) → q * 2 < full → bit_or (q * 2 % full) 1 ≡ q * 2 + 1
appended q small =
    let e : q * 2 % full ≡ q * 2 ^ 1 = omega arith in
    ap (λ (t : ℕ). bit_or t 1) e ∙ bit_or_sum 1 q 1 (omega arith) ∙ omega arith

-- What the turns come to, from the partial quotient `q` and the remainder `num`.
loop_lem :
    (turns num den q : ℕ)
    → num < den
    → den < 2 ^ 113
    → (q + 1) * 2 ^ turns ≤ 2 ^ 114
    → (rest : ℕ) × (udiv_loop turns num den q * den + rest ≡ (q * den + num) * 2 ^ turns)
      × (rest < den)
unfolding udiv_loop
loop_lem zero num den q h hd hq = (num, omega arith, h)
loop_lem (suc turns) num den q h hd hq =
    let step : (q + 1) * 2 ^ suc turns ≡ (q * 2 + 2) * 2 ^ turns =
      omega (arith, ap (λ (t : ℕ). (q + 1) * t) (pow-suc 2 turns)) in
    let power : 1 ≤ 2 ^ turns = one-le-pow turns 2 (omega arith) in
    let spread : q * 2 + 2 ≤ (q * 2 + 2) * 2 ^ turns = grind arith in
    let fits : q * 2 % full ≡ q * 2 = omega arith in
    let low : num * 2 % full ≡ num * 2 = omega arith in
    let top : (num >>> 127 == 0) ≡ true = ground arith in
    let double : (q * den + num) * 2 ^ suc turns ≡ (q * den * 2 + num * 2) * 2 ^ turns =
      omega (arith, ap (λ (t : ℕ). (q * den + num) * t) (pow-suc 2 turns)) in
    elim (Bool-cases (leb den (num * 2))) [
      | inl big ↦
          let over : den ≤ num * 2 = ground arith in
          let next : (num * 2 + full - den) % full ≡ num * 2 - den = omega arith in
          let bound : (q * 2 + 1 + 1) * 2 ^ turns ≤ 2 ^ 114 = omega arith in
          let (rest, eq, less) =
            loop_lem turns (num * 2 - den) den (q * 2 + 1) (omega arith) hd bound in
          let value : (q * 2 + 1) * den + (num * 2 - den) ≡ q * den * 2 + num * 2 = omega arith in
          rw (top, low, big, next, appended q (omega arith))
            (rest, eq ∙ ap (λ (t : ℕ). t * 2 ^ turns) value ∙ sym double, less)
      | inr small ↦
          let under : num * 2 < den = ground arith in
          let bound : (q * 2 + 1) * 2 ^ turns ≤ 2 ^ 114 = omega arith in
          let (rest, eq, less) = loop_lem turns (num * 2) den (q * 2) (omega arith) hd bound in
          let value : q * 2 * den + num * 2 ≡ q * den * 2 + num * 2 = omega arith in
          rw (top, low, small, fits)
            (rest, eq ∙ ap (λ (t : ℕ). t * 2 ^ turns) value ∙ sym double, less)
    ]

-- For a numerator below a denominator of 113 bits, the 114 turns give the quotient of the numerator times
-- 2 ^ 114.
pub udiv_114_lem :
    (num den : ℕ) → num < den → den < 2 ^ 113 → udiv_114 num den ≡ num * 2 ^ 114 / den
unfolding udiv_114
udiv_114_lem num den h hd =
    let (rest, eq, less) = loop_lem 114 num den 0 h hd (omega arith) in
    sym (div-eq_of_lt-le den (omega (arith, eq)) (omega (arith, eq)))

-- A number of the 128-bit format: two halves of 64 bits.
pub record IsPattern (f : F128) : Type 0 where
  pub low : f.lo < 2 ^ 64
  pub high : f.hi < 2 ^ 64

half_quotient_even : (m : ℕ) → 2 ^ 112 ≤ m → m < 2 ^ 113 → m % 2 ≡ 0 → udiv_114 (m / 2) m ≡ 2 ^ 113
half_quotient_even m lo hi even =
    udiv_114_lem (m / 2) m (omega arith) hi ∙ div-eq_of_lt-le m (omega arith) (omega arith)

half_quotient_odd :
    (m : ℕ) → 2 ^ 112 ≤ m → m < 2 ^ 113 → m % 2 ≡ 1 → udiv_114 (m / 2) m ≡ 2 ^ 113 - 2
half_quotient_odd m lo hi odd =
    udiv_114_lem (m / 2) m (omega arith) hi ∙ div-eq_of_lt-le m (omega arith) (omega arith)

same_sign : (s : ℕ) → s < 2 → bit_xor s s ≡ 0
same_sign zero h = refl
same_sign (suc zero) h = refl
same_sign (suc (suc s)) h = absurd (omega arith)

-- A normal number divided by itself gives 1 when the last bit of its significand is 0. When that bit is 1 the
-- shift of the dividend loses it, and the quotient is the number just below 2.
pub div_impl_self :
    (f : F128)
    → IsPattern f
    → 0 < exponent f
    → exponent f < 0x7FFF
    → div_impl f f ≡ (
        if f.lo % 2 == 0
        then record { lo = 0; hi = 0x3FFF000000000000 }
        else record { lo = 0xFFFFFFFFFFFFFFFF; hi = 0x3FFFFFFFFFFFFFFF })
unfolding div_impl
div_impl_self f h positive small =
    let masked : (exponent f == exp_mask) ≡ false = ground arith in
    let number : isnan f ≡ false = (unfold isnan in rw masked refl) in
    let finite : isinf f ≡ false = (unfold isinf in rw masked refl) in
    let used : iszero f ≡ false = (unfold iszero in ground arith) in
    let sign = same_sign (sign_of f) (omega (arith, h.high)) in
    let m = significand f in
    let upper : m < 2 ^ 113 = omega (arith, h.low) in
    let ordered : leb m m ≡ true = ground arith in
    let e : sub_ℕ (exponent f + bias) (exponent f + 1) ≡ pos (bias - 1) = ground arith in
    elim (Bool-cases (f.lo % 2 == 0)) [
      | inl even ↦
          let q = half_quotient_even m (omega arith) upper (ground arith) in
          rw (number, finite, used, sign, even)
            (unfold div_finite in rw (ordered, q, e) (unfold round_pack pack_sig pack ◌+ℤ◌ in refl))
      | inr odd ↦
          let q = half_quotient_odd m (omega arith) upper (ground arith) in
          rw (number, finite, used, sign, odd)
            (unfold div_finite in rw (ordered, q, e) (unfold round_pack pack_sig pack ◌+ℤ◌ in refl))
    ]
