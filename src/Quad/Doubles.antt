-- ===== src/Quad/Doubles.antt =====
-- Doubles that go to quadruple precision and back (runtime/fp128_helpers.c, 295 to 308 and 365 to 398).
use stdlib.Base.{
  ℕ, zero, suc, ◌+◌, ◌-◌, ◌*◌, ◌/◌, ◌%◌, ◌^◌, ◌<◌, ◌≡◌, refl, ap, ◌∙◌, inl, inr, true, false, arith,
  leb, ◌==◌, ◌&&◌, not, Bool-cases, if◌then◌else◌,
}
use stdlib.Base.Int.{pos, sub_ℕ}
use stdlib.Base.Words.{◌>>>◌, ◌<<<◌}
use stdlib.Base.Bits.{bit_or-nothing}
use stdlib.Quad.{F128, bias, sign_of, exponent, man_hi, isnan, pack}
use stdlib.Quad.Fields.{Holds, pack_hi, pack_sig-Holds, Holds-finite, Holds-nonzero}
use stdlib.Quad.Convert.{
  from_f64, to_f64, to_f64_finite, to_f64_normal, to_f64_tiny, mantissa53, double_bits,
}

-- The fields of a double.
abbrev pub sign64 : ℕ → ℕ
sign64 bits = bits >>> 63

abbrev pub exponent64 : ℕ → ℕ
exponent64 bits = (bits >>> 52) % 2 ^ 11

abbrev pub mantissa64 : ℕ → ℕ
mantissa64 bits = bits % 2 ^ 52

-- What the way back does with a number that holds the significand of a double.
to_f64-Holds :
    (sign e m : ℕ) (f : F128)
    → e < 0x7FF
    → m < 2 ^ 52
    → Holds sign (e + (bias - 1023)) (2 ^ 112 + m * 2 ^ 60) f
    → to_f64 f ≡ (if e == 0 then sign <<< 63 else double_bits sign e m)
unfolding to_f64 to_f64_finite
to_f64-Holds sign e m f he hm held =
    let (number, finite) = Holds-finite f held (omega arith) in
    let masked : (exponent f == 0x7FFF) ≡ false = ground (arith, held.exponent_eq) in
    let used = Holds-nonzero f held (omega arith) in
    let scale : sub_ℕ (e + (bias - 1023) + 1023) bias ≡ pos e = ground arith in
    let top : leb 0x7FF e ≡ false = ground arith in
    elim (Bool-cases (e == 0)) [
      | inl tiny ↦
          let gone : (2 ^ 112 + m * 2 ^ 60) / 2 ^ 61 / 2 ^ 60 ≡ 0 = omega arith in
          rw
            (
              number, masked, used, held.sign_eq, held.exponent_eq, scale, held.significand_eq, top,
              tiny,
            )
            (unfold to_f64_tiny in rw gone (bit_or-nothing (sign * 2 ^ 63)))
      | inr normal ↦
          let kept : mantissa53 (2 ^ 112 + m * 2 ^ 60) ≡ 2 ^ 52 + m = ground arith in
          let small : ((2 ^ 52 + m) >>> 53 == 0) ≡ true = ground arith in
          let low : (2 ^ 52 + m) % 2 ^ 52 ≡ m = omega arith in
          rw
            (
              number, masked, used, held.sign_eq, held.exponent_eq, scale, held.significand_eq, top,
              normal,
            )
            (unfold to_f64_normal in rw (kept, small, low) refl)
    ]

from_f64-Holds :
    (bits : ℕ)
    → bits < 2 ^ 64
    → exponent64 bits < 0x7FF
    → ((exponent64 bits == 0) && (mantissa64 bits == 0)) ≡ false
    → Holds
        (sign64 bits)
        (exponent64 bits + (bias - 1023))
        (2 ^ 112 + mantissa64 bits * 2 ^ 60)
        (from_f64 bits)
unfolding from_f64
from_f64-Holds bits h he used =
    let finite : (exponent64 bits == 0x7FF) ≡ false = ground arith in
    let scale : sub_ℕ (exponent64 bits + bias) 1023 ≡ pos (exponent64 bits + (bias - 1023)) =
      ground arith in
    rw (finite, used, scale)
      (pack_sig-Holds (sign64 bits) (exponent64 bits + (bias - 1023))
        (2 ^ 112 + mantissa64 bits * 2 ^ 60) (omega arith) (omega arith) (omega arith)
        (omega arith))

-- A double that is zero or not finite is packed without a significand.
to_f64-special :
    (sign m : ℕ)
    → sign < 2
    → m < 2 ^ 52
    → to_f64 (pack sign (pos 0x7FFF) (if m == 0 then 0 else 1) m)
      ≡ (if m == 0 then double_bits sign 0x7FF 0 else 0x7FF8000000000000)
unfolding to_f64
to_f64-special sign m hs hm =
    let mhi : ℕ = if m == 0 then 0 else 1 in
    let f = pack sign (pos 0x7FFF) mhi m in
    let bound : mhi < 2 ^ 48 = ground arith in
    let hi = pack_hi sign 0x7FFF mhi m hs (omega arith) bound in
    let high : man_hi f ≡ mhi = omega (arith, hi, bound) in
    let top : exponent f ≡ 0x7FFF = omega (arith, hi, bound) in
    let neg : sign_of f ≡ sign = omega (arith, hi, bound) in
    let low : f.lo ≡ m = (unfold pack in refl) in
    elim (Bool-cases (m == 0)) [
      | inl none_set ↦
          let number : isnan f ≡ false = (unfold isnan in ground (arith, high, low, top)) in
          let masked : (exponent f == 0x7FFF) ≡ true = ground (arith, top) in
          let nothing : man_hi f >>> 60 ≡ 0 = ground (arith, high) in
          rw (number, masked, neg, nothing, none_set) refl
      | inr some_set ↦
          let number : isnan f ≡ true = (unfold isnan in ground (arith, high, low, top)) in
          rw (number, some_set) refl
    ]

-- Of a double, the way to quadruple precision and back gives: the quiet NaN of a NaN, the zero of its sign of a
-- zero or a subnormal, and of every other double, infinities among them, the double itself.
pub to_f64-from_f64 :
    (bits : ℕ)
    → bits < 2 ^ 64
    → to_f64 (from_f64 bits) ≡ (
        if (exponent64 bits == 0x7FF) && not (mantissa64 bits == 0)
        then 0x7FF8000000000000
        else if exponent64 bits == 0
        then sign64 bits <<< 63
        else bits)
to_f64-from_f64 bits h =
    let whole : double_bits (sign64 bits) (exponent64 bits) (mantissa64 bits) ≡ bits =
      omega arith in
    elim (Bool-cases (exponent64 bits == 0x7FF)) [
      | inl top ↦
          let e : exponent64 bits ≡ 0x7FF = ground arith in
          let back = to_f64-special (sign64 bits) (mantissa64 bits) (omega arith) (omega arith) in
          let start : from_f64 bits
              ≡ pack (sign64 bits) (pos 0x7FFF) (if mantissa64 bits == 0 then 0 else 1)
                  (mantissa64 bits) =
            (unfold from_f64 in rw top refl) in
          ap to_f64 start ∙ back ∙ ground (arith, whole)
      | inr less ↦ elim (Bool-cases ((exponent64 bits == 0) && (mantissa64 bits == 0))) [
        | inl nought ↦
            let e : (exponent64 bits == 0) ≡ true = ground arith in
            let start : from_f64 bits ≡ pack (sign64 bits) (pos 0) 0 0 =
              (unfold from_f64 in rw (less, nought) refl) in
            ap to_f64 start ∙ to_f64_nought (sign64 bits) (omega arith) ∙ rw (less, e) refl
        | inr used ↦
            to_f64-Holds (sign64 bits) (exponent64 bits) (mantissa64 bits) (from_f64 bits)
              (ground arith) (omega arith) (from_f64-Holds bits h (ground arith) used)
            ∙ rw (less, whole) refl
      ]
    ]
  where
    to_f64_nought : (s : ℕ) → s < 2 → to_f64 (pack s (pos 0) 0 0) ≡ s <<< 63
    to_f64_nought zero hs = (unfold to_f64 pack isnan in refl)
    to_f64_nought (suc zero) hs = (unfold to_f64 pack isnan in refl)
    to_f64_nought (suc (suc s)) hs = absurd (omega arith)
