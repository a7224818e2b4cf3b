-- ===== src/Quad/Fields.antt =====
-- The fields of a packed number (runtime/fp128_helpers.c, 43 to 50).
use stdlib.Base.{
  ℕ, ◌+◌, ◌*◌, ◌%◌, ◌^◌, ◌≤◌, ◌<◌, ◌≡◌, refl, ap, ◌∙◌, bit_or, false, ◌&&◌, arith, ◌==◌,
}
use stdlib.Base.Int.{pos}
use stdlib.Base.Words.{u64, ◌>>>◌}
use stdlib.Base.Bits.{bit_or_sum}
use stdlib.Quad.{
  F128, sign_of, exponent, man_hi, significand, exp_mask, isnan, isinf, pack, pack_sig,
}

-- What a packed number says: its sign, its exponent and its significand.
pub record Holds (sign e sig : ℕ) (f : F128) : Type 0 where
  pub sign_eq : sign_of f ≡ sign
  pub exponent_eq : exponent f ≡ e
  pub significand_eq : significand f ≡ sig
  pub low : f.lo < 2 ^ 64

pub pack_hi :
    (sign e m l : ℕ)
    → sign < 2
    → e < 2 ^ 15
    → m < 2 ^ 48
    → (pack sign (pos e) m l).hi ≡ sign * 2 ^ 63 + e * 2 ^ 48 + m
unfolding pack
pack_hi sign e m l hs he hm =
    let s : sign % 2 ≡ sign = omega arith in
    let x : e % 2 ^ 15 ≡ e = omega arith in
    let y : m % 2 ^ 48 ≡ m = omega arith in
    let upper : sign * 2 ^ 63 + e * 2 ^ 48 ≡ (sign * 2 ^ 15 + e) * 2 ^ 48 = omega arith in
    rw (s, x, y)
      (ap (λ t. bit_or t m) (bit_or_sum 63 sign (e * 2 ^ 48) (omega arith) ∙ upper)
        ∙ bit_or_sum 48 (sign * 2 ^ 15 + e) m hm
        ∙ omega arith)

pub pack_sig-Holds :
    (sign e sig : ℕ)
    → sign < 2
    → e < 2 ^ 15
    → 2 ^ 112 ≤ sig
    → sig < 2 ^ 113
    → Holds sign e sig (pack_sig sign (pos e) sig)
unfolding pack_sig pack
pack_sig-Holds sign e sig hs he lower upper =
    let m = u64 (sig >>> 64) % 2 ^ 48 in
    let hi = pack_hi sign e m (u64 sig) hs he (omega arith) in
    let same : m % 2 ^ 48 ≡ m = omega arith in
    let hi' : (pack_sig sign (pos e) sig).hi ≡ sign * 2 ^ 63 + e * 2 ^ 48 + m =
      ap (λ t. bit_or (bit_or (sign % 2 * 2 ^ 63) (e % 2 ^ 15 * 2 ^ 48)) t) (omega arith) ∙ hi in
    record {
      sign_eq = omega (arith, hi');
      exponent_eq = omega (arith, hi');
      significand_eq = omega (arith, hi');
      low = omega arith;
    }

pub Holds-finite :
    {sign e sig : ℕ} (f : F128)
    → Holds sign e sig f
    → e < 0x7FFF
    → (isnan f ≡ false) × (isinf f ≡ false)
unfolding isnan isinf
Holds-finite f h he =
    let none : (exponent f == exp_mask) ≡ false = ground (arith, h.exponent_eq) in
    (rw none refl, rw none refl)

-- A number that is not zero has an exponent, when it was packed from a significand.
pub Holds-nonzero :
    {sign e sig : ℕ} (f : F128)
    → Holds sign e sig f
    → 0 < e
    → ((exponent f == 0) && (man_hi f == 0) && (f.lo == 0)) ≡ false
Holds-nonzero f h he = ground (arith, h.exponent_eq)
