-- ===== src/Quad/Integers.antt =====
-- Integers that go to quadruple precision and back (runtime/fp128_helpers.c, 271 to 292, 346 to 360 and 400
-- to 454).
use stdlib.Base.{
  ℕ, suc, ◌+◌, ◌-◌, ◌*◌, ◌/◌, ◌%◌, ◌^◌, ◌≤◌, ◌<◌, ◌≡◌, refl, subst, ◌∙◌, inl, inr, true, false,
  none, some, arith, ltb, leb, ◌==◌, Bool-cases, if◌then◌else◌,
}
use native.Mathlib.Nat.{one-le-pow, mul-div_cancel}
use stdlib.Base.Int.{ℤ, pos, negsuc, sub_ℕ, pos_part, neg_part}
use stdlib.Quad.{F128, full, bias, exponent, isnan, isinf, pack, pack_sig}
use stdlib.Quad.Fields.{Holds, pack_sig-Holds, Holds-finite, Holds-nonzero}
use stdlib.Quad.Lengths.{IsTop, IsTop-exists, count_bits-IsTop, shift-IsTop}
use stdlib.Quad.Convert.{
  from_i64, from_u64, from_magnitude, count_bits, to_i64, to_u64, integer_part, negate64,
}

-- The number made of a magnitude: its exponent is the index of the top bit, and its significand the magnitude
-- with the top bit at 112.
pub from_magnitude-Holds :
    (sign j mag : ℕ)
    → sign < 2
    → IsTop j mag
    → j < 64
    → Holds sign (bias + j) (mag * 2 ^ (112 - j)) (from_magnitude sign mag)
unfolding from_magnitude
from_magnitude-Holds sign j mag hs h hj =
    let total : j + (112 - j) ≡ 112 = omega arith in
    let top : IsTop 112 (mag * 2 ^ (112 - j)) =
      subst (λ (t : ℕ). IsTop t (mag * 2 ^ (112 - j))) total (shift-IsTop j (112 - j) mag h) in
    let n : count_bits 64 mag 0 ≡ suc j = count_bits-IsTop j 64 mag 0 h hj ∙ omega arith in
    let shift : 112 - (suc j - 1) ≡ 112 - j = omega arith in
    let fits : mag * 2 ^ (112 - j) % full ≡ mag * 2 ^ (112 - j) = omega (arith, top.upper) in
    let exp : bias + suc j - 1 ≡ bias + j = omega arith in
    rw (n, shift, fits, exp)
      (pack_sig-Holds sign (bias + j) (mag * 2 ^ (112 - j)) hs (omega arith)
        (omega (arith, top.lower)) (omega (arith, top.upper)))

-- The conversion of a number with its top bit at `j`.
pub from_u64-Holds :
    (j u : ℕ) → IsTop j u → j < 64 → Holds 0 (bias + j) (u * 2 ^ (112 - j)) (from_u64 u)
unfolding from_u64
from_u64-Holds j u top less =
    let set : (u == 0) ≡ false = ground (arith, top.lower, one-le-pow j 2) in
    rw set (from_magnitude-Holds 0 j u (omega arith) top less)

-- The integer part of what such a number holds.
pub integer_part-Holds :
    (sign j mag : ℕ) (f : F128)
    → Holds sign (bias + j) (mag * 2 ^ (112 - j)) f
    → j ≤ 112
    → integer_part f ≡ some mag
unfolding integer_part
integer_part-Holds sign j mag f h hj =
    let power : 1 ≤ 2 ^ (112 - j) = one-le-pow (112 - j) 2 (omega arith) in
    let shift : sub_ℕ (112 + bias) (bias + j) ≡ pos (112 - j) = ground arith in
    let short : leb 128 (112 - j) ≡ false = ground arith in
    let whole : mag * 2 ^ (112 - j) / 2 ^ (112 - j) ≡ mag = mul-div_cancel mag power in
    rw (h.exponent_eq, shift, short, h.significand_eq, whole) refl

-- The shift would be to the left.
pub integer_part-none : (f : F128) (e : ℕ) → exponent f ≡ e → 112 + bias < e → integer_part f ≡ none
unfolding integer_part
integer_part-none f e h big =
    let shift : sub_ℕ (112 + bias) e ≡ negsuc (e - (112 + bias) - 1) = ground arith in
    rw (h, shift) refl

-- An unsigned 64-bit integer comes back unchanged.
pub to_u64-from_u64 : (u : ℕ) → u < 2 ^ 64 → to_u64 (from_u64 u) ≡ u
unfolding to_u64 from_u64
to_u64-from_u64 u hu = elim (Bool-cases (u == 0)) [
  | inl none_set ↦ let e : u ≡ 0 = ground arith in rw e (unfold pack isnan isinf in refl)
  | inr some_set ↦
      let (j, top, less) = IsTop-exists 64 u (ground arith) hu in
      let f = from_magnitude 0 u in
      let held = from_magnitude-Holds 0 j u (omega arith) top less in
      let (number, finite) = Holds-finite f held (omega arith) in
      let value = integer_part-Holds 0 j u f held (omega arith) in
      let used = Holds-nonzero f held (omega arith) in
      rw (some_set, number, finite, held.sign_eq, used, value) (omega arith)
]

to_i64-Holds :
    (sign j mag : ℕ) (f : F128)
    → Holds sign (bias + j) (mag * 2 ^ (112 - j)) f
    → j < 63
    → mag < 2 ^ 63
    → to_i64 f ≡ (if sign == 0 then some (pos mag) else negate64 (pos mag))
unfolding to_i64
to_i64-Holds sign j mag f held less small =
    let (number, finite) = Holds-finite f held (omega arith) in
    let value = integer_part-Holds sign j mag f held (omega arith) in
    let used = Holds-nonzero f held (omega arith) in
    let fits : ltb mag (2 ^ 63) ≡ true = ground arith in
    let short : ltb (2 ^ 63 - 1 + (if sign == 0 then 0 else 1)) mag ≡ false = ground arith in
    rw (number, finite, used, value, held.sign_eq, short, fits) refl

-- A signed 64-bit integer but the least comes back unchanged.
pub to_i64-from_i64 :
    (i : ℤ) → pos_part i < 2 ^ 63 → neg_part i < 2 ^ 63 → to_i64 (from_i64 i) ≡ some i
unfolding from_i64
to_i64-from_i64 (pos n) hp hn = elim (Bool-cases (n == 0)) [
  | inl none_set ↦ let e : n ≡ 0 = ground arith in rw e (unfold to_i64 pack isnan isinf in refl)
  | inr some_set ↦
      let (j, top, less) = IsTop-exists 63 n (ground arith) hp in
      let held = from_magnitude-Holds 0 j n (omega arith) top (omega arith) in
      rw some_set (to_i64-Holds 0 j n (from_magnitude 0 n) held less hp)
]
to_i64-from_i64 (negsuc n) hp hn =
    let (j, top, less) = IsTop-exists 63 (n + 1) (omega arith) (omega arith) in
    let held = from_magnitude-Holds 1 j (n + 1) (omega arith) top (omega arith) in
    let one_more : n + 1 ≡ suc n = omega arith in
    to_i64-Holds 1 j (n + 1) (from_magnitude 1 (n + 1)) held less (omega arith) ∙ rw one_more refl

-- The least signed 64-bit integer converts, and the conversion back negates it, an overflow.
pub to_i64_least : to_i64 (from_i64 (negsuc (2 ^ 63 - 1))) ≡ none
unfolding to_i64 from_i64 from_magnitude count_bits pack_sig pack isnan isinf integer_part
to_i64_least = refl
