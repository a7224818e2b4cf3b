-- ===== src/Quad/Wide.antt =====
-- 128-bit integers that go to quadruple precision and back (runtime/fp128_helpers.c, 346 to 360 and 444 to
-- 454), and the sum of two integers (79 to 162).
use stdlib.Base.{
  ℕ, suc, ◌+◌, ◌-◌, ◌*◌, ◌/◌, ◌^◌, ◌≤◌, ◌<◌, ◌≡◌, refl, ap, subst, inl, inr, false, none, arith,
  ltb, ◌==◌, Bool-cases, if◌then◌else◌,
}
use native.Mathlib.Nat.{one-le-pow}
use stdlib.Base.Bits.{pow_add}
use stdlib.Base.Int.{pos}
use stdlib.Quad.{full, bias, isnan, isinf, pack, pack_sig}
use stdlib.Quad.Fields.{Holds, pack_sig-Holds, Holds-finite, Holds-nonzero}
use stdlib.Quad.Lengths.{IsTop, IsTop-exists, norm_loop-IsTop, shift-IsTop}
use stdlib.Quad.Integers.{integer_part-Holds, integer_part-none}
use stdlib.Quad.Convert.{from_i128, to_u128, integer_part}

-- The top bit of a number below 2 ^ k is below k, and that of another is not.
pub IsTop-small : (j k u : ℕ) → IsTop j u → u < 2 ^ k → j < k
IsTop-small j k u h small = elim (Bool-cases (ltb j k)) [
  | inl less ↦ ground arith
  | inr more ↦
      let total : k + (j - k) ≡ j = ground arith in
      let power : 1 ≤ 2 ^ (j - k) = one-le-pow (j - k) 2 (omega arith) in
      let split : 2 ^ j ≡ 2 ^ k * 2 ^ (j - k) = rw (← pow_add k (j - k), total) refl in
      let more' : 2 ^ k ≤ 2 ^ k * 2 ^ (j - k) = grind arith in absurd (omega (arith, h.lower))
]

pub IsTop-large : (j k u : ℕ) → IsTop j u → 2 ^ k ≤ u → k ≤ j
IsTop-large j k u h large = elim (Bool-cases (ltb j k)) [
  | inr more ↦ ground arith
  | inl less ↦
      let total : suc j + (k - suc j) ≡ k = ground arith in
      let power : 1 ≤ 2 ^ (k - suc j) = one-le-pow (k - suc j) 2 (omega arith) in
      let split : 2 ^ k ≡ 2 ^ suc j * 2 ^ (k - suc j) =
        rw (← pow_add (suc j) (k - suc j), total) refl in
      let more' : 2 ^ suc j ≤ 2 ^ suc j * 2 ^ (k - suc j) = grind arith in
      absurd (omega (arith, h.upper))
]

IsTop-raised : (j s : ℕ) → IsTop j s → j ≤ 127 → IsTop 127 (s * 2 ^ (127 - j))
IsTop-raised j s h hj =
    let total : j + (127 - j) ≡ 127 = omega arith in
    subst (λ (t : ℕ). IsTop t (s * 2 ^ (127 - j))) total (shift-IsTop j (127 - j) s h)

-- Below bit 113 the move to the top and back to bit 112 loses nothing.
lowered : (j u : ℕ) → j ≤ 112 → u * 2 ^ (127 - j) / 2 ^ 15 ≡ u * 2 ^ (112 - j)
lowered j u hj =
    let total : 112 - j + 15 ≡ 127 - j = omega arith in
    let split : 2 ^ (127 - j) ≡ 2 ^ (112 - j) * 2 ^ 15 = rw (← pow_add (112 - j) 15, total) refl in
    omega (arith, ap (λ (t : ℕ). u * t) split)

from_i128-Holds :
    (j u : ℕ)
    → IsTop j u
    → j < 128
    → Holds 0 (bias + j) (u * 2 ^ (127 - j) / 2 ^ 15) (from_i128 u false)
unfolding from_i128
from_i128-Holds j u h hj =
    let top = IsTop-raised j u h (omega arith) in
    let set : (u == 0) ≡ false = ground (arith, h.lower, one-le-pow j 2) in
    let exp : bias + (j + 1) - 1 ≡ bias + j = omega arith in
    rw (set, norm_loop-IsTop j u h hj, exp)
      (pack_sig-Holds 0 (bias + j) (u * 2 ^ (127 - j) / 2 ^ 15) (omega arith) (omega arith)
        (omega (arith, top.lower)) (omega (arith, top.upper)))

-- The conversion of a number that fits the significand.
pub from_i128-IsTop :
    (j u : ℕ)
    → IsTop j u
    → j ≤ 112
    → from_i128 u false ≡ pack_sig 0 (pos (bias + j)) (u * 2 ^ (112 - j))
unfolding from_i128
from_i128-IsTop j u h hj =
    let set : (u == 0) ≡ false = ground (arith, h.lower, one-le-pow j 2) in
    let exp : bias + (j + 1) - 1 ≡ bias + j = omega arith in
    rw (set, norm_loop-IsTop j u h (omega arith), exp, lowered j u hj) refl

-- An unsigned 128-bit integer comes back unchanged where it fits the significand, and as 0 where it does not.
pub to_u128-from_i128 :
    (u : ℕ) → u < full → to_u128 (from_i128 u false) ≡ (if ltb u (2 ^ 113) then u else 0)
unfolding to_u128
to_u128-from_i128 u hu = elim (Bool-cases (u == 0)) [
  | inl none_set ↦ let e : u ≡ 0 = ground arith in rw e (unfold from_i128 pack isnan isinf in refl)
  | inr some_set ↦
      let (j, top, less) = IsTop-exists 128 u (ground arith) (omega arith) in
      let f = from_i128 u false in
      let held = from_i128-Holds j u top less in
      let (number, finite) = Holds-finite f held (omega arith) in
      let used = Holds-nonzero f held (omega arith) in
      elim (Bool-cases (ltb u (2 ^ 113))) [
        | inl small ↦
            let low = IsTop-small j 113 u top (ground arith) in
            let value =
              integer_part-Holds 0 j u f
                (subst (λ (t : ℕ). Holds 0 (bias + j) t f) (lowered j u (omega arith)) held)
                (omega arith) in
            rw (number, finite, used, value, held.sign_eq, small) refl
        | inr large ↦
            let high = IsTop-large j 113 u top (ground arith) in
            let value : integer_part f ≡ none =
              integer_part-none f (bias + j) held.exponent_eq (omega arith) in
            rw (number, finite, used, value, held.sign_eq, large) refl
      ]
]
