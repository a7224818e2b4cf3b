-- ===== src/Quad/Products.antt =====
-- The product of two unsigned integers in quadruple precision (runtime/fp128_helpers.c, 165 to 212).
use stdlib.Base.{
  ℕ, suc, ◌+◌, ◌-◌, ◌*◌, ◌/◌, ◌^◌, ◌≤◌, ◌<◌, ◌≡◌, refl, sym, ap, subst, ◌∙◌, inl, inr, true, false,
  arith, ltb, ◌==◌, Bool-cases,
}
use native.Mathlib.Nat.{pow-suc, one-le-pow}
use stdlib.Base.Bits.{pow_add}
use stdlib.Base.Int.{pos, sub_ℕ, ◌+ℤ◌}
use stdlib.Quad.{F128, bias, sign_of, exponent, isnan, isinf, iszero, pack}
use stdlib.Quad.Fields.{Holds, Holds-finite}
use stdlib.Quad.Lengths.{IsTop, IsTop-exists, shift-IsTop}
use stdlib.Quad.Integers.{from_u64-Holds}
use stdlib.Quad.Wide.{IsTop-small, IsTop-large, from_i128-IsTop}
use stdlib.Quad.Arith.{mul_finite, mul_impl}
use stdlib.Quad.Convert.{from_u64, from_i128}
use stdlib.Quad.Words.{times-le, times-lt, product_parts}

-- The product of two positive numbers goes to the finite branch.
mul_positive :
    (e e' m m' : ℕ) (f g : F128)
    → Holds 0 e m f
    → Holds 0 e' m' g
    → 0 < e
    → 0 < e'
    → e < 0x7FFF
    → e' < 0x7FFF
    → mul_impl f g ≡ mul_finite 0 f g
unfolding mul_impl
mul_positive e e' m m' f g hf hg pf pg ef eg =
    let (number, finite) = Holds-finite f hf ef in
    let (number', finite') = Holds-finite g hg eg in
    let used : iszero f ≡ false = (unfold iszero in ground (arith, hf.exponent_eq)) in
    let used' : iszero g ≡ false = (unfold iszero in ground (arith, hg.exponent_eq)) in
    rw (number, number', finite, finite', used, used', hf.sign_eq, hg.sign_eq) refl

-- The significands of two integers multiply to that of the product, moved up.
scaled :
    (i j a b : ℕ)
    → i + j ≤ 112
    → a * 2 ^ (112 - i) * (b * 2 ^ (112 - j)) ≡ a * b * 2 ^ (112 - (i + j)) * 2 ^ 112
scaled i j a b h =
    let total : 112 - i + (112 - j) ≡ 112 - (i + j) + 112 = omega arith in
    let powers : 2 ^ (112 - i) * 2 ^ (112 - j) ≡ 2 ^ (112 - (i + j)) * 2 ^ 112 =
      rw (← pow_add (112 - i) (112 - j), ← pow_add (112 - (i + j)) 112, total) refl in
    omega (arith, ap (λ (t : ℕ). a * b * t) powers)

mul_tops :
    (i j a b : ℕ)
    → IsTop i a
    → IsTop j b
    → i < 64
    → j < 64
    → a * b < 2 ^ 113
    → mul_finite 0 (from_u64 a) (from_u64 b) ≡ from_i128 (a * b) false
mul_tops i j a b ha hb hi hj small =
    let f = from_u64 a in
    let g = from_u64 b in
    let hf = from_u64-Holds i a ha hi in
    let hg = from_u64-Holds j b hb hj in
    let low : 2 ^ (i + j) ≤ a * b =
      rw (pow_add i j) (times-le (2 ^ i) (2 ^ j) a b ha.lower hb.lower) in
    let fits : i + j < 113 = small_power (i + j) (omega (arith, low)) in
    let (k, top, less) = IsTop-exists 113 (a * b) (omega (arith, one-le-pow (i + j) 2)) small in
    let m = a * b * 2 ^ (112 - (i + j)) in
    let product = scaled i j a b (omega arith) in
    let parts =
      product_parts (a * 2 ^ (112 - i)) (b * 2 ^ (112 - j)) 0 f g hf.significand_eq
        hg.significand_eq (at_112 i a ha (omega arith)) (at_112 j b hb (omega arith)) in
    let moved = shift-IsTop k (112 - (i + j)) (a * b) top in
    let at_least = IsTop-large k (i + j) (a * b) top low in
    let e : sub_ℕ (exponent f + exponent g) bias ≡ pos (bias + (i + j)) =
      ground (arith, hf.exponent_eq, hg.exponent_eq) in
    elim (Bool-cases (ltb m (2 ^ 113))) [
      | inl below ↦
          let same = IsTop-small (k + (112 - (i + j))) 113 m moved (ground arith) in
          let k_eq : k ≡ i + j = omega arith in
          let branch : ltb (m * 2 ^ 112) (2 ^ 225) ≡ true = ground arith in
          let value : m * 2 ^ 112 / 2 ^ 112 ≡ m = omega arith in
          parts
          ∙ rw (product, branch, e, value)
              (rw (← k_eq) (sym (from_i128-IsTop k (a * b) top (omega arith))))
      | inr above ↦
          let more = IsTop-large (k + (112 - (i + j))) 113 m moved (ground arith) in
          let k_eq : k ≡ suc (i + j) = omega (arith, upper_top i j k a b ha hb top) in
          let branch : ltb (m * 2 ^ 112) (2 ^ 225) ≡ false = ground arith in
          let rest : 112 - (i + j) ≡ suc (112 - k) = omega arith in
          let half : m ≡ a * b * 2 ^ (112 - k) * 2 =
            rw rest (omega (arith, ap (λ (t : ℕ). a * b * t) (pow-suc 2 (112 - k)))) in
          let value : m * 2 ^ 112 / 2 ^ 113 ≡ a * b * 2 ^ (112 - k) = omega (arith, half) in
          let next : pos (bias + (i + j)) +ℤ pos 1 ≡ pos (bias + k) =
            (unfold ◌+ℤ◌ in ground arith) in
          parts
          ∙ rw (product, branch, e, value, next) (sym (from_i128-IsTop k (a * b) top (omega arith)))
    ]
  where
    small_power : (n : ℕ) → 2 ^ n < 2 ^ 113 → n < 113
    small_power n h =
        IsTop-small n 113 (2 ^ n)
          (record { lower = omega arith; upper = omega (arith, pow-suc 2 n, one-le-pow n 2) }) h

    at_112 : (j u : ℕ) → IsTop j u → j ≤ 112 → IsTop 112 (u * 2 ^ (112 - j))
    at_112 j u h hj =
        let total : j + (112 - j) ≡ 112 = omega arith in
        subst (λ (t : ℕ). IsTop t (u * 2 ^ (112 - j))) total (shift-IsTop j (112 - j) u h)

    upper_top : (i j k a b : ℕ) → IsTop i a → IsTop j b → IsTop k (a * b) → k < i + j + 2
    upper_top i j k a b ha hb top =
        let shape : suc i + suc j ≡ i + j + 2 = omega arith in
        let most : a * b < 2 ^ (suc i + suc j) =
          rw (pow_add (suc i) (suc j)) (times-lt a b (2 ^ suc i) (2 ^ suc j) ha.upper hb.upper) in
        IsTop-small k (i + j + 2) (a * b) top (subst (λ (t : ℕ). a * b < 2 ^ t) shape most)

-- A product with zero.
mul_zero_left : (b : ℕ) → b < 2 ^ 64 → mul_impl (from_u64 0) (from_u64 b) ≡ from_i128 0 false
mul_zero_left b hb = elim (Bool-cases (b == 0)) [
  | inl none_right ↦
      let eb : b ≡ 0 = ground arith in
      rw eb (unfold mul_impl from_u64 from_i128 pack isnan isinf iszero in refl)
  | inr right ↦
      let (j, top, less) = IsTop-exists 64 b (ground arith) hb in
      let held = from_u64-Holds j b top less in
      let (number, finite) = Holds-finite (from_u64 b) held (omega arith) in
      let start : isnan (from_u64 0) ≡ false = (unfold from_u64 pack isnan in refl) in
      let start' : isinf (from_u64 0) ≡ false = (unfold from_u64 pack isinf in refl) in
      let zeros : iszero (from_u64 0) ≡ true = (unfold from_u64 pack iszero in refl) in
      let plus : sign_of (from_u64 0) ≡ 0 = (unfold from_u64 pack in refl) in
      (unfold mul_impl from_i128 in
        rw (start, number, start', finite, zeros, plus, held.sign_eq) refl)
]

mul_zero_right :
    (a : ℕ) → (a == 0) ≡ false → a < 2 ^ 64 → mul_impl (from_u64 a) (from_u64 0) ≡ from_i128 0 false
mul_zero_right a set ha =
    let (j, top, less) = IsTop-exists 64 a (ground arith) ha in
    let held = from_u64-Holds j a top less in
    let (number, finite) = Holds-finite (from_u64 a) held (omega arith) in
    let used : iszero (from_u64 a) ≡ false = (unfold iszero in ground (arith, held.exponent_eq)) in
    let start : isnan (from_u64 0) ≡ false = (unfold from_u64 pack isnan in refl) in
    let start' : isinf (from_u64 0) ≡ false = (unfold from_u64 pack isinf in refl) in
    let zeros : iszero (from_u64 0) ≡ true = (unfold from_u64 pack iszero in refl) in
    let plus : sign_of (from_u64 0) ≡ 0 = (unfold from_u64 pack in refl) in
    (unfold mul_impl from_i128 in
      rw (number, start, finite, start', used, zeros, held.sign_eq, plus) refl)

-- The product of the conversions of two unsigned 64-bit integers is the conversion of their product, when that
-- fits the 113 bits of the significand.
pub mul_impl-from_u64 :
    (a b : ℕ)
    → a < 2 ^ 64
    → b < 2 ^ 64
    → a * b < 2 ^ 113
    → mul_impl (from_u64 a) (from_u64 b) ≡ from_i128 (a * b) false
mul_impl-from_u64 a b ha hb small = elim (Bool-cases (a == 0)) [
  | inl none_left ↦
      let ea : a ≡ 0 = ground arith in
      let nothing : 0 * b ≡ 0 = omega arith in rw (ea, nothing) (mul_zero_left b hb)
  | inr left ↦ elim (Bool-cases (b == 0)) [
    | inl none_right ↦
        let eb : b ≡ 0 = ground arith in
        let nothing : a * 0 ≡ 0 = omega arith in rw (eb, nothing) (mul_zero_right a left ha)
    | inr right ↦
        let (i, top, less) = IsTop-exists 64 a (ground arith) ha in
        let (j, top', less') = IsTop-exists 64 b (ground arith) hb in
        mul_positive (bias + i) (bias + j) (a * 2 ^ (112 - i)) (b * 2 ^ (112 - j)) (from_u64 a)
          (from_u64 b) (from_u64-Holds i a top less) (from_u64-Holds j b top' less') (omega arith)
          (omega arith) (omega arith) (omega arith)
        ∙ mul_tops i j a b top top' less less' small
  ]
]
