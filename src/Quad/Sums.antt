-- ===== src/Quad/Sums.antt =====
-- The sum of two unsigned integers in quadruple precision (runtime/fp128_helpers.c, 79 to 162).
use stdlib.Base.{
  ℕ, suc, ◌+◌, ◌-◌, ◌*◌, ◌/◌, ◌%◌, ◌^◌, ◌≤◌, ◌<◌, ◌≡◌, refl, sym, ap, subst, ◌∙◌, inl, inr, true,
  false, some, arith, ltb, leb, ◌==◌, Bool-cases,
}
use native.Mathlib.Nat.{
  pow-suc, one-le-pow, mul-div_cancel, pow-le-pow_right, mul-lt-mul_of_pos_right,
}
use stdlib.Base.Bits.{pow_add, bit_or-nothing}
use stdlib.Base.Int.{pos, sub_ℕ}
use stdlib.Quad.{F128, full, bias, isnan, isinf, pack, pack_sig, round_pack}
use stdlib.Quad.Fields.{Holds, Holds-finite, Holds-nonzero}
use stdlib.Quad.Lengths.{IsTop, IsTop-exists, norm_loop-IsTop, shift-IsTop, count_bits-IsTop}
use stdlib.Quad.Integers.{from_u64-Holds}
use stdlib.Quad.Wide.{IsTop-small, IsTop-large}
use stdlib.Quad.Arith.{pack_norm, add_magnitudes, addsub}
use stdlib.Quad.Convert.{from_u64, from_magnitude, count_bits}

-- A significand moved down by the distance of two top bits.
moved_down : (i j a : ℕ) → i ≤ j → j ≤ 112 → a * 2 ^ (112 - i) / 2 ^ (j - i) ≡ a * 2 ^ (112 - j)
moved_down i j a hij hj =
    let total : 112 - j + (j - i) ≡ 112 - i = omega arith in
    let power : 1 ≤ 2 ^ (j - i) = one-le-pow (j - i) 2 (omega arith) in
    let split : 2 ^ (112 - i) ≡ 2 ^ (112 - j) * 2 ^ (j - i) =
      rw (← pow_add (112 - j) (j - i), total) refl in
    let grouped : a * 2 ^ (112 - i) ≡ a * 2 ^ (112 - j) * 2 ^ (j - i) =
      omega (arith, ap (λ (t : ℕ). a * t) split) in
    ap (λ (t : ℕ). t / 2 ^ (j - i)) grouped ∙ mul-div_cancel (a * 2 ^ (112 - j)) power

-- The number made of a magnitude, with the length of the magnitude known.
from_magnitude-IsTop :
    (j mag : ℕ)
    → IsTop j mag
    → j < 64
    → from_magnitude 0 mag ≡ pack_sig 0 (pos (bias + j)) (mag * 2 ^ (112 - j))
unfolding from_magnitude
from_magnitude-IsTop j mag h hj =
    let total : j + (112 - j) ≡ 112 = omega arith in
    let top : IsTop 112 (mag * 2 ^ (112 - j)) =
      subst (λ (t : ℕ). IsTop t (mag * 2 ^ (112 - j))) total (shift-IsTop j (112 - j) mag h) in
    let n : count_bits 64 mag 0 ≡ suc j = count_bits-IsTop j 64 mag 0 h hj ∙ omega arith in
    let shift : 112 - (suc j - 1) ≡ 112 - j = omega arith in
    let fits : mag * 2 ^ (112 - j) % full ≡ mag * 2 ^ (112 - j) = omega (arith, top.upper) in
    let exp : bias + suc j - 1 ≡ bias + j = omega arith in rw (n, shift, fits, exp) refl

-- The normalized sum, where the top bit of the sum is `k` and that of the larger operand `j`.
pack_norm-IsTop :
    (j k s : ℕ)
    → IsTop k s
    → j ≤ k
    → k ≤ j + 1
    → k < 64
    → pack_norm 0 (bias + j) (s * 2 ^ (112 - j)) ≡ pack_sig 0 (pos (bias + k)) (s * 2 ^ (112 - k))
unfolding pack_norm round_pack
pack_norm-IsTop j k s h hjk hkj hk =
    let top = shift-IsTop k (112 - j) s h in
    let e : sub_ℕ (bias + j + (k + (112 - j) + 1)) 113 ≡ pos (bias + k) = ground arith in
    let rest : 127 - (k + (112 - j)) + (112 - j) ≡ 127 - k = omega arith in
    let total : 112 - k + 15 ≡ 127 - k = omega arith in
    let lifted : 2 ^ (112 - j) * 2 ^ (127 - (k + (112 - j))) ≡ 2 ^ (112 - k) * 2 ^ 15 =
      rw (← pow_add (112 - j) (127 - (k + (112 - j))), ← pow_add (112 - k) 15, total)
        (ap (λ (t : ℕ). 2 ^ t) (place)) in
    let moved : s * 2 ^ (112 - j) * 2 ^ (127 - (k + (112 - j))) / 2 ^ 15 ≡ s * 2 ^ (112 - k) =
      omega (arith, ap (λ (t : ℕ). s * t) lifted) in
    rw (norm_loop-IsTop (k + (112 - j)) (s * 2 ^ (112 - j)) top (omega arith), e, moved) refl
  where
    place : 112 - j + (127 - (k + (112 - j))) ≡ 127 - k
    place = omega arith

add_upward :
    (i j a b : ℕ)
    → i ≤ j
    → j < 64
    → (a + b) * 2 ^ (112 - j) < full
    → add_magnitudes 0 (bias + i) (bias + j) (a * 2 ^ (112 - i)) (b * 2 ^ (112 - j))
      ≡ some (pack_norm 0 (bias + j) ((a + b) * 2 ^ (112 - j)))
unfolding add_magnitudes
add_upward i j a b hij hj small =
    let grouped : (a + b) * 2 ^ (112 - j) ≡ a * 2 ^ (112 - j) + b * 2 ^ (112 - j) = omega arith in
    let fits : (a * 2 ^ (112 - j) + b * 2 ^ (112 - j)) % full ≡ (a + b) * 2 ^ (112 - j) =
      omega arith in
    let above : ltb (bias + j) (bias + i) ≡ false = ground arith in
    elim (Bool-cases (ltb (bias + i) (bias + j))) [
      | inl less ↦
          let gap : bias + j - (bias + i) ≡ j - i = omega arith in
          let near : ltb (j - i) 128 ≡ true = ground arith in
          rw (above, less, gap, near, moved_down i j a hij (omega arith), fits) refl
      | inr same ↦
          let e : i ≡ j = ground arith in
          let e' : 112 - i ≡ 112 - j = omega arith in rw (above, same, e', fits) refl
    ]

add_downward :
    (i j a b : ℕ)
    → j < i
    → i < 64
    → (a + b) * 2 ^ (112 - i) < full
    → add_magnitudes 0 (bias + i) (bias + j) (a * 2 ^ (112 - i)) (b * 2 ^ (112 - j))
      ≡ some (pack_norm 0 (bias + i) ((a + b) * 2 ^ (112 - i)))
unfolding add_magnitudes
add_downward i j a b hij hi small =
    let fits : (a * 2 ^ (112 - i) + b * 2 ^ (112 - i)) % full ≡ (a + b) * 2 ^ (112 - i) =
      omega arith in
    let above : ltb (bias + j) (bias + i) ≡ true = ground arith in
    let below : ltb (bias + i) (bias + j) ≡ false = ground arith in
    let gap : bias + i - (bias + j) ≡ i - j = omega arith in
    let near : ltb (i - j) 128 ≡ true = ground arith in
    rw (above, below, gap, near, moved_down j i b (omega arith) (omega arith), fits) refl

-- The sum of two positive numbers goes to the branch of equal signs.
add_positive :
    (e e' m m' : ℕ) (f g : F128)
    → Holds 0 e m f
    → Holds 0 e' m' g
    → 0 < e
    → 0 < e'
    → e < 0x7FFF
    → e' < 0x7FFF
    → addsub f g 0 ≡ add_magnitudes 0 e e' m m'
unfolding addsub
add_positive e e' m m' f g hf hg pf pg ef eg =
    let (number, finite) = Holds-finite f hf ef in
    let (number', finite') = Holds-finite g hg eg in
    rw
      (
        number,
        number',
        finite,
        finite',
        Holds-nonzero f hf pf,
        Holds-nonzero g hg pg,
        hf.sign_eq,
        hg.sign_eq,
        hf.exponent_eq,
        hg.exponent_eq,
        hf.significand_eq,
        hg.significand_eq,
      )
      refl

-- Adding to zero gives the other number back.
add_zero_left :
    (e m : ℕ) (g : F128) → Holds 0 e m g → 0 < e → e < 0x7FFF → addsub (from_u64 0) g 0 ≡ some g
unfolding addsub from_u64 pack isnan isinf
add_zero_left e m g h positive small =
    let (number, finite) = Holds-finite g h small in
    let low : g.hi % 2 ^ 63 ≡ g.hi = omega (arith, h.sign_eq) in
    rw (number, finite, Holds-nonzero g h positive, h.sign_eq, low, bit_or-nothing g.hi) refl

add_zero_right :
    (e m : ℕ) (f : F128) → Holds 0 e m f → 0 < e → e < 0x7FFF → addsub f (from_u64 0) 0 ≡ some f
unfolding addsub from_u64 pack isnan isinf
add_zero_right e m f h positive small =
    let (number, finite) = Holds-finite f h small in
    rw (number, finite, Holds-nonzero f h positive) refl

add_tops :
    (i j a b : ℕ)
    → IsTop i a
    → IsTop j b
    → i < 64
    → j < 64
    → a + b < 2 ^ 64
    → (n : ℕ) × (add_magnitudes 0 (bias + i) (bias + j) (a * 2 ^ (112 - i)) (b * 2 ^ (112 - j))
        ≡ some (pack_norm 0 (bias + n) ((a + b) * 2 ^ (112 - n))))
      × (2 ^ n ≤ a + b)
      × (a + b < 2 ^ (n + 2))
      × (n < 64)
add_tops i j a b ha hb hi hj small = elim (Bool-cases (leb i j)) [
  | inl up ↦
      let ij : i ≤ j = ground arith in
      let bound = sum_bound i j a b ha hb ij in
      let fits = fits_full j (a + b) hj bound in
      (j, add_upward i j a b ij hj fits, omega (arith, hb.lower), bound, hj)
  | inr down ↦
      let ji : j < i = ground arith in
      let bound = sum_bound j i b a hb ha (omega arith) in
      let swap : b + a ≡ a + b = omega arith in
      let bound' : a + b < 2 ^ (i + 2) = omega (arith, bound) in
      (
        i,
        add_downward i j a b ji hi (fits_full i (a + b) hi bound'),
        omega (arith, ha.lower),
        bound',
        hi,
      )
]
  where
    sum_bound : (i j a b : ℕ) → IsTop i a → IsTop j b → i ≤ j → a + b < 2 ^ (j + 2)
    sum_bound i j a b ha hb h =
        let larger : 2 ^ suc i ≤ 2 ^ suc j = pow-le-pow_right (omega arith) (omega arith) in
        let shape : j + 2 ≡ suc (suc j) = omega arith in
        rw shape (omega (arith, ha.upper, hb.upper, pow-suc 2 (suc j)))

    fits_full : (j s : ℕ) → j < 64 → s < 2 ^ (j + 2) → s * 2 ^ (112 - j) < full
    fits_full j s hj hs =
        let power : 1 ≤ 2 ^ (112 - j) = one-le-pow (112 - j) 2 (omega arith) in
        let high : s * 2 ^ (112 - j) < 2 ^ (j + 2) * 2 ^ (112 - j) =
          mul-lt-mul_of_pos_right hs power in
        let total : j + 2 + (112 - j) ≡ 114 = omega arith in
        let whole : 2 ^ (j + 2) * 2 ^ (112 - j) ≡ 2 ^ 114 =
          rw (← pow_add (j + 2) (112 - j), total) refl in
        omega arith

-- The sum of the conversions of two unsigned integers is the conversion of their sum, when that fits 64 bits:
-- no shift is undefined and no bit is lost.
pub addsub-from_u64 :
    (a b : ℕ) → a + b < 2 ^ 64 → addsub (from_u64 a) (from_u64 b) 0 ≡ some (from_u64 (a + b))
addsub-from_u64 a b small = elim (Bool-cases (a == 0)) [
  | inl none_left ↦ elim (Bool-cases (b == 0)) [
    | inl none_right ↦
        let ea : a ≡ 0 = ground arith in
        let eb : b ≡ 0 = ground arith in
        rw (ea, eb) (unfold addsub from_u64 pack isnan isinf in refl)
    | inr right ↦
        let ea : a ≡ 0 = ground arith in
        let same : 0 + b ≡ b = omega arith in
        let (j, top, less) = IsTop-exists 64 b (ground arith) (omega arith) in
        let held = from_u64-Holds j b top less in
        rw (ea, same)
          (add_zero_left (bias + j) (b * 2 ^ (112 - j)) (from_u64 b) held (omega arith)
            (omega arith))
  ]
  | inr left ↦
      let (i, top, less) = IsTop-exists 64 a (ground arith) (omega arith) in
      let held = from_u64-Holds i a top less in
      elim (Bool-cases (b == 0)) [
        | inl none_right ↦
            let eb : b ≡ 0 = ground arith in
            let same : a + 0 ≡ a = omega arith in
            rw (eb, same)
              (add_zero_right (bias + i) (a * 2 ^ (112 - i)) (from_u64 a) held (omega arith)
                (omega arith))
        | inr right ↦
            let (j, top', less') = IsTop-exists 64 b (ground arith) (omega arith) in
            let held' = from_u64-Holds j b top' less' in
            let (n, sum, low, high, fits) = add_tops i j a b top top' less less' small in
            let (k, top'', less'') = IsTop-exists 64 (a + b) (ground arith) small in
            add_positive (bias + i) (bias + j) (a * 2 ^ (112 - i)) (b * 2 ^ (112 - j)) (from_u64 a)
              (from_u64 b) held held' (omega arith) (omega arith) (omega arith) (omega arith)
            ∙ sum
            ∙ ap some (
                pack_norm-IsTop n k (a + b) top'' (IsTop-large k n (a + b) top'' low)
                  (omega (arith, IsTop-small k (n + 2) (a + b) top'' high)) less''
                ∙ sym (made k (a + b) top'' less''))
      ]
]
  where
    made :
        (j u : ℕ)
        → IsTop j u
        → j < 64
        → from_u64 u ≡ pack_sig 0 (pos (bias + j)) (u * 2 ^ (112 - j))
    made j u top less =
        let set : (u == 0) ≡ false = ground (arith, top.lower, one-le-pow j 2) in
        (unfold from_u64 in rw set (from_magnitude-IsTop j u top less))
