-- ===== src/Scan/Leading.antt =====
-- Counting leading zeros (runtime/xiom_runtime.c, 5427 to 5447).
use stdlib.Base.{
  ℕ, zero, suc, ◌+◌, ◌*◌, ◌/◌, ◌%◌, ◌^◌, ◌≤◌, ◌<◌, ◌≡◌, refl, sym, ap, ◌∙◌, inl, inr, false, arith,
  ◌==◌, Bool-cases,
}
use native.Mathlib.Nat.{
  mul-one, mul_assoc, pow-suc, one-le-pow, mul-le-mul_right, mul-lt-mul_of_pos_right,
  div-mul-le_self, div-add-mod, mod-lt,
}
use stdlib.Scan.{clz_step, clz64}

pub two_pow_add : (n m : ℕ) → 2 ^ (n + m) ≡ 2 ^ n * 2 ^ m
two_pow_add n zero =
    let same : n + 0 ≡ n = omega arith in ap (λ k. 2 ^ k) same ∙ sym (mul-one (2 ^ n))
two_pow_add n (suc m) =
    let more : n + suc m ≡ suc (n + m) = omega arith in
    ap (λ k. 2 ^ k) more
    ∙ pow-suc 2 (n + m)
    ∙ ap (λ p. p * 2) (two_pow_add n m)
    ∙ mul_assoc (2 ^ n) (2 ^ m) 2
    ∙ ap (λ p. 2 ^ n * p) (sym (pow-suc 2 m))

-- The word is the input shifted by the count; it fits, and its top is at or above the place `2^(64-b)`.
pub record Shifted (x low : ℕ) (s : ℕ × ℕ) : Type 0 where
  pub word : s.1 ≡ x * 2 ^ s.0
  pub fits : s.1 < 18446744073709551616
  pub high : low ≤ s.1

-- One step, for literals with `low` * `gain` the new bound: a word below 2^shift is shifted by `gain`.
step_lem :
    (x shift gain low : ℕ) (s : ℕ × ℕ)
    → 2 ^ shift * 2 ^ gain ≡ 18446744073709551616
    → 0 < 2 ^ shift
    → 2 ^ shift ≤ low * 2 ^ gain
    → Shifted x low s
    → Shifted x (2 ^ shift) (clz_step shift gain s)
step_lem x shift gain low (n, v) whole positive reach h = elim (Bool-cases (v / 2 ^ shift == 0)) [
  | inl below ↦
      let small : v < 2 ^ shift =
        let z : v / 2 ^ shift ≡ 0 = ground (arith, below) in
        let product = ap (λ q. 2 ^ shift * q) z in
        omega (arith, div-add-mod v (2 ^ shift), mod-lt v positive, product) in
      let scaled : v * 2 ^ gain < 18446744073709551616 =
        omega (arith, whole, mul-lt-mul_of_pos_right small (one-le-pow gain 2 (omega arith))) in
      let kept : v * 2 ^ gain % 2 ^ 64 ≡ v * 2 ^ gain = omega arith in
      rw (below, kept)
        (record {
          word =
              ap (λ w. w * 2 ^ gain) h.word
              ∙ mul_assoc x (2 ^ n) (2 ^ gain)
              ∙ ap (λ p. x * p) (sym (two_pow_add n gain));
          fits = scaled;
          high = omega (arith, reach, mul-le-mul_right (2 ^ gain) h.high);
        })
  | inr above ↦ rw above (record {
    word = h.word;
    fits = h.fits;
    high =
        (let some_part : 1 ≤ v / 2 ^ shift = ground (arith, above) in
          omega (arith, mul-le-mul_right (2 ^ shift) some_part, div-mul-le_self v (2 ^ shift)));
  })
]

-- The number of leading zeros of a 64-bit word that is not 0 shifts its highest one to the top: the word
-- times 2 to that power is at least 2^63 and still below 2^64.
pub clz64_lem :
    (x : ℕ)
    → 0 < x
    → x < 18446744073709551616
    → (9223372036854775808 ≤ x * 2 ^ clz64 x) × (x * 2 ^ clz64 x < 18446744073709551616)
unfolding clz64
clz64_lem x positive fits =
    let nonzero : (x == 0) ≡ false = ground arith in
    let s0 : Shifted x 1 (0, x) = record { word = omega arith; fits = fits; high = positive } in
    let s1 = step_lem x 32 32 1 (0, x) refl (omega arith) (omega arith) s0 in
    let s2 = step_lem x 48 16 (2 ^ 32) _ refl (omega arith) (omega arith) s1 in
    let s3 = step_lem x 56 8 (2 ^ 48) _ refl (omega arith) (omega arith) s2 in
    let s4 = step_lem x 60 4 (2 ^ 56) _ refl (omega arith) (omega arith) s3 in
    let s5 = step_lem x 62 2 (2 ^ 60) _ refl (omega arith) (omega arith) s4 in
    let s6 = step_lem x 63 1 (2 ^ 62) _ refl (omega arith) (omega arith) s5 in
    rw nonzero (omega (arith, s6.word, s6.high), omega (arith, s6.word, s6.fits))
