-- ===== src/Scan/Trailing.antt =====
-- Counting trailing zeros (runtime/xiom_runtime.c, 5449 to 5469).
use stdlib.Base.{
  ℕ, ◌*◌, ◌/◌, ◌%◌, ◌^◌, ◌<◌, ◌≡◌, refl, sym, ap, ◌∙◌, inl, inr, false, arith, ◌==◌, Bool-cases,
  dec_eq,
}
use native.Mathlib.Nat.{mul_assoc, mul_comm, div-add-mod, mul-mod_left}
use stdlib.Scan.{ctz_step, ctz64}
use stdlib.Scan.Leading.{two_pow_add}

-- The input is the word scaled by the count, and the word is not a multiple of `wide`.
pub record Lowered (x wide : ℕ) (s : ℕ × ℕ) : Type 0 where
  pub word : x ≡ s.1 * 2 ^ s.0
  pub rest : 0 < s.1 % wide

-- One step, for `wide` the square of 2^gain.
step_lem :
    (x gain wide : ℕ) (s : ℕ × ℕ)
    → 2 ^ gain * 2 ^ gain ≡ wide
    → Lowered x wide s
    → Lowered x (2 ^ gain) (ctz_step gain gain s)
step_lem x gain wide (n, v) square h = elim (Bool-cases (v % 2 ^ gain == 0)) [
  | inr some_left ↦ rw some_left (record { word = h.word; rest = ground arith })
  | inl none_left ↦
      let p = 2 ^ gain in
      let q = v / p in
      let zero_rest : v % p ≡ 0 = ground (arith, none_left) in
      let whole : v ≡ q * p = omega (arith, div-add-mod v p, mul_comm p q, zero_rest) in
      rw none_left (record {
        word =
            h.word
            ∙ ap (λ w. w * 2 ^ n) whole
            ∙ mul_assoc q p (2 ^ n)
            ∙ ap (λ m. q * m) (mul_comm p (2 ^ n))
            ∙ ap (λ m. q * m) (sym (two_pow_add n gain));
        rest = elim (dec_eq (q % p) 0) [
          | no some_rest ↦ omega (arith, some_rest)
          | yes none_rest ↦
              let outer : q ≡ q / p * p =
                omega (arith, div-add-mod q p, mul_comm p (q / p), none_rest) in
              let again : v ≡ q / p * wide =
                whole
                ∙ ap (λ m. m * p) outer
                ∙ mul_assoc (q / p) p p
                ∙ ap (λ m. q / p * m) square in
              let gone : v % wide ≡ 0 = ap (λ m. m % wide) again ∙ mul-mod_left (q / p) wide in
              absurd (omega (arith, gone, h.rest))
        ];
      })
]

-- The number of trailing zeros of a 64-bit word that is not 0: the word is an odd number times 2 to that
-- power.
pub ctz64_lem :
    (x : ℕ) → 0 < x → x < 18446744073709551616 → (v : ℕ) × (x ≡ v * 2 ^ ctz64 x) × (v % 2 ≡ 1)
unfolding ctz64
ctz64_lem x positive fits =
    let nonzero : (x == 0) ≡ false = ground arith in
    let s0 : Lowered x 18446744073709551616 (0, x) = record {
      word = omega arith;
      rest = omega arith;
    } in
    let s1 = step_lem x 32 18446744073709551616 (0, x) refl s0 in
    let s2 = step_lem x 16 (2 ^ 32) _ refl s1 in
    let s3 = step_lem x 8 (2 ^ 16) _ refl s2 in
    let s4 = step_lem x 4 (2 ^ 8) _ refl s3 in
    let s5 = step_lem x 2 (2 ^ 4) _ refl s4 in
    let s6 = step_lem x 1 (2 ^ 2) _ refl s5 in rw nonzero (_, s6.word, omega (arith, s6.rest))
