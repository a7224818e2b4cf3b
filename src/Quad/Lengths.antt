-- ===== src/Quad/Lengths.antt =====
-- The loops that count the bits of a magnitude and that move its top bit to the top (runtime/fp128_helpers.c,
-- 125, 153, 276, 288 and 353).
use stdlib.Base.{
  ℕ, zero, suc, ◌+◌, ◌-◌, ◌*◌, ◌/◌, ◌%◌, ◌^◌, ◌≤◌, ◌<◌, ◌≡◌, refl, ap, subst, ◌∙◌, inl, inr, true,
  false, arith, ◌==◌, Bool-cases,
}
use native.Mathlib.Nat.{pow-suc, one-le-pow, mul-le-mul_right, mul-lt-mul_of_pos_right}
use stdlib.Base.Bits.{pow_add}
use stdlib.Base.Words.{◌>>>◌}
use stdlib.Quad.{full}
use stdlib.Quad.Arith.{norm_loop}
use stdlib.Quad.Convert.{count_bits}

-- The top bit of `t` is bit `j`.
pub record IsTop (j t : ℕ) : Type 0 where
  pub lower : 2 ^ j ≤ t
  pub upper : t < 2 ^ suc j

count_bits_zero : (fuel n : ℕ) → count_bits fuel 0 n ≡ n
unfolding count_bits
count_bits_zero zero n = refl
count_bits_zero (suc fuel) n = refl

-- With fuel above the top bit, the count is one more than its index.
pub count_bits-IsTop : (j fuel t n : ℕ) → IsTop j t → j < fuel → count_bits fuel t n ≡ n + suc j
unfolding count_bits
count_bits-IsTop j zero t n h hf = elim hf [ ]
count_bits-IsTop zero (suc fuel) t n h hf =
    let one : t ≡ 1 = omega (arith, h.lower, h.upper) in
    let half : t / 2 ≡ 0 = omega arith in
    let set : (t == 0) ≡ false = ground arith in
    rw (set, half) (count_bits_zero fuel (n + 1) ∙ omega arith)
count_bits-IsTop (suc j) (suc fuel) t n h hf =
    let set : (t == 0) ≡ false = ground (arith, h.lower, one-le-pow (suc j) 2) in
    let half : IsTop j (t / 2) = record {
      lower = omega (arith, h.lower, pow-suc 2 j);
      upper = omega (arith, h.upper, pow-suc 2 (suc j));
    } in
    rw set (count_bits-IsTop j fuel (t / 2) (n + 1) half (omega arith) ∙ omega arith)

-- Every number that is not 0 has a top bit.
pub IsTop-exists : (fuel t : ℕ) → 0 < t → t < 2 ^ fuel → (j : ℕ) × IsTop j t × (j < fuel)
IsTop-exists zero t pos small = absurd (omega arith)
IsTop-exists (suc fuel) t pos small = elim (Bool-cases (t / 2 == 0)) [
  | inl one ↦
      let e : t ≡ 1 = ground arith in
      (0, record { lower = omega arith; upper = omega arith }, omega arith)
  | inr more ↦
      let (j, top, less) =
        IsTop-exists fuel (t / 2) (ground arith) (omega (arith, pow-suc 2 fuel)) in
      (
        suc j,
        record {
          lower = omega (arith, top.lower, pow-suc 2 j);
          upper = omega (arith, top.upper, pow-suc 2 (suc j));
        },
        omega arith,
      )
]

-- The loop stops at once when the top bit is at the top, which `d` shifts bring it to.
norm_loop_shift :
    (d fuel s n : ℕ)
    → 2 ^ 127 ≤ s * 2 ^ d
    → s * 2 ^ d < full
    → d ≤ fuel
    → norm_loop fuel s n ≡ (s * 2 ^ d, n - d)
unfolding norm_loop
norm_loop_shift zero zero s n low high hf = ground arith
norm_loop_shift zero (suc fuel) s n low high hf =
    let top : (s >>> 127 == 0) ≡ false = ground arith in rw top (ground arith)
norm_loop_shift (suc d) zero s n low high hf = elim hf [ ]
norm_loop_shift (suc d) (suc fuel) s n low high hf =
    let split : s * 2 ^ suc d ≡ s * 2 * 2 ^ d =
      omega (arith, ap (λ (t : ℕ). s * t) (pow-suc 2 d)) in
    let spread : s * 2 ≤ s * 2 * 2 ^ d = grind (arith, one-le-pow d 2) in
    let under : (s >>> 127 == 0) ≡ true = ground arith in
    let fits : s * 2 % full ≡ s * 2 = omega arith in
    rw (under, fits, split)
      (norm_loop_shift d fuel (s * 2) (n - 1) (omega arith) (omega arith) (omega arith)
        ∙ ap (λ m. (s * 2 * 2 ^ d, m)) (omega arith))

pub shift-IsTop : (j k s : ℕ) → IsTop j s → IsTop (j + k) (s * 2 ^ k)
shift-IsTop j k s h =
    let power : 1 ≤ 2 ^ k = one-le-pow k 2 (omega arith) in
    let low : 2 ^ j * 2 ^ k ≤ s * 2 ^ k = mul-le-mul_right (2 ^ k) h.lower in
    let high : s * 2 ^ k < 2 ^ suc j * 2 ^ k = mul-lt-mul_of_pos_right h.upper power in
    let shape : suc (j + k) ≡ suc j + k = omega arith in
    record { lower = rw (pow_add j k) low; upper = rw (shape, pow_add (suc j) k) high }

-- The loop over the whole width, from the top bit.
pub norm_loop-IsTop :
    (j s : ℕ) → IsTop j s → j < 128 → norm_loop 128 s 128 ≡ (s * 2 ^ (127 - j), j + 1)
norm_loop-IsTop j s h hj =
    let total : j + (127 - j) ≡ 127 = omega arith in
    let top : IsTop 127 (s * 2 ^ (127 - j)) =
      subst (λ (t : ℕ). IsTop t (s * 2 ^ (127 - j))) total (shift-IsTop j (127 - j) s h) in
    norm_loop_shift (127 - j) 128 s 128 top.lower (omega (arith, top.upper)) (omega arith)
    ∙ ap (λ m. (s * 2 ^ (127 - j), m)) (omega arith)
