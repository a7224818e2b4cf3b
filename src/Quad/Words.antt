-- ===== src/Quad/Words.antt =====
-- The four words of a product of two significands (runtime/fp128_helpers.c, 177 to 209).
use stdlib.Base.{
  ℕ, ◌+◌, ◌-◌, ◌*◌, ◌/◌, ◌%◌, ◌^◌, ◌≤◌, ◌<◌, ◌≡◌, refl, ap, ◌∙◌, inl, inr, true, false, arith, ltb,
  ◌==◌, Bool-cases, if◌then◌else◌, bit_or,
}
use native.Mathlib.Nat.{one-le-pow, mul-le-mul, mul-lt-mul_of_pos_right}
use stdlib.Base.Bits.{pow_add, bit_or_sum}
use stdlib.Base.Int.{pos, sub_ℕ, ◌+ℤ◌}
use stdlib.Base.Words.{◌>>>◌}
use stdlib.Quad.{F128, full, bias, exponent, significand, pack_sig, round_pack}
use stdlib.Quad.Lengths.{IsTop}
use stdlib.Quad.Arith.{mul_words, mul_finite}

pub times-le : (x y m n : ℕ) → x ≤ m → y ≤ n → x * y ≤ m * n
times-le x y m n hx hy = mul-le-mul hx hy

pub times-lt : (x y m n : ℕ) → x < m → y < n → x * y < m * n
times-lt x y m n hx hy = grind (arith, times-le x y (m - 1) (n - 1))

-- The four words are those of the product.
pub mul_words_lem :
    (a b : ℕ)
    → a < 2 ^ 113
    → b < 2 ^ 113
    → (a * b
        ≡ (mul_words a b).3 * 2 ^ 192
          + (mul_words a b).2 * 2 ^ 128
          + (mul_words a b).1 * 2 ^ 64
          + (mul_words a b).0)
      × ((mul_words a b).2 < 2 ^ 64)
      × ((mul_words a b).1 < 2 ^ 64)
      × ((mul_words a b).0 < 2 ^ 64)
unfolding mul_words
mul_words_lem a b ha hb =
    let a0 = a % 2 ^ 64 in
    let a1 = a / 2 ^ 64 in
    let b0 = b % 2 ^ 64 in
    let b1 = b / 2 ^ 64 in
    let same_a : a / 2 ^ 64 % 2 ^ 64 ≡ a1 = omega arith in
    let same_b : b / 2 ^ 64 % 2 ^ 64 ≡ b1 = omega arith in
    let cross : a * b ≡ a1 * b1 * 2 ^ 128 + (a0 * b1 + a1 * b0) * 2 ^ 64 + a0 * b0 =
      split a0 a1 b0 b1 a b (omega arith) (omega arith) in
    let s00 =
      times-le (a0) (b0) 18446744073709551615 18446744073709551615 (omega arith) (omega arith) in
    let s01 = times-le (a0) (b1) 18446744073709551615 562949953421311 (omega arith) (omega arith) in
    let s10 = times-le (a1) (b0) 562949953421311 18446744073709551615 (omega arith) (omega arith) in
    let s11 = times-le (a1) (b1) 562949953421311 562949953421311 (omega arith) (omega arith) in
    rw (same_a, same_b)
      (omega (arith, cross, s00, s01, s10, s11), omega arith, omega arith, omega arith)
  where
    split :
        (a0 a1 b0 b1 a b : ℕ)
        → a ≡ a1 * 2 ^ 64 + a0
        → b ≡ b1 * 2 ^ 64 + b0
        → a * b ≡ a1 * b1 * 2 ^ 128 + (a0 * b1 + a1 * b0) * 2 ^ 64 + a0 * b0
    split a0 a1 b0 b1 a b ea eb = rw (ea, eb) (omega arith)

-- Three fields that do not meet, put together.
joined :
    (s t3 t2 low : ℕ)
    → low < 2 ^ s
    → t2 < 2 ^ 64
    → t3 * 2 ^ (64 + s) < full
    → bit_or (bit_or (t3 * 2 ^ (64 + s) % full) (t2 * 2 ^ s)) low
      ≡ t3 * 2 ^ (64 + s) + t2 * 2 ^ s + low
joined s t3 t2 low hl h2 h3 =
    let fits : t3 * 2 ^ (64 + s) % full ≡ t3 * 2 ^ (64 + s) = omega arith in
    let split : t3 * 2 ^ (64 + s) ≡ t3 * 2 ^ 64 * 2 ^ s =
      omega (arith, ap (λ (t : ℕ). t3 * t) (pow_add 64 s)) in
    let small : t2 * 2 ^ s < 2 ^ (64 + s) =
      rw (pow_add 64 s) (mul-lt-mul_of_pos_right h2 (one-le-pow s 2 (omega arith))) in
    let grouped : t3 * 2 ^ 64 * 2 ^ s + t2 * 2 ^ s ≡ (t3 * 2 ^ 64 + t2) * 2 ^ s = omega arith in
    rw fits (
      ap (λ (t : ℕ). bit_or t low)
        (bit_or_sum (64 + s) t3 (t2 * 2 ^ s) small ∙ ap (λ (t : ℕ). t + t2 * 2 ^ s) split ∙ grouped)
      ∙ bit_or_sum s (t3 * 2 ^ 64 + t2) low hl
      ∙ omega (arith, split, grouped))

-- The two shapes of a product of two numbers with bit 112 at the top.
pub product_parts :
    (a b : ℕ) (sign : ℕ) (f g : F128)
    → significand f ≡ a
    → significand g ≡ b
    → IsTop 112 a
    → IsTop 112 b
    → mul_finite sign f g ≡ (
        if ltb (a * b) (2 ^ 225)
        then pack_sig sign (sub_ℕ (exponent f + exponent g) bias) (a * b / 2 ^ 112)
        else pack_sig sign (sub_ℕ (exponent f + exponent g) bias +ℤ pos 1) (a * b / 2 ^ 113))
unfolding mul_finite round_pack
product_parts a b sign f g ea eb ha hb =
    let words = mul_words_lem a b (omega (arith, ha.upper)) (omega (arith, hb.upper)) in
    let t0 = (mul_words a b).0 in
    let t1 = (mul_words a b).1 in
    let t2 = (mul_words a b).2 in
    let t3 = (mul_words a b).3 in
    let most =
      times-le a b (2 ^ 113 - 1) (2 ^ 113 - 1) (omega (arith, ha.upper))
        (omega (arith, hb.upper)) in
    elim (Bool-cases (ltb (a * b) (2 ^ 225))) [
      | inl low ↦
          let below : a * b < 2 ^ 225 = ground arith in
          let clear : (t3 >>> 33 == 0) ≡ true = ground (arith, words.0, below) in
          let sum =
            joined 16 t3 t2 (t1 >>> 48) (omega (arith, words.2)) words.1 (omega (arith, words.0)) in
          let value : t3 * 2 ^ 80 + t2 * 2 ^ 16 + t1 / 2 ^ 48 ≡ a * b / 2 ^ 112 =
            omega (arith, words.0, words.3, words.2) in
          rw (ea, eb, low, clear, sum, value) refl
      | inr high ↦
          let above : 2 ^ 225 ≤ a * b = ground arith in
          let set : (t3 >>> 33 == 0) ≡ false =
            ground (arith, words.0, words.1, words.2, words.3, above) in
          let sum =
            joined 15 t3 t2 (t1 >>> 49) (omega (arith, words.2)) words.1 (omega (arith, words.0)) in
          let value : t3 * 2 ^ 79 + t2 * 2 ^ 15 + t1 / 2 ^ 49 ≡ a * b / 2 ^ 113 =
            omega (arith, words.0, words.3, words.2) in
          rw (ea, eb, high, set, sum, value) refl
    ]
