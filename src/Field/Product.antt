-- ===== src/Field/Product.antt =====
-- The schoolbook product of the curves' numbers (runtime/xiom_runtime.c, 8198 to 8220).
use stdlib.Base.{ℕ, ◌*◌, ◌/◌, ◌%◌, ◌≤◌, ◌<◌, ◌≡◌, refl, false, [], ◌∷◌, arith, ◌==◌}
use native.Mathlib.Nat.{mul-le-mul_right, mul-zero}
use stdlib.Field.Carry.{addc2_lem}
use stdlib.Field.{word, addc2, mul_row, mul_rows, mul_raw}

zeroes : ((addc2 0 0 0).0 ≡ 0) × ((addc2 0 0 0).1 ≡ 0)
unfolding addc2
zeroes = (refl, refl)

first : (n : ℕ) → n < word → ((addc2 0 n 0).0 ≡ n) × ((addc2 0 n 0).1 ≡ 0)
first n h =
    let l = addc2_lem 0 n 0 (omega arith) h (omega arith) in (omega (arith, l), omega (arith, l))

-- The row of the lowest limb against a number with only its highest limb.
row :
    (x y : ℕ)
    → x < word
    → y < word
    → mul_row (0 ∷ 0 ∷ 0 ∷ 0 ∷ 0 ∷ 0 ∷ 0 ∷ 0 ∷ []) x (0 ∷ 0 ∷ 0 ∷ y ∷ []) 0 0
      ≡ 0 ∷ 0 ∷ 0 ∷ (x * y % word) ∷ 0 ∷ 0 ∷ 0 ∷ 0 ∷ []
unfolding mul_row
row x y hx hy =
    let product : x * y ≤ 18446744073709551615 * y = mul-le-mul_right y (omega arith) in
    let high = first (x * y / word) (omega (arith, product)) in
    let low = first (x * y % word) (omega arith) in
    rw (mul-zero x) (simp (zeroes.0, zeroes.1, low.0, low.1, high.1) refl)

-- The product of a number below 2^64 and a multiple of 2^192 loses its high word: the result is only
-- the low word of the product of the two limbs, at the place of weight 2^192.
pub mul_raw-loses_high :
    (x y : ℕ)
    → 0 < x
    → x < word
    → y < word
    → mul_raw
        (record { w0 = x; w1 = 0; w2 = 0; w3 = 0 })
        (record { w0 = 0; w1 = 0; w2 = 0; w3 = y })
      ≡ 0 ∷ 0 ∷ 0 ∷ (x * y % word) ∷ 0 ∷ 0 ∷ 0 ∷ 0 ∷ []
unfolding mul_raw mul_rows
mul_raw-loses_high x y positive hx hy =
    let nonzero : (x == 0) ≡ false = ground arith in rw (nonzero, row x y hx hy) refl
