-- ===== src/Edwards/Bytes.antt =====
-- The bytes of a number modulo the order, written and read (runtime/xiom_runtime.c, 8882 to 8994).
use stdlib.Base.{
  ℕ, suc, ◌+◌, ◌*◌, ◌/◌, ◌%◌, ◌^◌, ◌<◌, ◌≡◌, refl, ◌∙◌, inl, inr, Bool-cases, some, [], ◌∷◌, arith,
  bit_or,
}
use native.Mathlib.Nat.{mod-lt, one-le-pow}
use stdlib.Base.Bits.{bit_or_sum, bit_or_comm}
use stdlib.Field.{Limbs, addc2, at_least_zero, cmp}
use stdlib.Field.Carry.{value, IsLimbs, addc2_lem, cmp_lem}
use stdlib.Field.Modular.{at_least}
use stdlib.Field.Reduce.{subtract_down}
use stdlib.Edwards.{write_bytes}
use stdlib.Edwards.Order.{
  ed25519_l, order_rows, low_sum, order_pass, reduce_order, read_bytes, bytes_to_u8,
  mod_order_from_bytes, order_to_bytes,
}

-- The byte `n / 8` of a word is put above its lower bytes.
module _ (w : ℕ) where
  next_byte :
      (n m : ℕ)
      → m ≡ w % 2 ^ n
      → bit_or m (w / 2 ^ n % 2 ^ 8 * 2 ^ n) ≡ w / 2 ^ n % 2 ^ 8 * 2 ^ n + w % 2 ^ n
  next_byte n m e = rw e (
      bit_or_comm (w % 2 ^ n) (w / 2 ^ n % 2 ^ 8 * 2 ^ n)
      ∙ bit_or_sum n (w / 2 ^ n % 2 ^ 8) (w % 2 ^ n) (mod-lt w (one-le-pow n 2 (omega arith))))

  abbrev joined : ℕ → ℕ → ℕ
  joined m n = bit_or m (w / 2 ^ n % 2 ^ 8 * 2 ^ n)

  -- The eight bytes of a word, put together.
  joined_lem :
      w < 2 ^ 64
      → joined
          (joined (joined (joined (joined (joined (joined (joined 0 0) 8) 16) 24) 32) 40) 48)
          56
        ≡ w
  joined_lem h =
      let m0 = joined 0 0 in
      let m1 = joined m0 8 in
      let m2 = joined m1 16 in
      let m3 = joined m2 24 in
      let m4 = joined m3 32 in
      let m5 = joined m4 40 in
      let m6 = joined m5 48 in
      let e0 : m0 ≡ w % 2 ^ 8 = next_byte 0 0 (omega arith) ∙ omega arith in
      let e1 : m1 ≡ w % 2 ^ 16 = next_byte 8 m0 e0 ∙ omega arith in
      let e2 : m2 ≡ w % 2 ^ 24 = next_byte 16 m1 e1 ∙ omega arith in
      let e3 : m3 ≡ w % 2 ^ 32 = next_byte 24 m2 e2 ∙ omega arith in
      let e4 : m4 ≡ w % 2 ^ 40 = next_byte 32 m3 e3 ∙ omega arith in
      let e5 : m5 ≡ w % 2 ^ 48 = next_byte 40 m4 e4 ∙ omega arith in
      let e6 : m6 ≡ w % 2 ^ 56 = next_byte 48 m5 e5 ∙ omega arith in
      next_byte 56 m6 e6 ∙ omega arith

-- The limbs come back, and the high limbs stay 0.
pub bytes_to_u8-order_to_bytes :
    (r : Limbs)
    → IsLimbs r
    → bytes_to_u8 (order_to_bytes r) 32 ≡ r.w0 ∷ r.w1 ∷ r.w2 ∷ r.w3 ∷ 0 ∷ 0 ∷ 0 ∷ 0 ∷ []
unfolding read_bytes write_bytes
bytes_to_u8-order_to_bytes r h =
    let e0 = joined_lem r.w0 h.lt0 in
    let e1 = joined_lem r.w1 h.lt1 in
    let e2 = joined_lem r.w2 h.lt2 in
    let e3 = joined_lem r.w3 h.lt3 in λ i. e0 i ∷ e1 i ∷ e2 i ∷ e3 i ∷ 0 ∷ 0 ∷ 0 ∷ 0 ∷ []

-- A sum with 0 has no carry.
no_carry : (w : ℕ) → w < 2 ^ 64 → addc2 w 0 0 ≡ (w, 0)
no_carry w h =
    let sum = addc2_lem w 0 0 h (omega arith) (omega arith) in
    let e0 : (addc2 w 0 0).0 ≡ w = omega (arith, sum) in
    let e1 : (addc2 w 0 0).1 ≡ 0 = omega (arith, sum) in λ i. (e0 i, e1 i)

low_sum-zeros :
    (r : Limbs)
    → IsLimbs r
    → low_sum (r.w0 ∷ r.w1 ∷ r.w2 ∷ r.w3 ∷ 0 ∷ 0 ∷ 0 ∷ 0 ∷ []) (0 ∷ 0 ∷ 0 ∷ 0 ∷ 0 ∷ 0 ∷ 0 ∷ 0 ∷ [])
      ≡ (r, 0)
unfolding low_sum
low_sum-zeros r h =
    rw (no_carry r.w0 h.lt0, no_carry r.w1 h.lt1, no_carry r.w2 h.lt2, no_carry r.w3 h.lt3) refl

subtract_down_below :
    (fuel : ℕ) (r p : Limbs)
    → IsLimbs r
    → IsLimbs p
    → value r < value p
    → subtract_down (suc fuel) r p ≡ some r
unfolding subtract_down
subtract_down_below fuel r p hr hp less = elim (Bool-cases (at_least_zero (cmp r p))) [
  | inr under ↦ rw under refl
  | inl over ↦ absurd (omega (arith, at_least _ _ _ (cmp_lem r p hr hp) over, less))
]

l-IsLimbs : IsLimbs ed25519_l
l-IsLimbs = record { lt0 = omega arith; lt1 = omega arith; lt2 = omega arith; lt3 = omega arith }

reduce_order_below :
    (r : Limbs)
    → IsLimbs r
    → value r < value ed25519_l
    → reduce_order (r.w0 ∷ r.w1 ∷ r.w2 ∷ r.w3 ∷ 0 ∷ 0 ∷ 0 ∷ 0 ∷ []) ≡ some r
unfolding reduce_order order_pass order_rows
reduce_order_below r h less =
    rw (low_sum-zeros r h) (subtract_down_below 15 r ed25519_l h l-IsLimbs less)

-- The 32 bytes that a number below the order is written as are read as that number.
pub mod_order_from_bytes-order_to_bytes :
    (r : Limbs)
    → IsLimbs r
    → value r < value ed25519_l
    → mod_order_from_bytes (order_to_bytes r) 32 ≡ some r
mod_order_from_bytes-order_to_bytes r h less =
    rw (bytes_to_u8-order_to_bytes r h) (reduce_order_below r h less)
