-- ===== src/Edwards/Tests.antt =====
-- What the constants of Ed25519 are (runtime/xiom_runtime.c, 8176 to 8196 and 8845 to 8888), and the theorems at concrete
-- inputs.
use stdlib.Base.{
  ℕ, ◌+◌, ◌-◌, ◌*◌, ◌%◌, ◌^◌, ◌≡◌, refl, true, false, some, [], ◌∷◌, ◌==◌, arith, Bool,
}
use stdlib.Base.Chain.{Yields, Present}
use stdlib.Field.{Limbs, full, sub_raw, subb2, is_zero}
use stdlib.Field.Carry.{value, IsLimbs}
use stdlib.Field.Negate.{neg_mod, ed25519_p}
use stdlib.Edwards.{ed25519_d, ed25519_bx, ed25519_by, sqrt_m1, root_exponent}
use stdlib.Edwards.Order.{ed25519_l, r_order, mod_order_from_bytes, order_to_bytes}
use stdlib.Edwards.Signing.{sign, verify}
use stdlib.Edwards.Answers.{Answer, verify-Answer}
use stdlib.Edwards.Disclosed.{Disclosing, sign-Disclosing}
use stdlib.Edwards.Bytes.{mod_order_from_bytes-order_to_bytes}

-- ED25519_D is not -121665 / 121666.
d_wrong : ((121666 * value ed25519_d + 121665) % value ed25519_p == 0) ≡ false
d_wrong = refl

-- The base point is not on the curve y ^ 2 - x ^ 2 = 1 + d x ^ 2 y ^ 2 of the constants.
base_off_curve :
    (let x2 = value ed25519_bx ^ 2 in
      let y2 = value ed25519_by ^ 2 in
      (1 + value ed25519_d * x2 * y2 + x2) % value ed25519_p == y2 % value ed25519_p)
    ≡ false
base_off_curve = refl

-- R_ORDER is not 2 ^ 256 modulo the order.
r_order_wrong : (full % value ed25519_l == value r_order) ≡ false
r_order_wrong = refl

-- sqrt_m1 is no root of -1.
root_wrong : ((value sqrt_m1 ^ 2 + 1) % value ed25519_p == 0) ≡ false
root_wrong = refl

-- The exponent of the root is p - 1 + 2 ^ 252, not (p + 3) / 8.
root_exponent_lem : value root_exponent ≡ value ed25519_p - 1 + 2 ^ 252
unfolding neg_mod sub_raw subb2 is_zero
root_exponent_lem = refl

abbrev granted : ℕ → Bool
granted call = true

verify-Answer_example :
    Yields Answer (verify granted (1 ∷ []) (2 ∷ []) (3 ∷ []))
    × Yields Present (sign granted (1 ∷ []) (2 ∷ []) (3 ∷ []))
verify-Answer_example = verify-Answer granted (1 ∷ []) (2 ∷ []) (3 ∷ [])

sign-Disclosing_example : Disclosing granted (1 ∷ 2 ∷ []) (7 ∷ []) []
sign-Disclosing_example = sign-Disclosing granted (1 ∷ 2 ∷ []) (7 ∷ []) [] refl refl

abbrev sample : Limbs
sample = record { w0 = 0xFEDCBA9876543210; w1 = 5; w2 = 0; w3 = 0x0FFFFFFFFFFFFFFF }

sample-IsLimbs : IsLimbs sample
sample-IsLimbs = record {
  lt0 = omega arith;
  lt1 = omega arith;
  lt2 = omega arith;
  lt3 = omega arith;
}

mod_order_from_bytes-order_to_bytes_example :
    mod_order_from_bytes (order_to_bytes sample) 32 ≡ some sample
mod_order_from_bytes-order_to_bytes_example =
    mod_order_from_bytes-order_to_bytes sample sample-IsLimbs (omega arith)
