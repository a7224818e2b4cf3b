-- ===== src/Field/Negate.antt =====
-- Negation in the two fields, and the sum and difference of Ed25519 (runtime/xiom_runtime.c, 8117 to 8119,
-- 8176 to 8179, 8399 to 8402, 8668 to 8673 and 8756 to 8759).
use stdlib.Base.{ℕ, ◌+◌, ◌<◌, ◌≡◌, ◌⊎◌, inl, inr, arith, if◌then◌else◌, Bool-cases, true, false}
use stdlib.Field.{Limbs, is_zero, sub_raw, mod_add, mod_sub, secp256k1_p}
use stdlib.Field.Carry.{value, IsLimbs, sub_raw_lem, value-lt}

-- xiom_f256_from_u64
abbrev pub from_u64 : ℕ → Limbs
from_u64 v = record { w0 = v; w1 = 0; w2 = 0; w3 = 0 }

-- The body that the two negations share.
unfoldable pub neg_mod : Limbs → Limbs → Limbs
neg_mod p a = if is_zero a then from_u64 0 else (sub_raw p a).0

abbrev pub secp256k1_neg : Limbs → Limbs
secp256k1_neg a = neg_mod secp256k1_p a

abbrev pub ed25519_p : Limbs
ed25519_p = record {
  w0 = 0xFFFFFFFFFFFFFFED;
  w1 = 0xFFFFFFFFFFFFFFFF;
  w2 = 0xFFFFFFFFFFFFFFFF;
  w3 = 0x7FFFFFFFFFFFFFFF;
}

abbrev pub ed25519_add : Limbs → Limbs → Limbs
ed25519_add a b = mod_add a b ed25519_p

abbrev pub ed25519_sub : Limbs → Limbs → Limbs
ed25519_sub a b = mod_sub a b ed25519_p

abbrev pub ed25519_neg : Limbs → Limbs
ed25519_neg a = neg_mod ed25519_p a

is_zero-value : (a : Limbs) → is_zero a ≡ true → value a ≡ 0
unfolding is_zero
is_zero-value a h = ground arith

value-is_zero : (a : Limbs) → is_zero a ≡ false → 0 < value a
unfolding is_zero
value-is_zero a h = ground arith

-- Of a number below the modulus, the negation is in range, and the two sum to 0 or to the modulus.
pub neg_mod-sum :
    (p a : Limbs)
    → IsLimbs p
    → IsLimbs a
    → value a < value p
    → IsLimbs (neg_mod p a)
      × (value (neg_mod p a) < value p)
      × ((value (neg_mod p a) + value a ≡ 0) ⊎ (value (neg_mod p a) + value a ≡ value p))
unfolding neg_mod
neg_mod-sum p a hp ha la =
    let less = sub_raw_lem p a hp ha in
    let top = value-lt (sub_raw p a).0 less.1 in
    elim (Bool-cases (is_zero a)) [
      | inl none_set ↦
          let nothing = is_zero-value a none_set in
          rw none_set (
            record { lt0 = omega arith; lt1 = omega arith; lt2 = omega arith; lt3 = omega arith },
            omega arith,
            inl (omega arith),
          )
      | inr some_set ↦
          let positive = value-is_zero a some_set in
          rw some_set (less.1, ground arith, inr (ground arith))
    ]
