-- ===== src/Field/Inverted.antt =====
-- A run of the inverse of Ed25519 (runtime/xiom_runtime.c, 8674 to 8755).
use stdlib.Base.{◌≡◌, refl, some, arith}
use stdlib.Field.{sub_raw, cmp, subb2, is_zero}
use stdlib.Field.Carry.{IsLimbs}
use stdlib.Field.Negate.{from_u64, ed25519_p}
use stdlib.Field.Reduce.{subtract_down}
use stdlib.Field.Inverse.{
  shift_right, odd_half, strip, mod_diff, subtract_pair, euclid_step, euclid_loop, chosen,
  inverse_reduced, inverse, ed25519_inv,
}

-- The inverse of 2 comes out as the negative of the half of 1, (p - 1) / 2.
inverse_two :
    ed25519_inv (from_u64 2)
    ≡ some (record {
      w0 = 0xFFFFFFFFFFFFFFF6;
      w1 = 0xFFFFFFFFFFFFFFFF;
      w2 = 0xFFFFFFFFFFFFFFFF;
      w3 = 0x3FFFFFFFFFFFFFFF;
    })
unfolding shift_right odd_half strip mod_diff subtract_pair euclid_step euclid_loop chosen
    inverse_reduced inverse subtract_down sub_raw cmp subb2 is_zero
inverse_two = refl

limbs : IsLimbs (from_u64 3) × IsLimbs ed25519_p
limbs = omega arith
