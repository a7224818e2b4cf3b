-- ===== src/Field/Tests.antt =====
-- Runs of the limb arithmetic (runtime/xiom_runtime.c, 8067 to 8220), and the theorems about it at
-- concrete inputs.
use stdlib.Base.{refl, ◌-◌, ◌+◌, ◌≡◌, [], ◌∷◌, arith}
use stdlib.Field.{addc2, Limbs, word, secp256k1_p, secp256k1_add}
use stdlib.Field.Carry.{value, IsLimbs}
use stdlib.Field.Reduce.{fold_limb, propagate, secp256k1_r256}
use stdlib.Field.Modular.{Reduced, mod_add-Reduced}

-- The greatest number of the field, and 5.
abbrev greatest : Limbs
greatest = record {
  w0 = 0xFFFFFFFEFFFFFC2E;
  w1 = 0xFFFFFFFFFFFFFFFF;
  w2 = 0xFFFFFFFFFFFFFFFF;
  w3 = 0xFFFFFFFFFFFFFFFF;
}

abbrev five : Limbs
five = record { w0 = 5; w1 = 0; w2 = 0; w3 = 0 }

greatest-IsLimbs : IsLimbs greatest
greatest-IsLimbs = record {
  lt0 = omega arith;
  lt1 = omega arith;
  lt2 = omega arith;
  lt3 = omega arith;
}

five-IsLimbs : IsLimbs five
five-IsLimbs = record { lt0 = omega arith; lt1 = omega arith; lt2 = omega arith; lt3 = omega arith }

p-IsLimbs : IsLimbs secp256k1_p
p-IsLimbs = record { lt0 = omega arith; lt1 = omega arith; lt2 = omega arith; lt3 = omega arith }

mod_add-Reduced_example :
    Reduced (value greatest + value five) secp256k1_p (secp256k1_add greatest five)
mod_add-Reduced_example =
    mod_add-Reduced greatest five secp256k1_p greatest-IsLimbs five-IsLimbs p-IsLimbs (omega arith)
      (omega arith)

-- The overflow of the lowest limb is carried into the limb after the next.
carry_skips_a_limb :
    fold_limb secp256k1_r256 ((word - 1) ∷ 0 ∷ 0 ∷ 0 ∷ 1 ∷ 0 ∷ 0 ∷ 0 ∷ []) 4
    ≡ 0x1000003D0 ∷ 0 ∷ 1 ∷ 0 ∷ 0 ∷ 0 ∷ 0 ∷ 0 ∷ []
unfolding fold_limb propagate addc2
carry_skips_a_limb = refl
