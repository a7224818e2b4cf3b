-- ===== src/Field/Modular.antt =====
-- Addition and subtraction modulo a prime of the curves (runtime/xiom_runtime.c, 8137 to 8153).
use stdlib.Base.{
  ℕ, zero, suc, ◌+◌, ◌≤◌, ◌<◌, ◌≡◌, ◌⊎◌, inl, inr, true, false, arith, ◌==◌, Bool-cases,
}
use stdlib.Base.Int.{ℤ, pos, negsuc}
use stdlib.Field.{Limbs, cmp, add_raw, sub_raw, at_least_zero, mod_add, mod_sub}
use stdlib.Field.Carry.{value, IsLimbs, add_raw_lem, sub_raw_lem, value-lt, Compared, cmp_lem}

pub below : (x y : ℕ) (z : ℤ) → Compared x y z → at_least_zero z ≡ false → x < y
below x y (pos n) h e = cc
below x y (negsuc n) h e = h

pub at_least : (x y : ℕ) (z : ℤ) → Compared x y z → at_least_zero z ≡ true → y ≤ x
at_least x y (pos zero) h e = omega (arith, h)
at_least x y (pos (suc n)) h e = omega (arith, h)
at_least x y (negsuc n) h e = cc

-- `r` is the representative of `n`, below 2 * `p`, in the range of the modulus.
pub record Reduced (n : ℕ) (p r : Limbs) : Type 0 where
  pub limbs : IsLimbs r
  pub lt : value r < value p
  pub congruent : (value r ≡ n) ⊎ (value r + value p ≡ n)

-- Of two numbers below the modulus, the sum is the one in range that is congruent to their sum, also
-- where the 256-bit addition carries.
pub mod_add-Reduced :
    (a b p : Limbs)
    → IsLimbs a
    → IsLimbs b
    → IsLimbs p
    → value a < value p
    → value b < value p
    → Reduced (value a + value b) p (mod_add a b p)
unfolding mod_add
mod_add-Reduced a b p ha hb hp la lb =
    let sum = add_raw_lem a b ha hb in
    let less = sub_raw_lem (add_raw a b).0 p sum.1 hp in
    let order = cmp_lem (add_raw a b).0 p sum.1 hp in
    let top = value-lt (add_raw a b).0 sum.1 in
    let top' = value-lt (sub_raw (add_raw a b).0 p).0 less.1 in
    let bound = value-lt p hp in
    elim (Bool-cases ((add_raw a b).1 == 0)) [
      | inr carried ↦
          rw carried (record { limbs = less.1; lt = ground arith; congruent = inr (ground arith) })
      | inl none_carried ↦ elim (Bool-cases (at_least_zero (cmp (add_raw a b).0 p))) [
        | inl big ↦
            let over = at_least _ _ _ order big in
            rw (none_carried, big)
              (record { limbs = less.1; lt = ground arith; congruent = inr (ground arith) })
        | inr small ↦
            let under = below _ _ _ order small in
            rw (none_carried, small)
              (record { limbs = sum.1; lt = under; congruent = inl (ground arith) })
      ]
    ]

-- Of two numbers below the modulus, the difference is in range, and adding the subtrahend gives the
-- minuend, or the minuend and the modulus.
pub mod_sub-Reduced :
    (a b p : Limbs)
    → IsLimbs a
    → IsLimbs b
    → IsLimbs p
    → value a < value p
    → value b < value p
    → IsLimbs (mod_sub a b p)
      × (value (mod_sub a b p) < value p)
      × ((value (mod_sub a b p) + value b ≡ value a)
          ⊎ (value (mod_sub a b p) + value b ≡ value a + value p))
unfolding mod_sub
mod_sub-Reduced a b p ha hb hp la lb =
    let diff = sub_raw_lem a b ha hb in
    let back = add_raw_lem (sub_raw a b).0 p diff.1 hp in
    let top = value-lt (sub_raw a b).0 diff.1 in
    let top' = value-lt (add_raw (sub_raw a b).0 p).0 back.1 in
    let bound = value-lt p hp in
    elim (Bool-cases ((sub_raw a b).1 == 0)) [
      | inl kept ↦ rw kept (diff.1, ground arith, inl (ground arith))
      | inr borrowed ↦ rw borrowed (back.1, ground arith, inr (ground arith))
    ]
