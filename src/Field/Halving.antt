-- ===== src/Field/Halving.antt =====
-- What the inverses do with a factor of 2 (runtime/xiom_runtime.c, 8314 to 8374 and 8689 to 8731).
use stdlib.Base.{◌+◌, ◌*◌, ◌/◌, ◌%◌, ◌≤◌, ◌≡◌, arith}
use stdlib.Field.{Limbs, sub_raw, addc2}
use stdlib.Field.Carry.{value, IsLimbs, sub_raw_lem, value-lt, addc2_lem}
use stdlib.Field.Inverse.{shift_right, odd_half, odd_half_sum, shifted_sum}

-- The shift of the limbs halves the number.
pub shift_right_lem :
    (a : Limbs) → IsLimbs a → (value (shift_right a) ≡ value a / 2) × IsLimbs (shift_right a)
unfolding shift_right
shift_right_lem a h = (
  omega (arith, h.lt0, h.lt1, h.lt2, h.lt3),
  record {
    lt0 = omega (arith, h.lt0);
    lt1 = omega (arith, h.lt1);
    lt2 = omega (arith, h.lt2);
    lt3 = omega (arith, h.lt3);
  },
)

-- The half of an odd number below an odd modulus: doubled and added to the number it gives the modulus, so it is the
-- negative of the half.
pub odd_half_lem :
    (p x : Limbs)
    → IsLimbs p
    → IsLimbs x
    → value x ≤ value p
    → p.w0 % 2 ≡ 1
    → x.w0 % 2 ≡ 1
    → value (odd_half p x) * 2 + value x ≡ value p
unfolding odd_half
odd_half_lem p x hp hx le op ox =
    let diff = sub_raw_lem p x hp hx in
    let top = value-lt (sub_raw p x).0 diff.1 in
    let half = shift_right_lem (sub_raw p x).0 diff.1 in omega (arith, half.0, diff.0, diff.2, top)

pub odd_half-IsLimbs : (p x : Limbs) → IsLimbs p → IsLimbs x → IsLimbs (odd_half p x)
unfolding odd_half
odd_half-IsLimbs p x hp hx = (shift_right_lem (sub_raw p x).0 (sub_raw_lem p x hp hx).1).1

shifted_sum-IsLimbs : (p x : Limbs) → IsLimbs p → IsLimbs x → IsLimbs (shifted_sum p x)
unfolding shifted_sum
shifted_sum-IsLimbs p x hp hx =
    let l0 = addc2_lem x.w0 p.w0 0 hx.lt0 hp.lt0 (omega arith) in
    let l1 = addc2_lem x.w1 p.w1 (addc2 x.w0 p.w0 0).1 hx.lt1 hp.lt1 l0.2 in
    let l2 = addc2_lem x.w2 p.w2 (addc2 x.w1 p.w1 (addc2 x.w0 p.w0 0).1).1 hx.lt2 hp.lt2 l1.2 in
    let l3 =
      addc2_lem x.w3 p.w3 (addc2 x.w2 p.w2 (addc2 x.w1 p.w1 (addc2 x.w0 p.w0 0).1).1).1 hx.lt3
        hp.lt3 l2.2 in
    record {
      lt0 = ground (arith, l0.1);
      lt1 = ground (arith, l1.1);
      lt2 = ground (arith, l2.1);
      lt3 = ground (arith, l3.1);
    }

pub odd_half_sum-IsLimbs : (p x : Limbs) → IsLimbs p → IsLimbs x → IsLimbs (odd_half_sum p x)
unfolding odd_half_sum
odd_half_sum-IsLimbs p x hp hx =
    let sum = shifted_sum-IsLimbs p x hp hx in
    let less = (sub_raw_lem (shifted_sum p x) p sum hp).1 in
    (shift_right_lem (sub_raw p (sub_raw (shifted_sum p x) p).0).0
      (sub_raw_lem p (sub_raw (shifted_sum p x) p).0 hp less).1).1
