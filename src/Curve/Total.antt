-- ===== src/Curve/Total.antt =====
-- The operations on the points of secp256k1 have a result for all numbers (runtime/xiom_runtime.c, 8404 to 8487).
use stdlib.Base.{
  ℕ, zero, suc, ◌+◌, ◌/◌, ◌%◌, inl, inr, true, Bool, Option, arith, ◌==◌, ◌&&◌, get_or,
  Option-cases, if_either,
}
use stdlib.Base.Words.{◌>>>◌}
use stdlib.Base.Chain.{◌>>=◌, Yields, chained}
use stdlib.Field.{Limbs, mul_raw, limb_list, secp256k1_p, secp256k1_add, eq, is_zero}
use stdlib.Field.Carry.{IsLimbs}
use stdlib.Field.Reduce.{secp256k1_mul}
use stdlib.Field.Inverse.{secp256k1_inv}
use stdlib.Field.Stops.{inv-InRange}
use stdlib.Field.Total.{Below, mul_raw-Words, reduce-Below, mod_sub-IsLimbs}
use stdlib.Curve.{
  Point, infinity, is_infinity, finish, double, add_generic, point_add, mul_loop, point_mul,
}

-- Coordinates made of words.
abbrev pub IsPoint : Point → Type 0
IsPoint p = IsLimbs p.x × IsLimbs p.y

mul_then :
    {B : Type 0} (Q : B → Type 0) (a b : Limbs) (f : Limbs → Option B)
    → ((r : Limbs) → IsLimbs r → Yields Q (f r))
    → Yields Q (secp256k1_mul a b >>= f)
mul_then Q a b f next =
    chained (Below secp256k1_p) Q (secp256k1_mul a b) f
      (reduce-Below (mul_raw a b) secp256k1_p 0x1000003D1 (mul_raw-Words a b)
        (record { lt0 = omega arith; lt1 = omega arith; lt2 = omega arith; lt3 = omega arith })
        (omega arith))
      (λ r h. next r h.0)

inv_then :
    {B : Type 0} (Q : B → Type 0) (a : Limbs) (f : Limbs → Option B)
    → IsLimbs a
    → ((r : Limbs) → Yields Q (f r))
    → Yields Q (secp256k1_inv a >>= f)
inv_then Q a f h next =
    let range = (inv-InRange a h).0 in
    elim (Option-cases (secp256k1_inv a)) [
      | inl gone ↦ absurd (rw gone at range)
      | inr (r, got) ↦ rw got (next r)
    ]

finish-IsPoint :
    (aliased : Bool) (a : Point) (lam rx : Limbs)
    → IsLimbs rx
    → Yields IsPoint (finish aliased a lam rx)
unfolding finish
finish-IsPoint aliased a lam rx h =
    mul_then IsPoint lam _ _ (λ t _. (h, mod_sub-IsLimbs t a.y secp256k1_p))

double-IsPoint : (aliased : Bool) (a : Point) → Yields IsPoint (double aliased a)
unfolding double
double-IsPoint aliased a = mul_then IsPoint _ _ _ (λ t _. mul_then IsPoint _ _ _ (λ num _.
    mul_then IsPoint _ _ _ (λ den hd. inv_then IsPoint den _ hd (λ inverse.
      mul_then IsPoint _ _ _ (λ lam _. mul_then IsPoint _ _ _ (λ square _.
        mul_then IsPoint _ _ _ (λ twice _.
          finish-IsPoint aliased a lam _ (mod_sub-IsLimbs square twice secp256k1_p))))))))

add_generic-IsPoint : (aliased : Bool) (a b : Point) → Yields IsPoint (add_generic aliased a b)
unfolding add_generic
add_generic-IsPoint aliased a b =
    inv_then IsPoint _ _ (mod_sub-IsLimbs b.x a.x secp256k1_p) (λ inverse.
      mul_then IsPoint _ _ _ (λ lam _.
        mul_then IsPoint _ _ _
          (λ square _. finish-IsPoint aliased a lam _ (mod_sub-IsLimbs _ b.x secp256k1_p))))

zero-IsPoint : IsPoint infinity
zero-IsPoint = (
  record { lt0 = omega arith; lt1 = omega arith; lt2 = omega arith; lt3 = omega arith },
  record { lt0 = omega arith; lt1 = omega arith; lt2 = omega arith; lt3 = omega arith },
)

pub point_add-IsPoint :
    (aliased : Bool) (a b : Point) → IsPoint a → IsPoint b → Yields IsPoint (point_add aliased a b)
unfolding point_add
point_add-IsPoint aliased a b ha hb =
    let P = Yields IsPoint in
    if_either P (is_infinity a) hb (
      if_either P (is_infinity b) ha (
        if_either P (eq a.x b.x && is_zero (secp256k1_add a.y b.y)) zero-IsPoint (
          if_either P (eq a.x b.x && eq a.y b.y)
            (if_either P (is_zero a.y) zero-IsPoint (double-IsPoint aliased a))
            (add_generic-IsPoint aliased a b))))

mul_loop-IsPoint :
    (turns i : ℕ) (k : Limbs) (res add : Point)
    → IsPoint res
    → IsPoint add
    → Yields IsPoint (mul_loop turns i k res add)
unfolding mul_loop
mul_loop-IsPoint zero i k res add hr ha = hr
mul_loop-IsPoint (suc turns) i k res add hr ha =
    chained IsPoint IsPoint _ _
      (if_either (Yields IsPoint) ((get_or (limb_list k) (i / 64) 0 >>> (i % 64)) % 2 == 0) hr
        (point_add-IsPoint true res add hr ha))
      (λ res' hr'.
        chained IsPoint IsPoint _ _ (point_add-IsPoint true add add ha ha)
          (λ add' ha'. mul_loop-IsPoint turns (i + 1) k res' add' hr' ha'))

-- Every multiplication of a point of four-limb coordinates ends, with such a point.
pub point_mul-IsPoint : (k : Limbs) (p : Point) → IsPoint p → Yields IsPoint (point_mul k p)
unfolding point_mul
point_mul-IsPoint k p h = mul_loop-IsPoint 256 0 k infinity p zero-IsPoint h
