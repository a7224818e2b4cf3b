-- ===== src/Edwards/Total.antt =====
-- The operations on points have a result for all numbers (runtime/xiom_runtime.c, 8761 to 8874): the coordinate `z`,
-- which is inverted, is made of words.
use stdlib.Base.{
  ℕ, zero, suc, ◌+◌, ◌/◌, ◌%◌, inl, inr, Bool, Option, some, List, arith, ◌==◌, if◌then◌else◌,
  get_or, Option-cases, if_either,
}
use stdlib.Base.Words.{◌>>>◌}
use stdlib.Base.Chain.{◌>>=◌, Yields, chained, weakened, Present}
use stdlib.Field.{Limbs, mul_raw, limb_list, eq}
use stdlib.Field.Carry.{IsLimbs}
use stdlib.Field.Negate.{from_u64, ed25519_p}
use stdlib.Field.Inverse.{ed25519_inv}
use stdlib.Field.Stops.{InRange, inv-InRange}
use stdlib.Field.Total.{Below, mul_raw-Words, reduce-Below, mod_add-IsLimbs}
use stdlib.Edwards.{
  Extended, extended, ed25519_mul, completed, pt_add, pt_double, identity, scalar_loop, scalar_mul,
  to_affine, recover_x, power_loop, sqrt_m1, root_exponent,
}

abbrev pub Number : Limbs → Type 0
Number r = Below ed25519_p r

pub mul-Number : (a b : Limbs) → Yields Number (ed25519_mul a b)
mul-Number a b =
    reduce-Below (mul_raw a b) ed25519_p 38 (mul_raw-Words a b)
      (record { lt0 = omega arith; lt1 = omega arith; lt2 = omega arith; lt3 = omega arith })
      (omega arith)

-- A product, and what is done with it.
pub mul_then :
    {B : Type 0} (Q : B → Type 0) (a b : Limbs) (f : Limbs → Option B)
    → ((r : Limbs) → Number r → Yields Q (f r))
    → Yields Q (ed25519_mul a b >>= f)
mul_then Q a b f next = chained Number Q (ed25519_mul a b) f (mul-Number a b) next

mul-Present : (a b : Limbs) → Yields Present (ed25519_mul a b)
mul-Present a b = weakened Number Present (ed25519_mul a b) (λ r _. tt) (mul-Number a b)

inv-Number : (a : Limbs) → IsLimbs a → Yields Number (ed25519_inv a)
inv-Number a h =
    let range = (inv-InRange a h).1 in
    elim (Option-cases (ed25519_inv a)) [
      | inl gone ↦ absurd (rw gone at range)
      | inr (r, got) ↦ let kept : InRange ed25519_p (some r) = rw got at range in rw got kept
    ]

abbrev pub Usable : Extended → Type 0
Usable p = IsLimbs p.z

pub extended-Usable : (x y : Limbs) → Yields Usable (extended x y)
unfolding extended
extended-Usable x y =
    mul_then Usable x y _
      (λ t _. record { lt0 = omega arith; lt1 = omega arith; lt2 = omega arith; lt3 = omega arith })

completed-Usable : (e f g h : Limbs) → Yields Usable (completed e f g h)
unfolding completed
completed-Usable e f g h = mul_then Usable e f _ (λ x _.
    mul_then Usable g h _
      (λ y _. mul_then Usable e h _ (λ t _. mul_then Usable f g _ (λ z hz. hz.0))))

pub pt_add-Usable : (p q : Extended) → Yields Usable (pt_add p q)
unfolding pt_add
pt_add-Usable p q = mul_then Usable _ _ _ (λ twod _. mul_then Usable _ _ _ (λ a _.
    mul_then Usable _ _ _ (λ b _. mul_then Usable _ _ _ (λ pt _. mul_then Usable _ _ _ (λ c _.
      mul_then Usable _ _ _ (λ pz _. mul_then Usable _ _ _ (λ d _. completed-Usable _ _ _ _)))))))

pub pt_double-Usable : (p : Extended) → Yields Usable (pt_double p)
unfolding pt_double
pt_double-Usable p = mul_then Usable _ _ _ (λ a _. mul_then Usable _ _ _ (λ b _.
    mul_then Usable _ _ _ (λ zz _.
      mul_then Usable _ _ _ (λ c _. mul_then Usable _ _ _ (λ square _. completed-Usable _ _ _ _)))))

-- Either branch of a step that may leave its argument as it is.
kept_or :
    {A : Type 0} (P : A → Type 0) (b : Bool) (a : A) (o : Option A)
    → P a
    → Yields P o
    → Yields P (if b then some a else o)
kept_or P b a o ha ho = if_either (Yields P) b ha ho

scalar_loop-Usable :
    (turns i : ℕ) (s : List ℕ) (res tmp : Extended)
    → Usable res
    → Yields Usable (scalar_loop turns i s res tmp)
unfolding scalar_loop
scalar_loop-Usable zero i s res tmp h = h
scalar_loop-Usable (suc turns) i s res tmp h =
    chained Usable Usable _ _
      (kept_or Usable ((get_or s (i / 8) 0 >>> (i % 8)) % 2 == 0) res _ h (pt_add-Usable res tmp))
      (λ res' h'.
        chained Usable Usable (pt_double tmp) _ (pt_double-Usable tmp)
          (λ tmp' _. scalar_loop-Usable turns (i + 1) s res' tmp' h'))

pub scalar_mul-Usable : (s : List ℕ) (p : Extended) → Yields Usable (scalar_mul s p)
unfolding scalar_mul
scalar_mul-Usable s p =
    scalar_loop-Usable 256 0 s identity p
      (record { lt0 = omega arith; lt1 = omega arith; lt2 = omega arith; lt3 = omega arith })

-- Two coordinates below the prime.
abbrev pub Coordinates : Limbs × Limbs → Type 0
Coordinates c = Number c.0 × Number c.1

pub to_affine-Coordinates : (p : Extended) → Usable p → Yields Coordinates (to_affine p)
unfolding to_affine
to_affine-Coordinates p h =
    chained Number Coordinates (ed25519_inv p.z) _ (inv-Number p.z h)
      (λ zi _. mul_then Coordinates _ _ _ (λ ax hx. mul_then Coordinates _ _ _ (λ ay hy. (hx, hy))))

power_loop-Present : (turns bit : ℕ) (e u v : Limbs) → Yields Present (power_loop turns bit e u v)
unfolding power_loop
power_loop-Present zero bit e u v = tt
power_loop-Present (suc turns) bit e u v =
    let product : Yields Present (ed25519_mul u v) = mul-Present u v in
    chained Present Present _ _
      (kept_or Present ((get_or (limb_list e) (bit / 64) 0 >>> (bit % 64)) % 2 == 0) u _ tt product)
      (λ u' _. mul_then Present _ _ _ (λ v' _. power_loop-Present turns (bit + 1) e u' v'))

pub recover_x-Present : (y : Limbs) (sign : ℕ) → Yields Present (recover_x y sign)
unfolding recover_x
recover_x-Present y sign = mul_then Present _ _ _ (λ y2 _. mul_then Present _ _ _ (λ dy2 _.
    chained Number Present _ _ (inv-Number _ (mod_add-IsLimbs dy2 (from_u64 1) ed25519_p)) (λ den _.
      mul_then Present _ _ _ (λ x2 _.
        chained Present Present _ _ (power_loop-Present 256 0 root_exponent (from_u64 1) x2) (λ u _.
          mul_then Present _ _ _ (λ first _.
            chained Present Present _ _
              (kept_or Present (eq first x2) u _ tt (mul-Present u sqrt_m1))
              (λ u' _. mul_then Present _ _ _ (λ second _. tt))))))))
