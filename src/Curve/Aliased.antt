-- ===== src/Curve/Aliased.antt =====
-- What an addition written over its first point gives (runtime/xiom_runtime.c, 8416 to 8482).
use stdlib.Base.{
  ℕ, ◌*◌, ◌≡◌, refl, inl, inr, true, List, [], ◌∷◌, some, arith, ◌==◌, Bool-cases, if◌then◌else◌,
}
use stdlib.Field.{Limbs, addc2, sub_raw, cmp, mod_sub, mul_row, mul_rows, mul_raw, secp256k1_sub}
use stdlib.Field.Carry.{value, IsLimbs, sub_raw_lem, value-lt}
use stdlib.Field.Reduce.{secp256k1_mul, reduce, propagate, fold_limb, subtract_down}
use stdlib.Field.Negate.{from_u64}
use stdlib.Curve.{Point, finish}

-- A number of limbs that is 0 has all limbs 0.
zero_limbs : (a : Limbs) → value a ≡ 0 → a ≡ from_u64 0
zero_limbs a h =
    let e0 : a.w0 ≡ 0 = omega arith in
    let e1 : a.w1 ≡ 0 = omega arith in
    let e2 : a.w2 ≡ 0 = omega arith in
    let e3 : a.w3 ≡ 0 = omega arith in λ i. record { w0 = e0 i; w1 = e1 i; w2 = e2 i; w3 = e3 i }

-- A number less itself.
sub_self : (a : Limbs) → IsLimbs a → secp256k1_sub a a ≡ from_u64 0
unfolding mod_sub
sub_self a h =
    let diff = sub_raw_lem a a h h in
    let top = value-lt (sub_raw a a).0 diff.1 in
    let kept : ((sub_raw a a).1 == 0) ≡ true = ground (arith, diff.0, diff.2, top) in
    rw kept (zero_limbs (sub_raw a a).0 (ground (arith, diff.0, kept)))

abbrev nothing : List ℕ
nothing = 0 ∷ 0 ∷ 0 ∷ 0 ∷ 0 ∷ 0 ∷ 0 ∷ 0 ∷ []

abbrev zeros : List ℕ
zeros = 0 ∷ 0 ∷ 0 ∷ 0 ∷ []

row_zero :
    (a : ℕ)
    → (mul_row nothing a zeros 0 0 ≡ nothing)
      × (mul_row nothing a zeros 1 0 ≡ nothing)
      × (mul_row nothing a zeros 2 0 ≡ nothing)
      × (mul_row nothing a zeros 3 0 ≡ nothing)
unfolding mul_row addc2
row_zero a = let e : a * 0 ≡ 0 = omega arith in (rw e refl, rw e refl, rw e refl, rw e refl)

same : (a : ℕ) (x : List ℕ) → x ≡ nothing → (if a == 0 then nothing else x) ≡ nothing
same a x h = elim (Bool-cases (a == 0)) [ inl e ↦ rw e refl | inr e ↦ rw (e, h) refl ]

mul_raw_zero : (a : Limbs) → mul_raw a (from_u64 0) ≡ nothing
unfolding mul_raw mul_rows
mul_raw_zero a =
    rw
      (
        same a.w0 _ (row_zero a.w0).0,
        same a.w1 _ (row_zero a.w1).1,
        same a.w2 _ (row_zero a.w2).2,
        same a.w3 _ (row_zero a.w3).3,
      )
      refl

mul_zero : (a : Limbs) → secp256k1_mul a (from_u64 0) ≡ some (from_u64 0)
mul_zero a = rw (mul_raw_zero a) (unfold reduce fold_limb propagate subtract_down cmp in refl)

-- Where the sum is written over the first point, its second coordinate is the negative of that point's, whatever the
-- slope: the difference of the first coordinates is taken after the write, and is 0.
pub finish_aliased :
    (a : Point) (lam rx : Limbs)
    → IsLimbs rx
    → finish true a lam rx ≡ some (record { x = rx; y = secp256k1_sub (from_u64 0) a.y })
unfolding finish
finish_aliased a lam rx h = rw (sub_self rx h, mul_zero lam) refl
