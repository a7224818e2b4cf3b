-- ===== src/Field/Strips.antt =====
-- What the loop that takes factors of 2 out leaves (runtime/xiom_runtime.c, 8311 to 8374 and 8688 to 8725).
use stdlib.Base.{
  ℕ, zero, suc, ◌%◌, ◌^◌, ◌≤◌, ◌<◌, ◌≡◌, inl, inr, arith, Option, if_either, ◌==◌, Bool-cases,
  if◌then◌else◌,
}
use native.Mathlib.Nat.{pow-suc}
use stdlib.Base.Chain.{Yields, weakened}
use stdlib.Field.{Limbs}
use stdlib.Field.Carry.{value, IsLimbs}
use stdlib.Field.Halving.{shift_right_lem}
use stdlib.Field.Inverse.{shift_right, strip}

-- What a strip leaves: numbers of limbs, the first of them odd and not larger.
pub record Stripped (u : Limbs) (r : Limbs × Limbs) : Type 0 where
  pub number : IsLimbs r.0
  pub coefficient : IsLimbs r.1
  pub odd : r.0.w0 % 2 ≡ 1
  pub smaller : value r.0 ≤ value u

-- A strip that ended.
abbrev pub Ends : Limbs → Option (Limbs × Limbs) → Type 0
Ends u = Yields (Stripped u)

module _ (half : Limbs → Limbs) (keeps : (x : Limbs) → IsLimbs x → IsLimbs (half x)) where
  -- The fuel is enough: with fewer turns than bits the loop ends at an odd number.
  pub strip-Ends :
      (fuel : ℕ) (u x : Limbs)
      → IsLimbs u
      → IsLimbs x
      → 0 < value u
      → value u < 2 ^ fuel
      → Ends u (strip half fuel u x)
  unfolding strip
  strip-Ends zero u x hu hx positive small = absurd (omega arith)
  strip-Ends (suc fuel) u x hu hx positive small = elim (Bool-cases (u.w0 % 2 == 0)) [
    | inr is_odd ↦
        rw is_odd
          (record { number = hu; coefficient = hx; odd = ground arith; smaller = omega arith })
    | inl even ↦
        let shifted = shift_right_lem u hu in
        let next = if x.w0 % 2 == 0 then shift_right x else half x in
        rw even (
          weakened (Stripped (shift_right u)) (Stripped u) (strip half fuel (shift_right u) next)
            (λ r h. record {
              number = h.number;
              coefficient = h.coefficient;
              odd = h.odd;
              smaller = omega (arith, h.smaller, shifted.0);
            })
            (strip-Ends fuel (shift_right u) next shifted.1
              (if_either IsLimbs (x.w0 % 2 == 0) (shift_right_lem x hx).1 (keeps x hx))
              (ground (arith, shifted.0)) (omega (arith, shifted.0, pow-suc 2 fuel))))
  ]
