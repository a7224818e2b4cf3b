-- ===== src/Quad/Order.antt =====
-- The order that the comparisons decide (runtime/fp128_helpers.c, 456 to 490).
use stdlib.Base.{
  ℕ, zero, suc, ◌+◌, ◌*◌, ◌%◌, ◌^◌, ◌≡◌, refl, sym, ◌∙◌, subst, ◌⊎◌, inl, inr, true, false, arith,
  dec_eq, ◌<◌, ltb, ◌==◌, ◌||◌, if◌then◌else◌,
}
use stdlib.Base.Int.{ℤ, pos, negsuc, pos_part, neg_part}
use stdlib.Quad.{F128, sign_of, isnan}
use stdlib.Quad.Division.{IsPattern}
use stdlib.Quad.Compare.{
  cmp_unord, cmp_eq, cmp_core, cmp_get, cmp_gt, cmp_le, cmp_lt, cmp_magnitudes,
}

-- The place of a number in the code's order: its magnitude, below zero where the sign is set. The negative
-- zero stands just below the positive one.
abbrev pub magnitude : F128 → ℕ
magnitude f = f.hi % 2 ^ 63 * 2 ^ 64 + f.lo

abbrev place : F128 → ℤ
place f = if sign_of f == 0 then pos (magnitude f) else negsuc (magnitude f)

-- The place of a number in the order of IEEE 754, where both zeros stand at 0.
abbrev pub negated : ℕ → ℤ
negated zero = pos 0
negated (suc n) = negsuc n

abbrev pub rank : F128 → ℤ
rank f = if sign_of f == 0 then pos (magnitude f) else negated (magnitude f)

abbrev pub three_way : ℤ → ℤ → ℤ
three_way x y =
    let left = pos_part x + neg_part y in
    let right = pos_part y + neg_part x in
    if ltb left right then negsuc 0 else if ltb right left then pos 1 else pos 0

magnitudes_lem :
    (a b : F128)
    → IsPattern a
    → IsPattern b
    → cmp_magnitudes false a b ≡ three_way (pos (magnitude a)) (pos (magnitude b))
magnitudes_lem a b ha hb = ground arith

magnitudes_negative :
    (a b : F128)
    → IsPattern a
    → IsPattern b
    → cmp_magnitudes true a b ≡ three_way (negsuc (magnitude a)) (negsuc (magnitude b))
magnitudes_negative a b ha hb = ground arith

cmp_core_lem :
    (a b : F128)
    → IsPattern a
    → IsPattern b
    → isnan a ≡ false
    → isnan b ≡ false
    → cmp_core a b ≡ three_way (place a) (place b)
unfolding cmp_core cmp_eq
cmp_core_lem a b ha hb na nb =
    rw (na, nb) (ground (arith, magnitudes_lem a b, magnitudes_negative a b))

-- The negative zero against the positive one, in either order.
abbrev pub AreZeros : F128 → F128 → ℤ → Type 0
AreZeros a b answer =
    (magnitude a ≡ 0)
    × (magnitude b ≡ 0)
    × (((sign_of a ≡ 1) × (sign_of b ≡ 0) × (answer ≡ negsuc 0))
        ⊎ ((sign_of a ≡ 0) × (sign_of b ≡ 1) × (answer ≡ pos 1)))

parts : (n : ℕ) → (pos_part (negated n) ≡ 0) × (neg_part (negated n) ≡ n)
parts zero = (refl, refl)
parts (suc n) = (refl, refl)

both_negative : (m n : ℕ) → three_way (negsuc m) (negsuc n) ≡ three_way (negated m) (negated n)
both_negative m n = rw ((parts m).0, (parts m).1, (parts n).0, (parts n).1) (ground arith)

above : (m n : ℕ) → three_way (pos m) (negsuc n) ≡ pos 1
above m n = ground arith

below : (m n : ℕ) → three_way (negsuc m) (pos n) ≡ negsuc 0
below m n = ground arith

above_negated : (m n : ℕ) → 0 < m + n → three_way (pos m) (negated n) ≡ pos 1
above_negated m n h = rw ((parts n).0, (parts n).1) (ground (arith, h))

below_negated : (m n : ℕ) → 0 < m + n → three_way (negated m) (pos n) ≡ negsuc 0
below_negated m n h = rw ((parts m).0, (parts m).1) (ground (arith, h))

sign_of_cases : (f : F128) → IsPattern f → (sign_of f ≡ 0) ⊎ (sign_of f ≡ 1)
sign_of_cases f h = ground (arith, h.high)

-- Two numbers that are not a negative and a positive zero, and the answer for them.
abbrev pub AreApart : F128 → F128 → ℤ → Type 0
AreApart a b answer =
    ((sign_of a ≡ sign_of b) ⊎ (0 < magnitude a + magnitude b))
    × (answer ≡ three_way (rank a) (rank b))

abbrev Ranked : F128 → F128 → ℤ → Type 0
Ranked a b answer = AreApart a b answer ⊎ AreZeros a b answer

place-Ranked :
    (a b : F128)
    → (sign_of a ≡ 0) ⊎ (sign_of a ≡ 1)
    → (sign_of b ≡ 0) ⊎ (sign_of b ≡ 1)
    → Ranked a b (three_way (place a) (place b))
place-Ranked a b (inl p) (inl q) = inl (inl (p ∙ sym q), rw (p, q) refl)
place-Ranked a b (inr p) (inr q) =
    inl (inl (p ∙ sym q), rw (p, q) (both_negative (magnitude a) (magnitude b)))
place-Ranked a b (inl p) (inr q) =
    let answer : three_way (place a) (place b) ≡ pos 1 =
      rw (p, q) (above (magnitude a) (magnitude b)) in
    elim (dec_eq (magnitude a + magnitude b) 0) [
      | yes e ↦ inr (omega (arith, e), omega (arith, e), inr (p, q, answer))
      | no ne ↦ inl (
        inr (omega (arith, ne)),
        answer ∙ rw (p, q) (sym (above_negated (magnitude a) (magnitude b) (omega (arith, ne)))),
      )
    ]
place-Ranked a b (inr p) (inl q) =
    let answer : three_way (place a) (place b) ≡ negsuc 0 =
      rw (p, q) (below (magnitude a) (magnitude b)) in
    elim (dec_eq (magnitude a + magnitude b) 0) [
      | yes e ↦ inr (omega (arith, e), omega (arith, e), inl (p, q, answer))
      | no ne ↦ inl (
        inr (omega (arith, ne)),
        answer ∙ rw (p, q) (sym (below_negated (magnitude a) (magnitude b) (omega (arith, ne)))),
      )
    ]

-- On numbers the comparison answers as IEEE 754 has it, by the sign and then the magnitude, with one exception: the
-- negative zero is answered to be less than the positive one, and the positive one to be greater than it, where IEEE 754 has them equal.
pub cmp_core-rank :
    (a b : F128)
    → IsPattern a
    → IsPattern b
    → isnan a ≡ false
    → isnan b ≡ false
    → AreApart a b (cmp_core a b) ⊎ AreZeros a b (cmp_core a b)
cmp_core-rank a b ha hb na nb =
    subst (Ranked a b) (sym (cmp_core_lem a b ha hb na nb))
      (place-Ranked a b (sign_of_cases a ha) (sign_of_cases b hb))

-- Where an operand is a NaN, the equality and the unordered test answer 1 and the test for less 0, as they
-- should; the test for greater answers 1 and the test for greater or equal 0, which stand for yes.
pub cmp_nan :
    (a b : F128)
    → (isnan a || isnan b) ≡ true
    → (cmp_unord a b ≡ pos 1)
      × (cmp_eq a b ≡ pos 1)
      × (cmp_lt a b ≡ pos 0)
      × (cmp_le a b ≡ pos 1)
      × (cmp_gt a b ≡ pos 1)
      × (cmp_get a b ≡ pos 0)
unfolding cmp_unord cmp_eq cmp_lt cmp_le cmp_gt cmp_get
cmp_nan a b h =
    let core : cmp_core a b ≡ pos 1 = (unfold cmp_core in rw h refl) in
    (
      rw h refl,
      rw h refl,
      rw (core, cmp_lt) refl,
      rw (core, cmp_le) refl,
      rw (core, cmp_gt) refl,
      rw (core, cmp_get) refl,
    )
