-- ===== src/Wide/Signed.antt =====
-- The signed quotient (runtime/xiom_runtime.c, 9192 to 9205).
use stdlib.Base.{
  ℕ, zero, suc, ◌/◌, ◌<◌, ◌≡◌, refl, ap, ◌∙◌, inl, inr, Bool, true, false, ◌&&◌, ◌||◌, not, none,
  some, arith, ltb, ◌==◌, if◌then◌else◌, Bool-cases,
}
use stdlib.Base.Int.{ℤ, pos, negsuc}
use stdlib.Wide.{full, half, is_negative, magnitude, as_signed, negate, divti3}
use stdlib.Wide.Quotient.{udivti3_lem}

-- The number with a sign and a magnitude.
abbrev pub signed : Bool → ℕ → ℤ
signed false n = pos n
signed true zero = pos zero
signed true (suc n) = negsuc n

abbrev pub differ : ℤ → ℤ → Bool
differ a b = not (is_negative a) && is_negative b || is_negative a && not (is_negative b)

negated : (n : ℕ) → negate (pos n) ≡ some (signed true n)
negated zero = refl
negated (suc n) = refl

-- The behaviour behind the special case, for a quotient that fits.
fits_lem :
    (q : ℕ) (d : Bool)
    → q < half
    → (if d then negate (as_signed q) else some (as_signed q)) ≡ some (signed d q)
fits_lem q true h = let low : ltb q half ≡ true = ground arith in rw low (negated q)
fits_lem q false h = let low : ltb q half ≡ true = ground arith in rw low refl

-- The special case is that of a quotient of 2^127.
abbrev special : ℤ → ℤ → Bool
special a b = is_negative b && (magnitude b == 1) && is_negative a && (magnitude a == half)

special_lem : (m n : ℕ) → n ≡ 1 → m ≡ half → m / n ≡ half
special_lem m n e1 e2 = ap (λ k. m / k) e1 ∙ omega (arith, e2)

-- The quotient of two 128-bit numbers is truncated towards zero and has the sign of the division, whenever
-- its magnitude is below 2^127.
pub divti3_lem :
    (a b : ℤ)
    → magnitude a < full
    → magnitude b < full
    → 0 < magnitude b
    → magnitude a / magnitude b < half
    → divti3 a b ≡ some (signed (differ a b) (magnitude a / magnitude b))
unfolding divti3
divti3_lem a b ha hb positive fits =
    let q = udivti3_lem (magnitude a) (magnitude b) ha positive hb in
    elim (Bool-cases (special a b)) [
      | inl least ↦
          let one : magnitude b ≡ 1 = ground arith in
          let low : magnitude a ≡ half = ground arith in
          absurd (omega (arith, fits, special_lem (magnitude a) (magnitude b) one low))
      | inr usual ↦ rw (usual, q) (fits_lem (magnitude a / magnitude b) (differ a b) fits)
    ]

-- When the operands differ in sign and the magnitude of the quotient is 2^127, as for the least 128-bit
-- number divided by 1, the negation of the signed quotient overflows: the model has no result.
pub divti3_overflow :
    (a b : ℤ)
    → magnitude a < full
    → magnitude b < full
    → 0 < magnitude b
    → magnitude a / magnitude b ≡ half
    → is_negative a ≡ true
    → is_negative b ≡ false
    → divti3 a b ≡ none
unfolding divti3
divti3_overflow a b ha hb positive large minus plus =
    let q = udivti3_lem (magnitude a) (magnitude b) ha positive hb in
    rw (plus, minus, q, large) refl
