-- ===== src/Arrays/Contains.antt =====
-- Membership in an array that carries its count (runtime/xiom_runtime.c, 7624 to 7630).
use stdlib.Base.{
  ℕ, zero, suc, ◌≡◌, refl, ap, ◌∙◌, ◌⊎◌, inl, inr, true, false, Option, some, List, [], ◌∷◌, arith,
  length, get_elem?, Bool-cases,
}
use stdlib.Base.Int.{ℤ, pos, negsuc}
use stdlib.Arrays.{same_word, contains_loop, array_contains}

same_word_eq : (a b : ℤ) → same_word a b ≡ true → a ≡ b
same_word_eq (pos a) (pos b) h = let e : a ≡ b = ground (arith, h) in ap pos e
same_word_eq (pos a) (negsuc b) h = cc
same_word_eq (negsuc a) (pos b) h = cc
same_word_eq (negsuc a) (negsuc b) h = let e : a ≡ b = ground (arith, h) in ap negsuc e

same_word_refl : (a : ℤ) → same_word a a ≡ true
same_word_refl (pos a) = ground arith
same_word_refl (negsuc a) = ground arith

-- The answer for the elements `xs`: 1 with the place of the value, or 0 and no place has it.
abbrev pub Answered : ℤ → List ℤ → Option ℕ → Type 0
Answered v xs r =
    ((r ≡ some 1) × ((i : ℕ) × (get_elem? xs i ≡ some v)))
    ⊎ ((r ≡ some 0) × ((i : ℕ) → get_elem? xs i ≡ some v → ⊥))

apart : (x v : ℤ) → same_word x v ≡ false → some x ≡ some v → ⊥
apart x v away h =
    let same : x ≡ v = cc in
    let hit : same_word x v ≡ true = ap (λ y. same_word y v) same ∙ same_word_refl v in cc

-- An element before the others that is not the value.
shift :
    (x : ℤ) (xs : List ℤ) (v : ℤ) (r : Option ℕ)
    → same_word x v ≡ false
    → Answered v xs r
    → Answered v (x ∷ xs) r
shift x xs v r away (inl (e, (i, at))) = inl (e, (suc i, at))
shift x xs v r away (inr (e, nowhere)) = inr (e, nowhere_else)
  where
    nowhere_else : (i : ℕ) → get_elem? (x ∷ xs) i ≡ some v → ⊥
    nowhere_else zero h = apart x v away h
    nowhere_else (suc i) h = nowhere i h

contains_loop-Answered : (xs : List ℤ) (v : ℤ) → Answered v xs (contains_loop (length xs) xs v)
unfolding contains_loop
contains_loop-Answered [] v = inr (refl, λ i h. cc)
contains_loop-Answered (x ∷ xs) v = elim (Bool-cases (same_word x v)) [
  | inl here ↦ rw here (inl (refl, (0, ap some (same_word_eq x v here))))
  | inr away ↦ rw away (shift x xs v _ away (contains_loop-Answered xs v))
]

-- On a well-formed array, `xiom_contains` returns 1 exactly when some element is the value, and 0
-- otherwise; it reads nothing outside.
pub array_contains-Answered :
    (xs : List ℤ) (v : ℤ) → Answered v xs (array_contains (pos (length xs) ∷ xs) v)
unfolding array_contains
array_contains-Answered xs v = contains_loop-Answered xs v
