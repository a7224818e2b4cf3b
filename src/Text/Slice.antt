-- ===== src/Text/Slice.antt =====
-- `xiom_str_slice` (runtime/xiom_runtime.c, 1483 to 1497) at every pair of positions.
use stdlib.Base.{
  ℕ, zero, suc, ◌+◌, ◌-◌, ◌≤◌, ◌≡◌, refl, sym, ap, ◌∙◌, true, some, List, [], ◌∷◌, ◌++◌, arith, leb,
  Bool-cases, inl, inr, length, take, drop, length-append, length-take, length-drop,
}
use stdlib.Base.Int.{ℤ, pos, negsuc, ◌≤ℤ◌}
use stdlib.Text.{clamp, str_slice, str_concat}

take-add : (m n : ℕ) (xs : List ℕ) → take (m + n) xs ≡ take m xs ++ take n (drop m xs)
take-add zero n xs = let e : 0 + n ≡ n = omega arith in rw e
take-add (suc m) zero [] = let e : suc m + 0 ≡ suc m = omega arith in rw e
take-add (suc m) (suc n) [] = let e : suc m + suc n ≡ suc (m + suc n) = omega arith in rw e
take-add (suc m) n (x ∷ xs) =
    let e : suc m + n ≡ suc (m + n) = omega arith in rw (e, take-add m n xs)

drop-add : (m n : ℕ) (xs : List ℕ) → drop n (drop m xs) ≡ drop (m + n) xs
drop-add zero n xs = let e : 0 + n ≡ n = omega arith in rw e
drop-add (suc m) zero [] = let e : suc m + 0 ≡ suc m = omega arith in rw e
drop-add (suc m) (suc n) [] = let e : suc m + suc n ≡ suc (m + suc n) = omega arith in rw e
drop-add (suc m) n (x ∷ xs) =
    let e : suc m + n ≡ suc (m + n) = omega arith in rw (e, drop-add m n xs)

-- The bytes of `s` from index `i` up to `j`.
abbrev pub between : ℕ → ℕ → List ℕ → List ℕ
between i j s = take (j - i) (drop i s)

between-append :
    (i j k : ℕ) (s : List ℕ) → i ≤ j → j ≤ k → between i j s ++ between j k s ≡ between i k s
between-append i j k s p q =
    let there : i + (j - i) ≡ j = omega arith in
    let sum : (j - i) + (k - j) ≡ k - i = omega arith in
    sym (
      ap (λ (n : ℕ). take n (drop i s)) (sym sum)
      ∙ take-add (j - i) (k - j) (drop i s)
      ∙ ap (λ (r : List ℕ). between i j s ++ take (k - j) r)
          (drop-add i (j - i) s ∙ ap (λ (n : ℕ). drop n s) there))

-- Clamping makes `xiom_str_slice` total: with memory for the copy, at any two positions it returns
-- the bytes between them, each first moved into the string.
pub str_slice-between :
    (s : List ℕ) (a b : ℤ)
    → str_slice true (some s) a b ≡ between (clamp (length s) a) (clamp (length s) b) s
unfolding str_slice
str_slice-between s a b = elim (Bool-cases (leb (clamp (length s) b) (clamp (length s) a))) [
  | inl empty ↦
      let none_left : clamp (length s) b - clamp (length s) a ≡ 0 = ground arith in
      rw (empty, none_left) refl
  | inr some_left ↦ rw some_left refl
]

clamp_mono : (len : ℕ) (a b : ℤ) → a ≤ℤ b → clamp len a ≤ clamp len b
clamp_mono len a b h = ground arith

-- Slices at three positions in order, negative and past the end included, fit together: the slice
-- from the first to the second, followed by the slice from the second to the third, is the slice
-- from the first to the third.
pub str_slice-append :
    (s : List ℕ) (a b c : ℤ)
    → a ≤ℤ b
    → b ≤ℤ c
    → str_slice true (some s) a b ++ str_slice true (some s) b c ≡ str_slice true (some s) a c
str_slice-append s a b c p q =
    rw (str_slice-between s a b, str_slice-between s b c, str_slice-between s a c)
      (between-append (clamp (length s) a) (clamp (length s) b) (clamp (length s) c) s
        (clamp_mono (length s) a b p) (clamp_mono (length s) b c q))

length-between : (i j : ℕ) (s : List ℕ) → j ≤ length s → length (between i j s) ≡ j - i
length-between i j s h = omega (arith, length-take (j - i) (drop i s), length-drop i s)

take_front : (s t : List ℕ) → take (length s) (s ++ t) ≡ s
take_front [] t = refl
take_front (b ∷ s) t = ap (λ (r : List ℕ). b ∷ r) (take_front s t)

drop_front : (s t : List ℕ) → drop (length s) (s ++ t) ≡ t
drop_front [] t = refl
drop_front (b ∷ s) t = drop_front s t

take_all : (s : List ℕ) → take (length s) s ≡ s
take_all [] = refl
take_all (b ∷ s) = ap (λ (r : List ℕ). b ∷ r) (take_all s)

-- Slicing takes a concatenation apart: the slice from any position before the start up to the first
-- string's length is the first string, and the slice from there to the end or any position past it
-- is the second.
pub str_slice-concat :
    (s t : List ℕ) (k : ℕ)
    → let whole = some (str_concat true (some s) (some t)) in
      (str_slice true whole (negsuc k) (pos (length s)) ≡ s)
      × (str_slice true whole (pos (length s)) (pos (length s + length t + k)) ≡ t)
unfolding str_concat
str_slice-concat s t k = (
  str_slice-between (s ++ t) (negsuc k) (pos (length s))
      ∙ rw (start, middle) (let e : length s - 0 ≡ length s = omega arith in rw e (take_front s t)),
  str_slice-between (s ++ t) (pos (length s)) (pos (length s + length t + k))
      ∙ rw (middle, end, drop_front) (ap (λ (n : ℕ). take n t) rest ∙ take_all t),
)
  where
    size : length (s ++ t) ≡ length s + length t
    size = length-append s t

    middle : clamp (length (s ++ t)) (pos (length s)) ≡ length s
    middle = ground (arith, size)

    start : clamp (length (s ++ t)) (negsuc k) ≡ 0
    start = ground (arith, size)

    end : clamp (length (s ++ t)) (pos (length s + length t + k)) ≡ length s + length t
    end = ground (arith, size)

    rest : length s + length t - length s ≡ length t
    rest = omega arith
