-- ===== src/Text/Match.antt =====
-- `xiom_str_starts_with` and `xiom_str_ends_with` (runtime/xiom_runtime.c, 1500 to 1515) decide whether
-- a string has a prefix or a suffix.
use stdlib.Base.{
  ℕ, zero, suc, ◌+◌, ◌-◌, ◌≤◌, ◌≡◌, refl, sym, ap, ◌∙◌, ◌↔◌, true, some, List, [], ◌∷◌, ◌++◌, arith,
  ltb, Bool-cases, inl, inr, length, drop, take, length-append, take-append-drop, eq_list,
  eq_list→eq, eq_list_refl,
}
use stdlib.Text.{strncmp_zero, str_starts_with, str_ends_with}

strncmp_zero_sound :
    (s t : List ℕ) → strncmp_zero s t (length t) ≡ true → (rest : List ℕ) × (s ≡ t ++ rest)
unfolding strncmp_zero
strncmp_zero_sound s [] h = (s, refl)
strncmp_zero_sound [] (c ∷ t) h = cc
strncmp_zero_sound (b ∷ s) (c ∷ t) h =
    let (rest, e) = strncmp_zero_sound s t (ground arith) in (rest, ground arith)

strncmp_zero-append : (t rest : List ℕ) → strncmp_zero (t ++ rest) t (length t) ≡ true
unfolding strncmp_zero
strncmp_zero-append [] rest = refl
strncmp_zero-append (c ∷ t) rest = ground (arith, strncmp_zero-append t rest)

-- `xiom_str_starts_with` returns 1 exactly when the string is the prefix followed by something; it
-- returns 0 otherwise.
pub str_starts_with_iff :
    (s prefix : List ℕ)
    → (str_starts_with (some s) (some prefix) ≡ 1) ↔ ((rest : List ℕ) × (s ≡ prefix ++ rest))
unfolding str_starts_with
str_starts_with_iff s [] = (λ h. (s, refl), λ h. refl)
str_starts_with_iff s (c ∷ t) = (
  λ h. strncmp_zero_sound s (c ∷ t) (ground arith),
  λ (rest, e). rw e (ground (arith, strncmp_zero-append (c ∷ t) rest)),
)

drop-length : (front t : List ℕ) → drop (length front) (front ++ t) ≡ t
drop-length [] t = refl
drop-length (b ∷ front) t = drop-length front t

drop_past : (n : ℕ) (s : List ℕ) → length s ≤ n → drop n s ≡ []
drop_past zero [] h = refl
drop_past zero (b ∷ s) h = elim h [ ]
drop_past (suc n) [] h = refl
drop_past (suc n) (b ∷ s) h = drop_past n s (omega arith)

-- The test that `xiom_str_ends_with` makes once the suffix is not longer than the string.
tail_matches :
    (s t : List ℕ)
    → (str_ends_with (some s) (some t) ≡ 1)
      ↔ ((length t ≤ length s) × (drop (length s - length t) s ≡ t))
unfolding str_ends_with
tail_matches s [] = (λ h. (omega arith, drop_past (length s - 0) s (omega arith)), λ h. refl)
tail_matches s (c ∷ t) = elim (Bool-cases (ltb (length s) (length (c ∷ t)))) [
  | inl short ↦ (λ h. ground arith, λ h. ground arith)
  | inr long ↦
      let tail = drop (length s - length (c ∷ t)) s in
      (
        λ h. (ground arith, eq_list→eq tail (c ∷ t) (ground arith)),
        λ h. let e : eq_list tail (c ∷ t) ≡ true = rw h.1 (eq_list_refl (c ∷ t)) in ground arith,
      )
]

-- `xiom_str_ends_with` returns 1 exactly when the string is something followed by the suffix; it
-- returns 0 otherwise.
pub str_ends_with_iff :
    (s suffix : List ℕ)
    → (str_ends_with (some s) (some suffix) ≡ 1) ↔ ((front : List ℕ) × (s ≡ front ++ suffix))
str_ends_with_iff s t = (
  λ h.
      let m = (tail_matches s t).0 h in
      let k = length s - length t in
      (take k s, sym (take-append-drop k s) ∙ ap (λ (r : List ℕ). take k s ++ r) m.1),
  λ (front, e). (tail_matches s t).1 (back front e),
)
  where
    back :
        (front : List ℕ)
        → s ≡ front ++ t
        → (length t ≤ length s) × (drop (length s - length t) s ≡ t)
    back front e =
        let len : length s ≡ length front + length t = ap length e ∙ length-append front t in
        let k : length s - length t ≡ length front = omega arith in
        (omega arith, ap (λ (n : ℕ). drop n s) k ∙ ap (drop (length front)) e ∙ drop-length front t)
