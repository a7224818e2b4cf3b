-- ===== src/Base/Keyed.antt =====
-- A table kept in the first places of an array, where a removal moves the last entry into the gap.
use Prim.Native.Nat.{ℕ, suc, ◌+◌, ◌≤◌}
use mathlib.Core.Path.{◌≡◌, refl, sym, ap, ◌∙◌, subst}
use mathlib.Core.Bool.{true, false}
use mathlib.Core.List.{List, [], ◌∷◌, ◌++◌}
use mathlib.Core.Logic.{◌⊎◌, inl, inr}
use mathlib.Core.Option.{Option, none, some}
use native.Mathlib.Omega.{arith}
use stdlib.Base.Lists.{length}
use stdlib.Base.Tests.{◌==◌, if◌then◌else◌, Bool-cases, Option-cases}

module _ {A : Type 0} (key : A → ℕ) where
  -- The first entry of a key.
  abbrev pub find : ℕ → List A → Option A
  find k [] = none
  find k (x ∷ xs) = if key x == k then some x else find k xs

  -- The entries with the last moved to the front, as it lands in the gap.
  abbrev pub split_last : A → List A → List A × A
  split_last x [] = ([], x)
  split_last x (y ∷ ys) = let (rest, l) = split_last y ys in (x ∷ rest, l)

  abbrev pub to_front : List A → List A
  to_front [] = []
  to_front (x ∷ xs) = (split_last x xs).1 ∷ (split_last x xs).0

  -- The first entry of the key is removed, and the last takes its place.
  unfoldable pub swap_out : ℕ → List A → List A
  swap_out k [] = []
  swap_out k (x ∷ xs) = let rest = swap_out k xs in if key x == k then to_front xs else x ∷ rest

  -- No two entries of one key.
  abbrev pub Distinct : List A → Type 0
  Distinct [] = Unit {0}
  Distinct (x ∷ xs) = (find (key x) xs ≡ none) × Distinct xs

  split_last-append :
      (x : A) (xs : List A) → (split_last x xs).0 ++ ((split_last x xs).1 ∷ []) ≡ x ∷ xs
  split_last-append x [] = refl
  split_last-append x (y ∷ ys) = ap (λ (zs : List A). x ∷ zs) (split_last-append y ys)

  -- A key is found in a list with an entry behind it where it is found in the list, or else at the entry.
  pub find-behind_none :
      (k : ℕ) (xs : List A) (l : A) → find k xs ≡ none → find k (xs ++ (l ∷ [])) ≡ find k (l ∷ [])
  find-behind_none k [] l h = refl
  find-behind_none k (x ∷ xs) l h = elim (Bool-cases (key x == k)) [
    | inl here ↦ absurd (let clash = rw here at h in cc)
    | inr past ↦ let h' = rw past at h in rw past (find-behind_none k xs l h')
  ]

  pub find-behind_some :
      (k : ℕ) (xs : List A) (l a : A) → find k xs ≡ some a → find k (xs ++ (l ∷ [])) ≡ some a
  find-behind_some k [] l a h = absurd (let clash = h in cc)
  find-behind_some k (x ∷ xs) l a h = elim (Bool-cases (key x == k)) [
    | inl here ↦ let h' = rw here at h in rw here h'
    | inr past ↦ let h' = rw past at h in rw past (find-behind_some k xs l a h')
  ]

  -- What the absence of a key behind the appended entry says.
  absent-append :
      (k : ℕ) (xs : List A) (l : A)
      → find k (xs ++ (l ∷ [])) ≡ none
      → (find k xs ≡ none) × ((key l == k) ≡ false)
  absent-append k [] l h = elim (Bool-cases (key l == k)) [
    | inl here ↦ absurd (let clash = rw here at h in cc)
    | inr past ↦ (refl, past)
  ]
  absent-append k (x ∷ xs) l h = elim (Bool-cases (key x == k)) [
    | inl here ↦ absurd (let clash = rw here at h in cc)
    | inr past ↦
        let h' = rw past at h in let rest = absent-append k xs l h' in (rw past rest.0, rest.1)
  ]

  other_way : (a b : ℕ) → (a == b) ≡ false → (b == a) ≡ false
  other_way a b h = ground arith

  Distinct-append :
      (xs : List A) (l : A) → Distinct (xs ++ (l ∷ [])) → (find (key l) xs ≡ none) × Distinct xs
  Distinct-append [] l h = (refl, tt)
  Distinct-append (x ∷ xs) l (fresh, rest) =
      let (absent, kept) = Distinct-append xs l rest in
      let (before, past) = absent-append (key x) xs l fresh in
      (rw (other_way (key l) (key x) past) absent, (before, kept))

  front_parts :
      (x : A) (xs : List A)
      → Distinct (x ∷ xs)
      → (find (key (split_last x xs).1) (split_last x xs).0 ≡ none) × Distinct (split_last x xs).0
  front_parts x xs h =
      Distinct-append (split_last x xs).0 (split_last x xs).1
        (subst Distinct (sym (split_last-append x xs)) h)

  -- The entry moved to the front is found as before.
  find-moved :
      (g : ℕ) (xs : List A) (l : A)
      → find (key l) xs ≡ none
      → find g (l ∷ xs) ≡ find g (xs ++ (l ∷ []))
  find-moved g xs l fresh = elim (Bool-cases (key l == g)) [
    | inl here ↦
        let same : key l ≡ g = ground arith in
        let absent : find g xs ≡ none = subst (λ k. find k xs ≡ none) same fresh in
        rw here (sym (find-behind_none g xs l absent ∙ rw here refl))
    | inr past ↦ elim (Option-cases (find g xs)) [
      | inl gone ↦ rw past (gone ∙ sym (find-behind_none g xs l gone ∙ rw past refl))
      | inr (a, got) ↦ rw past (got ∙ sym (find-behind_some g xs l a got))
    ]
  ]

  find-to_front : (g : ℕ) (xs : List A) → Distinct xs → find g (to_front xs) ≡ find g xs
  find-to_front g [] h = refl
  find-to_front g (x ∷ xs) h =
      find-moved g (split_last x xs).0 (split_last x xs).1 (front_parts x xs h).0
      ∙ ap (find g) (split_last-append x xs)

  to_front-Distinct : (xs : List A) → Distinct xs → Distinct (to_front xs)
  to_front-Distinct [] h = tt
  to_front-Distinct (x ∷ xs) h = front_parts x xs h

  -- The removal forgets the key and no other.
  pub find-swap_out :
      (k g : ℕ) (xs : List A)
      → Distinct xs
      → find g (swap_out k xs) ≡ (if g == k then none else find g xs)
  unfolding swap_out
  find-swap_out k g [] h = elim (Bool-cases (g == k)) [ inl e ↦ rw e refl | inr e ↦ rw e refl ]
  find-swap_out k g (x ∷ xs) (fresh, rest) = elim (Bool-cases (key x == k)) [
    | inl here ↦ elim (Bool-cases (g == k)) [
      | inl same ↦
          let e : key x ≡ g = ground arith in
          let gone : find g xs ≡ none = subst (λ n. find n xs ≡ none) e fresh in
          rw (here, same) (find-to_front g xs rest ∙ gone)
      | inr differs ↦
          let past : (key x == g) ≡ false = ground arith in
          rw (here, differs, past) (find-to_front g xs rest)
    ]
    | inr kept ↦ elim (Bool-cases (key x == g)) [
      | inl found ↦ let differs : (g == k) ≡ false = ground arith in rw (kept, found, differs) refl
      | inr past ↦ rw (kept, past) (find-swap_out k g xs rest)
    ]
  ]

  pub swap_out-Distinct : (k : ℕ) (xs : List A) → Distinct xs → Distinct (swap_out k xs)
  unfolding swap_out
  swap_out-Distinct k [] h = tt
  swap_out-Distinct k (x ∷ xs) (fresh, rest) = elim (Bool-cases (key x == k)) [
    | inl here ↦ rw here (to_front-Distinct xs rest)
    | inr past ↦
        rw past (find-swap_out k (key x) xs rest ∙ rw past fresh, swap_out-Distinct k xs rest)
  ]

  -- An entry of a new key behind the others.
  pub append-Distinct :
      (xs : List A) (l : A) → Distinct xs → find (key l) xs ≡ none → Distinct (xs ++ (l ∷ []))
  append-Distinct [] l h fresh = (refl, tt)
  append-Distinct (x ∷ xs) l (own, rest) fresh = elim (Bool-cases (key x == key l)) [
    | inl here ↦ absurd (let clash = rw here at fresh in cc)
    | inr past ↦
        let fresh' = rw past at fresh in
        (
          find-behind_none (key x) xs l own ∙ rw (other_way (key x) (key l) past) refl,
          append-Distinct xs l rest fresh',
        )
  ]

  pub find-append :
      (g : ℕ) (xs : List A) (l : A)
      → find (key l) xs ≡ none
      → find g (xs ++ (l ∷ [])) ≡ (if g == key l then some l else find g xs)
  find-append g xs l fresh = sym (find-moved g xs l fresh) ∙ turned (Bool-cases (g == key l))
    where
      turned :
          ((g == key l) ≡ true) ⊎ ((g == key l) ≡ false)
          → find g (l ∷ xs) ≡ (if g == key l then some l else find g xs)
      turned (inl same) = let same' : (key l == g) ≡ true = ground arith in rw (same, same') refl
      turned (inr past) = rw (past, other_way g (key l) past) refl

  -- The removal of a key that is there makes the table one shorter.
  length-split_last : (x : A) (xs : List A) → length (split_last x xs).0 ≡ length xs
  length-split_last x [] = refl
  length-split_last x (y ∷ ys) = ap suc (length-split_last y ys)

  length-to_front : (xs : List A) → length (to_front xs) ≡ length xs
  length-to_front [] = refl
  length-to_front (x ∷ xs) = ap suc (length-split_last x xs)

  pub length-swap_out : (k : ℕ) (xs : List A) → length (swap_out k xs) ≤ length xs
  unfolding swap_out
  length-swap_out k [] = omega arith
  length-swap_out k (x ∷ xs) = elim (Bool-cases (key x == k)) [
    | inl here ↦ rw here (omega (arith, length-to_front xs))
    | inr past ↦ rw past (omega (arith, length-swap_out k xs))
  ]

  -- A weight added up over the entries.
  abbrev pub total : (A → ℕ) → List A → ℕ
  total w [] = 0
  total w (x ∷ xs) = w x + total w xs

  total-split_last :
      (w : A → ℕ) (x : A) (xs : List A)
      → w (split_last x xs).1 + total w (split_last x xs).0 ≡ w x + total w xs
  total-split_last w x [] = refl
  total-split_last w x (y ∷ ys) = omega (arith, total-split_last w y ys)

  total-to_front : (w : A → ℕ) (xs : List A) → total w (to_front xs) ≡ total w xs
  total-to_front w [] = refl
  total-to_front w (x ∷ xs) = total-split_last w x xs

  pub total-append : (w : A → ℕ) (xs : List A) (l : A) → total w (xs ++ (l ∷ [])) ≡ total w xs + w l
  total-append w [] l = omega arith
  total-append w (x ∷ xs) l = omega (arith, total-append w xs l)

  -- A removal takes the weight of the entry away, and nothing where there is none.
  pub total-swap_out :
      (w : A → ℕ) (k : ℕ) (xs : List A) (a : A)
      → find k xs ≡ some a
      → total w (swap_out k xs) + w a ≡ total w xs
  unfolding swap_out
  total-swap_out w k [] a h = absurd (let clash = h in cc)
  total-swap_out w k (x ∷ xs) a h = elim (Bool-cases (key x == k)) [
    | inl here ↦
        let h' = rw here at h in
        let same : w x ≡ w a = ap (weight x) h' in
        rw here (omega (arith, total-to_front w xs, same))
    | inr past ↦ let h' = rw past at h in rw past (omega (arith, total-swap_out w k xs a h'))
  ]
    where
      weight : A → Option A → ℕ
      weight d none = w d
      weight d (some b) = w b

  pub swap_out-absent : (k : ℕ) (xs : List A) → find k xs ≡ none → swap_out k xs ≡ xs
  unfolding swap_out
  swap_out-absent k [] h = refl
  swap_out-absent k (x ∷ xs) h = elim (Bool-cases (key x == k)) [
    | inl here ↦ absurd (let clash = rw here at h in cc)
    | inr past ↦
        let h' = rw past at h in rw past (ap (λ (ys : List A). x ∷ ys) (swap_out-absent k xs h'))
  ]
