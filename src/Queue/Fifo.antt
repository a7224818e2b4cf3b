-- ===== src/Queue/Fifo.antt =====
-- The ring buffer as a first-in first-out queue.
use stdlib.Base.{
  ℕ, zero, suc, ◌+◌, ◌-◌, ◌%◌, ◌≤◌, ◌<◌, ◌≡◌, refl, sym, ap, ◌∙◌, ◌≢◌, ◌⊎◌, inl, inr, List, [], ◌∷◌,
  ◌++◌, arith, length, get_or, set, length-set, length-replicate, dec_eq,
}
use native.Mathlib.Nat.{mod-lt, mod_self, mod-eq_of_lt}
use stdlib.Queue.{Ring, empty_ring, push, pop}

-- The place `n` steps after `h`.
abbrev pub advance : ℕ → ℕ → ℕ → ℕ
advance cap h zero = h
advance cap h (suc n) = advance cap ((h + 1) % cap) n

advance-suc : (cap h n : ℕ) → (advance cap h n + 1) % cap ≡ advance cap h (n + 1)
advance-suc cap h zero = refl
advance-suc cap h (suc n) =
    let more : suc n + 1 ≡ suc (n + 1) = omega arith in
    advance-suc cap ((h + 1) % cap) n ∙ ap (advance cap h) (sym more)

step_cases :
    (cap h : ℕ)
    → h < cap
    → ((h + 1 < cap) × ((h + 1) % cap ≡ h + 1)) ⊎ ((h + 1 ≡ cap) × ((h + 1) % cap ≡ 0))
step_cases cap h lt = elim (dec_eq (h + 1) cap) [
  | yes e ↦ inr (e, ap (λ n. n % cap) e ∙ mod_self cap)
  | no ne ↦ let less : h + 1 < cap = omega arith in inl (less, mod-eq_of_lt less)
]

advance_cases :
    (cap h n : ℕ)
    → h < cap
    → n ≤ cap
    → ((h + n < cap) × (advance cap h n ≡ h + n))
      ⊎ ((cap ≤ h + n) × (advance cap h n + cap ≡ h + n))
advance_cases cap h zero lt le = inl (omega arith, omega arith)
advance_cases cap h (suc n) lt le = elim (step_cases cap h lt) [
  | inl (less, e) ↦ elim (advance_cases cap ((h + 1) % cap) n (omega (arith, e)) (omega arith)) [
    | inl (a, b) ↦ inl (omega (arith, a, e), omega (arith, b, e))
    | inr (a, b) ↦ inr (omega (arith, a, e), omega (arith, b, e))
  ]
  | inr (full, e) ↦ elim (advance_cases cap ((h + 1) % cap) n (omega (arith, e)) (omega arith)) [
    | inl (a, b) ↦ inr (omega arith, omega (arith, b, e))
    | inr (a, b) ↦ absurd (omega (arith, a, e))
  ]
]

module _ {A : Type 0} where
  pub get_or-set_self :
      (xs : List A) (i : ℕ) (x d : A) → i < length xs → get_or (set xs i x) i d ≡ x
  get_or-set_self [] i x d h = elim h [ ]
  get_or-set_self (y ∷ xs) zero x d h = refl
  get_or-set_self (y ∷ xs) (suc i) x d h = get_or-set_self xs i x d (omega arith)

  pub get_or-set_ne :
      (xs : List A) (i j : ℕ) (x d : A) → i ≢ j → get_or (set xs i x) j d ≡ get_or xs j d
  get_or-set_ne [] i j x d ne = refl
  get_or-set_ne (y ∷ xs) zero zero x d ne = absurd (ne refl)
  get_or-set_ne (y ∷ xs) zero (suc j) x d ne = refl
  get_or-set_ne (y ∷ xs) (suc i) zero x d ne = refl
  get_or-set_ne (y ∷ xs) (suc i) (suc j) x d ne = get_or-set_ne xs i j x d (λ e. ne (ap suc e))

  -- The `n` items from the place `h` on.
  abbrev pub gather : List A → ℕ → A → ℕ → ℕ → List A
  gather xs cap d h zero = []
  gather xs cap d h (suc n) = get_or xs h d ∷ gather xs cap d ((h + 1) % cap) n

  gather-snoc :
      (xs : List A) (cap : ℕ) (d : A) (h n : ℕ)
      → gather xs cap d h (suc n) ≡ gather xs cap d h n ++ (get_or xs (advance cap h n) d ∷ [])
  gather-snoc xs cap d h zero = refl
  gather-snoc xs cap d h (suc n) =
      ap (λ ys. get_or xs h d ∷ ys) (gather-snoc xs cap d ((h + 1) % cap) n)

  -- A write at a later place spares the items.
  gather-set :
      (xs : List A) (cap : ℕ) (d x : A) (h n m : ℕ)
      → h < cap
      → n ≤ m
      → m < cap
      → gather (set xs (advance cap h m) x) cap d h n ≡ gather xs cap d h n
  gather-set xs cap d x h zero m lt le small = refl
  gather-set xs cap d x h (suc n) zero lt le small = absurd (omega arith)
  gather-set xs cap d x h (suc n) (suc m) lt le small =
      let away : advance cap h (suc m) ≢ h =
        λ e. omega (arith, e, advance_cases cap h (suc m) lt (omega arith)) in
      let next : (h + 1) % cap < cap = mod-lt (h + 1) (omega arith) in
      rw
        (
          get_or-set_ne xs (advance cap h (suc m)) h x d away,
          gather-set xs cap d x ((h + 1) % cap) n m next (omega arith) (omega arith),
        )
        refl

  -- The places and the number fit the array.
  pub record IsRing (cap : ℕ) (r : Ring A) : Type 0 where
    pub size : length r.items ≡ cap
    pub head_lt : r.head < cap
    pub count_le : r.count ≤ cap
    pub tail_at : r.tail ≡ advance cap r.head r.count

  abbrev pub contents : ℕ → A → Ring A → List A
  contents cap d r = gather r.items cap d r.head r.count

  pub empty_ring-IsRing : (cap : ℕ) (a : A) → 0 < cap → IsRing cap (empty_ring cap a)
  empty_ring-IsRing cap a h = record {
    size = length-replicate cap a;
    head_lt = h;
    count_le = omega arith;
    tail_at = refl;
  }

  -- A write to a ring that is not full keeps it in shape, and its items are those before and the new one
  -- behind them.
  pub push-IsRing :
      (cap : ℕ) (x : A) (r : Ring A) → IsRing cap r → r.count < cap → IsRing cap (push cap x r)
  unfolding push
  push-IsRing cap x r v room = record {
    size = length-set r.items r.tail x ∙ v.size;
    head_lt = v.head_lt;
    count_le = omega arith;
    tail_at = ap (λ t. (t + 1) % cap) v.tail_at ∙ advance-suc cap r.head r.count;
  }

  pub contents-push :
      (cap : ℕ) (d x : A) (r : Ring A)
      → IsRing cap r
      → r.count < cap
      → contents cap d (push cap x r) ≡ contents cap d r ++ (x ∷ [])
  unfolding push
  contents-push cap d x r v room =
      let more : r.count + 1 ≡ suc r.count = omega arith in
      let at : get_or (set r.items r.tail x) r.tail d ≡ x =
        get_or-set_self r.items r.tail x d (
          omega
            (arith, v.size, v.tail_at, advance_cases cap r.head r.count v.head_lt v.count_le)) in
      let spared : gather (set r.items r.tail x) cap d r.head r.count
          ≡ gather r.items cap d r.head r.count =
        ap (λ t. gather (set r.items t x) cap d r.head r.count) v.tail_at
        ∙ gather-set r.items cap d x r.head r.count r.count v.head_lt (omega arith) room in
      ap (gather (set r.items r.tail x) cap d r.head) more
      ∙ gather-snoc (set r.items r.tail x) cap d r.head r.count
      ∙ ap
          (λ t.
            gather (set r.items r.tail x) cap d r.head r.count
            ++ (get_or (set r.items r.tail x) t d ∷ []))
          (sym v.tail_at)
      ∙ rw (spared, at) refl

  pub pop-IsRing :
      (cap : ℕ) (d : A) (r : Ring A) → IsRing cap r → 0 < r.count → IsRing cap (pop cap d r).1
  unfolding pop
  pop-IsRing cap d r v some_item = record {
    size = v.size;
    head_lt = mod-lt (r.head + 1) (omega (arith, v.head_lt));
    count_le = omega (arith, v.count_le);
    tail_at =
        let fewer : r.count ≡ suc (r.count - 1) = omega arith in
        v.tail_at ∙ ap (advance cap r.head) fewer;
  }

  pub contents-pop :
      (cap : ℕ) (d : A) (r : Ring A)
      → 0 < r.count
      → contents cap d r ≡ (pop cap d r).0 ∷ contents cap d (pop cap d r).1
  unfolding pop
  contents-pop cap d r some_item =
      let fewer : r.count ≡ suc (r.count - 1) = omega arith in
      ap (gather r.items cap d r.head) fewer
