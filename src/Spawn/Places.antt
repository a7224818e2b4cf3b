-- ===== src/Spawn/Places.antt =====
-- What a claim and a release do to the threads of the table (runtime/xiom_runtime.c, 7156 to 7218).
use stdlib.Base.{
  ℕ, zero, suc, ◌+◌, ◌≤◌, ◌≡◌, ◌≢◌, refl, sym, ap, inl, inr, Bool, true, false, ◌&&◌, Option, none,
  some, List, [], ◌∷◌, arith, ◌==◌, get_or, set, if◌then◌else◌, Bool-cases, Option-cases,
}
use stdlib.Spawn.{Entry, vacant, Spawned, at_most_suc, free_slot, find_slot, release}

-- Whether a place holds the active thread of an id.
abbrev pub holds : ℕ → Entry → Bool
holds g e = e.active && (e.id == g)

-- The system's handle of the first active thread with an id, and the table without that thread.
abbrev pub handle_of : ℕ → List Entry → Option ℕ
handle_of g [] = none
handle_of g (e ∷ es) = if holds g e then some e.os_handle else handle_of g es

abbrev pub cleared : ℕ → List Entry → List Entry
cleared g [] = []
cleared g (e ∷ es) = if holds g e then record e { active = false } ∷ es else e ∷ cleared g es

-- How many active threads have an id.
abbrev pub count : ℕ → List Entry → ℕ
count g [] = 0
count g (e ∷ es) = (if holds g e then 1 else 0) + count g es

abbrev pub launched : ℕ → ℕ → Entry
launched n th = record { id = n; active = true; os_handle = th }

find_here : (g : ℕ) (e : Entry) (es : List Entry) → holds g e ≡ true → find_slot g (e ∷ es) ≡ some 0
unfolding find_slot
find_here g e es h = rw h refl

find_later :
    (g : ℕ) (e : Entry) (es : List Entry)
    → holds g e ≡ false
    → find_slot g (e ∷ es) ≡ at_most_suc (find_slot g es)
unfolding find_slot
find_later g e es h = rw h refl

-- What the release finds, by the place that the search gives.
record Found (g : ℕ) (es : List Entry) (o : Option ℕ) : Type 0 where
  handle :
      elim o [ none ↦ none | some slot ↦ some (get_or es slot vacant).os_handle ] ≡ handle_of g es
  rest :
      elim o [
        | none ↦ es
        | some slot ↦ set es slot (record (get_or es slot vacant) { active = false })
      ]
      ≡ cleared g es

behind :
    (g : ℕ) (e : Entry) (es : List Entry) (o : Option ℕ)
    → holds g e ≡ false
    → Found g es o
    → Found g (e ∷ es) (at_most_suc o)
behind g e es none h f = record {
  handle = rw h f.handle;
  rest = rw h (ap (λ (xs : List Entry). e ∷ xs) f.rest);
}
behind g e es (some slot) h f = record {
  handle = rw h f.handle;
  rest = rw h (ap (λ (xs : List Entry). e ∷ xs) f.rest);
}

find_slot-Found : (g : ℕ) (es : List Entry) → Found g es (find_slot g es)
unfolding find_slot
find_slot-Found g [] = record { handle = refl; rest = refl }
find_slot-Found g (e ∷ es) = elim (Bool-cases (holds g e)) [
  | inl here ↦ rw here (record { handle = rw here refl; rest = rw here refl })
  | inr later ↦ rw later (behind g e es (find_slot g es) later (find_slot-Found g es))
]

pub release_lem :
    (g : ℕ) (t : Spawned)
    → release g t ≡ (handle_of g t.entries, record t { entries = cleared g t.entries })
unfolding release
release_lem g t =
    let f = find_slot-Found g t.entries in
    elim (Option-cases (find_slot g t.entries)) [
      | inl gone ↦
          let f' : Found g t.entries none = rw gone at f in
          rw (release, gone) (rw (sym f'.handle, sym f'.rest) refl)
      | inr (slot, got) ↦
          let f' : Found g t.entries (some slot) = rw got at f in
          rw (release, got) (rw (sym f'.handle, sym f'.rest) refl)
    ]

-- A release keeps every other thread, and takes its own, if there is but one.
pub handle_of-cleared :
    (g k : ℕ) (es : List Entry) → k ≢ g → handle_of g (cleared k es) ≡ handle_of g es
handle_of-cleared g k [] ne = refl
handle_of-cleared g k (e ∷ es) ne = elim (Bool-cases (holds k e)) [
  | inl here ↦ let other : holds g e ≡ false = ground (arith, here, ne) in rw (here, other) refl
  | inr later ↦
      rw later (ap (λ o. if holds g e then some e.os_handle else o) (handle_of-cleared g k es ne))
]

pub handle_of_absent : (g : ℕ) (es : List Entry) → count g es ≡ 0 → handle_of g es ≡ none
handle_of_absent g [] h = refl
handle_of_absent g (e ∷ es) h = elim (Bool-cases (holds g e)) [
  | inl here ↦ absurd (let h' = rw here at h in omega (arith, h'))
  | inr later ↦ rw later (handle_of_absent g es (let h' = rw later at h in omega (arith, h')))
]

pub cleared_gone : (g : ℕ) (es : List Entry) → count g es ≤ 1 → handle_of g (cleared g es) ≡ none
cleared_gone g [] h = refl
cleared_gone g (e ∷ es) h = elim (Bool-cases (holds g e)) [
  | inl here ↦ rw here (handle_of_absent g es (let h' = rw here at h in omega (arith, h')))
  | inr later ↦ rw (later, later) (cleared_gone g es (let h' = rw later at h in omega (arith, h')))
]

pub cleared_same : (g : ℕ) (es : List Entry) → handle_of g es ≡ none → cleared g es ≡ es
cleared_same g [] h = refl
cleared_same g (e ∷ es) h = elim (Bool-cases (holds g e)) [
  | inl here ↦ absurd (let clash = rw here at h in cc)
  | inr later ↦ rw later (ap (λ (xs : List Entry). e ∷ xs) (cleared_same g es (rw later at h)))
]

pub count-cleared : (g k : ℕ) (es : List Entry) → count g (cleared k es) ≤ count g es
count-cleared g k [] = omega arith
count-cleared g k (e ∷ es) = elim (Bool-cases (holds k e)) [
  | inl here ↦ rw here (omega arith)
  | inr later ↦ rw later (omega (arith, count-cleared g k es))
]

-- A claim puts its thread at a place with no active one.
not_at : (o : Option ℕ) → at_most_suc o ≡ some 0 → ⊥
not_at none h = cc
not_at (some j) h = let same : suc j ≡ 0 = cc in omega (arith, same)

before : (o : Option ℕ) (i : ℕ) → at_most_suc o ≡ some (suc i) → o ≡ some i
before none i h = cc
before (some j) i h =
    let same : suc j ≡ suc i = cc in let same' : j ≡ i = omega (arith, same) in ap some same'

pub record Claimed (n th slot : ℕ) (es : List Entry) : Type 0 where
  pub others : (g : ℕ) → g ≢ n → handle_of g (set es slot (launched n th)) ≡ handle_of g es
  pub own : handle_of n es ≡ none → handle_of n (set es slot (launched n th)) ≡ some th
  pub counts :
      (g : ℕ) → count g (set es slot (launched n th)) ≤ count g es + (if n == g then 1 else 0)

pub free_slot-Claimed :
    (n th slot : ℕ) (es : List Entry) → free_slot es ≡ some slot → Claimed n th slot es
unfolding free_slot
free_slot-Claimed n th slot [] h = cc
free_slot-Claimed n th zero (e ∷ es) h = elim (Bool-cases e.active) [
  | inl on ↦ absurd (not_at (free_slot es) (rw on at h))
  | inr off ↦
      let same : (n == n) ≡ true = ground arith in
      record {
        others = λ g ne. (let differs : (n == g) ≡ false = ground arith in rw (off, differs) refl);
        own = λ gone. rw same refl;
        counts = λ g. rw off (omega arith);
      }
]
free_slot-Claimed n th (suc slot) (e ∷ es) h = elim (Bool-cases e.active) [
  | inr off ↦ absurd (let two = rw off at h in let no : 0 ≡ suc slot = cc in omega (arith, no))
  | inl on ↦
      let k = free_slot-Claimed n th slot es (before (free_slot es) slot (rw on at h)) in
      record {
        others = λ g ne. ap (λ o. if holds g e then some e.os_handle else o) (k.others g ne);
        own = λ gone. elim (Bool-cases (holds n e)) [
          | inl here ↦ absurd (let clash = rw here at gone in cc)
          | inr later ↦ rw later (k.own (rw later at gone))
        ];
        counts = λ g. omega (arith, k.counts g);
      }
]
