-- ===== src/Intern/Names.antt =====
-- Interned names are kept and found again (runtime/xiom_runtime.c, 1608 to 1629).
use stdlib.Base.{
  ℕ, zero, suc, ◌+◌, ◌<◌, ◌≡◌, refl, sym, ap, ◌∙◌, inl, inr, true, false, ◌&&◌, some, List, [], ◌∷◌,
  ◌++◌, arith, ltb, leb, ◌==◌, length, get_elem?, eq_list, eq_list→eq, eq_list_refl, ◌≢◌, ◌≤◌, ◌⊎◌,
  Option, none, drop, length-take, length-drop, length-append, Bool-cases, Option-cases,
}
use stdlib.Base.Int.{ℤ, pos, to_ℕ}
use stdlib.Intern.{Names, max_strings, piece, search_name, intern, lookup}

search_name_here :
    (name : List ℕ) (len i : ℕ) (s : List ℕ) (rest : Names)
    → ((length s == len) && eq_list s name) ≡ true
    → search_name name len i (s ∷ rest) ≡ some i
unfolding search_name
search_name_here name len i s rest h = rw h refl

search_name_later :
    (name : List ℕ) (len i : ℕ) (s : List ℕ) (rest : Names)
    → ((length s == len) && eq_list s name) ≡ false
    → search_name name len i (s ∷ rest) ≡ search_name name len (i + 1) rest
unfolding search_name
search_name_later name len i s rest h = rw h refl

-- What the search finds is the name.
search_name_found :
    (name : List ℕ) (len i : ℕ) (names : Names) (k : ℕ)
    → search_name name len i names ≡ some k
    → (j : ℕ) × (k ≡ i + j) × (j < length names) × (get_elem? names j ≡ some name)
unfolding search_name
search_name_found name len i [] k h = cc
search_name_found name len i (s ∷ rest) k h =
    elim (Bool-cases ((length s == len) && eq_list s name)) [
      | inl here ↦
          let same : some i ≡ some k = sym (search_name_here name len i s rest here) ∙ h in
          let at : i ≡ k = cc in
          let matched : eq_list s name ≡ true = ground (arith, here) in
          (0, omega (arith, at), omega arith, ap some (eq_list→eq s name matched))
      | inr later ↦
          let (j, e, lt, at) =
            search_name_found name len (i + 1) rest k
              (sym (search_name_later name len i s rest later) ∙ h) in
          (suc j, omega (arith, e), omega (arith, lt), at)
    ]

get_elem?-before :
    (names more : Names) (j : ℕ)
    → j < length names
    → get_elem? (names ++ more) j ≡ get_elem? names j
get_elem?-before [] more j h = elim h [ ]
get_elem?-before (s ∷ names) more zero h = refl
get_elem?-before (s ∷ names) more (suc j) h = get_elem?-before names more j (omega arith)

get_elem?_last :
    (names : Names) (s : List ℕ) → get_elem? (names ++ (s ∷ [])) (length names) ≡ some s
get_elem?_last [] s = refl
get_elem?_last (t ∷ names) s = get_elem?_last names s

lookup_in :
    (j : ℕ) (names : Names) → j < length names → lookup (pos (suc j)) names ≡ get_elem? names j
unfolding lookup
lookup_in j names h =
    let inside : ltb (length names) (suc j) ≡ false = ground arith in rw inside refl

-- None of the strings is the name.
abbrev pub IsUnknown : List ℕ → Names → Type 0
IsUnknown name names = (j : ℕ) → j < length names → get_elem? names j ≢ some name

search_name_misses :
    (name : List ℕ) (len i : ℕ) (names : Names)
    → length name ≡ len
    → search_name name len i names ≡ none
    → IsUnknown name names
search_name_misses name len i [] size h = λ j lt e. absurd (omega arith)
search_name_misses name len i (s ∷ rest) size h =
    elim (Bool-cases ((length s == len) && eq_list s name)) [
      | inl here ↦ absurd (let clash = sym (search_name_here name len i s rest here) ∙ h in cc)
      | inr later ↦
          let past =
            search_name_misses name len (i + 1) rest size
              (sym (search_name_later name len i s rest later) ∙ h) in
          λ j lt e. at_place j lt e later past
    ]
  where
    at_place :
        (j : ℕ)
        → j < suc (length rest)
        → get_elem? (s ∷ rest) j ≡ some name
        → ((length s == len) && eq_list s name) ≡ false
        → IsUnknown name rest
        → ⊥
    at_place zero lt e later past =
        let same : s ≡ name = cc in
        let sized : (length s == len) ≡ true = ground (arith, ap length same, size) in
        let matched : eq_list s name ≡ true = ap (λ t. eq_list t name) same ∙ eq_list_refl name in
        let clash = rw (sized, matched) at later in cc
    at_place (suc j) lt e later past = past j (omega arith) e

-- What interning the name `name` of `len` bytes into `names` comes to.
abbrev pub Interned : List ℕ → ℕ → Names → Option (ℕ × Names) → Type 0
Interned name len names none = ⊥
Interned name len names (some (zero, names')) =
    (names' ≡ names) × ((len ≡ 0) ⊎ ((max_strings ≤ length names) × IsUnknown name names))
Interned name len names (some (suc i, names')) =
    (lookup (pos (suc i)) names' ≡ some name)
    × ((j : ℕ) → j < length names → lookup (pos (suc j)) names' ≡ lookup (pos (suc j)) names)
    × ((names' ≡ names) ⊎ IsUnknown name names)

known :
    (name : List ℕ) (len : ℕ) (names : Names) (i : ℕ)
    → search_name name len 0 names ≡ some i
    → Interned name len names (some (suc i, names))
known name len names i h =
    let (j, e, lt, at) = search_name_found name len 0 names i h in
    let same : i ≡ j = omega (arith, e) in
    (lookup_in i names (omega (arith, lt)) ∙ ap (get_elem? names) same ∙ at, λ k hk. refl, inl refl)

added :
    (name : List ℕ) (len : ℕ) (names : Names)
    → IsUnknown name names
    → Interned name len names (some (suc (length names), names ++ (name ∷ [])))
added name len names unknown =
    let more = length-append names (name ∷ []) in
    (
      lookup_in (length names) (names ++ (name ∷ [])) (omega (arith, more))
          ∙ get_elem?_last names name,
      λ j hj.
          lookup_in j (names ++ (name ∷ [])) (omega (arith, more))
          ∙ get_elem?-before names (name ∷ []) j hj
          ∙ sym (lookup_in j names hj),
      inr unknown,
    )

succ : (n : ℕ) → n + 1 ≡ suc n
succ n = omega arith

-- Interning bytes of the source, where malloc gives memory, gives a positive id whose string is those bytes, and every id
-- given out before keeps its string; where one of them has these bytes already, the table is as it was, so that the same
-- bytes get no second string. It gives 0, and leaves the table, only of no bytes, or where the table is full and none of its
-- strings has these bytes.
pub intern-Interned :
    (source : List ℕ) (at : ℕ) (len : ℤ) (names : Names)
    → at + to_ℕ len ≤ length source
    → Interned
        (piece source at (to_ℕ len))
        (to_ℕ len)
        names
        (intern true (some source) at len names)
unfolding intern
intern-Interned source at len names within = elim (Bool-cases (to_ℕ len == 0)) [
  | inl empty ↦ rw (Interned, empty) (refl, inl (ground arith))
  | inr some_bytes ↦
      let name = piece source at (to_ℕ len) in
      let inside : ltb (length source) at ≡ false = ground arith in
      let size : length name ≡ to_ℕ len =
        omega (arith, length-take (to_ℕ len) (drop at source), length-drop at source) in
      elim (Option-cases (search_name name (to_ℕ len) 0 names)) [
        | inr (i, found) ↦
            rw (Interned, some_bytes, inside, found, succ i) (known name (to_ℕ len) names i found)
        | inl unknown ↦
            let none_known = search_name_misses name (to_ℕ len) 0 names size unknown in
            elim (Bool-cases (leb 16384 (length names))) [
              | inl full ↦
                  rw (Interned, some_bytes, inside, unknown, full)
                    (refl, inr (ground arith, none_known))
              | inr room ↦
                  rw (Interned, some_bytes, inside, unknown, room, succ (length names))
                    (added name (to_ℕ len) names none_known)
            ]
      ]
]
