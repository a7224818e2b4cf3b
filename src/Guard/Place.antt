-- ===== src/Guard/Place.antt =====
-- Placing a block that no free list holds (runtime/xiom_runtime.c, 501 to 520 and 618 to 658).
use stdlib.Base.{
  ℕ, zero, suc, ◌+◌, ◌*◌, ◌%◌, ◌≤◌, ◌<◌, ◌≡◌, refl, sym, ap, ◌∙◌, ◌≢◌, ◌⊎◌, inl, inr, Bool, true,
  false, some, List, [], ◌∷◌, ◌++◌, arith, ltb, ◌==◌, if◌then◌else◌, length, get_or, length-append,
  Bool-cases,
}
use stdlib.Guard.Arena.{Slab, no_slab, Arena, Thread, Os, push_slab, add_slab}

-- Two slabs do not overlap.
abbrev pub Disjoint : Slab → Slab → Type 0
Disjoint x y = (x.base + x.size ≤ y.base) ⊎ (y.base + y.size ≤ x.base)

-- A range does not overlap any of the slabs.
abbrev pub Fresh : Slab → List Slab → Type 0
Fresh x [] = Unit {0}
Fresh x (y ∷ ys) = Disjoint x y × Fresh x ys

-- What POSIX says of `mmap` without an address hint: the result is page-aligned, and the new mapping
-- overlaps none that exists.
pub record OsLaws (os : Os) : Type 0 where
  pub aligned : (tick : ℕ) (slabs : List Slab) (n : ℕ) → os.mmap tick slabs n % 4096 ≡ 0
  pub fresh :
      (tick : ℕ) (slabs : List Slab) (n : ℕ)
      → os.mmap tick slabs n ≢ 0
      → Fresh (record { base = os.mmap tick slabs n; size = n }) slabs

-- Each slab is aligned, has at least 64 KB, and overlaps none that came before it.
abbrev pub GoodSlabs : List Slab → Type 0
GoodSlabs [] = Unit {0}
GoodSlabs (x ∷ xs) = (x.base % 16 ≡ 0) × (65536 ≤ x.size) × Fresh x xs × GoodSlabs xs

-- The current slab is the last, and the cursor is aligned and stays inside it.
pub record IsValid (a : Arena) : Type 0 where
  pub slabs : GoodSlabs a.slabs
  pub slab_size : a.slab_size ≡ 65536
  pub cursor : (i : ℕ) → a.cur_slab ≡ some i → length a.slabs ≡ suc i
  pub off_le : a.cur_off ≤ 65536
  pub off_aligned : a.cur_off % 16 ≡ 0

Fresh-append :
    (x : Slab) (ys : List Slab) (y : Slab) → Fresh x ys → Disjoint x y → Fresh x (ys ++ (y ∷ []))
Fresh-append x [] y f d = (d, tt)
Fresh-append x (z ∷ ys) y f d = (f.0, Fresh-append x ys y f.1 d)

pub Disjoint-sym : (x y : Slab) → Disjoint x y → Disjoint y x
Disjoint-sym x y (inl h) = inr h
Disjoint-sym x y (inr h) = inl h

GoodSlabs-append :
    (xs : List Slab) (y : Slab)
    → GoodSlabs xs
    → y.base % 16 ≡ 0
    → 65536 ≤ y.size
    → Fresh y xs
    → GoodSlabs (xs ++ (y ∷ []))
GoodSlabs-append [] y g al big f = (al, big, tt, tt)
GoodSlabs-append (x ∷ xs) y g al big f =
    (g.0, g.1, Fresh-append x xs y g.2 (Disjoint-sym y x f.0), GoodSlabs-append xs y g.3 al big f.1)

pub get_or-last : (xs : List Slab) (y : Slab) → get_or (xs ++ (y ∷ [])) (length xs) no_slab ≡ y
get_or-last [] y = refl
get_or-last (x ∷ xs) y = get_or-last xs y

pub good_at :
    (xs : List Slab) (i : ℕ)
    → GoodSlabs xs
    → i < length xs
    → ((get_or xs i no_slab).base % 16 ≡ 0) × (65536 ≤ (get_or xs i no_slab).size)
good_at [] i g h = elim h [ ]
good_at (x ∷ xs) zero g h = (g.0, g.1)
good_at (x ∷ xs) (suc i) g h = good_at xs i g.3 (omega arith)

-- What an attempt to add a slab of `need` bytes comes to.
pub record Added (need : ℕ) (s u : Thread) : Type 0 where
  pub base : ℕ
  pub slabs : u.arena.slabs ≡ s.arena.slabs ++ (record { base = base; size = need } ∷ [])
  pub cur_slab : u.arena.cur_slab ≡ some (length s.arena.slabs)
  pub cur_off : u.arena.cur_off ≡ 0
  pub slab_size : u.arena.slab_size ≡ s.arena.slab_size
  pub memory : u.memory ≡ s.memory
  pub is_aligned : base % 16 ≡ 0
  pub is_fresh : Fresh (record { base = base; size = need }) s.arena.slabs

pub record Same (s u : Thread) : Type 0 where
  pub slabs : u.arena.slabs ≡ s.arena.slabs
  pub cur_slab : u.arena.cur_slab ≡ s.arena.cur_slab
  pub cur_off : u.arena.cur_off ≡ s.arena.cur_off
  pub slab_size : u.arena.slab_size ≡ s.arena.slab_size
  pub memory : u.memory ≡ s.memory

abbrev pub AddOutcome : ℕ → Thread → Thread × Bool → Type 0
AddOutcome need s (u, false) = Same s u
AddOutcome need s (u, true) = Added need s u

abbrev wider : Thread → ℕ
wider s = if s.arena.slab_cap == 0 then 8 else s.arena.slab_cap * 2

Same-but : (s u : Thread) → u.arena ≡ s.arena → u.memory ≡ s.memory → Same s u
Same-but s u e m = record {
  slabs = ap (λ (a : Arena). a.slabs) e;
  cur_slab = ap (λ (a : Arena). a.cur_slab) e;
  cur_off = ap (λ (a : Arena). a.cur_off) e;
  slab_size = ap (λ (a : Arena). a.slab_size) e;
  memory = m;
}

-- A larger capacity of the arrays makes no difference to the outcome.
widened :
    (need : ℕ) (s : Thread) (cap tick : ℕ) (r : Thread × Bool)
    → AddOutcome need (record s { arena = record s.arena { slab_cap = cap }; tick = tick }) r
    → AddOutcome need s r
widened need s cap tick (u, false) h = record {
  slabs = h.slabs;
  cur_slab = h.cur_slab;
  cur_off = h.cur_off;
  slab_size = h.slab_size;
  memory = h.memory;
}
widened need s cap tick (u, true) h = record {
  base = h.base;
  slabs = h.slabs;
  cur_slab = h.cur_slab;
  cur_off = h.cur_off;
  slab_size = h.slab_size;
  memory = h.memory;
  is_aligned = h.is_aligned;
  is_fresh = h.is_fresh;
}

module _ (os : Os) (laws : OsLaws os) where
  push_slab-AddOutcome : (need : ℕ) (s : Thread) → AddOutcome need s (push_slab os need s)
  unfolding push_slab
  push_slab-AddOutcome need s = elim (Bool-cases (os.mmap s.tick s.arena.slabs need == 0)) [
    | inl failed ↦
        rw failed (record {
          slabs = refl;
          cur_slab = refl;
          cur_off = refl;
          slab_size = refl;
          memory = refl;
        })
    | inr got ↦ rw got (record {
      base = os.mmap s.tick s.arena.slabs need;
      slabs = refl;
      cur_slab = refl;
      cur_off = refl;
      slab_size = refl;
      memory = refl;
      is_aligned = omega (arith, laws.aligned s.tick s.arena.slabs need);
      is_fresh = laws.fresh s.tick s.arena.slabs need (ground arith);
    })
  ]

  pub add_slab-AddOutcome : (need : ℕ) (s : Thread) → AddOutcome need s (add_slab os need s)
  unfolding add_slab
  add_slab-AddOutcome need s = elim (Bool-cases (ltb (length s.arena.slabs) s.arena.slab_cap)) [
    | inl room ↦ rw room (push_slab-AddOutcome need s)
    | inr full ↦ elim (Bool-cases (os.grow_slabs s.tick (wider s))) [
      | inr failed ↦ rw (full, failed) (Same-but s _ refl refl)
      | inl grown ↦ elim (Bool-cases (os.grow_sizes (s.tick + 1) (wider s))) [
        | inr failed ↦ rw (full, grown, failed) (Same-but s _ refl refl)
        | inl grown' ↦
            rw (full, grown, grown')
              (widened need s (wider s) (s.tick + 2) _ (
                push_slab-AddOutcome need
                  (record s { arena = record s.arena { slab_cap = wider s }; tick = s.tick + 2 })))
      ]
    ]
  ]

pub Added-IsValid :
    (need : ℕ) (s u : Thread) → 65536 ≤ need → IsValid s.arena → Added need s u → IsValid u.arena
Added-IsValid need s u big v h = record {
  slabs = rw (h.slabs) (GoodSlabs-append s.arena.slabs _ v.slabs h.is_aligned big h.is_fresh);
  slab_size = h.slab_size ∙ v.slab_size;
  cursor = λ i e.
      let len =
        ap length h.slabs
        ∙ length-append s.arena.slabs (record { base = h.base; size = need } ∷ []) in
      let at : some (length s.arena.slabs) ≡ some i = sym h.cur_slab ∙ e in
      let eq : length s.arena.slabs ≡ i = cc in omega (arith, len, eq);
  off_le = omega (arith, h.cur_off);
  off_aligned = omega (arith, h.cur_off);
}

pub Same-IsValid : (s u : Thread) → IsValid s.arena → Same s u → IsValid u.arena
Same-IsValid s u v h = record {
  slabs = rw (h.slabs) v.slabs;
  slab_size = h.slab_size ∙ v.slab_size;
  cursor = λ i e. ap length h.slabs ∙ v.cursor i (sym h.cur_slab ∙ e);
  off_le = omega (arith, h.cur_off, v.off_le);
  off_aligned = omega (arith, h.cur_off, v.off_aligned);
}
