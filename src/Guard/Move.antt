-- ===== src/Guard/Move.antt =====
-- Growing a block of the guard heap (runtime/xiom_runtime.c, 749 to 772).
use stdlib.Base.{
  ℕ, zero, suc, ◌+◌, ◌-◌, ◌^◌, ◌≤◌, ◌<◌, ◌≡◌, refl, sym, subst, ◌⊎◌, inl, inr, true, false, ◌&&◌,
  not, Option, none, some, arith, ltb, leb, ◌==◌, if◌then◌else◌, length, get_or,
}
use stdlib.Base.Int.{pos}
use stdlib.Guard.Arena.{no_slab, Arena, Thread, Os}
use stdlib.Guard.Lists.{bucket}
use stdlib.Guard.Calls.{aligned_size, alloc, contains, copy, guard_realloc}
use stdlib.Guard.Place.{OsLaws, IsValid}
use stdlib.Guard.Alloc.{Unused, Handed, PlaceOutcome}
use stdlib.Guard.Request.{alloc-PlaceOutcome}

-- The `n` bytes at `p` lie in a slab, below the cursor if that is the current one.
pub record Used (p n : ℕ) (a : Arena) : Type 0 where
  pub index : ℕ
  pub index_lt : index < length a.slabs
  pub above : (get_or a.slabs index no_slab).base ≤ p
  pub below : p + n ≤ (get_or a.slabs index no_slab).base + (get_or a.slabs index no_slab).size
  pub behind : a.cur_slab ≡ some index → p + n ≤ (get_or a.slabs index no_slab).base + a.cur_off

-- A block in use does not meet one that was never handed out.
apart :
    (p n base aligned : ℕ) (a : Arena)
    → Used p n a
    → Unused base aligned a
    → (p + n ≤ base) ⊎ (base + aligned ≤ p)
apart p n base aligned a old new = elim (new old.index old.index_lt) [
  | inl (inl h) ↦ inr (omega (arith, old.above))
  | inl (inr h) ↦ inl (omega (arith, old.below))
  | inr (at, h, k) ↦ inl (omega (arith, old.behind at))
]

abbrev least : ℕ → ℕ → ℕ
least m n = if ltb m n then m else n

-- The outcome of a move of `m` bytes from `p` to a block for `n` bytes.
abbrev pub Moved : ℕ → ℕ → ℕ → Thread → Option (ℕ × Thread) → Type 0
Moved p m n s none = ⊥
Moved p m n s (some (q, u)) =
    ((q ≡ 0) × (u.memory ≡ s.memory))
    ⊎ (((k : ℕ) → k < m → k < n → u.memory (q + k) ≡ s.memory (p + k))
        × ((k : ℕ) → m ≤ k → k < n → u.memory (q + k) ≡ 0)
        × ((x : ℕ) → (x + 16 < q) ⊎ (q + aligned_size n ≤ x + 16) → u.memory x ≡ s.memory x))

copied :
    (s u : Thread) (p m n q : ℕ)
    → Used p m s.arena
    → Handed (aligned_size n) s u q
    → Moved p m n s (some (q, record u { memory = copy u.memory q p (least m n) }))
copied s u p m n q old h = inr (
  λ k hm hn.
      let inside : (leb q (q + k) && ltb (q + k) (q + least m n)) ≡ true = ground arith in
      let shift : p + (q + k - q) ≡ p + k = omega arith in
      let far = apart p m h.base (aligned_size n) s.arena old h.unused in
      rw (inside, shift) (h.stamped.others (p + k) (omega (arith, far))),
  λ k hm hn.
      let outside : (leb q (q + k) && ltb (q + k) (q + least m n)) ≡ false = ground arith in
      rw outside (h.stamped.zeroed (q + k) (omega (arith, h.payload)) (omega (arith, h.payload))),
  λ x far.
      let outside : (leb q x && ltb x (q + least m n)) ≡ false = ground arith in
      rw outside (h.stamped.others x (omega (arith, far, h.payload))),
)

uncopied : (s u : Thread) (p n q : ℕ) → Handed (aligned_size n) s u q → Moved p 0 n s (some (q, u))
uncopied s u p n q h = inr (
  λ k hm hn. absurd (omega arith),
  λ k hm hn. h.stamped.zeroed (q + k) (omega (arith, h.payload)) (omega (arith, h.payload)),
  λ x far. h.stamped.others x (omega (arith, far, h.payload)),
)

-- The rest of `xiom_guard_realloc` behind its allocation.
filled : ℕ → ℕ → ℕ → Option (ℕ × Thread) → Option (ℕ × Thread)
filled p m n none = none
filled p m n (some (q, u)) =
    if q == 0
    then some (0, u)
    else if not (p == 0) && ltb 0 m
    then some (q, record u { memory = copy u.memory q p (least m n) })
    else some (q, u)

filled-Moved :
    (s : Thread) (p m n : ℕ) (r : Option (ℕ × Thread))
    → 0 < p
    → Used p m s.arena
    → PlaceOutcome (aligned_size n) s r
    → Moved p m n s (filled p m n r)
unfolding filled
filled-Moved s p m n none nonzero old o = o
filled-Moved s p m n (some (q, u)) nonzero old (v, inl (z, same)) =
    let none_got : (q == 0) ≡ true = ground arith in rw none_got (inl (refl, same))
filled-Moved s p zero n (some (q, u)) nonzero old (v, inr h) =
    let got : (q == 0) ≡ false = ground (arith, h.payload) in
    let start : (p == 0) ≡ false = ground arith in rw (got, start) (uncopied s u p n q h)
filled-Moved s p (suc m) n (some (q, u)) nonzero old (v, inr h) =
    let got : (q == 0) ≡ false = ground (arith, h.payload) in
    let start : (p == 0) ≡ false = ground arith in
    let some_bytes : ltb 0 (suc m) ≡ true = ground arith in
    rw (got, start, some_bytes) (copied s u p (suc m) n q old h)

-- The block behind the allocation, as the definition writes it.
abbrev behind_alloc : ℕ → ℕ → ℕ → Option (ℕ × Thread) → Option (ℕ × Thread)
behind_alloc p m n r = elim r [
  | none ↦ none
  | some (q, u) ↦
      if q == 0
      then some (0, u)
      else if not (p == 0) && ltb 0 m
      then some (q, record u { memory = copy u.memory q p (least m n) })
      else some (q, u)
]

by_filled : (p m n : ℕ) (r : Option (ℕ × Thread)) → behind_alloc p m n r ≡ filled p m n r
unfolding filled
by_filled p m n none = refl
by_filled p m n (some (q, u)) = refl

-- Growing or shrinking a block of the arena that is in use, with the old size that the caller passes,
-- keeps its bytes: when the arena is valid and active, no freed block of the new bucket waits, and the new
-- size is at least 1 and leaves 64 KB below the signed maximum, the call returns, either 0 with the memory
-- as it was, or a pointer whose first bytes are those of the old block, up to the smaller of the sizes,
-- and whose bytes beyond the old size are zero; no byte outside the new block with its header has changed.
pub guard_realloc-Moved :
    (os : Os) (p m n : ℕ) (s : Thread)
    → OsLaws os
    → IsValid s.arena
    → 0 < s.arena.active
    → 0 < p
    → contains s.arena p ≡ true
    → Used p m s.arena
    → 0 < n
    → n + 65568 < 2 ^ 63
    → s.arena.free_lists (bucket (aligned_size n)) ≡ 0
    → Moved p m n s (guard_realloc os p m n s)
unfolding guard_realloc
guard_realloc-Moved os p m n s laws v active nonzero inside old positive small empty =
    let sized : (n == 0) ≡ false = ground arith in
    let on : (s.arena.active == 0) ≡ false = ground arith in
    let start : (p == 0) ≡ false = ground arith in
    rw (sized, on, inside, start)
      (subst (Moved p m n s) (sym (by_filled p m n (alloc os (pos n) s))) (
        filled-Moved s p m n (alloc os (pos n) s) nonzero old
          (alloc-PlaceOutcome os n s laws v active positive small empty)))
