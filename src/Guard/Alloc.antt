-- ===== src/Guard/Alloc.antt =====
-- What `xiom_guard_alloc` (runtime/xiom_runtime.c, 604 to 659) hands out when no free list serves it.
use stdlib.Base.{
  ℕ, zero, suc, ◌+◌, ◌%◌, ◌^◌, ◌≤◌, ◌<◌, ◌≡◌, refl, ap, ◌∙◌, ◌≢◌, ◌⊎◌, inl, inr, Option, none, some,
  List, [], ◌∷◌, arith, length, get_or, dec_eq,
}
use stdlib.Guard.Memory.{
  Memory, load64, store64, fill, Outside, store64-Outside, fill-Outside, fill_inside,
  load64-store64, load64-store64_apart,
}
use stdlib.Guard.Arena.{Slab, no_slab, Arena, Thread, magic, write_header}
use stdlib.Guard.Calls.{current, bump}
use stdlib.Guard.Place.{Disjoint, Fresh, GoodSlabs, IsValid, good_at, Disjoint-sym}

-- The bytes after handing out the block at `base`: a live header, a zeroed payload, nothing else.
pub record Stamped (base aligned : ℕ) (m m' : Memory) : Type 0 where
  pub live : load64 m' base ≡ magic
  pub size : load64 m' (base + 8) ≡ aligned
  pub zeroed : (x : ℕ) → base + 16 ≤ x → x < base + aligned → m' x ≡ 0
  pub others : (x : ℕ) → Outside x base aligned → m' x ≡ m x

pub stamp-Stamped :
    (m : Memory) (base aligned : ℕ)
    → 16 ≤ aligned
    → aligned < 2 ^ 63
    → Stamped base aligned m (write_header (fill m base aligned) base aligned)
stamp-Stamped m base aligned big small =
    let m0 = fill m base aligned in
    let m1 = store64 m0 base magic in
    record {
      live =
          load64-store64_apart m1 (base + 8) base aligned (inl (omega arith))
          ∙ load64-store64 m0 base magic (omega arith);
      size = load64-store64 m1 (base + 8) aligned (omega arith);
      zeroed = λ x lo hi.
          store64-Outside m1 (base + 8) aligned x (inr (omega arith))
          ∙ store64-Outside m0 base magic x (inr (omega arith))
          ∙ fill_inside m base aligned x (omega arith) hi;
      others = λ x out.
          store64-Outside m1 (base + 8) aligned x (omega arith)
          ∙ store64-Outside m0 base magic x (omega arith)
          ∙ fill-Outside m base aligned x out;
    }

-- The block at `base` lies in the `index`-th slab of `a`.
pub record Within (base aligned index : ℕ) (a : Arena) : Type 0 where
  pub index_lt : index < length a.slabs
  pub above : (get_or a.slabs index no_slab).base ≤ base
  pub below :
      base + aligned ≤ (get_or a.slabs index no_slab).base + (get_or a.slabs index no_slab).size

-- No slab of `a` has handed out a byte of the block before: it lies outside the slab, or the slab is
-- the current one and the block lies between its cursor and the slab size.
abbrev pub Unused : ℕ → ℕ → Arena → Type 0
Unused base aligned a =
    (j : ℕ)
    → j < length a.slabs
    → Disjoint (record { base = base; size = aligned }) (get_or a.slabs j no_slab)
      ⊎ ((a.cur_slab ≡ some j)
          × ((get_or a.slabs j no_slab).base + a.cur_off ≤ base)
          × (base + aligned ≤ (get_or a.slabs j no_slab).base + 65536))

-- A pointer `p` handed out by the step from `s` to `u`: no block that is unused after the step meets
-- this one.
pub record Handed (aligned : ℕ) (s u : Thread) (p : ℕ) : Type 0 where
  pub base : ℕ
  pub index : ℕ
  pub payload : p ≡ base + 16
  pub aligned_to : base % 16 ≡ 0
  pub within : Within base aligned index u.arena
  pub unused : Unused base aligned s.arena
  pub guarded : (b n : ℕ) → 0 < n → Unused b n u.arena → (b + n ≤ base) ⊎ (base + aligned ≤ b)
  pub stamped : Stamped base aligned s.memory u.memory

pub Fresh-at :
    (x : Slab) (ys : List Slab) (j : ℕ)
    → Fresh x ys
    → j < length ys
    → Disjoint x (get_or ys j no_slab)
Fresh-at x [] j f h = elim h [ ]
Fresh-at x (y ∷ ys) zero f h = f.0
Fresh-at x (y ∷ ys) (suc j) f h = Fresh-at x ys j f.1 (omega arith)

GoodSlabs-apart :
    (xs : List Slab) (i j : ℕ)
    → GoodSlabs xs
    → i < length xs
    → j < length xs
    → i ≢ j
    → Disjoint (get_or xs i no_slab) (get_or xs j no_slab)
GoodSlabs-apart [] i j g hi hj ne = elim hi [ ]
GoodSlabs-apart (x ∷ xs) zero zero g hi hj ne = absurd (ne refl)
GoodSlabs-apart (x ∷ xs) zero (suc j) g hi hj ne = Fresh-at x xs j g.2 (omega arith)
GoodSlabs-apart (x ∷ xs) (suc i) zero g hi hj ne =
    Disjoint-sym x (get_or xs i no_slab) (Fresh-at x xs i g.2 (omega arith))
GoodSlabs-apart (x ∷ xs) (suc i) (suc j) g hi hj ne =
    GoodSlabs-apart xs i j g.3 (omega arith) (omega arith) (λ e. ne (ap suc e))

-- What an allocation that no free list serves comes to: a refusal that writes no memory, or a block.
-- The arena stays valid either way.
abbrev pub PlaceOutcome : ℕ → Thread → Option (ℕ × Thread) → Type 0
PlaceOutcome aligned s none = ⊥
PlaceOutcome aligned s (some (p, u)) =
    IsValid u.arena × (((p ≡ 0) × (u.memory ≡ s.memory)) ⊎ Handed aligned s u p)

-- A range inside a slab does not meet what the slab does not meet.
apart_inside :
    (x : Slab) (base aligned : ℕ) (y : Slab)
    → Disjoint x y
    → x.base ≤ base
    → base + aligned ≤ x.base + x.size
    → Disjoint (record { base = base; size = aligned }) y
apart_inside x base aligned y (inl h) lo hi = inl (omega arith)
apart_inside x base aligned y (inr h) lo hi = inr (omega arith)

-- A block inside the current slab, at the cursor.
pub bump-PlaceOutcome :
    (aligned i : ℕ) (s : Thread)
    → IsValid s.arena
    → s.arena.cur_slab ≡ some i
    → 16 ≤ aligned
    → aligned % 16 ≡ 0
    → s.arena.cur_off + aligned ≤ 65536
    → PlaceOutcome aligned s (bump aligned s)
unfolding bump
bump-PlaceOutcome aligned i s v e big al fits =
    let cur : current s.arena ≡ get_or s.arena.slabs i no_slab = rw e refl in
    let lt : i < length s.arena.slabs = omega (arith, v.cursor i e) in
    let base = (current s.arena).base + s.arena.cur_off in
    let good = good_at s.arena.slabs i v.slabs lt in
    let basis : (current s.arena).base ≡ (get_or s.arena.slabs i no_slab).base =
      ap (λ (sl : Slab). sl.base) cur in
    (
      record {
        slabs = v.slabs;
        slab_size = v.slab_size;
        cursor = v.cursor;
        off_le = fits;
        off_aligned = omega (arith, v.off_aligned);
      },
      inr record {
        base = base;
        index = i;
        payload = refl;
        aligned_to = omega (arith, basis, good.0, v.off_aligned);
        within = record {
          index_lt = lt;
          above = omega (arith, basis);
          below = omega (arith, basis, good.1);
        };
        unused = λ j hj. elim (dec_eq i j) [
          | yes same ↦ inr (
            e ∙ ap some same,
            omega (arith, basis, ap (λ k. (get_or s.arena.slabs k no_slab).base) same),
            omega (arith, basis, ap (λ k. (get_or s.arena.slabs k no_slab).base) same),
          )
          | no differ ↦ inl (
              apart_inside _ _ aligned _ (GoodSlabs-apart s.arena.slabs i j v.slabs lt hj differ)
                (omega (arith, basis)) (omega (arith, basis, good.1)))
        ];
        guarded = λ b n some_bytes free. elim (free i lt) [
          | inl (inl h) ↦ inl (omega (arith, basis))
          | inl (inr h) ↦ inr (omega (arith, basis, good.1))
          | inr (at, h, k) ↦ inr (omega (arith, basis))
        ];
        stamped = stamp-Stamped s.memory base aligned big (omega arith);
      },
    )
