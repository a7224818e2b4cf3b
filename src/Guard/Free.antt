-- ===== src/Guard/Free.antt =====
-- Freeing a block of the guard heap and allocating again (runtime/xiom_runtime.c, 562 to 601 and 728 to
-- 742).
use stdlib.Base.{
  ℕ, zero, suc, ◌+◌, ◌-◌, ◌%◌, ◌^◌, ◌≤◌, ◌<◌, ◌≡◌, refl, sym, ap, ◌∙◌, inl, inr, true, false,
  Option, none, some, arith, ltb, ◌==◌, if◌then◌else◌, Bool-cases,
}
use stdlib.Base.Int.{pos}
use stdlib.Guard.Memory.{
  Memory, load64, store64, fill, Outside, store64-Outside, fill-Outside, fill_inside,
  load64-store64, load64-store64_apart, load64-fill_apart,
}
use stdlib.Guard.Arena.{Arena, Thread, Os, magic}
use stdlib.Guard.Lists.{bucket, set_list, take_free}
use stdlib.Guard.Calls.{aligned_size, alloc_pos, alloc, contains, guard_free}

-- `p` is a live block of the arena of `bytes` bytes with its header.
pub record Live (s : Thread) (p bytes : ℕ) : Type 0 where
  pub contained : contains s.arena p ≡ true
  pub header : 16 ≤ p
  pub magic_word : load64 s.memory (p - 16) ≡ magic
  pub size_word : load64 s.memory (p - 8) ≡ bytes
  pub bytes_ge : 32 ≤ bytes

-- What the free of a live block comes to.
abbrev freed : ℕ → ℕ → Thread → Thread
freed p bytes s = record s {
  arena = record s.arena { free_lists = set_list s.arena.free_lists (bucket bytes) p };
  memory = store64 (store64 s.memory (p - 16) 0) p (s.arena.free_lists (bucket bytes));
}

guard_free-Live : (s : Thread) (p bytes : ℕ) → Live s p bytes → guard_free p s ≡ freed p bytes s
unfolding guard_free
guard_free-Live s p bytes l =
    let nonzero : (p == 0) ≡ false = ground (arith, l.header) in
    rw (nonzero, l.contained, l.magic_word, l.size_word) refl

-- The word of the header is gone after a free.
erased :
    (m : Memory) (p link : ℕ) → 16 ≤ p → load64 (store64 (store64 m (p - 16) 0) p link) (p - 16) ≡ 0
erased m p link h =
    load64-store64_apart (store64 m (p - 16) 0) p (p - 16) link (inl (omega arith))
    ∙ load64-store64 m (p - 16) 0 (omega arith)

guard_free_dead :
    (s : Thread) (p : ℕ)
    → 16 ≤ p
    → contains s.arena p ≡ true
    → load64 s.memory (p - 16) ≡ 0
    → guard_free p s ≡ s
unfolding guard_free
guard_free_dead s p h c e = let nonzero : (p == 0) ≡ false = ground arith in rw (nonzero, c, e) refl

contains_slabs :
    (a : Arena) (lists : ℕ → ℕ) (p : ℕ)
    → contains (record a { free_lists = lists }) p ≡ contains a p
unfolding contains
contains_slabs a lists p = refl

-- Freeing a live block a second time changes nothing: the first free erased the word that the check of
-- the header reads.
pub guard_free_twice :
    (s : Thread) (p bytes : ℕ) → Live s p bytes → guard_free p (guard_free p s) ≡ guard_free p s
guard_free_twice s p bytes l = rw (guard_free-Live s p bytes l) (
    guard_free_dead (freed p bytes s) p l.header (contains_slabs s.arena _ p ∙ l.contained)
      (erased s.memory p _ l.header))

bucket-lt : (bytes : ℕ) → 16 ≤ bytes → bytes ≤ 1008 → bytes % 16 ≡ 0 → bucket bytes < 64
unfolding bucket
bucket-lt bytes lo hi al = ground arith

-- What an allocation that takes the freed block `p` back leaves.
pub record Reused (p bytes : ℕ) (s u : Thread) : Type 0 where
  pub slabs : u.arena.slabs ≡ s.arena.slabs
  pub cur_off : u.arena.cur_off ≡ s.arena.cur_off
  pub lists : (b : ℕ) → u.arena.free_lists b ≡ s.arena.free_lists b
  pub live : load64 u.memory (p - 16) ≡ magic
  pub size : load64 u.memory (p - 8) ≡ bytes
  pub zeroed : (x : ℕ) → p ≤ x → x < p + (bytes - 16) → u.memory x ≡ 0
  pub others : (x : ℕ) → Outside x (p - 16) bytes → u.memory x ≡ s.memory x

abbrev pub Outcome : ℕ → ℕ → Thread → Option (ℕ × Thread) → Type 0
Outcome p bytes s none = ⊥
Outcome p bytes s (some (q, u)) = (q ≡ p) × Reused p bytes s u

set_list_back : (lists : ℕ → ℕ) (b p c : ℕ) → set_list (set_list lists b p) b (lists b) c ≡ lists c
set_list_back lists b p c = elim (Bool-cases (c == b)) [
  | inl same ↦ let at : c ≡ b = ground arith in rw same (ap lists (sym at))
  | inr differ ↦ rw differ refl
]

take_free-freed :
    (s : Thread) (p bytes : ℕ)
    → 16 ≤ p
    → 32 ≤ bytes
    → bytes < 2 ^ 64
    → bucket bytes < 64
    → s.arena.free_lists (bucket bytes) < 2 ^ 64
    → Outcome p bytes s (take_free (freed p bytes s) bytes)
unfolding take_free
take_free-freed s p bytes hp hb wide small link =
    let in_range : ltb (bucket bytes) 64 ≡ true = ground arith in
    let head : set_list s.arena.free_lists (bucket bytes) p (bucket bytes) ≡ p = ground arith in
    let nonzero : (p == 0) ≡ false = ground arith in
    let m0 = store64 s.memory (p - 16) 0 in
    let m1 = store64 m0 p (s.arena.free_lists (bucket bytes)) in
    let m2 = store64 m1 (p - 16) magic in
    let m3 = store64 m2 (p - 16 + 8) bytes in
    let second : p - 16 + 8 ≡ p - 8 = omega arith in
    rw (in_range, head, nonzero)
      (
        refl,
        record {
          slabs = refl;
          cur_off = refl;
          lists = λ b.
              ap (λ v. set_list (set_list s.arena.free_lists (bucket bytes) p) (bucket bytes) v b)
                (load64-store64 m0 p _ link)
              ∙ set_list_back s.arena.free_lists (bucket bytes) p b;
          live =
              load64-fill_apart m3 p (bytes - 16) (p - 16) (inl (omega arith))
              ∙ load64-store64_apart m2 (p - 16 + 8) (p - 16) bytes (inl (omega arith))
              ∙ load64-store64 m1 (p - 16) magic (omega arith);
          size =
              ap (load64 (fill m3 p (bytes - 16))) (sym second)
              ∙ load64-fill_apart m3 p (bytes - 16) (p - 16 + 8) (inl (omega arith))
              ∙ load64-store64 m2 (p - 16 + 8) bytes wide;
          zeroed = λ x lo hi. fill_inside m3 p (bytes - 16) x lo hi;
          others = λ x out.
              fill-Outside m3 p (bytes - 16) x (omega arith)
              ∙ store64-Outside m2 (p - 16 + 8) bytes x (omega arith)
              ∙ store64-Outside m1 (p - 16) magic x (omega arith)
              ∙ store64-Outside m0 p _ x (omega arith)
              ∙ store64-Outside s.memory (p - 16) 0 x (omega arith);
        },
      )

-- The rest of the allocation keeps a block that the free list gave.
taken :
    (os : Os) (p bytes : ℕ) (s : Thread) (r : Option (ℕ × Thread))
    → 16 ≤ p
    → Outcome p bytes s r
    → (place' : Thread → Option (ℕ × Thread))
    → Outcome p bytes s
        (elim r [ none ↦ none | some (q, u) ↦ if q == 0 then place' u else some (q, u) ])
taken os p bytes s none h o place' = o
taken os p bytes s (some (q, u)) h o place' =
    let nonzero : (q == 0) ≡ false = ground (arith, o.0) in rw nonzero o

-- Freeing a live block and asking for a payload of the same rounded size, which is at most 1008 bytes with
-- the header, gives the same block back inside an active arena: the slabs, the cursor and every free list
-- are as before the free, the header is live again, the payload is zero, and no byte outside the block
-- has changed.
pub alloc-guard_free :
    (os : Os) (s : Thread) (p size : ℕ)
    → Live s p (aligned_size size)
    → 0 < s.arena.active
    → 0 < size
    → aligned_size size ≤ 1008
    → s.arena.free_lists (bucket (aligned_size size)) < 2 ^ 64
    → Outcome p (aligned_size size) s (alloc os (pos size) (guard_free p s))
unfolding alloc alloc_pos
alloc-guard_free os s p zero l active positive small link = absurd (omega arith)
alloc-guard_free os s p (suc n) l active positive small link =
    let fits : ltb (2 ^ 63 - 1 - 31) (suc n) ≡ false = ground arith in
    let on : (s.arena.active == 0) ≡ false = ground arith in
    rw (guard_free-Live s p (aligned_size (suc n)) l, fits, on)
      (taken os p (aligned_size (suc n)) s _ l.header
        (take_free-freed s p (aligned_size (suc n)) l.header l.bytes_ge (omega arith)
          (bucket-lt (aligned_size (suc n)) (omega arith) small (omega arith)) link)
        _)
