-- ===== src/Guard/Request.antt =====
-- `xiom_guard_alloc` (runtime/xiom_runtime.c, 604 to 659) when no block waits in the free list.
use stdlib.Base.{
  ℕ, zero, suc, ◌+◌, ◌-◌, ◌^◌, ◌<◌, ◌≡◌, refl, inl, inr, false, none, some, arith, ltb, ◌==◌,
  Bool-cases,
}
use stdlib.Base.Int.{pos}
use stdlib.Guard.Arena.{Thread, Os}
use stdlib.Guard.Lists.{bucket, take_free, scan_large, units}
use stdlib.Guard.Calls.{aligned_size, place, alloc_pos, alloc}
use stdlib.Guard.Place.{OsLaws, IsValid}
use stdlib.Guard.Alloc.{PlaceOutcome}
use stdlib.Guard.Room.{place-PlaceOutcome}

scan_nothing :
    (fuel : ℕ) (s : Thread) (bytes : ℕ) → scan_large (suc fuel) s bytes none 0 ≡ some (0, s)
unfolding scan_large
scan_nothing fuel s bytes = refl

take_free_empty :
    (s : Thread) (bytes : ℕ)
    → s.arena.free_lists (bucket bytes) ≡ 0
    → take_free s bytes ≡ some (0, s)
unfolding take_free scan_large
take_free_empty s bytes e = elim (Bool-cases (ltb (bucket bytes) 64)) [
  | inl small ↦ rw (small, e) refl
  | inr large ↦ rw (large, e) (scan_nothing (units s.arena.slabs) s bytes)
]

alloc_pos_empty :
    (os : Os) (size : ℕ) (s : Thread)
    → size < 2 ^ 63 - 31
    → 0 < s.arena.active
    → s.arena.free_lists (bucket (aligned_size size)) ≡ 0
    → alloc_pos os size s ≡ place os (aligned_size size) s
unfolding alloc_pos
alloc_pos_empty os size s small active empty =
    let fits : ltb (2 ^ 63 - 1 - 31) size ≡ false = ground arith in
    let on : (s.arena.active == 0) ≡ false = ground arith in
    rw (fits, on, take_free_empty s (aligned_size size) empty) refl

-- With a valid arena inside a heap block and no freed block of its bucket, a request of at least one
-- byte that leaves 64 KB below the signed maximum always returns, and leaves the arena valid: either 0
-- with the memory as it was, or a 16-byte-aligned block inside one slab, which no allocation had been
-- given before and no block that is unused afterwards meets, with a live header that records its size,
-- a zeroed payload and no other byte changed.
pub alloc-PlaceOutcome :
    (os : Os) (size : ℕ) (s : Thread)
    → OsLaws os
    → IsValid s.arena
    → 0 < s.arena.active
    → 0 < size
    → size + 65568 < 2 ^ 63
    → s.arena.free_lists (bucket (aligned_size size)) ≡ 0
    → PlaceOutcome (aligned_size size) s (alloc os (pos size) s)
unfolding alloc
alloc-PlaceOutcome os zero s laws v active some_size small empty = absurd (omega arith)
alloc-PlaceOutcome os (suc n) s laws v active some_size small empty =
    rw (alloc_pos_empty os (suc n) s (omega arith) active empty) (
      place-PlaceOutcome os laws (aligned_size (suc n)) (omega arith) (omega arith) (omega arith) s
        v)
