-- ===== src/Guard/Lists.antt =====
-- The free lists of the guard heap (runtime/xiom_runtime.c, 562 to 601).
use stdlib.Base.{
  ℕ, zero, suc, ◌+◌, ◌-◌, ◌/◌, ◌%◌, ◌&&◌, Option, none, some, List, [], ◌∷◌, ltb, leb, ◌==◌,
  if◌then◌else◌,
}
use stdlib.Guard.Memory.{Memory, load64, store64, fill}
use stdlib.Guard.Arena.{Slab, Thread, write_header}

-- xiom_guard_bucket
unfoldable pub bucket : ℕ → ℕ
bucket bytes = if leb 16 bytes && leb bytes 1024 && (bytes % 16 == 0) then bytes / 16 else 64

abbrev pub set_list : (ℕ → ℕ) → ℕ → ℕ → ℕ → ℕ
set_list lists b p c = if c == b then p else lists c

-- A block taken from a list: a live header and a zeroed payload.
abbrev pub revive : Memory → ℕ → ℕ → Memory
revive m p bytes = fill (write_header m (p - 16) bytes) p (bytes - 16)

-- The scan of the list of large blocks from the block `p`, whose link is at the address `link`, or
-- is the head of the list for `none`. `none` as the result means that the fuel ran out.
unfoldable pub scan_large : ℕ → Thread → ℕ → Option ℕ → ℕ → Option (ℕ × Thread)
scan_large zero s bytes link p = none
scan_large (suc fuel) s bytes link p =
    let rest = scan_large fuel s bytes (some p) (load64 s.memory p) in
    if p == 0
    then some (0, s)
    else if load64 s.memory (p - 8) == bytes
    then (let after = load64 s.memory p in
        elim link [
          | none ↦ some (
            p,
            record s {
              arena = record s.arena { free_lists = set_list s.arena.free_lists 64 after };
              memory = revive s.memory p bytes;
            },
          )
          | some q ↦ some (p, record s { memory = revive (store64 s.memory q after) p bytes })
        ])
    else rest

-- A list of blocks in the slabs is not longer than the slabs have units of 16 bytes.
abbrev pub units : List Slab → ℕ
units [] = 1
units (sl ∷ rest) = sl.size / 16 + units rest

-- xiom_guard_take_free; the address 0 is NULL.
unfoldable pub take_free : Thread → ℕ → Option (ℕ × Thread)
take_free s bytes =
    let b = bucket bytes in
    let p = s.arena.free_lists b in
    if ltb b 64
    then (if p == 0
        then some (0, s)
        else some (
          p,
          record s {
            arena = record s.arena {
              free_lists = set_list s.arena.free_lists b (load64 s.memory p);
            };
            memory = revive s.memory p bytes;
          },
        ))
    else scan_large (suc (units s.arena.slabs)) s bytes none p
