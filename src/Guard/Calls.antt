-- ===== src/Guard/Calls.antt =====
-- The calls of the guard heap: allocation, free, realloc and copy-out (runtime/xiom_runtime.c, 604 to
-- 775).
use stdlib.Base.{
  ℕ, zero, suc, ◌+◌, ◌-◌, ◌*◌, ◌/◌, ◌^◌, Bool, false, ◌&&◌, ◌||◌, not, Option, none, some, List, [],
  ◌∷◌, ltb, leb, ◌==◌, if◌then◌else◌, get_or,
}
use stdlib.Base.Int.{ℤ, pos, negsuc}
use stdlib.Guard.Memory.{Memory, load64, store64, fill}
use stdlib.Guard.Arena.{
  Slab, no_slab, Arena, Thread, Os, magic, write_header, is_some, add_slab, ensure_slab,
}
use stdlib.Guard.Lists.{set_list, bucket, take_free}

-- xiom_alloc: zeroed memory of the main heap.
unfoldable pub plain_alloc : Os → ℕ → Thread → ℕ × Thread
plain_alloc os size s =
    if size == 0
    then (0, s)
    else let p = os.malloc s.tick size in
      if p == 0
      then (0, record s { tick = s.tick + 1 })
      else (p, record s { memory = fill s.memory p size; tick = s.tick + 1 })

-- The payload size rounded up with the header: `(size + 16 + 15) & ~15`.
abbrev pub aligned_size : ℕ → ℕ
aligned_size size = (size + 16 + 15) / 16 * 16

-- The block of `aligned` bytes at `base` is handed out.
abbrev pub hand_out : Thread → ℕ → ℕ → ℕ → Option (ℕ × Thread)
hand_out s base aligned off = some (
  base + 16,
  record s {
    arena = record s.arena { cur_off = off };
    memory = write_header (fill s.memory base aligned) base aligned;
  },
)

abbrev pub current : Arena → Slab
current a = elim a.cur_slab [ none ↦ no_slab | some i ↦ get_or a.slabs i no_slab ]

unfoldable pub bump : ℕ → Thread → Option (ℕ × Thread)
bump aligned s =
    hand_out s ((current s.arena).base + s.arena.cur_off) aligned (s.arena.cur_off + aligned)

unfoldable pub fresh_slab : Os → ℕ → Thread → Option (ℕ × Thread)
fresh_slab os aligned s =
    let need = if ltb s.arena.slab_size aligned then aligned else s.arena.slab_size in
    let (s', ok) = add_slab os need s in
    if not ok
    then some (0, s')
    else if ltb s.arena.slab_size aligned
    then hand_out s' (current s'.arena).base aligned s.arena.slab_size
    else bump aligned s'

-- The part of xiom_guard_alloc behind the free lists. `none` is the overflow of the signed sum
-- `a->cur_off + aligned`, which C leaves undefined.
unfoldable pub place : Os → ℕ → Thread → Option (ℕ × Thread)
place os aligned s =
    let s' = ensure_slab os s in
    if not (is_some s'.arena.cur_slab)
    then fresh_slab os aligned s'
    else if leb (2 ^ 63) (s'.arena.cur_off + aligned)
    then none
    else if ltb s'.arena.slab_size (s'.arena.cur_off + aligned)
    then fresh_slab os aligned s'
    else bump aligned s'

-- xiom_guard_alloc for a positive size.
unfoldable pub alloc_pos : Os → ℕ → Thread → Option (ℕ × Thread)
alloc_pos os size s =
    if ltb (2 ^ 63 - 1 - 31) size
    then some (0, s)
    else if s.arena.active == 0
    then some (plain_alloc os size s)
    else elim (take_free s (aligned_size size)) [
      | none ↦ none
      | some (p, s') ↦ if p == 0 then place os (aligned_size size) s' else some (p, s')
    ]

unfoldable pub alloc : Os → ℤ → Thread → Option (ℕ × Thread)
alloc os (negsuc n) s = some (0, s)
alloc os (pos zero) s = some (0, s)
alloc os (pos (suc n)) s = alloc_pos os (suc n) s

-- xiom_guard_alloc_probe
unfoldable pub alloc_probe : Os → ℤ → Thread → Option (ℕ × Thread)
alloc_probe os size s = elim (alloc os size s) [
  | none ↦ none
  | some (p, s') ↦ some (if p == 0 then 1 else 0, s')
]

-- xiom_guard_arena_contains
abbrev pub in_slab : ℕ → Slab → Bool
in_slab p sl = leb sl.base p && ltb p (sl.base + sl.size)

unfoldable pub any_slab : ℕ → List Slab → Bool
any_slab p [] = false
any_slab p (sl ∷ rest) = in_slab p sl || any_slab p rest

unfoldable pub contains : Arena → ℕ → Bool
unfolding any_slab
contains a p = not (p == 0) && any_slab p a.slabs

-- xiom_guard_free. What is not in the arena goes to `free` of the C library.
unfoldable pub guard_free : ℕ → Thread → Thread
guard_free p s =
    if p == 0
    then s
    else if not (contains s.arena p)
    then s
    else if not (load64 s.memory (p - 16) == magic)
    then s
    else let bytes = load64 s.memory (p - 8) in
      let b = bucket bytes in
      record s {
        arena = record s.arena { free_lists = set_list s.arena.free_lists b p };
        memory = store64 (store64 s.memory (p - 16) 0) p (s.arena.free_lists b);
      }

-- memcpy(dst, src, n)
abbrev pub copy : Memory → ℕ → ℕ → ℕ → Memory
copy m dst src n x = if leb dst x && ltb x (dst + n) then m (src + (x - dst)) else m x

abbrev pub main_realloc : Os → ℕ → ℕ → Thread → Option (ℕ × Thread)
main_realloc os old size s = some (os.realloc s.tick old size, record s { tick = s.tick + 1 })

-- xiom_guard_realloc, for sizes that are not negative.
unfoldable pub guard_realloc : Os → ℕ → ℕ → ℕ → Thread → Option (ℕ × Thread)
guard_realloc os old old_size new_size s =
    if new_size == 0
    then some (0, s)
    else if s.arena.active == 0
    then main_realloc os old new_size s
    else if not (old == 0) && not (contains s.arena old)
    then main_realloc os old new_size s
    else elim (alloc os (pos new_size) s) [
      | none ↦ none
      | some (p, s') ↦
          if p == 0
          then some (0, s')
          else if not (old == 0) && ltb 0 old_size
          then some (
            p,
            record s' {
              memory = copy s'.memory p old (if ltb old_size new_size then old_size else new_size);
            },
          )
          else some (p, s')
    ]

-- xiom_guard_copy_out, for lengths that are not negative.
unfoldable pub copy_out : Os → ℕ → ℕ → Thread → ℕ × Thread
copy_out os src len s =
    if (src == 0) || (len == 0)
    then (0, s)
    else let p = os.malloc s.tick len in
      if p == 0
      then (0, record s { tick = s.tick + 1 })
      else (p, record s { memory = copy s.memory p src len; tick = s.tick + 1 })

-- xiom_guard_copy_out_if_arena, for lengths that are not negative.
unfoldable pub copy_out_if_arena : Os → ℕ → ℕ → ℕ → Thread → ℕ × Thread
copy_out_if_arena os src copy_len alloc_len s =
    if src == 0
    then (0, s)
    else if not (contains s.arena src)
    then (src, s)
    else if alloc_len == 0
    then (0, s)
    else let p = os.malloc s.tick alloc_len in
      if p == 0
      then (0, record s { tick = s.tick + 1 })
      else (p, record s { memory = copy s.memory p src copy_len; tick = s.tick + 1 })
