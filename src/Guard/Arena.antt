-- ===== src/Guard/Arena.antt =====
-- The state of the guard heap and its slabs (runtime/xiom_runtime.c, 431 to 560).
use stdlib.Base.{
  ℕ, ◌+◌, ◌-◌, ◌*◌, Bool, true, false, ◌&&◌, not, Option, none, some, List, [], ◌∷◌, ◌++◌, ltb,
  ◌==◌, if◌then◌else◌, length,
}
use stdlib.Guard.Memory.{Memory, store64}

-- A slab: what `slabs[i]` and `slab_sizes[i]` hold.
pub record Slab : Type 0 where
  pub base : ℕ
  pub size : ℕ

abbrev pub no_slab : Slab
no_slab = record { base = 0; size = 0 }

-- XiomGuardArena. `slab_count` is the length of `slabs`, `cur_slab` is `none` for -1, and the array of
-- free lists is a function of the bucket, with 0 for NULL.
pub record Arena : Type 0 where
  pub slabs : List Slab
  pub slab_cap : ℕ
  pub cur_slab : Option ℕ
  pub cur_off : ℕ
  pub slab_size : ℕ
  pub active : ℕ
  pub free_lists : ℕ → ℕ

-- One thread: its arena (`xiom_guard_arena` and `xiom_guard_initialized`), the memory, and the number
-- of calls made so far to what is outside the program.
pub record Thread : Type 0 where
  pub arena : Arena
  pub initialized : Bool
  pub memory : Memory
  pub tick : ℕ

-- What the arena asks of the C library and the system, by the number of the call: whether `realloc`
-- gives the two parallel arrays the new capacity, the address that `mmap` returns for a size beside
-- the slabs that are mapped, the addresses that `malloc` and `realloc` return; 0 is a failure.
pub record Os : Type 0 where
  pub grow_slabs : ℕ → ℕ → Bool
  pub grow_sizes : ℕ → ℕ → Bool
  pub mmap : ℕ → List Slab → ℕ → ℕ
  pub malloc : ℕ → ℕ → ℕ
  pub realloc : ℕ → ℕ → ℕ → ℕ

abbrev pub slab_bytes : ℕ
slab_bytes = 65536

abbrev pub header_size : ℕ
header_size = 16

-- XIOM_GUARD_MAGIC
abbrev pub magic : ℕ
magic = 0x5849414D47554152

-- The writes of the header of the block at `base`.
abbrev pub write_header : Memory → ℕ → ℕ → Memory
write_header m base bytes = store64 (store64 m base magic) (base + 8) bytes

-- xiom_guard_heap_enter
abbrev pub fresh_arena : Arena
fresh_arena = record {
  slabs = [];
  slab_cap = 0;
  cur_slab = none;
  cur_off = 0;
  slab_size = slab_bytes;
  active = 0;
  free_lists = λ b. 0;
}

unfoldable pub heap_enter : Thread → Thread
heap_enter s =
    let a = if s.initialized then s.arena else fresh_arena in
    record s { arena = record a { active = a.active + 1 }; initialized = true }

-- xiom_guard_heap_exit, with the slabs that it unmaps.
abbrev pub emptied : Arena → Arena
emptied a = record a { slabs = []; slab_cap = 0; cur_slab = none; cur_off = 0; free_lists = λ b. 0 }

unfoldable pub heap_exit : Thread → Thread × List Slab
heap_exit s =
    let active = s.arena.active - 1 in
    if ltb 0 active
    then (record s { arena = record s.arena { active = active } }, [])
    else (record s { arena = emptied (record s.arena { active = active }) }, s.arena.slabs)

-- A new slab of `need` bytes becomes the current one; `false` is each of the early returns.
unfoldable pub push_slab : Os → ℕ → Thread → Thread × Bool
push_slab os need s =
    let a = s.arena in
    let p = os.mmap s.tick a.slabs need in
    if p == 0 then (record s { tick = s.tick + 1 }, false) else (
      record s {
        arena = record a {
          slabs = a.slabs ++ (record { base = p; size = need } ∷ []);
          cur_slab = some (length a.slabs);
          cur_off = 0;
        };
        tick = s.tick + 1;
      },
      true,
    )

unfoldable pub add_slab : Os → ℕ → Thread → Thread × Bool
add_slab os need s =
    let a = s.arena in
    let cap = if a.slab_cap == 0 then 8 else a.slab_cap * 2 in
    if ltb (length a.slabs) a.slab_cap
    then push_slab os need s
    else if not (os.grow_slabs s.tick cap)
    then (record s { tick = s.tick + 1 }, false)
    else if not (os.grow_sizes (s.tick + 1) cap)
    then (record s { tick = s.tick + 2 }, false)
    else push_slab os need (record s { arena = record a { slab_cap = cap }; tick = s.tick + 2 })

abbrev pub is_some : Option ℕ → Bool
is_some none = false
is_some (some n) = true

-- xiom_guard_ensure_slab
unfoldable pub ensure_slab : Os → Thread → Thread
ensure_slab os s =
    if is_some s.arena.cur_slab && ltb s.arena.cur_off s.arena.slab_size
    then s
    else (add_slab os s.arena.slab_size s).0
