-- ===== src/Guard/Tests.antt =====
-- Runs of the guard heap (runtime/xiom_runtime.c, 431 to 775), and the theorems about it at concrete
-- inputs.
use stdlib.Base.{ℕ, suc, ◌+◌, ◌*◌, ◌/◌, ◌≤◌, ◌≡◌, refl, ap, inr, true, some, List, [], ◌∷◌, arith}
use stdlib.Base.Int.{pos}
use stdlib.Guard.Memory.{load64, store64}
use stdlib.Guard.Arena.{Slab, Thread, Os, magic, write_header, fresh_arena}
use stdlib.Guard.Calls.{alloc, any_slab, contains, guard_free, guard_realloc}
use stdlib.Guard.Place.{Fresh, OsLaws, IsValid}
use stdlib.Guard.Alloc.{PlaceOutcome}
use stdlib.Guard.Request.{alloc-PlaceOutcome}
use stdlib.Guard.Free.{Live, Outcome, alloc-guard_free}
use stdlib.Guard.Move.{Used, Moved, guard_realloc-Moved}
use stdlib.Guard.Nesting.{enter, exit, depth}

-- A system that maps each slab behind all the others.
unfoldable top : List Slab → ℕ
top [] = 0
top (x ∷ xs) = x.base + x.size + top xs

abbrev behind : Os
behind = record {
  grow_slabs = λ t n. true;
  grow_sizes = λ t n. true;
  mmap = λ t xs n. (top xs / 4096 + 1) * 4096;
  malloc = λ t n. 0;
  realloc = λ t p n. 0;
}

above_all : (xs : List Slab) (b n : ℕ) → top xs ≤ b → Fresh (record { base = b; size = n }) xs
unfolding top
above_all [] b n h = tt
above_all (x ∷ xs) b n h = (inr (omega arith), above_all xs b n (omega arith))

behind-OsLaws : OsLaws behind
behind-OsLaws = record {
  aligned = λ t xs n. omega arith;
  fresh = λ t xs n ne. above_all xs ((top xs / 4096 + 1) * 4096) n (omega arith);
}

-- A thread inside a block, before its first allocation.
abbrev entered : Thread
entered = record {
  arena = record fresh_arena { active = 1 };
  initialized = true;
  memory = λ a. 7;
  tick = 0;
}

entered-IsValid : IsValid entered.arena
entered-IsValid = record {
  slabs = tt;
  slab_size = refl;
  cursor = λ i e. cc;
  off_le = omega arith;
  off_aligned = refl;
}

-- A thread that holds one block of 64 bytes at the start of its slab.
abbrev held : Thread
held = record {
  arena = record fresh_arena {
    active = 1;
    slabs = record { base = 4096; size = 65536 } ∷ [];
    slab_cap = 8;
    cur_slab = some 0;
    cur_off = 64;
  };
  initialized = true;
  memory = write_header (λ a. 5) 4096 64;
  tick = 1;
}

held-IsValid : IsValid held.arena
held-IsValid = record {
  slabs = (refl, omega arith, tt, tt);
  slab_size = refl;
  cursor = λ i e. let at : 0 ≡ i = cc in ap suc at;
  off_le = omega arith;
  off_aligned = refl;
}

held-contains : contains held.arena 4112 ≡ true
unfolding contains any_slab
held-contains = refl

held-magic : load64 held.memory 4096 ≡ magic
unfolding load64 store64
held-magic = refl

held-size : load64 held.memory 4104 ≡ 64
unfolding load64 store64
held-size = refl

held-Live : Live held 4112 64
held-Live = record {
  contained = held-contains;
  header = omega arith;
  magic_word = held-magic;
  size_word = held-size;
  bytes_ge = omega arith;
}

held-Used : Used 4112 40 held.arena
held-Used = record {
  index = 0;
  index_lt = omega arith;
  above = omega arith;
  below = omega arith;
  behind = λ e. omega arith;
}

alloc-PlaceOutcome_example : PlaceOutcome 48 entered (alloc behind (pos 24) entered)
alloc-PlaceOutcome_example =
    alloc-PlaceOutcome behind 24 entered behind-OsLaws entered-IsValid (omega arith) (omega arith)
      (omega arith) refl

alloc-guard_free_example : Outcome 4112 64 held (alloc behind (pos 40) (guard_free 4112 held))
alloc-guard_free_example =
    alloc-guard_free behind held 4112 40 held-Live (omega arith) (omega arith) (omega arith)
      (omega arith)

guard_realloc-Moved_example : Moved 4112 40 100 held (guard_realloc behind 4112 40 100 held)
guard_realloc-Moved_example =
    guard_realloc-Moved behind 4112 40 100 held behind-OsLaws held-IsValid (omega arith)
      (omega arith) held-contains held-Used (omega arith) (omega arith) refl

balanced : depth 1 (enter ∷ exit ∷ []) ≡ some 1
unfolding depth
balanced = refl
