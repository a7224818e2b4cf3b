-- ===== src/Spawn.antt =====
-- The table of spawned threads (runtime/xiom_runtime.c, 7132 to 7317). The spawn lock is held through each
-- search and update of the table, so each is one step. Thread creation, join and detach of the system are
-- outside: a call takes the system's handle of the new thread, 0 for a failure, and says which handle
-- it joins or detaches.
pub mod Claimed
pub mod Places
pub mod Tests
use stdlib.Base.{
  ℕ, zero, suc, ◌+◌, Bool, true, false, ◌&&◌, not, Option, none, some, List, [], ◌∷◌, ◌==◌,
  if◌then◌else◌, get_or, set, replicate,
}
use stdlib.Base.Int.{ℤ, pos, negsuc}

-- xiom_spawn_slot_t
pub record Entry : Type 0 where
  pub id : ℕ
  pub active : Bool
  pub os_handle : ℕ

abbrev pub vacant : Entry
vacant = record { id = 0; active = false; os_handle = 0 }

-- xiom_spawn_table and xiom_spawn_next_id
pub record Spawned : Type 0 where
  pub entries : List Entry
  pub next_id : ℕ

-- xiom_spawn_table_init
abbrev pub empty_table : Spawned
empty_table = record { entries = replicate 256 vacant; next_id = 1 }

abbrev pub at_most_suc : Option ℕ → Option ℕ
at_most_suc none = none
at_most_suc (some i) = some (suc i)

-- The search for a free slot, and for the active slot of a thread.
unfoldable pub free_slot : List Entry → Option ℕ
free_slot [] = none
free_slot (e ∷ es) = if not e.active then some 0 else at_most_suc (free_slot es)

unfoldable pub find_slot : ℕ → List Entry → Option ℕ
find_slot id [] = none
find_slot id (e ∷ es) = if e.active && (e.id == id) then some 0 else at_most_suc (find_slot id es)

-- What a spawn has done with the new thread: the handle it returns, 0 for NULL, whether it detached the
-- thread, and whether it freed the payload of the trampoline.
pub record Launch : Type 0 where
  pub handle : ℕ
  pub detached : Bool
  pub freed : Bool
  pub table : Spawned

-- The part that the three spawns share.
unfoldable pub claim : (payload : Bool) → ℕ → Spawned → Launch
claim payload th t = elim (free_slot t.entries) [
  | none ↦ record { handle = 0; detached = true; freed = payload; table = t }
  | some slot ↦ record {
    handle = t.next_id;
    detached = false;
    freed = false;
    table = record {
      entries = set t.entries slot (record { id = t.next_id; active = true; os_handle = th });
      next_id = t.next_id + 1;
    };
  }
]

abbrev pub no_thread : Bool → Spawned → Launch
no_thread payload t = record { handle = 0; detached = false; freed = payload; table = t }

-- xiom_thread_spawn
abbrev pub spawn : ℕ → Spawned → Launch
spawn th t = if th == 0 then no_thread false t else claim false th t

-- xiom_thread_spawn_with_result
abbrev pub spawn_with_result : ℕ → Spawned → Launch
spawn_with_result th t = if th == 0 then no_thread true t else claim true th t

-- xiom_thread_spawn_with_arg; `memory` says whether malloc gives the payload.
abbrev pub spawn_with_arg : (memory : Bool) → ℕ → Spawned → Launch
spawn_with_arg memory th t =
    if not memory then no_thread false t else if th == 0 then no_thread true t else claim true th t

-- The search and the release of a slot, which join and detach share: the system's handle, `none` when
-- there is no such thread.
unfoldable pub release : ℕ → Spawned → Option ℕ × Spawned
release id t = elim (find_slot id t.entries) [
  | none ↦ (none, t)
  | some slot ↦
      let e = get_or t.entries slot vacant in
      (some e.os_handle, record t { entries = set t.entries slot (record e { active = false }) })
]

-- xiom_thread_spawn_join and xiom_thread_spawn_detach up to the system's call; without a handle the join
-- returns -1.
unfoldable pub spawn_join : ℤ → Spawned → Option ℕ × Spawned
spawn_join (negsuc n) t = (none, t)
spawn_join (pos zero) t = (none, t)
spawn_join (pos (suc n)) t = release (suc n) t

unfoldable pub spawn_detach : ℤ → Spawned → Option ℕ × Spawned
spawn_detach (negsuc n) t = (none, t)
spawn_detach (pos zero) t = (none, t)
spawn_detach (pos (suc n)) t = release (suc n) t

-- xiom_thread_spawn_id
abbrev pub spawn_id : ℤ → ℤ
spawn_id handle = handle

-- xiom_task_trampoline and xiom_task_arg_trampoline: the words of the result buffer, the done flag first.
abbrev pub task_trampoline : ℕ → ℕ × ℕ
task_trampoline result = (1, result)

abbrev pub task_arg_trampoline : Option (ℕ × ℕ) → Option (ℕ × ℕ)
task_arg_trampoline none = none
task_arg_trampoline (some buffer) = some (1, 0)
