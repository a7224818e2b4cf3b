-- ===== src/Hot/Tests.antt =====
-- Runs of the hot-reload table and state file (runtime/xiom_hot_reload.c), and the theorems about them
-- at concrete inputs.
use stdlib.Base.{
  ℕ, suc, ◌+◌, ◌^◌, ◌<◌, ◌≤◌, ◌≡◌, refl, ap, ◌≢◌, true, some, List, [], ◌∷◌, arith, length,
  replicate, length-replicate,
}
use stdlib.Base.Int.{pos}
use stdlib.Hot.{
  Table, init, slot, slot_index, empty_slot, register, swap_ptr, set_ptr, djb2, hot_name_hash, Call,
  register_call, set_call, enter_call, leave_call, run,
}
use stdlib.Hot.Counted.{IsCounted, run-IsCounted}
use stdlib.Hot.Flight.{run-Held}
use stdlib.Hot.Register.{Registered, register-Registered}
use stdlib.Hot.Saved.{Disk, hot_layout_hash, fnv1a, save_state, restore_state}
use stdlib.Hot.Saved.Trip.{restore_state-save_state}

abbrev name : List ℕ
name = 109 ∷ 97 ∷ 105 ∷ 110 ∷ []

-- A table with one function that is being called.
abbrev busy : Table
busy = record {
  slots = (record { ptr = 7; in_flight = 1; version = 1 }) ∷ replicate 1023 empty_slot;
  ptr_count = 1;
  generation = 0;
}

busy-size : length busy.slots ≡ 1024
busy-size = ap suc (length-replicate 1023 empty_slot)

hashes : hot_name_hash 64 name ≡ 874
unfolding hot_name_hash djb2
hashes = refl

-- An id beyond the `int` range passes the bounds check as another index.
wraps_index : slot_index (2 ^ 32 + 5) ≡ some 5
unfolding slot_index
wraps_index = refl

refuses : (set_ptr 0 9 busy).0 ≡ 0
unfolding set_ptr swap_ptr slot_index
refuses = refl

abbrev calls : List Call
calls = register_call name 7 ∷ enter_call 874 ∷ set_call 874 9 ∷ leave_call 874 ∷ []

run-IsCounted_example : IsCounted (run calls init) × ((run calls init).ptr_count ≤ 1024)
run-IsCounted_example = run-IsCounted calls (λ e. cc, tt)

run-Held_example :
    ((slot (run (set_call 0 9 ∷ []) busy) 0).ptr ≡ 7)
    × (0 < (slot (run (set_call 0 9 ∷ []) busy) 0).in_flight)
run-Held_example = run-Held (set_call 0 9 ∷ []) 0 busy busy-size (λ e. cc) (omega arith)

register-Registered_example : Registered (hot_name_hash 64 name) 7 busy (register 64 name 7 busy)
register-Registered_example = register-Registered name 7 busy

abbrev newer : ℕ
newer = 9

abbrev disk : Disk
disk = record { opens = true; room = 64 }

abbrev layout : List ℕ
layout = 97 ∷ 58 ∷ 105 ∷ 59 ∷ []

abbrev state : List ℕ
state = 1 ∷ 2 ∷ 3 ∷ []

restore_state-save_state_example :
    ((save_state disk layout (some state) 3).0 ≡ pos 0)
    × (restore_state (save_state disk layout (some state) 3).1 layout 2 ≡ (pos 0, 1 ∷ 2 ∷ []))
restore_state-save_state_example =
    restore_state-save_state disk layout state 2 refl (omega arith) (omega arith)

layout_ne_empty : hot_layout_hash layout ≢ hot_layout_hash []
unfolding hot_layout_hash fnv1a
layout_ne_empty e = omega arith
