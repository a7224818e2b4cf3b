-- ===== src/Hot.antt =====
-- runtime/xiom_hot_reload.c, lines 45 to 195: the table of function pointers behind hot reload.
pub mod Slots
pub mod Counted
pub mod Flight
pub mod Register
pub mod Hash
pub mod Saved
pub mod Tests
use stdlib.Base.{
  ℕ, zero, suc, ◌+◌, ◌-◌, ◌*◌, ◌%◌, ◌^◌, Bool, true, false, ◌||◌, Option, none, some, List, [], ◌∷◌,
  ltb, leb, ◌==◌, if◌then◌else◌, get_or, set, replicate,
}
use stdlib.Base.Words.{u64, ◌<<<◌}

-- XIOM_HOT_MAX_FUNCTIONS
abbrev pub max_functions : ℕ
max_functions = 1024

-- One index of `xiom_hot_ptr_table` (0 is NULL) and of `slot_meta`.
pub record Slot : Type 0 where
  pub ptr : ℕ
  pub in_flight : ℕ
  pub version : ℕ

abbrev pub empty_slot : Slot
empty_slot = record { ptr = 0; in_flight = 0; version = 0 }

pub record Table : Type 0 where
  pub slots : List Slot
  pub ptr_count : ℕ
  pub generation : ℕ

-- xiom_hot_init
unfoldable pub init : Table
init = record { slots = replicate max_functions empty_slot; ptr_count = 0; generation = 0 }

abbrev pub slot : Table → ℕ → Slot
slot t i = get_or t.slots i empty_slot

abbrev pub put_slot : Table → ℕ → Slot → Table
put_slot t i s = record t { slots = set t.slots i s }

-- `int idx = (int)fn_id; if (idx < 0 || idx >= XIOM_HOT_MAX_FUNCTIONS) …`: the cast keeps the low
-- 32 bits, and the int is negative if the highest of them is set.
unfoldable pub slot_index : ℕ → Option ℕ
slot_index fn_id =
    let idx = fn_id % 2 ^ 32 in if leb (2 ^ 31) idx || leb max_functions idx then none else some idx

-- hot_name_hash over `const char*` bytes, which are signed, with an `unsigned long` of `w` bits.
unfoldable pub djb2 : (w : ℕ) → ℕ → List ℕ → ℕ
djb2 w hash [] = hash
djb2 w hash (c ∷ name) =
    let extended = if ltb c 128 then c else c + 2 ^ w - 256 in
    djb2 w ((((hash <<< 5) % 2 ^ w + hash) % 2 ^ w + extended) % 2 ^ w) name

unfoldable pub hot_name_hash : (w : ℕ) → List ℕ → ℕ
hot_name_hash w name = djb2 w 5381 name % max_functions

-- The probing loop of xiom_hot_register from round `i`, with `n` rounds left; `none` is -1.
unfoldable pub register_loop : ℕ → ℕ → ℕ → ℕ → Table → Option ℕ × Table
register_loop zero i idx fn t = (none, t)
register_loop (suc n) i idx fn t =
    let probe = (idx + i) % max_functions in
    let rest = register_loop n (i + 1) idx fn t in
    let s = slot t probe in
    if s.ptr == 0
    then (
      some probe,
      record t {
        slots = set t.slots probe (record s { ptr = fn; version = 1 });
        ptr_count = t.ptr_count + 1;
      },
    )
    else rest

unfoldable pub register : (w : ℕ) → List ℕ → ℕ → Table → Option ℕ × Table
register w name fn t = register_loop max_functions 0 (hot_name_hash w name) fn t

-- xiom_hot_set_ptr: the swap at one slot, then the function with its guards.
unfoldable pub swap_ptr : ℕ → ℕ → Table → ℕ × Table
swap_ptr i new_ptr t =
    let s = slot t i in
    if ltb 0 s.in_flight then (0, t) else (
      1,
      record t {
        slots = set t.slots i (record s { ptr = new_ptr; version = u64 (s.version + 1) });
        ptr_count = if s.ptr == 0 then t.ptr_count + 1 else t.ptr_count;
      },
    )

unfoldable pub set_ptr : ℕ → ℕ → Table → ℕ × Table
set_ptr fn_id new_ptr t = elim (slot_index fn_id) [
  | none ↦ (0, t)
  | some i ↦ if new_ptr == 0 then (0, t) else swap_ptr i new_ptr t
]

-- `in_flight` is an int in the source; a nesting of 2 ^ 31 calls, at which it would overflow, is not
-- modelled.
unfoldable pub enter : ℕ → Table → ℕ × Table
enter fn_id t = elim (slot_index fn_id) [
  | none ↦ (0, t)
  | some i ↦ let s = slot t i in (s.ptr, put_slot t i (record s { in_flight = s.in_flight + 1 }))
]

unfoldable pub leave : ℕ → Table → Table
leave fn_id t = elim (slot_index fn_id) [
  | none ↦ t
  | some i ↦
      let s = slot t i in
      if ltb 0 s.in_flight then put_slot t i (record s { in_flight = s.in_flight - 1 }) else t
]

unfoldable pub get_ptr : ℕ → Table → ℕ
get_ptr fn_id t = elim (slot_index fn_id) [ none ↦ 0 | some i ↦ (slot t i).ptr ]

unfoldable pub get_version : ℕ → Table → ℕ
get_version fn_id t = elim (slot_index fn_id) [ none ↦ 0 | some i ↦ (slot t i).version ]

unfoldable pub is_stale : ℕ → ℕ → Table → ℕ
is_stale fn_id known t = elim (slot_index fn_id) [
  | none ↦ 0
  | some i ↦ if ltb known (slot t i).version then 1 else 0
]

-- The calls that change the table, for sequences of them.
pub data Call : Type 0 where
  register_call : (name : List ℕ) → (fn : ℕ) → Call
  set_call : (fn_id new_ptr : ℕ) → Call
  enter_call : (fn_id : ℕ) → Call
  leave_call : (fn_id : ℕ) → Call

unfoldable pub after : Call → Table → Table
after (register_call name fn) t = (register 64 name fn t).1
after (set_call fn_id new_ptr) t = (set_ptr fn_id new_ptr t).1
after (enter_call fn_id) t = (enter fn_id t).1
after (leave_call fn_id) t = leave fn_id t

unfoldable pub run : List Call → Table → Table
unfolding after
run [] t = t
run (c ∷ cs) t = run cs (after c t)
