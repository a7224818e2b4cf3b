-- ===== src/Hot/Register.antt =====
-- What `xiom_hot_register` and `xiom_hot_set_ptr` (runtime/xiom_hot_reload.c, 107 to 144) do on every
-- branch.
use stdlib.Base.{
  ℕ, zero, suc, ◌+◌, ◌-◌, ◌%◌, ◌<◌, ◌≡◌, refl, sym, ap, subst, ◌≢◌, ◌⊎◌, Option, none, some, List,
  arith, ltb, ◌==◌, if◌then◌else◌, length, set, Bool-cases, Option-cases, inl, inr, dec_eq,
}
use stdlib.Base.Words.{u64}
use stdlib.Hot.{
  Slot, Table, slot, slot_index, register_loop, register, swap_ptr, set_ptr, get_ptr, get_version,
  hot_name_hash,
}
use stdlib.Hot.Slots.{slot_index-lt, get_or-set_self, get_or-set_ne}

abbrev stored : ℕ → ℕ → Table → Table
stored probe fn t = record t {
  slots = set t.slots probe (record (slot t probe) { ptr = fn; version = 1 });
  ptr_count = t.ptr_count + 1;
}

-- The outcome of registering `fn` from index `idx` on: -1 on a full table, which stays as it is, or
-- the first free slot in probing order, where `fn` is stored with version 1.
abbrev pub Registered : ℕ → ℕ → Table → Option ℕ × Table → Type 0
Registered idx fn t (none, u) = (u ≡ t) × ((i : ℕ) → i < 1024 → (slot t i).ptr ≢ 0)
Registered idx fn t (some p, u) =
    (d : ℕ) × (d < 1024)
    × (p ≡ (idx + d) % 1024)
    × ((slot t p).ptr ≡ 0)
    × ((k : ℕ) → k < d → (slot t ((idx + k) % 1024)).ptr ≢ 0)
    × (u ≡ stored p fn t)

all_taken :
    (idx : ℕ) (t : Table)
    → ((k : ℕ) → k < 1024 → (slot t ((idx + k) % 1024)).ptr ≢ 0)
    → (i : ℕ) → i < 1024
    → (slot t i).ptr ≢ 0
all_taken idx t taken i h =
    let k = (i + 1024 - idx % 1024) % 1024 in
    let at : (idx + k) % 1024 ≡ i = omega arith in
    subst (λ (j : ℕ). (slot t j).ptr ≢ 0) at (taken k (omega arith))

register_loop-Registered :
    (n i idx fn : ℕ) (t : Table)
    → i + n ≡ 1024
    → ((k : ℕ) → k < i → (slot t ((idx + k) % 1024)).ptr ≢ 0)
    → Registered idx fn t (register_loop n i idx fn t)
unfolding register_loop
register_loop-Registered zero i idx fn t e taken =
    (refl, all_taken idx t (λ k h. taken k (omega arith)))
register_loop-Registered (suc n) i idx fn t e taken =
    elim (Bool-cases ((slot t ((idx + i) % 1024)).ptr == 0)) [
      | inl free ↦ rw free (i, omega arith, refl, ground arith, taken, refl)
      | inr full ↦ rw full (
          register_loop-Registered n (i + 1) idx fn t (omega arith) λ k h. elim (dec_eq k i) [
            | yes at ↦
                subst (λ (j : ℕ). (slot t ((idx + j) % 1024)).ptr ≢ 0) (sym at) (ground arith)
            | no before ↦ taken k (omega arith)
          ])
    ]

-- Registration probes from the name's hash upwards, around the end of the table: it takes the first
-- free slot and writes no other, and it fails exactly by finding all 1024 slots taken.
pub register-Registered :
    (name : List ℕ) (fn : ℕ) (t : Table)
    → Registered (hot_name_hash 64 name) fn t (register 64 name fn t)
unfolding register
register-Registered name fn t =
    register_loop-Registered 1024 0 (hot_name_hash 64 name) fn t refl (λ k h. absurd (omega arith))

-- What a swap that returns 1 has done: the index was in bounds, the new pointer was not NULL and no
-- call was running; the slot now has the pointer and the next version, and no other slot changed.
pub record Swapped (fn_id p : ℕ) (t u : Table) : Type 0 where
  pub index : ℕ
  pub in_bounds : slot_index fn_id ≡ some index
  pub given : p ≢ 0
  pub idle : (slot t index).in_flight ≡ 0
  pub got : get_ptr fn_id u ≡ p
  pub newer : get_version fn_id u ≡ u64 (get_version fn_id t + 1)
  pub others : (j : ℕ) → index ≢ j → slot u j ≡ slot t j

-- The table after a swap at the slot `i`.
abbrev swapped_table : ℕ → ℕ → Table → Table
swapped_table i p t =
    let s = slot t i in
    record t {
      slots = set t.slots i (record s { ptr = p; version = u64 (s.version + 1) });
      ptr_count = if s.ptr == 0 then t.ptr_count + 1 else t.ptr_count;
    }

swapped :
    (fn_id p : ℕ) (t : Table) (i : ℕ)
    → slot_index fn_id ≡ some i
    → p ≢ 0
    → (slot t i).in_flight ≡ 0
    → length t.slots ≡ 1024
    → Swapped fn_id p t (swapped_table i p t)
unfolding get_ptr get_version
swapped fn_id p t i e given idle size =
    let s = slot t i in
    let new : Slot = record s { ptr = p; version = u64 (s.version + 1) } in
    let self = get_or-set_self t.slots i new (omega (arith, slot_index-lt fn_id i e)) in
    record {
      index = i;
      in_bounds = e;
      given = given;
      idle = idle;
      got = rw (e, get_ptr) (ap (λ (r : Slot). r.ptr) self);
      newer = rw (e, get_version) (ap (λ (r : Slot). r.version) self);
      others = λ j ne. get_or-set_ne t.slots i j new ne;
    }

-- `xiom_hot_set_ptr` either returns 0 and changes nothing, because the index is out of bounds, the
-- new pointer is NULL or a call is running through the slot, or returns 1 and has swapped the
-- pointer, stepped the version, and left every other slot alone.
pub set_ptr_lem :
    (fn_id p : ℕ) (t : Table)
    → length t.slots ≡ 1024
    → ((set_ptr fn_id p t ≡ (0, t))
        × ((i : ℕ) → slot_index fn_id ≡ some i → p ≢ 0 → 0 < (slot t i).in_flight))
      ⊎ (((set_ptr fn_id p t).0 ≡ 1) × Swapped fn_id p t (set_ptr fn_id p t).1)
unfolding set_ptr swap_ptr get_ptr get_version
set_ptr_lem fn_id p t size = elim (Option-cases (slot_index fn_id)) [
  | inl out ↦ inl (rw (out, set_ptr) refl, λ i e. cc)
  | inr (i, e) ↦ elim (Bool-cases (p == 0)) [
    | inl null ↦ inl (rw (e, null, set_ptr) refl, λ j f ne. ground arith)
    | inr given ↦ elim (Bool-cases (ltb 0 (slot t i).in_flight)) [
      | inl busy ↦ inl (rw (e, given, busy, set_ptr) refl, λ j f ne. ground arith)
      | inr idle ↦ inr (
          rw (e, given, idle, set_ptr)
            (refl, swapped fn_id p t i e (ground arith) (ground arith) size))
    ]
  ]
]
