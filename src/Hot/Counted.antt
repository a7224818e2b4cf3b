-- ===== src/Hot/Counted.antt =====
-- `xiom_hot_ptr_count` (runtime/xiom_hot_reload.c) counts the slots that hold a function.
use stdlib.Base.{
  ℕ, zero, suc, ◌+◌, ◌%◌, ◌≤◌, ◌<◌, ◌≡◌, refl, sym, ◌∙◌, ◌≢◌, List, [], ◌∷◌, arith, ltb, ◌==◌,
  if◌then◌else◌, length, length-set, get_or, set, replicate, length-replicate, Bool-cases,
  Option-cases, inl, inr,
}
use stdlib.Hot.{
  Slot, empty_slot, Table, init, slot, slot_index, register_loop, register, swap_ptr, set_ptr,
  enter, leave, hot_name_hash, Call, register_call, set_call, enter_call, leave_call, run,
}
use stdlib.Hot.Slots.{slot_index-lt}

abbrev holds : Slot → ℕ
holds s = if s.ptr == 0 then 0 else 1

-- The number of slots with a function.
pub occupied : List Slot → ℕ
occupied [] = 0
occupied (s ∷ ss) = holds s + occupied ss

pub record IsCounted (t : Table) : Type 0 where
  pub size : length t.slots ≡ 1024
  pub counted : t.ptr_count ≡ occupied t.slots

occupied-set :
    (ss : List Slot) (i : ℕ) (s : Slot)
    → i < length ss
    → occupied (set ss i s) + holds (get_or ss i empty_slot) ≡ occupied ss + holds s
unfolding occupied
occupied-set [] i s h = elim h [ ]
occupied-set (x ∷ ss) zero s h = omega arith
occupied-set (x ∷ ss) (suc i) s h = omega (arith, occupied-set ss i s (omega arith))

occupied-le : (ss : List Slot) → occupied ss ≤ length ss
unfolding occupied
occupied-le [] = omega arith
occupied-le (s ∷ ss) = ground (arith, occupied-le ss)

-- Writing a slot keeps the count if the count moves with what the slot holds.
put-IsCounted :
    (t : Table) (i n : ℕ) (s : Slot)
    → IsCounted t
    → i < 1024
    → n + holds (slot t i) ≡ t.ptr_count + holds s
    → IsCounted (record t { slots = set t.slots i s; ptr_count = n })
put-IsCounted t i n s c h e = record {
  size = length-set t.slots i s ∙ c.size;
  counted = omega (arith, c.counted, occupied-set t.slots i s (omega (arith, c.size)));
}

register_loop-IsCounted :
    (n i idx fn : ℕ) (t : Table) → fn ≢ 0 → IsCounted t → IsCounted (register_loop n i idx fn t).1
unfolding register_loop
register_loop-IsCounted zero i idx fn t ne c = c
register_loop-IsCounted (suc n) i idx fn t ne c =
    let probe = (idx + i) % 1024 in
    elim (Bool-cases ((slot t probe).ptr == 0)) [
      | inl free ↦ rw free (
          put-IsCounted t probe (t.ptr_count + 1)
            (record { ptr = fn; in_flight = (slot t probe).in_flight; version = 1 }) c (omega arith)
            (ground arith))
      | inr taken ↦ rw taken (register_loop-IsCounted n (i + 1) idx fn t ne c)
    ]

swap_ptr-IsCounted :
    (i p : ℕ) (t : Table) → p ≢ 0 → i < 1024 → IsCounted t → IsCounted (swap_ptr i p t).1
unfolding swap_ptr
swap_ptr-IsCounted i p t ne h c = elim (Bool-cases (ltb 0 (slot t i).in_flight)) [
  | inl busy ↦ rw busy c
  | inr idle ↦ rw idle (put-IsCounted t i _ _ c h (ground arith))
]

set_ptr-IsCounted : (fn_id p : ℕ) (t : Table) → IsCounted t → IsCounted (set_ptr fn_id p t).1
unfolding set_ptr
set_ptr-IsCounted fn_id p t c = elim (Option-cases (slot_index fn_id)) [
  | inl out ↦ rw (out, set_ptr) c
  | inr (i, e) ↦ elim (Bool-cases (p == 0)) [
    | inl null ↦ rw (e, null, set_ptr) c
    | inr given ↦
        rw (e, given, set_ptr) (swap_ptr-IsCounted i p t (ground arith) (slot_index-lt fn_id i e) c)
  ]
]

enter-IsCounted : (fn_id : ℕ) (t : Table) → IsCounted t → IsCounted (enter fn_id t).1
unfolding enter
enter-IsCounted fn_id t c = elim (Option-cases (slot_index fn_id)) [
  | inl out ↦ rw (out, enter) c
  | inr (i, e) ↦ rw (e, enter) (put-IsCounted t i t.ptr_count _ c (slot_index-lt fn_id i e) refl)
]

leave-IsCounted : (fn_id : ℕ) (t : Table) → IsCounted t → IsCounted (leave fn_id t)
unfolding leave
leave-IsCounted fn_id t c = elim (Option-cases (slot_index fn_id)) [
  | inl out ↦ rw (out, leave) c
  | inr (i, e) ↦ elim (Bool-cases (ltb 0 (slot t i).in_flight)) [
    | inl busy ↦
        rw (e, busy, leave) (put-IsCounted t i t.ptr_count _ c (slot_index-lt fn_id i e) refl)
    | inr idle ↦ rw (e, idle, leave) c
  ]
]

-- No call registers the NULL function.
abbrev pub NoNull : List Call → Type 0
NoNull [] = Unit {0}
NoNull (register_call name fn ∷ cs) = (fn ≢ 0) × NoNull cs
NoNull (_ ∷ cs) = NoNull cs

run-IsCounted_from : (cs : List Call) (t : Table) → NoNull cs → IsCounted t → IsCounted (run cs t)
unfolding run register
run-IsCounted_from [] t ok c = c
run-IsCounted_from (register_call name fn ∷ cs) t ok c =
    run-IsCounted_from cs _ ok.1
      (register_loop-IsCounted 1024 0 (hot_name_hash 64 name) fn t ok.0 c)
run-IsCounted_from (set_call fn_id p ∷ cs) t ok c =
    run-IsCounted_from cs _ ok (set_ptr-IsCounted fn_id p t c)
run-IsCounted_from (enter_call fn_id ∷ cs) t ok c =
    run-IsCounted_from cs _ ok (enter-IsCounted fn_id t c)
run-IsCounted_from (leave_call fn_id ∷ cs) t ok c =
    run-IsCounted_from cs _ ok (leave-IsCounted fn_id t c)

occupied-replicate : (n : ℕ) → occupied (replicate n empty_slot) ≡ 0
unfolding occupied
occupied-replicate zero = refl
occupied-replicate (suc n) = omega (arith, occupied-replicate n)

init-IsCounted : IsCounted init
unfolding init
init-IsCounted = record {
  size = length-replicate 1024 empty_slot;
  counted = sym (occupied-replicate 1024);
}

-- After any calls on a fresh table, none of which registers NULL, the table has its 1024 slots, the
-- counter is the number of slots that hold a function, and so it is at most 1024.
pub run-IsCounted :
    (cs : List Call) → NoNull cs → IsCounted (run cs init) × ((run cs init).ptr_count ≤ 1024)
run-IsCounted cs ok =
    let c = run-IsCounted_from cs init ok init-IsCounted in
    (c, omega (arith, c.size, c.counted, occupied-le (run cs init).slots))
