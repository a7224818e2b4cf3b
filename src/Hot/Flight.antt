-- ===== src/Hot/Flight.antt =====
-- A function that is being called through its slot (`xiom_hot_enter` without its `xiom_hot_leave` in
-- runtime/xiom_hot_reload.c) is not replaced.
use stdlib.Base.{
  ℕ, zero, suc, ◌+◌, ◌-◌, ◌%◌, ◌≤◌, ◌<◌, ◌≡◌, refl, sym, ap, ◌∙◌, subst, ◌≢◌, none, some, List, [],
  ◌∷◌, arith, ltb, ◌==◌, if◌then◌else◌, length, length-set, set, Bool-cases, Option-cases, inl, inr,
  dec_eq,
}
use stdlib.Hot.{
  Slot, Table, slot, slot_index, register_loop, register, swap_ptr, set_ptr, enter, leave,
  hot_name_hash, Call, register_call, set_call, enter_call, leave_call, after, run,
}
use stdlib.Hot.Slots.{slot_index-lt, get_or-set_self, get_or-set_ne}

-- From `t` to `u` the slot `i`, if it is in use, keeps its function, and at most `n` calls leave it.
record Held (i n : ℕ) (t u : Table) : Type 0 where
  size : length u.slots ≡ length t.slots
  same_ptr : (slot t i).ptr ≢ 0 → 0 < (slot t i).in_flight → (slot u i).ptr ≡ (slot t i).ptr
  flights : (slot t i).in_flight ≤ (slot u i).in_flight + n

Held-refl : (i n : ℕ) (t : Table) → Held i n t t
Held-refl i n t = record { size = refl; same_ptr = λ p q. refl; flights = omega arith }

-- A write at the slot `j` of a slot that keeps the function of one in use, and whose count of calls
-- falls by no more than `n` if `j` is `i`.
put_at-Held :
    (n j c : ℕ) (t : Table) (s : Slot)
    → j < length t.slots
    → ((slot t j).ptr ≢ 0 → 0 < (slot t j).in_flight → s.ptr ≡ (slot t j).ptr)
    → (slot t j).in_flight ≤ s.in_flight + n
    → Held j n t (record t { slots = set t.slots j s; ptr_count = c })
put_at-Held n j c t s h keep fly =
    let self = get_or-set_self t.slots j s h in
    record {
      size = length-set t.slots j s;
      same_ptr = λ p q. ap (λ (r : Slot). r.ptr) self ∙ keep p q;
      flights = rw self fly;
    }

put-Held :
    (i n j c : ℕ) (t : Table) (s : Slot)
    → j < length t.slots
    → ((slot t j).ptr ≢ 0 → 0 < (slot t j).in_flight → s.ptr ≡ (slot t j).ptr)
    → (j ≡ i → (slot t j).in_flight ≤ s.in_flight + n)
    → Held i n t (record t { slots = set t.slots j s; ptr_count = c })
put-Held i n j c t s h keep fly = elim (dec_eq j i) [
  | yes e ↦
      subst (λ k. Held k n t (record t { slots = set t.slots j s; ptr_count = c })) e
        (put_at-Held n j c t s h keep (fly e))
  | no ne ↦
      let other = get_or-set_ne t.slots j i s ne in
      record {
        size = length-set t.slots j s;
        same_ptr = λ p q. ap (λ (r : Slot). r.ptr) other;
        flights = rw other (omega arith);
      }
]

module _ (i : ℕ) (t : Table) (size : length t.slots ≡ 1024) where
  register_loop-Held : (n round idx fn : ℕ) → Held i 0 t (register_loop n round idx fn t).1
  unfolding register_loop
  register_loop-Held zero round idx fn = Held-refl i 0 t
  register_loop-Held (suc n) round idx fn =
      let probe = (idx + round) % 1024 in
      let s = slot t probe in
      elim (Bool-cases (s.ptr == 0)) [
        | inl free ↦ rw free (
            put-Held i 0 probe (t.ptr_count + 1) t (record s { ptr = fn; version = 1 })
              (omega arith) (λ p. ground arith) (λ e. omega arith))
        | inr taken ↦ rw taken (register_loop-Held n (round + 1) idx fn)
      ]

  set_ptr-Held : (fn_id p : ℕ) → Held i 0 t (set_ptr fn_id p t).1
  unfolding set_ptr swap_ptr
  set_ptr-Held fn_id p = elim (Option-cases (slot_index fn_id)) [
    | inl out ↦ rw (out, set_ptr) (Held-refl i 0 t)
    | inr (j, e) ↦ elim (Bool-cases (p == 0)) [
      | inl null ↦ rw (e, null, set_ptr) (Held-refl i 0 t)
      | inr given ↦ elim (Bool-cases (ltb 0 (slot t j).in_flight)) [
        | inl busy ↦ rw (e, given, busy, set_ptr) (Held-refl i 0 t)
        | inr idle ↦
            rw (e, given, idle, set_ptr)
              (put-Held i 0 j _ t _ (omega (arith, slot_index-lt fn_id j e)) (λ p q. ground arith)
                (λ e. omega arith))
      ]
    ]
  ]

  enter-Held : (fn_id : ℕ) → Held i 0 t (enter fn_id t).1
  unfolding enter
  enter-Held fn_id = elim (Option-cases (slot_index fn_id)) [
    | inl out ↦ rw (out, enter) (Held-refl i 0 t)
    | inr (j, e) ↦
        rw (e, enter)
          (put-Held i 0 j t.ptr_count t _ (omega (arith, slot_index-lt fn_id j e)) (λ p q. refl)
            (λ e. omega arith))
  ]

-- 1 if the call leaves the slot `i`.
abbrev pub departs : ℕ → Call → ℕ
departs i (leave_call fn_id) = elim (slot_index fn_id) [
  | none ↦ 0
  | some j ↦ if j == i then 1 else 0
]
departs i _ = 0

-- How often a sequence of calls leaves the slot `i`.
abbrev pub departures : ℕ → List Call → ℕ
departures i [] = 0
departures i (c ∷ cs) = departs i c + departures i cs

leave-Held :
    (i : ℕ) (t : Table) (fn_id : ℕ)
    → length t.slots ≡ 1024
    → Held i (departs i (leave_call fn_id)) t (leave fn_id t)
unfolding leave
leave-Held i t fn_id size = elim (Option-cases (slot_index fn_id)) [
  | inl out ↦ rw (out, leave) (Held-refl i _ t)
  | inr (j, e) ↦ elim (Bool-cases (ltb 0 (slot t j).in_flight)) [
    | inl busy ↦
        rw (e, busy, leave)
          (put-Held i (departs i (leave_call fn_id)) j t.ptr_count t
            (record (slot t j) { in_flight = (slot t j).in_flight - 1 })
            (omega (arith, slot_index-lt fn_id j e)) (λ p q. refl) (λ same. ground arith))
    | inr idle ↦ rw (e, idle, leave) (Held-refl i _ t)
  ]
]

after-Held :
    (i : ℕ) (t : Table) (c : Call) → length t.slots ≡ 1024 → Held i (departs i c) t (after c t)
unfolding after register
after-Held i t (register_call name fn) size =
    register_loop-Held i t size 1024 0 (hot_name_hash 64 name) fn
after-Held i t (set_call fn_id p) size = set_ptr-Held i t size fn_id p
after-Held i t (enter_call fn_id) size = enter-Held i t size fn_id
after-Held i t (leave_call fn_id) size = leave-Held i t fn_id size

-- A slot that holds a function and is in use keeps that function through any sequence of calls that
-- leaves the slot less often than it has been entered: no `xiom_hot_set_ptr` and no registration
-- replaces it, and it is still in use at the end.
pub run-Held :
    (cs : List Call) (i : ℕ) (t : Table)
    → length t.slots ≡ 1024
    → (slot t i).ptr ≢ 0
    → departures i cs < (slot t i).in_flight
    → ((slot (run cs t) i).ptr ≡ (slot t i).ptr) × (0 < (slot (run cs t) i).in_flight)
unfolding run
run-Held [] i t size full busy = (refl, omega arith)
run-Held (c ∷ cs) i t size full busy =
    let h = after-Held i t c size in
    let same = h.same_ptr full (omega arith) in
    let rest =
      run-Held cs i (after c t) (h.size ∙ size) (λ z. full (sym same ∙ z))
        (omega (arith, h.flights)) in
    (rest.0 ∙ same, rest.1)
