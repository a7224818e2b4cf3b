-- ===== src/Hot/Slots.antt =====
-- Reads and writes of one slot of the table of runtime/xiom_hot_reload.c.
use stdlib.Base.{
  ℕ, zero, suc, ◌<◌, ◌≡◌, refl, ap, ◌≢◌, some, List, [], ◌∷◌, arith, length, get_or, set,
}
use stdlib.Hot.{Slot, empty_slot, slot_index}

pub get_or-set_self :
    (xs : List Slot) (i : ℕ) (s : Slot) → i < length xs → get_or (set xs i s) i empty_slot ≡ s
get_or-set_self [] i s h = elim h [ ]
get_or-set_self (x ∷ xs) zero s h = refl
get_or-set_self (x ∷ xs) (suc i) s h = get_or-set_self xs i s (omega arith)

pub get_or-set_ne :
    (xs : List Slot) (i j : ℕ) (s : Slot)
    → i ≢ j
    → get_or (set xs i s) j empty_slot ≡ get_or xs j empty_slot
get_or-set_ne [] i j s ne = refl
get_or-set_ne (x ∷ xs) zero zero s ne = absurd (ne refl)
get_or-set_ne (x ∷ xs) zero (suc j) s ne = refl
get_or-set_ne (x ∷ xs) (suc i) zero s ne = refl
get_or-set_ne (x ∷ xs) (suc i) (suc j) s ne = get_or-set_ne xs i j s (λ e. ne (ap suc e))

-- An index that passes the bounds check is an index of the table.
pub slot_index-lt : (fn_id i : ℕ) → slot_index fn_id ≡ some i → i < 1024
unfolding slot_index
slot_index-lt fn_id i h = ground arith
