-- ===== src/Fault/Exit.antt =====
-- The exit status of a program that met a fault (runtime/xiom_runtime.c, 885 to 943).
use stdlib.Base.{ℕ, ◌≡◌, refl, true, false}
use stdlib.Base.Int.{ℤ}
use stdlib.Fault.{FaultRecord, fault_note, fault_active, fault_take, exit_status}

-- What noting a pending fault leads to, for the block `b` and a program that ends with `status`.
pub record Noted (b : ℤ) (status : ℕ) (f : FaultRecord) : Type 0 where
  pub shown : fault_active (fault_note b f) ≡ true
  pub fails : exit_status status (fault_note b f) ≡ 70
  pub taken : (fault_take (fault_note b f)).0 ≡ f.code
  pub hidden : fault_active (fault_take (fault_note b f)).1 ≡ false
  pub passes : exit_status status (fault_take (fault_note b f)).1 ≡ status
  pub once : fault_take (fault_take (fault_note b f)).1 ≡ (0, (fault_take (fault_note b f)).1)

-- A pending fault that is noted makes the program end with the status 70, unless it is taken: then the
-- code is given once, the fault is not active any more, and the program ends with its own status; noted
-- again, it changes nothing.
pub fault_note-Noted :
    (b : ℤ) (status : ℕ) (f : FaultRecord)
    → f.pending ≡ true
    → Noted b status f × (fault_note b (fault_note b f) ≡ fault_note b f)
unfolding fault_note fault_active fault_take exit_status
fault_note-Noted b status f h = rw h (
  record { shown = refl; fails = refl; taken = refl; hidden = refl; passes = refl; once = refl },
  refl,
)
