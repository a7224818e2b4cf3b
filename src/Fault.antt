-- ===== src/Fault.antt =====
-- The fault record and the POSIX trampoline of confined blocks (runtime/xiom_runtime.c, 868 to 943 and
-- 1114 to 1310). A block is what it does at each attempt; a fault is a signal with an address, which the
-- handler in place receives. The longjmp to the trampoline is its return with a code.
pub mod Caught
pub mod Exit
pub mod Tests
use stdlib.Base.{
  ℕ, zero, suc, ◌+◌, Bool, true, false, ◌&&◌, ◌||◌, not, Option, none, some, ◌==◌, if◌then◌else◌,
}
use stdlib.Base.Int.{ℤ, pos, negsuc}

-- XiomFaultRecord
pub record FaultRecord : Type 0 where
  pub pending : Bool
  pub active : Bool
  pub acknowledged : Bool
  pub code : ℕ
  pub retried : Bool
  pub os_code : ℕ
  pub pc : ℕ
  pub block_id : ℤ
  pub exit_registered : Bool

-- The handler that `sigaction` put in place last for the three signals.
pub data Handler : Type 0 where
  by_default : Handler
  by_trampoline : Handler
  by_trap : Handler

-- The variables of the trampoline and of the trap, and the fault record.
pub record Confined : Type 0 where
  pub handler : Handler
  pub record_of : FaultRecord
  pub returned : Bool
  pub this_returned : Bool
  pub retried : Bool
  pub allow_retry : Bool
  pub last_result : ℤ
  pub trampoline_installed : Bool
  pub trap_active : Bool
  pub trap_fault : ℕ
  pub trap_installed : Bool
  pub heap_exits : ℕ
  pub page_armed : Bool

-- xiom_fault_note
unfoldable pub fault_note : ℤ → FaultRecord → FaultRecord
fault_note block_id f = if not f.pending then f else record f {
  active = true;
  acknowledged = false;
  block_id = block_id;
  pending = false;
  exit_registered = true;
}

-- xiom_fault_active and xiom_fault_should_exit, which are the same
unfoldable pub fault_active : FaultRecord → Bool
fault_active f = f.active && not f.acknowledged

-- xiom_fault_take
unfoldable pub fault_take : FaultRecord → ℕ × FaultRecord
fault_take f =
    if not (f.active && not f.acknowledged)
    then (0, f)
    else (f.code, record f { acknowledged = true })

-- xiom_fault_ack
abbrev pub fault_ack : FaultRecord → FaultRecord
fault_ack f = record f { acknowledged = true }

-- The status of a program that ends with `status`, once xiom_fault_exit_handler has run if it is
-- registered.
unfoldable pub exit_status : ℕ → FaultRecord → ℕ
exit_status status f = if f.exit_registered && f.active && not f.acknowledged then 70 else status

-- SIGILL, SIGFPE and SIGSEGV, and the fault codes of the handlers
abbrev pub fault_code : ℕ → ℕ
fault_code sig = if sig == 11 then 1 else if sig == 4 then 2 else if sig == 8 then 3 else 6

-- The signals that both installations name; any other keeps its default.
abbrev pub handled : ℕ → Bool
handled sig = (sig == 11) || (sig == 4) || (sig == 8)

-- What one attempt of a block does: it ends with a value, after a `return` statement or not, it faults, or
-- it faults with no stack left, where no handler runs since there is no alternate stack.
pub data Attempt : Type 0 where
  ends : ℤ → Bool → Attempt
  faults : ℕ → ℕ → Attempt
  overflows : Attempt

-- How a call of the trampoline ends: it returns a code, the trap's handler jumps out of it to the trap that is
-- active, with a code, or the fault is not caught and ends the program.
pub data Outcome : Type 0 where
  returns : ℕ → Confined → Outcome
  trapped : ℕ → Confined → Outcome
  crashes : ℕ → Outcome

-- xiom_trap_install_handlers and xiom_trap_enter up to its first return
unfoldable pub trap_enter : Confined → Confined
trap_enter s =
    let s' =
      if s.trap_installed then s else record s { handler = by_trap; trap_installed = true } in
    record s' { trap_active = true; trap_fault = 0 }

-- xiom_trap_leave
unfoldable pub trap_leave : Confined → Confined
trap_leave s = record s { trap_active = false; trap_fault = 0 }

-- The installation at the top of xiom_trampoline_call
unfoldable pub install : Confined → Confined
install s =
    if s.trampoline_installed
    then s
    else record s { handler = by_trampoline; trampoline_installed = true }

-- Whether xiom_trampoline_handler receives a fault of the block, and whether the trap's handler does, which
-- was then installed later.
abbrev pub catches : Handler → ℕ → Bool
catches by_default sig = false
catches by_trampoline sig = handled sig
catches by_trap sig = false

abbrev pub traps : Handler → ℕ → Bool
traps by_default sig = false
traps by_trampoline sig = false
traps by_trap sig = handled sig

-- A fault that the trampoline's handler does not receive: xiom_trap_handler jumps to the active trap, or with
-- none restores the default and raises the signal again.
unfoldable pub uncaught : ℕ → Confined → Outcome
uncaught sig s =
    if traps s.handler sig && s.trap_active
    then trapped (fault_code sig) (record s { trap_fault = fault_code sig })
    else crashes sig

-- The loop of xiom_trampoline_call. `page` is the test whether an address lies in the guard page; none is
-- that the fuel ran out.
unfoldable pub attempts : ℕ → (ℕ → Bool) → (ℕ → Attempt) → Bool → ℕ → Confined → Option Outcome
attempts zero page block saved n s = none
attempts (suc fuel) page block saved n s = elim (block n) [
  | ends value ret ↦
      some (returns 0 (record s { last_result = value; this_returned = ret; returned = saved }))
  | faults sig addr ↦
      let again =
        attempts fuel page block saved (n + 1)
          (record s { retried = true; heap_exits = s.heap_exits + 1; page_armed = false }) in
      if not (catches s.handler sig)
      then some (uncaught sig s)
      else if s.allow_retry && not s.retried && (fault_code sig == 1) && page addr
      then again
      else some (
          returns (fault_code sig) (record s {
            record_of = record s.record_of {
              pending = true;
              code = fault_code sig;
              os_code = sig;
              pc = addr;
              retried = s.retried;
            };
            returned = saved;
          }))
  | overflows ↦ some (crashes 11)
]

-- xiom_trampoline_call, outside any trap
unfoldable pub trampoline_call : (ℕ → Bool) → (ℕ → Attempt) → Confined → Option Outcome
trampoline_call page block s =
    let s' = install s in attempts 2 page block s'.returned 0 (record s' { retried = false })

-- xiom_trampoline_get_result, xiom_trampoline_was_returned, xiom_trampoline_was_retried and
-- xiom_trampoline_set_allow_retry
abbrev pub get_result : Confined → ℤ
get_result s = s.last_result

abbrev pub was_returned : Confined → Bool
was_returned s = s.this_returned

abbrev pub was_retried : Confined → Bool
was_retried s = s.retried

abbrev pub set_allow_retry : Bool → Confined → Confined
set_allow_retry allow s = record s { allow_retry = allow }
