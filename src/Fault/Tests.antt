-- ===== src/Fault/Tests.antt =====
-- Runs of the fault record and the trampoline (runtime/xiom_runtime.c, 868 to 943 and 1114 to 1310), and the
-- theorems about them at concrete inputs.
use stdlib.Base.{ℕ, zero, suc, ◌≡◌, refl, Bool, true, false, some, ◌==◌}
use stdlib.Base.Int.{pos}
use stdlib.Fault.{
  FaultRecord, by_default, Confined, Attempt, ends, faults, crashes, trap_enter, trap_leave,
  trampoline_call,
}
use stdlib.Fault.Caught.{trap_enter-uncaught}

abbrev no_fault : FaultRecord
no_fault = record {
  pending = false;
  active = false;
  acknowledged = false;
  code = 0;
  retried = false;
  os_code = 0;
  pc = 0;
  block_id = pos 0;
  exit_registered = false;
}

abbrev at_start : Confined
at_start = record {
  handler = by_default;
  record_of = no_fault;
  returned = false;
  this_returned = false;
  retried = false;
  allow_retry = true;
  last_result = pos 0;
  trampoline_installed = false;
  trap_active = false;
  trap_fault = 0;
  trap_installed = false;
  heap_exits = 0;
  page_armed = true;
}

-- A block that touches the guard page at 4096, and then ends.
abbrev touches : ℕ → Attempt
touches zero = faults 11 4096
touches (suc n) = ends (pos 9) false

abbrev in_page : ℕ → Bool
in_page addr = addr == 4096

trap_enter-uncaught_example :
    trampoline_call in_page touches
      (trap_leave (trap_enter (record at_start { trampoline_installed = true })))
    ≡ some (crashes 11)
trap_enter-uncaught_example =
    trap_enter-uncaught in_page touches (record at_start { trampoline_installed = true }) 11 4096
      refl refl refl

abbrev pending_fault : FaultRecord
pending_fault = record no_fault { pending = true; code = 3; os_code = 8 }
