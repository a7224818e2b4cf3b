-- ===== src/Fault/Caught.antt =====
-- What a confined block can do to its caller (runtime/xiom_runtime.c, 1134 to 1269).
use stdlib.Base.{
  ℕ, suc, ◌+◌, ◌<◌, ◌≡◌, refl, ap, ◌∙◌, ◌⊎◌, inl, inr, Bool, true, false, ◌&&◌, not, Option, none,
  some, ◌==◌, Bool-cases,
}
use stdlib.Base.Int.{ℤ}
use stdlib.Fault.{
  Confined, fault_code, Attempt, ends, faults, Outcome, returns, crashes, trap_enter, trap_leave,
  install, catches, traps, handled, uncaught, overflows, trapped, attempts, trampoline_call,
}

-- An attempt whose fault, if any, is SIGSEGV, SIGILL or SIGFPE, with stack left for a handler.
abbrev pub IsHandled : Attempt → Type 0
IsHandled (ends v r) = Unit {0}
IsHandled (faults sig addr) = handled sig ≡ true
IsHandled overflows = ⊥

-- The value of the `n`-th attempt was stored, and the fault record kept.
pub record Ended (n : ℕ) (block : ℕ → Attempt) (s u : Confined) : Type 0 where
  pub value : ℤ
  pub ret : Bool
  pub ended : block n ≡ ends value ret
  pub stored : u.last_result ≡ value
  pub this_returned : u.this_returned ≡ ret
  pub same : u.record_of ≡ s.record_of

-- The fault of the `n`-th attempt was recorded, and the last result kept.
pub record Faulted (n : ℕ) (block : ℕ → Attempt) (s u : Confined) (code : ℕ) : Type 0 where
  pub sig : ℕ
  pub addr : ℕ
  pub faulted : block n ≡ faults sig addr
  pub code_of : code ≡ fault_code sig
  pub pending : u.record_of.pending ≡ true
  pub recorded : u.record_of.code ≡ code
  pub pc : u.record_of.pc ≡ addr
  pub retried : u.record_of.retried ≡ (n == 1)
  pub same : u.last_result ≡ s.last_result

-- The outcome of a call whose attempts were `n` + 1 in number.
abbrev pub After : ℕ → (ℕ → Attempt) → Confined → ℕ → Confined → Type 0
After n block s code u =
    (u.returned ≡ s.returned)
    × (((code ≡ 0) × Ended n block s u) ⊎ ((0 < code) × Faulted n block s u code))

-- A second attempt was made only because the first touched the guard page, and retries were allowed.
abbrev pub Transient : (ℕ → Bool) → (ℕ → Attempt) → Confined → Type 0
Transient page block s =
    (s.allow_retry ≡ true)
    × ((sig : ℕ) × (addr : ℕ) × (block 0 ≡ faults sig addr)
        × (fault_code sig ≡ 1)
        × (page addr ≡ true))

abbrev pub Contained : (ℕ → Bool) → (ℕ → Attempt) → Confined → Option Outcome → Type 0
Contained page block s none = ⊥
Contained page block s (some (crashes sig)) = ⊥
Contained page block s (some (trapped code u)) = ⊥
Contained page block s (some (returns code u)) =
    After 0 block s code u ⊎ (Transient page block s × After 1 block s code u)

abbrev ended : ℤ → Bool → Bool → Confined → Confined
ended v r saved s = record s { last_result = v; this_returned = r; returned = saved }

abbrev given_up : ℕ → ℕ → Bool → Confined → Confined
given_up sig addr saved s = record s {
  record_of = record s.record_of {
    pending = true;
    code = fault_code sig;
    os_code = sig;
    pc = addr;
    retried = s.retried;
  };
  returned = saved;
}

abbrev retrying : Confined → Confined
retrying s = record s { retried = true; heap_exits = s.heap_exits + 1; page_armed = false }

abbrev may_retry : (ℕ → Bool) → ℕ → ℕ → Confined → Bool
may_retry page sig addr s = s.allow_retry && not s.retried && (fault_code sig == 1) && page addr

module _ (fuel : ℕ) (page : ℕ → Bool) (block : ℕ → Attempt) (saved : Bool) (n : ℕ)
    (s : Confined) where
  attempts-uncaught :
      (sig addr : ℕ)
      → block n ≡ faults sig addr
      → catches s.handler sig ≡ false
      → attempts (suc fuel) page block saved n s ≡ some (uncaught sig s)
  unfolding attempts
  attempts-uncaught sig addr e c = rw (attempts, e, c) refl

no_trap : (sig : ℕ) (s : Confined) → s.trap_active ≡ false → uncaught sig s ≡ crashes sig
unfolding uncaught
no_trap sig s off = elim (Bool-cases (traps s.handler sig)) [
  | inl trap ↦ rw (trap, off) refl
  | inr other ↦ rw other refl
]

attempts_crashes :
    (fuel : ℕ) (page : ℕ → Bool) (block : ℕ → Attempt) (saved : Bool) (n : ℕ) (s : Confined)
    (sig addr : ℕ)
    → block n ≡ faults sig addr
    → catches s.handler sig ≡ false
    → s.trap_active ≡ false
    → attempts (suc fuel) page block saved n s ≡ some (crashes sig)
attempts_crashes fuel page block saved n s sig addr e c off =
    attempts-uncaught fuel page block saved n s sig addr e c ∙ ap some (no_trap sig s off)

-- Each handler is installed once in a thread, so after a first trampoline call the first use of an inline
-- trap takes the signals away: when that trap has been left and the next call of the trampoline comes, with
-- no installation of another thread in between, a block that faults is not contained, and ends the program.
pub trap_enter-uncaught :
    (page : ℕ → Bool) (block : ℕ → Attempt) (s : Confined) (sig addr : ℕ)
    → s.trampoline_installed ≡ true
    → s.trap_installed ≡ false
    → block 0 ≡ faults sig addr
    → trampoline_call page block (trap_leave (trap_enter s)) ≡ some (crashes sig)
unfolding trampoline_call trap_leave trap_enter install uncaught
trap_enter-uncaught page block s sig addr on off e =
    rw (off, on) (attempts_crashes 1 page block _ 0 _ sig addr e refl refl)
