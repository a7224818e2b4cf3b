-- ===== src/Process/Argument.antt =====
-- An argument through the quoting and the reading of a command line (runtime/xiom_runtime.c, 5009 to 5080).
use stdlib.Base.{ℕ, ◌≤◌, Option, none, some, List, length}

-- A buffer of at most so many bytes.
abbrev Within : ℕ → Option (List ℕ) → Type 0
Within k none = ⊥
Within k (some out) = length out ≤ k
