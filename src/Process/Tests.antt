-- ===== src/Process/Tests.antt =====
-- Runs of the handle table and of the quoting of Windows (runtime/xiom_runtime.c, 4860 to 5080), and the theorems about them
-- at concrete inputs.
use stdlib.Base.{
  ℕ, ◌+◌, ◌*◌, ◌≡◌, refl, ◌⊎◌, Bool, true, false, some, List, [], ◌∷◌, ◌++◌, arith, ◌==◌,
}
use stdlib.Base.Keyed.{swap_out}
use stdlib.Process.{
  Processes, wait_raw, wait_handle, track_take, process_kill, process_running, track_add,
}
use stdlib.Process.Handles.{
  Call, spawned, waited, killed, asked, call, calls, given, kept, closings, calls-balanced,
}
use stdlib.Process.Adds.{slashes}
use stdlib.Process.Quoting.{
  space, quote, backslash, put_byte, put_times, put_pairs, quoted, needs_quotes, has_special,
  win_quote_arg,
}
use stdlib.Process.Unquoted.{Follows, blank}

abbrev no_processes : Processes
no_processes = record { table = []; closed = [] }

-- A process that is asked about and waited for, one that is killed and never waited for, and one of another program.
abbrev some_calls : List Call
some_calls =
    spawned 100 7
    ∷ spawned 101 9
    ∷ asked 259 100 7 (some 259)
    ∷ killed 101 9 true
    ∷ waited 100 7 true (some 3)
    ∷ waited 100 7 true (some 3)
    ∷ []

-- The handle 7 was given twice, by the spawn and by the second wait, and is closed twice.
closed_twice : closings 7 (calls some_calls no_processes).closed ≡ 2
unfolding call wait_raw wait_handle track_take process_kill process_running track_add swap_out
closed_twice = refl

calls-balanced_example :
    kept 7 (calls some_calls no_processes) + closings 7 (calls some_calls no_processes).closed
    ≡ kept 7 no_processes + closings 7 no_processes.closed + given 7 some_calls no_processes
calls-balanced_example = calls-balanced 7 (omega arith) some_calls no_processes

-- A parser with the documented rules.
data Line : Bool → List ℕ → List ℕ → Type 0 where
  into : (rest arg : List ℕ) → Line true rest arg → Line false (quote ∷ rest) arg
  out_of :
      (m : ℕ) (rest : List ℕ)
      → Follows rest
      → Line true (slashes (2 * m) ++ (quote ∷ rest)) (slashes m)
  escaped :
      (q : Bool) (m : ℕ) (rest arg : List ℕ)
      → Line q rest arg
      → Line q (slashes (2 * m + 1) ++ (quote ∷ rest)) (slashes m ++ (quote ∷ arg))
  as_is :
      (q : Bool) (m c : ℕ) (rest arg : List ℕ)
      → (c == quote) ≡ false
      → (c == backslash) ≡ false
      → (q ≡ true) ⊎ (blank c ≡ false)
      → Line q rest arg
      → Line q (slashes m ++ (c ∷ rest)) (slashes m ++ (c ∷ arg))
  stops : (m : ℕ) (rest : List ℕ) → Follows rest → Line false (slashes m ++ rest) (slashes m)

-- `a\" b\`
abbrev some_arg : List ℕ
some_arg = 97 ∷ backslash ∷ quote ∷ space ∷ 98 ∷ backslash ∷ []

some_arg_quoted :
    win_quote_arg 15 some_arg []
    ≡ some (
        quote ∷ 97 ∷ backslash ∷ backslash ∷ backslash ∷ quote ∷ space ∷ 98 ∷ backslash ∷ backslash
        ∷ quote ∷ [])
unfolding win_quote_arg needs_quotes has_special quoted put_byte put_times put_pairs
some_arg_quoted = refl
