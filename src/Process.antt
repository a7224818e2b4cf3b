-- ===== src/Process.antt =====
-- The processes that Windows keeps handles of (runtime/xiom_runtime.c, 4860 to 5008): the table of handles, and the calls
-- that kill, wait for and ask about a process. What the system answers to a call is an argument; a handle of 0 is NULL.
pub mod Adds
pub mod Argument
pub mod Handles
pub mod Quoting
pub mod Tests
pub mod Unquoted
use stdlib.Base.{
  ℕ, zero, suc, ◌+◌, ◌-◌, ◌^◌, Bool, true, false, Option, none, some, List, [], ◌∷◌, ◌++◌, ltb,
  ◌==◌, if◌then◌else◌, length,
}
use stdlib.Base.Int.{ℤ, pos, negsuc}
use stdlib.Base.Keyed.{find, swap_out}

-- XIOM_PROC_TRACK_MAX
abbrev pub track_max : ℕ
track_max = 16

-- A place of the two arrays.
pub record Tracked : Type 0 where
  pub pid : ℕ
  pub handle : ℕ

abbrev pub pid_of : Tracked → ℕ
pid_of t = t.pid

-- The table as far as its count, and the handles that were closed, the last first.
pub record Processes : Type 0 where
  pub table : List Tracked
  pub closed : List ℕ

-- CloseHandle
abbrev pub close_handle : ℕ → Processes → Processes
close_handle h s = record s { closed = h ∷ s.closed }

-- xiom_proc_track_add
unfoldable pub track_add : ℕ → ℕ → Processes → Processes
track_add pid h s =
    if ltb (length s.table) track_max
    then record s { table = s.table ++ (record { pid = pid; handle = h } ∷ []) }
    else close_handle h s

abbrev pub handle_of : Option Tracked → ℕ
handle_of none = 0
handle_of (some t) = t.handle

-- xiom_proc_track_peek
abbrev pub track_peek : ℕ → Processes → ℕ
track_peek pid s = handle_of (find pid_of pid s.table)

-- xiom_proc_track_take
unfoldable pub track_take : ℕ → Processes → ℕ × Processes
track_take pid s = (track_peek pid s, record s { table = swap_out pid_of pid s.table })

-- What is returned and written behind the handle, which is then closed: `waits` says whether the wait succeeds, and
-- `code` is the exit code if it is given.
unfoldable pub wait_handle : ℕ → Bool → Option ℕ → Processes → Option ℕ × Processes
wait_handle h waits code s =
    if h == 0 then (none, s) else (if waits then code else none, close_handle h s)

-- xiom_process_wait_raw; `opened` is what OpenProcess gives if it is called.
unfoldable pub wait_raw : ℕ → ℕ → Bool → Option ℕ → Processes → Option ℕ × Processes
wait_raw pid opened waits code s =
    let (h, s') = track_take pid s in wait_handle (if h == 0 then opened else h) waits code s'

-- The exit code read as an int.
abbrev pub as_int : ℕ → ℤ
as_int n = if ltb n (2 ^ 31) then pos n else negsuc (2 ^ 32 - 1 - n)

abbrev pub or_failure : (ℕ → ℤ) → Option ℕ → ℤ
or_failure f none = negsuc 0
or_failure f (some n) = f n

-- xiom_process_wait and xiom_process_wait_status
abbrev pub process_wait : ℕ → ℕ → Bool → Option ℕ → Processes → ℤ × Processes
process_wait pid opened waits code s =
    let (r, s') = wait_raw pid opened waits code s in (or_failure as_int r, s')

abbrev pub process_wait_status : ℕ → ℕ → Bool → Option ℕ → Processes → ℤ × Processes
process_wait_status pid opened waits code s =
    let (r, s') = wait_raw pid opened waits code s in (or_failure pos r, s')

-- A handle that is not of the table is closed behind its use.
abbrev pub close_untracked : ℕ → ℕ → Processes → Processes
close_untracked tracked h s = if tracked == 0 then close_handle h s else s

-- xiom_process_kill
unfoldable pub process_kill : ℕ → ℕ → Bool → Processes → ℤ × Processes
process_kill pid opened terminates s =
    let tracked = track_peek pid s in
    let h = if tracked == 0 then opened else tracked in
    if h == 0
    then (negsuc 0, s)
    else (if terminates then pos 0 else negsuc 0, close_untracked tracked h s)

-- xiom_process_running; `still_active` is the code of Windows for a process that runs.
unfoldable pub process_running : ℕ → ℕ → ℕ → Option ℕ → Processes → ℤ × Processes
process_running still_active pid opened code s =
    let tracked = track_peek pid s in
    let h = if tracked == 0 then opened else tracked in
    if h == 0 then (pos 0, s) else (
      or_failure (λ n. if n == still_active then pos 1 else pos 0) code,
      close_untracked tracked h s,
    )
