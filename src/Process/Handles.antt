-- ===== src/Process/Handles.antt =====
-- Every handle is in the table or is closed once (runtime/xiom_runtime.c, 4887 to 5008).
use stdlib.Base.{
  ℕ, ◌+◌, ◌<◌, ◌≡◌, refl, inl, inr, Bool, true, false, Option, none, some, List, [], ◌∷◌, arith,
  ltb, ◌==◌, if◌then◌else◌, length, Bool-cases, Option-cases,
}
use stdlib.Base.Int.{ℤ, pos, negsuc}
use stdlib.Base.Keyed.{
  find, swap_out, total, total-append, total-swap_out, swap_out-absent, Distinct, find-swap_out,
  swap_out-Distinct,
}
use stdlib.Process.{
  Tracked, Processes, track_max, pid_of, track_add, track_peek, track_take, wait_handle, wait_raw,
  process_kill, process_running, close_untracked, or_failure,
}

-- A call, with what the system answers to it.
pub data Call : Type 0 where
  spawned : ℕ → ℕ → Call
  waited : ℕ → ℕ → Bool → Option ℕ → Call
  killed : ℕ → ℕ → Bool → Call
  asked : ℕ → ℕ → ℕ → Option ℕ → Call

unfoldable pub call : Call → Processes → Processes
call (spawned pid h) s = track_add pid h s
call (waited pid opened waits code) s = (wait_raw pid opened waits code s).1
call (killed pid opened terminates) s = (process_kill pid opened terminates s).1
call (asked active pid opened code) s = (process_running active pid opened code s).1

abbrev pub calls : List Call → Processes → Processes
calls [] s = s
calls (c ∷ cs) s = calls cs (call c s)

-- How often a handle is given to the library, by the spawn or by an OpenProcess that is called.
abbrev one : ℕ → ℕ → ℕ
one h x = if x == h then 1 else 0

abbrev opened_for : ℕ → ℕ → ℕ → Processes → ℕ
opened_for h pid opened s = if track_peek pid s == 0 then one h opened else 0

abbrev pub given_by : ℕ → Call → Processes → ℕ
given_by h (spawned pid x) s = one h x
given_by h (waited pid opened waits code) s = opened_for h pid opened s
given_by h (killed pid opened terminates) s = opened_for h pid opened s
given_by h (asked active pid opened code) s = opened_for h pid opened s

abbrev pub given : ℕ → List Call → Processes → ℕ
given h [] s = 0
given h (c ∷ cs) s = given_by h c s + given h cs (call c s)

-- How often a handle is in the table, and how often it was closed.
abbrev pub kept : ℕ → Processes → ℕ
kept h s = total pid_of (λ t. one h t.handle) s.table

abbrev pub closings : ℕ → List ℕ → ℕ
closings h [] = 0
closings h (x ∷ xs) = one h x + closings h xs

not_null : (h x : ℕ) → 0 < h → (x == 0) ≡ true → one h x ≡ 0
not_null h x positive null = let other : (x == h) ≡ false = ground arith in rw other refl

module _ (h : ℕ) (positive : 0 < h) where
  added :
      (pid x : ℕ) (s : Processes)
      → kept h (track_add pid x s) + closings h (track_add pid x s).closed
        ≡ kept h s + closings h s.closed + one h x
  unfolding track_add
  added pid x s = elim (Bool-cases (ltb (length s.table) track_max)) [
    | inl room ↦ rw room (
        omega (
          arith,
          total-append pid_of (λ t. one h t.handle) s.table (record { pid = pid; handle = x }),
        ))
    | inr full ↦ rw full (omega arith)
  ]

  -- The handles of a state, kept or closed.
  abbrev held : Processes → ℕ
  held s = kept h s + closings h s.closed

  abbrev state : ℤ × Processes → Processes
  state r = r.1

  -- A call that uses a handle of the table or one that it opens, and closes the latter.
  used :
      (tracked opened : ℕ) (r r' : ℤ) (s : Processes)
      → (let x = if tracked == 0 then opened else tracked in
          held (state (if x == 0 then (r, s) else (r', close_untracked tracked x s))))
        ≡ held s + (if tracked == 0 then one h opened else 0)
  used tracked opened r r' s = elim (Bool-cases (tracked == 0)) [
    | inr own ↦ rw (own, own) (omega arith)
    | inl null ↦ elim (Bool-cases (opened == 0)) [
      | inl failed ↦ rw (null, failed) (omega (arith, not_null h opened positive failed))
      | inr got ↦ rw (null, got) (omega arith)
    ]
  ]

  waited_on :
      (x : ℕ) (waits : Bool) (code : Option ℕ) (s : Processes)
      → held (wait_handle x waits code s).1 ≡ held s + one h x
  unfolding wait_handle
  waited_on x waits code s = elim (Bool-cases (x == 0)) [
    | inl null ↦ rw null (omega (arith, not_null h x positive null))
    | inr got ↦ rw got (omega arith)
  ]

  taken :
      (pid opened : ℕ) (waits : Bool) (code : Option ℕ) (s : Processes)
      → held (wait_raw pid opened waits code s).1 ≡ held s + opened_for h pid opened s
  unfolding wait_raw track_take
  taken pid opened waits code s = elim (Option-cases (find pid_of pid s.table)) [
    | inl absent ↦
        rw (absent, swap_out-absent pid_of pid s.table absent) (waited_on opened waits code s)
    | inr (t, found) ↦
        let removed = total-swap_out pid_of (λ t. one h t.handle) pid s.table t found in
        elim (Bool-cases (t.handle == 0)) [
          | inl null ↦
              let rest =
                waited_on opened waits code (record s { table = swap_out pid_of pid s.table }) in
              rw (found, null) (omega (arith, rest, removed, not_null h t.handle positive null))
          | inr tracked ↦
              let rest =
                waited_on t.handle waits code (record s { table = swap_out pid_of pid s.table }) in
              rw (found, tracked) (omega (arith, rest, removed))
        ]
  ]

  step : (c : Call) (s : Processes) → held (call c s) ≡ held s + given_by h c s
  unfolding call process_kill process_running
  step (spawned pid x) s = added pid x s
  step (waited pid opened waits code) s = taken pid opened waits code s
  step (killed pid opened terminates) s =
      used (track_peek pid s) opened (negsuc 0) (if terminates then pos 0 else negsuc 0) s
  step (asked active pid opened code) s =
      used (track_peek pid s) opened (pos 0)
        (or_failure (λ n. if n == active then pos 1 else pos 0) code) s

  -- Through any sequence of calls, each handle that the system gave is in the table or was closed, once for each time
  -- that it was given: none is lost and none is closed twice.
  pub calls-balanced :
      (cs : List Call) (s : Processes)
      → kept h (calls cs s) + closings h (calls cs s).closed
        ≡ kept h s + closings h s.closed + given h cs s
  calls-balanced [] s = omega arith
  calls-balanced (c ∷ cs) s = omega (arith, step c s, calls-balanced cs (call c s))

-- What a wait for a process of the table does: it closes the handle of the table, whether it succeeds or not, and forgets
-- the process and no other, and no other process is opened.
pub record Waited (pid : ℕ) (t : Tracked) (s : Processes) (r : Option ℕ × Processes) : Type 0 where
  pub closed : r.1.closed ≡ t.handle ∷ s.closed
  pub others :
      (g : ℕ) → find pid_of g r.1.table ≡ (if g == pid then none else find pid_of g s.table)
  pub shape : Distinct pid_of r.1.table

pub wait_raw-Waited :
    (pid opened : ℕ) (waits : Bool) (code : Option ℕ) (s : Processes) (t : Tracked)
    → Distinct pid_of s.table
    → find pid_of pid s.table ≡ some t
    → (t.handle == 0) ≡ false
    → Waited pid t s (wait_raw pid opened waits code s)
unfolding wait_raw track_take wait_handle
wait_raw-Waited pid opened waits code s t distinct found valid =
    rw (found, valid, valid)
      (record {
        closed = refl;
        others = λ g. find-swap_out pid_of pid g s.table distinct;
        shape = swap_out-Distinct pid_of pid s.table distinct;
      })
