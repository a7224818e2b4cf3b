-- ===== src/Loops.antt =====
-- The event loops of Windows (runtime/xiom_runtime.c, 9552 to 9659). A loop keeps its descriptors in the first places of
-- three arrays, which are one list of entries here, as long as the count. The bits of WSAPoll are a record.
pub mod Control
pub mod Tests
pub mod Waiting
use stdlib.Base.{
  ℕ, zero, suc, ◌+◌, ◌-◌, ◌%◌, ◌^◌, Bool, true, false, ◌||◌, not, Option, none, some, List, [], ◌∷◌,
  ◌++◌, ltb, leb, ◌==◌, if◌then◌else◌, length, get_elem?, set,
}
use stdlib.Base.Int.{ℤ, pos, negsuc}
use stdlib.Base.Keyed.{find, swap_out}

-- XIOM_WIN_LOOPS and XIOM_WIN_FDS
abbrev pub max_loops : ℕ
max_loops = 16

abbrev pub max_fds : ℕ
max_fds = 1024

-- One place of the three arrays.
pub record Entry : Type 0 where
  pub fd : ℕ
  pub want_read : Bool
  pub want_write : Bool

-- XiomWinEventLoop
pub record Loop : Type 0 where
  pub used : Bool
  pub entries : List Entry

-- xiom_win_loop
unfoldable pub loop_of : ℤ → List Loop → Option Loop
loop_of (negsuc n) loops = none
loop_of (pos n) loops =
    if (n == 0) || ltb max_loops n
    then none
    else elim (get_elem? loops (n - 1)) [ none ↦ none | some l ↦ if l.used then some l else none ]

abbrev pub empty_loop : Loop
empty_loop = record { used = true; entries = [] }

-- xiom_eventloop_create, from the loop at the index `i` on.
unfoldable pub create_from : ℕ → List Loop → ℤ × List Loop
create_from i [] = (negsuc 0, [])
create_from i (l ∷ ls) =
    let (handle, rest) = create_from (i + 1) ls in
    if not l.used then (pos (i + 1), empty_loop ∷ ls) else (handle, l ∷ rest)

unfoldable pub create : List Loop → ℤ × List Loop
create loops = create_from 0 loops

-- The entry of a descriptor is given new interests.
unfoldable pub set_interest : ℕ → Bool → Bool → List Entry → List Entry
set_interest fd read write [] = []
set_interest fd read write (e ∷ es) =
    let rest = set_interest fd read write es in
    if e.fd == fd then record { fd = e.fd; want_read = read; want_write = write } ∷ es else e ∷ rest

abbrev pub is_some {ℓ} : {A : Type ℓ} → Option A → Bool
is_some none = false
is_some (some a) = true

abbrev pub fd_of : Entry → ℕ
fd_of e = e.fd

-- The body of xiom_eventloop_ctl, for a descriptor that is not negative.
unfoldable pub control : ℤ → ℕ → Bool → Bool → Loop → ℤ × Loop
control (pos zero) fd read write l =
    if leb max_fds (length l.entries)
    then (negsuc 0, l)
    else if is_some (find fd_of fd l.entries)
    then (negsuc 0, l)
    else (
      pos 0,
      record l {
        entries = l.entries ++ (record { fd = fd; want_read = read; want_write = write } ∷ []);
      },
    )
control (pos (suc zero)) fd read write l =
    if is_some (find fd_of fd l.entries)
    then (pos 0, record l { entries = set_interest fd read write l.entries })
    else (negsuc 0, l)
control (pos (suc (suc zero))) fd read write l =
    if is_some (find fd_of fd l.entries)
    then (pos 0, record l { entries = swap_out fd_of fd l.entries })
    else (negsuc 0, l)
control (pos (suc (suc (suc n)))) fd read write l = (negsuc 0, l)
control (negsuc n) fd read write l = (negsuc 0, l)

-- xiom_eventloop_ctl
unfoldable pub ctl : ℤ → ℤ → ℤ → Bool → Bool → List Loop → ℤ × List Loop
ctl handle op (negsuc fd) read write loops = (negsuc 0, loops)
ctl (negsuc h) op (pos fd) read write loops = (negsuc 0, loops)
ctl (pos h) op (pos fd) read write loops = elim (loop_of (pos h) loops) [
  | none ↦ (negsuc 0, loops)
  | some l ↦ let (r, l') = control op fd read write l in (r, set loops (h - 1) l')
]

-- What WSAPoll reports at a place, with all the bits that the runtime does not name as one.
pub record Revents : Type 0 where
  pub rdnorm : Bool
  pub rdband : Bool
  pub wrnorm : Bool
  pub wrband : Bool
  pub hup : Bool
  pub err : Bool
  pub nval : Bool
  pub other : Bool

abbrev pub failed : Revents → Bool
failed re = re.err || re.hup || re.nval

abbrev pub quiet : Revents → Bool
quiet re = not (re.rdnorm || re.rdband || re.wrnorm || re.wrband || failed re || re.other)

abbrev pub flags_of : Revents → ℕ
flags_of re =
    (if re.rdnorm || re.rdband || failed re then 1 else 0)
    + (if re.wrnorm || re.wrband || failed re then 2 else 0)
    + (if failed re then 4 else 0)

-- The loop over the places from `i` on, with room for `room` more results.
unfoldable pub collect : (ℕ → Revents) → ℕ → ℕ → List Entry → List (ℕ × ℕ)
collect poll i zero es = []
collect poll i (suc room) [] = []
collect poll i (suc room) (e ∷ es) =
    let skipped = collect poll (i + 1) (suc room) es in
    let kept = collect poll (i + 1) room es in
    if quiet (poll i) then skipped else (e.fd, flags_of (poll i)) ∷ kept

-- The sleep of a loop with no descriptors; one for ever has no result. INFINITE is the largest DWORD.
abbrev pub slept : ℤ → Option (ℤ × List (ℕ × ℕ))
slept (negsuc n) = none
slept (pos n) = if n % 2 ^ 32 == 2 ^ 32 - 1 then none else some (pos 0, [])

-- WSAPoll, on the descriptors with their interests and a timeout: what it reports at each place, or `none` for its failure.
abbrev pub Poll : Type 0
Poll = List Entry → ℤ → Option (ℕ → Revents)

-- What is returned and written behind the checks.
unfoldable pub polled : Poll → ℤ → ℕ → List Entry → Option (ℤ × List (ℕ × ℕ))
polled poll timeout room [] = slept timeout
polled poll timeout room (e ∷ es) = elim (poll (e ∷ es) timeout) [
  | none ↦ some (negsuc 0, [])
  | some re ↦ let out = collect re 0 room (e ∷ es) in some (pos (length out), out)
]

unfoldable pub wait_on : Poll → ℤ → ℕ → Option Loop → Option (ℤ × List (ℕ × ℕ))
wait_on poll timeout room none = some (negsuc 0, [])
wait_on poll timeout room (some l) = polled poll timeout room l.entries

-- xiom_eventloop_wait, with arrays for the results.
unfoldable pub wait : Poll → ℤ → ℤ → ℤ → List Loop → Option (ℤ × List (ℕ × ℕ))
wait poll handle timeout (negsuc max) loops = some (negsuc 0, [])
wait poll handle timeout (pos zero) loops = some (negsuc 0, [])
wait poll handle timeout (pos (suc max)) loops =
    wait_on poll timeout (suc max) (loop_of handle loops)

-- xiom_eventloop_close
unfoldable pub close : ℤ → List Loop → ℤ × List Loop
close (negsuc h) loops = (negsuc 0, loops)
close (pos h) loops = elim (loop_of (pos h) loops) [
  | none ↦ (negsuc 0, loops)
  | some l ↦ (pos 0, set loops (h - 1) (record { used = false; entries = [] }))
]
