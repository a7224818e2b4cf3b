-- ===== src/Queue/Channel.antt =====
-- The bounded channel (runtime/xiom_runtime.c, 7642 to 7710). Each call runs under the channel's mutex, so
-- a run of several threads is a sequence of calls; a call that waits on a condition variable has no
-- result, and takes its turn later.
use stdlib.Base.{
  ℕ, Bool, false, ◌&&◌, ◌||◌, not, Option, none, some, List, [], ◌∷◌, ◌++◌, leb, ◌==◌,
  if◌then◌else◌,
}
use stdlib.Base.Int.{ℤ, pos}
use stdlib.Queue.{Ring, empty_ring, push, pop}

-- XIOM_CHANNEL_CAP
abbrev pub channel_cap : ℕ
channel_cap = 64

-- xiom_channel_t, without the mutex and the condition variables.
pub record Channel : Type 0 where
  pub ring : Ring ℤ
  pub closed : Bool

-- xiom_channel_create
abbrev pub create : Channel
create = record { ring = empty_ring channel_cap (pos 0); closed = false }

-- xiom_channel_send
unfoldable pub send : ℤ → Channel → Option (ℕ × Channel)
send value ch =
    if leb channel_cap ch.ring.count && not ch.closed
    then none
    else if ch.closed
    then some (0, ch)
    else some (1, record ch { ring = push channel_cap value ch.ring })

-- xiom_channel_recv
unfoldable pub recv : Channel → Option (ℤ × Channel)
recv ch =
    if (ch.ring.count == 0) && not ch.closed
    then none
    else if ch.ring.count == 0
    then some (pos 0, ch)
    else let (value, ring) = pop channel_cap (pos 0) ch.ring in
      some (value, record ch { ring = ring })

-- xiom_channel_try_recv: the result, what is written through `out`, and the channel.
unfoldable pub try_recv : Channel → ℕ × Option ℤ × Channel
try_recv ch =
    if (ch.ring.count == 0) || ch.closed
    then (0, none, ch)
    else let (value, ring) = pop channel_cap (pos 0) ch.ring in
      (1, some value, record ch { ring = ring })

-- A call of some thread.
pub data Move : Type 0 where
  sending : ℤ → Move
  receiving : Move
  trying : Move

-- The values that a call put in and took out, beside the channel after it.
abbrev pub Traffic : Type 0
Traffic = List ℤ × List ℤ × Channel

abbrev pub as_list : Option ℤ → List ℤ
as_list none = []
as_list (some v) = v ∷ []

-- A receive from a closed and empty channel takes nothing out: its 0 is no value of the channel.
unfoldable pub move : Move → Channel → Option Traffic
move (sending v) ch = elim (send v ch) [
  | none ↦ none
  | some (ok, ch') ↦ some (if ok == 0 then [] else v ∷ [], [], ch')
]
move receiving ch = elim (recv ch) [
  | none ↦ none
  | some (v, ch') ↦ some ([], if ch.ring.count == 0 then [] else v ∷ [], ch')
]
move trying ch = let (ok, out, ch') = try_recv ch in some ([], as_list out, ch')

-- The calls in turn; `none` when one of them waits.
unfoldable pub run : List Move → Channel → Option Traffic
run [] ch = some ([], [], ch)
run (m ∷ ms) ch = elim (move m ch) [
  | none ↦ none
  | some (sent, got, ch') ↦ elim (run ms ch') [
    | none ↦ none
    | some (sent', got', ch'') ↦ some (sent ++ sent', got ++ got', ch'')
  ]
]
