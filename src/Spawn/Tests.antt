-- ===== src/Spawn/Tests.antt =====
-- Runs of the table of spawned threads (runtime/xiom_runtime.c, 7132 to 7317), and the theorem about it at
-- a concrete input.
use stdlib.Base.{◌⊎◌, true, false, List, [], ◌∷◌, arith}
use stdlib.Base.Int.{pos}
use stdlib.Spawn.{vacant, Spawned, claim}
use stdlib.Spawn.Claimed.{
  Use, claims, joins, detaches, Spares, IsTable, Joined, Refused, claim-Joined,
}

-- One thread runs, and another slot is free.
abbrev two_slots : Spawned
two_slots = record {
  entries = record { id = 1; active = true; os_handle = 88 } ∷ vacant ∷ [];
  next_id = 2;
}

two_slots-IsTable : IsTable two_slots
two_slots-IsTable = record {
  single = λ g. ground arith;
  fresh = λ g le. ground arith;
  positive = omega arith;
}

-- The other thread is joined, and its place is taken again.
abbrev between : List Use
between = joins (pos 1) ∷ claims false 77 ∷ []

between-Spares : Spares 2 between
between-Spares = ((λ e. cc), tt)

claim-Joined_example :
    Refused two_slots (claim true 99 two_slots)
    ⊎ Joined 99 between (detaches (pos 3) ∷ []) two_slots (claim true 99 two_slots)
claim-Joined_example =
    claim-Joined true 99 between (detaches (pos 3) ∷ []) two_slots two_slots-IsTable between-Spares
