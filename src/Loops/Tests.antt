-- ===== src/Loops/Tests.antt =====
-- Runs of the event loops of Windows (runtime/xiom_runtime.c, 9552 to 9659), and the theorems about them at concrete inputs.
use stdlib.Base.{ℕ, ◌≡◌, refl, true, false, some, [], ◌∷◌, arith, ◌==◌, take, length}
use stdlib.Base.Int.{pos, negsuc}
use stdlib.Base.Keyed.{swap_out}
use stdlib.Loops.{
  Entry, Loop, Revents, empty_loop, loop_of, create_from, create, control, close, wait,
}
use stdlib.Loops.Control.{IsLoop, Controlled, control-Controlled}
use stdlib.Loops.Waiting.{ready, wait_lem}

abbrev entry_of : ℕ → Entry
entry_of fd = record { fd = fd; want_read = true; want_write = false }

abbrev three : Loop
three = record { used = true; entries = entry_of 5 ∷ entry_of 6 ∷ entry_of 7 ∷ [] }

three-IsLoop : IsLoop three
three-IsLoop = record { distinct = (refl, (refl, (refl, tt))); fits = omega arith }

-- The last entry takes the place of the one that is removed.
removed_first : (control (pos 2) 5 false false three).1.entries ≡ entry_of 7 ∷ entry_of 6 ∷ []
unfolding control swap_out
removed_first = refl

control-Controlled_example :
    Controlled (pos 2) 5 false false three (control (pos 2) 5 false false three)
control-Controlled_example = control-Controlled (pos 2) 5 false false three three-IsLoop

-- A loop is created in the first free place, and a closed one is no loop any more.
created :
    create (three ∷ record { used = false; entries = [] } ∷ []) ≡ (pos 2, three ∷ empty_loop ∷ [])
unfolding create create_from
created = refl

closed_again : (close (pos 1) (close (pos 1) (three ∷ [])).1).0 ≡ negsuc 0
unfolding close loop_of
closed_again = refl

-- The second descriptor is ready, and the third has failed.
abbrev reports : ℕ → Revents
reports i = record {
  rdnorm = i == 1;
  rdband = false;
  wrnorm = false;
  wrband = false;
  hup = i == 2;
  err = false;
  nval = false;
  other = false;
}

three_open : loop_of (pos 1) (three ∷ []) ≡ some three
unfolding loop_of
three_open = refl

wait_lem_example :
    wait (λ es timeout. some reports) (pos 1) (pos 10) (pos 8) (three ∷ [])
    ≡ some (
      pos (length (take 8 (ready reports 0 three.entries))),
      take 8 (ready reports 0 three.entries),
    )
wait_lem_example =
    wait_lem (λ es timeout. some reports) reports (pos 1) (pos 10) 7 (three ∷ []) three (entry_of 5)
      (entry_of 6 ∷ entry_of 7 ∷ []) three_open refl refl

ready_three : ready reports 0 three.entries ≡ (6, 1) ∷ (7, 7) ∷ []
unfolding ready
ready_three = refl
