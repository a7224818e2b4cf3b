-- ===== src/Loops/Waiting.antt =====
-- What a wait reports (runtime/xiom_runtime.c, 9621 to 9652).
use stdlib.Base.{
  ℕ, zero, suc, ◌+◌, ◌≡◌, refl, ap, inl, inr, some, List, [], ◌∷◌, if◌then◌else◌, Bool-cases,
  length, take,
}
use stdlib.Base.Int.{ℤ, pos}
use stdlib.Loops.{
  Entry, Loop, Revents, Poll, quiet, flags_of, loop_of, collect, polled, wait_on, wait,
}

-- The descriptors with something to report, in the order of the places.
unfoldable pub ready : (ℕ → Revents) → ℕ → List Entry → List (ℕ × ℕ)
ready re i [] = []
ready re i (e ∷ es) =
    let rest = ready re (i + 1) es in if quiet (re i) then rest else (e.fd, flags_of (re i)) ∷ rest

collect_lem :
    (re : ℕ → Revents) (i room : ℕ) (es : List Entry)
    → collect re i room es ≡ take room (ready re i es)
unfolding collect ready
collect_lem re i zero es = refl
collect_lem re i (suc room) [] = refl
collect_lem re i (suc room) (e ∷ es) = elim (Bool-cases (quiet (re i))) [
  | inl none_here ↦ rw none_here (collect_lem re (i + 1) (suc room) es)
  | inr some_here ↦ rw some_here (
      ap (λ (rest : List (ℕ × ℕ)). (e.fd, flags_of (re i)) ∷ rest) (collect_lem re (i + 1) room es))
]

-- A wait on a loop with descriptors, where WSAPoll succeeds, reports the ready descriptors in their order, as many as
-- there is room for, each with the flags of what was reported at its place, and returns their number.
pub wait_lem :
    (poll : Poll) (re : ℕ → Revents) (handle timeout : ℤ) (max : ℕ) (loops : List Loop) (l : Loop)
    (e : Entry) (es : List Entry)
    → loop_of handle loops ≡ some l
    → l.entries ≡ e ∷ es
    → poll (e ∷ es) timeout ≡ some re
    → wait poll handle timeout (pos (suc max)) loops
      ≡ some (
        pos (length (take (suc max) (ready re 0 (e ∷ es)))),
        take (suc max) (ready re 0 (e ∷ es)),
      )
unfolding wait wait_on polled
wait_lem poll re handle timeout max loops l e es open_loop held reported =
    rw (open_loop, held, polled, reported, collect_lem re 0 (suc max) (e ∷ es)) refl
