-- ===== src/Vectored/Tests.antt =====
-- Runs of the vectored write of Windows (runtime/xiom_runtime.c, 9322 to 9435), and its theorem at a concrete input.
use stdlib.Base.{
  ℕ, ◌≤◌, ◌≡◌, refl, inl, inr, true, Option, some, List, [], ◌∷◌, arith, leb, if◌then◌else◌,
  Bool-cases,
}
use stdlib.Base.Int.{pos}
use stdlib.Vectored.{Buffer, flatten, size_of, skip_empty, advance, send_loop, buffers, fd_writev}
use stdlib.Vectored.Delivered.{Progress, Delivered, fd_writev-Delivered}
use stdlib.Vectored.Written.{pairs_of}

abbrev segments : List Buffer
segments =
    record { buf = 100; len = 3 }
    ∷ record { buf = 200; len = 0 }
    ∷ record { buf = 300; len = 2 }
    ∷ []

-- A system that takes two bytes at most, or as many as it is offered.
abbrev two_at_most : ℕ → ℕ
two_at_most n = if leb 2 n then 2 else n

two_at_most_le : (n : ℕ) → two_at_most n ≤ n
two_at_most_le n = elim (Bool-cases (leb 2 n)) [
  | inl more ↦ rw more (ground arith)
  | inr few ↦ rw few (omega arith)
]

abbrev sends : ℕ → List Buffer → ℕ
sends k bs = two_at_most (size_of bs)

abbrev writes : ℕ → ℕ → ℕ → ℕ
writes k p c = two_at_most c

all_sent :
    fd_writev sends writes true (pos 4) (some (pairs_of segments))
    ≡ some (some 5, 100 ∷ 101 ∷ 102 ∷ 300 ∷ 301 ∷ [])
unfolding fd_writev buffers send_loop skip_empty advance
all_sent = refl

fd_writev-Delivered_example :
    (r : Option ℕ × List ℕ) × (fd_writev sends writes true (pos 4) (some (pairs_of segments))
      ≡ some r)
    × Delivered (Progress sends writes true) (flatten segments) r
fd_writev-Delivered_example =
    fd_writev-Delivered sends (λ k bs. two_at_most_le (size_of bs)) writes
      (λ k p c. two_at_most_le c) true 4 segments (omega arith, (omega arith, (omega arith, tt)))
      (omega arith) (omega arith)
