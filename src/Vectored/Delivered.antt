-- ===== src/Vectored/Delivered.antt =====
-- What a vectored write delivers (runtime/xiom_runtime.c, 9366 to 9435).
use stdlib.Base.{
  ℕ, ◌≤◌, ◌<◌, ◌≡◌, ap, ◌∙◌, inl, inr, Bool, true, false, Option, some, List, [], arith, length,
  take, Option-cases,
}
use stdlib.Base.Int.{pos}
use stdlib.Vectored.{Buffer, flatten, writev_max, fd_guard_max, size_of, fd_writev}
use stdlib.Vectored.Sent.{Whole, send_fails}
use stdlib.Vectored.Written.{write_fails, Fails, AllShort, pairs_of, write-Whole}

-- A system whose every call takes at least a byte of what it is offered.
abbrev pub Progress : (ℕ → List Buffer → ℕ) → (ℕ → ℕ → ℕ → ℕ) → Bool → Type 0
Progress sends writes true = (k : ℕ) (bs : List Buffer) → 0 < size_of bs → 0 < sends k bs
Progress sends writes false = (k p c : ℕ) → 0 < c → 0 < writes k p c

no_failure :
    (sends : ℕ → List Buffer → ℕ) (writes : ℕ → ℕ → ℕ → ℕ) (socket : Bool)
    → Fails sends writes socket
    → Progress sends writes socket
    → ⊥
no_failure sends writes true (send_fails k bs some_bytes nothing) go =
    omega (arith, nothing, go k bs some_bytes)
no_failure sends writes false (write_fails k p c some_bytes nothing) go =
    omega (arith, nothing, go k p c some_bytes)

-- What a call sent of the bytes, and what it returned.
pub record Delivered (progress : Type 0) (bytes : List ℕ) (r : Option ℕ × List ℕ) : Type 0 where
  pub sent : (n : ℕ) × (r.1 ≡ take n bytes)
  pub counted : (t : ℕ) → r.0 ≡ some t → (t ≡ length bytes) × (r.1 ≡ bytes)
  pub complete : progress → r.0 ≡ some (length bytes)

delivered :
    (fault progress : Type 0) (bytes : List ℕ) (r : Option ℕ × List ℕ)
    → (fault → progress → ⊥)
    → Whole fault 0 [] bytes r
    → Delivered progress bytes r
delivered fault progress bytes r refuted w = record {
  sent = w.sent;
  counted = λ t h. let (count, all) = w.counted t h in (omega (arith, count), all);
  complete = λ go. elim (Option-cases r.0) [
    | inl error ↦ absurd (refuted (w.broken error) go)
    | inr (t, got) ↦ let (count, all) = w.counted t got in got ∙ ap some (omega (arith, count))
  ];
}

-- A vectored write ends, for a valid descriptor and up to 1024 segments of at most 2 ^ 32 - 1 bytes each, whatever the system
-- takes of what it is offered at each call, but no more than that: a total is the number of bytes of the segments, which
-- were sent once each and in order, and with -1 the first of them were sent. If every call takes at least a byte, the result is
-- the total.
pub fd_writev-Delivered :
    (sends : ℕ → List Buffer → ℕ)
    → ((k : ℕ) (bs : List Buffer) → sends k bs ≤ size_of bs)
    → (writes : ℕ → ℕ → ℕ → ℕ) → ((k p c : ℕ) → writes k p c ≤ c)
    → (socket : Bool) (fd : ℕ) (bs : List Buffer) → AllShort bs
    → length bs ≤ writev_max
    → fd ≤ fd_guard_max
    → (r : Option ℕ × List ℕ) × (fd_writev sends writes socket (pos fd) (some (pairs_of bs))
        ≡ some r)
      × Delivered (Progress sends writes socket) (flatten bs) r
fd_writev-Delivered sends sent_le writes written_le socket fd bs short few valid =
    let (r, ran, whole) =
      write-Whole sends sent_le writes written_le socket fd bs short few valid in
    (r, ran, delivered _ _ (flatten bs) r (no_failure sends writes socket) whole)
