-- ===== src/Queue/Traffic.antt =====
-- The order in which a channel hands on its values (runtime/xiom_runtime.c, 7668 to 7710).
use stdlib.Base.{
  ◌<◌, ◌≡◌, refl, sym, ap, ◌∙◌, ◌⊎◌, inl, inr, true, false, ◌||◌, Option, none, some, List, [], ◌∷◌,
  ◌++◌, arith, leb, ◌==◌, Bool-cases,
}
use mathlib.Core.List.{append_assoc, append-nil}
use stdlib.Base.Int.{ℤ, pos}
use stdlib.Queue.{push, pop}
use stdlib.Queue.Fifo.{IsRing, contents, push-IsRing, contents-push, pop-IsRing, contents-pop}
use stdlib.Queue.Channel.{
  Channel, send, recv, try_recv, Move, sending, receiving, trying, Traffic, move, run,
}

-- The values that wait in the channel, the first to be delivered first.
abbrev pub waiting : Channel → List ℤ
waiting ch = contents 64 (pos 0) ch.ring

-- The values put in, behind those that waited, are the values taken out and those that still wait, in
-- the same order.
abbrev pub InOrder : Channel → Option Traffic → Type 0
InOrder ch none = Unit {0}
InOrder ch (some (sent, got, ch')) = IsRing 64 ch'.ring × (waiting ch ++ sent ≡ got ++ waiting ch')

nothing_moved : (ch : Channel) → IsRing 64 ch.ring → InOrder ch (some ([], [], ch))
nothing_moved ch v = (v, append-nil (waiting ch))

popped :
    (ch : Channel)
    → IsRing 64 ch.ring
    → 0 < ch.ring.count
    → InOrder ch (
        some ([], (pop 64 (pos 0) ch.ring).0 ∷ [], record ch { ring = (pop 64 (pos 0) ch.ring).1 }))
popped ch v some_item = (
  pop-IsRing 64 (pos 0) ch.ring v some_item,
  append-nil (waiting ch) ∙ contents-pop 64 (pos 0) ch.ring some_item,
)

-- The ways a send ends: it waits, it is refused, or the value joins the others.
send_cases :
    (v : ℤ) (ch : Channel)
    → (send v ch ≡ none)
      ⊎ ((send v ch ≡ some (0, ch))
          ⊎ ((ch.ring.count < 64) × (send v ch ≡ some (1, record ch { ring = push 64 v ch.ring }))))
unfolding send
send_cases v ch = elim (Bool-cases ch.closed) [
  | inl shut ↦ elim (Bool-cases (leb 64 ch.ring.count)) [
    | inl full ↦ inr (inl (rw (full, shut) refl))
    | inr room ↦ inr (inl (rw (room, shut) refl))
  ]
  | inr unshut ↦ elim (Bool-cases (leb 64 ch.ring.count)) [
    | inl full ↦ inl (rw (full, unshut) refl)
    | inr room ↦ inr (inr (ground arith, rw (room, unshut) refl))
  ]
]

recv_cases :
    (ch : Channel)
    → (recv ch ≡ none)
      ⊎ ((((ch.ring.count == 0) ≡ true) × (recv ch ≡ some (pos 0, ch)))
          ⊎ (((ch.ring.count == 0) ≡ false)
              × (recv ch
                  ≡ some (
                    (pop 64 (pos 0) ch.ring).0,
                    record ch { ring = (pop 64 (pos 0) ch.ring).1 },
                  ))))
unfolding recv
recv_cases ch = elim (Bool-cases (ch.ring.count == 0)) [
  | inr filled ↦ inr (inr (filled, rw filled refl))
  | inl empty ↦ elim (Bool-cases ch.closed) [
    | inr unshut ↦ inl (rw (empty, unshut) refl)
    | inl shut ↦ inr (inl (empty, rw (empty, shut) refl))
  ]
]

try_recv_cases :
    (ch : Channel)
    → (try_recv ch ≡ (0, none, ch))
      ⊎ ((0 < ch.ring.count)
          × (try_recv ch ≡ (
            1,
            some (pop 64 (pos 0) ch.ring).0,
            record ch { ring = (pop 64 (pos 0) ch.ring).1 },
          )))
unfolding try_recv
try_recv_cases ch = elim (Bool-cases ((ch.ring.count == 0) || ch.closed)) [
  | inl nothing ↦ inl (rw nothing refl)
  | inr something ↦ inr (ground arith, rw something refl)
]

joined :
    (ch ch' : Channel) (sent got : List ℤ) (r : Option Traffic)
    → waiting ch ++ sent ≡ got ++ waiting ch'
    → InOrder ch' r
    → InOrder ch (elim r [
      | none ↦ none
      | some (sent', got', ch'') ↦ some (sent ++ sent', got ++ got', ch'')
    ])
joined ch ch' sent got none e h = tt
joined ch ch' sent got (some (sent', got', ch'')) e (ok, e') = (
  ok,
  sym (append_assoc (waiting ch) sent sent')
      ∙ ap (λ xs. xs ++ sent') e
      ∙ append_assoc got (waiting ch') sent'
      ∙ ap (λ xs. got ++ xs) e'
      ∙ sym (append_assoc got got' (waiting ch'')),
)

-- A call and the run behind it.
followed :
    (ch : Channel) (r : Option Traffic) (rest : Channel → Option Traffic)
    → InOrder ch r
    → ((ch' : Channel) → IsRing 64 ch'.ring → InOrder ch' (rest ch'))
    → InOrder ch (elim r [
      | none ↦ none
      | some (sent, got, ch') ↦ elim (rest ch') [
        | none ↦ none
        | some (sent', got', ch'') ↦ some (sent ++ sent', got ++ got', ch'')
      ]
    ])
followed ch none rest h k = tt
followed ch (some (sent, got, ch')) rest (ok, e) k = joined ch ch' sent got (rest ch') e (k ch' ok)

move-InOrder : (m : Move) (ch : Channel) → IsRing 64 ch.ring → InOrder ch (move m ch)
unfolding move
move-InOrder (sending v) ch ok = elim (send_cases v ch) [
  | inl waits ↦ rw (InOrder, waits) tt
  | inr (inl refused) ↦ rw (InOrder, refused) (nothing_moved ch ok)
  | inr (inr (room, put)) ↦
      rw (InOrder, put)
        (push-IsRing 64 v ch.ring ok room, sym (contents-push 64 (pos 0) v ch.ring ok room))
]
move-InOrder receiving ch ok = elim (recv_cases ch) [
  | inl waits ↦ rw (InOrder, waits) tt
  | inr (inl (empty, nothing)) ↦ rw (InOrder, nothing, empty) (nothing_moved ch ok)
  | inr (inr (filled, got)) ↦ rw (InOrder, got, filled) (popped ch ok (ground arith))
]
move-InOrder trying ch ok = elim (try_recv_cases ch) [
  | inl nothing ↦ rw (InOrder, nothing) (nothing_moved ch ok)
  | inr (filled, got) ↦ rw (InOrder, got) (popped ch ok filled)
]

-- Any run of calls on one channel delivers in order: the values that waited, followed by the values that
-- the sends put in, are the values taken out followed by those that still wait, so that none is lost,
-- doubled, or overtaken by another, and the ring stays in shape.
pub run-InOrder : (ms : List Move) (ch : Channel) → IsRing 64 ch.ring → InOrder ch (run ms ch)
unfolding run
run-InOrder [] ch ok = nothing_moved ch ok
run-InOrder (m ∷ ms) ch ok =
    followed ch (move m ch) (run ms) (move-InOrder m ch ok) (λ ch' ok'. run-InOrder ms ch' ok')
