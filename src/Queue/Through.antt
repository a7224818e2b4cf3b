-- ===== src/Queue/Through.antt =====
-- What goes into a channel with room comes out (runtime/xiom_runtime.c, 7659 to 7696).
use stdlib.Base.{
  ℕ, zero, suc, ◌+◌, ◌≤◌, ◌<◌, ◌≡◌, refl, sym, ap, ◌∙◌, false, some, List, [], ◌∷◌, ◌++◌, map,
  arith, leb, ◌==◌, length, replicate,
}
use mathlib.Core.List.{append_assoc, append-nil}
use stdlib.Base.Int.{ℤ, pos}
use stdlib.Queue.{push, pop}
use stdlib.Queue.Fifo.{IsRing, gather, push-IsRing, contents-push, pop-IsRing, contents-pop}
use stdlib.Queue.Channel.{Channel, send, recv, sending, receiving, move, run}
use stdlib.Queue.Traffic.{waiting}

-- A channel that was not closed, in shape, with `n` values.
pub record Open (n : ℕ) (ch : Channel) : Type 0 where
  pub unshut : ch.closed ≡ false
  pub shape : IsRing 64 ch.ring
  pub count : ch.ring.count ≡ n

send-Open :
    (n : ℕ) (v : ℤ) (ch : Channel)
    → Open n ch
    → n < 64
    → send v ch ≡ some (1, record ch { ring = push 64 v ch.ring })
unfolding send
send-Open n v ch o room =
    let less : leb 64 ch.ring.count ≡ false = ground (arith, o.count) in rw (less, o.unshut) refl

recv-Open :
    (n : ℕ) (ch : Channel)
    → Open (suc n) ch
    → recv ch ≡ some ((pop 64 (pos 0) ch.ring).0, record ch { ring = (pop 64 (pos 0) ch.ring).1 })
unfolding recv
recv-Open n ch o =
    let filled : (ch.ring.count == 0) ≡ false = ground (arith, o.count) in rw filled refl

move_send :
    (n : ℕ) (v : ℤ) (ch : Channel)
    → Open n ch
    → n < 64
    → move (sending v) ch ≡ some (v ∷ [], [], record ch { ring = push 64 v ch.ring })
unfolding move
move_send n v ch o room = rw (move, send-Open n v ch o room) refl

move_recv :
    (n : ℕ) (ch : Channel)
    → Open (suc n) ch
    → move receiving ch
      ≡ some ([], (pop 64 (pos 0) ch.ring).0 ∷ [], record ch { ring = (pop 64 (pos 0) ch.ring).1 })
unfolding move
move_recv n ch o =
    let filled : (ch.ring.count == 0) ≡ false = ground (arith, o.count) in
    rw (move, recv-Open n ch o, filled) refl

after_send :
    (n : ℕ) (v : ℤ) (ch : Channel)
    → Open n ch
    → n < 64
    → Open (suc n) (record ch { ring = push 64 v ch.ring })
unfolding push
after_send n v ch o room = record {
  unshut = o.unshut;
  shape = push-IsRing 64 v ch.ring o.shape (omega (arith, o.count));
  count = omega (arith, o.count);
}

after_recv :
    (n : ℕ) (ch : Channel)
    → Open (suc n) ch
    → Open n (record ch { ring = (pop 64 (pos 0) ch.ring).1 })
unfolding pop
after_recv n ch o = record {
  unshut = o.unshut;
  shape = pop-IsRing 64 (pos 0) ch.ring o.shape (omega (arith, o.count));
  count = omega (arith, o.count);
}

-- The channel after the values were sent.
pub record Filled (n : ℕ) (vs : List ℤ) (ch : Channel) : Type 0 where
  pub last : Channel
  pub ran : run (map sending vs) ch ≡ some (vs, [], last)
  pub still : Open (n + length vs) last
  pub waits : waiting last ≡ waiting ch ++ vs

run_sends : (n : ℕ) (vs : List ℤ) (ch : Channel) → Open n ch → n + length vs ≤ 64 → Filled n vs ch
unfolding run
run_sends n [] ch o fits = record {
  last = ch;
  ran = refl;
  still = record { unshut = o.unshut; shape = o.shape; count = omega (arith, o.count) };
  waits = sym (append-nil (waiting ch));
}
run_sends n (v ∷ vs) ch o fits =
    let rest =
      run_sends (suc n) vs (record ch { ring = push 64 v ch.ring })
        (after_send n v ch o (omega arith)) (omega arith) in
    record {
      last = rest.last;
      ran = rw (run, move_send n v ch o (omega arith), rest.ran) refl;
      still = record {
        unshut = rest.still.unshut;
        shape = rest.still.shape;
        count = omega (arith, rest.still.count);
      };
      waits =
          rest.waits
          ∙ ap (λ xs. xs ++ vs)
              (contents-push 64 (pos 0) v ch.ring o.shape (omega (arith, o.count)))
          ∙ append_assoc (waiting ch) (v ∷ []) vs;
    }

-- The channel after `n` receives.
pub record Emptied (n : ℕ) (ch : Channel) : Type 0 where
  pub last : Channel
  pub ran : run (replicate n receiving) ch ≡ some ([], waiting ch, last)
  pub still : Open 0 last

run_recvs : (n : ℕ) (ch : Channel) → Open n ch → Emptied n ch
unfolding run
run_recvs zero ch o = record {
  last = ch;
  ran = ap (λ k. some ([], gather ch.ring.items 64 (pos 0) ch.ring.head k, ch)) (sym o.count);
  still = o;
}
run_recvs (suc n) ch o =
    let rest = run_recvs n (record ch { ring = (pop 64 (pos 0) ch.ring).1 }) (after_recv n ch o) in
    record {
      last = rest.last;
      ran =
          rw (run, move_recv n ch o, rest.ran)
            (ap (λ xs. some ([], xs, rest.last))
              (sym (contents-pop 64 (pos 0) ch.ring (omega (arith, o.count)))));
      still = rest.still;
    }

-- The sends of `vs`, and as many receives.
pub record Through (vs : List ℤ) (ch : Channel) : Type 0 where
  pub filled : Channel
  pub emptied : Channel
  pub sends : run (map sending vs) ch ≡ some (vs, [], filled)
  pub receives : run (replicate (length vs) receiving) filled ≡ some ([], vs, emptied)
  pub still : Open 0 emptied

-- On an open and empty channel, at most 64 sends run without waiting, and as many receives after them run
-- without waiting and give the same values in the same order; the channel is then open and empty again,
-- wherever its head stood.
pub channel-Through : (vs : List ℤ) (ch : Channel) → Open 0 ch → length vs ≤ 64 → Through vs ch
channel-Through vs ch o fits =
    let full = run_sends 0 vs ch o (omega arith) in
    let none_left : waiting full.last ≡ vs =
      full.waits ∙ ap (λ k. gather ch.ring.items 64 (pos 0) ch.ring.head k ++ vs) o.count in
    let drained = run_recvs (length vs) full.last (record {
      unshut = full.still.unshut;
      shape = full.still.shape;
      count = omega (arith, full.still.count);
    }) in
    record {
      filled = full.last;
      emptied = drained.last;
      sends = full.ran;
      receives = drained.ran ∙ ap (λ xs. some ([], xs, drained.last)) none_left;
      still = drained.still;
    }
