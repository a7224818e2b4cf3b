-- ===== src/Vectored/Sent.antt =====
-- What the loop over a socket sends (runtime/xiom_runtime.c, 9384 to 9411).
use stdlib.Base.{
  ℕ, zero, suc, ◌+◌, ◌-◌, ◌≤◌, ◌<◌, ◌≡◌, refl, sym, ap, ◌∙◌, subst, inl, inr, true, false, Option,
  none, some, List, [], ◌∷◌, ◌++◌, arith, leb, ◌==◌, length, length-append, take, drop,
  take-append-drop, length-drop, Bool-cases,
}
use mathlib.Core.List.{append_assoc, append-nil}
use stdlib.Digest.Chunks.{drop-append}
use stdlib.Vectored.{Buffer, range, flatten, is_empty, skip_empty, advance, send_loop, size_of}

pub length-range : (a n : ℕ) → length (range a n) ≡ n
length-range a zero = refl
length-range a (suc n) = ap suc (length-range (suc a) n)

pub drop-range : (r a n : ℕ) → drop r (range a n) ≡ range (a + r) (n - r)
drop-range zero a n =
    let e : a + 0 ≡ a = omega arith in let e' : n - 0 ≡ n = omega arith in rw (e, e') refl
drop-range (suc r) a zero = let e : 0 - suc r ≡ 0 = omega arith in rw e refl
drop-range (suc r) a (suc n) =
    let e : a + suc r ≡ suc a + r = omega arith in
    let e' : suc n - suc r ≡ n - r = omega arith in rw (e, e') (drop-range r (suc a) n)

-- A drop past a list goes on in the next.
drop-past : (r : ℕ) (xs ys : List ℕ) → length xs ≤ r → drop r (xs ++ ys) ≡ drop (r - length xs) ys
drop-past r [] ys h = let e : r - 0 ≡ r = omega arith in rw e refl
drop-past zero (x ∷ xs) ys h = absurd (omega arith)
drop-past (suc r) (x ∷ xs) ys h =
    let e : suc r - suc (length xs) ≡ r - length xs = omega arith in
    rw e (drop-past r xs ys (omega arith))

flatten-skip_empty : (bs : List Buffer) → flatten (skip_empty bs) ≡ flatten bs
unfolding skip_empty
flatten-skip_empty [] = refl
flatten-skip_empty (b ∷ bs) = elim (Bool-cases (b.len == 0)) [
  | inl none_here ↦
      let e : b.len ≡ 0 = ground arith in
      rw none_here (flatten-skip_empty bs ∙ ap (λ n. range b.buf n ++ flatten bs) (sym e))
  | inr some_here ↦ rw some_here refl
]

-- The advance leaves what was not sent.
flatten-advance : (r : ℕ) (bs : List Buffer) → flatten (advance r bs) ≡ drop r (flatten bs)
unfolding advance
flatten-advance zero [] = refl
flatten-advance (suc r) [] = refl
flatten-advance r (b ∷ bs) = elim (Bool-cases (r == 0)) [
  | inl done ↦ let e : r ≡ 0 = ground arith in rw done (ap (λ n. drop n (flatten (b ∷ bs))) (sym e))
  | inr more ↦ elim (Bool-cases (leb b.len r)) [
    | inl whole ↦
        let size = length-range b.buf b.len in
        rw (more, whole)
          (flatten-advance (r - b.len) bs
            ∙ ap (λ n. drop (r - n) (flatten bs)) (sym size)
            ∙ sym (drop-past r (range b.buf b.len) (flatten bs) (ground (arith, size))))
    | inr part ↦
        let size = length-range b.buf b.len in
        rw (more, part)
          (ap (λ xs. xs ++ flatten bs) (sym (drop-range r b.buf b.len))
            ∙ sym (drop-append r (range b.buf b.len) (flatten bs) (ground (arith, size))))
  ]
]

-- The result and the bytes: all of them and their number, or -1 and the first of them, which only a `fault` gives.
pub record Whole (fault : Type 0) (total : ℕ) (out : List ℕ) (bytes : List ℕ)
    (r : Option ℕ × List ℕ) : Type 0 where
  pub sent : (n : ℕ) × (r.1 ≡ out ++ take n bytes)
  pub counted : (t : ℕ) → r.0 ≡ some t → (t ≡ total + length bytes) × (r.1 ≡ out ++ bytes)
  pub broken : r.0 ≡ none → fault

-- A call that took nothing of what it was offered.
pub data SendFails (sends : ℕ → List Buffer → ℕ) : Type 0 where
  send_fails : (k : ℕ) (bs : List Buffer) → 0 < size_of bs → sends k bs ≡ 0 → SendFails sends

nothing_left : (bs : List Buffer) → is_empty bs ≡ true → flatten bs ≡ []
nothing_left [] h = refl
nothing_left (b ∷ bs) h = absurd cc

something_left : (bs : List Buffer) → is_empty (skip_empty bs) ≡ false → 0 < size_of (skip_empty bs)
unfolding skip_empty
something_left [] h = absurd cc
something_left (b ∷ bs) h = elim (Bool-cases (b.len == 0)) [
  | inl none_here ↦ rw none_here (something_left bs (rw none_here at h))
  | inr some_here ↦
      rw some_here
        (ground (arith, length-append (range b.buf b.len) (flatten bs), length-range b.buf b.len))
]

take-none : (n : ℕ) → take {A = ℕ} n [] ≡ []
take-none zero = refl
take-none (suc n) = refl

take-more : (s n : ℕ) (xs : List ℕ) → take s xs ++ take n (drop s xs) ≡ take (s + n) xs
take-more zero n xs = let e : 0 + n ≡ n = omega arith in rw e refl
take-more (suc s) n [] = take-none n ∙ sym (take-none (suc s + n))
take-more (suc s) n (x ∷ xs) =
    let e : suc s + n ≡ suc (s + n) = omega arith in
    rw e (ap (λ (ys : List ℕ). x ∷ ys) (take-more s n xs))

pub ended :
    (fault : Type 0) (total : ℕ) (out bytes : List ℕ)
    → bytes ≡ []
    → Whole fault total out bytes (some total, out)
ended fault total out bytes e = rw e (record {
  sent = (0, sym (append-nil out));
  counted = λ t h. (let same : total ≡ t = cc in omega (arith, same), sym (append-nil out));
  broken = λ h. absurd cc;
})

pub failed :
    (fault : Type 0) (total : ℕ) (out bytes : List ℕ)
    → fault
    → Whole fault total out bytes (none, out)
failed fault total out bytes f = record {
  sent = (0, sym (append-nil out));
  counted = λ t h. absurd cc;
  broken = λ h. f;
}

pub further :
    (fault : Type 0) (total s : ℕ) (out bytes : List ℕ) (r : Option ℕ × List ℕ)
    → s ≤ length bytes
    → Whole fault (total + s) (out ++ take s bytes) (drop s bytes) r
    → Whole fault total out bytes r
further fault total s out bytes r le w = record {
  broken = w.broken;
  sent = (
    s + w.sent.0,
    w.sent.1
        ∙ append_assoc out (take s bytes) (take w.sent.0 (drop s bytes))
        ∙ ap (λ xs. out ++ xs) (take-more s w.sent.0 bytes),
  );
  counted = λ t h.
      let (count, all) = w.counted t h in
      (
        omega (arith, count, length-drop s bytes, le),
        all
            ∙ append_assoc out (take s bytes) (drop s bytes)
            ∙ ap (λ xs. out ++ xs) (take-append-drop s bytes),
      );
}

moved :
    (fault : Type 0) (total s : ℕ) (out offered bytes left : List ℕ) (r : Option ℕ × List ℕ)
    → offered ≡ bytes
    → left ≡ drop s offered
    → Whole fault total (out ++ take s offered) left r
    → Whole fault total (out ++ take s bytes) (drop s bytes) r
moved fault total s out offered bytes left r e e' w =
    subst (λ xs. Whole fault total (out ++ take s xs) (drop s xs) r) e
      (subst (λ xs. Whole fault total (out ++ take s offered) xs r) e' w)

-- The loop over a socket ends, when no call sends more than it was offered, whatever the calls send: a total is that of
-- all the bytes, which were sent once each and in their order, and with -1 the first of them were sent, and
-- some call takes nothing of what it is offered.
pub send_loop-Whole :
    (sends : ℕ → List Buffer → ℕ)
    → ((k : ℕ) (bs : List Buffer) → sends k bs ≤ size_of bs)
    → (fuel k total : ℕ) (out : List ℕ) (bs : List Buffer) → size_of bs < fuel
    → (r : Option ℕ × List ℕ) × (send_loop sends fuel k total out bs ≡ some r)
      × Whole (SendFails sends) total out (flatten bs) r
unfolding send_loop
send_loop-Whole sends law zero k total out bs small = absurd (omega arith)
send_loop-Whole sends law (suc fuel) k total out bs small =
    let left = skip_empty bs in
    let same = flatten-skip_empty bs in
    elim (Bool-cases (is_empty left)) [
      | inl none_left ↦ (
        (some total, out),
        rw none_left refl,
        ended (SendFails sends) total out (flatten bs) (sym same ∙ nothing_left left none_left),
      )
      | inr some_left ↦
          let s = sends k left in
          let fits : s ≤ length (flatten bs) = omega (arith, law k left, ap length same) in
          elim (Bool-cases (s == 0)) [
            | inl error ↦ (
              (none, out),
              rw (some_left, error) refl,
              failed (SendFails sends) total out (flatten bs)
                  (send_fails k left (something_left bs some_left) (ground arith)),
            )
            | inr got ↦
                let rest = flatten-advance s left in
                let shorter : size_of (advance s left) < fuel =
                  ground (arith, ap length rest, length-drop s (flatten left), ap length same) in
                let (r, ran, whole) =
                  send_loop-Whole sends law fuel (k + 1) (total + s) (out ++ take s (flatten left))
                    (advance s left) shorter in
                (
                  r,
                  rw (some_left, got) ran,
                  further (SendFails sends) total s out (flatten bs) r fits (
                      moved (SendFails sends) (total + s) s out (flatten left) (flatten bs)
                        (flatten (advance s left)) r same rest whole),
                )
          ]
    ]
