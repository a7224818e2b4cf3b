-- ===== src/Vectored/Written.antt =====
-- What the fallback over a descriptor of the C library writes, and the whole call (runtime/xiom_runtime.c, 9366 to 9435).
use stdlib.Base.{
  ℕ, zero, suc, ◌+◌, ◌-◌, ◌≤◌, ◌<◌, ◌≡◌, refl, sym, ap, ◌∙◌, subst, inl, inr, Bool, true, false,
  Option, none, some, List, [], ◌∷◌, ◌++◌, arith, ltb, ◌==◌, if◌then◌else◌, length, length-append,
  take, drop, Bool-cases,
}
use mathlib.Core.List.{append_assoc}
use stdlib.Base.Int.{ℤ, pos}
use stdlib.Vectored.{
  Buffer, range, flatten, buffers, chunk_max, writev_max, fd_guard_max, write_loop, write_all,
  size_of, fd_writev,
}
use stdlib.Vectored.Sent.{
  Whole, SendFails, length-range, drop-range, ended, failed, further, send_loop-Whole,
}

take-range : (w p n : ℕ) → w ≤ n → take w (range p n) ≡ range p w
take-range zero p n h = refl
take-range (suc w) p zero h = absurd (omega arith)
take-range (suc w) p (suc n) h = ap (λ (xs : List ℕ). p ∷ xs) (take-range w (suc p) n (omega arith))

take-within : (n : ℕ) (xs ys : List ℕ) → (m : ℕ) × (take n xs ≡ take m (xs ++ ys))
take-within zero xs ys = (0, refl)
take-within (suc n) [] ys = (0, refl)
take-within (suc n) (x ∷ xs) ys =
    let (m, e) = take-within n xs ys in (suc m, ap (λ (zs : List ℕ). x ∷ zs) e)

take-past : (n : ℕ) (xs ys : List ℕ) → take (length xs + n) (xs ++ ys) ≡ xs ++ take n ys
take-past n [] ys = let e : 0 + n ≡ n = omega arith in rw e refl
take-past n (x ∷ xs) ys =
    let e : suc (length xs) + n ≡ suc (length xs + n) = omega arith in
    rw e (ap (λ (zs : List ℕ). x ∷ zs) (take-past n xs ys))

abbrev total_of : Option (ℕ × ℕ) → Option ℕ
total_of none = none
total_of (some (k, t)) = some t

-- The pairs of buffers.
abbrev pub pairs_of : List Buffer → List (ℕ × ℤ)
pairs_of [] = []
pairs_of (b ∷ bs) = (b.buf, pos b.len) ∷ pairs_of bs

-- A call that wrote nothing of what it was offered.
pub data WriteFails (writes : ℕ → ℕ → ℕ → ℕ) : Type 0 where
  write_fails : (k p c : ℕ) → 0 < c → writes k p c ≡ 0 → WriteFails writes

module _ (writes : ℕ → ℕ → ℕ → ℕ) (law : (k p c : ℕ) → writes k p c ≤ c) where
  write_loop-Whole :
      (fuel k total : ℕ) (out : List ℕ) (p len : ℕ)
      → len < fuel
      → (r : Option (ℕ × ℕ) × List ℕ) × (write_loop writes fuel k total out p len ≡ some r)
        × Whole (WriteFails writes) total out (range p len) (total_of r.0, r.1)
  unfolding write_loop
  write_loop-Whole zero k total out p len small = absurd (omega arith)
  write_loop-Whole (suc fuel) k total out p len small = elim (Bool-cases (len == 0)) [
    | inl done ↦
        let e : len ≡ 0 = ground arith in
        (
          (some (k, total), out),
          rw done refl,
          ended (WriteFails writes) total out (range p len) (ap (range p) e),
        )
    | inr more ↦
        let chunk = if ltb chunk_max len then chunk_max else len in
        let w = writes k p chunk in
        let offered : chunk ≤ len = ground arith in
        let fits : w ≤ len = omega (arith, law k p chunk, offered) in
        elim (Bool-cases (w == 0)) [
          | inl error ↦ (
            (none, out),
            rw (more, error) refl,
            failed (WriteFails writes) total out (range p len)
                (write_fails k p chunk (ground arith) (ground arith)),
          )
          | inr got ↦
              let (r, ran, whole) =
                write_loop-Whole fuel (k + 1) (total + w) (out ++ range p w) (p + w) (len - w)
                  (ground (arith, small, fits)) in
              (
                r,
                rw (more, got) ran,
                further (WriteFails writes) total w out (range p len) _
                    (omega (arith, fits, length-range p len))
                    (subst
                      (λ xs.
                        Whole (WriteFails writes) (total + w) (out ++ xs) (drop w (range p len))
                          (total_of r.0, r.1))
                      (sym (take-range w p len fits))
                      (subst
                        (λ xs.
                          Whole (WriteFails writes) (total + w) (out ++ range p w) xs
                            (total_of r.0, r.1))
                        (sym (drop-range w p len)) whole)),
              )
        ]
  ]

  -- A segment and what follows it.
  segment_failed :
      (total : ℕ) (out xs ys out' : List ℕ)
      → Whole (WriteFails writes) total out xs (none, out')
      → Whole (WriteFails writes) total out (xs ++ ys) (none, out')
  segment_failed total out xs ys out' w =
      let (m, e) = take-within w.sent.0 xs ys in
      record {
        sent = (m, w.sent.1 ∙ ap (λ zs. out ++ zs) e);
        counted = λ t h. absurd cc;
        broken = w.broken;
      }

  segment_done :
      (total t : ℕ) (out xs ys out' : List ℕ) (r : Option ℕ × List ℕ)
      → Whole (WriteFails writes) total out xs (some t, out')
      → Whole (WriteFails writes) t out' ys r
      → Whole (WriteFails writes) total out (xs ++ ys) r
  segment_done total t out xs ys out' r w v =
      let (count, all) = w.counted t refl in
      record {
        broken = v.broken;
        sent = (
          length xs + v.sent.0,
          v.sent.1
              ∙ ap (λ zs. zs ++ take v.sent.0 ys) all
              ∙ append_assoc out xs (take v.sent.0 ys)
              ∙ ap (λ zs. out ++ zs) (sym (take-past v.sent.0 xs ys)),
        );
        counted = λ n h.
            let (count', all') = v.counted n h in
            (
              omega (arith, count, count', length-append xs ys),
              all' ∙ ap (λ zs. zs ++ ys) all ∙ append_assoc out xs ys,
            );
      }

  write_all-Whole :
      (k total : ℕ) (out : List ℕ) (bs : List Buffer)
      → (r : Option ℕ × List ℕ) × (write_all writes k total out (pairs_of bs) ≡ some r)
        × Whole (WriteFails writes) total out (flatten bs) r
  unfolding write_all
  write_all-Whole k total out [] =
      ((some total, out), refl, ended (WriteFails writes) total out [] refl)
  write_all-Whole k total out (b ∷ bs) =
      let (r, ran, whole) = write_loop-Whole (suc b.len) k total out b.buf b.len (omega arith) in
      segment r ran whole (λ k' t out'. write_all-Whole k' t out' bs)
    where
      segment :
          (r : Option (ℕ × ℕ) × List ℕ)
          → write_loop writes (suc b.len) k total out b.buf b.len ≡ some r
          → Whole (WriteFails writes) total out (range b.buf b.len) (total_of r.0, r.1)
          → ((k' t : ℕ) (out' : List ℕ)
              → (r' : Option ℕ × List ℕ) × (write_all writes k' t out' (pairs_of bs) ≡ some r')
                × Whole (WriteFails writes) t out' (flatten bs) r')
          → (r' : Option ℕ × List ℕ) × (write_all writes k total out (pairs_of (b ∷ bs)) ≡ some r')
            × Whole (WriteFails writes) total out (flatten (b ∷ bs)) r'
      segment (none, out') ran whole rest = (
        (none, out'),
        rw (write_all, ran) refl,
        segment_failed total out (range b.buf b.len) (flatten bs) out' whole,
      )
      segment (some (k', t), out') ran whole rest =
          let (r', ran', whole') = rest k' t out' in
          (
            r',
            rw (write_all, ran) ran',
            segment_done total t out (range b.buf b.len) (flatten bs) out' r' whole whole',
          )

-- Lengths that a socket takes.
abbrev pub AllShort : List Buffer → Type 0
AllShort [] = Unit {0}
AllShort (b ∷ bs) = (b.len ≤ 0xFFFFFFFF) × AllShort bs

buffers-pairs_of : (bs : List Buffer) → AllShort bs → buffers (pairs_of bs) ≡ some bs
unfolding buffers
buffers-pairs_of [] h = refl
buffers-pairs_of (b ∷ bs) (short, rest) =
    let fits : ltb 0xFFFFFFFF b.len ≡ false = ground arith in
    rw (fits, buffers-pairs_of bs rest) refl

length-pairs_of : (bs : List Buffer) → length (pairs_of bs) ≡ length bs
length-pairs_of [] = refl
length-pairs_of (b ∷ bs) = ap suc (length-pairs_of bs)

-- What stops a write.
abbrev pub Fails : (ℕ → List Buffer → ℕ) → (ℕ → ℕ → ℕ → ℕ) → Bool → Type 0
Fails sends writes true = SendFails sends
Fails sends writes false = WriteFails writes

pub write-Whole :
    (sends : ℕ → List Buffer → ℕ)
    → ((k : ℕ) (bs : List Buffer) → sends k bs ≤ size_of bs)
    → (writes : ℕ → ℕ → ℕ → ℕ) → ((k p c : ℕ) → writes k p c ≤ c)
    → (socket : Bool) (fd : ℕ) (bs : List Buffer) → AllShort bs
    → length bs ≤ writev_max
    → fd ≤ fd_guard_max
    → (r : Option ℕ × List ℕ) × (fd_writev sends writes socket (pos fd) (some (pairs_of bs))
        ≡ some r)
      × Whole (Fails sends writes socket) 0 [] (flatten bs) r
unfolding fd_writev
write-Whole sends sent_le writes written_le socket fd [] short few valid =
    ((some 0, []), refl, ended (Fails sends writes socket) 0 [] [] refl)
write-Whole sends sent_le writes written_le true fd (b ∷ bs) short few valid =
    let within : ltb writev_max (length (pairs_of (b ∷ bs))) ≡ false =
      ground (arith, length-pairs_of (b ∷ bs)) in
    let parsed = buffers-pairs_of (b ∷ bs) short in
    let (r, ran, whole) =
      send_loop-Whole sends sent_le (suc (size_of (b ∷ bs))) 0 0 [] (b ∷ bs) (omega arith) in
    (r, rw (within, parsed) ran, whole)
write-Whole sends sent_le writes written_le false fd (b ∷ bs) short few valid =
    let within : ltb writev_max (length (pairs_of (b ∷ bs))) ≡ false =
      ground (arith, length-pairs_of (b ∷ bs)) in
    let valid' : ltb fd_guard_max fd ≡ false = ground arith in
    let (r, ran, whole) = write_all-Whole writes written_le 0 0 [] (b ∷ bs) in
    (r, rw (within, valid') ran, whole)
