-- ===== src/Process/Unquoted.antt =====
-- The argument that the C library of Windows reads back from a quoted one (runtime/xiom_runtime.c, 5009 to 5080).
use stdlib.Base.{
  ◌<◌, ltb, length, if◌then◌else◌, ℕ, zero, suc, ◌+◌, ◌*◌, ◌≡◌, refl, sym, ap, ◌∙◌, subst, ◌⊎◌, inl,
  inr, Bool, true, false, ◌||◌, Option, List, [], ◌∷◌, ◌++◌, arith, ◌==◌, Bool-cases,
}
use mathlib.Core.List.{append_assoc, append-nil}
use stdlib.Base.Chain.{◌>>=◌}
use stdlib.Process.Adds.{
  slashes, Written, then-Written, last-Written, put_byte-Adds, put_times-Adds, put_plain-Adds,
  put_pairs-Adds,
}
use stdlib.Process.Quoting.{
  space, tab, quote, backslash, put_byte, put_plain, put_times, quoted, has_special, needs_quotes,
  win_quote_arg,
}

abbrev pub blank : ℕ → Bool
blank c = (c == space) || (c == tab)

-- What follows an argument on the line: the end, or a space.
pub data Follows : List ℕ → Type 0 where
  at_end : Follows []
  at_space : (rest : List ℕ) → Follows (space ∷ rest)

-- What the library documents of its parser: `reads q line arg` is that from `line`, inside quotes or not, the rest of the
-- argument is `arg`. Of a run of backslashes before a quote half are kept, and an odd one makes the quote a byte of the
-- argument; any other run is kept; a quote goes into or out of quotes; an argument ends at a blank outside quotes.
pub record Parser (reads : Bool → List ℕ → List ℕ → Type 0) : Type 0 where
  pub opens : (rest arg : List ℕ) → reads true rest arg → reads false (quote ∷ rest) arg
  pub closes :
      (m : ℕ) (rest : List ℕ)
      → Follows rest
      → reads true (slashes (2 * m) ++ (quote ∷ rest)) (slashes m)
  pub escapes :
      (q : Bool) (m : ℕ) (rest arg : List ℕ)
      → reads q rest arg
      → reads q (slashes (2 * m + 1) ++ (quote ∷ rest)) (slashes m ++ (quote ∷ arg))
  pub plain :
      (q : Bool) (m c : ℕ) (rest arg : List ℕ)
      → (c == quote) ≡ false
      → (c == backslash) ≡ false
      → (q ≡ true) ⊎ (blank c ≡ false)
      → reads q rest arg
      → reads q (slashes m ++ (c ∷ rest)) (slashes m ++ (c ∷ arg))
  pub ends : (m : ℕ) (rest : List ℕ) → Follows rest → reads false (slashes m ++ rest) (slashes m)

one_more : (m : ℕ) (xs : List ℕ) → slashes (m + 1) ++ xs ≡ slashes m ++ (backslash ∷ xs)
one_more zero xs = refl
one_more (suc m) xs =
    let e : suc m + 1 ≡ suc (m + 1) = omega arith in
    rw e (ap (λ (ys : List ℕ). backslash ∷ ys) (one_more m xs))

neither : (a b : Bool) → (a || b) ≡ false → (a ≡ false) × (b ≡ false)
neither true b h = absurd cc
neither false b h = (refl, h)

needs_no_quotes : (arg : List ℕ) → needs_quotes arg ≡ false → has_special arg ≡ false
unfolding needs_quotes
needs_no_quotes [] h = absurd cc
needs_no_quotes (c ∷ cs) h = h

module _ (reads : Bool → List ℕ → List ℕ → Type 0) (parser : Parser reads) where
  -- Bytes that are read back as the argument, whatever follows.
  abbrev pub Reads : Bool → List ℕ → List ℕ → Type 0
  Reads q arg more = (tail : List ℕ) → Follows tail → reads q (more ++ tail) arg

  run_byte :
      (cap n c : ℕ) (out : List ℕ) (P Q : List ℕ → Type 0) (f : List ℕ → Option (List ℕ))
      → ((out' : List ℕ) → Written out' P (f out'))
      → ((more : List ℕ) → P more → Q (slashes n ++ (c ∷ more)))
      → Written out Q (put_times cap n backslash out >>= (λ out1. put_byte cap c out1 >>= f))
  run_byte cap n c out P Q f next keeps =
      then-Written out (slashes n) (λ more. Q (slashes n ++ more)) Q _ _
        (put_times-Adds cap n backslash out)
        (λ out1.
          then-Written out1 (c ∷ []) P (λ more. Q (slashes n ++ more)) _ f
            (put_byte-Adds cap c out1) next keeps)
        (λ more q. q)

  regrouped :
      (n c : ℕ) (more tail arg : List ℕ)
      → reads true (slashes n ++ (c ∷ (more ++ tail))) arg
      → reads true ((slashes n ++ (c ∷ more)) ++ tail) arg
  regrouped n c more tail arg r =
      subst (λ xs. reads true xs arg) (sym (append_assoc (slashes n) (c ∷ more) tail)) r

  quoted-Written :
      (cap bs : ℕ) (cs out : List ℕ)
      → Written out (Reads true (slashes bs ++ cs)) (quoted cap bs cs out)
  unfolding quoted
  quoted-Written cap bs [] out =
      then-Written out (slashes (2 * bs)) (λ more. more ≡ quote ∷ [])
        (Reads true (slashes bs ++ [])) _ _ (put_pairs-Adds cap bs out)
        (λ out'. last-Written out' (quote ∷ []) _ _ (put_byte-Adds cap quote out') refl)
        (λ more e tail follows.
          subst (λ xs. reads true ((slashes (2 * bs) ++ xs) ++ tail) (slashes bs ++ [])) (sym e)
            (subst (λ xs. reads true xs (slashes bs ++ []))
              (sym (append_assoc (slashes (2 * bs)) (quote ∷ []) tail))
              (subst (λ arg. reads true (slashes (2 * bs) ++ (quote ∷ tail)) arg)
                (sym (append-nil (slashes bs))) (parser.closes bs tail follows))))
  quoted-Written cap bs (c ∷ cs) out = elim (Bool-cases (c == backslash)) [
    | inl slash ↦
        let e : c ≡ backslash = ground arith in
        let arg : slashes (bs + 1) ++ cs ≡ slashes bs ++ (c ∷ cs) =
          one_more bs cs ∙ ap (λ n. slashes bs ++ (n ∷ cs)) (sym e) in
        rw slash (
          subst (λ xs. Written out (Reads true xs) (quoted cap (bs + 1) cs out)) arg
            (quoted-Written cap (bs + 1) cs out))
    | inr other ↦ elim (Bool-cases (c == quote)) [
      | inl is_quote ↦
          let e : c ≡ quote = ground arith in
          rw (other, is_quote)
            (run_byte cap (2 * bs + 1) quote out (Reads true cs)
              (Reads true (slashes bs ++ (c ∷ cs))) _ (λ out'. quoted-Written cap 0 cs out')
              (λ more r tail follows.
                regrouped (2 * bs + 1) quote more tail (slashes bs ++ (c ∷ cs)) (
                  subst
                    (λ n.
                      reads true (slashes (2 * bs + 1) ++ (quote ∷ (more ++ tail)))
                        (slashes bs ++ (n ∷ cs)))
                    (sym e) (parser.escapes true bs (more ++ tail) cs (r tail follows)))))
      | inr is_plain ↦
          rw (other, is_plain)
            (run_byte cap bs c out (Reads true cs) (Reads true (slashes bs ++ (c ∷ cs))) _
              (λ out'. quoted-Written cap 0 cs out')
              (λ more r tail follows. regrouped bs c more tail (slashes bs ++ (c ∷ cs)) (
                parser.plain true bs c (more ++ tail) cs is_plain other (inl refl)
                  (r tail follows))))
    ]
  ]

  -- An argument with neither blank nor quote, as it is.
  bare :
      (m : ℕ) (cs tail : List ℕ)
      → has_special cs ≡ false
      → Follows tail
      → reads false (slashes m ++ (cs ++ tail)) (slashes m ++ cs)
  unfolding has_special
  bare m [] tail h follows =
      subst (λ arg. reads false (slashes m ++ tail) arg) (sym (append-nil (slashes m)))
        (parser.ends m tail follows)
  bare m (c ∷ cs) tail h follows =
      let (start, rest) = neither ((c == space) || (c == tab) || (c == quote)) (has_special cs) h in
      let (start', no_quote) = neither ((c == space) || (c == tab)) (c == quote) start in
      let (no_space, no_tab) = neither (c == space) (c == tab) start' in
      elim (Bool-cases (c == backslash)) [
        | inl slash ↦
            let e : c ≡ backslash = ground arith in
            subst (λ b. reads false (slashes m ++ (b ∷ (cs ++ tail))) (slashes m ++ (b ∷ cs)))
              (sym e)
              (subst (λ xs. reads false xs (slashes m ++ (backslash ∷ cs)))
                (one_more m (cs ++ tail))
                (subst (λ xs. reads false (slashes (m + 1) ++ (cs ++ tail)) xs) (one_more m cs)
                  (bare (m + 1) cs tail rest follows)))
        | inr other ↦
            parser.plain false m c (cs ++ tail) cs no_quote other (inr (rw (no_space, no_tab) refl))
              (bare 0 cs tail rest follows)
      ]

  -- A space and bytes that are read back.
  abbrev pub Spaced : List ℕ → List ℕ → Type 0
  Spaced arg more = (inner : List ℕ) × (more ≡ space ∷ inner) × Reads false arg inner

  body-Written :
      (cap : ℕ) (arg out : List ℕ)
      → Written out (Reads false arg) (
          if needs_quotes arg
          then put_byte cap quote out >>= quoted cap 0 arg
          else put_plain cap arg out)
  body-Written cap arg out = elim (Bool-cases (needs_quotes arg)) [
    | inl needs ↦ rw needs (
        then-Written out (quote ∷ []) (Reads true arg) (Reads false arg) (put_byte cap quote out) _
          (put_byte-Adds cap quote out) (λ out'. quoted-Written cap 0 arg out')
          (λ more r tail follows. parser.opens (more ++ tail) arg (r tail follows)))
    | inr plain ↦ rw plain (
        last-Written out arg (Reads false arg) _ (put_plain-Adds cap arg out)
          (λ tail follows. bare 0 arg tail (needs_no_quotes arg plain) follows))
  ]

  -- Behind other arguments, a space and the argument as it is read back are added.
  pub win_quote_arg-Written :
      (cap : ℕ) (arg out : List ℕ)
      → 0 < length out
      → Written out (Spaced arg) (win_quote_arg cap arg out)
  unfolding win_quote_arg
  win_quote_arg-Written cap arg out later =
      let behind : ltb 0 (length out) ≡ true = ground arith in
      rw behind (
        then-Written out (space ∷ []) (Reads false arg) (Spaced arg) (put_byte cap space out) _
          (put_byte-Adds cap space out) (λ out'. body-Written cap arg out')
          (λ more r. (more, refl, r)))
