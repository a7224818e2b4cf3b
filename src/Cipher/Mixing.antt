-- ===== src/Cipher/Mixing.antt =====
-- The inverse of the column mixing (runtime/xiom_runtime.c, 152 to 177), by polynomials.
use stdlib.Base.{ℕ, ◌≡◌, refl, sym, ap, ◌∙◌, bit_xor, Bool, true, false, List, [], ◌∷◌}
use stdlib.Base.Xor.{xor-zero, zero-xor, xor_swap}
use stdlib.Cipher.{xtime, Column, mix_column, inv_mix_column}
use stdlib.Cipher.Linear.{at, plus, at-xtime, at-plus, xtime-xor}

-- An expression in the four bytes of a column.
data Form : Type 0 where
  byte0 : Form
  byte1 : Form
  byte2 : Form
  byte3 : Form
  sum : Form → Form → Form
  double : Form → Form

denote : Form → Column → ℕ
denote byte0 c = c.a0
denote byte1 c = c.a1
denote byte2 c = c.a2
denote byte3 c = c.a3
denote (sum f g) c = bit_xor (denote f c) (denote g c)
denote (double f) c = xtime (denote f c)

-- A polynomial in each byte.
record Polynomials : Type 0 where
  p0 : List Bool
  p1 : List Bool
  p2 : List Bool
  p3 : List Bool

norm : Form → Polynomials
norm byte0 = record { p0 = true ∷ []; p1 = []; p2 = []; p3 = [] }
norm byte1 = record { p0 = []; p1 = true ∷ []; p2 = []; p3 = [] }
norm byte2 = record { p0 = []; p1 = []; p2 = true ∷ []; p3 = [] }
norm byte3 = record { p0 = []; p1 = []; p2 = []; p3 = true ∷ [] }
norm (sum f g) =
    let p = norm f in
    let q = norm g in
    record { p0 = plus p.p0 q.p0; p1 = plus p.p1 q.p1; p2 = plus p.p2 q.p2; p3 = plus p.p3 q.p3 }
norm (double f) =
    let p = norm f in
    record { p0 = false ∷ p.p0; p1 = false ∷ p.p1; p2 = false ∷ p.p2; p3 = false ∷ p.p3 }

value : Polynomials → Column → ℕ
value p c = bit_xor (bit_xor (bit_xor (at p.p0 c.a0) (at p.p1 c.a1)) (at p.p2 c.a2)) (at p.p3 c.a3)

sound : (f : Form) (c : Column) → denote f c ≡ value (norm f) c
unfolding denote norm value at plus
sound byte0 c = simp xor-zero refl
sound byte1 c = simp (xor-zero, zero-xor) refl
sound byte2 c = simp (xor-zero, zero-xor) refl
sound byte3 c = simp (xor-zero, zero-xor) refl
sound (sum f g) c =
    let p = norm f in
    let q = norm g in
    let x0 = at p.p0 c.a0 in
    let x1 = at p.p1 c.a1 in
    let x2 = at p.p2 c.a2 in
    let x3 = at p.p3 c.a3 in
    let y0 = at q.p0 c.a0 in
    let y1 = at q.p1 c.a1 in
    let y2 = at q.p2 c.a2 in
    let y3 = at q.p3 c.a3 in
    rw (sound f c, sound g c)
      (xor_swap (bit_xor (bit_xor x0 x1) x2) x3 (bit_xor (bit_xor y0 y1) y2) y3
        ∙ ap (λ t. bit_xor t (bit_xor x3 y3))
            (xor_swap (bit_xor x0 x1) x2 (bit_xor y0 y1) y2
              ∙ ap (λ t. bit_xor t (bit_xor x2 y2)) (xor_swap x0 x1 y0 y1))
        ∙ sym (
            rw
              (
                at-plus p.p0 q.p0 c.a0,
                at-plus p.p1 q.p1 c.a1,
                at-plus p.p2 q.p2 c.a2,
                at-plus p.p3 q.p3 c.a3,
              )
              refl))
sound (double f) c =
    let p = norm f in
    let x0 = at p.p0 c.a0 in
    let x1 = at p.p1 c.a1 in
    let x2 = at p.p2 c.a2 in
    let x3 = at p.p3 c.a3 in
    ap xtime (sound f c)
    ∙ xtime-xor (bit_xor (bit_xor x0 x1) x2) x3
    ∙ ap (λ t. bit_xor t (xtime x3))
        (xtime-xor (bit_xor x0 x1) x2 ∙ ap (λ t. bit_xor t (xtime x2)) (xtime-xor x0 x1))
    ∙ rw (at-xtime p.p0 c.a0, at-xtime p.p1 c.a1, at-xtime p.p2 c.a2, at-xtime p.p3 c.a3)
        (simp zero-xor refl)

-- The four mixed bytes, and what the inverse makes of them.
abbrev sums : Form → Form → Form → Form → Form
sums f g h k = sum (sum (sum f g) h) k

abbrev mixed0 : Form
mixed0 = sums (double byte0) (sum (double byte1) byte1) byte2 byte3

abbrev mixed1 : Form
mixed1 = sums byte0 (double byte1) (sum (double byte2) byte2) byte3

abbrev mixed2 : Form
mixed2 = sums byte0 byte1 (double byte2) (sum (double byte3) byte3)

abbrev mixed3 : Form
mixed3 = sums (sum (double byte0) byte0) byte1 byte2 (double byte3)

abbrev times9 : Form → Form
times9 f = sum (double (double (double f))) f

abbrev times11 : Form → Form
times11 f = sum (sum (double (double (double f))) (double f)) f

abbrev times13 : Form → Form
times13 f = sum (sum (double (double (double f))) (double (double f))) f

abbrev times14 : Form → Form
times14 f = sum (sum (double (double (double f))) (double (double f))) (double f)

module _ (c : Column) where
  back0 : (inv_mix_column (mix_column c)).a0 ≡ c.a0
  unfolding inv_mix_column mix_column denote norm value at plus
  back0 =
      sound (sums (times14 mixed0) (times11 mixed1) (times13 mixed2) (times9 mixed3)) c
      ∙ simp xor-zero refl

  back1 : (inv_mix_column (mix_column c)).a1 ≡ c.a1
  unfolding inv_mix_column mix_column denote norm value at plus
  back1 =
      sound (sums (times9 mixed0) (times14 mixed1) (times11 mixed2) (times13 mixed3)) c
      ∙ simp (xor-zero, zero-xor) refl

  back2 : (inv_mix_column (mix_column c)).a2 ≡ c.a2
  unfolding inv_mix_column mix_column denote norm value at plus
  back2 =
      sound (sums (times13 mixed0) (times9 mixed1) (times14 mixed2) (times11 mixed3)) c
      ∙ simp (xor-zero, zero-xor) refl

  back3 : (inv_mix_column (mix_column c)).a3 ≡ c.a3
  unfolding inv_mix_column mix_column denote norm value at plus
  back3 =
      sound (sums (times11 mixed0) (times13 mixed1) (times9 mixed2) (times14 mixed3)) c
      ∙ simp (xor-zero, zero-xor) refl

pub inv_mix_column-mix_column : (c : Column) → inv_mix_column (mix_column c) ≡ c
inv_mix_column-mix_column c =
    λ i. record { a0 = back0 c i; a1 = back1 c i; a2 = back2 c i; a3 = back3 c i }
