-- ===== src/Cipher/Linear.antt =====
-- The mixing of a column and its inverse, as polynomials in the doubling of the field (runtime/xiom_runtime.c,
-- 88 to 90 and 152 to 177).
use stdlib.Base.{
  ℕ, ◌+◌, ◌*◌, ◌/◌, ◌%◌, ◌^◌, ◌≡◌, refl, sym, ap, ◌∙◌, inl, inr, bit_xor, Bool, true, false, List,
  [], ◌∷◌, ◌==◌, if◌then◌else◌, arith, Bool-cases,
}
use stdlib.Base.Words.{u8}
use stdlib.Base.Xor.{
  xor_self, xor-zero, zero-xor, xor_swap, xor-mod, xor-double, xor-digit, xor-shift,
}
use stdlib.Cipher.{xtime}

-- The reduction that the top bit asks for.
reduction : ℕ → ℕ
reduction x = if x / 128 % 2 == 0 then 0 else 0x1B

reduction-xor : (a b : ℕ) → reduction (bit_xor a b) ≡ bit_xor (reduction a) (reduction b)
unfolding reduction
reduction-xor a b =
    let top = top_bit a b in
    elim (Bool-cases (a / 128 % 2 == 0)) [
      | inl ea ↦ elim (Bool-cases (b / 128 % 2 == 0)) [
        | inl eb ↦
            let e : (bit_xor a b / 128 % 2 == 0) ≡ true = ground (arith, top) in rw (ea, eb, e) refl
        | inr eb ↦
            let e : (bit_xor a b / 128 % 2 == 0) ≡ false = ground (arith, top) in
            rw (ea, eb, e) refl
      ]
      | inr ea ↦ elim (Bool-cases (b / 128 % 2 == 0)) [
        | inl eb ↦
            let e : (bit_xor a b / 128 % 2 == 0) ≡ false = ground (arith, top) in
            rw (ea, eb, e) refl
        | inr eb ↦
            let e : (bit_xor a b / 128 % 2 == 0) ≡ true = ground (arith, top) in rw (ea, eb, e) refl
      ]
    ]
  where
    down : (k a b : ℕ) → bit_xor a b / 2 ^ k ≡ bit_xor (a / 2 ^ k) (b / 2 ^ k)
    down k a b = xor-shift k a b

    top_bit : (a b : ℕ) → bit_xor a b / 128 % 2 ≡ (a / 128 % 2 + b / 128 % 2) % 2
    top_bit a b = ap (λ (t : ℕ). t % 2) (down 7 a b) ∙ xor-digit (a / 128) (b / 128)

pub xtime-xor : (a b : ℕ) → xtime (bit_xor a b) ≡ bit_xor (xtime a) (xtime b)
unfolding xtime reduction
xtime-xor a b =
    let apart = reduction-xor a b in
    ap u8 (
      ap (λ t. bit_xor t (reduction (bit_xor a b))) (sym (xor-double a b))
      ∙ ap (bit_xor (bit_xor (a * 2) (b * 2))) apart
      ∙ xor_swap (a * 2) (b * 2) (reduction a) (reduction b))
    ∙ xor-mod 8 (bit_xor (a * 2) (reduction a)) (bit_xor (b * 2) (reduction b))

xtime_zero : xtime 0 ≡ 0
unfolding xtime reduction
xtime_zero = refl

-- A polynomial with coefficients 0 and 1, the constant first, at a byte.
unfoldable pub at : List Bool → ℕ → ℕ
at [] x = 0
at (b ∷ p) x = bit_xor (if b then x else 0) (at p (xtime x))

pub at-xtime : (p : List Bool) (x : ℕ) → xtime (at p x) ≡ at p (xtime x)
unfolding at
at-xtime [] x = xtime_zero
at-xtime (true ∷ p) x = xtime-xor x (at p (xtime x)) ∙ ap (bit_xor (xtime x)) (at-xtime p (xtime x))
at-xtime (false ∷ p) x =
    xtime-xor 0 (at p (xtime x)) ∙ rw (xtime_zero) (ap (bit_xor 0) (at-xtime p (xtime x)))

unfoldable pub plus : List Bool → List Bool → List Bool
plus [] q = q
plus (b ∷ p) [] = b ∷ p
plus (b ∷ p) (c ∷ q) = (if b then (if c then false else true) else c) ∷ plus p q

pub at-plus : (p q : List Bool) (x : ℕ) → at (plus p q) x ≡ bit_xor (at p x) (at q x)
unfolding at plus
at-plus [] q x = sym (zero-xor (at q x))
at-plus (b ∷ p) [] x = sym (xor-zero (at (b ∷ p) x))
at-plus (b ∷ p) (c ∷ q) x =
    let digit = coefficient b c x in
    ap (λ t. bit_xor t (at (plus p q) (xtime x))) digit
    ∙ ap (bit_xor (bit_xor (if b then x else 0) (if c then x else 0))) (at-plus p q (xtime x))
    ∙ xor_swap (if b then x else 0) (if c then x else 0) (at p (xtime x)) (at q (xtime x))
  where
    coefficient :
        (b c : Bool) (x : ℕ)
        → (if (if b then (if c then false else true) else c) then x else 0)
          ≡ bit_xor (if b then x else 0) (if c then x else 0)
    coefficient true true x = sym (xor_self x)
    coefficient true false x = sym (xor-zero x)
    coefficient false true x = sym (zero-xor x)
    coefficient false false x = refl
