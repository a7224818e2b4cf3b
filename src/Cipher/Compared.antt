-- ===== src/Cipher/Compared.antt =====
-- What the comparison in constant time answers (runtime/xiom_runtime.c, 233 to 238 and 249 to 256).
use stdlib.Base.{
  ℕ, zero, suc, ◌+◌, ◌/◌, ◌≤◌, ◌<◌, ◌≡◌, ◌↔◌, refl, bit_or, bit_xor, List, [], ◌∷◌, length, arith,
}
use stdlib.Base.Words.{u8}
use stdlib.Base.Bits.{or_step}
use stdlib.Base.Xor.{xor_self, xor_step, xor-lt}
use stdlib.Cipher.{compare_loop, constant_time_compare}

abbrev pub AllBytes : List ℕ → Type 0
AllBytes [] = Unit {0}
AllBytes (x ∷ xs) = (x < 256) × AllBytes xs

-- An exclusive or is zero only of equal numbers, an or only of two zeros.
xor_zero_bound : (n a b : ℕ) → a + b ≤ n → bit_xor a b ≡ 0 → a ≡ b
xor_zero_bound zero a b h e = omega arith
xor_zero_bound (suc n) zero zero h e = refl
xor_zero_bound (suc n) zero (suc b) h e =
    let halves = xor_zero_bound n 0 (suc b / 2) (omega arith) (omega (arith, xor_step 0 (suc b))) in
    omega (arith, xor_step 0 (suc b), halves)
xor_zero_bound (suc n) (suc a) b h e =
    let halves =
      xor_zero_bound n (suc a / 2) (b / 2) (omega arith) (omega (arith, xor_step (suc a) b)) in
    omega (arith, xor_step (suc a) b, halves)

or_zero_bound : (n a b : ℕ) → a + b ≤ n → bit_or a b ≡ 0 → (a ≡ 0) × (b ≡ 0)
or_zero_bound zero a b h e = omega arith
or_zero_bound (suc n) zero zero h e = omega arith
or_zero_bound (suc n) zero (suc b) h e =
    let halves = or_zero_bound n 0 (suc b / 2) (omega arith) (omega (arith, or_step 0 (suc b))) in
    omega (arith, or_step 0 (suc b), halves)
or_zero_bound (suc n) (suc a) b h e =
    let halves =
      or_zero_bound n (suc a / 2) (b / 2) (omega arith) (omega (arith, or_step (suc a) b)) in
    omega (arith, or_step (suc a) b, halves)

-- The loop answers 0 when nothing differed before and the bytes are the same.
loop_same : (xs : List ℕ) → compare_loop 0 xs xs ≡ 0
unfolding compare_loop
loop_same [] = refl
loop_same (x ∷ xs) = rw (xor_self x) (loop_same xs)

loop_zero :
    (diff : ℕ) (xs ys : List ℕ)
    → AllBytes xs
    → AllBytes ys
    → length xs ≡ length ys
    → compare_loop diff xs ys ≡ 0
    → (diff ≡ 0) × (xs ≡ ys)
unfolding compare_loop
loop_zero diff [] [] hx hy l e = (e, refl)
loop_zero diff [] (y ∷ ys) hx hy l e = absurd (omega arith)
loop_zero diff (x ∷ xs) [] hx hy l e = absurd (omega arith)
loop_zero diff (x ∷ xs) (y ∷ ys) hx hy l e =
    let (rest, same) = loop_zero (bit_or diff (u8 (bit_xor x y))) xs ys hx.1 hy.1 (omega arith) e in
    let d = u8 (bit_xor x y) in
    let (clear, equal) = or_zero_bound (diff + d) diff d (omega arith) rest in
    let whole : bit_xor x y ≡ 0 = omega (arith, equal, xor-lt 8 x y hx.0 hy.0) in
    let head = xor_zero_bound (x + y) x y (omega arith) whole in (clear, rw (head, same) refl)

-- Of two arrays of as many bytes, the comparison answers 0 exactly when they hold the same bytes.
pub constant_time_compare_iff :
    (xs ys : List ℕ)
    → AllBytes xs
    → AllBytes ys
    → length xs ≡ length ys
    → (constant_time_compare xs ys ≡ 0) ↔ (xs ≡ ys)
unfolding constant_time_compare
constant_time_compare_iff xs ys hx hy l =
    (λ e. (loop_zero 0 xs ys hx hy l e).1, λ e. rw (← e) (loop_same xs))
