-- ===== src/Wide/Quotient.antt =====
-- The unsigned quotient and remainder (runtime/xiom_runtime.c, 9177 to 9190 and 9207 to 9216).
use stdlib.Base.{
  ℕ, zero, suc, ◌+◌, ◌-◌, ◌*◌, ◌/◌, ◌%◌, ◌^◌, ◌≤◌, ◌<◌, ◌≡◌, refl, sym, ap, ◌∙◌, ◌⊎◌, inl, inr,
  bit_or, true, false, ◌||◌, not, arith, leb, ◌==◌, Bool-cases,
}
use native.Mathlib.Nat.{
  pow-suc, one-le-pow, div-div-eq-div-mul, div-eq_of_lt-le, div-add-mod, mod-lt,
}
use stdlib.Base.Bits.{bit_or_sum}
use stdlib.Wide.{full, half, shifted, udiv_loop, udivti3, umodti3}

shifted_lem : (a k r : ℕ) → r < full → shifted a k r ≡ r * 2 % full + a / 2 ^ k % 2
shifted_lem a k r h =
    let even : r * 2 % full ≡ r % half * 2 ^ 1 = omega arith in
    ap (λ x. bit_or x (a / 2 ^ k % 2)) even
    ∙ bit_or_sum 1 (r % half) (a / 2 ^ k % 2) (omega arith)
    ∙ ap (λ x. x + a / 2 ^ k % 2) (sym even)

-- One turn, for the shifted remainder `x` and the bit `c` in it.
turn :
    (b r x c : ℕ)
    → b < full
    → r < b
    → c ≤ 1
    → x ≡ r * 2 % full + c
    → (((not (r / half == 0) || leb b x) ≡ true)
        × (b ≤ r * 2 + c)
        × ((x + full - b) % full + b ≡ r * 2 + c))
      ⊎ (((not (r / half == 0) || leb b x) ≡ false) × (r * 2 + c < b) × (x ≡ r * 2 + c))
turn b r x c hb hr hc e = elim (Bool-cases (r / half == 0)) [
  | inr lost ↦
      let high : half ≤ r = ground arith in inl (rw lost refl, omega (arith, e), omega (arith, e))
  | inl kept ↦
      let low : r < half = ground arith in
      elim (Bool-cases (leb b x)) [
        | inl le ↦
            let over : b ≤ x = ground arith in
            inl (rw (kept, le) refl, omega (arith, e), omega (arith, e))
        | inr gt ↦
            let under : x < b = ground arith in
            inr (rw (kept, gt) refl, omega (arith, e), omega (arith, e))
      ]
]

doubled : (m k : ℕ) → m * 2 ^ suc k ≡ m * 2 * 2 ^ k
doubled m k = omega (arith, ap (λ (t : ℕ). m * t) (pow-suc 2 k))

-- What the turns for the bits below `k` come to, when the bits above gave the quotient `m` and the
-- remainder `r`.
loop_lem :
    (k a b m r : ℕ)
    → b < full
    → r < b
    → a / 2 ^ k ≡ m * b + r
    → (rest : ℕ) × (a ≡ udiv_loop k a b (m * 2 ^ k) r * b + rest) × (rest < b)
unfolding udiv_loop
loop_lem zero a b m r hb hr h =
    let one : m * 2 ^ 0 ≡ m = omega arith in (r, rw one (omega (arith, h)), hr)
loop_lem (suc k) a b m r hb hr h =
    let n = a / 2 ^ k in
    let upper : n / 2 ≡ m * b + r =
      div-div-eq-div-mul a (2 ^ k) 2 ∙ ap (λ p. a / p) (sym (pow-suc 2 k)) ∙ h in
    elim (turn b r (shifted a k r) (n % 2) hb hr (omega arith) (shifted_lem a k r (omega arith))) [
      | inl (taken, big, less) ↦
          let quotient : (m * 2 + 1) * b ≡ m * b * 2 + b = omega arith in
          let place : bit_or (m * 2 ^ suc k) (2 ^ k) ≡ (m * 2 + 1) * 2 ^ k = omega (
            arith,
            doubled m k,
            bit_or_sum (suc k) m (2 ^ k) (omega (arith, pow-suc 2 k, one-le-pow k 2)),
          ) in
          rw (udiv_loop, taken, place)
            (loop_lem k a b (m * 2 + 1) _ hb (omega (arith, less))
              (omega (arith, less, quotient, upper)))
      | inr (left, small, same) ↦
          let quotient : m * 2 * b ≡ m * b * 2 = omega arith in
          let place : m * 2 ^ suc k ≡ m * 2 * 2 ^ k = omega (arith, doubled m k) in
          rw (udiv_loop, left, place)
            (loop_lem k a b (m * 2) _ hb (omega (arith, same))
              (omega (arith, same, quotient, upper)))
    ]

-- The restoring division gives the quotient, for every 128-bit dividend and every 128-bit divisor that is
-- not zero, also where the shifted remainder needs a 129th bit.
pub udivti3_lem : (a b : ℕ) → a < full → 0 < b → b < full → udivti3 a b ≡ a / b
unfolding udivti3
udivti3_lem a b ha positive hb =
    let none_yet : a / 2 ^ 128 ≡ 0 * b + 0 = omega arith in
    let (rest, split, small) = loop_lem 128 a b 0 0 hb positive none_yet in
    sym (div-eq_of_lt-le b (omega (arith, split)) (omega (arith, split)))

-- The remainder, computed from the quotient with wrapping arithmetic, is that of the division.
pub umodti3_lem : (a b : ℕ) → a < full → 0 < b → b < full → umodti3 a b ≡ a % b
unfolding umodti3
umodti3_lem a b ha positive hb =
    let whole = div-add-mod a b in
    let bound = mod-lt a positive in
    rw (udivti3_lem a b ha positive hb) (omega (arith, whole, bound))
