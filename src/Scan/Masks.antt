-- ===== src/Scan/Masks.antt =====
-- The masks of xiom_popcnt64 (runtime/xiom_runtime.c, 5412 to 5430), digit by digit, and what they keep of a word.
use stdlib.Base.{ℕ, zero, suc, ◌+◌, ◌*◌, ◌/◌, ◌%◌, ◌≡◌, ap, arith, bit_and}
use stdlib.Base.Bits.{and_step}

unfoldable pub mask2 : ℕ → ℕ
mask2 zero = 0
mask2 (suc k) = 1 + 2 * (2 * mask2 k)

unfoldable pub mask4 : ℕ → ℕ
mask4 zero = 0
mask4 (suc k) = 1 + 2 * (1 + 2 * (2 * (2 * mask4 k)))

unfoldable pub mask8 : ℕ → ℕ
mask8 zero = 0
mask8 (suc k) = 1 + 2 * (1 + 2 * (1 + 2 * (1 + 2 * (2 * (2 * (2 * (2 * mask8 k)))))))

and_odd : (a m : ℕ) → bit_and a (1 + 2 * m) ≡ a % 2 + 2 * bit_and (a / 2) m
and_odd a m =
    let half : (1 + 2 * m) / 2 ≡ m = omega arith in
    omega (arith, and_step a (1 + 2 * m), ap (bit_and (a / 2)) half)

and_even : (a m : ℕ) → bit_and a (2 * m) ≡ 2 * bit_and (a / 2) m
and_even a m =
    let half : 2 * m / 2 ≡ m = omega arith in
    omega (arith, and_step a (2 * m), ap (bit_and (a / 2)) half)

pub and-mask2 : (a k : ℕ) → bit_and a (mask2 (suc k)) ≡ a % 2 + 4 * bit_and (a / 4) (mask2 k)
unfolding mask2
and-mask2 a k =
    let past : a / 2 / 2 ≡ a / 4 = omega arith in
    let m = mask2 k in
    omega (arith, and_odd a (2 * m), and_even (a / 2) m, ap (λ n. bit_and n m) past)

pub and-mask4 : (a k : ℕ) → bit_and a (mask4 (suc k)) ≡ a % 4 + 16 * bit_and (a / 16) (mask4 k)
unfolding mask4
and-mask4 a k =
    let past : a / 2 / 2 / 2 / 2 ≡ a / 16 = omega arith in
    let m = mask4 k in
    omega (
      arith,
      and_odd a (1 + 2 * (2 * (2 * m))),
      and_odd (a / 2) (2 * (2 * m)),
      and_even (a / 2 / 2) (2 * m),
      and_even (a / 2 / 2 / 2) m,
      ap (λ n. bit_and n m) past,
    )

pub and-mask8 : (a k : ℕ) → bit_and a (mask8 (suc k)) ≡ a % 16 + 256 * bit_and (a / 256) (mask8 k)
unfolding mask8
and-mask8 a k =
    let past : a / 16 / 2 / 2 / 2 / 2 ≡ a / 256 = omega arith in
    let b = a / 16 in
    let m = mask8 k in
    let high = 2 * (2 * (2 * (2 * m))) in
    let fourth : a / 2 / 2 / 2 / 2 ≡ b = omega arith in
    omega (
      arith,
      and_odd a (1 + 2 * (1 + 2 * (1 + 2 * high))),
      and_odd (a / 2) (1 + 2 * (1 + 2 * high)),
      and_odd (a / 2 / 2) (1 + 2 * high),
      and_odd (a / 2 / 2 / 2) high,
      ap (λ n. bit_and n high) fourth,
      and_even b (2 * (2 * (2 * m))),
      and_even (b / 2) (2 * (2 * m)),
      and_even (b / 2 / 2) (2 * m),
      and_even (b / 2 / 2 / 2) m,
      ap (λ n. bit_and n m) past,
    )
