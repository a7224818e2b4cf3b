-- ===== src/Base/Xor.antt =====
-- The laws of the exclusive or at variables, from its lowest binary digit.
use Prim.Native.Nat.{
  ℕ, zero, suc, ◌+◌, ◌*◌, ◌/◌, ◌%◌, ◌^◌, ◌≤◌, ◌<◌, differ, bit_xor, bit_xor-bitwise,
}
use mathlib.Core.Path.{◌≡◌, refl, sym, ap, ◌∙◌}
use native.Mathlib.Nat.{pow-suc, one-le-pow, div-div-eq-div-mul}
use native.Mathlib.Omega.{arith}
use stdlib.Base.Bits.{lowest_digit, mod_half}

differ_lem : (x y : ℕ) → x < 2 → y < 2 → differ x y ≡ (x + y) % 2
differ_lem zero zero hx hy = refl
differ_lem zero (suc zero) hx hy = refl
differ_lem (suc zero) zero hx hy = refl
differ_lem (suc zero) (suc zero) hx hy = refl
differ_lem (suc (suc x)) y hx hy = absurd (omega arith)
differ_lem zero (suc (suc y)) hx hy = absurd (omega arith)
differ_lem (suc zero) (suc (suc y)) hx hy = absurd (omega arith)

pub xor_step : (a b : ℕ) → bit_xor a b ≡ bit_xor (a / 2) (b / 2) * 2 + (a % 2 + b % 2) % 2
xor_step zero b = simp bit_xor-bitwise (omega arith)
xor_step (suc a) b = simp bit_xor-bitwise (
    omega (
      arith,
      lowest_digit (λ y. y) differ a b,
      differ_lem (suc a % 2) (b % 2) (omega arith) (omega arith),
    ))

pub zero-xor : (a : ℕ) → bit_xor 0 a ≡ a
zero-xor a = simp bit_xor-bitwise refl

-- Each law goes from the halves to the numbers, by induction on a bound.
comm_bound : (n a b : ℕ) → a ≤ n → bit_xor a b ≡ bit_xor b a
comm_bound zero a b h =
    let e : a ≡ 0 = omega arith in rw e (zero-xor b ∙ sym (right_zero b b (omega arith)))
  where
    right_zero : (n b : ℕ) → b ≤ n → bit_xor b 0 ≡ b
    right_zero zero b h = let e : b ≡ 0 = omega arith in rw e refl
    right_zero (suc n) b h = omega (arith, xor_step b 0, right_zero n (b / 2) (omega arith))
comm_bound (suc n) a b h =
    omega (arith, xor_step a b, xor_step b a, comm_bound n (a / 2) (b / 2) (omega arith))

pub xor_comm : (a b : ℕ) → bit_xor a b ≡ bit_xor b a
xor_comm a b = comm_bound a a b (omega arith)

pub xor-zero : (a : ℕ) → bit_xor a 0 ≡ a
xor-zero a = xor_comm a 0 ∙ zero-xor a

self_bound : (n a : ℕ) → a ≤ n → bit_xor a a ≡ 0
self_bound zero a h = let e : a ≡ 0 = omega arith in rw e refl
self_bound (suc n) a h = omega (arith, xor_step a a, self_bound n (a / 2) (omega arith))

pub xor_self : (a : ℕ) → bit_xor a a ≡ 0
xor_self a = self_bound a a (omega arith)

-- The halves and the last digit of an exclusive or.
pub xor-half : (a b : ℕ) → bit_xor a b / 2 ≡ bit_xor (a / 2) (b / 2)
xor-half a b = omega (arith, xor_step a b)

pub xor-digit : (a b : ℕ) → bit_xor a b % 2 ≡ (a % 2 + b % 2) % 2
xor-digit a b = omega (arith, xor_step a b)

assoc_bound : (n a b c : ℕ) → a ≤ n → bit_xor (bit_xor a b) c ≡ bit_xor a (bit_xor b c)
assoc_bound zero a b c h =
    let e : a ≡ 0 = omega arith in rw (e, zero-xor b, zero-xor (bit_xor b c)) refl
assoc_bound (suc n) a b c h =
    let halves : bit_xor (bit_xor a b / 2) (c / 2) ≡ bit_xor (a / 2) (bit_xor b c / 2) =
      rw (xor-half a b, xor-half b c) (assoc_bound n (a / 2) (b / 2) (c / 2) (omega arith)) in
    omega (
      arith,
      xor_step (bit_xor a b) c,
      xor_step a (bit_xor b c),
      xor-digit a b,
      xor-digit b c,
      halves,
    )

pub xor_assoc : (a b c : ℕ) → bit_xor (bit_xor a b) c ≡ bit_xor a (bit_xor b c)
xor_assoc a b c = assoc_bound a a b c (omega arith)

pub xor_cancel : (a k : ℕ) → bit_xor (bit_xor a k) k ≡ a
xor_cancel a k = xor_assoc a k k ∙ ap (bit_xor a) (xor_self k) ∙ xor-zero a

-- Two pairs, regrouped.
pub xor_swap :
    (a b c d : ℕ) → bit_xor (bit_xor a b) (bit_xor c d) ≡ bit_xor (bit_xor a c) (bit_xor b d)
xor_swap a b c d =
    xor_assoc a b (bit_xor c d)
    ∙ ap (bit_xor a)
        (sym (xor_assoc b c d) ∙ ap (λ t. bit_xor t d) (xor_comm b c) ∙ xor_assoc c b d)
    ∙ sym (xor_assoc a c (bit_xor b d))

-- The low digits of an exclusive or, and of one shifted up.
pub xor-mod : (k a b : ℕ) → bit_xor a b % 2 ^ k ≡ bit_xor (a % 2 ^ k) (b % 2 ^ k)
xor-mod zero a b =
    let ea : a % 2 ^ 0 ≡ 0 = omega arith in
    let eb : b % 2 ^ 0 ≡ 0 = omega arith in rw (ea, eb) (omega arith)
xor-mod (suc k) a b =
    let half : (x : ℕ) → x % 2 ^ suc k / 2 ≡ x / 2 % 2 ^ k = low_half k in
    let digit : (x : ℕ) → x % 2 ^ suc k % 2 ≡ x % 2 = low_digit k in
    let up = xor_step (a % 2 ^ suc k) (b % 2 ^ suc k) in
    let inner : bit_xor (a % 2 ^ suc k / 2) (b % 2 ^ suc k / 2) ≡ bit_xor (a / 2) (b / 2) % 2 ^ k =
      rw (half a, half b) (sym (xor-mod k (a / 2) (b / 2))) in
    let whole = low_split k (bit_xor a b) in
    let upper : bit_xor a b / 2 % 2 ^ k ≡ bit_xor (a / 2) (b / 2) % 2 ^ k =
      ap (λ t. t % 2 ^ k) (xor-half a b) in
    omega (arith, up, inner, whole, upper, xor-digit a b, digit a, digit b)
  where
    low_split : (k x : ℕ) → x % 2 ^ suc k ≡ x / 2 % 2 ^ k * 2 + x % 2
    low_split k x =
        ap (λ (t : ℕ). x % t) (pow-suc 2 k ∙ omega arith)
        ∙ sym (mod_half (2 ^ k) x (one-le-pow k 2 (omega arith)))

    low_half : (k x : ℕ) → x % 2 ^ suc k / 2 ≡ x / 2 % 2 ^ k
    low_half k x = omega (arith, low_split k x)

    low_digit : (k x : ℕ) → x % 2 ^ suc k % 2 ≡ x % 2
    low_digit k x = omega (arith, low_split k x)

pub xor-double : (a b : ℕ) → bit_xor (a * 2) (b * 2) ≡ bit_xor a b * 2
xor-double a b =
    let ea : a * 2 / 2 ≡ a = omega arith in
    let eb : b * 2 / 2 ≡ b = omega arith in xor_step (a * 2) (b * 2) ∙ rw (ea, eb) (omega arith)

pub xor-lt : (k a b : ℕ) → a < 2 ^ k → b < 2 ^ k → bit_xor a b < 2 ^ k
xor-lt zero a b ha hb =
    let ea : a ≡ 0 = omega arith in let eb : b ≡ 0 = omega arith in rw (ea, eb) (omega arith)
xor-lt (suc k) a b ha hb = omega (
  arith,
  xor_step a b,
  pow-suc 2 k,
  xor-lt k (a / 2) (b / 2) (omega (arith, pow-suc 2 k)) (omega (arith, pow-suc 2 k)),
)

pub xor-shift : (k a b : ℕ) → bit_xor a b / 2 ^ k ≡ bit_xor (a / 2 ^ k) (b / 2 ^ k)
xor-shift zero a b =
    let one : (x : ℕ) → x / 2 ^ 0 ≡ x = λ x. omega arith in
    rw (one a, one b, one (bit_xor a b)) refl
xor-shift (suc k) a b =
    let down : (x : ℕ) → x / 2 ^ suc k ≡ x / 2 ^ k / 2 = step k in
    rw (down a, down b, down (bit_xor a b), xor-shift k a b) (xor-half (a / 2 ^ k) (b / 2 ^ k))
  where
    step : (k x : ℕ) → x / 2 ^ suc k ≡ x / 2 ^ k / 2
    step k x = ap (λ (t : ℕ). x / t) (pow-suc 2 k) ∙ sym (div-div-eq-div-mul x (2 ^ k) 2)
