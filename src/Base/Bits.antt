-- ===== src/Base/Bits.antt =====
-- The bit operations at variables: one equation for the lowest binary digit of each, and the laws
-- that follow from it by induction on a bound.
use Prim.Native.Nat.{
  ℕ, zero, suc, ◌+◌, ◌-◌, ◌*◌, ◌/◌, ◌%◌, ◌^◌, ◌≤◌, ◌<◌, min, max, digits, bitwise, bit_and, bit_or,
  bit_and-bitwise, bit_or-bitwise,
}
use mathlib.Core.Path.{◌≡◌, refl, sym, ap, ◌∙◌}
use native.Mathlib.Nat.{
  pow-suc, one-le-pow, div-add-mod, mod-lt, mod-eq_of_lt, mul-add-mod_self_left,
}
use native.Mathlib.Omega.{arith}

-- The recursion on the binary digits of `a` runs on a number; running it on any larger one gives the
-- result of running it on `a` itself.
module _ (rest : ℕ → ℕ) (op : ℕ → ℕ → ℕ) where
  own_fuel : (k n a b : ℕ) → n ≤ k → a ≤ n → digits rest op n a b ≡ digits rest op a a b
  own_fuel k zero zero b _ _ = refl
  own_fuel k zero (suc a) b _ low = elim low [ ]
  own_fuel k (suc n) zero b _ _ = refl
  own_fuel zero (suc n) (suc a) b low _ = elim low [ ]
  own_fuel (suc k) (suc n) (suc a) b hn ha =
      let half = suc a / 2 in
      let there = own_fuel k n half (b / 2) (omega arith) (omega arith) in
      let back = own_fuel k a half (b / 2) (omega arith) (omega arith) in
      ap (λ (upper : ℕ). upper * 2 + op (suc a % 2) (b % 2)) (there ∙ sym back)

  pub lowest_digit :
      (a b : ℕ)
      → bitwise rest op (suc a) b ≡ op (suc a % 2) (b % 2) + 2 * bitwise rest op (suc a / 2) (b / 2)
  lowest_digit a b = omega (arith, own_fuel a a (suc a / 2) (b / 2) (omega arith) (omega arith))

pub and_step : (a b : ℕ) → bit_and a b ≡ bit_and (a / 2) (b / 2) * 2 + min (a % 2) (b % 2)
and_step zero b = simp bit_and-bitwise (omega arith)
and_step (suc a) b = simp bit_and-bitwise (omega (arith, lowest_digit (λ _. 0) min a b))

pub or_step : (a b : ℕ) → bit_or a b ≡ bit_or (a / 2) (b / 2) * 2 + max (a % 2) (b % 2)
or_step zero b = simp bit_or-bitwise (omega arith)
or_step (suc a) b = simp bit_or-bitwise (omega (arith, lowest_digit (λ y. y) max a b))

-- A low mask is a remainder, and `|` of fields that do not meet is a sum, at every width.
bit_and-zero_bound : (n a : ℕ) → a ≤ n → bit_and a 0 ≡ 0
bit_and-zero_bound zero a h = rw (a_zero) refl
  where
    a_zero : a ≡ 0
    a_zero = omega arith
bit_and-zero_bound (suc n) a h =
    omega (arith, and_step a 0, bit_and-zero_bound n (a / 2) (omega arith))

bit_or-zero_bound : (n a : ℕ) → a ≤ n → bit_or a 0 ≡ a
bit_or-zero_bound zero a h = rw (a_zero) refl
  where
    a_zero : a ≡ 0
    a_zero = omega arith
bit_or-zero_bound (suc n) a h =
    omega (arith, or_step a 0, bit_or-zero_bound n (a / 2) (omega arith))

scale_suc : (q k : ℕ) → q * 2 ^ suc k ≡ 2 * (q * 2 ^ k)
scale_suc q k = omega (arith, ap (λ (t : ℕ). q * t) (pow-suc 2 k))

pub bit_or_sum : (k q r : ℕ) → r < 2 ^ k → bit_or (q * 2 ^ k) r ≡ q * 2 ^ k + r
bit_or_sum zero q r h =
    omega (arith, ap (bit_or (q * 1)) (r_zero), bit_or-zero_bound (q * 1) (q * 1) (omega arith))
  where
    r_zero : r ≡ 0
    r_zero = omega arith
bit_or_sum (suc k) q r h =
    let e : q * 2 ^ suc k / 2 ≡ q * 2 ^ k = omega (arith, scale_suc q k) in
    omega (
      arith,
      or_step (q * 2 ^ suc k) r,
      scale_suc q k,
      ap (λ (t : ℕ). bit_or t (r / 2)) e,
      bit_or_sum k q (r / 2) (omega (arith, pow-suc 2 k)),
    )

pub mod_half : (m a : ℕ) → 0 < m → a / 2 % m * 2 + a % 2 ≡ a % (2 * m)
mod_half m a h =
    let low = a / 2 % m * 2 + a % 2 in
    let split : a ≡ 2 * m * (a / 2 / m) + low = grind (arith, div-add-mod (a / 2) m) in
    let fits : low < 2 * m = omega (arith, mod-lt (a / 2) h) in
    sym (
      ap (λ (t : ℕ). t % (2 * m)) split
      ∙ mul-add-mod_self_left (2 * m) (a / 2 / m) low
      ∙ mod-eq_of_lt fits)

pub bit_and_low : (k a : ℕ) → bit_and a (2 ^ k - 1) ≡ a % 2 ^ k
bit_and_low zero a = omega (arith, bit_and-zero_bound a a (omega arith))
bit_and_low (suc k) a =
    let e : (2 ^ suc k - 1) / 2 ≡ 2 ^ k - 1 = omega (arith, pow-suc 2 k, one-le-pow k 2) in
    ground (
      arith,
      and_step a (2 ^ suc k - 1),
      ap (bit_and (a / 2)) e,
      pow-suc 2 k,
      one-le-pow k 2,
      bit_and_low k (a / 2),
      mod_half (2 ^ k) a,
    )

pub pow_add : (a b : ℕ) → 2 ^ (a + b) ≡ 2 ^ a * 2 ^ b
pow_add zero b = let shape : 0 + b ≡ b = omega arith in rw shape (omega arith)
pow_add (suc a) b =
    let shape : suc a + b ≡ suc (a + b) = omega arith in
    rw shape (
      omega (
        arith,
        pow-suc 2 (a + b),
        pow-suc 2 a,
        pow_add a b,
        ap (λ (t : ℕ). t * 2 ^ b) (pow-suc 2 a),
      ))

pub bit_or-nothing : (x : ℕ) → bit_or x 0 ≡ x
bit_or-nothing x =
    let one : x * 2 ^ 0 ≡ x = omega arith in
    ap (λ (t : ℕ). bit_or t 0) (sym one) ∙ bit_or_sum 0 x 0 (omega arith) ∙ omega arith

or_comm_bound : (n a b : ℕ) → a + b ≤ n → bit_or a b ≡ bit_or b a
or_comm_bound zero a b h =
    let ea : a ≡ 0 = omega arith in let eb : b ≡ 0 = omega arith in rw (ea, eb) refl
or_comm_bound (suc n) zero zero h = refl
or_comm_bound (suc n) zero (suc b) h =
    let halves = or_comm_bound n 0 (suc b / 2) (omega arith) in
    omega (arith, or_step 0 (suc b), or_step (suc b) 0, halves)
or_comm_bound (suc n) (suc a) b h =
    let halves = or_comm_bound n (suc a / 2) (b / 2) (omega arith) in
    omega (arith, or_step (suc a) b, or_step b (suc a), halves)

pub bit_or_comm : (a b : ℕ) → bit_or a b ≡ bit_or b a
bit_or_comm a b = or_comm_bound (a + b) a b (omega arith)
