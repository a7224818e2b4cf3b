-- ===== src/Scan/Ones.antt =====
-- Counting the ones of a word (runtime/xiom_runtime.c, 5412 to 5430).
use stdlib.Base.{
  ℕ, zero, suc, ◌+◌, ◌-◌, ◌*◌, ◌/◌, ◌%◌, ◌≤◌, ◌<◌, ◌^◌, ◌≡◌, refl, sym, ap, ◌∙◌, arith, bit_and,
}
use native.Mathlib.Nat.{pow-suc}
use stdlib.Scan.Masks.{mask2, mask4, mask8, and-mask2, and-mask4, and-mask8}
use stdlib.Scan.{pairs, nibbles, bytes, popcnt64}

-- The ones among the lowest binary digits.
unfoldable pub ones : ℕ → ℕ → ℕ
ones zero v = 0
ones (suc k) v = v % 2 + ones k (v / 2)

-- The words whose fields of 2, 4 and 8 bits are the ones of those fields.
unfoldable packed2 : ℕ → ℕ → ℕ
packed2 zero v = 0
packed2 (suc k) v = ones 2 v + 4 * packed2 k (v / 4)

unfoldable packed4 : ℕ → ℕ → ℕ
packed4 zero v = 0
packed4 (suc k) v = ones 4 v + 16 * packed4 k (v / 16)

unfoldable packed8 : ℕ → ℕ → ℕ
packed8 zero v = 0
packed8 (suc k) v = ones 8 v + 256 * packed8 k (v / 256)

ones_le : (k v : ℕ) → ones k v ≤ k
unfolding ones
ones_le zero v = omega arith
ones_le (suc k) v = omega (arith, ones_le k (v / 2))

ones_pair : (v : ℕ) → v % 4 ≡ v / 2 % 2 + ones 2 v
unfolding ones
ones_pair v = omega arith

ones_nibble : (v : ℕ) → ones 4 v ≡ ones 2 v + ones 2 (v / 4)
unfolding ones
ones_nibble v = omega arith

ones_byte : (v : ℕ) → ones 8 v ≡ ones 4 v + ones 4 (v / 16)
unfolding ones
ones_byte v = omega arith

abbrev eight_more : ℕ → ℕ
eight_more k = suc (suc (suc (suc (suc (suc (suc (suc k)))))))

ones-add : (k v : ℕ) → ones (eight_more k) v ≡ ones 8 v + ones k (v / 256)
unfolding ones
ones-add k v =
    let past : v / 2 / 2 / 2 / 2 / 2 / 2 / 2 / 2 ≡ v / 256 = omega arith in
    omega (arith, ap (ones k) past)

-- The first line: twos minus their high digits.
pairs_of : (k v : ℕ) → v < 4 ^ k → v ≡ bit_and (v / 2) (mask2 k) + packed2 k v
unfolding packed2 mask2
pairs_of zero v h =
    let none_left : v / 2 ≡ 0 = omega (arith, h) in
    omega (arith, h, ap (λ n. bit_and n 0) none_left)
pairs_of (suc k) v h =
    let rest = pairs_of k (v / 4) (omega (arith, h, pow-suc 4 k)) in
    let inner : v / 2 / 4 ≡ v / 4 / 2 = omega arith in
    omega (arith, rest, and-mask2 (v / 2) k, ap (λ n. bit_and n (mask2 k)) inner, ones_pair v)

-- The second: the two halves of each field of four.
nibbles_of :
    (k v : ℕ)
    → bit_and (packed2 (2 * k) v) (mask4 k) + bit_and (packed2 (2 * k) v / 4) (mask4 k)
      ≡ packed4 k v
unfolding packed2 packed4 mask4
nibbles_of zero v = refl
nibbles_of (suc k) v =
    let twice : 2 * suc k ≡ suc (suc (2 * k)) = omega arith in
    let v' = packed2 (2 * k) (v / 16) in
    let next : packed2 (2 * suc k) v ≡ ones 2 v + 4 * (ones 2 (v / 4) + 4 * v') =
      ap (λ n. packed2 n v) twice
      ∙ ap (λ n. ones 2 v + 4 * (ones 2 (v / 4) + 4 * packed2 (2 * k) n)) (omega arith) in
    let a = ones 2 v in
    let b = ones 2 (v / 4) in
    let word = packed2 (2 * suc k) v in
    let low : word / 16 ≡ v' = omega (arith, next, ones_le 2 v, ones_le 2 (v / 4)) in
    let high : word / 4 / 16 ≡ v' / 4 = omega (arith, next, ones_le 2 v, ones_le 2 (v / 4)) in
    omega (
      arith,
      next,
      and-mask4 word k,
      and-mask4 (word / 4) k,
      ap (λ n. bit_and n (mask4 k)) low,
      ap (λ n. bit_and n (mask4 k)) high,
      nibbles_of k (v / 16),
      ones_nibble v,
      ones_le 2 v,
      ones_le 2 (v / 4),
    )

-- The third, in which the sums that the mask drops meet no field that it keeps.
bytes_of : (k v : ℕ) → bit_and (packed4 (2 * k) v + packed4 (2 * k) v / 16) (mask8 k) ≡ packed8 k v
unfolding packed4 packed8 mask8
bytes_of zero v = refl
bytes_of (suc k) v =
    let twice : 2 * suc k ≡ suc (suc (2 * k)) = omega arith in
    let v' = packed4 (2 * k) (v / 256) in
    let a = ones 4 v in
    let b = ones 4 (v / 16) in
    let word = packed4 (2 * suc k) v in
    let next : word ≡ a + 16 * (b + 16 * v') =
      ap (λ n. packed4 n v) twice ∙ ap (λ n. a + 16 * (b + 16 * packed4 (2 * k) n)) (omega arith) in
    let small : v' % 16 ≤ 4 = low_nibble (2 * k) (v / 256) in
    let past : (word + word / 16) / 256 ≡ v' + v' / 16 =
      omega (arith, next, small, ones_le 4 v, ones_le 4 (v / 16)) in
    omega (
      arith,
      next,
      and-mask8 (word + word / 16) k,
      ap (λ n. bit_and n (mask8 k)) past,
      bytes_of k (v / 256),
      ones_byte v,
      ones_le 4 v,
      ones_le 4 (v / 16),
    )
  where
    low_nibble : (j w : ℕ) → packed4 j w % 16 ≤ 4
    low_nibble zero w = omega arith
    low_nibble (suc j) w = omega (arith, ones_le 4 w)

-- The fields add up in the top byte of the product.
top_byte :
    (b0 b1 b2 b3 b4 b5 b6 b7 : ℕ)
    → b0 + b1 + b2 + b3 + b4 + b5 + b6 + b7 < 256
    → (b0
          + 256
            * (b1
                + 256 * (b2 + 256 * (b3 + 256 * (b4 + 256 * (b5 + 256 * (b6 + 256 * (b7 + 0))))))))
        * 0x0101010101010101
        % 2 ^ 64
        / 2 ^ 56
      ≡ b0 + b1 + b2 + b3 + b4 + b5 + b6 + b7
top_byte b0 b1 b2 b3 b4 b5 b6 b7 h = omega arith

pairs_lem : (x : ℕ) → x < 2 ^ 64 → pairs x ≡ packed2 32 x
unfolding mask2
pairs_lem x fits =
    let split : x ≡ bit_and (x / 2) 0x5555555555555555 + packed2 32 x = pairs_of 32 x fits in
    let taken : x + 2 ^ 64 - bit_and (x / 2) 0x5555555555555555 ≡ packed2 32 x + 2 ^ 64 =
      omega arith in
    omega (arith, ap (λ n. n % 2 ^ 64) taken, split)

unfoldable fours : ℕ → ℕ
fours zero = 0
fours (suc k) = 4 + 16 * fours k

packed4-fours : (k v : ℕ) → packed4 k v ≤ fours k
unfolding packed4 fours
packed4-fours zero v = omega arith
packed4-fours (suc k) v = omega (arith, ones_le 4 v, packed4-fours k (v / 16))

packed4_le : (x : ℕ) → packed4 16 x ≤ 0x4444444444444444
unfolding fours
packed4_le x = packed4-fours 16 x

nibbles_lem : (x : ℕ) → nibbles (packed2 32 x) ≡ packed4 16 x
unfolding mask4
nibbles_lem x =
    let whole : bit_and (packed2 32 x) 0x3333333333333333
          + bit_and (packed2 32 x / 4) 0x3333333333333333
        ≡ packed4 16 x =
      nibbles_of 16 x in
    omega (arith, ap (λ n. n % 2 ^ 64) whole, packed4_le x)

bytes_lem : (x : ℕ) → bytes (packed4 16 x) ≡ packed8 8 x
unfolding mask8
bytes_lem x =
    let fits : (packed4 16 x + packed4 16 x / 16) % 2 ^ 64 ≡ packed4 16 x + packed4 16 x / 16 =
      omega (arith, packed4_le x) in
    ap (λ n. bit_and n 0x0F0F0F0F0F0F0F0F) fits ∙ bytes_of 8 x

all_ones : (x : ℕ) → packed8 8 x * 0x0101010101010101 % 2 ^ 64 / 2 ^ 56 ≡ ones 64 x
unfolding packed8
all_ones x =
    let x1 = x / 256 in
    let x2 = x1 / 256 in
    let x3 = x2 / 256 in
    let x4 = x3 / 256 in
    let x5 = x4 / 256 in
    let x6 = x5 / 256 in
    let x7 = x6 / 256 in
    let total : ones 64 x
        ≡ ones 8 x
          + ones 8 x1
          + ones 8 x2
          + ones 8 x3
          + ones 8 x4
          + ones 8 x5
          + ones 8 x6
          + ones 8 x7 =
      omega (
        arith,
        ones-add 56 x,
        ones-add 48 x1,
        ones-add 40 x2,
        ones-add 32 x3,
        ones-add 24 x4,
        ones-add 16 x5,
        ones-add 8 x6,
      ) in
    top_byte (ones 8 x) (ones 8 x1) (ones 8 x2) (ones 8 x3) (ones 8 x4) (ones 8 x5) (ones 8 x6)
      (ones 8 x7) (omega (arith, total, ones_le 64 x))
    ∙ sym total

-- The count is the number of ones among the 64 binary digits of the word: no step of the three lines loses a carry, and
-- the product adds the bytes in its top one.
pub popcnt64-ones : (x : ℕ) → x < 2 ^ 64 → popcnt64 x ≡ ones 64 x
unfolding popcnt64
popcnt64-ones x fits =
    ap (λ n. bytes (nibbles n) * 0x0101010101010101 % 2 ^ 64 / 2 ^ 56) (pairs_lem x fits)
    ∙ ap (λ n. bytes n * 0x0101010101010101 % 2 ^ 64 / 2 ^ 56) (nibbles_lem x)
    ∙ ap (λ n. n * 0x0101010101010101 % 2 ^ 64 / 2 ^ 56) (bytes_lem x)
    ∙ all_ones x
