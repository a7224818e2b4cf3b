-- ===== src/Field/Carry.antt =====
-- The carries of the 256-bit addition and subtraction (runtime/xiom_runtime.c, 8075 to 8135).
use stdlib.Base.{
  ℕ, zero, suc, ◌+◌, ◌*◌, ◌≤◌, ◌<◌, ◌≡◌, ap, inl, inr, arith, ltb, if◌then◌else◌, Bool-cases,
}
use native.Mathlib.Nat.{mul-le-mul_right}
use stdlib.Base.Int.{ℤ, pos, negsuc}
use stdlib.Field.{Limbs, word, full, addc2, subb2, cmp, add_raw, sub_raw}

-- The number that the limbs stand for.
abbrev pub value : Limbs → ℕ
value a =
    a.w0
    + a.w1 * 18446744073709551616
    + a.w2 * 340282366920938463463374607431768211456
    + a.w3 * 6277101735386680763835789423207666416102355444464034512896

pub record IsLimbs (a : Limbs) : Type 0 where
  pub lt0 : a.w0 < 18446744073709551616
  pub lt1 : a.w1 < 18446744073709551616
  pub lt2 : a.w2 < 18446744073709551616
  pub lt3 : a.w3 < 18446744073709551616

pub addc2_lem :
    (a b cin : ℕ)
    → a < word
    → b < word
    → cin ≤ 1
    → ((addc2 a b cin).0 + (addc2 a b cin).1 * word ≡ a + b + cin)
      × ((addc2 a b cin).0 < word)
      × ((addc2 a b cin).1 ≤ 1)
unfolding addc2
addc2_lem a b cin ha hb hc = (ground arith, ground arith, ground arith)

subb2_lem :
    (a b bin : ℕ)
    → a < word
    → b < word
    → bin ≤ 1
    → ((subb2 a b bin).0 + b + bin ≡ a + (subb2 a b bin).1 * word)
      × ((subb2 a b bin).0 < word)
      × ((subb2 a b bin).1 ≤ 1)
unfolding subb2
subb2_lem a b bin ha hb hc = (ground arith, ground arith, ground arith)

-- The 256-bit sum with its carry is the sum of the numbers.
pub add_raw_lem :
    (a b : Limbs)
    → IsLimbs a
    → IsLimbs b
    → (value (add_raw a b).0 + (add_raw a b).1 * full ≡ value a + value b)
      × IsLimbs (add_raw a b).0
      × ((add_raw a b).1 ≤ 1)
unfolding add_raw
add_raw_lem a b ha hb =
    let l0 = addc2_lem a.w0 b.w0 0 ha.lt0 hb.lt0 (omega arith) in
    let l1 = addc2_lem a.w1 b.w1 (addc2 a.w0 b.w0 0).1 ha.lt1 hb.lt1 l0.2 in
    let l2 = addc2_lem a.w2 b.w2 (addc2 a.w1 b.w1 (addc2 a.w0 b.w0 0).1).1 ha.lt2 hb.lt2 l1.2 in
    let l3 =
      addc2_lem a.w3 b.w3 (addc2 a.w2 b.w2 (addc2 a.w1 b.w1 (addc2 a.w0 b.w0 0).1).1).1 ha.lt3
        hb.lt3 l2.2 in
    (
      omega (arith, l0.0, l1.0, l2.0, l3.0),
      record { lt0 = l0.1; lt1 = l1.1; lt2 = l2.1; lt3 = l3.1 },
      l3.2,
    )

-- The 256-bit difference with its borrow is the difference of the numbers.
pub sub_raw_lem :
    (a b : Limbs)
    → IsLimbs a
    → IsLimbs b
    → (value (sub_raw a b).0 + value b ≡ value a + (sub_raw a b).1 * full)
      × IsLimbs (sub_raw a b).0
      × ((sub_raw a b).1 ≤ 1)
unfolding sub_raw
sub_raw_lem a b ha hb =
    let l0 = subb2_lem a.w0 b.w0 0 ha.lt0 hb.lt0 (omega arith) in
    let l1 = subb2_lem a.w1 b.w1 (subb2 a.w0 b.w0 0).1 ha.lt1 hb.lt1 l0.2 in
    let l2 = subb2_lem a.w2 b.w2 (subb2 a.w1 b.w1 (subb2 a.w0 b.w0 0).1).1 ha.lt2 hb.lt2 l1.2 in
    let l3 =
      subb2_lem a.w3 b.w3 (subb2 a.w2 b.w2 (subb2 a.w1 b.w1 (subb2 a.w0 b.w0 0).1).1).1 ha.lt3
        hb.lt3 l2.2 in
    (
      omega (arith, l0.0, l1.0, l2.0, l3.0),
      record { lt0 = l0.1; lt1 = l1.1; lt2 = l2.1; lt3 = l3.1 },
      l3.2,
    )

-- The numbers are below 2^256.
pub value-lt : (a : Limbs) → IsLimbs a → value a < full
value-lt a h = omega (arith, h.lt0, h.lt1, h.lt2, h.lt3)

-- What the sign of a comparison says.
abbrev pub Compared : ℕ → ℕ → ℤ → Type 0
Compared x y (negsuc n) = x < y
Compared x y (pos zero) = x ≡ y
Compared x y (pos (suc n)) = y < x

lifted :
    (k a b x y : ℕ) (rest : ℤ) → a ≡ b → Compared x y rest → Compared (x + a * k) (y + b * k) rest
lifted k a b x y (negsuc n) e h =
    let same : a * k ≡ b * k = ap (λ c. c * k) e in omega (arith, same)
lifted k a b x y (pos zero) e h =
    let same : a * k ≡ b * k = ap (λ c. c * k) e in omega (arith, same)
lifted k a b x y (pos (suc n)) e h =
    let same : a * k ≡ b * k = ap (λ c. c * k) e in omega (arith, same)

last : (a b : ℕ) → Compared a b (if ltb a b then negsuc 0 else if ltb b a then pos 1 else pos 0)
last a b = elim (Bool-cases (ltb a b)) [
  | inl less ↦ rw less (ground arith)
  | inr not_less ↦ elim (Bool-cases (ltb b a)) [
    | inl more ↦ rw (not_less, more) (ground arith)
    | inr not_more ↦ rw (not_less, not_more) (ground arith)
  ]
]

-- One digit of a comparison, with `rest` the comparison of what stands below it.
digit :
    (k a b x y : ℕ) (rest : ℤ)
    → x < k
    → y < k
    → Compared x y rest
    → Compared
        (x + a * k)
        (y + b * k)
        (if ltb a b then negsuc 0 else if ltb b a then pos 1 else rest)
digit k a b x y rest hx hy h = elim (Bool-cases (ltb a b)) [
  | inl less ↦
      let step : suc a * k ≤ b * k = mul-le-mul_right k (ground arith) in
      rw less (omega (arith, step))
  | inr not_less ↦ elim (Bool-cases (ltb b a)) [
    | inl more ↦
        let step : suc b * k ≤ a * k = mul-le-mul_right k (ground arith) in
        rw (not_less, more) (omega (arith, step))
    | inr not_more ↦
        let same : a ≡ b = ground arith in rw (not_less, not_more) (lifted k a b x y rest same h)
  ]
]

-- The sign of the comparison is that of the numbers.
pub cmp_lem : (a b : Limbs) → IsLimbs a → IsLimbs b → Compared (value a) (value b) (cmp a b)
unfolding cmp
cmp_lem a b ha hb =
    digit 6277101735386680763835789423207666416102355444464034512896 a.w3 b.w3 _ _ _
      (omega (arith, ha.lt0, ha.lt1, ha.lt2)) (omega (arith, hb.lt0, hb.lt1, hb.lt2))
      (digit 340282366920938463463374607431768211456 a.w2 b.w2 _ _ _ (omega (arith, ha.lt0, ha.lt1))
        (omega (arith, hb.lt0, hb.lt1))
        (digit 18446744073709551616 a.w1 b.w1 a.w0 b.w0 _ ha.lt0 hb.lt0 (last a.w0 b.w0)))
