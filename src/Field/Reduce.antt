-- ===== src/Field/Reduce.antt =====
-- The reduction of a product modulo a prime of the curves, and the field operations of secp256k1
-- (runtime/xiom_runtime.c, 8221 to 8295). R256 is 2^256 modulo the prime.
use stdlib.Base.{
  ℕ, zero, suc, ◌+◌, ◌-◌, ◌*◌, ◌/◌, ◌%◌, ◌<◌, ◌≡◌, Option, none, some, List, arith, inl, inr, ◌==◌,
  if◌then◌else◌, get_or, set, Bool-cases,
}
use stdlib.Field.{Limbs, word, addc2, cmp, sub_raw, at_least_zero, mul_raw, secp256k1_p}
use stdlib.Field.Carry.{value, IsLimbs, sub_raw_lem, cmp_lem, value-lt}
use stdlib.Field.Modular.{at_least, below}

-- The propagation of a carry from the limb `j` on, over `left` limbs.
unfoldable pub propagate : ℕ → List ℕ → ℕ → ℕ → List ℕ
propagate zero w j carry = w
propagate (suc left) w j carry =
    let (sum, out) = addc2 (get_or w j 0) 0 carry in
    let rest = propagate left (set w j sum) (j + 1) out in if carry == 0 then w else rest

-- One high limb is folded into the low half; XIOM_MUL128 gives the two words of a product.
unfoldable pub fold_limb : ℕ → List ℕ → ℕ → List ℕ
fold_limb r256 w i =
    let v = get_or w i 0 in
    let shift = i - 4 in
    let high = v * r256 / word in
    let (s0, c0) = addc2 (get_or w shift 0) (v * r256 % word) 0 in
    let w0 = set w shift s0 in
    let (s1, c1) = addc2 (get_or w0 (shift + 1) 0) high c0 in
    let with_high = propagate (6 - shift) (set w0 (shift + 1) s1) (shift + 2) c1 in
    let without = propagate (6 - shift) w0 (shift + 2) c0 in
    if v == 0 then w else set (if high == 0 then without else with_high) i 0

abbrev pub fold_limbs : ℕ → List ℕ → List ℕ
fold_limbs r256 w = fold_limb r256 (fold_limb r256 (fold_limb r256 (fold_limb r256 w 4) 5) 6) 7

-- The last loop; none is that the fuel ran out.
unfoldable pub subtract_down : ℕ → Limbs → Limbs → Option Limbs
subtract_down zero r p = none
subtract_down (suc fuel) r p =
    let rest = subtract_down fuel (sub_raw r p).0 p in
    if at_least_zero (cmp r p) then rest else some r

-- xiom_f256_reduce
unfoldable pub reduce : List ℕ → Limbs → ℕ → Option Limbs
reduce x p r256 =
    let w = fold_limbs r256 (fold_limbs r256 (fold_limbs r256 x)) in
    subtract_down 3
      (record { w0 = get_or w 0 0; w1 = get_or w 1 0; w2 = get_or w 2 0; w3 = get_or w 3 0 }) p

-- SECP256K1_R256
abbrev pub secp256k1_r256 : ℕ
secp256k1_r256 = 0x1000003D1

abbrev pub secp256k1_mul : Limbs → Limbs → Option Limbs
secp256k1_mul a b = reduce (mul_raw a b) secp256k1_p secp256k1_r256

abbrev pub secp256k1_sqr : Limbs → Option Limbs
secp256k1_sqr a = secp256k1_mul a a

-- The range of what the loop gives.
abbrev pub Down : ℕ → Limbs → Option Limbs → Type 0
Down n p none = ⊥
Down n p (some r) = IsLimbs r × (value r < value p) × ((k : ℕ) × (value r + k * value p ≡ n))

lifted : (p : Limbs) (n m : ℕ) → m + value p ≡ n → (o : Option Limbs) → Down m p o → Down n p o
lifted p n m e none h = h
lifted p n m e (some r) (ok, lt, (k, sum)) =
    let more : (k + 1) * value p ≡ k * value p + value p = grind arith in
    (ok, lt, (k + 1, omega (arith, more, sum, e)))

lower : (n m v fuel : ℕ) → m + v ≡ n → n < suc fuel * v → m < fuel * v
lower n m v fuel e h = omega arith

-- With fuel for one more subtraction than the number has multiples of the modulus, the loop ends with the
-- remainder.
pub subtract_down-Down :
    (fuel : ℕ) (r p : Limbs)
    → IsLimbs r
    → IsLimbs p
    → value r < fuel * value p
    → Down (value r) p (subtract_down fuel r p)
unfolding subtract_down
subtract_down-Down zero r p hr hp small = absurd (omega arith)
subtract_down-Down (suc fuel) r p hr hp small = elim (Bool-cases (at_least_zero (cmp r p))) [
  | inr less ↦ rw less (hr, below _ _ _ (cmp_lem r p hr hp) less, (0, omega arith))
  | inl more ↦
      let over = at_least _ _ _ (cmp_lem r p hr hp) more in
      let diff = sub_raw_lem r p hr hp in
      let top = value-lt (sub_raw r p).0 diff.1 in
      let gone : value (sub_raw r p).0 + value p ≡ value r = omega (arith, diff, over, top) in
      rw more (
        lifted p (value r) _ gone _
          (subtract_down-Down fuel (sub_raw r p).0 p diff.1 hp (lower _ _ _ fuel gone small)))
]
