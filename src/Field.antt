-- ===== src/Field.antt =====
-- The 256-bit limb arithmetic below the elliptic curves (runtime/xiom_runtime.c, 8067 to 8153 and 8198 to
-- 8220).
pub mod Carry
pub mod Modular
pub mod Negate
pub mod Inverse
pub mod Halving
pub mod Strips
pub mod Stops
pub mod Inverted
pub mod Total
pub mod Product
pub mod Reduce
pub mod Tests
use stdlib.Base.{
  ℕ, zero, suc, ◌+◌, ◌-◌, ◌*◌, ◌/◌, ◌%◌, ◌^◌, ◌≤◌, ◌<◌, Bool, true, false, ◌&&◌, ◌||◌, not, List,
  [], ◌∷◌, ltb, leb, ◌==◌, if◌then◌else◌, get_or, set,
}
use stdlib.Base.Int.{ℤ, pos, negsuc}

-- A uint64_t[4], the least limb first.
pub record Limbs : Type 0 where
  pub w0 : ℕ
  pub w1 : ℕ
  pub w2 : ℕ
  pub w3 : ℕ

-- 2^64 and 2^256
abbrev pub word : ℕ
word = 18446744073709551616

abbrev pub full : ℕ
full = 115792089237316195423570985008687907853269984665640564039457584007913129639936

-- Addition and subtraction of a uint64_t, which wrap.
abbrev pub add_word : ℕ → ℕ → ℕ
add_word a b = (a + b) % word

abbrev pub sub_word : ℕ → ℕ → ℕ
sub_word a b = (a + word - b) % word

abbrev pub bit : Bool → ℕ
bit true = 1
bit false = 0

-- xiom_addc2: the sum and the carry out.
unfoldable pub addc2 : ℕ → ℕ → ℕ → ℕ × ℕ
addc2 a b cin =
    let s1 = add_word a cin in let s2 = add_word s1 b in (s2, bit (ltb s1 a) + bit (ltb s2 s1))

-- xiom_subb2: the difference and the borrow out.
unfoldable pub subb2 : ℕ → ℕ → ℕ → ℕ × ℕ
subb2 a b bin = let d1 = sub_word a bin in (sub_word d1 b, bit (ltb a bin) + bit (ltb d1 b))

-- xiom_f256_is_zero and xiom_f256_eq; the bitwise or of the limbs is 0 when each of them is.
unfoldable pub is_zero : Limbs → Bool
is_zero a = (a.w0 == 0) && (a.w1 == 0) && (a.w2 == 0) && (a.w3 == 0)

unfoldable pub eq : Limbs → Limbs → Bool
eq a b = (a.w0 == b.w0) && (a.w1 == b.w1) && (a.w2 == b.w2) && (a.w3 == b.w3)

-- xiom_f256_cmp
unfoldable pub cmp : Limbs → Limbs → ℤ
cmp a b =
    if ltb a.w3 b.w3
    then negsuc 0
    else if ltb b.w3 a.w3
    then pos 1
    else if ltb a.w2 b.w2
    then negsuc 0
    else if ltb b.w2 a.w2
    then pos 1
    else if ltb a.w1 b.w1
    then negsuc 0
    else if ltb b.w1 a.w1
    then pos 1
    else if ltb a.w0 b.w0
    then negsuc 0
    else if ltb b.w0 a.w0
    then pos 1
    else pos 0

-- xiom_f256_add_raw
unfoldable pub add_raw : Limbs → Limbs → Limbs × ℕ
add_raw a b =
    let (r0, c0) = addc2 a.w0 b.w0 0 in
    let (r1, c1) = addc2 a.w1 b.w1 c0 in
    let (r2, c2) = addc2 a.w2 b.w2 c1 in
    let (r3, c3) = addc2 a.w3 b.w3 c2 in (record { w0 = r0; w1 = r1; w2 = r2; w3 = r3 }, c3)

-- xiom_f256_sub_raw
unfoldable pub sub_raw : Limbs → Limbs → Limbs × ℕ
sub_raw a b =
    let (r0, c0) = subb2 a.w0 b.w0 0 in
    let (r1, c1) = subb2 a.w1 b.w1 c0 in
    let (r2, c2) = subb2 a.w2 b.w2 c1 in
    let (r3, c3) = subb2 a.w3 b.w3 c2 in (record { w0 = r0; w1 = r1; w2 = r2; w3 = r3 }, c3)

abbrev pub at_least_zero : ℤ → Bool
at_least_zero (pos n) = true
at_least_zero (negsuc n) = false

-- xiom_f256_mod_add
unfoldable pub mod_add : Limbs → Limbs → Limbs → Limbs
mod_add a b p =
    let (r, c) = add_raw a b in
    if not (c == 0) || at_least_zero (cmp r p) then (sub_raw r p).0 else r

-- xiom_f256_mod_sub
unfoldable pub mod_sub : Limbs → Limbs → Limbs → Limbs
mod_sub a b p = let (r, br) = sub_raw a b in if br == 0 then r else (add_raw r p).0

-- One step of the inner loop of xiom_f256_mul_raw; XIOM_MUL128 gives the two words of a product.
abbrev pub mul_step : List ℕ → ℕ → ℕ → ℕ → ℕ → List ℕ × ℕ
mul_step x ai bj idx carry =
    let (low, c1) = addc2 (get_or x idx 0) (ai * bj % word) carry in
    let x' = set x idx low in
    if ltb (idx + 1) 8
    then (let (high, c2) = addc2 (get_or x' (idx + 1) 0) (ai * bj / word) c1 in
        (set x' (idx + 1) high, c2))
    else (x', c1)

-- The inner loop over the limbs of `b`, from the place `idx` on, and the store behind it.
unfoldable pub mul_row : List ℕ → ℕ → List ℕ → ℕ → ℕ → List ℕ
mul_row x ai [] idx carry = if ltb idx 8 then set x idx carry else x
mul_row x ai (bj ∷ bs) idx carry =
    let (x', carry') = mul_step x ai bj idx carry in mul_row x' ai bs (idx + 1) carry'

-- The outer loop over the limbs of `a`.
unfoldable pub mul_rows : List ℕ → List ℕ → List ℕ → ℕ → List ℕ
mul_rows x [] b i = x
mul_rows x (ai ∷ rest) b i = mul_rows (if ai == 0 then x else mul_row x ai b i 0) rest b (i + 1)

abbrev pub limb_list : Limbs → List ℕ
limb_list a = a.w0 ∷ a.w1 ∷ a.w2 ∷ a.w3 ∷ []

-- xiom_f256_mul_raw
unfoldable pub mul_raw : Limbs → Limbs → List ℕ
mul_raw a b = mul_rows (0 ∷ 0 ∷ 0 ∷ 0 ∷ 0 ∷ 0 ∷ 0 ∷ 0 ∷ []) (limb_list a) (limb_list b) 0

-- SECP256K1_P
abbrev pub secp256k1_p : Limbs
secp256k1_p = record {
  w0 = 0xFFFFFFFEFFFFFC2F;
  w1 = 0xFFFFFFFFFFFFFFFF;
  w2 = 0xFFFFFFFFFFFFFFFF;
  w3 = 0xFFFFFFFFFFFFFFFF;
}

abbrev pub secp256k1_add : Limbs → Limbs → Limbs
secp256k1_add a b = mod_add a b secp256k1_p

abbrev pub secp256k1_sub : Limbs → Limbs → Limbs
secp256k1_sub a b = mod_sub a b secp256k1_p
