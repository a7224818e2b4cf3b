-- ===== src/Wide/Remainder.antt =====
-- The signed remainder and the product (runtime/xiom_runtime.c, 9169 to 9171 and 9212 to 9215).
use stdlib.Base.{
  ℕ, zero, suc, ◌+◌, ◌-◌, ◌*◌, ◌/◌, ◌%◌, ◌≤◌, ◌<◌, ◌≡◌, refl, sym, ap, ◌∙◌, true, false, Bool, some,
  arith, ltb, leb,
}
use native.Mathlib.Nat.{div-add-mod}
use stdlib.Base.Int.{ℤ, pos, negsuc, ◌-ℤ◌, sub_ℕ, pos_part, neg_part}
use stdlib.Wide.{
  full, half, is_negative, magnitude, as_signed, minus_product, modti3, multi3, times, in_range,
}
use stdlib.Wide.Signed.{signed, differ, divti3_lem}

sub_over : (x y r : ℕ) → x ≡ y + r → sub_ℕ x y ≡ pos r
sub_over x y r e = let le : leb y x ≡ true = ground arith in rw le (ap pos (omega (arith, e)))

sub_under : (x y r : ℕ) → y ≡ x + r → sub_ℕ x y ≡ signed true r
sub_under x y zero e = sub_over x y 0 (omega (arith, e))
sub_under x y (suc r) e =
    let gt : leb y x ≡ false = ground arith in rw gt (ap negsuc (omega (arith, e)))

sub_zero : (x : ℕ) → sub_ℕ 0 x ≡ signed true x
sub_zero x = sub_under 0 x x (omega arith)

negative_parts : (n : ℕ) → (pos_part (signed true n) ≡ 0) × (neg_part (signed true n) ≡ n)
negative_parts zero = (refl, refl)
negative_parts (suc n) = (refl, refl)

-- The product of a number and one whose sign is that of the division by it.
times_signed :
    (a b : ℤ) (q : ℕ) → times (signed (differ a b) q) b ≡ signed (is_negative a) (q * magnitude b)
times_signed (pos m) (pos n) q = refl
times_signed (pos m) (negsuc n) zero = let e : 0 * suc n ≡ 0 = omega arith in rw e refl
times_signed (pos m) (negsuc n) (suc k) = refl
times_signed (negsuc m) (pos n) zero = let e : 0 * n ≡ 0 = omega arith in rw e refl
times_signed (negsuc m) (pos n) (suc k) = sub_zero (suc k * n)
times_signed (negsuc m) (negsuc n) q = sub_zero (q * suc n)

-- A difference of two numbers of one sign, the first of the larger magnitude.
signed_less : (s : Bool) (k r : ℕ) → signed s (k + r) -ℤ signed s k ≡ signed s r
unfolding ◌-ℤ◌
signed_less false k r = sub_over (k + r + 0) (0 + k) r (omega arith)
signed_less true k r =
    let (p, n) = negative_parts (k + r) in
    let (p', n') = negative_parts k in
    rw (p, n, p', n') (sub_under (0 + k) (k + r + 0) r (omega arith))

sign_and_magnitude : (a : ℤ) → a ≡ signed (is_negative a) (magnitude a)
sign_and_magnitude (pos n) = refl
sign_and_magnitude (negsuc n) = refl

in_range_below : (s : Bool) (n : ℕ) → n < half → in_range (signed s n) ≡ true
in_range_below false n h = ground arith
in_range_below true zero h = refl
in_range_below true (suc n) h = ground arith

in_range_negative : (n : ℕ) → n ≤ half → in_range (signed true n) ≡ true
in_range_negative zero h = refl
in_range_negative (suc n) h = ground arith

-- A magnitude that a signed number of 128 bits has.
fits_sign :
    (a : ℤ)
    → in_range a ≡ true
    → (m : ℕ) → m ≤ magnitude a
    → in_range (signed (is_negative a) m) ≡ true
fits_sign (pos n) h m le = in_range_below false m (ground arith)
fits_sign (negsuc n) h m le = in_range_negative m (ground arith)

-- The remainder of two signed 128-bit numbers has the sign of the dividend and the magnitude of the remainder of the
-- magnitudes, whenever the magnitude of the quotient is below 2^127; neither the product nor the difference overflows.
pub modti3_lem :
    (a b : ℤ)
    → in_range a ≡ true
    → in_range b ≡ true
    → 0 < magnitude b
    → magnitude a / magnitude b < half
    → modti3 a b ≡ some (signed (is_negative a) (magnitude a % magnitude b))
unfolding modti3 minus_product
modti3_lem a b ha hb positive fits =
    let q = magnitude a / magnitude b in
    let r = magnitude a % magnitude b in
    let whole : magnitude a ≡ q * magnitude b + r =
      omega (arith, div-add-mod (magnitude a) (magnitude b)) in
    let quotient = divti3_lem a b (within a ha) (within b hb) positive fits in
    let product = times_signed a b q in
    let product_fits = fits_sign a ha (q * magnitude b) (omega (arith, whole)) in
    let less : a -ℤ signed (is_negative a) (q * magnitude b) ≡ signed (is_negative a) r =
      ap (λ x. x -ℤ signed (is_negative a) (q * magnitude b))
        (sign_and_magnitude a ∙ ap (signed (is_negative a)) whole)
      ∙ signed_less (is_negative a) (q * magnitude b) r in
    let rest_fits = fits_sign a ha r (omega (arith, whole)) in
    rw (quotient, product, product_fits, less, rest_fits) refl
  where
    within : (a : ℤ) → in_range a ≡ true → magnitude a < full
    within (pos n) h = ground arith
    within (negsuc n) h = ground arith

spread : (x d y : ℕ) → x * (d + y) ≡ x * d + x * y
spread x d y = grind arith

whole_of : (x y : ℕ) → y ≤ half → x * (full - y) + x * y ≡ x * full
whole_of x y h =
    let all : full - y + y ≡ full = omega arith in
    sym (spread x (full - y) y) ∙ ap (λ (t : ℕ). x * t) all

-- A pattern that is `p` below a multiple of 2^128 is that of -p.
negative_pattern : (p x m : ℕ) → x + p ≡ m * full → p ≤ half → as_signed (x % full) ≡ signed true p
negative_pattern zero x m e h = let none_left : x % full ≡ 0 = omega (arith, e) in rw none_left refl
negative_pattern (suc p) x m e h =
    let pattern : x % full ≡ full - suc p = omega (arith, e, h) in
    let high : ltb (full - suc p) half ≡ false = ground (arith, h) in
    rw (pattern, high) (ap negsuc (omega (arith, h)))

negative-le : (p : ℕ) → in_range (sub_ℕ 0 p) ≡ true → p ≤ half
negative-le zero h = omega arith
negative-le (suc p) h = let h' = rw (sub_zero (suc p)) at h in ground (arith, h')

mixed :
    (x y : ℕ)
    → y ≤ half
    → in_range (sub_ℕ 0 (x * y)) ≡ true
    → as_signed (x * (full - y) % full) ≡ sub_ℕ 0 (x * y)
mixed x y hy h =
    negative_pattern (x * y) (x * (full - y)) x (whole_of x y hy) (negative-le (x * y) h)
    ∙ sym (sub_zero (x * y))

-- The product of two patterns of negative numbers.
both_wrap : (x y : ℕ) → x * y < half → x ≤ half → y ≤ half → (full - x) * (full - y) % full ≡ x * y
both_wrap x y h hx hy =
    let outer = whole_of (full - x) y hy in
    let inner = whole_of y x hx in
    let turned : (full - x) * y ≡ y * (full - x) = grind arith in
    let turned' : y * x ≡ x * y = grind arith in omega (arith, outer, inner, turned, turned')

-- The product of two signed 128-bit numbers is their product whenever that is one.
pub multi3_lem :
    (a b : ℤ)
    → in_range a ≡ true
    → in_range b ≡ true
    → in_range (times a b) ≡ true
    → multi3 a b ≡ times a b
multi3_lem (pos m) (pos n) ha hb h =
    let small : m * n < half = ground arith in
    let kept : m * n % full ≡ m * n = omega arith in
    let low : ltb (m * n) half ≡ true = ground arith in rw (kept, low) refl
multi3_lem (pos m) (negsuc n) ha hb h = mixed m (suc n) (ground arith) h
multi3_lem (negsuc m) (pos n) ha hb h =
    let turned : suc m * n ≡ n * suc m = grind arith in
    let turned' : (full - suc m) * n ≡ n * (full - suc m) = grind arith in
    let h' = rw turned at h in rw (turned', turned) (mixed n (suc m) (ground arith) h')
multi3_lem (negsuc m) (negsuc n) ha hb h =
    let small : suc m * suc n < half = ground arith in
    let kept = both_wrap (suc m) (suc n) small (ground arith) (ground arith) in
    let low : ltb (suc m * suc n) half ≡ true = ground arith in rw (kept, low) refl
