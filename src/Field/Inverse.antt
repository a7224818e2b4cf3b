-- ===== src/Field/Inverse.antt =====
-- The inverses modulo the two primes, by the binary Euclidean algorithm (runtime/xiom_runtime.c, 8295 to 8398
-- and 8674 to 8755).
use stdlib.Base.{ℕ, zero, suc, ◌+◌, ◌*◌, ◌%◌, ◌^◌, ◌||◌, Option, none, some, ◌==◌, if◌then◌else◌}
use stdlib.Base.Chain.{◌>>=◌}
use stdlib.Base.Words.{◌>>>◌}
use stdlib.Field.{Limbs, full, addc2, sub_raw, cmp, is_zero, at_least_zero, secp256k1_p}
use stdlib.Field.Reduce.{subtract_down}
use stdlib.Field.Negate.{from_u64, ed25519_p}

-- A shift by one, limb by limb; the bit that comes down meets no other.
unfoldable pub shift_right : Limbs → Limbs
shift_right a = record {
  w0 = a.w0 >>> 1 + a.w1 % 2 * 2 ^ 63;
  w1 = a.w1 >>> 1 + a.w2 % 2 * 2 ^ 63;
  w2 = a.w2 >>> 1 + a.w3 % 2 * 2 ^ 63;
  w3 = a.w3 >>> 1;
}

-- The half of an odd number that both functions take for `x2`, and ed25519_inv for `x1`.
unfoldable pub odd_half : Limbs → Limbs → Limbs
odd_half p x = shift_right (sub_raw p x).0

-- What the first loop of secp256k1_inv leaves in `x1`: the sum, each limb shifted by itself.
unfoldable pub shifted_sum : Limbs → Limbs → Limbs
shifted_sum p x =
    let (s0, k0) = addc2 x.w0 p.w0 0 in
    let (s1, k1) = addc2 x.w1 p.w1 k0 in
    let (s2, k2) = addc2 x.w2 p.w2 k1 in
    let (s3, k3) = addc2 x.w3 p.w3 k2 in
    record {
      w0 = s0 >>> 1;
      w1 = s1 >>> 1 + (if k0 == 0 then 0 else 2 ^ 63);
      w2 = s2 >>> 1 + (if k1 == 0 then 0 else 2 ^ 63);
      w3 = s3 >>> 1;
    }

-- The half of an odd `x1` in secp256k1_inv.
unfoldable pub odd_half_sum : Limbs → Limbs → Limbs
odd_half_sum p x = shift_right (sub_raw p (sub_raw (shifted_sum p x) p).0).0

-- The turns of `while ((u[0] & 1) == 0)`, with the coefficient that goes with `u`; `none` is that the fuel ran out.
unfoldable pub strip : (Limbs → Limbs) → ℕ → Limbs → Limbs → Option (Limbs × Limbs)
strip half zero u x = none
strip half (suc fuel) u x =
    let rest = strip half fuel (shift_right u) (if x.w0 % 2 == 0 then shift_right x else half x) in
    if u.w0 % 2 == 0 then rest else some (u, x)

-- The four local numbers.
pub record Euclid : Type 0 where
  pub u : Limbs
  pub v : Limbs
  pub x1 : Limbs
  pub x2 : Limbs

-- x - y modulo the prime.
unfoldable pub mod_diff : Limbs → Limbs → Limbs → Limbs
mod_diff p x y = if at_least_zero (cmp x y) then (sub_raw x y).0 else (sub_raw p (sub_raw y x).0).0

-- The end of a turn: the smaller number is taken from the larger.
unfoldable pub subtract_pair : Limbs → Euclid → Euclid
subtract_pair p s =
    if at_least_zero (cmp s.u s.v)
    then record s { u = (sub_raw s.u s.v).0; x1 = mod_diff p s.x1 s.x2 }
    else record s { v = (sub_raw s.v s.u).0; x2 = mod_diff p s.x2 s.x1 }

abbrev pub pair_of : Limbs × Limbs → Limbs × Limbs → Euclid
pair_of (u, x1) (v, x2) = record { u = u; v = v; x1 = x1; x2 = x2 }

-- A turn of the outer loop; a number of 256 bits that is not 0 has at most 255 factors of 2.
unfoldable pub euclid_step : (Limbs → Limbs) → Limbs → Euclid → Option Euclid
euclid_step half p s = do
  left ← strip half 256 s.u s.x1
  right ← strip (odd_half p) 256 s.v s.x2
  some (subtract_pair p (pair_of left right))

-- The outer loop; `none` is that the fuel ran out.
unfoldable pub euclid_loop : (Limbs → Limbs) → Limbs → ℕ → Euclid → Option Euclid
euclid_loop half p zero s = none
euclid_loop half p (suc fuel) s =
    let next = euclid_step half p s >>= euclid_loop half p fuel in
    if is_zero s.u || is_zero s.v then some s else next

-- The result and its last reduction.
unfoldable pub chosen : Limbs → Option Euclid → Option Limbs
chosen p none = none
chosen p (some s) = subtract_down 3 (if is_zero s.u then s.x2 else s.x1) p

-- The inverse of what the first reduction gives.
unfoldable pub inverse_reduced : (Limbs → Limbs) → Limbs → Option Limbs → Option Limbs
inverse_reduced half p none = none
inverse_reduced half p (some u) =
    if is_zero u
    then some (from_u64 0)
    else chosen p (
        euclid_loop half p (full + full)
          (record { u = u; v = p; x1 = from_u64 1; x2 = from_u64 0 }))

unfoldable pub inverse : (Limbs → Limbs) → Limbs → Limbs → Option Limbs
inverse half p a = inverse_reduced half p (subtract_down 3 a p)

-- secp256k1_inv and ed25519_inv
abbrev pub secp256k1_inv : Limbs → Option Limbs
secp256k1_inv = inverse (odd_half_sum secp256k1_p) secp256k1_p

abbrev pub ed25519_inv : Limbs → Option Limbs
ed25519_inv = inverse (odd_half ed25519_p) ed25519_p
