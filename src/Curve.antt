-- ===== src/Curve.antt =====
-- The points of secp256k1 (runtime/xiom_runtime.c, 8155 to 8196 and 8404 to 8487). A result is written where the
-- caller says, and the multiplication passes the first point as that place too.
pub mod Aliased
pub mod Total
pub mod Tests
use stdlib.Base.{
  ℕ, zero, suc, ◌+◌, ◌*◌, ◌/◌, ◌%◌, ◌^◌, Bool, true, false, ◌&&◌, Option, none, some, List, [], ◌∷◌,
  ◌==◌, if◌then◌else◌, get_or,
}
use stdlib.Base.Chain.{◌>>=◌}
use stdlib.Base.Words.{◌>>>◌}
use stdlib.Field.{Limbs, is_zero, eq, limb_list, secp256k1_add, secp256k1_sub}
use stdlib.Field.Reduce.{secp256k1_mul, secp256k1_sqr}
use stdlib.Field.Negate.{from_u64}
use stdlib.Field.Inverse.{secp256k1_inv}

pub record Point : Type 0 where
  pub x : Limbs
  pub y : Limbs

-- SECP256K1_B, SECP256K1_GX and SECP256K1_GY
abbrev pub secp256k1_b : Limbs
secp256k1_b = record { w0 = 7; w1 = 0; w2 = 0; w3 = 0 }

abbrev pub generator : Point
generator = record {
  x = record {
    w0 = 0x59F2815B16F81798;
    w1 = 0x029BFCDB2DCE28D9;
    w2 = 0x55A06295CE870B07;
    w3 = 0x79BE667EF9DCBBAC;
  };
  y = record {
    w0 = 0x9C47D08FFB10D4B8;
    w1 = 0xFD17B448A6855419;
    w2 = 0x5DA4FBFC0E1108A8;
    w3 = 0x483ADA7726A3C465;
  };
}

-- The point at infinity is the pair of zeros.
abbrev pub infinity : Point
infinity = record { x = from_u64 0; y = from_u64 0 }

abbrev pub is_infinity : Point → Bool
is_infinity a = is_zero a.x && is_zero a.y

-- xiom_secp256k1_point_valid
unfoldable pub point_valid : Point → Option Bool
point_valid a = if is_infinity a then some true else do
  lhs ← secp256k1_sqr a.y
  x2 ← secp256k1_mul a.x a.x
  x3 ← secp256k1_mul x2 a.x
  some (eq lhs (secp256k1_add x3 secp256k1_b))

-- The end of both additions, where `rx` is written: `aliased` says that it is written over `ax`, so that the read
-- of `ax` behind it finds `rx`.
unfoldable pub finish : Bool → Point → Limbs → Limbs → Option Point
finish aliased a lam rx = do
  t ← secp256k1_mul lam (secp256k1_sub (if aliased then rx else a.x) rx)
  some (record { x = rx; y = secp256k1_sub t a.y })

-- The branch of a doubling.
unfoldable pub double : Bool → Point → Option Point
double aliased a = do
  t ← secp256k1_sqr a.x
  num ← secp256k1_mul t (from_u64 3)
  den ← secp256k1_mul a.y (from_u64 2)
  inverse ← secp256k1_inv den
  lam ← secp256k1_mul num inverse
  square ← secp256k1_sqr lam
  twice ← secp256k1_mul a.x (from_u64 2)
  finish aliased a lam (secp256k1_sub square twice)

-- The branch of two points with different first coordinates.
unfoldable pub add_generic : Bool → Point → Point → Option Point
add_generic aliased a b = do
  inverse ← secp256k1_inv (secp256k1_sub b.x a.x)
  lam ← secp256k1_mul (secp256k1_sub b.y a.y) inverse
  square ← secp256k1_sqr lam
  finish aliased a lam (secp256k1_sub (secp256k1_sub square a.x) b.x)

-- xiom_secp256k1_point_add
unfoldable pub point_add : Bool → Point → Point → Option Point
point_add aliased a b =
    if is_infinity a
    then some b
    else if is_infinity b
    then some a
    else if eq a.x b.x && is_zero (secp256k1_add a.y b.y)
    then some infinity
    else if eq a.x b.x && eq a.y b.y
    then (if is_zero a.y then some infinity else double aliased a)
    else add_generic aliased a b

-- The turns of xiom_secp256k1_point_mul, from the bit `i` on; both additions write over their first point.
unfoldable pub mul_loop : ℕ → ℕ → Limbs → Point → Point → Option Point
mul_loop zero i k res add = some res
mul_loop (suc turns) i k res add = do
  res' ←
      (if (get_or (limb_list k) (i / 64) 0 >>> (i % 64)) % 2 == 0
        then some res
        else point_add true res add)
  add' ← point_add true add add
  mul_loop turns (i + 1) k res' add'

-- xiom_secp256k1_point_mul and xiom_secp256k1_base_mul
unfoldable pub point_mul : Limbs → Point → Option Point
point_mul k p = mul_loop 256 0 k infinity p

unfoldable pub base_mul : Limbs → Option Point
base_mul k = point_mul k generator
