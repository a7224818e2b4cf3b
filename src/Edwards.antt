-- ===== src/Edwards.antt =====
-- The points of Ed25519 (runtime/xiom_runtime.c, 8176 to 8196, 8662 to 8668 and 8761 to 8874).
pub mod Order
pub mod Signing
pub mod Total
pub mod Answers
pub mod Bytes
pub mod Disclosed
pub mod Tests
use stdlib.Base.{
  ℕ, zero, suc, ◌+◌, ◌-◌, ◌*◌, ◌/◌, ◌%◌, ◌^◌, Bool, true, false, ◌&&◌, not, Option, none, some,
  List, [], ◌∷◌, bit_and, bit_or, ltb, ◌==◌, if◌then◌else◌, get_or, set,
}
use stdlib.Base.Words.{u8, ◌>>>◌, ◌<<<◌}
use stdlib.Base.Chain.{◌>>=◌}
use stdlib.Field.{Limbs, eq, limb_list, mul_raw}
use stdlib.Field.Reduce.{reduce}
use stdlib.Field.Negate.{from_u64, ed25519_p, ed25519_add, ed25519_sub, ed25519_neg}
use stdlib.Field.Inverse.{ed25519_inv}

-- ED25519_D, ED25519_BX and ED25519_BY
abbrev pub ed25519_d : Limbs
ed25519_d = record {
  w0 = 0x135978A3F1D3720C;
  w1 = 0x75DEB90B44FDBE7F;
  w2 = 0x81A9A62F5E98AE4F;
  w3 = 0x52036CEE2B6FFE73;
}

abbrev pub ed25519_bx : Limbs
ed25519_bx = record {
  w0 = 0x62D608F25D51A0F4;
  w1 = 0x26548ED6F1D9BC68;
  w2 = 0xE8A2671C15EA2DA1;
  w3 = 0x216936D3CD6E53FE;
}

abbrev pub ed25519_by : Limbs
ed25519_by = record {
  w0 = 0x6666666666666658;
  w1 = 0x6666666666666666;
  w2 = 0x6666666666666666;
  w3 = 0x6666666666666666;
}

-- ed25519_mul, with ED25519_R256, and ed25519_sqr
abbrev pub ed25519_mul : Limbs → Limbs → Option Limbs
ed25519_mul a b = reduce (mul_raw a b) ed25519_p 38

abbrev pub ed25519_sqr : Limbs → Option Limbs
ed25519_sqr a = ed25519_mul a a

-- ed25519_pt
pub record Extended : Type 0 where
  pub x : Limbs
  pub y : Limbs
  pub z : Limbs
  pub t : Limbs

-- ed25519_pt_id and ed25519_pt_base
abbrev pub identity : Extended
identity = record { x = from_u64 0; y = from_u64 1; z = from_u64 1; t = from_u64 0 }

-- A point of affine coordinates, as the base and the two points of a verification are built.
unfoldable pub extended : Limbs → Limbs → Option Extended
extended x y = do t ← ed25519_mul x y; some (record { x = x; y = y; z = from_u64 1; t = t })

abbrev pub base : Option Extended
base = extended ed25519_bx ed25519_by

-- The last four products of both operations.
unfoldable pub completed : Limbs → Limbs → Limbs → Limbs → Option Extended
completed e f g h = do
  x ← ed25519_mul e f
  y ← ed25519_mul g h
  t ← ed25519_mul e h
  z ← ed25519_mul f g
  some (record { x = x; y = y; z = z; t = t })

-- ed25519_pt_add
unfoldable pub pt_add : Extended → Extended → Option Extended
pt_add p q = do
  twod ← ed25519_mul ed25519_d (from_u64 2)
  a ← ed25519_mul (ed25519_sub p.y p.x) (ed25519_sub q.y q.x)
  b ← ed25519_mul (ed25519_add p.y p.x) (ed25519_add q.y q.x)
  pt ← ed25519_mul p.t twod
  c ← ed25519_mul pt q.t
  pz ← ed25519_mul p.z (from_u64 2)
  d ← ed25519_mul pz q.z
  completed (ed25519_sub b a) (ed25519_sub d c) (ed25519_add d c) (ed25519_add b a)

-- ed25519_pt_dbl
unfoldable pub pt_double : Extended → Option Extended
pt_double p = do
  a ← ed25519_sqr p.x
  b ← ed25519_sqr p.y
  zz ← ed25519_sqr p.z
  c ← ed25519_mul zz (from_u64 2)
  square ← ed25519_sqr (ed25519_add p.x p.y)
  let d = ed25519_neg a
  let g = ed25519_add d b
  completed (ed25519_sub (ed25519_sub square a) b) (ed25519_sub g c) g (ed25519_sub d b)

-- The loop of ed25519_scalar_mul from the bit `i` on.
unfoldable pub scalar_loop : ℕ → ℕ → List ℕ → Extended → Extended → Option Extended
scalar_loop zero i s res tmp = some res
scalar_loop (suc turns) i s res tmp = do
  res' ← (if (get_or s (i / 8) 0 >>> (i % 8)) % 2 == 0 then some res else pt_add res tmp)
  tmp' ← pt_double tmp
  scalar_loop turns (i + 1) s res' tmp'

-- ed25519_scalar_mul
unfoldable pub scalar_mul : List ℕ → Extended → Option Extended
scalar_mul s p = scalar_loop 256 0 s identity p

-- ed25519_to_affine
unfoldable pub to_affine : Extended → Option (Limbs × Limbs)
to_affine p = do
  zi ← ed25519_inv p.z
  ax ← ed25519_mul p.x zi
  ay ← ed25519_mul p.y zi
  some (ax, ay)

-- The body of the loops that write 32 bytes, and the loop from the byte `i` on.
abbrev pub byte_of : List ℕ → ℕ → ℕ
byte_of limbs i =
    let limb = i * 8 / 64 in
    let sh = i * 8 % 64 in
    let out = u8 (get_or limbs limb 0 >>> sh) in
    if ltb 56 sh && ltb (limb + 1) 4
    then bit_or out (u8 (get_or limbs (limb + 1) 0 <<< (64 - sh)))
    else out

unfoldable pub write_bytes : ℕ → ℕ → List ℕ → List ℕ
write_bytes zero i limbs = []
write_bytes (suc left) i limbs = byte_of limbs i ∷ write_bytes left (i + 1) limbs

-- ed25519_enc_pub
unfoldable pub enc_pub : Limbs → Limbs → List ℕ
enc_pub x y =
    let out = write_bytes 32 0 (limb_list y) in
    set out 31 (bit_or (bit_and (get_or out 31 0) 0x7F) (x.w0 % 2 <<< 7))

-- The power by the bits of `e`, in the square root.
unfoldable pub power_loop : ℕ → ℕ → Limbs → Limbs → Limbs → Option Limbs
power_loop zero bit e u v = some u
power_loop (suc turns) bit e u v = do
  u' ←
      (if (get_or (limb_list e) (bit / 64) 0 >>> (bit % 64)) % 2 == 0
        then some u
        else ed25519_mul u v)
  v' ← ed25519_sqr v
  power_loop turns (bit + 1) e u' v'

-- sqrt_m1, and the exponent that ed25519_recover_x builds
abbrev pub sqrt_m1 : Limbs
sqrt_m1 = record {
  w0 = 0x4A0EA0B0C42B7BD8;
  w1 = 0xC41B1CDCFE0BBABD;
  w2 = 0x734D589050FAE812;
  w3 = 0x2B8324804FC1DF0B;
}

abbrev pub root_exponent : Limbs
root_exponent =
    let e = ed25519_neg (from_u64 1) in
    record { w0 = e.w0; w1 = e.w1; w2 = e.w2; w3 = (e.w3 + 2 ^ 60) % 2 ^ 64 }

-- ed25519_recover_x: the inner `none` is the return of 0.
unfoldable pub recover_x : Limbs → ℕ → Option (Option Limbs)
recover_x y sign = do
  y2 ← ed25519_sqr y
  dy2 ← ed25519_mul ed25519_d y2
  den ← ed25519_inv (ed25519_add dy2 (from_u64 1))
  x2 ← ed25519_mul (ed25519_sub y2 (from_u64 1)) den
  u ← power_loop 256 0 root_exponent (from_u64 1) x2
  first ← ed25519_sqr u
  u' ← (if eq first x2 then some u else ed25519_mul u sqrt_m1)
  second ← ed25519_sqr u'
  some (
      if not (eq second x2)
      then none
      else if u'.w0 % 2 == sign
      then some u'
      else some (ed25519_neg u'))
