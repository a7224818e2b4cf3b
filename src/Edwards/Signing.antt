-- ===== src/Edwards/Signing.antt =====
-- Public keys, signatures and their verification (runtime/xiom_runtime.c, 8996 to 9130). Whether malloc gives memory
-- is an argument, by the number of the call.
use stdlib.Base.{
  ℕ, ◌%◌, Bool, ◌&&◌, Option, none, some, List, ◌++◌, bit_and, bit_or, if◌then◌else◌, get_or, set,
  take, drop, replicate,
}
use stdlib.Base.Words.{◌>>>◌}
use stdlib.Base.Chain.{◌>>=◌}
use stdlib.Field.{Limbs, eq, mod_add}
use stdlib.Field.Negate.{ed25519_neg}
use stdlib.Digest.{sha512_hash}
use stdlib.Edwards.{base, extended, pt_add, scalar_mul, to_affine, enc_pub, recover_x}
use stdlib.Edwards.Order.{ed25519_l, mul_order, read_bytes, mod_order_from_bytes, order_to_bytes}

-- The hash of the private key with its first 32 bytes clamped.
unfoldable pub clamped : List ℕ → List ℕ
clamped privkey =
    let h = sha512_hash (take 32 privkey) in
    let h1 = set h 0 (bit_and (get_or h 0 0) 248) in
    let h2 = set h1 31 (bit_and (get_or h1 31 0) 127) in set h2 31 (bit_or (get_or h2 31 0) 64)

-- The bytes of the multiple of the base point.
unfoldable pub base_bytes : List ℕ → Option (List ℕ)
base_bytes s = do b ← base; p ← scalar_mul s b; (x, y) ← to_affine p; some (enc_pub x y)

-- xiom_ed25519_pubkey
unfoldable pub pubkey : List ℕ → Option (List ℕ)
pubkey privkey = base_bytes (take 32 (clamped privkey))

-- The second half of the signature, from the hashes that the buffers `k` and `r` hold and the secret scalar.
unfoldable pub response : List ℕ → List ℕ → List ℕ → Option (List ℕ)
response k r scalar = do
  k_mod ← mod_order_from_bytes k 64
  a_mod ← mod_order_from_bytes scalar 32
  r_mod ← mod_order_from_bytes r 64
  product ← mul_order k_mod a_mod
  some (order_to_bytes (mod_add r_mod product ed25519_l))

-- From the second malloc on; the second hash goes into the buffer `r` that held the first.
unfoldable pub answered :
    (ℕ → Bool) → List ℕ → List ℕ → List ℕ → List ℕ → List ℕ → Option (ℕ × List ℕ)
answered allocated msg scalar sig a_enc r_enc =
    let r = sha512_hash (r_enc ++ (a_enc ++ msg)) in
    let done = (do s_bytes ← response r r scalar; some (1, r_enc ++ s_bytes)) in
    if allocated 1 then done else some (0, sig)

-- From the first malloc on.
unfoldable pub committed : (ℕ → Bool) → List ℕ → List ℕ → List ℕ → List ℕ → Option (ℕ × List ℕ)
committed allocated msg h sig a_enc =
    let done = (do
      r_enc ← base_bytes (sha512_hash (drop 32 h ++ msg))
      answered allocated msg (take 32 h) sig a_enc r_enc) in
    if allocated 0 then done else some (0, sig)

-- xiom_ed25519_sign: the returned number and the bytes of `sig`.
unfoldable pub sign : (ℕ → Bool) → List ℕ → List ℕ → List ℕ → Option (ℕ × List ℕ)
sign allocated msg privkey sig = do
  a_enc ← base_bytes (take 32 (clamped privkey))
  committed allocated msg (clamped privkey) sig a_enc

-- The decoding of a point: the coordinates, or the return of 0.
unfoldable pub decode_point : List ℕ → Option (Option (Limbs × Limbs))
decode_point bytes =
    let b = read_bytes (take 32 bytes) 0 (replicate 4 0) in
    let y : Limbs = record {
      w0 = get_or b 0 0;
      w1 = get_or b 1 0;
      w2 = get_or b 2 0;
      w3 = bit_and (get_or b 3 0) 0x7FFFFFFFFFFFFFFF;
    } in
    (do found ← recover_x y ((get_or bytes 31 0 >>> 7) % 2); some (with_y y found))
  where
    with_y : Limbs → Option Limbs → Option (Limbs × Limbs)
    with_y y none = none
    with_y y (some x) = some (x, y)

-- The comparison at the end: s B - k A against R.
unfoldable pub checked : List ℕ → List ℕ → Limbs × Limbs → Limbs × Limbs → Option ℕ
checked k_hash s_data (rx, ry) (ax, ay) = do
  k_mod ← mod_order_from_bytes k_hash 64
  s_mod ← mod_order_from_bytes s_data 32
  r_pt ← extended rx ry
  a_pt ← extended ax ay
  b ← base
  sg ← scalar_mul (order_to_bytes s_mod) b
  ka ← scalar_mul (order_to_bytes k_mod) a_pt
  sum ← pt_add sg (record { x = ed25519_neg ka.x; y = ka.y; z = ka.z; t = ed25519_neg ka.t })
  (sx, sy) ← to_affine sum
  some (if eq sx rx && eq sy ry then 1 else 0)

-- The two decoded points, in their order, and the memory for the hash.
unfoldable pub verify_points :
    (ℕ → Bool)
    → List ℕ
    → List ℕ
    → List ℕ
    → Option (Limbs × Limbs)
    → Option (Option (Limbs × Limbs))
    → Option ℕ
verify_points allocated msg key sig none a = some 0
verify_points allocated msg key sig (some r) none = none
verify_points allocated msg key sig (some r) (some none) = some 0
verify_points allocated msg key sig (some r) (some (some a)) =
    if allocated 0
    then checked (sha512_hash (take 32 sig ++ (take 32 key ++ msg))) (drop 32 sig) r a
    else some 0

-- xiom_ed25519_verify
unfoldable pub verify : (ℕ → Bool) → List ℕ → List ℕ → List ℕ → Option ℕ
verify allocated msg key sig = do
  r ← decode_point sig
  verify_points allocated msg key sig r (decode_point key)
