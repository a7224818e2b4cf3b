-- ===== src/Edwards/Disclosed.antt =====
-- What a signature tells (runtime/xiom_runtime.c, 9016 to 9067).
use stdlib.Base.{ℕ, ◌≡◌, refl, true, Bool, Option, none, some, List, ◌++◌, take, drop}
use stdlib.Base.Chain.{Yields, Present}
use stdlib.Field.{Limbs, mod_add}
use stdlib.Digest.{sha512_hash}
use stdlib.Edwards.Order.{ed25519_l, mul_order, mod_order_from_bytes, order_to_bytes}
use stdlib.Edwards.Answers.{base_bytes-Present, reduce_order-Below}
use stdlib.Edwards.Signing.{clamped, base_bytes, pubkey, response, answered, committed, sign}

-- The present result itself.
present : {A : Type 0} (P : A → Type 0) (o : Option A) → Yields P o → (a : A) × (o ≡ some a)
present P none h = absurd h
present P (some a) h = (a, refl)

-- The steps of a signing in their order.
signed_lem :
    (allocated : ℕ → Bool) (msg privkey sig key point : List ℕ) (k a product : Limbs)
    → base_bytes (take 32 (clamped privkey)) ≡ some key
    → allocated 0 ≡ true
    → base_bytes (sha512_hash (drop 32 (clamped privkey) ++ msg)) ≡ some point
    → allocated 1 ≡ true
    → mod_order_from_bytes (sha512_hash (point ++ (key ++ msg))) 64 ≡ some k
    → mod_order_from_bytes (take 32 (clamped privkey)) 32 ≡ some a
    → mul_order k a ≡ some product
    → sign allocated msg privkey sig
      ≡ some (1, point ++ order_to_bytes (mod_add k product ed25519_l))
unfolding sign committed answered response
signed_lem allocated msg privkey sig key point k a product e first f second g h m =
    rw (e, first, f, second, g, h, m) refl

-- A signature: the key's bytes and the point's, the number `k` that the hash of both and of the message gives, the
-- secret scalar `a`, and the second half, the modular sum of `k` and the code's own product of `k` and `a`.
pub record Disclosing (allocated : ℕ → Bool) (msg privkey sig : List ℕ) : Type 0 where
  key : List ℕ
  point : List ℕ
  k : Limbs
  a : Limbs
  product : Limbs
  is_key : pubkey privkey ≡ some key
  is_k : mod_order_from_bytes (sha512_hash (point ++ (key ++ msg))) 64 ≡ some k
  is_secret : mod_order_from_bytes (take 32 (clamped privkey)) 32 ≡ some a
  is_product : mul_order k a ≡ some product
  signed :
      sign allocated msg privkey sig
      ≡ some (1, point ++ order_to_bytes (mod_add k product ed25519_l))

-- Where malloc gives memory, the second half of a signature is the sum modulo the order of k and what the product of
-- the code, mul_order, makes of k and a, for the k of public bytes and the secret scalar a: the nonce that the hash of the prefix gives is not in it, since the buffer that held it was
-- written over.
pub sign-Disclosing :
    (allocated : ℕ → Bool) (msg privkey sig : List ℕ)
    → allocated 0 ≡ true
    → allocated 1 ≡ true
    → Disclosing allocated msg privkey sig
unfolding pubkey
sign-Disclosing allocated msg privkey sig first second =
    let h = clamped privkey in
    let (key, is_key) = present Present _ (base_bytes-Present (take 32 h)) in
    let (point, is_point) =
      present Present _ (base_bytes-Present (sha512_hash (drop 32 h ++ msg))) in
    let (k, is_k) = present _ _ (reduce_order-Below _) in
    let (a, is_secret) = present _ _ (reduce_order-Below _) in
    let (product, is_product) = present _ _ (reduce_order-Below _) in
    record {
      key = key;
      point = point;
      k = k;
      a = a;
      product = product;
      is_key = is_key;
      is_k = is_k;
      is_secret = is_secret;
      is_product = is_product;
      signed =
          signed_lem allocated msg privkey sig key point k a product is_key first is_point second
            is_k is_secret is_product;
    }
