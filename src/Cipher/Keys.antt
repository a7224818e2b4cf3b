-- ===== src/Cipher/Keys.antt =====
-- The expanded key, and the cipher under it (runtime/xiom_runtime.c, 184 to 231).
use stdlib.Base.{
  ℕ, zero, suc, ◌<◌, ◌≡◌, refl, Bool, true, ◌&&◌, List, [], ◌∷◌, arith, ltb, get_or, bit_xor,
}
use stdlib.Cipher.{
  Tables, fresh, init_tables, Block, rcon, next_key, expand_loop, key_expand, encrypt_block,
  decrypt_block,
}
use stdlib.Cipher.Trip.{
  IsBytes, IsBlock, xor_column-IsBytes, byte-xor, sub-lt, decrypt_block-encrypt_block,
}

all_bytes : List ℕ → Bool
all_bytes [] = true
all_bytes (x ∷ xs) = ltb x 256 && all_bytes xs

get_or-lt : (xs : List ℕ) (i : ℕ) → all_bytes xs ≡ true → get_or xs i 0 < 256
unfolding all_bytes
get_or-lt [] i h = omega arith
get_or-lt (x ∷ xs) zero h = ground arith
get_or-lt (x ∷ xs) (suc i) h = ground (arith, get_or-lt xs i)

rcon-lt : (i : ℕ) → get_or rcon i 0 < 256
unfolding all_bytes
rcon-lt i = get_or-lt rcon i refl

module _ (t : Tables) (start : init_tables t ≡ init_tables fresh) where
  next_key-IsBlock :
      (constant : ℕ) {k : Block}
      → constant < 256
      → IsBlock k
      → IsBlock (next_key (init_tables t) constant k)
  unfolding next_key
  next_key-IsBlock constant {k} hc h =
      let s = λ (x : ℕ). get_or (init_tables t).sbox x 0 in
      let last = h.bytes3 in
      let turned : IsBytes (record {
        a0 = bit_xor (s k.c3.a1) constant;
        a1 = s k.c3.a2;
        a2 = s k.c3.a3;
        a3 = s k.c3.a0;
      }) =
        record {
          lt0 = byte-xor _ _ (sub-lt t start _ last.lt1) hc;
          lt1 = sub-lt t start _ last.lt2;
          lt2 = sub-lt t start _ last.lt3;
          lt3 = sub-lt t start _ last.lt0;
        } in
      let k0 = xor_column-IsBytes h.bytes0 turned in
      let k1 = xor_column-IsBytes h.bytes1 k0 in
      let k2 = xor_column-IsBytes h.bytes2 k1 in
      record { bytes0 = k0; bytes1 = k1; bytes2 = k2; bytes3 = xor_column-IsBytes last k2 }

  key_expand-IsBlock : (k : Block) → IsBlock k → (r : ℕ) → IsBlock (key_expand t k r)
  unfolding key_expand expand_loop
  key_expand-IsBlock k h zero = h
  key_expand-IsBlock k h (suc r) =
      next_key-IsBlock (get_or rcon r 0) (rcon-lt r) (key_expand-IsBlock k h r)

  -- Under the expansion of any key of 16 bytes, with the tables built or not yet, the decryption of the encryption
  -- of a block of bytes is the block.
  pub decrypt-encrypt :
      (k p : Block)
      → IsBlock k
      → IsBlock p
      → decrypt_block t (key_expand t k) (encrypt_block t (key_expand t k) p) ≡ p
  decrypt-encrypt k p hk hp =
      decrypt_block-encrypt_block t start (key_expand t k) (key_expand-IsBlock k hk) p hp
