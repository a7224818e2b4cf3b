-- ===== src/Cipher/Tests.antt =====
-- Runs of the cipher against FIPS-197 (runtime/xiom_runtime.c, 81 to 239), and the theorems about it at
-- concrete inputs.
use stdlib.Base.{ℕ, ◌≡◌, refl, arith, get_or, List, map, ◌∷◌, []}
use stdlib.Cipher.{
  fresh, init_tables, fill, affine, aes_pow, aes_mul, pow_loop, mul_loop, xtime, Column, Block,
  key_expand, expand_loop, next_key, encrypt_block, encrypt_rounds, decrypt_block, sub_shift,
  mix_columns, mix_column, add_round_key, compare_loop, constant_time_compare,
}
use stdlib.Cipher.Trip.{IsBlock}
use stdlib.Cipher.Keys.{decrypt-encrypt}

-- The key and the plaintext of FIPS-197, appendix C.1.
abbrev column : ℕ → ℕ → ℕ → ℕ → Column
column a b c d = record { a0 = a; a1 = b; a2 = c; a3 = d }

abbrev key : Block
key = record {
  c0 = column 0 1 2 3;
  c1 = column 4 5 6 7;
  c2 = column 8 9 10 11;
  c3 = column 12 13 14 15;
}

abbrev plain : Block
plain = record {
  c0 = column 0x00 0x11 0x22 0x33;
  c1 = column 0x44 0x55 0x66 0x77;
  c2 = column 0x88 0x99 0xaa 0xbb;
  c3 = column 0xcc 0xdd 0xee 0xff;
}

abbrev cipher : Block
cipher = record {
  c0 = column 0x69 0xc4 0xe0 0xd8;
  c1 = column 0x6a 0x7b 0x04 0x30;
  c2 = column 0xd8 0xcd 0xb7 0x80;
  c3 = column 0x70 0xb4 0xc5 0x5a;
}

-- The substitution of a few bytes, as FIPS-197 tabulates it.
substituted :
    map (λ x. get_or (init_tables fresh).sbox x 0) (0x00 ∷ 0x01 ∷ 0x53 ∷ 0xff ∷ [])
    ≡ 0x63 ∷ 0x7c ∷ 0xed ∷ 0x16 ∷ []
unfolding init_tables fill affine aes_pow aes_mul pow_loop mul_loop xtime
substituted = refl

encrypted : encrypt_block fresh (key_expand fresh key) plain ≡ cipher
unfolding encrypt_block encrypt_rounds sub_shift mix_columns mix_column add_round_key key_expand
    expand_loop next_key init_tables fill affine aes_pow aes_mul pow_loop mul_loop xtime
encrypted = refl

same_bytes : constant_time_compare (7 ∷ 9 ∷ []) (7 ∷ 9 ∷ []) ≡ 0
unfolding constant_time_compare compare_loop
same_bytes = refl

key-IsBlock : IsBlock key
key-IsBlock = omega arith

plain-IsBlock : IsBlock plain
plain-IsBlock = omega arith

decrypt-encrypt_example :
    decrypt_block fresh (key_expand fresh key) (encrypt_block fresh (key_expand fresh key) plain)
    ≡ plain
decrypt-encrypt_example = decrypt-encrypt fresh refl key plain key-IsBlock plain-IsBlock

abbrev left : List ℕ
left = 7 ∷ 9 ∷ []

abbrev right : List ℕ
right = 7 ∷ 8 ∷ []
