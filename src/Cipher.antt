-- ===== src/Cipher.antt =====
-- The software AES-128 (runtime/xiom_runtime.c, 81 to 239) and the comparison in constant time (233 to 238 and
-- 249 to 256). A block is its four columns of four bytes, and an expanded key a block for each round.
pub mod Linear
pub mod Mixing
pub mod Table
pub mod Trip
pub mod Keys
pub mod Compared
pub mod Tests
use stdlib.Base.{
  ℕ, zero, suc, ◌+◌, ◌-◌, ◌*◌, ◌/◌, ◌%◌, ◌^◌, bit_or, bit_xor, Bool, true, false, List, [], ◌∷◌,
  ◌==◌, if◌then◌else◌, get_or, set, replicate,
}
use stdlib.Base.Words.{u8, ◌<<<◌, ◌>>>◌}

-- xiom_sw_aes_xtime
unfoldable pub xtime : ℕ → ℕ
xtime x = u8 (bit_xor (x <<< 1) (if (x >>> 7) % 2 == 0 then 0 else 0x1B))

-- The turns of xiom_sw_aes_mul
unfoldable pub mul_loop : ℕ → ℕ → ℕ → ℕ → ℕ
mul_loop zero a b r = r
mul_loop (suc turns) a b r =
    mul_loop turns (xtime a) (b >>> 1) (if b % 2 == 0 then r else bit_xor r a)

unfoldable pub aes_mul : ℕ → ℕ → ℕ
aes_mul a b = mul_loop 8 a b 0

-- The turns of `while (e > 0)` in xiom_sw_aes_pow; an int has 31 bits.
unfoldable pub pow_loop : ℕ → ℕ → ℕ → ℕ → ℕ
pow_loop zero a e r = r
pow_loop (suc fuel) a e r =
    let rest = pow_loop fuel (aes_mul a a) (e >>> 1) (if e % 2 == 0 then r else aes_mul r a) in
    if e == 0 then r else rest

unfoldable pub aes_pow : ℕ → ℕ → ℕ
aes_pow a e = pow_loop 31 a e 1

-- A byte turned to the left.
abbrev pub turned : ℕ → ℕ → ℕ
turned x k = u8 (bit_or (x <<< k) (x >>> (8 - k)))

-- The affine map of FIPS-197 5.1.1.
unfoldable pub affine : ℕ → ℕ
affine x =
    bit_xor
      (bit_xor (bit_xor (bit_xor (bit_xor x (turned x 1)) (turned x 2)) (turned x 3)) (turned x 4))
      0x63

-- The three static variables of the tables.
pub record Tables : Type 0 where
  pub sbox : List ℕ
  pub inv_sbox : List ℕ
  pub tables_ready : Bool

abbrev pub fresh : Tables
fresh = record { sbox = replicate 256 0; inv_sbox = replicate 256 0; tables_ready = false }

-- The turns of the loop of xiom_sw_aes_init_tables, for the indices below the count.
unfoldable pub fill : ℕ → Tables → Tables
fill zero t = t
fill (suc i) t =
    let done = fill i t in
    let y = affine (if i == 0 then 0 else aes_pow i 254) in
    record done { sbox = set done.sbox i y; inv_sbox = set done.inv_sbox y i }

-- xiom_sw_aes_init_tables
unfoldable pub init_tables : Tables → Tables
init_tables t = if t.tables_ready then t else record (fill 256 t) { tables_ready = true }

pub record Column : Type 0 where
  pub a0 : ℕ
  pub a1 : ℕ
  pub a2 : ℕ
  pub a3 : ℕ

pub record Block : Type 0 where
  pub c0 : Column
  pub c1 : Column
  pub c2 : Column
  pub c3 : Column

-- The bytes of a table at those of a block, and the rows moved by 0 to 3 columns to the left.
abbrev pub moved_left : (ℕ → ℕ) → Block → Block
moved_left f s = record {
  c0 = record { a0 = f s.c0.a0; a1 = f s.c1.a1; a2 = f s.c2.a2; a3 = f s.c3.a3 };
  c1 = record { a0 = f s.c1.a0; a1 = f s.c2.a1; a2 = f s.c3.a2; a3 = f s.c0.a3 };
  c2 = record { a0 = f s.c2.a0; a1 = f s.c3.a1; a2 = f s.c0.a2; a3 = f s.c1.a3 };
  c3 = record { a0 = f s.c3.a0; a1 = f s.c0.a1; a2 = f s.c1.a2; a3 = f s.c2.a3 };
}

abbrev pub moved_right : (ℕ → ℕ) → Block → Block
moved_right f s = record {
  c0 = record { a0 = f s.c0.a0; a1 = f s.c3.a1; a2 = f s.c2.a2; a3 = f s.c1.a3 };
  c1 = record { a0 = f s.c1.a0; a1 = f s.c0.a1; a2 = f s.c3.a2; a3 = f s.c2.a3 };
  c2 = record { a0 = f s.c2.a0; a1 = f s.c1.a1; a2 = f s.c0.a2; a3 = f s.c3.a3 };
  c3 = record { a0 = f s.c3.a0; a1 = f s.c2.a1; a2 = f s.c1.a2; a3 = f s.c0.a3 };
}

-- xiom_sw_aes_sub_shift and xiom_sw_aes_inv_sub_shift
unfoldable pub sub_shift : Tables → Block → Block
sub_shift t = moved_left (λ x. get_or t.sbox x 0)

unfoldable pub inv_sub_shift : Tables → Block → Block
inv_sub_shift t = moved_right (λ x. get_or t.inv_sbox x 0)

-- A block, column by column.
abbrev pub by_column : (Column → Column) → Block → Block
by_column f s = record { c0 = f s.c0; c1 = f s.c1; c2 = f s.c2; c3 = f s.c3 }

-- xiom_sw_aes_mix_columns
unfoldable pub mix_column : Column → Column
mix_column c = record {
  a0 = bit_xor (bit_xor (bit_xor (xtime c.a0) (bit_xor (xtime c.a1) c.a1)) c.a2) c.a3;
  a1 = bit_xor (bit_xor (bit_xor c.a0 (xtime c.a1)) (bit_xor (xtime c.a2) c.a2)) c.a3;
  a2 = bit_xor (bit_xor (bit_xor c.a0 c.a1) (xtime c.a2)) (bit_xor (xtime c.a3) c.a3);
  a3 = bit_xor (bit_xor (bit_xor (bit_xor (xtime c.a0) c.a0) c.a1) c.a2) (xtime c.a3);
}

unfoldable pub mix_columns : Block → Block
mix_columns = by_column mix_column

-- xiom_sw_aes_mul9, xiom_sw_aes_mul11, xiom_sw_aes_mul13 and xiom_sw_aes_mul14
abbrev pub mul9 : ℕ → ℕ
mul9 x = bit_xor (xtime (xtime (xtime x))) x

abbrev pub mul11 : ℕ → ℕ
mul11 x = bit_xor (bit_xor (xtime (xtime (xtime x))) (xtime x)) x

abbrev pub mul13 : ℕ → ℕ
mul13 x = bit_xor (bit_xor (xtime (xtime (xtime x))) (xtime (xtime x))) x

abbrev pub mul14 : ℕ → ℕ
mul14 x = bit_xor (bit_xor (xtime (xtime (xtime x))) (xtime (xtime x))) (xtime x)

-- xiom_sw_aes_inv_mix_columns
unfoldable pub inv_mix_column : Column → Column
inv_mix_column c = record {
  a0 = bit_xor (bit_xor (bit_xor (mul14 c.a0) (mul11 c.a1)) (mul13 c.a2)) (mul9 c.a3);
  a1 = bit_xor (bit_xor (bit_xor (mul9 c.a0) (mul14 c.a1)) (mul11 c.a2)) (mul13 c.a3);
  a2 = bit_xor (bit_xor (bit_xor (mul13 c.a0) (mul9 c.a1)) (mul14 c.a2)) (mul11 c.a3);
  a3 = bit_xor (bit_xor (bit_xor (mul11 c.a0) (mul13 c.a1)) (mul9 c.a2)) (mul14 c.a3);
}

unfoldable pub inv_mix_columns : Block → Block
inv_mix_columns = by_column inv_mix_column

-- xiom_sw_aes_add_round_key
abbrev pub xor_column : Column → Column → Column
xor_column c k = record {
  a0 = bit_xor c.a0 k.a0;
  a1 = bit_xor c.a1 k.a1;
  a2 = bit_xor c.a2 k.a2;
  a3 = bit_xor c.a3 k.a3;
}

unfoldable pub add_round_key : Block → Block → Block
add_round_key s k = record {
  c0 = xor_column s.c0 k.c0;
  c1 = xor_column s.c1 k.c1;
  c2 = xor_column s.c2 k.c2;
  c3 = xor_column s.c3 k.c3;
}

abbrev pub rcon : List ℕ
rcon = 0x01 ∷ 0x02 ∷ 0x04 ∷ 0x08 ∷ 0x10 ∷ 0x20 ∷ 0x40 ∷ 0x80 ∷ 0x1B ∷ 0x36 ∷ []

-- One turn of the key expansion.
unfoldable pub next_key : Tables → ℕ → Block → Block
next_key t constant prev =
    let s = λ (x : ℕ). get_or t.sbox x 0 in
    let t' : Column = record {
      a0 = bit_xor (s prev.c3.a1) constant;
      a1 = s prev.c3.a2;
      a2 = s prev.c3.a3;
      a3 = s prev.c3.a0;
    } in
    let k0 = xor_column prev.c0 t' in
    let k1 = xor_column prev.c1 k0 in
    let k2 = xor_column prev.c2 k1 in
    record { c0 = k0; c1 = k1; c2 = k2; c3 = xor_column prev.c3 k2 }

-- xiom_asm_aes128_key_expand: the block of each round up to the tenth.
unfoldable pub expand_loop : Tables → Block → ℕ → Block
expand_loop t k zero = k
expand_loop t k (suc r) = next_key t (get_or rcon r 0) (expand_loop t k r)

unfoldable pub key_expand : Tables → Block → ℕ → Block
key_expand t k = expand_loop (init_tables t) k

-- The rounds from 1 to the count.
unfoldable pub encrypt_rounds : Tables → (ℕ → Block) → ℕ → Block → Block
encrypt_rounds t rk zero s = s
encrypt_rounds t rk (suc r) s =
    add_round_key (mix_columns (sub_shift t (encrypt_rounds t rk r s))) (rk (suc r))

-- xiom_asm_aes128_encrypt_block
unfoldable pub encrypt_block : Tables → (ℕ → Block) → Block → Block
encrypt_block t rk p =
    let ready = init_tables t in
    add_round_key (sub_shift ready (encrypt_rounds ready rk 9 (add_round_key p (rk 0)))) (rk 10)

-- The rounds from the count down to 1.
unfoldable pub decrypt_rounds : Tables → (ℕ → Block) → ℕ → Block → Block
decrypt_rounds t rk zero s = s
decrypt_rounds t rk (suc r) s =
    decrypt_rounds t rk r (inv_mix_columns (add_round_key (inv_sub_shift t s) (rk (suc r))))

-- xiom_asm_aes128_decrypt_block
unfoldable pub decrypt_block : Tables → (ℕ → Block) → Block → Block
decrypt_block t rk c =
    let ready = init_tables t in
    add_round_key (inv_sub_shift ready (decrypt_rounds ready rk 9 (add_round_key c (rk 10)))) (rk 0)

-- xiom_asm_constant_time_compare and xiom_asm_memcmp_ct, over the bytes of both
unfoldable pub compare_loop : ℕ → List ℕ → List ℕ → ℕ
compare_loop diff [] bs = diff
compare_loop diff (a ∷ as') [] = diff
compare_loop diff (a ∷ as') (b ∷ bs) = compare_loop (bit_or diff (u8 (bit_xor a b))) as' bs

unfoldable pub constant_time_compare : List ℕ → List ℕ → ℕ
constant_time_compare = compare_loop 0
