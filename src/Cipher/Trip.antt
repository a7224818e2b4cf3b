-- ===== src/Cipher/Trip.antt =====
-- Decryption undoes encryption (runtime/xiom_runtime.c, 132 to 231).
use stdlib.Base.{ℕ, zero, suc, ◌<◌, ◌≡◌, refl, ap, ◌∙◌, bit_xor, arith, get_or}
use stdlib.Base.Xor.{xor_cancel, xor-lt}
use stdlib.Cipher.{
  Tables, fresh, init_tables, xtime, Column, Block, sub_shift, inv_sub_shift, mix_column,
  mix_columns, inv_mix_columns, add_round_key, xor_column, encrypt_rounds, encrypt_block,
  decrypt_rounds, decrypt_block,
}
use stdlib.Cipher.Table.{table_inverse}
use stdlib.Cipher.Mixing.{inv_mix_column-mix_column}

-- Columns and blocks of bytes.
pub record IsBytes (c : Column) : Type 0 where
  pub lt0 : c.a0 < 256
  pub lt1 : c.a1 < 256
  pub lt2 : c.a2 < 256
  pub lt3 : c.a3 < 256

pub record IsBlock (s : Block) : Type 0 where
  pub bytes0 : IsBytes s.c0
  pub bytes1 : IsBytes s.c1
  pub bytes2 : IsBytes s.c2
  pub bytes3 : IsBytes s.c3

pub byte-xor : (a b : ℕ) → a < 256 → b < 256 → bit_xor a b < 256
byte-xor a b ha hb = xor-lt 8 a b ha hb

xtime-lt : (x : ℕ) → xtime x < 256
unfolding xtime
xtime-lt x = omega arith

pub xor_column-IsBytes : {c k : Column} → IsBytes c → IsBytes k → IsBytes (xor_column c k)
xor_column-IsBytes hc hk = record {
  lt0 = byte-xor _ _ hc.lt0 hk.lt0;
  lt1 = byte-xor _ _ hc.lt1 hk.lt1;
  lt2 = byte-xor _ _ hc.lt2 hk.lt2;
  lt3 = byte-xor _ _ hc.lt3 hk.lt3;
}

add_round_key-IsBlock : {s k : Block} → IsBlock s → IsBlock k → IsBlock (add_round_key s k)
unfolding add_round_key
add_round_key-IsBlock hs hk = record {
  bytes0 = xor_column-IsBytes hs.bytes0 hk.bytes0;
  bytes1 = xor_column-IsBytes hs.bytes1 hk.bytes1;
  bytes2 = xor_column-IsBytes hs.bytes2 hk.bytes2;
  bytes3 = xor_column-IsBytes hs.bytes3 hk.bytes3;
}

mix_column-IsBytes : {c : Column} → IsBytes c → IsBytes (mix_column c)
unfolding mix_column
mix_column-IsBytes {c} h =
    let x0 = xtime-lt c.a0 in
    let x1 = xtime-lt c.a1 in
    let x2 = xtime-lt c.a2 in
    let x3 = xtime-lt c.a3 in
    record {
      lt0 = byte-xor _ _ (byte-xor _ _ (byte-xor _ _ x0 (byte-xor _ _ x1 h.lt1)) h.lt2) h.lt3;
      lt1 = byte-xor _ _ (byte-xor _ _ (byte-xor _ _ h.lt0 x1) (byte-xor _ _ x2 h.lt2)) h.lt3;
      lt2 = byte-xor _ _ (byte-xor _ _ (byte-xor _ _ h.lt0 h.lt1) x2) (byte-xor _ _ x3 h.lt3);
      lt3 = byte-xor _ _ (byte-xor _ _ (byte-xor _ _ (byte-xor _ _ x0 h.lt0) h.lt1) h.lt2) x3;
    }

mix_columns-IsBlock : {s : Block} → IsBlock s → IsBlock (mix_columns s)
unfolding mix_columns
mix_columns-IsBlock h = record {
  bytes0 = mix_column-IsBytes h.bytes0;
  bytes1 = mix_column-IsBytes h.bytes1;
  bytes2 = mix_column-IsBytes h.bytes2;
  bytes3 = mix_column-IsBytes h.bytes3;
}

-- Each step of a round is undone.
pub add_round_key_twice : (s k : Block) → add_round_key (add_round_key s k) k ≡ s
unfolding add_round_key
add_round_key_twice s k = simp xor_cancel refl

pub inv_mix_columns-mix_columns : (s : Block) → inv_mix_columns (mix_columns s) ≡ s
unfolding inv_mix_columns mix_columns
inv_mix_columns-mix_columns s = simp inv_mix_column-mix_column refl

module _ (t : Tables) (start : init_tables t ≡ init_tables fresh) where
  abbrev pub sub : ℕ → ℕ
  sub x = get_or (init_tables t).sbox x 0

  pub sub-lt : (x : ℕ) → x < 256 → sub x < 256
  sub-lt x h = rw start (table_inverse x h).0

  sub_back : (x : ℕ) → x < 256 → get_or (init_tables t).inv_sbox (sub x) 0 ≡ x
  sub_back x h = rw start (table_inverse x h).1

  sub_shift-IsBlock : {s : Block} → IsBlock s → IsBlock (sub_shift (init_tables t) s)
  unfolding sub_shift
  sub_shift-IsBlock h =
      let b0 = h.bytes0 in
      let b1 = h.bytes1 in
      let b2 = h.bytes2 in
      let b3 = h.bytes3 in
      record {
        bytes0 = record {
          lt0 = sub-lt _ b0.lt0;
          lt1 = sub-lt _ b1.lt1;
          lt2 = sub-lt _ b2.lt2;
          lt3 = sub-lt _ b3.lt3;
        };
        bytes1 = record {
          lt0 = sub-lt _ b1.lt0;
          lt1 = sub-lt _ b2.lt1;
          lt2 = sub-lt _ b3.lt2;
          lt3 = sub-lt _ b0.lt3;
        };
        bytes2 = record {
          lt0 = sub-lt _ b2.lt0;
          lt1 = sub-lt _ b3.lt1;
          lt2 = sub-lt _ b0.lt2;
          lt3 = sub-lt _ b1.lt3;
        };
        bytes3 = record {
          lt0 = sub-lt _ b3.lt0;
          lt1 = sub-lt _ b0.lt1;
          lt2 = sub-lt _ b1.lt2;
          lt3 = sub-lt _ b2.lt3;
        };
      }

  inv_sub_shift-sub_shift :
      {s : Block} → IsBlock s → inv_sub_shift (init_tables t) (sub_shift (init_tables t) s) ≡ s
  unfolding inv_sub_shift sub_shift
  inv_sub_shift-sub_shift h =
      let b0 = h.bytes0 in
      let b1 = h.bytes1 in
      let b2 = h.bytes2 in
      let b3 = h.bytes3 in
      λ i. record {
        c0 = record {
          a0 = sub_back _ b0.lt0 i;
          a1 = sub_back _ b0.lt1 i;
          a2 = sub_back _ b0.lt2 i;
          a3 = sub_back _ b0.lt3 i;
        };
        c1 = record {
          a0 = sub_back _ b1.lt0 i;
          a1 = sub_back _ b1.lt1 i;
          a2 = sub_back _ b1.lt2 i;
          a3 = sub_back _ b1.lt3 i;
        };
        c2 = record {
          a0 = sub_back _ b2.lt0 i;
          a1 = sub_back _ b2.lt1 i;
          a2 = sub_back _ b2.lt2 i;
          a3 = sub_back _ b2.lt3 i;
        };
        c3 = record {
          a0 = sub_back _ b3.lt0 i;
          a1 = sub_back _ b3.lt1 i;
          a2 = sub_back _ b3.lt2 i;
          a3 = sub_back _ b3.lt3 i;
        };
      }

  module _ (rk : ℕ → Block) (keys : (r : ℕ) → IsBlock (rk r)) where
    encrypt_rounds-IsBlock :
        (n : ℕ) {s : Block} → IsBlock s → IsBlock (encrypt_rounds (init_tables t) rk n s)
    unfolding encrypt_rounds
    encrypt_rounds-IsBlock zero h = h
    encrypt_rounds-IsBlock (suc n) h =
        add_round_key-IsBlock (mix_columns-IsBlock (sub_shift-IsBlock (encrypt_rounds-IsBlock n h)))
          (keys (suc n))

    -- The rounds down take the substituted state back to the first one.
    rounds_back :
        (n : ℕ) {s : Block}
        → IsBlock s
        → decrypt_rounds
            (init_tables t)
            rk
            n
            (sub_shift (init_tables t) (encrypt_rounds (init_tables t) rk n s))
          ≡ sub_shift (init_tables t) s
    unfolding encrypt_rounds decrypt_rounds
    rounds_back zero h = refl
    rounds_back (suc n) {s} h =
        let before = encrypt_rounds (init_tables t) rk n s in
        let bytes = encrypt_rounds-IsBlock (suc n) h in
        let mixed = mix_columns (sub_shift (init_tables t) before) in
        ap
          (λ x.
            decrypt_rounds (init_tables t) rk n (inv_mix_columns (add_round_key x (rk (suc n)))))
          (inv_sub_shift-sub_shift bytes)
        ∙ ap (λ x. decrypt_rounds (init_tables t) rk n (inv_mix_columns x))
            (add_round_key_twice mixed (rk (suc n)))
        ∙ ap (decrypt_rounds (init_tables t) rk n)
            (inv_mix_columns-mix_columns (sub_shift (init_tables t) before))
        ∙ rounds_back n h

    -- With the tables not built yet, or built, and any round keys of bytes, the decryption of the encryption of a
    -- block of bytes is the block.
    pub decrypt_block-encrypt_block :
        (p : Block) → IsBlock p → decrypt_block t rk (encrypt_block t rk p) ≡ p
    unfolding decrypt_block encrypt_block
    decrypt_block-encrypt_block p h =
        let ready = init_tables t in
        let first = add_round_key p (rk 0) in
        let bytes = add_round_key-IsBlock h (keys 0) in
        let last = encrypt_rounds ready rk 9 first in
        ap (λ x. add_round_key (inv_sub_shift ready (decrypt_rounds ready rk 9 x)) (rk 0))
          (add_round_key_twice (sub_shift ready last) (rk 10))
        ∙ ap (λ x. add_round_key (inv_sub_shift ready x) (rk 0)) (rounds_back 9 bytes)
        ∙ ap (λ x. add_round_key x (rk 0)) (inv_sub_shift-sub_shift bytes)
        ∙ add_round_key_twice p (rk 0)
