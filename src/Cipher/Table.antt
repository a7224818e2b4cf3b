-- ===== src/Cipher/Table.antt =====
-- The two tables of the cipher (runtime/xiom_runtime.c, 114 to 130).
use stdlib.Base.{ℕ, ◌<◌, ◌≡◌, refl, Bool, ◌&&◌, true, arith, ltb, ◌==◌, get_or, every, every_sound}
use stdlib.Cipher.{
  Tables, fresh, init_tables, fill, affine, aes_pow, aes_mul, pow_loop, mul_loop, xtime,
}

-- The test at one byte: it is substituted by a byte, which is taken back to it.
returns : Tables → ℕ → Bool
returns t x = ltb (get_or t.sbox x 0) 256 && (get_or t.inv_sbox (get_or t.sbox x 0) 0 == x)

all_return : let t = init_tables fresh in every (returns t) 256 ≡ true
unfolding init_tables fill affine aes_pow aes_mul pow_loop mul_loop xtime returns every
all_return = refl

-- The tables invert each other, and hold bytes.
pub table_inverse :
    (x : ℕ)
    → x < 256
    → (get_or (init_tables fresh).sbox x 0 < 256)
      × (get_or (init_tables fresh).inv_sbox (get_or (init_tables fresh).sbox x 0) 0 ≡ x)
unfolding returns
table_inverse x h =
    let checked = every_sound (returns (init_tables fresh)) 256 x h all_return in ground arith

-- A second call changes nothing.
pub init_tables_twice : init_tables (init_tables fresh) ≡ init_tables fresh
unfolding init_tables
init_tables_twice = refl
