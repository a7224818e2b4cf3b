-- ===== src/Text/Bytes.antt =====
-- The masks that `xiom_char_at` (runtime/xiom_runtime.c, 1403 to 1416) tests a byte with, as ranges,
-- and the reads of `str[i]`.
use stdlib.Base.{
  ℕ, zero, suc, ◌+◌, ◌≤◌, ◌<◌, bit_and, ◌≡◌, refl, Bool, true, false, ◌&&◌, some, List, [], ◌∷◌,
  ◌++◌, arith, leb, ltb, ◌==◌, length, every, every_sound,
}
use stdlib.Text.{peek}

abbrev same : Bool → Bool → Bool
same a b = elim a [ true ↦ b | false ↦ elim b [ true ↦ false | false ↦ true ] ]

same→eq : (a b : Bool) → same a b ≡ true → a ≡ b
same→eq a b h = ground arith

-- A mask test on a byte is a range test.
module _ (mask tag lo hi : ℕ) where
  abbrev agrees : ℕ → Bool
  agrees b = same (bit_and b mask == tag) (leb lo b && ltb b hi)

  mask_range :
      (b : ℕ) → every agrees 256 ≡ true → b < 256 → (bit_and b mask == tag) ≡ (leb lo b && ltb b hi)
  mask_range b table h = same→eq _ _ (every_sound agrees 256 b h table)

pub is_continuation : (b : ℕ) → b < 256 → (bit_and b 0xC0 == 0x80) ≡ (leb 128 b && ltb b 192)
unfolding every
is_continuation b h = mask_range 0xC0 0x80 128 192 b refl h

pub is_lead_two : (b : ℕ) → b < 256 → (bit_and b 0xE0 == 0xC0) ≡ (leb 192 b && ltb b 224)
unfolding every
is_lead_two b h = mask_range 0xE0 0xC0 192 224 b refl h

pub is_lead_three : (b : ℕ) → b < 256 → (bit_and b 0xF0 == 0xE0) ≡ (leb 224 b && ltb b 240)
unfolding every
is_lead_three b h = mask_range 0xF0 0xE0 224 240 b refl h

pub is_lead_four : (b : ℕ) → b < 256 → (bit_and b 0xF8 == 0xF0) ≡ (leb 240 b && ltb b 248)
unfolding every
is_lead_four b h = mask_range 0xF8 0xF0 240 248 b refl h

-- A read at or before the NUL succeeds.
pub peek_in_bounds : (s : List ℕ) (i : ℕ) → i ≤ length s → (b : ℕ) × (peek s i ≡ some b)
peek_in_bounds [] zero h = (0, refl)
peek_in_bounds [] (suc i) h = elim h [ ]
peek_in_bounds (b ∷ s) zero h = (b, refl)
peek_in_bounds (b ∷ s) (suc i) h = peek_in_bounds s i (omega arith)

pub peek_nul : (s : List ℕ) → peek s (length s) ≡ some 0
peek_nul [] = refl
peek_nul (b ∷ s) = peek_nul s

pub peek-append : (front s : List ℕ) (i : ℕ) → peek (front ++ s) (length front + i) ≡ peek s i
peek-append [] s i = ap_peek
  where
    open_zero : 0 + i ≡ i
    open_zero = omega arith

    ap_peek : peek s (0 + i) ≡ peek s i
    ap_peek = rw open_zero refl
peek-append (b ∷ front) s i = rw (step) (peek-append front s i)
  where
    step : suc (length front) + i ≡ suc (length front + i)
    step = omega arith
