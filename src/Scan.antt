-- ===== src/Scan.antt =====
-- The portable forms of the counts of ones and of leading and trailing zeros (runtime/xiom_runtime.c, 5412
-- to 5470). A `long` is given by its 64 bits.
pub mod Leading
pub mod Masks
pub mod Ones
pub mod Trailing
pub mod Tests
use stdlib.Base.{ℕ, zero, suc, ◌+◌, ◌-◌, bit_and, ◌*◌, ◌/◌, ◌%◌, ◌^◌, ◌==◌, if◌then◌else◌}

-- One line of the binary search from the top: the count and the shifted word.
abbrev pub clz_step : ℕ → ℕ → ℕ × ℕ → ℕ × ℕ
clz_step shift gain (n, v) =
    if v / 2 ^ shift == 0 then (n + gain, v * 2 ^ gain % 2 ^ 64) else (n, v)

-- xiom_clz64
unfoldable pub clz64 : ℕ → ℕ
clz64 x =
    if x == 0
    then 64
    else (clz_step 63 1
        (clz_step 62 2 (clz_step 60 4 (clz_step 56 8 (clz_step 48 16 (clz_step 32 32 (0, x))))))).0

-- One line of the binary search from the bottom; the mask of `width` ones takes the remainder.
abbrev pub ctz_step : ℕ → ℕ → ℕ × ℕ → ℕ × ℕ
ctz_step width gain (n, v) = if v % 2 ^ width == 0 then (n + gain, v / 2 ^ gain) else (n, v)

-- xiom_ctz64
unfoldable pub ctz64 : ℕ → ℕ
ctz64 x =
    if x == 0
    then 64
    else (ctz_step 1 1
        (ctz_step 2 2 (ctz_step 4 4 (ctz_step 8 8 (ctz_step 16 16 (ctz_step 32 32 (0, x))))))).0

-- The subtraction and the multiplication of unsigned words in xiom_popcnt64, which wrap, and its three
-- masks.
abbrev pub pairs : ℕ → ℕ
pairs v = (v + 2 ^ 64 - bit_and (v / 2) 0x5555555555555555) % 2 ^ 64

abbrev pub nibbles : ℕ → ℕ
nibbles v = (bit_and v 0x3333333333333333 + bit_and (v / 4) 0x3333333333333333) % 2 ^ 64

abbrev pub bytes : ℕ → ℕ
bytes v = bit_and ((v + v / 16) % 2 ^ 64) 0x0F0F0F0F0F0F0F0F

-- xiom_popcnt64
unfoldable pub popcnt64 : ℕ → ℕ
popcnt64 x = bytes (nibbles (pairs x)) * 0x0101010101010101 % 2 ^ 64 / 2 ^ 56
