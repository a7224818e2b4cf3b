-- ===== src/Edwards/Order.antt =====
-- The arithmetic modulo the order of the base point of Ed25519, and its bytes (runtime/xiom_runtime.c, 8192 to 8195
-- and 8882 to 8994).
use stdlib.Base.{
  ℕ, ◌+◌, ◌*◌, ◌/◌, ◌%◌, Bool, true, ◌&&◌, not, Option, List, [], ◌∷◌, bit_or, ltb, ◌==◌,
  if◌then◌else◌, get_or, set, take, drop, ◌++◌, replicate,
}
use stdlib.Base.Words.{◌<<<◌}
use stdlib.Field.{Limbs, word, addc2, limb_list, mul_raw}
use stdlib.Field.Reduce.{subtract_down}
use stdlib.Edwards.{write_bytes}

-- ED25519_L and R_ORDER
abbrev pub ed25519_l : Limbs
ed25519_l = record {
  w0 = 0x5812631A5CF5D3ED;
  w1 = 0x14DEF9DEA2F79CD6;
  w2 = 0x0000000000000000;
  w3 = 0x1000000000000000;
}

abbrev pub r_order : Limbs
r_order = record {
  w0 = 0xC3DC22EFF6DA94E3;
  w1 = 0xFAE31A49EBF56854;
  w2 = 0xE42FB5726C44E80C;
  w3 = 0x0DEED28E0BB8D901;
}

-- The inner loop, over the limbs of R_ORDER, from the index `idx` of `tmp` on; XIOM_MUL128 gives the two words of a
-- product.
unfoldable pub order_row : List ℕ → ℕ → List ℕ → ℕ → ℕ → List ℕ
order_row [] v tmp idx carry = tmp
order_row (r ∷ rs) v tmp idx carry =
    let hi = v * r / word in
    let (low, c1) = addc2 (get_or tmp idx 0) (v * r % word) carry in
    let tmp1 = set tmp idx low in
    let (high, c2) = addc2 (get_or tmp1 (idx + 1) 0) hi c1 in
    let one = order_row rs v tmp1 (idx + 1) c1 in
    let both = order_row rs v (set tmp1 (idx + 1) high) (idx + 1) c2 in
    let past = order_row rs v tmp (idx + 1) carry in
    if ltb idx 8 then (if ltb (idx + 1) 8 && not (hi == 0) then both else one) else past

-- The loop over the four high limbs, with the shift of the first of them.
unfoldable pub order_rows : List ℕ → ℕ → List ℕ → List ℕ
order_rows [] sh tmp = tmp
order_rows (v ∷ vs) sh tmp =
    order_rows vs (sh + 1) (if v == 0 then tmp else order_row (limb_list r_order) v tmp sh 0)

-- The four low limbs and what the high limbs gave, with the carry out.
unfoldable pub low_sum : List ℕ → List ℕ → Limbs × ℕ
low_sum w tmp =
    let (r0, c0) = addc2 (get_or w 0 0) (get_or tmp 0 0) 0 in
    let (r1, c1) = addc2 (get_or w 1 0) (get_or tmp 1 0) c0 in
    let (r2, c2) = addc2 (get_or w 2 0) (get_or tmp 2 0) c1 in
    let (r3, c3) = addc2 (get_or w 3 0) (get_or tmp 3 0) c2 in
    (record { w0 = r0; w1 = r1; w2 = r2; w3 = r3 }, c3)

-- One pass: the sum of the low limbs, its carry, and the high limbs of what the pass gave.
unfoldable pub order_pass : List ℕ → Limbs × ℕ × List ℕ
order_pass w =
    let tmp = order_rows (drop 4 w) 0 (replicate 8 0) in
    let (r, carry) = low_sum w tmp in (r, carry, drop 4 tmp)

abbrev pub all_zero : List ℕ → Bool
all_zero [] = true
all_zero (v ∷ vs) = (v == 0) && all_zero vs

-- ed25519_reduce_order; sixteen subtractions are more than four limbs can need.
unfoldable pub reduce_order : List ℕ → Option Limbs
reduce_order x =
    let (r, carry, high) = order_pass x in
    let second = (order_pass (limb_list r ++ high)).0 in
    subtract_down 16 (if (carry == 0) && all_zero high then r else second) ed25519_l

-- ed25519_mul_order
abbrev pub mul_order : Limbs → Limbs → Option Limbs
mul_order a b = reduce_order (mul_raw a b)

-- The loop of ed25519_bytes_to_u8 from the byte `i` on, which the decoding of a point repeats with four limbs.
unfoldable pub read_bytes : List ℕ → ℕ → List ℕ → List ℕ
read_bytes [] i r8 = r8
read_bytes (b ∷ bs) i r8 = read_bytes bs (i + 1) (
    if ltb (i / 8) 8 then set r8 (i / 8) (bit_or (get_or r8 (i / 8) 0) (b <<< (i % 8 * 8))) else r8)

-- ed25519_bytes_to_u8
abbrev pub bytes_to_u8 : List ℕ → ℕ → List ℕ
bytes_to_u8 bytes nbytes = read_bytes (take nbytes bytes) 0 (replicate 8 0)

-- ed25519_mod_order_from_bytes
abbrev pub mod_order_from_bytes : List ℕ → ℕ → Option Limbs
mod_order_from_bytes bytes nbytes = reduce_order (bytes_to_u8 bytes nbytes)

-- ed25519_order_to_bytes
abbrev pub order_to_bytes : Limbs → List ℕ
order_to_bytes r = write_bytes 32 0 (limb_list r)
