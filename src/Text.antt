-- ===== src/Text.antt =====
-- runtime/xiom_runtime.c, lines 1369 to 1560: the accessors of a NUL-terminated `Str`, the string
-- builders and the decimal printer.
pub mod Bytes
pub mod Utf8
pub mod Slice
pub mod Match
pub mod Decimal
pub mod Tests
use stdlib.Base.{
  ℕ, zero, suc, ◌+◌, ◌-◌, ◌*◌, ◌/◌, ◌%◌, ◌^◌, bit_and, bit_or, Bool, true, false, Option, none,
  some, List, [], ◌∷◌, ◌++◌, ltb, leb, ◌==◌, eq_list, if◌then◌else◌, length, take, drop,
}
use stdlib.Base.Chain.{◌>>=◌}
use stdlib.Base.Int.{ℤ, pos, negsuc, to_ℕ}
use stdlib.Base.Words.{◌<<<◌}
use Prim.Native.Nat.{min}
use mathlib.Core.List.{reverse}

-- A `const char*`: `none` is NULL, and a string is the list of its bytes before the NUL.
abbrev pub CStr : Type 0
CStr = Option (List ℕ)

-- `str[i]`: the NUL stands at index `length`, and what is behind it is not the string's.
abbrev pub peek : List ℕ → ℕ → Option ℕ
peek [] zero = some 0
peek [] (suc i) = none
peek (b ∷ bs) zero = some b
peek (b ∷ bs) (suc i) = peek bs i

-- strnlen(str, 1 << 20)
abbrev pub scan_cap : ℕ
scan_cap = 1048576

abbrev pub strnlen : List ℕ → ℕ → ℕ
strnlen s cap = min (length s) cap

unfoldable pub byte_at : CStr → ℤ → Option ℕ
byte_at none p = some 0
byte_at (some s) (negsuc k) = some 0
byte_at (some s) (pos p) = if leb (strnlen s scan_cap) p then some 0 else peek s p

-- The loop over the continuation bytes, with `n` of them to go; `b` is the lead byte.
unfoldable pub continue_char : List ℕ → ℕ → ℕ → ℕ → ℕ → ℕ → Option ℕ
continue_char s p b zero i cp = some cp
continue_char s p b (suc n) i cp = do
  cb ← peek s (p + i)
  if bit_and cb 0xC0 == 0x80
      then continue_char s p b n (i + 1) (bit_or (cp <<< 6) (bit_and cb 0x3F))
      else some b

-- The number of bytes and the first bits of the code point, by the lead byte.
unfoldable pub lead_char : List ℕ → ℕ → ℕ → Option ℕ
lead_char s p b =
    if bit_and b 0xE0 == 0xC0
    then continue_char s p b 1 1 (bit_and b 0x1F)
    else if bit_and b 0xF0 == 0xE0
    then continue_char s p b 2 1 (bit_and b 0x0F)
    else if bit_and b 0xF8 == 0xF0
    then continue_char s p b 3 1 (bit_and b 0x07)
    else some b

unfoldable pub char_at : CStr → ℤ → Option ℕ
unfolding lead_char
char_at none p = some 0
char_at (some s) (negsuc k) = some 0
char_at (some s) (pos p) =
    if leb (strnlen s scan_cap) p
    then some 0
    else (do b ← peek s p; if ltb b 0x80 then some b else lead_char s p b)

unfoldable pub str_len : CStr → ℤ
str_len none = negsuc 0
str_len (some s) = pos (length s)

-- `if (!a) a = "";`
abbrev pub or_empty : CStr → List ℕ
or_empty none = []
or_empty (some s) = s

-- `allocated` says whether `malloc` returned a block; on failure the builders return "".
unfoldable pub str_concat : (allocated : Bool) → CStr → CStr → List ℕ
str_concat allocated a b = if allocated then or_empty a ++ or_empty b else []

-- `if (v < 0) v = 0; if (v > len) v = len;`
abbrev pub clamp : ℕ → ℤ → ℕ
clamp len v = if ltb len (to_ℕ v) then len else to_ℕ v

unfoldable pub str_slice : (allocated : Bool) → CStr → ℤ → ℤ → List ℕ
str_slice allocated none from upto = []
str_slice allocated (some s) from upto =
    let start = clamp (length s) from in
    let end = clamp (length s) upto in
    if leb end start then [] else if allocated then take (end - start) (drop start s) else []

-- strncmp(s, t, n) == 0
unfoldable pub strncmp_zero : List ℕ → List ℕ → ℕ → Bool
strncmp_zero s t zero = true
strncmp_zero [] [] (suc n) = true
strncmp_zero [] (c ∷ t) (suc n) = false
strncmp_zero (b ∷ s) [] (suc n) = false
strncmp_zero (b ∷ s) (c ∷ t) (suc n) = if b == c then strncmp_zero s t n else false

unfoldable pub str_starts_with : CStr → CStr → ℕ
unfolding strncmp_zero
str_starts_with none prefix = 0
str_starts_with (some s) none = 0
str_starts_with (some s) (some prefix) =
    if length prefix == 0 then 1 else if strncmp_zero s prefix (length prefix) then 1 else 0

unfoldable pub str_ends_with : CStr → CStr → ℕ
str_ends_with none suffix = 0
str_ends_with (some s) none = 0
str_ends_with (some s) (some suffix) =
    if length suffix == 0
    then 1
    else if ltb (length s) (length suffix)
    then 0
    else if eq_list (drop (length s - length suffix) s) suffix
    then 1
    else 0

-- `char tmp[24]`, written at `len`.
abbrev pub put : List ℕ → ℕ → Option (List ℕ)
put tmp c = if ltb (length tmp) 24 then some (tmp ++ (c ∷ [])) else none

-- `while (u > 0) { tmp[len++] = '0' + u % 10; u /= 10; }` on fuel.
unfoldable pub digits_loop : ℕ → ℕ → List ℕ → Option (List ℕ)
digits_loop zero u tmp = if u == 0 then some tmp else none
digits_loop (suc f) u tmp =
    let rest = (do tmp' ← put tmp (48 + u % 10); digits_loop f (u / 10) tmp') in
    if u == 0 then some tmp else rest

-- The absolute value, computed on `unsigned long long` so that LLONG_MIN has one.
abbrev pub magnitude : ℤ → ℕ
magnitude (pos n) = n
magnitude (negsuc k) = (k + 1) % 2 ^ 64

abbrev pub is_negative : ℤ → Bool
is_negative (pos n) = false
is_negative (negsuc k) = true

unfoldable pub int_to_string : (allocated : Bool) → ℤ → Option (List ℕ)
int_to_string allocated n = do
  first ← (if magnitude n == 0 then put [] 48 else some [])
  tmp ← digits_loop 20 (magnitude n) first
  signed ← (if is_negative n then put tmp 45 else some tmp)
  some (if allocated then reverse signed else [])
