-- ===== src/Text/Tests.antt =====
-- Runs of the string functions (runtime/xiom_runtime.c, 1382 to 1557), and the theorems about them at
-- concrete inputs.
use stdlib.Base.{ℕ, ◌≡◌, refl, true, none, some, List, [], ◌∷◌, ◌++◌, arith}
use stdlib.Base.Int.{pos, negsuc}
use stdlib.Text.{byte_at, char_at, str_len, int_to_string, digits_loop, continue_char}
use stdlib.Text.Utf8.{encode, char_at-encode}

-- "aé€" in UTF-8.
abbrev word : List ℕ
word = 97 ∷ 195 ∷ 169 ∷ 226 ∷ 130 ∷ 172 ∷ []

decodes :
    (char_at (some word) (pos 1) ≡ some 0xE9)
    × (char_at (some word) (pos 3) ≡ some 0x20AC)
    × (char_at (some word) (pos 2) ≡ some 169)
    × (byte_at (some word) (pos 6) ≡ some 0)
unfolding char_at byte_at continue_char
decodes = (refl, refl, refl, refl)

-- A lead byte at the end of the string stops at the NUL.
cut_short : char_at (some (226 ∷ 130 ∷ [])) (pos 0) ≡ some 226
unfolding char_at continue_char
cut_short = refl

prints : int_to_string true (negsuc 41) ≡ some (45 ∷ 52 ∷ 50 ∷ [])
unfolding int_to_string digits_loop
prints = refl

lengths : (str_len none ≡ negsuc 0) × (str_len (some word) ≡ pos 6)
unfolding str_len
lengths = (refl, refl)

char_at-encode_example :
    char_at (some ((97 ∷ []) ++ (encode 0x1F600 ++ (98 ∷ [])))) (pos 1) ≡ some 0x1F600
char_at-encode_example = char_at-encode (97 ∷ []) (98 ∷ []) 0x1F600 (omega arith) (omega arith)
