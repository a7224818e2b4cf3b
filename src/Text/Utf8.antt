-- ===== src/Text/Utf8.antt =====
-- `xiom_byte_at` and `xiom_char_at` (runtime/xiom_runtime.c, 1382 to 1417) read inside the string, and
-- `xiom_char_at` decodes what UTF-8 encodes.
use stdlib.Base.{
  ℕ, zero, suc, ◌+◌, ◌*◌, ◌/◌, ◌%◌, ◌^◌, ◌≤◌, ◌<◌, bit_and, bit_or, ◌≡◌, refl, sym, ap, ◌∙◌, true,
  false, none, some, List, [], ◌∷◌, ◌++◌, arith, ltb, leb, ◌==◌, Bool-cases, if◌then◌else◌, inl,
  inr, length, length-append,
}
use stdlib.Base.Int.{ℤ, pos, negsuc}
use stdlib.Base.Bits.{bit_or_sum, bit_and_low}
use stdlib.Text.{CStr, peek, scan_cap, strnlen, byte_at, continue_char, lead_char, char_at}
use stdlib.Text.Bytes.{
  is_continuation, is_lead_two, is_lead_three, is_lead_four, peek_in_bounds, peek-append,
}

-- Each byte of a string is a `char`, and none is the NUL.
abbrev pub IsBytes : List ℕ → Type 0
IsBytes [] = Unit {0}
IsBytes (b ∷ bs) = (b < 256) × IsBytes bs

continuation_inside :
    (s : List ℕ) (i cb : ℕ)
    → i ≤ length s
    → peek s i ≡ some cb
    → (bit_and cb 0xC0 == 0x80) ≡ true
    → i < length s
continuation_inside [] zero cb h got more =
    let nul : cb ≡ 0 = ground arith in ground (arith, ap (λ (c : ℕ). bit_and c 0xC0) nul)
continuation_inside [] (suc i) cb h got more = elim h [ ]
continuation_inside (b ∷ s) zero cb h got more = omega arith
continuation_inside (b ∷ s) (suc i) cb h got more =
    omega (arith, continuation_inside s i cb (omega arith) got more)

-- The loop over continuation bytes stops at the NUL, so it never reads behind it.
continue_char_reads :
    (n : ℕ) (s : List ℕ) (p b i cp : ℕ)
    → p + i ≤ length s
    → (r : ℕ) × (continue_char s p b n i cp ≡ some r)
unfolding continue_char
continue_char_reads zero s p b i cp h = (cp, refl)
continue_char_reads (suc n) s p b i cp h =
    let (cb, got) = peek_in_bounds s (p + i) h in
    elim (Bool-cases (bit_and cb 0xC0 == 0x80)) [
      | inl more ↦
          let step : p + i < length s = continuation_inside s (p + i) cb h got more in
          let (r, e) =
            continue_char_reads n s p b (i + 1) (bit_or (cp * 2 ^ 6) (bit_and cb 0x3F))
              (omega (arith, step)) in
          (r, rw (got, more) e)
      | inr stop ↦ (b, rw (got, stop))
    ]

lead_char_reads : (s : List ℕ) (p b : ℕ) → p + 1 ≤ length s → (r : ℕ) × (lead_char s p b ≡ some r)
unfolding lead_char
lead_char_reads s p b h = elim (Bool-cases (bit_and b 0xE0 == 0xC0)) [
  | inl two ↦ rw two (continue_char_reads 1 s p b 1 (bit_and b 0x1F) h)
  | inr not_two ↦ rw not_two (elim (Bool-cases (bit_and b 0xF0 == 0xE0)) [
    | inl three ↦ rw three (continue_char_reads 2 s p b 1 (bit_and b 0x0F) h)
    | inr not_three ↦ rw not_three (elim (Bool-cases (bit_and b 0xF8 == 0xF0)) [
      | inl four ↦ rw four (continue_char_reads 3 s p b 1 (bit_and b 0x07) h)
      | inr stray ↦ rw stray (b, refl)
    ])
  ])
]

-- For every string and every position, negative and past the end included, neither accessor reads
-- outside the string and its NUL: each returns a value.
pub char_at_reads :
    (s : CStr) (p : ℤ) → ((r : ℕ) × (byte_at s p ≡ some r)) × ((r : ℕ) × (char_at s p ≡ some r))
unfolding byte_at char_at
char_at_reads none p = ((0, refl), (0, refl))
char_at_reads (some s) (negsuc k) = ((0, refl), (0, refl))
char_at_reads (some s) (pos p) = elim (Bool-cases (leb (strnlen s scan_cap) p)) [
  | inl past ↦ rw past ((0, refl), (0, refl))
  | inr inside ↦
      let h : p + 1 ≤ length s = ground arith in
      let (b, got) = peek_in_bounds s p (omega arith) in
      let (r, e) = lead_char_reads s p b h in
      rw (inside, got)
        (
          (b, refl),
          elim (Bool-cases (ltb b 0x80)) [
            | inl ascii ↦ rw ascii (b, refl)
            | inr wide ↦ rw wide (r, e)
          ],
        )
]

-- The bytes of a code point in UTF-8.
abbrev pub encode : ℕ → List ℕ
encode cp =
    if ltb cp 0x80
    then cp ∷ []
    else if ltb cp 0x800
    then (192 + cp / 64) ∷ (128 + cp % 64) ∷ []
    else if ltb cp 0x10000
    then (224 + cp / 4096) ∷ (128 + cp / 64 % 64) ∷ (128 + cp % 64) ∷ []
    else (240 + cp / 262144) ∷ (128 + cp / 4096 % 64) ∷ (128 + cp / 64 % 64) ∷ (128 + cp % 64) ∷ []

-- One round of the loop at a continuation byte shifts six bits in.
continue_char_step :
    (n : ℕ) (s : List ℕ) (p b i cp low : ℕ)
    → low < 64
    → peek s (p + i) ≡ some (128 + low)
    → continue_char s p b (suc n) i cp ≡ continue_char s p b n (i + 1) (cp * 64 + low)
unfolding continue_char
continue_char_step n s p b i cp low h got =
    rw (got, is_cont) (ap (continue_char s p b n (i + 1)) (shifted))
  where
    is_cont : (bit_and (128 + low) 0xC0 == 0x80) ≡ true
    is_cont = ground (arith, is_continuation (128 + low))

    shifted : bit_or (cp * 2 ^ 6) (bit_and (128 + low) 0x3F) ≡ cp * 64 + low
    shifted =
        let six : bit_and (128 + low) 0x3F ≡ low = omega (arith, bit_and_low 6 (128 + low)) in
        ap (bit_or (cp * 2 ^ 6)) six ∙ bit_or_sum 6 cp low (omega arith)

char_at_wide :
    (s : List ℕ) (p b : ℕ)
    → p < strnlen s scan_cap
    → peek s p ≡ some b
    → 128 ≤ b
    → char_at (some s) (pos p) ≡ lead_char s p b
unfolding char_at
char_at_wide s p b h got wide = rw (inside, got, not_ascii) refl
  where
    inside : leb (strnlen s scan_cap) p ≡ false
    inside = ground arith

    not_ascii : ltb b 0x80 ≡ false
    not_ascii = ground arith

continue_char_done : (s : List ℕ) (p b i cp : ℕ) → continue_char s p b 0 i cp ≡ some cp
unfolding continue_char
continue_char_done s p b i cp = refl

module _ (s : List ℕ) (p cp : ℕ) (h : p < strnlen s scan_cap) where
  char_at_two :
      0x80 ≤ cp
      → cp < 0x800
      → peek s p ≡ some (192 + cp / 64)
      → peek s (p + 1) ≡ some (128 + cp % 64)
      → char_at (some s) (pos p) ≡ some cp
  unfolding lead_char
  char_at_two lo hi e0 e1 =
      let b = 192 + cp / 64 in
      let two : (bit_and b 0xE0 == 0xC0) ≡ true = ground (arith, is_lead_two b) in
      let lead = bit_and b 0x1F in
      let bits : lead * 64 + cp % 64 ≡ cp = omega (arith, bit_and_low 5 b) in
      char_at_wide s p b h e0 (omega arith)
      ∙ rw two (continue_char_step 0 s p b 1 lead (cp % 64) (omega arith) e1)
      ∙ continue_char_done s p b (1 + 1) (lead * 64 + cp % 64)
      ∙ ap some bits

  char_at_three :
      0x800 ≤ cp
      → cp < 0x10000
      → peek s p ≡ some (224 + cp / 4096)
      → peek s (p + 1) ≡ some (128 + cp / 64 % 64)
      → peek s (p + 2) ≡ some (128 + cp % 64)
      → char_at (some s) (pos p) ≡ some cp
  unfolding lead_char
  char_at_three lo hi e0 e1 e2 =
      let b = 224 + cp / 4096 in
      let two : (bit_and b 0xE0 == 0xC0) ≡ false = ground (arith, is_lead_two b) in
      let three : (bit_and b 0xF0 == 0xE0) ≡ true = ground (arith, is_lead_three b) in
      let lead = bit_and b 0x0F in
      let first = lead * 64 + cp / 64 % 64 in
      let bits : first * 64 + cp % 64 ≡ cp = omega (arith, bit_and_low 4 b) in
      char_at_wide s p b h e0 (omega arith)
      ∙ rw (two, three) (continue_char_step 1 s p b 1 lead (cp / 64 % 64) (omega arith) e1)
      ∙ continue_char_step 0 s p b 2 first (cp % 64) (omega arith) e2
      ∙ continue_char_done s p b 3 (first * 64 + cp % 64)
      ∙ ap some bits

  char_at_four :
      0x10000 ≤ cp
      → cp < 0x200000
      → peek s p ≡ some (240 + cp / 262144)
      → peek s (p + 1) ≡ some (128 + cp / 4096 % 64)
      → peek s (p + 2) ≡ some (128 + cp / 64 % 64)
      → peek s (p + 3) ≡ some (128 + cp % 64)
      → char_at (some s) (pos p) ≡ some cp
  unfolding lead_char
  char_at_four lo hi e0 e1 e2 e3 =
      let b = 240 + cp / 262144 in
      let two : (bit_and b 0xE0 == 0xC0) ≡ false = ground (arith, is_lead_two b) in
      let three : (bit_and b 0xF0 == 0xE0) ≡ false = ground (arith, is_lead_three b) in
      let four : (bit_and b 0xF8 == 0xF0) ≡ true = ground (arith, is_lead_four b) in
      let lead = bit_and b 0x07 in
      let first = lead * 64 + cp / 4096 % 64 in
      let second = first * 64 + cp / 64 % 64 in
      let bits : second * 64 + cp % 64 ≡ cp = omega (arith, bit_and_low 3 b) in
      char_at_wide s p b h e0 (omega arith)
      ∙ rw (two, three, four) (continue_char_step 2 s p b 1 lead (cp / 4096 % 64) (omega arith) e1)
      ∙ continue_char_step 1 s p b 2 first (cp / 64 % 64) (omega arith) e2
      ∙ continue_char_step 0 s p b 3 second (cp % 64) (omega arith) e3
      ∙ continue_char_done s p b 4 (second * 64 + cp % 64)
      ∙ ap some bits

peek_at :
    (front rest : List ℕ) (i b : ℕ)
    → peek rest i ≡ some b
    → peek (front ++ rest) (length front + i) ≡ some b
peek_at front rest i b e = peek-append front rest i ∙ e

peek_head : (front rest : List ℕ) (b : ℕ) → peek (front ++ (b ∷ rest)) (length front) ≡ some b
peek_head front rest b =
    let zero_at : length front + 0 ≡ length front = omega arith in
    ap (peek (front ++ (b ∷ rest))) (sym zero_at) ∙ peek-append front (b ∷ rest) 0

in_string :
    (front rest : List ℕ) (b : ℕ)
    → length front < 2 ^ 20
    → length front < strnlen (front ++ (b ∷ rest)) scan_cap
in_string front rest b near = omega (arith, length-append front (b ∷ rest))

char_at_ascii :
    (s : List ℕ) (p b : ℕ)
    → p < strnlen s scan_cap
    → peek s p ≡ some b
    → b < 128
    → char_at (some s) (pos p) ≡ some b
unfolding char_at
char_at_ascii s p b h got small = rw (inside, got, ascii) refl
  where
    inside : leb (strnlen s scan_cap) p ≡ false
    inside = ground arith

    ascii : ltb b 0x80 ≡ true
    ascii = ground arith

-- Wherever a code point stands in a string, encoded in UTF-8, within the first 2 ^ 20 bytes,
-- `xiom_char_at` at the position of its first byte returns it.
pub char_at-encode :
    (front back : List ℕ) (cp : ℕ)
    → cp < 0x110000
    → length front < 2 ^ 20
    → char_at (some (front ++ (encode cp ++ back))) (pos (length front)) ≡ some cp
char_at-encode front back cp h near = elim (Bool-cases (ltb cp 0x80)) [
  | inl one ↦ rw one (
      char_at_ascii (front ++ (cp ∷ back)) (length front) cp (in_string front back cp near)
        (peek_head front back cp) (ground arith))
  | inr more ↦ elim (Bool-cases (ltb cp 0x800)) [
    | inl two ↦
        let rest : List ℕ = (128 + cp % 64) ∷ back in
        let s = front ++ ((192 + cp / 64) ∷ rest) in
        rw (more, two)
          (char_at_two s (length front) cp (in_string front rest (192 + cp / 64) near)
            (ground arith) (ground arith) (peek_head front rest (192 + cp / 64))
            (peek_at front ((192 + cp / 64) ∷ rest) 1 (128 + cp % 64) refl))
    | inr more' ↦ elim (Bool-cases (ltb cp 0x10000)) [
      | inl three ↦
          let rest : List ℕ = (128 + cp / 64 % 64) ∷ (128 + cp % 64) ∷ back in
          let s = front ++ ((224 + cp / 4096) ∷ rest) in
          rw (more, more', three)
            (char_at_three s (length front) cp (in_string front rest (224 + cp / 4096) near)
              (ground arith) (ground arith) (peek_head front rest (224 + cp / 4096))
              (peek_at front ((224 + cp / 4096) ∷ rest) 1 (128 + cp / 64 % 64) refl)
              (peek_at front ((224 + cp / 4096) ∷ rest) 2 (128 + cp % 64) refl))
      | inr four ↦
          let rest : List ℕ =
            (128 + cp / 4096 % 64) ∷ (128 + cp / 64 % 64) ∷ (128 + cp % 64) ∷ back in
          let s = front ++ ((240 + cp / 262144) ∷ rest) in
          rw (more, more', four)
            (char_at_four s (length front) cp (in_string front rest (240 + cp / 262144) near)
              (ground arith) (omega arith) (peek_head front rest (240 + cp / 262144))
              (peek_at front ((240 + cp / 262144) ∷ rest) 1 (128 + cp / 4096 % 64) refl)
              (peek_at front ((240 + cp / 262144) ∷ rest) 2 (128 + cp / 64 % 64) refl)
              (peek_at front ((240 + cp / 262144) ∷ rest) 3 (128 + cp % 64) refl))
    ]
  ]
]
