-- ===== src/Hot/Hash.antt =====
-- `hot_name_hash` (runtime/xiom_hot_reload.c, 78 to 83).
use stdlib.Base.{ℕ, ◌%◌, ◌^◌, ◌<◌, ◌≡◌, Bool-cases, inl, inr, List, [], ◌∷◌, arith, ltb}
use stdlib.Hot.{djb2, hot_name_hash}

-- The bytes of a C string.
abbrev pub IsName : List ℕ → Type 0
IsName [] = Unit {0}
IsName (c ∷ cs) = (0 < c) × (c < 256) × IsName cs

djb2_widths :
    (name : List ℕ) (a b : ℕ)
    → IsName name
    → a < 2 ^ 64
    → b ≡ a % 2 ^ 32
    → djb2 32 b name ≡ djb2 64 a name % 2 ^ 32
unfolding djb2
djb2_widths [] a b named small e = e
djb2_widths (c ∷ cs) a b named small e = elim (Bool-cases (ltb c 128)) [
  | inl ascii ↦ rw ascii (djb2_widths cs _ _ named.2 (omega arith) (omega arith))
  | inr high ↦ rw high (djb2_widths cs _ _ named.2 (omega arith) (ground arith))
]

-- The index that a name hashes to is the same with a 32-bit `unsigned long` (Windows) and a 64-bit
-- one (Linux), and is an index of the table.
pub hot_name_hash_widths :
    (name : List ℕ)
    → IsName name
    → (hot_name_hash 32 name ≡ hot_name_hash 64 name) × (hot_name_hash 64 name < 1024)
unfolding hot_name_hash
hot_name_hash_widths name named =
    (omega (arith, djb2_widths name 5381 5381 named (omega arith) (omega arith)), omega arith)
