-- ===== src/Hot/Saved/Bytes.antt =====
-- The header of a state file (runtime/xiom_hot_reload.c, 203 to 208) reads back as it was written.
use stdlib.Base.{ℕ, ◌^◌, ◌<◌, ◌≡◌, List, [], ◌∷◌, ◌++◌, arith}
use stdlib.Hot.Saved.{
  Header, word_bytes, bytes_word, header_bytes, read_header, fnv1a, hot_layout_hash,
}

word_four : (v : ℕ) → v < 2 ^ 32 → bytes_word (word_bytes 4 v) ≡ v
word_four v h = omega arith

word_eight : (v : ℕ) → v < 2 ^ 64 → bytes_word (word_bytes 8 v) ≡ v
word_eight v h = omega arith

fnv1a-lt : (name : List ℕ) (hash : ℕ) → hash < 2 ^ 64 → fnv1a hash name < 2 ^ 64
unfolding fnv1a
fnv1a-lt [] hash h = h
fnv1a-lt (c ∷ cs) hash h = fnv1a-lt cs _ (omega arith)

pub hot_layout_hash-lt : (metadata : List ℕ) → hot_layout_hash metadata < 2 ^ 64
unfolding hot_layout_hash
hot_layout_hash-lt metadata = fnv1a-lt metadata 14695981039346656037 (omega arith)

-- The fields of a header that fit their types.
pub record Fits (h : Header) : Type 0 where
  pub magic : h.magic < 2 ^ 32
  pub version : h.version < 2 ^ 32
  pub layout_hash : h.layout_hash < 2 ^ 64
  pub data_size : h.data_size < 2 ^ 64

pub read_header-header_bytes :
    (h : Header) (rest : List ℕ) → Fits h → read_header (header_bytes h ++ rest) ≡ h
read_header-header_bytes h rest f = λ i. record {
  magic = word_four h.magic f.magic i;
  version = word_four h.version f.version i;
  layout_hash = word_eight h.layout_hash f.layout_hash i;
  data_size = word_eight h.data_size f.data_size i;
}
