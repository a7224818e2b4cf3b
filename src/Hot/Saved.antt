-- ===== src/Hot/Saved.antt =====
-- runtime/xiom_hot_reload.c, lines 197 to 327: the state file, its header, and the contract check.
pub mod Bytes
pub mod Trip
use stdlib.Base.{
  ℕ, zero, suc, ◌+◌, ◌-◌, ◌*◌, ◌/◌, ◌%◌, ◌^◌, bit_xor, Bool, true, false, Option, none, some, List,
  [], ◌∷◌, ◌++◌, ltb, ◌==◌, not, ◌&&◌, ◌||◌, if◌then◌else◌, length, take, drop,
}
use stdlib.Base.Int.{ℤ, pos, negsuc}

-- The bytes of a number in memory, lowest first, and back.
abbrev pub word_bytes : (count : ℕ) → ℕ → List ℕ
word_bytes zero v = []
word_bytes (suc n) v = (v % 256) ∷ word_bytes n (v / 256)

abbrev pub bytes_word : List ℕ → ℕ
bytes_word [] = 0
bytes_word (b ∷ bs) = b + 256 * bytes_word bs

-- XiomHotStateHeader: two uint32_t and two uint64_t, 24 bytes with no padding.
pub record Header : Type 0 where
  pub magic : ℕ
  pub version : ℕ
  pub layout_hash : ℕ
  pub data_size : ℕ

abbrev pub header_bytes : Header → List ℕ
header_bytes h =
    word_bytes 4 h.magic
    ++ (word_bytes 4 h.version ++ (word_bytes 8 h.layout_hash ++ word_bytes 8 h.data_size))

abbrev pub read_header : List ℕ → Header
read_header file = record {
  magic = bytes_word (take 4 file);
  version = bytes_word (take 4 (drop 4 file));
  layout_hash = bytes_word (take 8 (drop 8 file));
  data_size = bytes_word (take 8 (drop 16 file));
}

abbrev pub state_magic : ℕ
state_magic = 0x58494F4D

abbrev pub state_version : ℕ
state_version = 1

-- hot_layout_hash: FNV-1a on 64 bits.
unfoldable pub fnv1a : ℕ → List ℕ → ℕ
fnv1a hash [] = hash
fnv1a hash (c ∷ cs) = fnv1a (bit_xor hash c * 1099511628211 % 2 ^ 64) cs

unfoldable pub hot_layout_hash : List ℕ → ℕ
hot_layout_hash metadata = fnv1a 14695981039346656037 metadata

-- A disk as `fopen` and `fwrite` meet it: whether the path can be opened for writing, and how many
-- bytes fit before a write comes short.
pub record Disk : Type 0 where
  pub opens : Bool
  pub room : ℕ

-- The result is the return code and the file's new content, `none` if it was never opened. `payload`
-- is the buffer behind `data`, and NULL is `none`. A failed write is seen at the write: no buffer of the stream is modelled.
unfoldable pub save_state :
    Disk → (metadata : List ℕ) → Option (List ℕ) → (data_size : ℕ) → ℤ × Option (List ℕ)
save_state disk metadata payload data_size =
    let hdr : Header = record {
      magic = state_magic;
      version = state_version;
      layout_hash = hot_layout_hash metadata;
      data_size = data_size;
    } in
    if not disk.opens
    then (negsuc 0, none)
    else if ltb disk.room 24
    then (negsuc 0, some (take disk.room (header_bytes hdr)))
    else elim payload [
      | none ↦ (pos 0, some (header_bytes hdr))
      | some bytes ↦
          if data_size == 0
          then (pos 0, some (header_bytes hdr))
          else if ltb (disk.room - 24) data_size
          then (negsuc 0, some (header_bytes hdr ++ take (disk.room - 24) bytes))
          else (pos 0, some (header_bytes hdr ++ take data_size bytes))
    ]

-- The result is the return code and the bytes stored into `out_data`.
unfoldable pub read_payload : List ℕ → ℕ → ℤ × List ℕ
read_payload rest to_read =
    if ltb (length rest) to_read then (negsuc 0, rest) else (pos 0, take to_read rest)

-- The part of the restore behind the read of the header.
unfoldable pub restore_checked : Header → List ℕ → List ℕ → ℕ → ℤ × List ℕ
restore_checked hdr rest metadata out_size =
    if not (hdr.magic == state_magic)
    then (negsuc 1, [])
    else if not (hdr.version == state_version)
    then (negsuc 2, [])
    else if not (hdr.layout_hash == hot_layout_hash metadata)
    then (negsuc 3, [])
    else read_payload rest (if ltb hdr.data_size out_size then hdr.data_size else out_size)

unfoldable pub restore_state :
    (file : Option (List ℕ)) → (metadata : List ℕ) → (out_size : ℕ) → ℤ × List ℕ
restore_state none metadata out_size = (negsuc 0, [])
restore_state (some file) metadata out_size =
    if ltb (length file) 24
    then (negsuc 0, [])
    else restore_checked (read_header file) (drop 24 file) metadata out_size

unfoldable pub save_state_legacy : Disk → Option (List ℕ) → ℕ → ℤ × Option (List ℕ)
save_state_legacy disk payload size = save_state disk [] payload size

-- The raw read of the pre-header format.
unfoldable pub read_raw : Option (List ℕ) → ℕ → ℤ × List ℕ
read_raw none size = (negsuc 0, [])
read_raw (some file) size = (if ltb (length file) size then negsuc 0 else pos 0, take size file)

abbrev pub needs_raw : ℤ → Bool
needs_raw (pos n) = false
needs_raw (negsuc k) = (k == 1) || (k == 2) || (k == 3)

unfoldable pub restore_state_legacy : Option (List ℕ) → ℕ → ℤ × List ℕ
restore_state_legacy file size =
    let r = restore_state file [] size in if needs_raw r.0 then read_raw file size else r

-- xiom_hot_verify_contracts: `none` is no registered checker.
unfoldable pub verify_contracts : Option (List ℕ → ℤ) → List ℕ → ℤ
verify_contracts none module_name = pos 0
verify_contracts (some checker) module_name = checker module_name
