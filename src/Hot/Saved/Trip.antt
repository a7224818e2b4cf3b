-- ===== src/Hot/Saved/Trip.antt =====
-- Saving a state (runtime/xiom_hot_reload.c, 224 to 247) and restoring it (257 to 302).
use stdlib.Base.{
  ℕ, zero, suc, ◌+◌, ◌-◌, ◌^◌, ◌≤◌, ◌<◌, ◌≡◌, refl, sym, ap, ◌∙◌, ◌≢◌, true, false, Option, some,
  List, [], ◌∷◌, ◌++◌, arith, ltb, ◌==◌, if◌then◌else◌, length, take, Bool-cases, inl, inr,
}
use stdlib.Base.Int.{ℤ, pos, negsuc}
use stdlib.Hot.Saved.{
  Header, Disk, header_bytes, state_magic, state_version, hot_layout_hash, save_state, read_payload,
  restore_checked, restore_state, restore_state_legacy, read_raw,
}
use stdlib.Hot.Saved.Bytes.{hot_layout_hash-lt, Fits, read_header-header_bytes}

-- The header that a save writes.
abbrev pub written : List ℕ → ℕ → Header
written metadata size = record {
  magic = state_magic;
  version = state_version;
  layout_hash = hot_layout_hash metadata;
  data_size = size;
}

written-Fits : (metadata : List ℕ) (size : ℕ) → size < 2 ^ 64 → Fits (written metadata size)
written-Fits metadata size h = record {
  magic = omega arith;
  version = omega arith;
  layout_hash = hot_layout_hash-lt metadata;
  data_size = h;
}

abbrev smaller : ℕ → ℕ → ℕ
smaller a b = if ltb a b then a else b

checked :
    (metadata wanted rest : List ℕ) (size out : ℕ)
    → restore_checked (written metadata size) rest wanted out ≡ (
        if hot_layout_hash metadata == hot_layout_hash wanted
        then read_payload rest (smaller size out)
        else (negsuc 3, []))
unfolding restore_checked
checked metadata wanted rest size out =
    elim (Bool-cases (hot_layout_hash metadata == hot_layout_hash wanted)) [
      | inl same ↦ rw same refl
      | inr other ↦ rw other refl
    ]

-- Restoring a file that starts with such a header comes down to the layout and the payload.
restore_written :
    (metadata wanted rest : List ℕ) (size out : ℕ)
    → size < 2 ^ 64
    → restore_state (some (header_bytes (written metadata size) ++ rest)) wanted out ≡ (
        if hot_layout_hash metadata == hot_layout_hash wanted
        then read_payload rest (smaller size out)
        else (negsuc 3, []))
unfolding restore_state
restore_written metadata wanted rest size out h =
    let hdr = written metadata size in
    let e = read_header-header_bytes hdr rest (written-Fits metadata size h) in
    let long : ltb (length (header_bytes hdr ++ rest)) 24 ≡ false = ground arith in
    rw long (
      ap (λ (k : Header). restore_checked k rest wanted out) e
      ∙ checked metadata wanted rest size out)

read_payload_all :
    (bytes : List ℕ) (n : ℕ) → n ≤ length bytes → read_payload bytes n ≡ (pos 0, take n bytes)
unfolding read_payload
read_payload_all bytes n h = let e : ltb (length bytes) n ≡ false = ground arith in rw e

take_all : (s : List ℕ) → take (length s) s ≡ s
take_all [] = refl
take_all (b ∷ s) = ap (λ (r : List ℕ). b ∷ r) (take_all s)

take_past : (n : ℕ) (s : List ℕ) → length s ≤ n → take n s ≡ s
take_past zero [] h = refl
take_past zero (b ∷ s) h = elim h [ ]
take_past (suc n) [] h = refl
take_past (suc n) (b ∷ s) h = ap (λ (r : List ℕ). b ∷ r) (take_past n s (omega arith))

take-smaller : (s : List ℕ) (n : ℕ) → take (smaller (length s) n) s ≡ take n s
take-smaller s n = elim (Bool-cases (ltb (length s) n)) [
  | inl short ↦ rw short (take_all s ∙ sym (take_past n s (ground arith)))
  | inr long ↦ rw long refl
]

save_fits :
    (disk : Disk) (metadata bytes : List ℕ)
    → disk.opens ≡ true
    → length bytes + 24 ≤ disk.room
    → save_state disk metadata (some bytes) (length bytes)
      ≡ (pos 0, some (header_bytes (written metadata (length bytes)) ++ bytes))
unfolding save_state
save_fits disk metadata [] opens room =
    let fits : ltb disk.room 24 ≡ false = ground arith in rw (opens, fits) refl
save_fits disk metadata (b ∷ bs) opens room =
    let fits : ltb disk.room 24 ≡ false = ground arith in
    let fits' : ltb (disk.room - 24) (suc (length bs)) ≡ false = ground arith in
    let some_left : (suc (length bs) == 0) ≡ false = ground arith in
    rw (opens, fits, some_left, fits') (rw (take_all bs) refl)

-- A state that is saved whole is restored whole by a program with the same layout: if the disk opens
-- and has room, the save returns 0, and restoring the file into a buffer of any size returns 0 and
-- stores the state's first bytes, all of them if the buffer is large enough.
pub restore_state-save_state :
    (disk : Disk) (metadata bytes : List ℕ) (out : ℕ)
    → disk.opens ≡ true
    → length bytes + 24 ≤ disk.room
    → length bytes < 2 ^ 64
    → ((save_state disk metadata (some bytes) (length bytes)).0 ≡ pos 0)
      × (restore_state (save_state disk metadata (some bytes) (length bytes)).1 metadata out
          ≡ (pos 0, take out bytes))
restore_state-save_state disk metadata bytes out opens room small =
    let saved = save_fits disk metadata bytes opens room in
    (
      ap (λ (r : ℤ × Option (List ℕ)). r.0) saved,
      ap (λ (r : ℤ × Option (List ℕ)). restore_state r.1 metadata out) saved
          ∙ restore_written metadata metadata bytes (length bytes) out small
          ∙ same_layout metadata bytes out,
    )
  where
    same_layout :
        (metadata bytes : List ℕ) (out : ℕ)
        → (if hot_layout_hash metadata == hot_layout_hash metadata
            then read_payload bytes (smaller (length bytes) out)
            else (negsuc 3, []))
          ≡ (pos 0, take out bytes)
    same_layout metadata bytes out =
        let e : (hot_layout_hash metadata == hot_layout_hash metadata) ≡ true = ground arith in
        rw e (
          read_payload_all bytes (smaller (length bytes) out) (ground arith)
          ∙ ap (λ (r : List ℕ). (pos 0, r)) (take-smaller bytes out))

-- A state saved under one layout is not restored under another: if the hashes of the two layouts
-- differ, the restore returns -4 and stores nothing.
pub restore_state_other_layout :
    (disk : Disk) (metadata wanted bytes : List ℕ) (out : ℕ)
    → disk.opens ≡ true
    → length bytes + 24 ≤ disk.room
    → length bytes < 2 ^ 64
    → hot_layout_hash metadata ≢ hot_layout_hash wanted
    → restore_state (save_state disk metadata (some bytes) (length bytes)).1 wanted out
      ≡ (negsuc 3, [])
restore_state_other_layout disk metadata wanted bytes out opens room small ne =
    let saved = save_fits disk metadata bytes opens room in
    let e : (hot_layout_hash metadata == hot_layout_hash wanted) ≡ false = ground arith in
    ap (λ (r : ℤ × Option (List ℕ)). restore_state r.1 wanted out) saved
    ∙ restore_written metadata wanted bytes (length bytes) out small
    ∙ rw e refl

legacy_raw :
    (file : List ℕ) (out : ℕ)
    → restore_state (some file) [] out ≡ (negsuc 3, [])
    → out ≤ length file
    → restore_state_legacy (some file) out ≡ (pos 0, take out file)
unfolding restore_state_legacy read_raw
legacy_raw file out r fits =
    let long : ltb (length file) out ≡ false = ground arith in rw (r, long) refl

-- The legacy restore does not skip the layout check: on a file saved with a layout whose hash is not
-- that of the empty one, it falls back to a raw read and returns 0 with the file's first bytes, of
-- which the first 24 are the header and not the state.
pub restore_state_legacy_reads_header :
    (disk : Disk) (metadata bytes : List ℕ) (out : ℕ)
    → disk.opens ≡ true
    → length bytes + 24 ≤ disk.room
    → length bytes < 2 ^ 64
    → hot_layout_hash metadata ≢ hot_layout_hash []
    → out ≤ length bytes + 24
    → restore_state_legacy (save_state disk metadata (some bytes) (length bytes)).1 out
      ≡ (pos 0, take out (header_bytes (written metadata (length bytes)) ++ bytes))
restore_state_legacy_reads_header disk metadata bytes out opens room small ne fits =
    let file = header_bytes (written metadata (length bytes)) ++ bytes in
    let saved = save_fits disk metadata bytes opens room in
    let e : (hot_layout_hash metadata == hot_layout_hash []) ≡ false = ground arith in
    let r : restore_state (some file) [] out ≡ (negsuc 3, []) =
      restore_written metadata [] bytes (length bytes) out small ∙ rw e refl in
    ap (λ (r : ℤ × Option (List ℕ)). restore_state_legacy r.1 out) saved
    ∙ legacy_raw file out r (omega arith)
