-- ===== src/Digest/Padding.antt =====
-- The padding of FIPS 180-4, against the blocks that the code builds (runtime/xiom_runtime.c, 8549 to 8573).
use mathlib.Core.List.{append_assoc}
use stdlib.Base.{
  ℕ, suc, ◌+◌, ◌-◌, ◌*◌, ◌/◌, ◌%◌, ◌^◌, ◌≤◌, ◌<◌, ◌≡◌, refl, sym, ap, ◌∙◌, inl, inr, List, ◌∷◌,
  ◌++◌, leb, arith, Bool-cases, length, set, replicate, length-append, length-replicate,
}
use stdlib.Base.Words.{u64}
use stdlib.Digest.{Hash, transform, whole_blocks, finish, put_length, bytes_of, output, sha512_core}
use stdlib.Digest.Chunks.{
  absorb, absorb-suc, whole_blocks-Left, take-append, take-all, drop-append, drop-all,
  replicate-add, set-append, put_length_lem,
}

-- The bit 1, the zeros up to 112 bytes in the last block, and the length in bits as a number of 128 bits.
abbrev pub zeros_for : ℕ → ℕ
zeros_for n = (239 - n % 128) % 128

abbrev pub padding : ℕ → List ℕ
padding n = 0x80 ∷ (replicate (zeros_for n) 0 ++ (replicate 8 0 ++ bytes_of (n * 8)))

abbrev pub pad : List ℕ → List ℕ
pad msg = msg ++ padding (length msg)

-- The block with the byte 0x80 behind the rest.
marked : List ℕ → List ℕ
marked rest = rest ++ 0x80 ∷ replicate (127 - length rest) 0

marked_lem :
    (rest : List ℕ)
    → length rest < 128
    → set (rest ++ replicate (128 - length rest) 0) (length rest) 0x80 ≡ marked rest
unfolding marked
marked_lem rest h =
    let one_more : 128 - length rest ≡ suc (127 - length rest) = omega arith in
    rw one_more
      (set-append rest (0 ∷ replicate (127 - length rest) 0) (length rest) 0 0x80 (omega arith))

-- The padding behind a rest that leaves room for the length, and behind one that does not.
padded_short :
    (n : ℕ) (rest : List ℕ)
    → length rest ≡ n % 128
    → length rest < 112
    → rest ++ padding n ≡ (rest ++ 0x80 ∷ replicate (119 - length rest) 0) ++ bytes_of (n * 8)
padded_short n rest e h =
    let few : zeros_for n ≡ 111 - length rest = omega arith in
    let total : 119 - length rest ≡ 111 - length rest + 8 = omega arith in
    rw (few, total, replicate-add {A = ℕ} (111 - length rest) 8 0)
      (ap (λ t. rest ++ 0x80 ∷ t)
          (sym (append_assoc (replicate (111 - length rest) 0) (replicate 8 0) (bytes_of (n * 8))))
        ∙ sym (
            append_assoc rest (0x80 ∷ (replicate (111 - length rest) 0 ++ replicate 8 0))
              (bytes_of (n * 8))))

padded_long :
    (n : ℕ) (rest : List ℕ)
    → length rest ≡ n % 128
    → 112 ≤ length rest
    → length rest < 128
    → rest ++ padding n ≡ marked rest ++ (replicate 120 0 ++ bytes_of (n * 8))
unfolding marked
padded_long n rest e h less =
    let many : zeros_for n ≡ 127 - length rest + 112 = omega arith in
    let zeros = replicate-add {A = ℕ} 112 8 0 in
    rw (many, replicate-add {A = ℕ} (127 - length rest) 112 0)
      (ap (λ t. rest ++ 0x80 ∷ t)
          (append_assoc (replicate (127 - length rest) 0) (replicate 112 0)
            (replicate 8 0 ++ bytes_of (n * 8)))
        ∙ sym (
            append_assoc rest (0x80 ∷ replicate (127 - length rest) 0)
              (replicate 112 0 ++ (replicate 8 0 ++ bytes_of (n * 8))))
        ∙ ap (λ t. (rest ++ 0x80 ∷ replicate (127 - length rest) 0) ++ t)
            (sym (append_assoc (replicate 112 0) (replicate 8 0) (bytes_of (n * 8)))))

-- The one block of a short rest, and the first of the two of a long one.
block_short :
    (n : ℕ) (rest : List ℕ)
    → length rest ≡ n % 128
    → length rest < 112
    → put_length 8 0 (n * 8) (marked rest) ≡ rest ++ padding n
block_short n rest e h =
    let p = rest ++ 0x80 ∷ replicate (119 - length rest) 0 in
    let total : 127 - length rest ≡ 119 - length rest + 8 = omega arith in
    let split : marked rest ≡ p ++ replicate 8 0 =
      (unfold marked in
        rw (total, replicate-add {A = ℕ} (119 - length rest) 8 0)
          (sym (append_assoc rest (0x80 ∷ replicate (119 - length rest) 0) (replicate 8 0)))) in
    let size : length p ≡ 120 = omega (
      arith,
      length-append {0} rest (0x80 ∷ replicate (119 - length rest) 0),
      length-replicate {0} {A = ℕ} (119 - length rest) 0,
    ) in
    ap (put_length 8 0 (n * 8)) split
    ∙ put_length_lem (n * 8) p size
    ∙ sym (padded_short n rest e h)

length-marked : (rest : List ℕ) → length rest < 128 → length (marked rest) ≡ 128
unfolding marked
length-marked rest h = omega (
  arith,
  length-append {0} rest (0x80 ∷ replicate (127 - length rest) 0),
  length-replicate {0} {A = ℕ} (127 - length rest) 0,
)

-- The end of the hash takes the padded rest, in one block or in two.
finish-absorb :
    (n : ℕ) (s : Hash) (rest : List ℕ)
    → length rest < 128
    → length rest ≡ n % 128
    → n * 8 < 2 ^ 64
    → finish n (s, rest) ≡ absorb (length (rest ++ padding n) / 128) s (rest ++ padding n)
unfolding finish
finish-absorb n s rest less e small =
    let fits : u64 (n * 8) ≡ n * 8 = omega arith in
    elim (Bool-cases (leb 112 (length rest))) [
      | inr short ↦
          let room : length rest < 112 = ground arith in
          let x = rest ++ padding n in
          let p = rest ++ 0x80 ∷ replicate (119 - length rest) 0 in
          let size : length x ≡ 128 =
            ap length (padded_short n rest e room)
            ∙ omega (
              arith,
              length-append {0} p (bytes_of (n * 8)),
              length-append {0} rest (0x80 ∷ replicate (119 - length rest) 0),
              length-replicate {0} {A = ℕ} (119 - length rest) 0,
            ) in
          let count : length x / 128 ≡ 1 = omega (arith, size) in
          rw (short, fits, marked_lem rest less, block_short n rest e room, count)
            (sym (absorb-suc 0 s x ∙ rw (take-all 128 x (sym size)) (unfold absorb in refl)))
      | inl long ↦
          let full : 112 ≤ length rest = ground arith in
          let second = replicate 120 0 ++ bytes_of (n * 8) in
          let size = length-marked rest less in
          let count : length (marked rest ++ second) / 128 ≡ 2 =
            omega (arith, length-append {0} (marked rest) second, size) in
          let last : put_length 8 0 (n * 8) (replicate 128 0) ≡ second =
            put_length_lem (n * 8) (replicate 120 0) refl in
          rw (long, fits, marked_lem rest less, padded_long n rest e full less, count, last)
            (sym (
              absorb-suc 1 s (marked rest ++ second)
              ∙ rw
                  (
                    take-append 128 (marked rest) second (omega (arith, size)),
                    take-all 128 (marked rest) (sym size),
                    drop-append 128 (marked rest) second (omega (arith, size)),
                    drop-all 128 (marked rest) (sym size),
                  )
                  (absorb-suc 0 (transform s (marked rest)) second
                    ∙ rw (take-all {A = ℕ} 128 second refl) (unfold absorb in refl))))
    ]

-- The hash of a message shorter than 2 ^ 61 bytes is the output of the transform over the blocks of the padded
-- message in their order, which it divides into with nothing left.
pub sha512_core-absorb :
    (s : Hash) (msg : List ℕ) (words : ℕ)
    → length msg * 8 < 2 ^ 64
    → (sha512_core s msg words ≡ output words (absorb (length (pad msg) / 128) s (pad msg)))
      × (length (pad msg) % 128 ≡ 0)
unfolding sha512_core
sha512_core-absorb s msg words small =
    let n = length msg in
    let r = whole_blocks n s msg in
    let left = whole_blocks-Left n (padding n) s msg (omega arith) in
    (
      ap (output words)
          (finish-absorb n r.0 r.1 left.short left.same_length small ∙ sym left.absorbed),
      omega (
        arith,
        length-append {0} msg (padding n),
        length-append {0} (replicate (zeros_for n) 0) (replicate 8 0 ++ bytes_of (n * 8)),
        length-replicate {0} {A = ℕ} (zeros_for n) 0,
      ),
    )
