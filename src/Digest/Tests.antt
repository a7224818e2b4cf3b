-- ===== src/Digest/Tests.antt =====
-- Runs of the hashes against FIPS 180-4 (runtime/xiom_runtime.c, 8489 to 8591).
use stdlib.Base.{ℕ, ◌≡◌, ◌/◌, ◌%◌, refl, List, [], ◌∷◌, take, length, arith}
use stdlib.Digest.Chunks.{absorb}
use stdlib.Digest.Padding.{pad, sha512_core-absorb}
use stdlib.Digest.{
  sha512_start, output, sha512_hash, sha512_core, finish, put_length, whole_blocks, transform,
  compress, extend, load_words,
}

abbrev abc : List ℕ
abc = 97 ∷ 98 ∷ 99 ∷ []

digest_abc : take 8 (sha512_hash abc) ≡ 0xdd ∷ 0xaf ∷ 0x35 ∷ 0xa1 ∷ 0x93 ∷ 0x61 ∷ 0x7a ∷ 0xba ∷ []
unfolding sha512_hash sha512_core finish put_length whole_blocks transform compress extend
    load_words
digest_abc = refl

sha512_core-absorb_example :
    (sha512_core sha512_start abc 8
      ≡ output 8 (absorb (length (pad abc) / 128) sha512_start (pad abc)))
    × (length (pad abc) % 128 ≡ 0)
sha512_core-absorb_example = sha512_core-absorb sha512_start abc 8 (omega arith)
