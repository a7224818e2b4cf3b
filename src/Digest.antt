-- ===== src/Digest.antt =====
-- SHA-512 and SHA-384 (runtime/xiom_runtime.c, 8489 to 8591 and 8643 to 8656). A message is its list of bytes.
pub mod Padding
pub mod Chunks
pub mod Tests
use stdlib.Base.{
  ℕ, zero, suc, ◌+◌, ◌-◌, ◌*◌, ◌/◌, ◌%◌, ◌^◌, bit_and, bit_or, bit_xor, Bool, true, false, List, [],
  ◌∷◌, ◌++◌, leb, if◌then◌else◌, length, get_or, set, take, drop, replicate,
}
use stdlib.Base.Words.{u8, u64, ◌<<<◌, ◌>>>◌}

-- SHA512_K
abbrev pub round_constants : List ℕ
round_constants =
    0x428a2f98d728ae22 ∷ 0x7137449123ef65cd ∷ 0xb5c0fbcfec4d3b2f ∷ 0xe9b5dba58189dbbc
    ∷ 0x3956c25bf348b538 ∷ 0x59f111f1b605d019 ∷ 0x923f82a4af194f9b ∷ 0xab1c5ed5da6d8118
    ∷ 0xd807aa98a3030242 ∷ 0x12835b0145706fbe ∷ 0x243185be4ee4b28c ∷ 0x550c7dc3d5ffb4e2
    ∷ 0x72be5d74f27b896f ∷ 0x80deb1fe3b1696b1 ∷ 0x9bdc06a725c71235 ∷ 0xc19bf174cf692694
    ∷ 0xe49b69c19ef14ad2 ∷ 0xefbe4786384f25e3 ∷ 0x0fc19dc68b8cd5b5 ∷ 0x240ca1cc77ac9c65
    ∷ 0x2de92c6f592b0275 ∷ 0x4a7484aa6ea6e483 ∷ 0x5cb0a9dcbd41fbd4 ∷ 0x76f988da831153b5
    ∷ 0x983e5152ee66dfab ∷ 0xa831c66d2db43210 ∷ 0xb00327c898fb213f ∷ 0xbf597fc7beef0ee4
    ∷ 0xc6e00bf33da88fc2 ∷ 0xd5a79147930aa725 ∷ 0x06ca6351e003826f ∷ 0x142929670a0e6e70
    ∷ 0x27b70a8546d22ffc ∷ 0x2e1b21385c26c926 ∷ 0x4d2c6dfc5ac42aed ∷ 0x53380d139d95b3df
    ∷ 0x650a73548baf63de ∷ 0x766a0abb3c77b2a8 ∷ 0x81c2c92e47edaee6 ∷ 0x92722c851482353b
    ∷ 0xa2bfe8a14cf10364 ∷ 0xa81a664bbc423001 ∷ 0xc24b8b70d0f89791 ∷ 0xc76c51a30654be30
    ∷ 0xd192e819d6ef5218 ∷ 0xd69906245565a910 ∷ 0xf40e35855771202a ∷ 0x106aa07032bbd1b8
    ∷ 0x19a4c116b8d2d0c8 ∷ 0x1e376c085141ab53 ∷ 0x2748774cdf8eeb99 ∷ 0x34b0bcb5e19b48a8
    ∷ 0x391c0cb3c5c95a63 ∷ 0x4ed8aa4ae3418acb ∷ 0x5b9cca4f7763e373 ∷ 0x682e6ff3d6b2b8a3
    ∷ 0x748f82ee5defb2fc ∷ 0x78a5636f43172f60 ∷ 0x84c87814a1f0ab72 ∷ 0x8cc702081a6439ec
    ∷ 0x90befffa23631e28 ∷ 0xa4506cebde82bde9 ∷ 0xbef9a3f7b2c67915 ∷ 0xc67178f2e372532b
    ∷ 0xca273eceea26619c ∷ 0xd186b8c721c0c207 ∷ 0xeada7dd6cde0eb1e ∷ 0xf57d4f7fee6ed178
    ∷ 0x06f067aa72176fba ∷ 0x0a637dc5a2c898a6 ∷ 0x113f9804bef90dae ∷ 0x1b710b35131c471b
    ∷ 0x28db77f523047d84 ∷ 0x32caab7b40c72493 ∷ 0x3c9ebe0a15c9bebc ∷ 0x431d67c49c100d4c
    ∷ 0x4cc5d4becb3e42b6 ∷ 0x597f299cfc657e2a ∷ 0x5fcb6fab3ad6faec ∷ 0x6c44198c4a475817 ∷ []

-- SHA512_ROR
abbrev pub ror : ℕ → ℕ → ℕ
ror x n = bit_or (x >>> n) (u64 (x <<< (64 - n)))

-- SHA512_Ch, where `~x` is the word of the other bits, and SHA512_Maj
abbrev pub choose : ℕ → ℕ → ℕ → ℕ
choose x y z = bit_xor (bit_and x y) (bit_and (2 ^ 64 - 1 - x) z)

abbrev pub majority : ℕ → ℕ → ℕ → ℕ
majority x y z = bit_xor (bit_xor (bit_and x y) (bit_and x z)) (bit_and y z)

-- SHA512_Sigma0, SHA512_Sigma1, SHA512_sigma0 and SHA512_sigma1
abbrev pub big_sigma0 : ℕ → ℕ
big_sigma0 x = bit_xor (bit_xor (ror x 28) (ror x 34)) (ror x 39)

abbrev pub big_sigma1 : ℕ → ℕ
big_sigma1 x = bit_xor (bit_xor (ror x 14) (ror x 18)) (ror x 41)

abbrev pub small_sigma0 : ℕ → ℕ
small_sigma0 x = bit_xor (bit_xor (ror x 1) (ror x 8)) (x >>> 7)

abbrev pub small_sigma1 : ℕ → ℕ
small_sigma1 x = bit_xor (bit_xor (ror x 19) (ror x 61)) (x >>> 6)

-- The eight bytes of a word of the block, the most significant first; the parts of the `|` do not meet.
abbrev pub word_at : List ℕ → ℕ → ℕ
word_at block i =
    let byte = λ (k : ℕ). get_or block (i * 8 + k) 0 in
    byte 0 <<< 56
    + byte 1 <<< 48
    + byte 2 <<< 40
    + byte 3 <<< 32
    + byte 4 <<< 24
    + byte 5 <<< 16
    + byte 6 <<< 8
    + byte 7

-- The first loop of the schedule.
unfoldable pub load_words : ℕ → ℕ → List ℕ → List ℕ
load_words zero i block = []
load_words (suc turns) i block = word_at block i ∷ load_words turns (i + 1) block

-- The second loop: `w` holds the words so far, and the next is put at its end.
unfoldable pub extend : ℕ → ℕ → List ℕ → List ℕ
extend zero i w = w
extend (suc turns) i w = extend turns (i + 1) (
    w
    ++ (u64 (
          small_sigma1 (get_or w (i - 2) 0)
          + get_or w (i - 7) 0
          + small_sigma0 (get_or w (i - 15) 0)
          + get_or w (i - 16) 0)
        ∷ []))

-- The eight variables, which are those of the state too.
pub record Hash : Type 0 where
  pub a : ℕ
  pub b : ℕ
  pub c : ℕ
  pub d : ℕ
  pub e : ℕ
  pub f : ℕ
  pub g : ℕ
  pub h : ℕ

-- One turn of the compression.
abbrev pub turn : ℕ → ℕ → Hash → Hash
turn k w s =
    let t1 = u64 (s.h + big_sigma1 s.e + choose s.e s.f s.g + k + w) in
    let t2 = u64 (big_sigma0 s.a + majority s.a s.b s.c) in
    record {
      a = u64 (t1 + t2);
      b = s.a;
      c = s.b;
      d = s.c;
      e = u64 (s.d + t1);
      f = s.e;
      g = s.f;
      h = s.g;
    }

unfoldable pub compress : ℕ → ℕ → List ℕ → Hash → Hash
compress zero i w s = s
compress (suc turns) i w s =
    compress turns (i + 1) w (turn (get_or round_constants i 0) (get_or w i 0) s)

-- sha512_transform
unfoldable pub transform : Hash → List ℕ → Hash
transform s block =
    let w = extend 64 16 (load_words 16 0 block) in
    let t = compress 80 0 w s in
    record {
      a = u64 (s.a + t.a);
      b = u64 (s.b + t.b);
      c = u64 (s.c + t.c);
      d = u64 (s.d + t.d);
      e = u64 (s.e + t.e);
      f = u64 (s.f + t.f);
      g = u64 (s.g + t.g);
      h = u64 (s.h + t.h);
    }

-- The loop over the whole blocks: the state and what is left of the message from `pos` on.
unfoldable pub whole_blocks : ℕ → Hash → List ℕ → Hash × List ℕ
whole_blocks zero s rest = (s, rest)
whole_blocks (suc fuel) s rest =
    let next = whole_blocks fuel (transform s (take 128 rest)) (drop 128 rest) in
    if leb 128 (length rest) then next else (s, rest)

-- The loop that writes the length in bits, from the last byte of the block backwards.
unfoldable pub put_length : ℕ → ℕ → ℕ → List ℕ → List ℕ
put_length zero i bitlen block = block
put_length (suc turns) i bitlen block =
    put_length turns (i + 1) (bitlen >>> 8) (set block (127 - i) (bitlen % 2 ^ 8))

-- The last block or two.
unfoldable pub finish : ℕ → Hash × List ℕ → Hash
finish msglen (s, rest) =
    let block = set (rest ++ replicate (128 - length rest) 0) (length rest) 0x80 in
    let bitlen = u64 (msglen * 8) in
    if leb 112 (length rest)
    then transform (transform s block) (put_length 8 0 bitlen (replicate 128 0))
    else transform s (put_length 8 0 bitlen block)

-- The bytes of a word, the most significant first.
abbrev pub bytes_of : ℕ → List ℕ
bytes_of w =
    u8 (w >>> 56)
    ∷ u8 (w >>> 48)
    ∷ u8 (w >>> 40)
    ∷ u8 (w >>> 32)
    ∷ u8 (w >>> 24)
    ∷ u8 (w >>> 16)
    ∷ u8 (w >>> 8)
    ∷ u8 w
    ∷ []

-- The first `words` words of the state, written out.
abbrev pub output : ℕ → Hash → List ℕ
output words s = take (words * 8) (
    bytes_of s.a
    ++ (bytes_of s.b
        ++ (bytes_of s.c
            ++ (bytes_of s.d
                ++ (bytes_of s.e ++ (bytes_of s.f ++ (bytes_of s.g ++ bytes_of s.h)))))))

-- sha512_core
unfoldable pub sha512_core : Hash → List ℕ → ℕ → List ℕ
sha512_core s msg words = output words (finish (length msg) (whole_blocks (length msg) s msg))

-- sha512_hash, which xiom_sha512_hash calls, and xiom_sha384_hash
abbrev pub sha512_start : Hash
sha512_start = record {
  a = 0x6a09e667f3bcc908;
  b = 0xbb67ae8584caa73b;
  c = 0x3c6ef372fe94f82b;
  d = 0xa54ff53a5f1d36f1;
  e = 0x510e527fade682d1;
  f = 0x9b05688c2b3e6c1f;
  g = 0x1f83d9abfb41bd6b;
  h = 0x5be0cd19137e2179;
}

abbrev pub sha384_start : Hash
sha384_start = record {
  a = 0xcbbb9d5dc1059ed8;
  b = 0x629a292a367cd507;
  c = 0x9159015a3070dd17;
  d = 0x152fecd8f70e5939;
  e = 0x67332667ffc00b31;
  f = 0x8eb44a8768581511;
  g = 0xdb0c2e0d64f98fa7;
  h = 0x47b5481dbefa4fa4;
}

unfoldable pub sha512_hash : List ℕ → List ℕ
sha512_hash msg = sha512_core sha512_start msg 8

unfoldable pub sha384_hash : List ℕ → List ℕ
sha384_hash msg = sha512_core sha384_start msg 6
