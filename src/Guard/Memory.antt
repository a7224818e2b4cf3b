-- ===== src/Guard/Memory.antt =====
-- Memory as the guard heap of runtime/xiom_runtime.c uses it: bytes, 64-bit words in little-endian
-- order, and `memset` to zero.
use stdlib.Base.{
  ℕ, ◌+◌, ◌*◌, ◌/◌, ◌%◌, ◌^◌, ◌≤◌, ◌<◌, ◌≡◌, refl, ◌⊎◌, inl, inr, ◌&&◌, arith, ltb, leb, ◌==◌,
  if◌then◌else◌,
}

-- The byte at each address.
abbrev pub Memory : Type 0
Memory = ℕ → ℕ

-- The byte of rank `i` of a word.
abbrev rank : ℕ → ℕ → ℕ
rank v i = v / 256 ^ i % 256

-- *(uint64_t*)a
unfoldable pub load64 : Memory → ℕ → ℕ
load64 m a =
    m a
    + 256
      * (m (a + 1)
          + 256
            * (m (a + 2)
                + 256
                  * (m (a + 3)
                      + 256
                        * (m (a + 4) + 256 * (m (a + 5) + 256 * (m (a + 6) + 256 * m (a + 7)))))))

-- *(uint64_t*)a = v
unfoldable pub store64 : Memory → ℕ → ℕ → Memory
store64 m a v x =
    if x == a
    then v % 256
    else if x == a + 1
    then v / 256 % 256
    else if x == a + 2
    then v / 65536 % 256
    else if x == a + 3
    then v / 16777216 % 256
    else if x == a + 4
    then v / 4294967296 % 256
    else if x == a + 5
    then v / 1099511627776 % 256
    else if x == a + 6
    then v / 281474976710656 % 256
    else if x == a + 7
    then v / 72057594037927936 % 256
    else m x

-- memset(a, 0, n)
unfoldable pub fill : Memory → ℕ → ℕ → Memory
fill m a n x = if leb a x && ltb x (a + n) then 0 else m x

-- `x` lies outside the `n` bytes at `a`.
abbrev pub Outside : ℕ → ℕ → ℕ → Type 0
Outside x a n = (x < a) ⊎ (a + n ≤ x)

pub store64-Outside : (m : Memory) (a v x : ℕ) → Outside x a 8 → store64 m a v x ≡ m x
unfolding store64
store64-Outside m a v x (inl h) = ground arith
store64-Outside m a v x (inr h) = ground arith

pub fill-Outside : (m : Memory) (a n x : ℕ) → Outside x a n → fill m a n x ≡ m x
unfolding fill
fill-Outside m a n x (inl h) = ground arith
fill-Outside m a n x (inr h) = ground arith

pub fill_inside : (m : Memory) (a n x : ℕ) → a ≤ x → x < a + n → fill m a n x ≡ 0
unfolding fill
fill_inside m a n x h k = ground arith

store64_byte :
    (m : Memory) (a v : ℕ)
    → (store64 m a v a ≡ v % 256)
      × (store64 m a v (a + 1) ≡ v / 256 % 256)
      × (store64 m a v (a + 2) ≡ v / 65536 % 256)
      × (store64 m a v (a + 3) ≡ v / 16777216 % 256)
      × (store64 m a v (a + 4) ≡ v / 4294967296 % 256)
      × (store64 m a v (a + 5) ≡ v / 1099511627776 % 256)
      × (store64 m a v (a + 6) ≡ v / 281474976710656 % 256)
      × (store64 m a v (a + 7) ≡ v / 72057594037927936 % 256)
unfolding store64
store64_byte m a v = (
  ground arith,
  ground arith,
  ground arith,
  ground arith,
  ground arith,
  ground arith,
  ground arith,
  ground arith,
)

pub load64-store64 : (m : Memory) (a v : ℕ) → v < 2 ^ 64 → load64 (store64 m a v) a ≡ v
unfolding load64
load64-store64 m a v h = omega (arith, store64_byte m a v)

-- A word is unchanged where its eight bytes are.
pub load64_same :
    (m m' : Memory) (a : ℕ) → ((x : ℕ) → a ≤ x → x < a + 8 → m' x ≡ m x) → load64 m' a ≡ load64 m a
unfolding load64
load64_same m m' a h =
    rw
      (
        h a (omega arith) (omega arith),
        h (a + 1) (omega arith) (omega arith),
        h (a + 2) (omega arith) (omega arith),
        h (a + 3) (omega arith) (omega arith),
        h (a + 4) (omega arith) (omega arith),
        h (a + 5) (omega arith) (omega arith),
        h (a + 6) (omega arith) (omega arith),
        h (a + 7) (omega arith) (omega arith),
      )
      refl

-- A store and a fill spare the words that they do not meet.
pub load64-store64_apart :
    (m : Memory) (a b v : ℕ) → (b + 8 ≤ a) ⊎ (a + 8 ≤ b) → load64 (store64 m a v) b ≡ load64 m b
load64-store64_apart m a b v h =
    load64_same m (store64 m a v) b λ x lo hi. store64-Outside m a v x (omega arith)

pub load64-fill_apart :
    (m : Memory) (a n b : ℕ) → (b + 8 ≤ a) ⊎ (a + n ≤ b) → load64 (fill m a n) b ≡ load64 m b
load64-fill_apart m a n b h =
    load64_same m (fill m a n) b λ x lo hi. fill-Outside m a n x (omega arith)
