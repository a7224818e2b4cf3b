-- ===== src/Digest/Chunks.antt =====
-- The blocks of a padded message, taken one after another, and the list lemmas that the padding needs
-- (runtime/xiom_runtime.c, 8549 to 8573).
use stdlib.Base.{
  ℕ, zero, suc, ◌+◌, ◌-◌, ◌/◌, ◌%◌, ◌^◌, ◌≤◌, ◌<◌, ◌≡◌, refl, ap, ◌∙◌, inl, inr, List, [], ◌∷◌,
  ◌++◌, leb, arith, Bool-cases, length, set, take, drop, replicate, length-append, length-drop,
}
use stdlib.Digest.{Hash, transform, whole_blocks, put_length, bytes_of}

module _ {ℓ} {A : Type ℓ} where
  pub take-append : (n : ℕ) (xs ys : List A) → n ≤ length xs → take n (xs ++ ys) ≡ take n xs
  take-append zero xs ys h = refl
  take-append (suc n) [] ys h = absurd (omega arith)
  take-append (suc n) (x ∷ xs) ys h = ap (λ t. x ∷ t) (take-append n xs ys (omega arith))

  pub drop-append : (n : ℕ) (xs ys : List A) → n ≤ length xs → drop n (xs ++ ys) ≡ drop n xs ++ ys
  drop-append zero xs ys h = refl
  drop-append (suc n) [] ys h = absurd (omega arith)
  drop-append (suc n) (x ∷ xs) ys h = drop-append n xs ys (omega arith)

  pub take-all : (n : ℕ) (xs : List A) → n ≡ length xs → take n xs ≡ xs
  take-all zero [] h = refl
  take-all zero (x ∷ xs) h = absurd (omega arith)
  take-all (suc n) [] h = absurd (omega arith)
  take-all (suc n) (x ∷ xs) h = ap (λ t. x ∷ t) (take-all n xs (omega arith))

  pub drop-all : (n : ℕ) (xs : List A) → n ≡ length xs → drop n xs ≡ []
  drop-all zero [] h = refl
  drop-all zero (x ∷ xs) h = absurd (omega arith)
  drop-all (suc n) [] h = absurd (omega arith)
  drop-all (suc n) (x ∷ xs) h = drop-all n xs (omega arith)

  pub replicate-add : (m n : ℕ) (v : A) → replicate (m + n) v ≡ replicate m v ++ replicate n v
  replicate-add zero n v = let e : 0 + n ≡ n = omega arith in rw e refl
  replicate-add (suc m) n v =
      let e : suc m + n ≡ suc (m + n) = omega arith in rw e (ap (λ t. v ∷ t) (replicate-add m n v))

  pub set-append :
      (xs ys : List A) (i j : ℕ) (v : A) → i ≡ length xs + j → set (xs ++ ys) i v ≡ xs ++ set ys j v
  set-append [] ys i j v h = let e : i ≡ j = omega arith in rw e refl
  set-append (x ∷ xs) ys zero j v h = absurd (omega arith)
  set-append (x ∷ xs) ys (suc i) j v h = ap (λ t. x ∷ t) (set-append xs ys i j v (omega arith))

-- The blocks of a list of bytes, as many as the count, go through the transform in their order.
unfoldable pub absorb : ℕ → Hash → List ℕ → Hash
absorb zero s bytes = s
absorb (suc n) s bytes = absorb n (transform s (take 128 bytes)) (drop 128 bytes)

pub absorb-suc :
    (n : ℕ) (s : Hash) (bytes : List ℕ)
    → absorb (suc n) s bytes ≡ absorb n (transform s (take 128 bytes)) (drop 128 bytes)
unfolding absorb
absorb-suc n s bytes = refl

-- The whole blocks of the message, and the rest, before any tail that completes it.
pub record Left (tail : List ℕ) (s : Hash) (msg : List ℕ) (r : Hash × List ℕ) : Type 0 where
  pub short : length r.1 < 128
  pub same_length : length r.1 ≡ length msg % 128
  pub absorbed :
      absorb (length (msg ++ tail) / 128) s (msg ++ tail)
      ≡ absorb (length (r.1 ++ tail) / 128) r.0 (r.1 ++ tail)

pub whole_blocks-Left :
    (fuel : ℕ) (tail : List ℕ) (s : Hash) (msg : List ℕ)
    → length msg ≤ fuel
    → Left tail s msg (whole_blocks fuel s msg)
unfolding whole_blocks
whole_blocks-Left zero tail s msg h = record {
  short = omega arith;
  same_length = omega arith;
  absorbed = refl;
}
whole_blocks-Left (suc fuel) tail s msg h = elim (Bool-cases (leb 128 (length msg))) [
  | inr small ↦
      let less : length msg < 128 = ground arith in
      rw small (record { short = less; same_length = omega arith; absorbed = refl })
  | inl large ↦
      let more : 128 ≤ length msg = ground arith in
      let rest = drop 128 msg in
      let shorter = length-drop {0} 128 msg in
      let next = whole_blocks-Left fuel tail (transform s (take 128 msg)) rest (omega arith) in
      let blocks : length (msg ++ tail) / 128 ≡ suc (length (rest ++ tail) / 128) =
        omega (arith, length-append {0} msg tail, length-append {0} rest tail, shorter) in
      let first : absorb (length (msg ++ tail) / 128) s (msg ++ tail)
          ≡ absorb (length (rest ++ tail) / 128) (transform s (take 128 msg)) (rest ++ tail) =
        rw blocks (
          absorb-suc (length (rest ++ tail) / 128) s (msg ++ tail)
          ∙ rw (take-append 128 msg tail more, drop-append 128 msg tail more) refl) in
      rw large (record {
        short = next.short;
        same_length = omega (arith, next.same_length, shorter);
        absorbed = first ∙ next.absorbed;
      })
]

-- The writes of the length touch the last eight bytes only.
tail_length : ℕ → ℕ → ℕ → List ℕ → List ℕ
tail_length zero i bitlen q = q
tail_length (suc turns) i bitlen q =
    tail_length turns (i + 1) (bitlen / 2 ^ 8) (set q (7 - i) (bitlen % 2 ^ 8))

put_length-append :
    (turns i bitlen : ℕ) (p q : List ℕ)
    → length p ≡ 120
    → i + turns ≤ 8
    → put_length turns i bitlen (p ++ q) ≡ p ++ tail_length turns i bitlen q
unfolding put_length tail_length
put_length-append zero i bitlen p q hp h = refl
put_length-append (suc turns) i bitlen p q hp h =
    ap (put_length turns (i + 1) (bitlen / 2 ^ 8))
      (set-append p q (127 - i) (7 - i) (bitlen % 2 ^ 8) (omega arith))
    ∙ put_length-append turns (i + 1) (bitlen / 2 ^ 8) p (set q (7 - i) (bitlen % 2 ^ 8)) hp
        (omega arith)

-- Eight writes put the bytes of the length behind the first 120 bytes.
pub put_length_lem :
    (bitlen : ℕ) (p : List ℕ)
    → length p ≡ 120
    → put_length 8 0 bitlen (p ++ replicate 8 0) ≡ p ++ bytes_of bitlen
put_length_lem bitlen p hp =
    put_length-append 8 0 bitlen p (replicate 8 0) hp (omega arith)
    ∙ ap (λ t. p ++ t) (eight bitlen)
  where
    eight : (b : ℕ) → tail_length 8 0 b (replicate 8 0) ≡ bytes_of b
    eight b =
        let w1 : b / 2 ^ 8 / 2 ^ 8 ≡ b / 2 ^ 16 = omega arith in
        let w2 : b / 2 ^ 16 / 2 ^ 8 ≡ b / 2 ^ 24 = omega arith in
        let w3 : b / 2 ^ 24 / 2 ^ 8 ≡ b / 2 ^ 32 = omega arith in
        let w4 : b / 2 ^ 32 / 2 ^ 8 ≡ b / 2 ^ 40 = omega arith in
        let w5 : b / 2 ^ 40 / 2 ^ 8 ≡ b / 2 ^ 48 = omega arith in
        let w6 : b / 2 ^ 48 / 2 ^ 8 ≡ b / 2 ^ 56 = omega arith in
        (unfold tail_length in rw (w1, w2, w3, w4, w5, w6) refl)
