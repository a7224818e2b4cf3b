-- ===== src/Field/Total.antt =====
-- The product of a field and its reduction have a result for all numbers (runtime/xiom_runtime.c, 8125 to 8287 and
-- 8662 to 8667). A sum or difference of words is a word, whatever its parts.
use stdlib.Base.{
  ℕ, zero, suc, ◌+◌, ◌-◌, ◌*◌, ◌/◌, ◌%◌, ◌≤◌, ◌<◌, inl, inr, true, false, Bool, List, [], ◌∷◌,
  arith, ◌==◌, ltb, if◌then◌else◌, get_or, set, some, replicate, not, ◌||◌, Option-cases, if_either,
}
use stdlib.Base.Chain.{Yields}
use stdlib.Field.{
  Limbs, word, full, bit, addc2, subb2, add_raw, sub_raw, mod_add, mod_sub, mul_step, mul_row,
  mul_rows, mul_raw, limb_list, cmp, at_least_zero,
}
use stdlib.Field.Carry.{value, IsLimbs, value-lt}
use stdlib.Field.Reduce.{
  propagate, fold_limb, fold_limbs, subtract_down, reduce, Down, subtract_down-Down,
}

bit-le : (b : Bool) → bit b ≤ 1
bit-le true = omega arith
bit-le false = omega arith

pub addc2-word : (a b c : ℕ) → (addc2 a b c).0 < word
unfolding addc2
addc2-word a b c = omega arith

addc2-carry : (a b c : ℕ) → (addc2 a b c).1 < word
unfolding addc2
addc2-carry a b c = omega (
  arith,
  bit-le (ltb ((a + c) % word) a),
  bit-le (ltb (((a + c) % word + b) % word) ((a + c) % word)),
)

subb2-word : (a b c : ℕ) → (subb2 a b c).0 < word
unfolding subb2
subb2-word a b c = omega arith

add_raw-IsLimbs : (a b : Limbs) → IsLimbs (add_raw a b).0
unfolding add_raw
add_raw-IsLimbs a b = record {
  lt0 = addc2-word _ _ _;
  lt1 = addc2-word _ _ _;
  lt2 = addc2-word _ _ _;
  lt3 = addc2-word _ _ _;
}

sub_raw-IsLimbs : (a b : Limbs) → IsLimbs (sub_raw a b).0
unfolding sub_raw
sub_raw-IsLimbs a b = record {
  lt0 = subb2-word _ _ _;
  lt1 = subb2-word _ _ _;
  lt2 = subb2-word _ _ _;
  lt3 = subb2-word _ _ _;
}

-- A list of words.
abbrev pub Words : List ℕ → Type 0
Words xs = (i : ℕ) → get_or xs i 0 < word

pub set-Words : (xs : List ℕ) (i v : ℕ) → Words xs → v < word → Words (set xs i v)
set-Words [] i v h hv j = h j
set-Words (x ∷ xs) zero v h hv zero = hv
set-Words (x ∷ xs) zero v h hv (suc j) = h (suc j)
set-Words (x ∷ xs) (suc i) v h hv zero = h 0
set-Words (x ∷ xs) (suc i) v h hv (suc j) = set-Words xs i v (λ k. h (suc k)) hv j

carried-Words : (left : ℕ) (w : List ℕ) (j carry : ℕ) → Words w → Words (propagate left w j carry)
unfolding propagate
carried-Words zero w j carry h = h
carried-Words (suc left) w j carry h =
    if_either Words (carry == 0) h
      (carried-Words left _ (j + 1) _ (set-Words w j _ h (addc2-word (get_or w j 0) 0 carry)))

fold_limb-Words : (r256 : ℕ) (w : List ℕ) (i : ℕ) → Words w → Words (fold_limb r256 w i)
unfolding fold_limb
fold_limb-Words r256 w i h =
    let low =
      set-Words w (i - 4) _ h (addc2-word (get_or w (i - 4) 0) (get_or w i 0 * r256 % word) 0) in
    if_either Words (get_or w i 0 == 0) h (
      set-Words _ i 0
        (if_either Words (get_or w i 0 * r256 / word == 0)
          (carried-Words (6 - (i - 4)) _ (i - 4 + 2) _ low)
          (carried-Words (6 - (i - 4)) _ (i - 4 + 2) _
            (set-Words _ (i - 4 + 1) _ low (addc2-word _ _ _))))
        (omega arith))

fold_limbs-Words : (r256 : ℕ) (w : List ℕ) → Words w → Words (fold_limbs r256 w)
fold_limbs-Words r256 w h =
    fold_limb-Words r256 _ 7
      (fold_limb-Words r256 _ 6 (fold_limb-Words r256 _ 5 (fold_limb-Words r256 w 4 h)))

mul_row-Words :
    (x : List ℕ) (ai : ℕ) (bs : List ℕ) (idx carry : ℕ)
    → Words x
    → carry < word
    → Words (mul_row x ai bs idx carry)
unfolding mul_row
mul_row-Words x ai [] idx carry h hc = if_either Words (ltb idx 8) (set-Words x idx carry h hc) h
mul_row-Words x ai (bj ∷ bs) idx carry h hc =
    let low = set-Words x idx _ h (addc2-word (get_or x idx 0) (ai * bj % word) carry) in
    let step : Words (mul_step x ai bj idx carry).0 × ((mul_step x ai bj idx carry).1 < word) =
      if_either (λ (s : List ℕ × ℕ). Words s.0 × (s.1 < word)) (ltb (idx + 1) 8)
        (set-Words _ (idx + 1) _ low (addc2-word _ _ _), addc2-carry _ _ _)
        (low, addc2-carry _ _ _) in
    mul_row-Words (mul_step x ai bj idx carry).0 ai bs (idx + 1) _ step.0 step.1

mul_rows-Words : (x rest bs : List ℕ) (i : ℕ) → Words x → Words (mul_rows x rest bs i)
unfolding mul_rows
mul_rows-Words x [] bs i h = h
mul_rows-Words x (a ∷ rest) bs i h =
    mul_rows-Words (if a == 0 then x else mul_row x a bs i 0) rest bs (i + 1)
      (if_either Words (a == 0) h (mul_row-Words x a bs i 0 h (omega arith)))

pub replicate-Words : (n : ℕ) → Words (replicate n 0)
replicate-Words zero i = omega arith
replicate-Words (suc n) zero = omega arith
replicate-Words (suc n) (suc i) = replicate-Words n i

pub mul_raw-Words : (a b : Limbs) → Words (mul_raw a b)
unfolding mul_raw
mul_raw-Words a b = mul_rows-Words _ (limb_list a) (limb_list b) 0 (replicate-Words 8)

-- A number below the modulus.
abbrev pub Below : Limbs → Limbs → Type 0
Below p r = IsLimbs r × (value r < value p)

-- The last subtractions end where the fuel covers the whole range of the limbs.
pub subtract_down-Below :
    (fuel : ℕ) (r p : Limbs)
    → IsLimbs r
    → IsLimbs p
    → full ≤ fuel * value p
    → Yields (Below p) (subtract_down fuel r p)
subtract_down-Below fuel r p hr hp large =
    let down = subtract_down-Down fuel r p hr hp (omega (arith, value-lt r hr)) in
    elim (Option-cases (subtract_down fuel r p)) [
      | inl gone ↦ absurd (rw gone at down)
      | inr (q, got) ↦
          let kept : Down (value r) p (some q) = rw got at down in rw got (kept.0, kept.1)
    ]

-- The reduction of eight words has a result, below the modulus.
pub reduce-Below :
    (x : List ℕ) (p : Limbs) (r256 : ℕ)
    → Words x
    → IsLimbs p
    → full ≤ 3 * value p
    → Yields (Below p) (reduce x p r256)
unfolding reduce
reduce-Below x p r256 h hp large =
    let low = fold_limbs-Words r256 _ (fold_limbs-Words r256 _ (fold_limbs-Words r256 x h)) in
    subtract_down-Below 3 _ p (record { lt0 = low 0; lt1 = low 1; lt2 = low 2; lt3 = low 3 }) hp
      large

pub mod_add-IsLimbs : (a b p : Limbs) → IsLimbs (mod_add a b p)
unfolding mod_add
mod_add-IsLimbs a b p =
    if_either IsLimbs (not ((add_raw a b).1 == 0) || at_least_zero (cmp (add_raw a b).0 p))
      (sub_raw-IsLimbs (add_raw a b).0 p) (add_raw-IsLimbs a b)

pub mod_sub-IsLimbs : (a b p : Limbs) → IsLimbs (mod_sub a b p)
unfolding mod_sub
mod_sub-IsLimbs a b p =
    if_either IsLimbs ((sub_raw a b).1 == 0) (sub_raw-IsLimbs a b)
      (add_raw-IsLimbs (sub_raw a b).0 p)
