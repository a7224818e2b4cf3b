-- ===== src/Field/Stops.antt =====
-- The inverses terminate, with a result in range (runtime/xiom_runtime.c, 8295 to 8398 and 8674 to 8755).
use stdlib.Base.{
  ℕ, zero, suc, ◌+◌, ◌*◌, ◌%◌, ◌≤◌, ◌<◌, ◌≡◌, inl, inr, false, Option, none, some, arith,
  Bool-cases, Option-cases,
}
use stdlib.Base.Chain.{Yields, chained}
use stdlib.Field.{Limbs, sub_raw, cmp, is_zero, at_least_zero, full, secp256k1_p}
use stdlib.Field.Carry.{value, IsLimbs, sub_raw_lem, value-lt, cmp_lem}
use stdlib.Field.Modular.{at_least, below}
use stdlib.Field.Negate.{from_u64, ed25519_p}
use stdlib.Field.Reduce.{subtract_down, Down, subtract_down-Down}
use stdlib.Field.Halving.{odd_half-IsLimbs, odd_half_sum-IsLimbs}
use stdlib.Field.Inverse.{
  odd_half, odd_half_sum, pair_of, Euclid, mod_diff, subtract_pair, euclid_step, euclid_loop,
  chosen, inverse_reduced, inverse, secp256k1_inv, ed25519_inv,
}
use stdlib.Field.Strips.{Stripped, strip-Ends}

pub record IsEuclid (s : Euclid) : Type 0 where
  pub u : IsLimbs s.u
  pub v : IsLimbs s.v
  pub x1 : IsLimbs s.x1
  pub x2 : IsLimbs s.x2

mod_diff-IsLimbs : (p x y : Limbs) → IsLimbs p → IsLimbs x → IsLimbs y → IsLimbs (mod_diff p x y)
unfolding mod_diff
mod_diff-IsLimbs p x y hp hx hy = elim (Bool-cases (at_least_zero (cmp x y))) [
  | inl more ↦ rw more (sub_raw_lem x y hx hy).1
  | inr less ↦ rw less (sub_raw_lem p (sub_raw y x).0 hp (sub_raw_lem y x hy hx).1).1
]

difference :
    (x y : Limbs)
    → IsLimbs x
    → IsLimbs y
    → value y ≤ value x
    → value (sub_raw x y).0 + value y ≡ value x
difference x y hx hy le =
    let diff = sub_raw_lem x y hx hy in
    let top = value-lt (sub_raw x y).0 diff.1 in
    let top' = value-lt x hx in omega (arith, diff.0, diff.2)

-- The sum of the two numbers falls by the one that is taken away.
subtract_pair_lem :
    (p : Limbs) (s : Euclid)
    → IsLimbs p
    → IsEuclid s
    → 0 < value s.u
    → 0 < value s.v
    → IsEuclid (subtract_pair p s)
      × (value (subtract_pair p s).u + value (subtract_pair p s).v < value s.u + value s.v)
unfolding subtract_pair
subtract_pair_lem p s hp h pu pv = elim (Bool-cases (at_least_zero (cmp s.u s.v))) [
  | inl more ↦
      let over = at_least _ _ _ (cmp_lem s.u s.v h.u h.v) more in
      let fall = difference s.u s.v h.u h.v over in
      rw more (
        record {
          u = (sub_raw_lem s.u s.v h.u h.v).1;
          v = h.v;
          x1 = mod_diff-IsLimbs p s.x1 s.x2 hp h.x1 h.x2;
          x2 = h.x2;
        },
        omega (arith, fall),
      )
  | inr less ↦
      let under = below _ _ _ (cmp_lem s.u s.v h.u h.v) less in
      let fall = difference s.v s.u h.v h.u (omega arith) in
      rw less (
        record {
          u = h.u;
          v = (sub_raw_lem s.v s.u h.v h.u).1;
          x1 = h.x1;
          x2 = mod_diff-IsLimbs p s.x2 s.x1 hp h.x2 h.x1;
        },
        omega (arith, fall),
      )
]

nonzero : (a : Limbs) → is_zero a ≡ false → 0 < value a
unfolding is_zero
nonzero a h = ground arith

odd_positive : (a : Limbs) → a.w0 % 2 ≡ 1 → 0 < value a
odd_positive a h = omega arith

-- A loop that ended, in the range of the numbers.
abbrev Ended : Option Euclid → Type 0
Ended = Yields IsEuclid

-- A result in the range of the modulus.
abbrev pub InRange : Limbs → Option Limbs → Type 0
InRange p none = ⊥
InRange p (some r) = IsLimbs r × (value r < value p)

module _ (half : Limbs → Limbs) (keeps : (x : Limbs) → IsLimbs x → IsLimbs (half x)) (p : Limbs)
    (hp : IsLimbs p) where
  -- A turn ends, and the sum of the two numbers falls.
  abbrev Turned : Euclid → Euclid → Type 0
  Turned s t = IsEuclid t × (value t.u + value t.v < value s.u + value s.v)

  euclid_step_lem :
      (s : Euclid)
      → IsEuclid s
      → 0 < value s.u
      → 0 < value s.v
      → Yields (Turned s) (euclid_step half p s)
  unfolding euclid_step
  euclid_step_lem s h pu pv =
      let fits = value-lt s.u h.u in
      let fits' = value-lt s.v h.v in
      chained (Stripped s.u) (Turned s) _ _
        (strip-Ends half keeps 256 s.u s.x1 h.u h.x1 pu (omega (arith, fits)))
        (λ left hl.
          chained (Stripped s.v) (Turned s) _ _
            (strip-Ends (odd_half p) (λ x hx. odd_half-IsLimbs p x hp hx) 256 s.v s.x2 h.v h.x2 pv
              (omega (arith, fits')))
            (λ right hr.
              let next : IsEuclid (pair_of left right) = record {
                u = hl.number;
                v = hr.number;
                x1 = hl.coefficient;
                x2 = hr.coefficient;
              } in
              let (kept, fall) =
                subtract_pair_lem p (pair_of left right) hp next (odd_positive left.0 hl.odd)
                  (odd_positive right.0 hr.odd) in
              (kept, omega (arith, fall, hl.smaller, hr.smaller))))

  euclid_loop-Ended :
      (fuel : ℕ) (s : Euclid)
      → IsEuclid s
      → value s.u + value s.v < fuel
      → Ended (euclid_loop half p fuel s)
  unfolding euclid_loop
  euclid_loop-Ended zero s h small = absurd (omega arith)
  euclid_loop-Ended (suc fuel) s h small = elim (Bool-cases (is_zero s.u)) [
    | inl done ↦ rw done h
    | inr left ↦ elim (Bool-cases (is_zero s.v)) [
      | inl done ↦ rw (left, done) h
      | inr right ↦
          rw (left, right)
            (chained (Turned s) IsEuclid (euclid_step half p s) (euclid_loop half p fuel)
              (euclid_step_lem s h (nonzero s.u left) (nonzero s.v right))
              (λ t turned. euclid_loop-Ended fuel t turned.0 (omega (arith, turned.1))))
    ]
  ]

  module _ (large : full ≤ 3 * value p) where
    down-InRange : (r : Limbs) → IsLimbs r → InRange p (subtract_down 3 r p)
    down-InRange r hr =
        let top = value-lt r hr in
        let down = subtract_down-Down 3 r p hr hp (omega arith) in
        elim (Option-cases (subtract_down 3 r p)) [
          | inl gone ↦ absurd (rw gone at down)
          | inr (q, got) ↦
              let kept : Down (value r) p (some q) = rw got at down in rw got (kept.0, kept.1)
        ]

    chosen-InRange : (o : Option Euclid) → Ended o → InRange p (chosen p o)
    unfolding chosen
    chosen-InRange none h = h
    chosen-InRange (some s) h = elim (Bool-cases (is_zero s.u)) [
      | inl gone ↦ rw gone (down-InRange s.x2 h.x2)
      | inr left ↦ rw left (down-InRange s.x1 h.x1)
    ]

    reduced-InRange : (o : Option Limbs) → InRange p o → InRange p (inverse_reduced half p o)
    unfolding inverse_reduced
    reduced-InRange none h = h
    reduced-InRange (some u) h = elim (Bool-cases (is_zero u)) [
      | inl nothing ↦ rw nothing (
        record { lt0 = omega arith; lt1 = omega arith; lt2 = omega arith; lt3 = omega arith },
        omega arith,
      )
      | inr something ↦
          let top = value-lt p hp in
          let start : Euclid = record { u = u; v = p; x1 = from_u64 1; x2 = from_u64 0 } in
          let limbs : IsEuclid start = record {
            u = h.0;
            v = hp;
            x1 = record {
              lt0 = omega arith;
              lt1 = omega arith;
              lt2 = omega arith;
              lt3 = omega arith;
            };
            x2 = record {
              lt0 = omega arith;
              lt1 = omega arith;
              lt2 = omega arith;
              lt3 = omega arith;
            };
          } in
          rw something
            (chosen-InRange _ (euclid_loop-Ended (full + full) start limbs (omega arith)))
    ]

    pub inverse-InRange : (a : Limbs) → IsLimbs a → InRange p (inverse half p a)
    unfolding inverse
    inverse-InRange a ha = reduced-InRange (subtract_down 3 a p) (down-InRange a ha)

p-IsLimbs : IsLimbs secp256k1_p × IsLimbs ed25519_p
p-IsLimbs = omega arith

-- Both inverses end for every number of four limbs, with a result below the prime.
pub inv-InRange :
    (a : Limbs)
    → IsLimbs a
    → InRange secp256k1_p (secp256k1_inv a) × InRange ed25519_p (ed25519_inv a)
inv-InRange a ha = (
  inverse-InRange (odd_half_sum secp256k1_p)
      (λ x hx. odd_half_sum-IsLimbs secp256k1_p x p-IsLimbs.0 hx) secp256k1_p p-IsLimbs.0
      (omega arith) a ha,
  inverse-InRange (odd_half ed25519_p) (λ x hx. odd_half-IsLimbs ed25519_p x p-IsLimbs.1 hx)
      ed25519_p p-IsLimbs.1 (omega arith) a ha,
)
