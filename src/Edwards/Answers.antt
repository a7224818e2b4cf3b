-- ===== src/Edwards/Answers.antt =====
-- A verification answers, and a signing has a result, for all bytes (runtime/xiom_runtime.c, 8876 to 9130).
use stdlib.Base.{ℕ, ◌≤◌, Bool, Option, none, some, List, arith, ◌==◌, ◌&&◌, if_either}
use stdlib.Base.Chain.{◌>>=◌, Yields, chained, Present}
use stdlib.Field.{Limbs, eq}
use stdlib.Field.Carry.{IsLimbs}
use stdlib.Field.Total.{Below, addc2-word, subtract_down-Below}
use stdlib.Edwards.{base, ed25519_bx, ed25519_by}
use stdlib.Edwards.Order.{ed25519_l, low_sum, order_pass, reduce_order, all_zero}
use stdlib.Edwards.Total.{
  Usable, Coordinates, extended-Usable, scalar_mul-Usable, pt_add-Usable, to_affine-Coordinates,
  recover_x-Present,
}
use stdlib.Edwards.Signing.{
  base_bytes, response, answered, committed, sign, decode_point, checked, verify_points, verify,
}

low_sum-IsLimbs : (w tmp : List ℕ) → IsLimbs (low_sum w tmp).0
unfolding low_sum
low_sum-IsLimbs w tmp = record {
  lt0 = addc2-word _ _ _;
  lt1 = addc2-word _ _ _;
  lt2 = addc2-word _ _ _;
  lt3 = addc2-word _ _ _;
}

order_pass-IsLimbs : (w : List ℕ) → IsLimbs (order_pass w).0
unfolding order_pass
order_pass-IsLimbs w = low_sum-IsLimbs _ _

-- The reduction modulo the order has a result, below the order.
pub reduce_order-Below : (x : List ℕ) → Yields (Below ed25519_l) (reduce_order x)
unfolding reduce_order
reduce_order-Below x =
    subtract_down-Below 16 _ ed25519_l
      (if_either IsLimbs (((order_pass x).1 == 0) && all_zero (order_pass x).2)
        (order_pass-IsLimbs x) (order_pass-IsLimbs _))
      (record { lt0 = omega arith; lt1 = omega arith; lt2 = omega arith; lt3 = omega arith })
      (omega arith)

-- A reduction, and what is done with it.
order_then :
    {B : Type 0} (Q : B → Type 0) (x : List ℕ) (f : Limbs → Option B)
    → ((r : Limbs) → Yields Q (f r))
    → Yields Q (reduce_order x >>= f)
order_then Q x f next =
    chained (Below ed25519_l) Q (reduce_order x) f (reduce_order-Below x) (λ r _. next r)

pub base_bytes-Present : (s : List ℕ) → Yields Present (base_bytes s)
unfolding base_bytes
base_bytes-Present s = chained Usable Present base _ (extended-Usable ed25519_bx ed25519_by) (λ b _.
    chained Usable Present _ _ (scalar_mul-Usable s b)
      (λ p hp. chained Coordinates Present _ _ (to_affine-Coordinates p hp) (λ (x, y) _. tt)))

pub response-Present : (k r scalar : List ℕ) → Yields Present (response k r scalar)
unfolding response
response-Present k r scalar = order_then Present _ _ (λ k_mod.
    order_then Present _ _
      (λ a_mod. order_then Present _ _ (λ r_mod. order_then Present _ _ (λ product. tt))))

answered-Present :
    (allocated : ℕ → Bool) (msg scalar sig a_enc r_enc : List ℕ)
    → Yields Present (answered allocated msg scalar sig a_enc r_enc)
unfolding answered
answered-Present allocated msg scalar sig a_enc r_enc =
    if_either (Yields Present) (allocated 1)
      (chained Present Present _ _ (response-Present _ _ scalar) (λ s _. tt)) tt

sign-Present :
    (allocated : ℕ → Bool) (msg privkey sig : List ℕ)
    → Yields Present (sign allocated msg privkey sig)
unfolding sign committed
sign-Present allocated msg privkey sig =
    chained Present Present _ _ (base_bytes-Present _) (λ a_enc _.
      if_either (Yields Present) (allocated 0)
        (chained Present Present _ _ (base_bytes-Present _)
          (λ r_enc _. answered-Present allocated msg _ sig a_enc r_enc))
        tt)

decode_point-Present : (bytes : List ℕ) → Yields Present (decode_point bytes)
unfolding decode_point
decode_point-Present bytes = chained Present Present _ _ (recover_x-Present _ _) (λ found _. tt)

-- 0 or 1
abbrev pub Answer : ℕ → Type 0
Answer n = n ≤ 1

checked-Answer :
    (k_hash s_data : List ℕ) (r a : Limbs × Limbs) → Yields Answer (checked k_hash s_data r a)
unfolding checked
checked-Answer k_hash s_data (rx, ry) (ax, ay) = order_then Answer _ _ (λ k_mod.
    order_then Answer _ _ (λ s_mod. chained Usable Answer _ _ (extended-Usable rx ry) (λ r_pt _.
      chained Usable Answer _ _ (extended-Usable ax ay) (λ a_pt _.
        chained Usable Answer base _ (extended-Usable ed25519_bx ed25519_by) (λ b _.
          chained Usable Answer _ _ (scalar_mul-Usable _ b) (λ sg _.
            chained Usable Answer _ _ (scalar_mul-Usable _ a_pt) (λ ka _.
              chained Usable Answer _ _ (pt_add-Usable sg _) (λ sum hs.
                chained Coordinates Answer _ _ (to_affine-Coordinates sum hs) (λ (sx, sy) _.
                  if_either Answer (eq sx rx && eq sy ry) (omega arith) (omega arith))))))))))

verify_points-Answer :
    (allocated : ℕ → Bool) (msg key sig : List ℕ) (r : Option (Limbs × Limbs))
    (a : Option (Option (Limbs × Limbs)))
    → Yields Present a
    → Yields Answer (verify_points allocated msg key sig r a)
unfolding verify_points
verify_points-Answer allocated msg key sig none a h = omega arith
verify_points-Answer allocated msg key sig (some r) none h = absurd h
verify_points-Answer allocated msg key sig (some r) (some none) h = omega arith
verify_points-Answer allocated msg key sig (some r) (some (some a)) h =
    if_either (Yields Answer) (allocated 0) (checked-Answer _ _ r a) (omega arith)

-- Every verification ends and returns 0 or 1, and every signing ends, whatever the message, the key, the signature
-- and the memory.
pub verify-Answer :
    (allocated : ℕ → Bool) (msg key sig : List ℕ)
    → Yields Answer (verify allocated msg key sig) × Yields Present (sign allocated msg key sig)
unfolding verify
verify-Answer allocated msg key sig = (
  chained Present Answer _ _ (decode_point-Present sig)
      (λ r _. verify_points-Answer allocated msg key sig r _ (decode_point-Present key)),
  sign-Present allocated msg key sig,
)
