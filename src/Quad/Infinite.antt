-- ===== src/Quad/Infinite.antt =====
-- The sum and difference of infinities (runtime/fp128_helpers.c, 80 to 90).
use stdlib.Base.{
  ℕ, zero, suc, ◌+◌, ◌*◌, ◌%◌, ◌^◌, ◌<◌, ◌≡◌, refl, false, some, arith, ◌==◌, if◌then◌else◌,
}
use stdlib.Quad.{F128, isnan, isinf}
use stdlib.Quad.Arith.{addsub, nan_of}

-- The infinity of the sign `s`.
abbrev pub infinity : ℕ → F128
infinity s = record { lo = 0; hi = s * 2 ^ 63 + 0x7FFF000000000000 }

-- Of two infinities, the sum is a NaN when the signs are equal and the first when they differ, and the
-- difference is a NaN when the signs differ and the first when they are equal.
pub addsub_infinite :
    (s t subtract : ℕ)
    → s < 2
    → t < 2
    → subtract < 2
    → addsub (infinity s) (infinity t) subtract
      ≡ some (if (s + t) % 2 == subtract then nan_of (infinity s) else infinity s)
unfolding addsub isnan isinf
addsub_infinite zero zero zero hs ht hm = refl
addsub_infinite zero zero (suc zero) hs ht hm = refl
addsub_infinite zero (suc zero) zero hs ht hm = refl
addsub_infinite zero (suc zero) (suc zero) hs ht hm = refl
addsub_infinite (suc zero) zero zero hs ht hm = refl
addsub_infinite (suc zero) zero (suc zero) hs ht hm = refl
addsub_infinite (suc zero) (suc zero) zero hs ht hm = refl
addsub_infinite (suc zero) (suc zero) (suc zero) hs ht hm = refl
addsub_infinite (suc (suc s)) t m hs ht hm = absurd (omega arith)
addsub_infinite zero (suc (suc t)) m hs ht hm = absurd (omega arith)
addsub_infinite (suc zero) (suc (suc t)) m hs ht hm = absurd (omega arith)
addsub_infinite zero zero (suc (suc m)) hs ht hm = absurd (omega arith)
addsub_infinite zero (suc zero) (suc (suc m)) hs ht hm = absurd (omega arith)
addsub_infinite (suc zero) zero (suc (suc m)) hs ht hm = absurd (omega arith)
addsub_infinite (suc zero) (suc zero) (suc (suc m)) hs ht hm = absurd (omega arith)

-- A finite number and an infinity give that infinity, its sign kept in the difference too.
pub addsub_infinite_right :
    (f : F128) (t subtract : ℕ)
    → isnan f ≡ false
    → isinf f ≡ false
    → t < 2
    → addsub f (infinity t) subtract ≡ some (infinity t)
unfolding addsub
addsub_infinite_right f zero m number finite ht = rw (number, finite) (unfold isnan isinf in refl)
addsub_infinite_right f (suc zero) m number finite ht =
    rw (number, finite) (unfold isnan isinf in refl)
addsub_infinite_right f (suc (suc t)) m number finite ht = absurd (omega arith)
