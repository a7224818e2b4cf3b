-- ===== src/Base/Check.antt =====
-- A property of the small numbers is checked at each of them, from the largest down.
use Prim.Native.Nat.{ℕ, zero, suc, ◌<◌}
use mathlib.Core.Path.{◌≡◌}
use mathlib.Core.Bool.{Bool, true, false}
use native.Mathlib.Omega.{arith}
use stdlib.Base.Tests.{if◌then◌else◌}

unfoldable pub every : (ℕ → Bool) → ℕ → Bool
every p zero = true
every p (suc bound) = let smaller = every p bound in if p bound then smaller else false

pub every_sound : (p : ℕ → Bool) (bound x : ℕ) → x < bound → every p bound ≡ true → p x ≡ true
unfolding every
every_sound p zero x small checked = elim small [ ]
every_sound p (suc bound) x small checked = ground (arith, every_sound p bound x)
