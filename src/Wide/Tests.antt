-- ===== src/Wide/Tests.antt =====
-- Runs of the 128-bit division (runtime/xiom_runtime.c, 9169 to 9216), and the theorems about it at
-- concrete inputs.
use stdlib.Base.{◌+◌, ◌-◌, ◌/◌, ◌≡◌, refl, some, arith}
use stdlib.Base.Int.{pos, negsuc}
use stdlib.Wide.{full, half, udivti3, modti3, multi3}
use stdlib.Wide.Quotient.{udivti3_lem}
use stdlib.Wide.Remainder.{modti3_lem, multi3_lem}

-- A divisor above 2^127, where the remainder needs the 129th bit.
udivti3_lem_example : udivti3 (full - 1) (half + 3) ≡ (full - 1) / (half + 3)
udivti3_lem_example = udivti3_lem (full - 1) (half + 3) (omega arith) (omega arith) (omega arith)

modti3_lem_example : modti3 (negsuc 6) (pos 2) ≡ some (negsuc 0)
modti3_lem_example = modti3_lem (negsuc 6) (pos 2) refl refl (omega arith) (omega arith)

multi3_lem_example : multi3 (negsuc 6) (pos 3) ≡ negsuc 20
multi3_lem_example = multi3_lem (negsuc 6) (pos 3) refl refl refl
