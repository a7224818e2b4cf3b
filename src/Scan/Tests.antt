-- ===== src/Scan/Tests.antt =====
-- Runs of the counts of ones and zeros (runtime/xiom_runtime.c, 5412 to 5470), and the theorems about them at
-- concrete inputs.
use stdlib.Base.{◌≡◌, refl, arith}
use stdlib.Scan.{clz64, ctz64, popcnt64}
use stdlib.Scan.Ones.{ones, popcnt64-ones}

clz_of_48 : clz64 48 ≡ 58
unfolding clz64
clz_of_48 = refl

ctz_of_48 : ctz64 48 ≡ 4
unfolding ctz64
ctz_of_48 = refl

popcnt_of_all : popcnt64 0xFFFFFFFFFFFFFFFF ≡ 64
unfolding popcnt64
popcnt_of_all = refl

popcnt64-ones_example : popcnt64 0xF00000000000000F ≡ ones 64 0xF00000000000000F
popcnt64-ones_example = popcnt64-ones 0xF00000000000000F (omega arith)
