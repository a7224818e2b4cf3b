-- ===== src/Quad/Tests.antt =====
-- Runs of the quadruple-precision functions (runtime/fp128_helpers.c), and the theorems about them at concrete
-- inputs.
use stdlib.Base.{◌^◌, ◌≡◌, ◌||◌, ◌⊎◌, refl, some, arith, true, false}
use stdlib.Base.Int.{pos, negsuc, ◌+ℤ◌}
use stdlib.Quad.{F128, pack, pack_sig, round_pack, isnan, isinf, iszero}
use stdlib.Quad.Arith.{
  addsub, sub_magnitudes, sub_ordered, pack_norm, norm_loop, mul_impl, div_impl, div_finite,
  udiv_114, udiv_loop,
}
use stdlib.Quad.Convert.{
  from_i64, from_u64, from_i128, from_f64, from_magnitude, count_bits, to_i64, to_f64,
}
use stdlib.Quad.Compare.{cmp_core}
use stdlib.Quad.Integers.{to_i64-from_i64}
use stdlib.Quad.Sums.{addsub-from_u64}
use stdlib.Quad.Products.{mul_impl-from_u64}
use stdlib.Quad.Doubles.{to_f64-from_f64}
use stdlib.Quad.Order.{cmp_core-rank, AreApart, AreZeros}
use stdlib.Quad.Division.{IsPattern, udiv_114_lem}

-- 3 - 4 is -1, and 35 / 5 is 7.
difference : addsub (from_i64 (pos 3)) (from_i64 (pos 4)) 1 ≡ some (from_i64 (negsuc 0))
unfolding addsub sub_magnitudes sub_ordered pack_norm norm_loop round_pack from_i64 from_magnitude
    count_bits pack pack_sig isnan isinf
difference = refl

quotient : div_impl (from_i64 (pos 35)) (from_i64 (pos 5)) ≡ from_i64 (pos 7)
unfolding div_impl div_finite udiv_114 udiv_loop round_pack from_i64 from_magnitude count_bits pack
    pack_sig isnan isinf iszero ◌+ℤ◌
quotient = refl

-- 1 and 1 + 2 ^ -112, and a NaN.
abbrev one : F128
one = record { lo = 0; hi = 0x3FFF000000000000 }

abbrev next_to_one : F128
next_to_one = record { lo = 1; hi = 0x3FFF000000000000 }

abbrev quiet : F128
quiet = record { lo = 0; hi = 0x7FFF800000000000 }

to_i64-from_i64_example : to_i64 (from_i64 (negsuc 1233)) ≡ some (negsuc 1233)
to_i64-from_i64_example = to_i64-from_i64 (negsuc 1233) (omega arith) (omega arith)

addsub-from_u64_example : addsub (from_u64 1000) (from_u64 77) 0 ≡ some (from_u64 1077)
addsub-from_u64_example = addsub-from_u64 1000 77 (omega arith)

mul_impl-from_u64_example : mul_impl (from_u64 1000) (from_u64 77) ≡ from_i128 77000 false
mul_impl-from_u64_example = mul_impl-from_u64 1000 77 (omega arith) (omega arith) (omega arith)

to_f64-from_f64_example : to_f64 (from_f64 0x3FF8000000000001) ≡ 0x3FF8000000000001
to_f64-from_f64_example = to_f64-from_f64 0x3FF8000000000001 (omega arith)

one-IsPattern : IsPattern one
one-IsPattern = record { low = omega arith; high = omega arith }

next-IsPattern : IsPattern next_to_one
next-IsPattern = record { low = omega arith; high = omega arith }

is_number : (isnan one ≡ false) × (isnan next_to_one ≡ false)
unfolding isnan
is_number = (refl, refl)

cmp_core-rank_example :
    AreApart one next_to_one (cmp_core one next_to_one)
    ⊎ AreZeros one next_to_one (cmp_core one next_to_one)
cmp_core-rank_example =
    cmp_core-rank one next_to_one one-IsPattern next-IsPattern is_number.0 is_number.1

no_number : (isnan quiet || isnan one) ≡ true
unfolding isnan
no_number = refl

udiv_114_lem_example : udiv_114 (2 ^ 111) (2 ^ 112) ≡ 2 ^ 113
udiv_114_lem_example = udiv_114_lem (2 ^ 111) (2 ^ 112) (omega arith) (omega arith)
