-- ===== src/Curve/Tests.antt =====
-- The theorem about the aliased addition at a concrete input (runtime/xiom_runtime.c, 8416 to 8482).
use stdlib.Base.{arith}
use stdlib.Field.Carry.{IsLimbs}
use stdlib.Field.Negate.{from_u64}
use stdlib.Curve.{generator, point_mul}
use stdlib.Curve.Total.{IsPoint, point_mul-IsPoint}
use stdlib.Base.Chain.{Yields}

five-IsLimbs : IsLimbs (from_u64 5)
five-IsLimbs = omega arith

generator-IsPoint : IsPoint generator
generator-IsPoint = omega arith

point_mul-IsPoint_example : Yields IsPoint (point_mul (from_u64 3) generator)
point_mul-IsPoint_example = point_mul-IsPoint (from_u64 3) generator generator-IsPoint
