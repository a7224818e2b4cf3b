-- ===== src/Functions/Lookup.antt =====
-- What the queries of the function table answer after an addition (runtime/xiom_runtime.c, 1888 to 1927).
use stdlib.Base.{ℕ, ◌<◌, ◌≡◌, arith}
use stdlib.Base.Int.{ℤ, pos}
use stdlib.Functions.{FnRecord, FnTable, fn_table_size, fn_table_add, field_at}

-- With room, the record added is read at the old count.
pub field_at-added :
    (field : FnRecord → ℤ) (r : FnRecord) (t : FnTable)
    → t.fn_count < fn_table_size
    → field_at field (pos t.fn_count) (fn_table_add r t) ≡ field r
unfolding field_at fn_table_add
field_at-added field r t room = ground arith

-- A record in the table before is read at its index as before, with or without room.
pub field_at-kept :
    (field : FnRecord → ℤ) (r : FnRecord) (t : FnTable) (n : ℕ)
    → n < t.fn_count
    → field_at field (pos n) (fn_table_add r t) ≡ field_at field (pos n) t
unfolding field_at fn_table_add
field_at-kept field r t n h = ground arith
