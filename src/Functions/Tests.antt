-- ===== src/Functions/Tests.antt =====
-- Runs of the table of parsed functions (runtime/xiom_runtime.c, 1862 to 1927).
use stdlib.Base.{◌≡◌, refl}
use stdlib.Base.Int.{pos, negsuc}
use stdlib.Functions.{
  FnRecord, FnTable, fn_table_init, fn_table_add, fn_table_count, field_at, fn_name_id, fn_body_end,
}

abbrev main_record : FnRecord
main_record = record {
  name_id = pos 3;
  ret_type_id = pos 1;
  param_count = pos 2;
  body_start = pos 40;
  body_end = pos 90;
}

abbrev one_function : FnTable
one_function =
    fn_table_add main_record (fn_table_init (record { fn_table = λ i. main_record; fn_count = 7 }))

counted : fn_table_count one_function ≡ 1
unfolding fn_table_count fn_table_add fn_table_init
counted = refl

read_end : fn_body_end (pos 0) one_function ≡ pos 90
unfolding fn_body_end field_at fn_table_add fn_table_init
read_end = refl

read_past : fn_name_id (pos 1) one_function ≡ pos 0
unfolding fn_name_id field_at fn_table_add fn_table_init
read_past = refl

read_before : fn_name_id (negsuc 0) one_function ≡ pos 0
unfolding fn_name_id field_at
read_before = refl
