-- ===== src/Functions.antt =====
-- The table of parsed functions (runtime/xiom_runtime.c, 1862 to 1927).
pub mod Lookup
pub mod Tests
use stdlib.Base.{ℕ, ◌+◌, Bool, ltb, leb, ◌==◌, if◌then◌else◌}
use stdlib.Base.Int.{ℤ, pos, negsuc}

-- MAX_FUNCTIONS
abbrev pub fn_table_size : ℕ
fn_table_size = 8192

pub record FnRecord : Type 0 where
  pub name_id : ℤ
  pub ret_type_id : ℤ
  pub param_count : ℤ
  pub body_start : ℤ
  pub body_end : ℤ

-- fn_table and fn_count
pub record FnTable : Type 0 where
  pub fn_table : ℕ → FnRecord
  pub fn_count : ℕ

abbrev pub cleared : FnRecord
cleared = record {
  name_id = pos 0;
  ret_type_id = pos 0;
  param_count = pos 0;
  body_start = pos 0;
  body_end = pos 0;
}

-- xiom_fn_table_init
unfoldable pub fn_table_init : FnTable → FnTable
fn_table_init t = record {
  fn_table = λ i. if ltb i fn_table_size then cleared else t.fn_table i;
  fn_count = 0;
}

-- xiom_fn_table_add
unfoldable pub fn_table_add : FnRecord → FnTable → FnTable
fn_table_add r t = if leb fn_table_size t.fn_count then t else record {
  fn_table = λ i. if i == t.fn_count then r else t.fn_table i;
  fn_count = t.fn_count + 1;
}

-- xiom_fn_table_count
unfoldable pub fn_table_count : FnTable → ℕ
fn_table_count t = t.fn_count

-- The test on the index and the read that the five queries share.
unfoldable pub field_at : (FnRecord → ℤ) → ℤ → FnTable → ℤ
field_at field (negsuc n) t = pos 0
field_at field (pos n) t = if leb t.fn_count n then pos 0 else field (t.fn_table n)

-- xiom_fn_name_id
unfoldable pub fn_name_id : ℤ → FnTable → ℤ
fn_name_id = field_at (λ r. r.name_id)

-- xiom_fn_ret_type_id
unfoldable pub fn_ret_type_id : ℤ → FnTable → ℤ
fn_ret_type_id = field_at (λ r. r.ret_type_id)

-- xiom_fn_param_count
unfoldable pub fn_param_count : ℤ → FnTable → ℤ
fn_param_count = field_at (λ r. r.param_count)

-- xiom_fn_body_start
unfoldable pub fn_body_start : ℤ → FnTable → ℤ
fn_body_start = field_at (λ r. r.body_start)

-- xiom_fn_body_end
unfoldable pub fn_body_end : ℤ → FnTable → ℤ
fn_body_end = field_at (λ r. r.body_end)
