-- ===== src/Status.antt =====
-- include/LDC1614/Status.h: error codes and the status value of every call.
-- The diagnostic text of a status is not modelled. `detail` is the 32-bit pattern of the signed field.
use ldc.Base.{ℕ, Bool, true, false}

pub data Err : Type 0 where
  ok not_bound invalid_config invalid_param busy in_progress result_not_ready : Err
  result_queue_full duplicate_operation_id device_not_found conversion_not_ready : Err
  timeout cancelled config_dirty i2c_error i2c_nack_addr i2c_nack_data i2c_timeout i2c_bus : Err

pub record Status : Type 0 where
  pub code : Err
  pub detail : ℕ

abbrev pub is_ok_code : Err → Bool
is_ok_code Err.ok = true
is_ok_code _ = false

abbrev pub is_in_progress_code : Err → Bool
is_in_progress_code Err.in_progress = true
is_in_progress_code _ = false

unfoldable pub is_ok : Status → Bool
is_ok s = is_ok_code s.code

unfoldable pub is_in_progress : Status → Bool
is_in_progress s = is_in_progress_code s.code

abbrev pub ok_status : Status
ok_status = record { code = Err.ok; detail = 0 }

abbrev pub error_detail : Err → ℕ → Status
error_detail e d = record { code = e; detail = d }

abbrev pub error : Err → Status
error e = error_detail e 0
