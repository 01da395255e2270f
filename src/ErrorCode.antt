-- ===== src/ErrorCode.antt =====
-- utils/include/maestroutils/error.h: the results of the functions that can fail.
use maestro_core.Base.{ℤ, pos, negsuc}

pub data ErrorCode : Type 0 where
  success : ErrorCode
  err_invalid_arg err_bad_format : ErrorCode
  err_no_memory : ErrorCode
  err_io err_timeout err_would_block err_connection_lost : ErrorCode
  err_connection_fail err_busy err_in_progress : ErrorCode
  err_parse err_json_parse err_json_obj_not_found : ErrorCode
  err_not_found : ErrorCode
  err_internal err_fatal : ErrorCode

-- The `int` that a caller sees; `negsuc n` is -(n + 1).
unfoldable pub value : ErrorCode → ℤ
value success = pos 0
value err_invalid_arg = negsuc 0
value err_bad_format = negsuc 2
value err_no_memory = negsuc 9
value err_io = negsuc 19
value err_timeout = negsuc 20
value err_would_block = negsuc 21
value err_connection_lost = negsuc 22
value err_connection_fail = negsuc 23
value err_busy = negsuc 24
value err_in_progress = negsuc 25
value err_parse = negsuc 29
value err_json_parse = negsuc 30
value err_json_obj_not_found = negsuc 31
value err_not_found = negsuc 39
value err_internal = negsuc 99
value err_fatal = negsuc 100
