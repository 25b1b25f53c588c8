-- ===== src/Status.antt =====
-- src/ustatus.rs: the status of an operation.
pub mod Laws
use up_rust.Prelude.{Bool, not, String, Option, none, some}
use up_rust.Proto.{known, UCode, UStatus, enum_value_or, default_code, is_ok}

unfoldable pub ok_status : UStatus
ok_status = record { code = known UCode.ok; message = none }

unfoldable pub fail : String → UStatus
fail msg = record { code = known UCode.unknown; message = some msg }

unfoldable pub fail_with_code : UCode → String → UStatus
fail_with_code code msg = record { code = known code; message = some msg }

unfoldable pub get_code : UStatus → UCode
get_code s = enum_value_or s.code default_code

unfoldable pub is_failed : UStatus → Bool
unfolding get_code
is_failed s = not (is_ok (get_code s))

unfoldable pub is_success : UStatus → Bool
unfolding get_code
is_success s = is_ok (get_code s)

abbrev message_or_empty : Option String → String
message_or_empty (some msg) = msg
message_or_empty none = ""

unfoldable pub get_message : UStatus → String
get_message s = message_or_empty s.message
