-- ===== src/Attributes.antt =====
-- src/uattributes.rs: the error type, the tests of a message's type and of its default priority,
-- and the expiry check against a clock. The clock's reading is an argument: the milliseconds since
-- the epoch, or the text of the clock's error.
pub mod Expiry
use up_rust.Prelude.{
  ℕ, ◌+◌, ◌-◌, ◌%◌, ◌^◌, Bool, String, Option, none, some, Result, ok, err, Run, returns, panics,
  ltb, leb, if◌then◌else◌, ◌++ˢ◌, true, false,
}
use up_rust.Proto.{
  EnumOrUnknown, known, unknown, UMessageType, UPriority, Uuid, UAttributes, is_cs1, type_eq,
}
use up_rust.Uuid

pub data UAttributesError : Type 0 where
  validation_error parsing_error : String → UAttributesError

-- The error's `Display`.
unfoldable pub to_string : UAttributesError → String
to_string (validation_error e) = "Validation failure: " ++ˢ e
to_string (parsing_error e) = "Parsing error: " ++ˢ e

unfoldable pub is_default_priority : UPriority → Bool
is_default_priority prio = is_cs1 prio

abbrev has_type : EnumOrUnknown UMessageType → UMessageType → Bool
has_type (known t) expected = type_eq t expected
has_type (unknown code) expected = false

unfoldable pub is_publish : UAttributes → Bool
is_publish a = has_type a.type_ UMessageType.publish

unfoldable pub is_request : UAttributes → Bool
is_request a = has_type a.type_ UMessageType.request

unfoldable pub is_response : UAttributes → Bool
is_response a = has_type a.type_ UMessageType.response

unfoldable pub is_notification : UAttributes → Bool
is_notification a = has_type a.type_ UMessageType.notification

-- `duration - creation_time` on u64: with overflow checks a negative result panics, without them it
-- wraps.
unfoldable pub sub_u64 : Bool → ℕ → ℕ → Run ℕ
sub_u64 overflow_checks a b =
    if leb b a
    then returns (a - b)
    else if overflow_checks
    then panics "attempt to subtract with overflow"
    else returns ((a + 2 ^ 64 - b) % 2 ^ 64)

abbrev pub Expiry : Type 0
Expiry = Run (Result UAttributesError (Unit {0}))

abbrev compare_age : ℕ → Run ℕ → Expiry
compare_age ttl (returns delta) =
    returns (if leb ttl delta then err (validation_error "message is expired") else ok tt)
compare_age ttl (panics m) = panics m

abbrev check_age : Bool → Result String ℕ → ℕ → ℕ → Expiry
check_age overflow_checks (err e) ttl creation_time = returns (err (validation_error e))
check_age overflow_checks (ok now) ttl creation_time =
    if ltb now (2 ^ 64)
    then compare_age ttl (sub_u64 overflow_checks now creation_time)
    else returns (err (validation_error "Invalid system time: too far in the future"))

-- The creation time of the message, where its ID is a uProtocol UUID.
abbrev pub creation_time_of : Option Uuid → Option ℕ
creation_time_of none = none
creation_time_of (some id) = Uuid.get_time id

abbrev check_id_age : Bool → Result String ℕ → ℕ → Option ℕ → Expiry
check_id_age overflow_checks now ttl none = returns (ok tt)
check_id_age overflow_checks now ttl (some creation_time) =
    check_age overflow_checks now ttl creation_time

abbrev check_ttl : Bool → Result String ℕ → Option Uuid → Option ℕ → Expiry
check_ttl overflow_checks now id none = returns (ok tt)
check_ttl overflow_checks now id (some ttl) =
    if ltb 0 ttl
    then check_id_age overflow_checks now ttl (creation_time_of id)
    else returns (ok tt)

unfoldable pub check_expired : Bool → Result String ℕ → UAttributes → Expiry
unfolding sub_u64
check_expired overflow_checks now a = check_ttl overflow_checks now a.id a.ttl
