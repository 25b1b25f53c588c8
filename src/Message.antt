-- ===== src/Message.antt =====
-- src/umessage.rs: the accessors of a message and the extraction of its payload. Protobuf's own
-- encodings are parameters.
pub mod Extraction
use up_rust.Prelude.{
  ℕ, Bool, false, String, Option, none, some, List, Result, ok, err, map_err, Run, expect,
  if◌then◌else◌, ◌++ˢ◌,
}
use up_rust.Prelude.Optional.{◌>>=◌}
use up_rust.Proto.{
  EnumOrUnknown, known, unknown, UMessageType, UPriority, UPayloadFormat, UCode, Uuid, UUri,
  UAttributes, UMessage, Descriptors,
}
use up_rust.Attributes.{UAttributesError}
use up_rust.Attributes
use up_rust.Enums.{to_media_type}

-- An error of protobuf is the text of it.
pub data UMessageError : Type 0 where
  attributes_validation_error : UAttributesError → UMessageError
  data_serialization_error payload_error : String → UMessageError

-- The error's `Display`.
unfoldable pub to_string : UMessageError → String
unfolding Attributes.to_string
to_string (attributes_validation_error e) =
    "Builder state is not consistent with message type: " ++ˢ Attributes.to_string e
to_string (data_serialization_error e) = "Failed to serialize payload: " ++ˢ e
to_string (payload_error e) = "UMessage payload error: " ++ˢ e

-- `enum_value().ok()`.
abbrev pub known_value : {E : Type 0} → EnumOrUnknown E → Option E
known_value (known e) = some e
known_value (unknown code) = none

unfoldable pub type_ : UMessage → Option UMessageType
type_ m = m.attributes >>= λ a. known_value a.type_

unfoldable pub type_unchecked : UMessage → Run UMessageType
unfolding type_
type_unchecked m = expect (type_ m) "message has no type"

unfoldable pub id : UMessage → Option Uuid
id m = m.attributes >>= λ a. a.id

unfoldable pub id_unchecked : UMessage → Run Uuid
unfolding id
id_unchecked m = expect (id m) "message has no ID"

unfoldable pub source : UMessage → Option UUri
source m = m.attributes >>= λ a. a.source

unfoldable pub source_unchecked : UMessage → Run UUri
unfolding source
source_unchecked m = expect (source m) "message has no source"

unfoldable pub sink : UMessage → Option UUri
sink m = m.attributes >>= λ a. a.sink

unfoldable pub sink_unchecked : UMessage → Run UUri
unfolding sink
sink_unchecked m = expect (sink m) "message has no sink"

-- A priority that was left out is CS1.
abbrev pub or_cs1 : UPriority → UPriority
or_cs1 UPriority.unspecified = UPriority.cs1
or_cs1 prio = prio

unfoldable pub priority : UMessage → Option UPriority
priority m = m.attributes >>= λ a. known_value a.priority >>= λ p. some (or_cs1 p)

unfoldable pub priority_unchecked : UMessage → Run UPriority
unfolding priority
priority_unchecked m = expect (priority m) "message has no priority"

unfoldable pub commstatus : UMessage → Option UCode
commstatus m = m.attributes >>= λ a. a.commstatus >>= known_value

unfoldable pub commstatus_unchecked : UMessage → Run UCode
unfolding commstatus
commstatus_unchecked m = expect (commstatus m) "message has no commstatus"

unfoldable pub ttl : UMessage → Option ℕ
ttl m = m.attributes >>= λ a. a.ttl

unfoldable pub ttl_unchecked : UMessage → Run ℕ
unfolding ttl
ttl_unchecked m = expect (ttl m) "message has no time-to-live"

unfoldable pub permission_level : UMessage → Option ℕ
permission_level m = m.attributes >>= λ a. a.permission_level

unfoldable pub token : UMessage → Option String
token m = m.attributes >>= λ a. a.token

unfoldable pub traceparent : UMessage → Option String
traceparent m = m.attributes >>= λ a. a.traceparent

unfoldable pub request_id : UMessage → Option Uuid
request_id m = m.attributes >>= λ a. a.reqid

unfoldable pub request_id_unchecked : UMessage → Run Uuid
unfolding request_id
request_id_unchecked m = expect (request_id m) "message has no request ID"

unfoldable pub payload_format : UMessage → Option UPayloadFormat
payload_format m = m.attributes >>= λ a. known_value a.payload_format

unfoldable pub payload_format_unchecked : UMessage → Run UPayloadFormat
unfolding payload_format
payload_format_unchecked m = expect (payload_format m) "message has no payload format"

-- `is_some_and`.
abbrev pub is_some_and : {A : Type 0} → Option A → (A → Bool) → Bool
is_some_and none f = false
is_some_and (some a) f = f a

unfoldable pub is_publish : UMessage → Bool
is_publish m = is_some_and m.attributes Attributes.is_publish

unfoldable pub is_request : UMessage → Bool
is_request m = is_some_and m.attributes Attributes.is_request

unfoldable pub is_response : UMessage → Bool
is_response m = is_some_and m.attributes Attributes.is_response

unfoldable pub is_notification : UMessage → Bool
is_notification m = is_some_and m.attributes Attributes.is_notification
