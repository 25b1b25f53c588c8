-- ===== src/CloudEvents/Event.antt =====
-- src/cloudevents.rs: the generated CloudEvent message (proto/io/cloudevents/v1/cloudevents.proto),
-- and its getters and setters. A text is the list of its UTF-8 bytes where it is made from bytes or
-- turned into them.
use up_rust.Prelude.{
  ℕ, ◌-◌, ◌^◌, Bool, true, false, String, Option, none, some, List, Result, ok, err, map_err, ltb,
  if◌then◌else◌, not, str_eq, ◌++ˢ◌,
}
use up_rust.Prelude.Fallible
use up_rust.Prelude.Int.{ℤ, pos, negsuc}
use up_rust.Proto.{UMessageType, UPriority, UPayloadFormat, UCode, Uuid, UUri, Descriptors, is_ok}
use up_rust.Uuid
use up_rust.Uuid.{UuidText, UuidConversionError}
use up_rust.Uri
use up_rust.Uri.Parsing
use up_rust.Uri.Parsing.{UriParser, to_uri}
use up_rust.Attributes.{UAttributesError, parsing_error}
use up_rust.Enums.{
  to_cloudevent_type, try_from_cloudevent_type, to_priority_code, try_from_priority_code,
}

pub data CloudEventAttributeValue : Type 0 where
  ce_boolean : Bool → CloudEventAttributeValue
  ce_integer : ℤ → CloudEventAttributeValue
  ce_string ce_uri ce_uri_ref : String → CloudEventAttributeValue
  ce_bytes : List ℕ → CloudEventAttributeValue
  ce_timestamp : ℤ → ℤ → CloudEventAttributeValue

-- An `Any` is its type URL and its value.
pub data CloudEventData : Type 0 where
  binary_data text_data : List ℕ → CloudEventData
  proto_data : String → List ℕ → CloudEventData

-- A map is the function of its lookups.
abbrev pub Attributes : Type 0
Attributes = String → Option CloudEventAttributeValue

pub record CloudEvent : Type 0 where
  pub id : String
  pub source : String
  pub spec_version : String
  pub type_ : String
  pub attributes : Attributes
  pub event_data : Option CloudEventData

-- The numbers of two enumerations, as rust-protobuf reads and writes them.
pub record EnumNumbers : Type 0 where
  pub code_value : UCode → ℤ
  pub code_from_i32 : ℤ → Option UCode
  pub format_value : UPayloadFormat → ℤ
  pub format_from_i32 : ℤ → Option UPayloadFormat

abbrev pub insert : String → CloudEventAttributeValue → CloudEvent → CloudEvent
insert name value e = record e {
  attributes = λ key. if str_eq name key then some value else e.attributes key;
}

-- The value of another kind reads as the kind's default.
abbrev pub as_integer : CloudEventAttributeValue → ℤ
as_integer (ce_integer i) = i
as_integer _ = pos 0

abbrev pub as_string : CloudEventAttributeValue → String
as_string (ce_string s) = s
as_string _ = ""

abbrev pub as_uri_ref : CloudEventAttributeValue → String
as_uri_ref (ce_uri_ref s) = s
as_uri_ref _ = ""

-- `as u32` of an i32.
abbrev pub as_u32 : ℤ → ℕ
as_u32 (pos n) = n
as_u32 (negsuc n) = 2 ^ 32 - 1 - n

abbrev pub map_value :
    {A : Type 0} → (CloudEventAttributeValue → A) → Option CloudEventAttributeValue → Option A
map_value f none = none
map_value f (some v) = some (f v)

-- A number of 32 bits, where an i32 holds it.
abbrev pub insert_integer : String → ℕ → CloudEvent → Result UAttributesError CloudEvent
insert_integer name n e =
    if ltb n (2 ^ 31)
    then ok (insert name (ce_integer (pos n)) e)
    else err (parsing_error "out of range integral type conversion attempted")

-- An error as its text.
abbrev uuid_error : UuidConversionError → UAttributesError
uuid_error e = parsing_error ("Error converting Uuid: " ++ˢ e.message)

abbrev uri_error : Uri.UUriError → UAttributesError
uri_error e = parsing_error (Uri.to_string e)

abbrev pub parse_optional :
    {A : Type 0}
    → (String → Result UAttributesError A)
    → Option String
    → Result UAttributesError (Option A)
parse_optional parse none = ok none
parse_optional parse (some s) = Fallible.◌>>=◌ (parse s) (λ a. ok (some a))

module _ (simd : UuidText) where
  unfoldable pub get_id : CloudEvent → Result UAttributesError Uuid
  get_id e = map_err uuid_error (Uuid.from_str simd e.id)

  unfoldable pub set_id : Uuid → CloudEvent → CloudEvent
  set_id id e = record e { id = Uuid.to_hyphenated_string simd id }

  unfoldable pub get_request_id : CloudEvent → Result UAttributesError (Option Uuid)
  get_request_id e =
      parse_optional (λ s. map_err uuid_error (Uuid.from_str simd s))
        (map_value as_string (e.attributes "reqid"))

  unfoldable pub set_request_id : Uuid → CloudEvent → CloudEvent
  set_request_id id e = insert "reqid" (ce_string (Uuid.to_hyphenated_string simd id)) e

module _ (parser : UriParser) where
  unfoldable pub get_source : CloudEvent → Result UAttributesError UUri
  get_source e = map_err uri_error (Parsing.from_str parser e.source)

  unfoldable pub get_sink : CloudEvent → Result UAttributesError (Option UUri)
  get_sink e =
      parse_optional (λ s. map_err uri_error (Parsing.from_str parser s))
        (map_value as_uri_ref (e.attributes "sink"))

-- The text of a URI is that of `String::from(&UUri)`.
unfoldable pub set_source : UUri → CloudEvent → CloudEvent
set_source u e = record e { source = to_uri u false }

unfoldable pub set_sink : UUri → CloudEvent → CloudEvent
set_sink u e = insert "sink" (ce_uri_ref (to_uri u false)) e

module _ (proto : Descriptors) where
  unfoldable pub get_type : CloudEvent → Result UAttributesError UMessageType
  get_type e = try_from_cloudevent_type proto e.type_

  unfoldable pub set_type : UMessageType → CloudEvent → CloudEvent
  set_type t e = record e { type_ = to_cloudevent_type proto t }

  abbrev pub priority_or_default : Option String → Result UAttributesError UPriority
  priority_or_default none = ok UPriority.unspecified
  priority_or_default (some s) = try_from_priority_code proto s

  unfoldable pub get_priority : CloudEvent → Result UAttributesError UPriority
  get_priority e = priority_or_default (map_value as_string (e.attributes "priority"))

  unfoldable pub set_priority : UPriority → CloudEvent → CloudEvent
  set_priority p e = insert "priority" (ce_string (to_priority_code proto p)) e

abbrev pub optional_u32 : Option ℤ → Option ℕ
optional_u32 none = none
optional_u32 (some i) = some (as_u32 i)

unfoldable pub get_ttl : CloudEvent → Option ℕ
get_ttl e = optional_u32 (map_value as_integer (e.attributes "ttl"))

unfoldable pub set_ttl : ℕ → CloudEvent → Result UAttributesError CloudEvent
set_ttl ttl e = insert_integer "ttl" ttl e

unfoldable pub get_token : CloudEvent → Option String
get_token e = map_value as_string (e.attributes "token")

unfoldable pub set_token : String → CloudEvent → CloudEvent
set_token token e = insert "token" (ce_string token) e

unfoldable pub get_permission_level : CloudEvent → Option ℕ
get_permission_level e = optional_u32 (map_value as_integer (e.attributes "plevel"))

unfoldable pub set_permission_level : ℕ → CloudEvent → Result UAttributesError CloudEvent
set_permission_level level e = insert_integer "plevel" level e

unfoldable pub get_traceparent : CloudEvent → Option String
get_traceparent e = map_value as_string (e.attributes "traceparent")

unfoldable pub set_traceparent : String → CloudEvent → CloudEvent
set_traceparent traceparent e = insert "traceparent" (ce_string traceparent) e

abbrev pub is_unspecified : UPayloadFormat → Bool
is_unspecified UPayloadFormat.unspecified = true
is_unspecified _ = false

module _ (numbers : EnumNumbers) where
  abbrev pub code_of : Option ℤ → Option UCode
  code_of none = none
  code_of (some i) = numbers.code_from_i32 i

  unfoldable pub get_commstatus : CloudEvent → Option UCode
  get_commstatus e = code_of (map_value as_integer (e.attributes "commstatus"))

  unfoldable pub set_commstatus : UCode → CloudEvent → CloudEvent
  set_commstatus status e =
      if not (is_ok status)
      then insert "commstatus" (ce_integer (numbers.code_value status)) e
      else e

  abbrev supported : Option UPayloadFormat → Result UAttributesError UPayloadFormat
  supported none = err (parsing_error "unsupported payload format")
  supported (some f) = ok f

  abbrev pub format_of : Option ℤ → Result UAttributesError UPayloadFormat
  format_of none = ok UPayloadFormat.unspecified
  format_of (some i) = supported (numbers.format_from_i32 i)

  unfoldable pub get_payload_format : CloudEvent → Result UAttributesError UPayloadFormat
  get_payload_format e = format_of (map_value as_integer (e.attributes "pformat"))

  unfoldable pub set_payload_format : UPayloadFormat → CloudEvent → CloudEvent
  set_payload_format f e =
      if not (is_unspecified f) then insert "pformat" (ce_integer (numbers.format_value f)) e else e
