-- ===== src/CloudEvents.antt =====
-- src/cloudevents.rs: the conversions of a message to a CloudEvent and back.
pub mod Event
pub mod Extensions
pub mod Normal
pub mod Writing
pub mod Reading
pub mod RoundTrip
pub mod Totality
use up_rust.Prelude.{
  ℕ, ◌&&◌, Bool, true, false, String, Option, none, some, List, [], ◌∷◌, Result, ok, err, map_err,
  leb, ltb, if◌then◌else◌, str_eq, ◌++ˢ◌,
}
use up_rust.Prelude.Fallible.{◌>>=◌, ◌>>◌}
use up_rust.Proto.{
  EnumOrUnknown, known, UMessageType, UPriority, UPayloadFormat, UCode, Uuid, UUri, UAttributes,
  UMessage, Descriptors,
}
use up_rust.Uuid.{UuidText}
use up_rust.Uri.Parsing.{UriParser}
use up_rust.Attributes.{UAttributesError, validation_error}
use up_rust.Message
use up_rust.Message.{UMessageError, attributes_validation_error, payload_error}
use up_rust.Validator.{validate, get_validator_for_attributes}
use up_rust.CloudEvents.Event.{
  CloudEvent, CloudEventData, binary_data, text_data, proto_data, EnumNumbers, get_id, set_id,
  get_type, set_type, get_source, set_source, get_sink, set_sink, get_priority, set_priority,
  get_ttl, set_ttl, get_token, set_token, get_permission_level, set_permission_level,
  get_request_id, set_request_id, get_commstatus, set_commstatus, get_traceparent, set_traceparent,
  get_payload_format, set_payload_format,
}

-- The ranges of the bytes that follow a lead byte in well-formed UTF-8, if it is one.
abbrev trail : ℕ × ℕ
trail = (0x80, 0xBF)

abbrev is_in : ℕ → ℕ × ℕ → Bool
is_in b (low, high) = leb low b && leb b high

unfoldable pub lead : ℕ → Option (List (ℕ × ℕ))
lead b =
    if ltb b 0x80
    then some []
    else if is_in b (0xC2, 0xDF)
    then some (trail ∷ [])
    else if is_in b (0xE0, 0xE0)
    then some ((0xA0, 0xBF) ∷ trail ∷ [])
    else if is_in b (0xED, 0xED)
    then some ((0x80, 0x9F) ∷ trail ∷ [])
    else if is_in b (0xE1, 0xEF)
    then some (trail ∷ trail ∷ [])
    else if is_in b (0xF0, 0xF0)
    then some ((0x90, 0xBF) ∷ trail ∷ trail ∷ [])
    else if is_in b (0xF1, 0xF3)
    then some (trail ∷ trail ∷ trail ∷ [])
    else if is_in b (0xF4, 0xF4)
    then some ((0x80, 0x8F) ∷ trail ∷ trail ∷ [])
    else none

unfoldable pub is_utf8 : List (ℕ × ℕ) → List ℕ → Bool
is_utf8 [] [] = true
is_utf8 (range ∷ ranges) [] = false
is_utf8 (range ∷ ranges) (b ∷ bytes) = if is_in b range then is_utf8 ranges bytes else false
is_utf8 [] (b ∷ bytes) = elim (lead b) [ none ↦ false | some ranges ↦ is_utf8 ranges bytes ]

-- `String::from_utf8`, to the bytes of the text.
unfoldable pub from_utf8 : List ℕ → Option (List ℕ)
unfolding is_utf8
from_utf8 bytes = if is_utf8 [] bytes then some bytes else none

abbrev pub spec_version : String
spec_version = "1.0"

abbrev pub new : CloudEvent
new = record {
  id = "";
  source = "";
  spec_version = spec_version;
  type_ = "";
  attributes = λ key. none;
  event_data = none;
}

-- `if let Some(..) = .. { event.set_..(..) }`, for setters that do not fail and those that do.
abbrev pub when : {A : Type 0} → Option A → (A → CloudEvent → CloudEvent) → CloudEvent → CloudEvent
when none set e = e
when (some a) set e = set a e

abbrev pub when_ok :
    {A : Type 0}
    → Option A
    → (A → CloudEvent → Result UAttributesError CloudEvent)
    → CloudEvent
    → Result UMessageError CloudEvent
when_ok none set e = ok e
when_ok (some a) set e = map_err attributes_validation_error (set a e)

abbrev pub required : {A : Type 0} → Option A → String → Result UMessageError A
required none message = err (attributes_validation_error (validation_error message))
required (some a) message = ok a

abbrev pub set_text : Option (List ℕ) → CloudEvent → Result UMessageError CloudEvent
set_text none e = err (payload_error "failed to transform payload to string")
set_text (some text) e = ok (record e { event_data = some (text_data text) })

unfoldable pub set_payload : UPayloadFormat → List ℕ → CloudEvent → Result UMessageError CloudEvent
unfolding from_utf8
set_payload UPayloadFormat.protobuf payload e =
    ok (record e { event_data = some (proto_data "" payload) })
set_payload UPayloadFormat.protobuf_wrapped_in_any payload e =
    ok (record e { event_data = some (proto_data "" payload) })
set_payload UPayloadFormat.text payload e = set_text (from_utf8 payload) e
set_payload UPayloadFormat.json payload e = set_text (from_utf8 payload) e
set_payload format payload e = ok (record e { event_data = some (binary_data payload) })

abbrev pub format_or_default : Option UPayloadFormat → UPayloadFormat
format_or_default none = UPayloadFormat.unspecified
format_or_default (some f) = f

abbrev is_set : UPriority → Bool
is_set UPriority.unspecified = false
is_set _ = true

abbrev pub payload_of : Option CloudEventData → Option (List ℕ)
payload_of none = none
payload_of (some (binary_data bytes)) = some bytes
payload_of (some (text_data bytes)) = some bytes
payload_of (some (proto_data url bytes)) = some bytes

abbrev pub lift : {A : Type 0} → Result UAttributesError A → Result UMessageError A
lift r = map_err attributes_validation_error r

abbrev pub known_code : Option UCode → Option (EnumOrUnknown UCode)
known_code none = none
known_code (some code) = some (known code)

module _ (simd : UuidText) (parser : UriParser) (proto : Descriptors) (numbers : EnumNumbers) where
  abbrev pub when_set : UPriority → CloudEvent → CloudEvent
  when_set priority e = if is_set priority then set_priority proto priority e else e

  abbrev pub set_optional_payload :
      Option (List ℕ) → UPayloadFormat → CloudEvent → Result UMessageError CloudEvent
  set_optional_payload none format e = ok e
  set_optional_payload (some payload) format e =
      set_payload format payload (set_payload_format numbers format e)

  -- The event, once the properties that it must have are there.
  unfoldable pub assemble :
      Uuid → UMessageType → UUri → UPriority → UMessage → Result UMessageError CloudEvent
  unfolding set_payload
  assemble id message_type source priority m = do
    with_ttl ← when_ok (Message.ttl m) set_ttl (
        when_set priority (
          when (Message.sink m) set_sink
            (set_source source (set_type proto message_type (set_id simd id new)))))
    with_level ←
        when_ok (Message.permission_level m) set_permission_level
          (when (Message.token m) set_token with_ttl)
    set_optional_payload m.payload (format_or_default (Message.payload_format m)) (
        when (Message.traceparent m) set_traceparent (
          when (Message.commstatus m) (set_commstatus numbers)
            (when (Message.request_id m) (set_request_id simd) with_level)))

  -- `TryFrom<UMessage> for CloudEvent`.
  unfoldable pub to_event : UMessage → Result UMessageError CloudEvent
  unfolding assemble
  to_event m = do
    required m.attributes "message has no attributes"
    id ← required (Message.id m) "message has no id"
    message_type ← required (Message.type_ m) "message has no type"
    source ← required (Message.source m) "message has no source address"
    priority ← required (Message.priority m) "message has unsupported priority"
    assemble id message_type source priority m

  -- The attributes that an event carries.
  unfoldable pub attributes_of : CloudEvent → Result UMessageError UAttributes
  attributes_of e = do
    id ← lift (get_id simd e)
    message_type ← lift (get_type proto e)
    source ← lift (get_source parser e)
    sink ← lift (get_sink parser e)
    priority ← lift (get_priority proto e)
    reqid ← lift (get_request_id simd e)
    format ← lift (get_payload_format numbers e)
    ok (record {
      commstatus = known_code (get_commstatus numbers e);
      id = some id;
      type_ = known message_type;
      source = some source;
      sink = sink;
      priority = known priority;
      ttl = get_ttl e;
      permission_level = get_permission_level e;
      reqid = reqid;
      token = get_token e;
      traceparent = get_traceparent e;
      payload_format = known format;
    })

  -- `TryFrom<CloudEvent> for UMessage`.
  unfoldable pub from_event : CloudEvent → Result UMessageError UMessage
  unfolding attributes_of
  from_event e =
      if str_eq spec_version e.spec_version
      then (do
        a ← attributes_of e
        lift (validate proto (get_validator_for_attributes a) a)
        ok (record { attributes = some a; payload = payload_of e.event_data }))
      else err (
          attributes_validation_error
            (validation_error ("expected spec version 1.0 but found " ++ˢ e.spec_version)))
