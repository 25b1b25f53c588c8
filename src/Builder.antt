-- ===== src/Builder.antt =====
-- src/umessage/umessagebuilder.rs: the builder of messages. A call on `&mut self` returns the new
-- builder, or panics by an `assert!`. The validator is the value that names it.
pub mod Reachable
pub mod Build
pub mod Responses
use up_rust.Prelude.{
  ℕ, Bool, true, false, ◌||◌, String, Option, none, some, List, Result, ok, err, map_err, Run,
  returns, panics, assert, leb, if◌then◌else◌, not,
}
use up_rust.Prelude.Panicking.{◌>>=◌, ◌>>◌}
use up_rust.Prelude.Fallible
use up_rust.Proto.{
  EnumOrUnknown, known, enum_value_or, type_eq, UMessageType, UPriority, UPayloadFormat, UCode,
  Uuid, UUri, UAttributes, UMessage, Descriptors,
}
use up_rust.Uuid
use up_rust.Uuid.{Entropy}
use up_rust.Attributes.{is_default_priority}
use up_rust.Validator.{UAttributesValidators, Check, validate}
use up_rust.Message.{UMessageError, attributes_validation_error, data_serialization_error}
use up_rust.Message.Extraction.{Codec}

pub record UMessageBuilder : Type 0 where
  pub comm_status : Option (EnumOrUnknown UCode)
  pub message_id : Option Uuid
  pub message_type : UMessageType
  pub payload : Option (List ℕ)
  pub payload_format : UPayloadFormat
  pub permission_level : Option ℕ
  pub priority : UPriority
  pub request_id : Option Uuid
  pub sink : Option UUri
  pub source : Option UUri
  pub token : Option String
  pub traceparent : Option String
  pub ttl : Option ℕ
  pub validator : UAttributesValidators

abbrev pub default : UMessageBuilder
default = record {
  comm_status = none;
  message_id = none;
  message_type = UMessageType.unspecified;
  payload = none;
  payload_format = UPayloadFormat.unspecified;
  permission_level = none;
  priority = UPriority.unspecified;
  request_id = none;
  sink = none;
  source = none;
  token = none;
  traceparent = none;
  ttl = none;
  validator = UAttributesValidators.publish;
}

unfoldable pub publish : UUri → UMessageBuilder
publish topic = record default {
  validator = UAttributesValidators.publish;
  message_type = UMessageType.publish;
  source = some topic;
}

unfoldable pub notification : UUri → UUri → UMessageBuilder
notification origin destination = record default {
  validator = UAttributesValidators.notification;
  message_type = UMessageType.notification;
  source = some origin;
  sink = some destination;
}

unfoldable pub request : UUri → UUri → ℕ → UMessageBuilder
request method_to_invoke reply_to_address ttl = record default {
  validator = UAttributesValidators.request;
  message_type = UMessageType.request;
  source = some reply_to_address;
  sink = some method_to_invoke;
  ttl = some ttl;
  priority = UPriority.cs4;
}

unfoldable pub response : UUri → Uuid → UUri → UMessageBuilder
response reply_to_address request_id invoked_method = record default {
  validator = UAttributesValidators.response;
  message_type = UMessageType.response;
  source = some invoked_method;
  sink = some reply_to_address;
  request_id = some request_id;
  priority = UPriority.cs4;
}

unfoldable pub response_for_request : UAttributes → UMessageBuilder
response_for_request a = record default {
  validator = UAttributesValidators.response;
  message_type = UMessageType.response;
  source = a.sink;
  sink = a.source;
  request_id = a.id;
  priority = enum_value_or a.priority UPriority.cs4;
  ttl = a.ttl;
}

unfoldable pub with_message_id : Uuid → UMessageBuilder → Run UMessageBuilder
with_message_id message_id b = do
  assert (Uuid.is_uprotocol_uuid message_id) "Message ID must be a valid uProtocol UUID"
  returns (record b { message_id = some message_id })

unfoldable pub with_ttl : ℕ → UMessageBuilder → UMessageBuilder
with_ttl ttl b = record b { ttl = some ttl }

abbrev is_type : UMessageType → UMessageBuilder → Bool
is_type t b = type_eq b.message_type t

unfoldable pub with_token : String → UMessageBuilder → Run UMessageBuilder
with_token token b = do
  assert (is_type UMessageType.request b)
      "assertion failed: self.message_type == UMessageType::UMESSAGE_TYPE_REQUEST"
  returns (record b { token = some token })

unfoldable pub with_permission_level : ℕ → UMessageBuilder → Run UMessageBuilder
with_permission_level level b = do
  assert (is_type UMessageType.request b)
      "assertion failed: self.message_type == UMessageType::UMESSAGE_TYPE_REQUEST"
  returns (record b { permission_level = some level })

unfoldable pub with_comm_status : UCode → UMessageBuilder → Run UMessageBuilder
with_comm_status comm_status b = do
  assert (is_type UMessageType.response b)
      "assertion failed: self.message_type == UMessageType::UMESSAGE_TYPE_RESPONSE"
  returns (record b { comm_status = some (known comm_status) })

unfoldable pub with_traceparent : String → UMessageBuilder → UMessageBuilder
with_traceparent traceparent b = record b { traceparent = some traceparent }

-- What the builder has collected, under the ID that the message gets.
abbrev pub attributes_of : UMessageBuilder → Uuid → UAttributes
attributes_of b message_id = record {
  commstatus = b.comm_status;
  id = some message_id;
  payload_format = known b.payload_format;
  permission_level = b.permission_level;
  priority = known b.priority;
  reqid = b.request_id;
  sink = b.sink;
  source = b.source;
  token = b.token;
  traceparent = b.traceparent;
  ttl = b.ttl;
  type_ = known b.message_type;
}

-- The ID that was set, or a new one.
unfoldable pub id_or_new : Entropy → Option Uuid → Run Uuid
id_or_new entropy none = Uuid.build_for_timestamp entropy
id_or_new entropy (some message_id) = returns message_id

abbrev pub message_or_error : UAttributes → Option (List ℕ) → Check → Result UMessageError UMessage
message_or_error a payload (ok _) = ok (record { attributes = some a; payload = payload })
message_or_error a payload (err e) = err (attributes_validation_error e)

module _ (proto : Descriptors) where
  -- The condition of the assertion, where the message is an RPC message.
  abbrev pub priority_allowed : UPriority → UMessageBuilder → Bool
  priority_allowed priority b =
      not (is_type UMessageType.request b || is_type UMessageType.response b)
      || leb (proto.priority_value UPriority.cs4) (proto.priority_value priority)

  unfoldable pub with_priority : UPriority → UMessageBuilder → Run UMessageBuilder
  with_priority priority b = do
    assert (priority_allowed priority b)
        "assertion failed: priority.value() >= UPriority::UPRIORITY_CS4.value()"
    returns (record b {
      priority = if not (is_default_priority priority) then priority else UPriority.unspecified;
    })

  unfoldable pub build : Entropy → UMessageBuilder → Run (Result UMessageError UMessage)
  unfolding id_or_new
  build entropy b = do
    message_id ← id_or_new entropy b.message_id
    returns (
        message_or_error (attributes_of b message_id) b.payload
          (validate proto b.validator (attributes_of b message_id)))

  unfoldable pub build_with_payload :
      Entropy → List ℕ → UPayloadFormat → UMessageBuilder → Run (Result UMessageError UMessage)
  unfolding build
  build_with_payload entropy payload format b =
      build entropy (record b { payload = some payload; payload_format = format })

  module _ {T : Type 0} (codec : Codec T) (entropy : Entropy) where
    open codec use {write, pack, write_any}

    abbrev build_encoded :
        UPayloadFormat
        → UMessageBuilder
        → Result UMessageError (List ℕ)
        → Run (Result UMessageError UMessage)
    build_encoded format b (ok bytes) = build_with_payload entropy bytes format b
    build_encoded format b (err e) = returns (err e)

    unfoldable pub build_with_protobuf_payload :
        T → UMessageBuilder → Run (Result UMessageError UMessage)
    unfolding build_with_payload
    build_with_protobuf_payload payload b =
        build_encoded UPayloadFormat.protobuf b (map_err data_serialization_error (write payload))

    unfoldable pub build_with_wrapped_protobuf_payload :
        T → UMessageBuilder → Run (Result UMessageError UMessage)
    unfolding build_with_payload
    build_with_wrapped_protobuf_payload payload b =
        build_encoded UPayloadFormat.protobuf_wrapped_in_any b
          (map_err data_serialization_error (Fallible.◌>>=◌ (pack payload) (λ any. write_any any)))
