-- ===== src/Communication.antt =====
-- src/communication.rs: call options, payloads, and what the clients share for building messages.
pub mod Errors
pub mod Messages
pub mod Publishing
pub mod Listening
pub mod RpcServer
pub mod RpcClient
pub mod Rpc
pub mod InProcess
pub mod Subscriber
use up_rust.Prelude.{ℕ, String, Option, none, some, List, Result, ok, err, map_err, Run, returns}
use up_rust.Prelude.Panicking.{◌>>=◌}
use up_rust.Prelude.Fallible
use up_rust.Proto.{UPriority, UPayloadFormat, Uuid, UMessage, Descriptors}
use up_rust.Uuid.{Entropy}
use up_rust.Message.{UMessageError, data_serialization_error}
use up_rust.Message.Extraction.{Codec, deserialize_protobuf_bytes}
use up_rust.Builder
use up_rust.Builder.{UMessageBuilder}

pub record CallOptions : Type 0 where
  pub ttl : ℕ
  pub message_id : Option Uuid
  pub token : Option String
  pub priority : Option UPriority

unfoldable pub for_rpc_request : ℕ → Option Uuid → Option String → Option UPriority → CallOptions
for_rpc_request ttl message_id token priority = record {
  ttl = ttl;
  message_id = message_id;
  token = token;
  priority = priority;
}

abbrev ttl_or_zero : Option ℕ → ℕ
ttl_or_zero none = 0
ttl_or_zero (some ttl) = ttl

unfoldable pub for_notification : Option ℕ → Option Uuid → Option UPriority → CallOptions
for_notification ttl message_id priority = record {
  ttl = ttl_or_zero ttl;
  message_id = message_id;
  token = none;
  priority = priority;
}

unfoldable pub for_publish : Option ℕ → Option Uuid → Option UPriority → CallOptions
for_publish ttl message_id priority = record {
  ttl = ttl_or_zero ttl;
  message_id = message_id;
  token = none;
  priority = priority;
}

pub record UPayload : Type 0 where
  pub payload_format : UPayloadFormat
  pub payload : List ℕ

unfoldable pub new : List ℕ → UPayloadFormat → UPayload
new payload format = record { payload_format = format; payload = payload }

module _ {T : Type 0} (codec : Codec T) where
  open codec use {pack, write_any}

  unfoldable pub try_from_protobuf : T → Result UMessageError UPayload
  unfolding new
  try_from_protobuf message = map_err data_serialization_error (
      Fallible.◌>>=◌ (Fallible.◌>>=◌ (pack message) (λ any. write_any any))
        (λ buf. ok (new buf UPayloadFormat.protobuf_wrapped_in_any)))

  unfoldable pub extract_protobuf : Descriptors → UPayload → Result UMessageError T
  unfolding deserialize_protobuf_bytes
  extract_protobuf proto p = deserialize_protobuf_bytes proto codec p.payload p.payload_format

module _ (proto : Descriptors) where
  abbrev pub with_optional_id : Option Uuid → UMessageBuilder → Run UMessageBuilder
  with_optional_id none b = returns b
  with_optional_id (some id) b = Builder.with_message_id id b

  abbrev pub with_optional_priority : Option UPriority → UMessageBuilder → Run UMessageBuilder
  with_optional_priority none b = returns b
  with_optional_priority (some p) b = Builder.with_priority proto p b

  unfoldable pub apply_common_options : CallOptions → UMessageBuilder → Run UMessageBuilder
  apply_common_options options b = do
    identified ← with_optional_id options.message_id (Builder.with_ttl options.ttl b)
    with_optional_priority options.priority identified

  unfoldable pub build_message :
      Entropy → UMessageBuilder → Option UPayload → Run (Result UMessageError UMessage)
  build_message entropy b (some p) =
      Builder.build_with_payload proto entropy p.payload p.payload_format b
  build_message entropy b none = Builder.build proto entropy b
