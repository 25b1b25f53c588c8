-- ===== src/Message/Extraction.antt =====
-- src/umessage.rs: `extract_protobuf` and `deserialize_protobuf_bytes`, over the encoding of one
-- message type, which rust-protobuf implements.
use up_rust.Prelude.{ℕ, String, Option, none, some, List, Result, ok, err, map_err, ◌++ˢ◌}
use up_rust.Prelude.Fallible.{◌>>=◌}
use up_rust.Proto.{
  enum_value_or, default_format, UPayloadFormat, UAttributes, UMessage, Descriptors,
}
use up_rust.Enums.{to_media_type}
use up_rust.Message.{UMessageError, data_serialization_error, payload_error}

-- The bytes of a type's messages, plain and wrapped in an `Any`. An error is the text of it.
pub record Codec (T : Type 0) : Type 1 where
  pub Any : Type 0
  pub parse : List ℕ → Result String T
  pub write : T → Result String (List ℕ)
  pub parse_any : List ℕ → Result String Any
  pub write_any : Any → Result String (List ℕ)
  pub pack : T → Result String Any
  pub unpack : Any → Result String (Option T)

module _ (proto : Descriptors) {T : Type 0} (codec : Codec T) where
  open codec use {Any, parse, parse_any, unpack}

  abbrev unpacked : Result String (Option T) → Result UMessageError T
  unpacked (ok (some v)) = ok v
  unpacked (ok none) = err (payload_error "cannot deserialize payload, message type mismatch")
  unpacked (err e) = err (data_serialization_error e)

  abbrev parse_wrapped : List ℕ → Result UMessageError T
  parse_wrapped payload =
      map_err data_serialization_error (parse_any payload) >>= λ any. unpacked (unpack any)

  abbrev name_or_unknown : Option String → String
  name_or_unknown (some name) = name
  name_or_unknown none = "unknown"

  unfoldable pub deserialize_protobuf_bytes : List ℕ → UPayloadFormat → Result UMessageError T
  deserialize_protobuf_bytes payload UPayloadFormat.protobuf =
      map_err data_serialization_error (parse payload)
  deserialize_protobuf_bytes payload UPayloadFormat.protobuf_wrapped_in_any = parse_wrapped payload
  deserialize_protobuf_bytes payload UPayloadFormat.unspecified = parse_wrapped payload
  deserialize_protobuf_bytes payload format = err (
      payload_error (
        "Unknown/invalid/unsupported payload format: "
        ++ˢ name_or_unknown (to_media_type proto format)))

  -- Attributes that are not there read as the default ones.
  abbrev format_of : Option UAttributes → UPayloadFormat
  format_of none = default_format
  format_of (some a) = enum_value_or a.payload_format default_format

  abbrev extract : Option (List ℕ) → UPayloadFormat → Result UMessageError T
  extract none format = err (payload_error "No embedded payload")
  extract (some payload) format = deserialize_protobuf_bytes payload format

  unfoldable pub extract_protobuf : UMessage → Result UMessageError T
  unfolding deserialize_protobuf_bytes
  extract_protobuf m = extract m.payload (format_of m.attributes)
