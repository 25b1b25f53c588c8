-- ===== src/Tests.antt =====
-- Concrete values on which the definitions are run.
mod Uris
mod Messages
mod Clients
mod RpcClient
mod CloudEvents
mod Subscriber
mod Transports
mod Rejections
mod InProcess
mod Published
mod Subscriptions
use up_rust.Prelude.{
  ℕ, ◌+◌, ◌*◌, ◌<◌, ◌^◌, String, Option, none, some, List, [], ◌∷◌, ok, err, arith, ◌≡◌, refl, true,
}
use up_rust.Proto.{
  known, UMessageType, UPriority, UPayloadFormat, UCode, UStatus, Uuid, UUri, UAttributes,
  Descriptors, default_UAttributes,
}
use up_rust.Uuid.{Bytes8, Entropy, is_uprotocol_uuid}
use up_rust.Uri.{
  verify_no_wildcards, has_wildcard_authority, has_empty_authority, has_wildcard_entity_instance,
  has_wildcard_entity_type, has_wildcard_version, has_wildcard_resource_id,
}
use up_rust.Uri.Checks.{verify_no_wildcards_iff}
use up_rust.Validator.{UAttributesValidators, message_type, validate}
use up_rust.Validator.Laws.{validate_iff}
use up_rust.Uuid.Build.{IsBytes, IsEntropy}
use up_rust.Message.Extraction.{Codec}

abbrev pub type_name : UMessageType → Option String
type_name UMessageType.unspecified = none
type_name UMessageType.publish = some "pub.v1"
type_name UMessageType.request = some "req.v1"
type_name UMessageType.response = some "res.v1"
type_name UMessageType.notification = some "not.v1"

abbrev pub priority_name : UPriority → Option String
priority_name UPriority.unspecified = none
priority_name UPriority.cs0 = some "CS0"
priority_name UPriority.cs1 = some "CS1"
priority_name UPriority.cs2 = some "CS2"
priority_name UPriority.cs3 = some "CS3"
priority_name UPriority.cs4 = some "CS4"
priority_name UPriority.cs5 = some "CS5"
priority_name UPriority.cs6 = some "CS6"

abbrev priority_value : UPriority → ℕ
priority_value UPriority.unspecified = 0
priority_value UPriority.cs0 = 1
priority_value UPriority.cs1 = 2
priority_value UPriority.cs2 = 3
priority_value UPriority.cs3 = 4
priority_value UPriority.cs4 = 5
priority_value UPriority.cs5 = 6
priority_value UPriority.cs6 = 7

abbrev mime_type : UPayloadFormat → Option String
mime_type UPayloadFormat.protobuf = some "application/protobuf"
mime_type UPayloadFormat.raw = some "application/octet-stream"
mime_type _ = none

abbrev pub proto : Descriptors
proto = record {
  types =
      UMessageType.unspecified ∷ UMessageType.publish ∷ UMessageType.request ∷ UMessageType.response
      ∷ UMessageType.notification ∷ [];
  type_ce_name = type_name;
  priorities =
      UPriority.unspecified ∷ UPriority.cs0 ∷ UPriority.cs1 ∷ UPriority.cs2 ∷ UPriority.cs3
      ∷ UPriority.cs4 ∷ UPriority.cs5 ∷ UPriority.cs6 ∷ [];
  priority_ce_name = priority_name;
  priority_value = priority_value;
  formats = UPayloadFormat.protobuf ∷ UPayloadFormat.raw ∷ [];
  mime_type = mime_type;
}

abbrev zeros : Bytes8
zeros = record { b0 = 0; b1 = 0; b2 = 0; b3 = 0; b4 = 0; b5 = 0; b6 = 0; b7 = 0 }

abbrev pub entropy : Entropy
entropy = record { millis = 1000; r6 = 0; r7 = 0; random_lsb = zeros }

pub entropy-IsEntropy : IsEntropy entropy
entropy-IsEntropy = record {
  in_time = omega arith;
  l6 = omega arith;
  l7 = omega arith;
  lsb = record {
    l0 = omega arith;
    l1 = omega arith;
    l2 = omega arith;
    l3 = omega arith;
    l4 = omega arith;
    l5 = omega arith;
    l6 = omega arith;
    l7 = omega arith;
  };
}

-- A UUID of version 7 that was created at 1000 milliseconds.
abbrev pub uuid : Uuid
uuid = record { msb = 1000 * 2 ^ 16 + 0x7000; lsb = 0x8000000000000000 }

abbrev pub client : UUri
client = record { authority_name = "vcu"; ue_id = 0x1000B; ue_version_major = 1; resource_id = 0 }

abbrev pub method : UUri
method = record { authority_name = "vcu"; ue_id = 0xA10; ue_version_major = 1; resource_id = 1 }

abbrev pub topic : UUri
topic = record { authority_name = "vcu"; ue_id = 0xA10; ue_version_major = 1; resource_id = 0x8001 }

pub method_concrete : verify_no_wildcards method ≡ ok tt
unfolding verify_no_wildcards has_wildcard_authority has_empty_authority
    has_wildcard_entity_instance has_wildcard_entity_type has_wildcard_version
    has_wildcard_resource_id
method_concrete = refl

pub client_concrete : verify_no_wildcards client ≡ ok tt
unfolding verify_no_wildcards has_wildcard_authority has_empty_authority
    has_wildcard_entity_instance has_wildcard_entity_type has_wildcard_version
    has_wildcard_resource_id
client_concrete = refl

pub topic_concrete : verify_no_wildcards topic ≡ ok tt
unfolding verify_no_wildcards has_wildcard_authority has_empty_authority
    has_wildcard_entity_instance has_wildcard_entity_type has_wildcard_version
    has_wildcard_resource_id
topic_concrete = refl

pub uuid_valid : is_uprotocol_uuid uuid ≡ true
unfolding is_uprotocol_uuid
uuid_valid = refl

abbrev pub request_attributes : UAttributes
request_attributes = record default_UAttributes {
  id = some uuid;
  type_ = known UMessageType.request;
  source = some client;
  sink = some method;
  priority = known UPriority.cs4;
  ttl = some 5000;
}

abbrev pub publish_attributes : UAttributes
publish_attributes = record default_UAttributes {
  id = some uuid;
  type_ = known UMessageType.publish;
  source = some topic;
  ttl = some 500;
}

pub request_valid : validate proto UAttributesValidators.request request_attributes ≡ ok tt
unfolding message_type
request_valid = (validate_iff proto UAttributesValidators.request request_attributes).1 (record {
  type_ = refl;
  id = (uuid, refl, uuid_valid);
  source = (client, refl, (refl, (verify_no_wildcards_iff client).0 client_concrete));
  sink = (
    method,
    refl,
    (omega arith, omega arith, (verify_no_wildcards_iff method).0 method_concrete),
  );
  own = record { ttl = (5000, refl, omega arith); priority = (UPriority.cs4, refl, omega arith) };
})

-- A codec that writes each status as one byte, and knows one status to read.
abbrev pub status_codec : Codec UStatus
status_codec = record {
  Any = ℕ;
  parse = λ bytes. ok (record { code = known UCode.not_found; message = some "no" });
  write = λ s. ok (1 ∷ []);
  parse_any = λ bytes. err "not supported";
  write_any = λ any. err "not supported";
  pack = λ s. err "not supported";
  unpack = λ any. err "not supported";
}
