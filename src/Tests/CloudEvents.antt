-- ===== src/Tests/CloudEvents.antt =====
-- Runs of the definitions on events.
use mathlib.Core.List.{Memᴰ}
use up_rust.Tests.Messages.{type_name-IsInjective, priority_name-IsInjective}
use up_rust.Prelude.{
  ℕ, zero, suc, ◌≡◌, refl, ◌↔◌, Option, none, some, List, [], ◌∷◌, ok, arith, IsOk, false, str_eq,
}
use up_rust.Prelude.Int.{ℤ, pos, negsuc}
use up_rust.Proto.{known, UMessageType, UPriority, UPayloadFormat, UCode, UAttributes}
use up_rust.Uuid.TextForm.{from_str-to_hyphenated_string}
use up_rust.Uri.Parsing.Bounds.{IsBounded}
use up_rust.Uri.Checks.{verify_no_wildcards_iff}
use up_rust.Uri.Parsing.{UriParser}
use up_rust.Uri.Parsing.RoundTrip.{parts, remote, from_str-to_uri}
use up_rust.Validator.{UAttributesValidators, message_type, validate, get_validator_for_attributes}
use up_rust.Validator.Laws.{IsValid, validate_iff}
use up_rust.CloudEvents.{is_utf8, lead, payload_of, to_event, from_event, spec_version}
use up_rust.CloudEvents.Event.{EnumNumbers}
use up_rust.CloudEvents.Normal.{IsReadable, HasDistinctNames, ReadsNumbers, normal}
use up_rust.CloudEvents.RoundTrip.{from_event-to_event}
use up_rust.CloudEvents.Totality.{IsConvertible, to_event-IsOk_iff, from_event-IsValid}
use up_rust.Tests.{proto, uuid, uuid_valid, topic_concrete, topic, publish_attributes}
use up_rust.Tests.Uris.{simd, parsed, vcu, vcu-IsHostOnly}

abbrev codes : List UCode
codes =
    UCode.ok ∷ UCode.cancelled ∷ UCode.unknown ∷ UCode.invalid_argument ∷ UCode.deadline_exceeded
    ∷ UCode.not_found ∷ UCode.already_exists ∷ UCode.permission_denied ∷ UCode.resource_exhausted
    ∷ UCode.failed_precondition ∷ UCode.unimplemented ∷ UCode.internal ∷ UCode.unavailable
    ∷ UCode.data_loss ∷ UCode.unauthenticated ∷ []

abbrev code_number : UCode → ℕ
code_number UCode.ok = 0
code_number UCode.cancelled = 1
code_number UCode.unknown = 2
code_number UCode.invalid_argument = 3
code_number UCode.deadline_exceeded = 4
code_number UCode.not_found = 5
code_number UCode.already_exists = 6
code_number UCode.permission_denied = 7
code_number UCode.resource_exhausted = 8
code_number UCode.failed_precondition = 9
code_number UCode.unimplemented = 10
code_number UCode.internal = 11
code_number UCode.unavailable = 12
code_number UCode.data_loss = 13
code_number UCode.unauthenticated = 14

abbrev formats : List UPayloadFormat
formats =
    UPayloadFormat.unspecified ∷ UPayloadFormat.protobuf_wrapped_in_any ∷ UPayloadFormat.protobuf
    ∷ UPayloadFormat.json ∷ UPayloadFormat.someip ∷ UPayloadFormat.someip_tlv ∷ UPayloadFormat.raw
    ∷ UPayloadFormat.text ∷ UPayloadFormat.shm ∷ []

abbrev format_number : UPayloadFormat → ℕ
format_number UPayloadFormat.unspecified = 0
format_number UPayloadFormat.protobuf_wrapped_in_any = 1
format_number UPayloadFormat.protobuf = 2
format_number UPayloadFormat.json = 3
format_number UPayloadFormat.someip = 4
format_number UPayloadFormat.someip_tlv = 5
format_number UPayloadFormat.raw = 6
format_number UPayloadFormat.text = 7
format_number UPayloadFormat.shm = 8

abbrev at : {A : Type 0} → ℕ → List A → Option A
at n [] = none
at zero (a ∷ xs) = some a
at (suc n) (a ∷ xs) = at n xs

abbrev at_integer : {A : Type 0} → List A → ℤ → Option A
at_integer xs (pos n) = at n xs
at_integer xs (negsuc n) = none

abbrev numbers : EnumNumbers
numbers = record {
  code_value = λ c. pos (code_number c);
  code_from_i32 = at_integer codes;
  format_value = λ f. pos (format_number f);
  format_from_i32 = at_integer formats;
}

code_read : (c : UCode) → numbers.code_from_i32 (numbers.code_value c) ≡ some c
code_read UCode.ok = refl
code_read UCode.cancelled = refl
code_read UCode.unknown = refl
code_read UCode.invalid_argument = refl
code_read UCode.deadline_exceeded = refl
code_read UCode.not_found = refl
code_read UCode.already_exists = refl
code_read UCode.permission_denied = refl
code_read UCode.resource_exhausted = refl
code_read UCode.failed_precondition = refl
code_read UCode.unimplemented = refl
code_read UCode.internal = refl
code_read UCode.unavailable = refl
code_read UCode.data_loss = refl
code_read UCode.unauthenticated = refl

format_read : (f : UPayloadFormat) → numbers.format_from_i32 (numbers.format_value f) ≡ some f
format_read UPayloadFormat.unspecified = refl
format_read UPayloadFormat.protobuf_wrapped_in_any = refl
format_read UPayloadFormat.protobuf = refl
format_read UPayloadFormat.json = refl
format_read UPayloadFormat.someip = refl
format_read UPayloadFormat.someip_tlv = refl
format_read UPayloadFormat.raw = refl
format_read UPayloadFormat.text = refl
format_read UPayloadFormat.shm = refl

abbrev parser : UriParser
parser = record {
  parse_reference = λ s. ok (parts topic false (some vcu));
  parse_authority = λ s. ok vcu;
  scheme_eq = str_eq;
}

abbrev attributes : UAttributes
attributes = record publish_attributes { payload_format = known UPayloadFormat.text }

abbrev payload : Option (List ℕ)
payload = some (72 ∷ 105 ∷ [])

-- The event of the text "Hi".
convertible : IsConvertible attributes payload
unfolding is_utf8 lead
convertible = record {
  id = (uuid, refl);
  type_ = (UMessageType.publish, refl);
  source = (topic, refl);
  priority = (UPriority.unspecified, refl);
  ttl = omega arith;
  level = tt;
  text = refl;
}

to_event-IsOk_iff_example :
    IsOk (
      to_event simd parser proto numbers
        (record { attributes = some attributes; payload = payload }))
    ↔ IsConvertible attributes payload
to_event-IsOk_iff_example = to_event-IsOk_iff simd parser proto numbers attributes payload

converted : IsOk (
    to_event simd parser proto numbers (record { attributes = some attributes; payload = payload }))
converted = (to_event-IsOk_iff simd parser proto numbers attributes payload).1 convertible

topic-IsBounded : IsBounded topic
topic-IsBounded = record {
  authority = omega arith;
  ue_id = omega arith;
  version = omega arith;
  resource = omega arith;
}

readable : IsReadable simd parser proto attributes
readable = record {
  id =
      (from_str-to_hyphenated_string simd uuid uuid parsed (omega arith) (omega arith)).1
        (uuid_valid, refl);
  reqid = tt;
  source =
      from_str-to_uri parser topic false (some vcu) topic-IsBounded (remote vcu vcu-IsHostOnly) refl
        refl;
  sink = tt;
  type_ = ("pub.v1", Memᴰ.tail (Memᴰ.head refl), refl);
  priority = ("CS1", Memᴰ.tail (Memᴰ.tail (Memᴰ.head refl)), refl);
}

distinct : HasDistinctNames proto
distinct = record { types = type_name-IsInjective; priorities = priority_name-IsInjective }

reads : ReadsNumbers numbers
reads = record { codes = code_read; formats = format_read }

valid :
    validate proto
      (get_validator_for_attributes (normal attributes payload))
      (normal attributes payload)
    ≡ ok tt
unfolding message_type get_validator_for_attributes
valid = (validate_iff proto UAttributesValidators.publish (normal attributes payload)).1 (record {
  type_ = refl;
  id = (uuid, refl, uuid_valid);
  source = (topic, refl, (omega arith, (verify_no_wildcards_iff topic).0 topic_concrete));
  sink = refl;
  own = tt;
})

from_event-to_event_example :
    from_event simd parser proto numbers (converted.0)
    ≡ ok (record { attributes = some (normal attributes payload); payload = payload })
from_event-to_event_example =
    from_event-to_event simd parser proto numbers attributes payload (converted.0) readable distinct
      reads valid (converted.1)

restored :
    from_event simd parser proto numbers (converted.0)
    ≡ ok (record { attributes = some (normal attributes payload); payload = payload })
restored =
    from_event-to_event simd parser proto numbers attributes payload (converted.0) readable distinct
      reads valid (converted.1)

from_event-IsValid_example :
    (a : UAttributes) × (some (normal attributes payload) ≡ some a)
    × ((converted.0).spec_version ≡ spec_version)
    × (payload ≡ payload_of ((converted.0).event_data))
    × IsValid proto (get_validator_for_attributes a) a
from_event-IsValid_example =
    from_event-IsValid simd parser proto numbers (converted.0)
      (record { attributes = some (normal attributes payload); payload = payload }) restored
