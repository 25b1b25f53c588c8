-- ===== src/CloudEvents/RoundTrip.antt =====
-- src/cloudevents.rs: a message through an event and back.
use up_rust.Prelude.{ℕ, ◌≡◌, refl, ap, sym, Option, some, List, ok}
use up_rust.Proto.{UAttributes, Descriptors}
use up_rust.Uuid.{UuidText}
use up_rust.Uri.Parsing.{UriParser}
use up_rust.Message
use up_rust.Message.{UMessageError, attributes_validation_error, or_cs1, known_value}
use up_rust.Validator.{validate, get_validator_for_attributes}
use up_rust.CloudEvents.{to_event, from_event, attributes_of}
use up_rust.CloudEvents.Event.{
  CloudEvent, EnumNumbers, get_ttl, get_token, get_permission_level, get_traceparent,
}
use up_rust.CloudEvents.Extensions.{Core, written_code}
use up_rust.CloudEvents.Normal.{IsReadable, HasDistinctNames, ReadsNumbers, code_value_of, normal}
use up_rust.CloudEvents.Writing.{IsEventOf, to_event-IsEventOf}
use up_rust.CloudEvents.Reading.{
  id_read, source_read, type_read, sink_read, reqid_read, u32_read, string_read, commstatus_read,
  priority_read, format_read, known_type,
}

module _ (simd : UuidText) (parser : UriParser) (proto : Descriptors) (numbers : EnumNumbers) where
  attributes_read :
      (a : UAttributes) (payload : Option (List ℕ)) (e : CloudEvent)
      (v : IsEventOf simd parser proto numbers a payload e)
      → IsReadable simd parser proto a
      → HasDistinctNames proto
      → ReadsNumbers numbers
      → attributes_of simd parser proto numbers e ≡ ok (normal a payload)
  unfolding attributes_of get_ttl get_permission_level get_token get_traceparent Message.priority
  attributes_read a payload e v readable distinct reads =
      let (same, (sink, priority, ttl, token, level, reqid, commstatus, traceparent, format)) =
        v.holds in
      let (prio, explicit_prio) =
        priority_read simd parser proto numbers e a.priority v.priority v.has_priority priority
          distinct.priorities readable.priority in
      rw
        (
          id_read simd parser proto numbers e a.id v.id v.has_id (ap {A = Core} (λ c. c.id) same)
              readable.id,
          type_read simd parser proto numbers e a.type_ v.type_ v.has_type
              (ap {A = Core} (λ c. c.type_) same) distinct.types readable.type_,
          source_read simd parser proto numbers e a.source v.source v.has_source
              (ap {A = Core} (λ c. c.source) same) readable.source,
          sink_read simd parser proto numbers e a.sink sink readable.sink,
          prio,
          reqid_read simd parser proto numbers e a.reqid reqid readable.reqid,
          format_read simd parser proto numbers e payload (known_value a.payload_format) format
              reads,
          u32_read simd parser proto numbers e a.ttl "ttl" ttl,
          u32_read simd parser proto numbers e a.permission_level "plevel" level,
          string_read simd parser proto numbers e a.token "token" token,
          string_read simd parser proto numbers e a.traceparent "traceparent" traceparent,
          commstatus_read simd parser proto numbers e (written_code (code_value_of a.commstatus))
              commstatus reads,
        )
        (λ i. ok (record (normal a payload) {
          id = sym v.has_id i;
          type_ = known_type simd parser proto numbers a.type_ v.type_ v.has_type i;
          source = sym v.has_source i;
          priority = sym explicit_prio i;
        }))

  -- Where a message's properties are readable, an event that it is converted to is converted back
  -- to the same message but for what `normal` says, if that is valid: a priority that was left out
  -- comes back as CS1, the status OK and a status that the program does not know are dropped, and a
  -- format that it does not know, or that has no payload, becomes unspecified.
  pub from_event-to_event :
      (a : UAttributes) (payload : Option (List ℕ)) (e : CloudEvent)
      → IsReadable simd parser proto a
      → HasDistinctNames proto
      → ReadsNumbers numbers
      → validate proto (get_validator_for_attributes (normal a payload)) (normal a payload) ≡ ok tt
      → to_event simd parser proto numbers (record { attributes = some a; payload = payload })
        ≡ ok e
      → from_event simd parser proto numbers e
        ≡ ok (record { attributes = some (normal a payload); payload = payload })
  unfolding from_event
  from_event-to_event a payload e readable distinct reads valid converted =
      let v = to_event-IsEventOf simd parser proto numbers a payload e converted in
      rw
        (
          attributes_read a payload e v readable distinct reads,
          valid,
          v.same_payload,
          ap {A = Core} (λ c. c.spec_version) v.holds.0,
        )
        refl
