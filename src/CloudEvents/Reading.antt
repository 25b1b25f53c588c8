-- ===== src/CloudEvents/Reading.antt =====
-- src/cloudevents.rs: the getters read what the setters wrote.
use up_rust.Prelude.{ℕ, ◌≡◌, refl, ap, sym, subst, false, String, Option, none, some, List, ok}
use up_rust.Prelude.Int.{pos}
use up_rust.Proto.{
  EnumOrUnknown, known, unknown, UMessageType, UPriority, UPayloadFormat, UCode, Uuid, UUri,
  Descriptors,
}
use up_rust.Uuid
use up_rust.Uuid.{UuidText}
use up_rust.Uri.Parsing.{UriParser, to_uri, from_str}
use up_rust.Enums.{to_cloudevent_type, try_from_cloudevent_type, to_priority_code}
use up_rust.Enums.Laws.{
  IsInjective, try_from_cloudevent_type-to_cloudevent_type, try_from_priority_code-to_priority_code,
}
use up_rust.Message.{or_cs1, known_value}
use up_rust.Prelude.Optional
use up_rust.CloudEvents.{format_or_default}
use up_rust.CloudEvents.Event.{
  CloudEvent, EnumNumbers, ce_uri_ref, ce_string, ce_integer, as_integer, as_string, get_id,
  get_type, get_source, get_sink, get_priority, get_request_id, get_commstatus, get_payload_format,
  map_value, optional_u32,
}
use up_rust.CloudEvents.Extensions.{written_priority, carried_format, value, written_format}
use up_rust.CloudEvents.Normal.{Each, IsNamed, EachKnown, ReadsNumbers, explicit, kept_format}

module _ (simd : UuidText) (parser : UriParser) (proto : Descriptors) (numbers : EnumNumbers) where
  -- The getters read what the setters wrote.
  pub id_read :
      (e : CloudEvent) (o : Option Uuid) (id : Uuid)
      → o ≡ some id
      → e.id ≡ Uuid.to_hyphenated_string simd id
      → Each (λ i. Uuid.from_str simd (Uuid.to_hyphenated_string simd i) ≡ ok i) o
      → get_id simd e ≡ ok id
  unfolding get_id
  id_read e o id same text reads = rw text (rw (rw same at reads) refl)

  pub source_read :
      (e : CloudEvent) (o : Option UUri) (u : UUri)
      → o ≡ some u
      → e.source ≡ to_uri u false
      → Each (λ u. from_str parser (to_uri u false) ≡ ok u) o
      → get_source parser e ≡ ok u
  unfolding get_source
  source_read e o u same text reads = rw text (rw (rw same at reads) refl)

  pub type_read :
      (e : CloudEvent) (c : EnumOrUnknown UMessageType) (t : UMessageType)
      → known_value c ≡ some t
      → e.type_ ≡ to_cloudevent_type proto t
      → IsInjective proto.type_ce_name
      → EachKnown (IsNamed proto.type_ce_name proto.types) c
      → get_type proto e ≡ ok t
  unfolding get_type
  type_read e (known s) t same text distinct (name, listed, named) =
      let is : s ≡ t = cc in
      rw text (
        subst (λ u. try_from_cloudevent_type proto (to_cloudevent_type proto u) ≡ ok u) is
          (try_from_cloudevent_type-to_cloudevent_type proto s name distinct listed named))
  type_read e (unknown n) t same text distinct _ = cc

  pub sink_read :
      (e : CloudEvent) (o : Option UUri)
      → e.attributes "sink" ≡ value (λ u. ce_uri_ref (to_uri u false)) o
      → Each (λ u. from_str parser (to_uri u false) ≡ ok u) o
      → get_sink parser e ≡ ok o
  unfolding get_sink
  sink_read e none text reads = rw text refl
  sink_read e (some u) text reads = rw text (rw reads refl)

  pub reqid_read :
      (e : CloudEvent) (o : Option Uuid)
      → e.attributes "reqid" ≡ value (λ i. ce_string (Uuid.to_hyphenated_string simd i)) o
      → Each (λ i. Uuid.from_str simd (Uuid.to_hyphenated_string simd i) ≡ ok i) o
      → get_request_id simd e ≡ ok o
  unfolding get_request_id
  reqid_read e none text reads = rw text refl
  reqid_read e (some i) text reads = rw text (rw reads refl)

  pub u32_read :
      (e : CloudEvent) (o : Option ℕ) (name : String)
      → e.attributes name ≡ value (λ n. ce_integer (pos n)) o
      → optional_u32 (map_value as_integer (e.attributes name)) ≡ o
  u32_read e none name text = rw text refl
  u32_read e (some n) name text = rw text refl

  pub string_read :
      (e : CloudEvent) (o : Option String) (name : String)
      → e.attributes name ≡ value ce_string o
      → map_value as_string (e.attributes name) ≡ o
  string_read e none name text = rw text refl
  string_read e (some n) name text = rw text refl

  pub commstatus_read :
      (e : CloudEvent) (o : Option UCode)
      → e.attributes "commstatus" ≡ value (λ c. ce_integer (numbers.code_value c)) o
      → ReadsNumbers numbers
      → get_commstatus numbers e ≡ o
  unfolding get_commstatus
  commstatus_read e none text reads = rw text refl
  commstatus_read e (some c) text reads = rw text (reads.codes c)

  written_format_read :
      (e : CloudEvent) (f : UPayloadFormat)
      → e.attributes "pformat" ≡ value (λ f. ce_integer (numbers.format_value f)) (written_format f)
      → ReadsNumbers numbers
      → get_payload_format numbers e ≡ ok f
  unfolding get_payload_format
  written_format_read e UPayloadFormat.unspecified text reads = rw text refl
  written_format_read e _ text reads = rw text (rw (reads.formats _) refl)

  written-or_cs1 : (q : UPriority) → written_priority (or_cs1 q) ≡ some (or_cs1 q)
  written-or_cs1 UPriority.unspecified = refl
  written-or_cs1 _ = refl

  named_priority_read :
      (e : CloudEvent) (q : UPriority)
      → e.attributes "priority"
        ≡ value (λ p. ce_string (to_priority_code proto p)) (written_priority (or_cs1 q))
      → IsInjective proto.priority_ce_name
      → IsNamed proto.priority_ce_name proto.priorities (or_cs1 q)
      → get_priority proto e ≡ ok (or_cs1 q)
  unfolding get_priority
  named_priority_read e q text distinct (name, listed, named) = rw text (
      rw (written-or_cs1 q)
        (try_from_priority_code-to_priority_code proto (or_cs1 q) name distinct listed named))

  pub priority_read :
      (e : CloudEvent) (c : EnumOrUnknown UPriority) (p : UPriority)
      → Optional.◌>>=◌ (known_value c) (λ q. some (or_cs1 q)) ≡ some p
      → e.attributes "priority"
        ≡ value (λ p. ce_string (to_priority_code proto p)) (written_priority p)
      → IsInjective proto.priority_ce_name
      → EachKnown (λ p. IsNamed proto.priority_ce_name proto.priorities (or_cs1 p)) c
      → (get_priority proto e ≡ ok p) × (explicit c ≡ known p)
  priority_read e (known q) p same text distinct named =
      let is : or_cs1 q ≡ p = cc in
      (
        subst (λ r. get_priority proto e ≡ ok r) is
            (named_priority_read e q
              (subst
                (λ r.
                  e.attributes "priority"
                  ≡ value (λ p. ce_string (to_priority_code proto p)) (written_priority r))
                (sym is) text)
              distinct named),
        ap known is,
      )
  priority_read e (unknown n) p same text distinct named = cc

  pub format_read :
      (e : CloudEvent) (payload : Option (List ℕ)) (f : Option UPayloadFormat)
      → e.attributes "pformat"
        ≡ value
            (λ f. ce_integer (numbers.format_value f))
            (carried_format simd parser proto numbers payload (format_or_default f))
      → ReadsNumbers numbers
      → get_payload_format numbers e ≡ ok (kept_format payload f)
  unfolding get_payload_format
  format_read e none f text reads = rw text refl
  format_read e (some payload) f text reads = written_format_read e (format_or_default f) text reads

  pub known_type :
      (c : EnumOrUnknown UMessageType) (t : UMessageType) → known_value c ≡ some t → known t ≡ c
  known_type (known s) t h = cc
  known_type (unknown n) t h = cc
