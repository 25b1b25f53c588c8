-- ===== src/CloudEvents/Extensions.antt =====
-- src/cloudevents.rs: what the setters put into an event's extension attributes, and what the
-- getters read from them.
use up_rust.Prelude.{
  ℕ, ◌^◌, ◌<◌, ◌≡◌, List, sym, refl, ap, subst, ◌∙◌, false, String, Option, none, some, Result, ok,
  map_err, arith, not, if◌then◌else◌, ltb_iff, ltb, Bool-cases, inl, inr,
}
use up_rust.Prelude.Int.{pos}
use up_rust.Proto.{UPriority, UPayloadFormat, UCode, Uuid, UUri, Descriptors, is_ok}
use up_rust.Uuid
use up_rust.Uuid.{UuidText}
use up_rust.Uri.Parsing.{UriParser, to_uri}
use up_rust.Enums.{to_priority_code}
use up_rust.Message.{attributes_validation_error}
use up_rust.CloudEvents.{
  from_utf8, set_text, set_payload, payload_of, when, when_ok, when_set, set_optional_payload,
}
use up_rust.CloudEvents.Event.{
  CloudEvent, CloudEventData, binary_data, text_data, proto_data, Attributes, insert,
  insert_integer, CloudEventAttributeValue, ce_integer, ce_string, ce_uri_ref, EnumNumbers,
  is_unspecified, set_sink, set_priority, set_ttl, set_token, set_permission_level, set_request_id,
  set_commstatus, set_traceparent, set_payload_format,
}

-- The values of the extension attributes that an event can have.
pub record Extensions : Type 0 where
  pub sink : Option UUri
  pub priority : Option UPriority
  pub ttl : Option ℕ
  pub token : Option String
  pub level : Option ℕ
  pub reqid : Option Uuid
  pub commstatus : Option UCode
  pub traceparent : Option String
  pub format : Option UPayloadFormat

abbrev pub value :
    {A : Type 0} → (A → CloudEventAttributeValue) → Option A → Option CloudEventAttributeValue
value f none = none
value f (some a) = some (f a)

-- OK is not written, and neither is an unspecified format.
abbrev pub written_code : Option UCode → Option UCode
written_code none = none
written_code (some code) = if not (is_ok code) then some code else none

abbrev pub written_priority : UPriority → Option UPriority
written_priority UPriority.unspecified = none
written_priority p = some p

abbrev pub written_format : UPayloadFormat → Option UPayloadFormat
written_format f = if not (is_unspecified f) then some f else none

pub ok_injective : {E A : Type 0} {a b : A} → ◌≡◌ {A = Result E A} (ok a) (ok b) → a ≡ b
ok_injective h = cc

-- The attributes that every event has.
pub record Core : Type 0 where
  pub id : String
  pub type_ : String
  pub source : String
  pub spec_version : String
  pub event_data : Option CloudEventData

abbrev pub core : CloudEvent → Core
core e = record {
  id = e.id;
  type_ = e.type_;
  source = e.source;
  spec_version = e.spec_version;
  event_data = e.event_data;
}

module _ (simd : UuidText) (parser : UriParser) (proto : Descriptors) (numbers : EnumNumbers) where
  -- The extension attributes of an event are those of `x`.
  abbrev pub Has : Attributes → Extensions → Type 0
  Has m x =
      (m "sink" ≡ value (λ u. ce_uri_ref (to_uri u false)) x.sink)
      × (m "priority" ≡ value (λ p. ce_string (to_priority_code proto p)) x.priority)
      × (m "ttl" ≡ value (λ n. ce_integer (pos n)) x.ttl)
      × (m "token" ≡ value ce_string x.token)
      × (m "plevel" ≡ value (λ n. ce_integer (pos n)) x.level)
      × (m "reqid" ≡ value (λ i. ce_string (Uuid.to_hyphenated_string simd i)) x.reqid)
      × (m "commstatus" ≡ value (λ c. ce_integer (numbers.code_value c)) x.commstatus)
      × (m "traceparent" ≡ value ce_string x.traceparent)
      × (m "pformat" ≡ value (λ f. ce_integer (numbers.format_value f)) x.format)

  abbrev pub Holds : Core → CloudEvent → Extensions → Type 0
  Holds c e x = (core e ≡ c) × Has e.attributes x

  -- Each setter adds its own value, and keeps the others.
  pub sink_set :
      {c : Core} (o : Option UUri) (e : CloudEvent) (x : Extensions)
      → Holds c e (record x { sink = none })
      → Holds c ((when o set_sink e)) (record x { sink = o })
  unfolding set_sink
  sink_set none e x h = h
  sink_set (some u) e x h = (h.0, (refl, h.1.1, h.1.2, h.1.3, h.1.4, h.1.5, h.1.6, h.1.7, h.1.8))

  pub priority_set :
      {c : Core} (p : UPriority) (e : CloudEvent) (x : Extensions)
      → Holds c e (record x { priority = none })
      → Holds c
          ((when_set simd parser proto numbers p e))
          (record x { priority = written_priority p })
  unfolding set_priority
  priority_set UPriority.unspecified e x h = h
  priority_set _ e x h = (h.0, (h.1.0, refl, h.1.2, h.1.3, h.1.4, h.1.5, h.1.6, h.1.7, h.1.8))

  pub token_set :
      {c : Core} (o : Option String) (e : CloudEvent) (x : Extensions)
      → Holds c e (record x { token = none })
      → Holds c ((when o set_token e)) (record x { token = o })
  unfolding set_token
  token_set none e x h = h
  token_set (some t) e x h = (h.0, (h.1.0, h.1.1, h.1.2, refl, h.1.4, h.1.5, h.1.6, h.1.7, h.1.8))

  pub reqid_set :
      {c : Core} (o : Option Uuid) (e : CloudEvent) (x : Extensions)
      → Holds c e (record x { reqid = none })
      → Holds c ((when o (set_request_id simd) e)) (record x { reqid = o })
  unfolding set_request_id
  reqid_set none e x h = h
  reqid_set (some i) e x h = (h.0, (h.1.0, h.1.1, h.1.2, h.1.3, h.1.4, refl, h.1.6, h.1.7, h.1.8))

  pub traceparent_set :
      {c : Core} (o : Option String) (e : CloudEvent) (x : Extensions)
      → Holds c e (record x { traceparent = none })
      → Holds c ((when o set_traceparent e)) (record x { traceparent = o })
  unfolding set_traceparent
  traceparent_set none e x h = h
  traceparent_set (some t) e x h =
      (h.0, (h.1.0, h.1.1, h.1.2, h.1.3, h.1.4, h.1.5, h.1.6, refl, h.1.8))

  pub commstatus_set :
      {c : Core} (o : Option UCode) (e : CloudEvent) (x : Extensions)
      → Holds c e (record x { commstatus = none })
      → Holds c ((when o (set_commstatus numbers) e)) (record x { commstatus = written_code o })
  unfolding set_commstatus
  commstatus_set none e x h = h
  commstatus_set (some UCode.ok) e x h = h
  commstatus_set (some _) e x h =
      (h.0, (h.1.0, h.1.1, h.1.2, h.1.3, h.1.4, h.1.5, refl, h.1.7, h.1.8))

  pub format_set :
      {c : Core} (f : UPayloadFormat) (e : CloudEvent) (x : Extensions)
      → Holds c e (record x { format = none })
      → Holds c ((set_payload_format numbers f e)) (record x { format = written_format f })
  unfolding set_payload_format
  format_set UPayloadFormat.unspecified e x h = h
  format_set _ e x h = (h.0, (h.1.0, h.1.1, h.1.2, h.1.3, h.1.4, h.1.5, h.1.6, h.1.7, refl))

  -- A number is set where an i32 holds it.
  integer_inserted :
      (name : String) (n : ℕ) (e e' : CloudEvent)
      → map_err attributes_validation_error (insert_integer name n e) ≡ ok e'
      → (n < 2 ^ 31) × (insert name (ce_integer (pos n)) e ≡ e')
  integer_inserted name n e e' h = elim (Bool-cases (ltb n (2 ^ 31))) [
    | inl small ↦ ((ltb_iff _ _).0 small, ok_injective (rw small at h))
    | inr large ↦ cc (rw large at h)
  ]

  pub ttl_set :
      {c : Core} (o : Option ℕ) (e e' : CloudEvent) (x : Extensions)
      → when_ok o set_ttl e ≡ ok e'
      → Holds c e (record x { ttl = none })
      → Holds c e' (record x { ttl = o })
  unfolding set_ttl
  ttl_set {c = c} none e e' x set h =
      subst (λ t. Holds c t (record x { ttl = none })) (ok_injective set) h
  ttl_set {c = c} (some n) e e' x set h =
      subst (λ t. Holds c t (record x { ttl = some n })) (integer_inserted "ttl" n e e' set).1
        (h.0, (h.1.0, h.1.1, refl, h.1.3, h.1.4, h.1.5, h.1.6, h.1.7, h.1.8))

  pub level_set :
      {c : Core} (o : Option ℕ) (e e' : CloudEvent) (x : Extensions)
      → when_ok o set_permission_level e ≡ ok e'
      → Holds c e (record x { level = none })
      → Holds c e' (record x { level = o })
  unfolding set_permission_level
  level_set {c = c} none e e' x set h =
      subst (λ t. Holds c t (record x { level = none })) (ok_injective set) h
  level_set {c = c} (some n) e e' x set h =
      subst (λ t. Holds c t (record x { level = some n })) (integer_inserted "plevel" n e e' set).1
        (h.0, (h.1.0, h.1.1, h.1.2, h.1.3, refl, h.1.5, h.1.6, h.1.7, h.1.8))

from_utf8-eq-some : (bytes text : List ℕ) → from_utf8 bytes ≡ some text → text ≡ bytes
unfolding from_utf8
from_utf8-eq-some bytes text h = ground arith

set_text_kept :
    (payload : List ℕ) (o : Option (List ℕ)) (e e' : CloudEvent)
    → from_utf8 payload ≡ o
    → set_text o e ≡ ok e'
    → e' ≡ record e { event_data = some (text_data payload) }
set_text_kept payload none e e' read h = cc
set_text_kept payload (some text) e e' read h =
    sym (ok_injective h)
    ∙ ap {A = List ℕ} (λ t. record e { event_data = some (text_data t) })
        (from_utf8-eq-some payload text read)

-- A payload is carried as one of the three kinds of data, of the same bytes.
data_set :
    (f : UPayloadFormat) (payload : List ℕ) (e e' : CloudEvent)
    → set_payload f payload e ≡ ok e'
    → (d : CloudEventData) × (e' ≡ record e { event_data = some d })
      × (payload_of (some d) ≡ some payload)
unfolding set_payload
data_set UPayloadFormat.protobuf payload e e' h =
    (proto_data "" payload, sym (ok_injective h), refl)
data_set UPayloadFormat.protobuf_wrapped_in_any payload e e' h =
    (proto_data "" payload, sym (ok_injective h), refl)
data_set UPayloadFormat.text payload e e' h =
    (text_data payload, set_text_kept payload _ e e' refl h, refl)
data_set UPayloadFormat.json payload e e' h =
    (text_data payload, set_text_kept payload _ e e' refl h, refl)
data_set _ payload e e' h = (binary_data payload, sym (ok_injective h), refl)

module _ (simd : UuidText) (parser : UriParser) (proto : Descriptors) (numbers : EnumNumbers) where
  -- The format is written only along with a payload.
  abbrev pub carried_format : Option (List ℕ) → UPayloadFormat → Option UPayloadFormat
  carried_format none f = none
  carried_format (some payload) f = written_format f

  pub payload_set :
      {c : Core} (o : Option (List ℕ)) (f : UPayloadFormat) (e e' : CloudEvent) (x : Extensions)
      → set_optional_payload simd parser proto numbers o f e ≡ ok e'
      → c.event_data ≡ none
      → Holds simd parser proto numbers c e (record x { format = none })
      → Holds simd parser proto numbers
          (record c { event_data = e'.event_data })
          e'
          (record x { format = carried_format o f })
        × (payload_of e'.event_data ≡ o)
  payload_set {c = c} none f e e' x set no_data h =
      subst
        (λ t.
          Holds simd parser proto numbers (record c { event_data = t.event_data }) t
            (record x { format = none })
          × (payload_of t.event_data ≡ none))
        (ok_injective set)
        (
          (ap {A = Core} (λ t. record t { event_data = e.event_data }) h.0, h.1),
          ap payload_of (ap {A = Core} (λ t. t.event_data) h.0 ∙ no_data),
        )
  payload_set {c = c} (some payload) f e e' x set no_data h =
      let (d, built, bytes) = data_set f payload (set_payload_format numbers f e) e' set in
      let formatted = format_set simd parser proto numbers f e x h in
      subst
        (λ t.
          Holds simd parser proto numbers (record c { event_data = t.event_data }) t
            (record x { format = written_format f })
          × (payload_of t.event_data ≡ some payload))
        (sym built)
        ((ap {A = Core} (λ t. record t { event_data = some d }) formatted.0, formatted.1), bytes)
