-- ===== src/CloudEvents/Writing.antt =====
-- src/cloudevents.rs: what the event of a message holds.
use up_rust.Prelude.{ℕ, ◌≡◌, refl, ap, false, String, Option, none, some, List, ok, >>=-eq-ok}
use up_rust.Proto.{UMessageType, UPriority, Uuid, UUri, UAttributes, UMessage, Descriptors}
use up_rust.Uuid
use up_rust.Uuid.{UuidText}
use up_rust.Uri.Parsing.{UriParser, to_uri}
use up_rust.Enums.{to_cloudevent_type}
use up_rust.Message
use up_rust.Message.{UMessageError, attributes_validation_error, or_cs1, known_value}
use up_rust.CloudEvents.{
  assemble, when, when_ok, when_set, to_event, required, format_or_default, new, spec_version,
  payload_of,
}
use up_rust.CloudEvents.Event.{
  CloudEvent, EnumNumbers, set_sink, set_ttl, set_token, set_permission_level, set_request_id,
  set_commstatus, set_traceparent, set_id, set_type, set_source,
}
use up_rust.CloudEvents.Extensions.{
  Extensions, Core, Holds, written_code, written_priority, carried_format, ok_injective, sink_set,
  priority_set, ttl_set, token_set, level_set, reqid_set, commstatus_set, traceparent_set,
  payload_set,
}
use up_rust.CloudEvents.Normal.{code_value_of}

required-eq-ok :
    {A : Type 0} (o : Option A) (message : String) (a : A) → required o message ≡ ok a → o ≡ some a
required-eq-ok none message a h = cc
required-eq-ok (some b) message a h = ap some (ok_injective h)

abbrev nothing : Extensions
nothing = record {
  sink = none;
  priority = none;
  ttl = none;
  token = none;
  level = none;
  reqid = none;
  commstatus = none;
  traceparent = none;
  format = none;
}

module _ (simd : UuidText) (parser : UriParser) (proto : Descriptors) (numbers : EnumNumbers) where
  abbrev core_of : Uuid → UMessageType → UUri → CloudEvent → Core
  core_of id type_ source e = record {
    id = Uuid.to_hyphenated_string simd id;
    type_ = to_cloudevent_type proto type_;
    source = to_uri source false;
    spec_version = spec_version;
    event_data = e.event_data;
  }

  abbrev extensions_of : UAttributes → Option (List ℕ) → UPriority → Extensions
  extensions_of a payload priority = record {
    sink = a.sink;
    priority = written_priority priority;
    ttl = a.ttl;
    token = a.token;
    level = a.permission_level;
    reqid = a.reqid;
    commstatus = written_code (code_value_of a.commstatus);
    traceparent = a.traceparent;
    format =
        carried_format simd parser proto numbers payload
          (format_or_default (known_value a.payload_format));
  }

  -- The event of a message, by what it holds.
  pub record IsEventOf (a : UAttributes) (payload : Option (List ℕ)) (e : CloudEvent) : Type 0 where
    pub id : Uuid
    pub type_ : UMessageType
    pub source : UUri
    pub priority : UPriority
    pub has_id : a.id ≡ some id
    pub has_type : known_value a.type_ ≡ some type_
    pub has_source : a.source ≡ some source
    pub has_priority :
        Message.priority (record { attributes = some a; payload = payload }) ≡ some priority
    pub holds :
        Holds simd parser proto numbers
          (core_of id type_ source e)
          e
          (extensions_of a payload priority)
    pub same_payload : payload_of e.event_data ≡ payload

  assemble-IsEventOf :
      (a : UAttributes) (payload : Option (List ℕ)) (e : CloudEvent) (id : Uuid)
      (type_ : UMessageType) (source : UUri) (priority : UPriority)
      → assemble simd parser proto numbers id type_ source priority
          (record { attributes = some a; payload = payload })
        ≡ ok e
      → Holds simd parser proto numbers
          (core_of id type_ source e)
          e
          (extensions_of a payload priority)
        × (payload_of e.event_data ≡ payload)
  unfolding assemble Message.sink Message.ttl Message.token Message.permission_level
      Message.request_id Message.commstatus Message.traceparent Message.payload_format set_id
      set_type set_source
  assemble-IsEventOf a payload e id type_ source priority h =
      let e0 = set_source source (set_type proto type_ (set_id simd id new)) in
      let x1 = record nothing { sink = a.sink } in
      let x2 = record x1 { priority = written_priority priority } in
      let x3 = record x2 { ttl = a.ttl } in
      let x4 = record x3 { token = a.token } in
      let x5 = record x4 { level = a.permission_level } in
      let x6 = record x5 { reqid = a.reqid } in
      let x7 = record x6 { commstatus = written_code (code_value_of a.commstatus) } in
      let x8 = record x7 { traceparent = a.traceparent } in
      let c0 : Core = record (core_of id type_ source e) { event_data = none } in
      let h0 : Holds simd parser proto numbers c0 e0 nothing =
        (refl, (refl, refl, refl, refl, refl, refl, refl, refl, refl)) in
      let e1 = when a.sink set_sink e0 in
      let h1 = sink_set simd parser proto numbers {c = c0} a.sink e0 nothing h0 in
      let e2 = when_set simd parser proto numbers priority e1 in
      let h2 = priority_set simd parser proto numbers {c = c0} priority e1 x1 h1 in
      let (e3, timed, rest) = >>=-eq-ok (when_ok a.ttl set_ttl e2) _ h in
      let h3 = ttl_set simd parser proto numbers {c = c0} a.ttl e2 e3 x2 timed h2 in
      let e4 = when a.token set_token e3 in
      let h4 = token_set simd parser proto numbers {c = c0} a.token e3 x3 h3 in
      let (e5, levelled, rest2) =
        >>=-eq-ok (when_ok a.permission_level set_permission_level e4) _ rest in
      let h5 =
        level_set simd parser proto numbers {c = c0} a.permission_level e4 e5 x4 levelled h4 in
      let e6 = when a.reqid (set_request_id simd) e5 in
      let h6 = reqid_set simd parser proto numbers {c = c0} a.reqid e5 x5 h5 in
      let e7 = when (code_value_of a.commstatus) (set_commstatus numbers) e6 in
      let h7 =
        commstatus_set simd parser proto numbers {c = c0} (code_value_of a.commstatus) e6 x6 h6 in
      let e8 = when a.traceparent set_traceparent e7 in
      let h8 = traceparent_set simd parser proto numbers {c = c0} a.traceparent e7 x7 h7 in
      payload_set simd parser proto numbers {c = c0} payload
        (format_or_default (known_value a.payload_format)) e8 e x8 rest2 refl h8

  pub to_event-IsEventOf :
      (a : UAttributes) (payload : Option (List ℕ)) (e : CloudEvent)
      → to_event simd parser proto numbers (record { attributes = some a; payload = payload })
        ≡ ok e
      → IsEventOf a payload e
  unfolding to_event Message.id Message.type_ Message.source
  to_event-IsEventOf a payload e h =
      let (id, has_id, h1) = >>=-eq-ok (required a.id _) _ h in
      let (type_, has_type, h2) = >>=-eq-ok (required (known_value a.type_) _) _ h1 in
      let (source, has_source, h3) = >>=-eq-ok (required a.source _) _ h2 in
      let m : UMessage = record { attributes = some a; payload = payload } in
      let (priority, has_priority, h4) = >>=-eq-ok (required (Message.priority m) _) _ h3 in
      let (holds, same_payload) = assemble-IsEventOf a payload e id type_ source priority h4 in
      record {
        id = id;
        type_ = type_;
        source = source;
        priority = priority;
        has_id = required-eq-ok a.id _ id has_id;
        has_type = required-eq-ok (known_value a.type_) _ type_ has_type;
        has_source = required-eq-ok a.source _ source has_source;
        has_priority = required-eq-ok (Message.priority m) _ priority has_priority;
        holds = holds;
        same_payload = same_payload;
      }
