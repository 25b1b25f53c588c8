-- ===== src/LocalTransport/FilterSoundness.antt =====
-- src/utransport.rs, src/local_transport.rs: the filters that
-- `verify_filter_criteria` refuses, and the messages that validators accept.
use up_rust.Prelude.{
  subst, ℕ, List, ◌≤◌, ◌<◌, ◌≡◌, refl, ap, sym, ◌⊎◌, inl, inr, true, Option, none, some, ok, arith,
}
use up_rust.Proto.{UUri, UAttributes, Descriptors}
use up_rust.Uri.{is_notification_destination, is_rpc_method, is_event, has_wildcard_resource_id}
use up_rust.Uri.Matching.Laws.{Accepts, matches_iff}
use up_rust.Validator.{UAttributesValidators, publish, notification, request, response, validate}
use up_rust.Validator.Laws.{IsValid, validate_iff}
use up_rust.Transport.{verify_filter_criteria}
use up_rust.LocalTransport.{
  RegisteredListener, matches, matches_msg, sink_matches, matches_attributes,
}

-- What the filters of a listener say of the resources of a message that they match.
abbrev SinkMatch : Option UUri → Option UUri → Type 0
SinkMatch none s = s ≡ none
SinkMatch (some p) s = (u : UUri) × (s ≡ some u) × Accepts p u

sink_match : (p s : Option UUri) → sink_matches p s ≡ true → SinkMatch p s
sink_match none none h = refl
sink_match none (some u) h = cc
sink_match (some p) none h = cc
sink_match (some p) (some u) h = (u, refl, (matches_iff p u).0 h)

filters_match :
    (r : RegisteredListener) (source : UUri) (sink : Option UUri)
    → matches r source sink ≡ true
    → Accepts r.source_filter source × SinkMatch r.sink_filter sink
unfolding matches
filters_match r source sink h = (
  (matches_iff r.source_filter source).0 (ground arith),
  sink_match r.sink_filter sink (ground arith),
)

attributes_match :
    (r : RegisteredListener) (a : UAttributes) (o : Option UUri)
    → matches_attributes r (some a) o ≡ true
    → (source : UUri) × (o ≡ some source)
      × Accepts r.source_filter source
      × SinkMatch r.sink_filter a.sink
attributes_match r a none h = cc
attributes_match r a (some source) h =
    let (accepts, sink) = filters_match r source a.sink h in (source, refl, accepts, sink)

-- What a validator says of the two resource IDs.
abbrev Resources : UUri → Option UUri → Type 0
Resources source none = 0x8000 ≤ source.resource_id
Resources source (some sink) =
    ((sink.resource_id ≡ 0) × (0 < source.resource_id))
    ⊎ ((source.resource_id ≡ 0) × (0 < sink.resource_id) × (sink.resource_id < 0x8000))

abbrev resource_id_of : UUri → ℕ
resource_id_of u = u.resource_id

-- The resource IDs of a message that some validator accepts.
valid-Resources :
    (proto : Descriptors) (v : UAttributesValidators) (a : UAttributes)
    → IsValid proto v a
    → (source : UUri) → a.source ≡ some source
    → Resources source a.sink
valid-Resources proto publish a h source e =
    let (topic, found, (range, rest)) = h.source in
    let same : topic ≡ source = cc in
    subst (Resources source) (sym h.sink) (subst (λ u. 0x8000 ≤ u.resource_id) same range)
valid-Resources proto notification a h source e =
    let (origin, found, (range, rest)) = h.source in
    let (sink, there, (zero_id, concrete)) = h.sink in
    let same : origin ≡ source = cc in
    let differs : origin.resource_id ≡ source.resource_id = ap resource_id_of same in
    subst (Resources source) (sym there) (inl (zero_id, omega arith))
valid-Resources proto request a h source e =
    let (origin, found, (zero_id, concrete)) = h.source in
    let (sink, there, (positive, below, concrete_sink)) = h.sink in
    let same : origin ≡ source = cc in
    let same_id : origin.resource_id ≡ source.resource_id = ap resource_id_of same in
    subst (Resources source) (sym there) (inr (omega arith, positive, below))
valid-Resources proto response a h source e =
    let (origin, found, (positive, below, concrete)) = h.source in
    let (sink, there, (zero_id, concrete_sink)) = h.sink in
    let same : origin ≡ source = cc in
    let same_id : origin.resource_id ≡ source.resource_id = ap resource_id_of same in
    subst (Resources source) (sym there) (inl (zero_id, omega arith))

-- Filters that match two resources of such kinds pass the check.
passes :
    (p : UUri) (q : Option UUri) (source : UUri) (sink : Option UUri)
    → Accepts p source
    → SinkMatch q sink
    → Resources source sink
    → verify_filter_criteria p q ≡ ok tt
unfolding verify_filter_criteria is_notification_destination is_rpc_method is_event
    has_wildcard_resource_id
passes p none source sink h k valid =
    let facts : Resources source none = subst (Resources source) k valid in
    ground (arith, h.resource, facts)
passes p (some q) source sink h (u, e, k) valid =
    let facts : Resources source (some u) = subst (Resources source) e valid in
    ground (arith, h.resource, k.resource, facts)

-- If `verify_filter_criteria` refuses a listener's filters then the listener matches no message
-- whose attributes any of the four validators accepts: a listener whose filters match a valid
-- message passes the check.
pub matches_msg-verify_filter_criteria :
    (proto : Descriptors) (v : UAttributesValidators) (r : RegisteredListener) (a : UAttributes)
    (payload : Option (List ℕ))
    → validate proto v a ≡ ok tt
    → matches_msg r (record { attributes = some a; payload = payload }) ≡ true
    → verify_filter_criteria r.source_filter r.sink_filter ≡ ok tt
unfolding matches_msg
matches_msg-verify_filter_criteria proto v r a payload valid h =
    let (source, found, accepts, sink) = attributes_match r a a.source h in
    passes r.source_filter r.sink_filter source a.sink accepts sink
      (valid-Resources proto v a ((validate_iff proto v a).0 valid) source found)
