-- ===== src/Communication/InProcess/Connected.antt =====
-- src/local_transport.rs with src/communication/in_memory_rpc_server.rs and
-- src/communication/in_memory_rpc_client.rs: which listener gets a request and a response.
use up_rust.Prelude.{
  ℕ, ◌<◌, ◌≡◌, ◌≢◌, refl, ap, sym, subst, ◌∙◌, true, false, Option, none, some, List, [], ◌∷◌, ok,
  inl, inr, Bool-cases, Result-cases, arith,
}
use up_rust.Communication.Listening.{registered_lem}
use up_rust.Proto.{Descriptors, UUri, UAttributes, UMessage}
use up_rust.Uri.{any, any_with_resource_id, is_rpc_response}
use up_rust.Uri.Matching
use up_rust.Uri.Matching.Laws.{matches_iff, matches-any}
use up_rust.Validator.{UAttributesValidators}
use up_rust.Validator.Laws.{IsValid}
use up_rust.LocalTransport
use up_rust.LocalTransport.{
  RegisteredListener, LocalTransport, matches, matches_msg, dispatch_to, send, contains,
  listener_eq, register_listener,
}
use up_rust.LocalTransport.Deliveries.{listener_eq_iff}
use up_rust.LocalTransport.Delivery.{matched}
use up_rust.Transport.{LocalUriProvider}
use up_rust.Communication.RpcServer.{
  InMemoryRpcServer, register_endpoint, origin_or_any, validate_origin_filter,
}
use up_rust.Communication.RpcClient.{new}

-- A client and the endpoint of a method, and nothing else, on one transport.
pub record Pair : Type 0 where
  pub reply_to : UUri
  pub client : ℕ
  pub origin : UUri
  pub method : UUri
  pub endpoint : ℕ

abbrev pub client_of : Pair → RegisteredListener
client_of p = record { source_filter = any; sink_filter = some p.reply_to; listener = p.client }

abbrev pub endpoint_of : Pair → RegisteredListener
endpoint_of p = record {
  source_filter = p.origin;
  sink_filter = some p.method;
  listener = p.endpoint;
}

abbrev pub connected : Pair → LocalTransport
connected p = record { listeners = endpoint_of p ∷ client_of p ∷ [] }

-- A pattern that asks for another resource ID does not match.
pub unmatched :
    (p c : UUri)
    → p.resource_id ≢ 0xFFFF
    → p.resource_id ≢ c.resource_id
    → Matching.matches p c ≡ false
unmatched p c concrete other = elim (Bool-cases (Matching.matches p c)) [
  | inl h ↦ ground (arith, ((matches_iff p c).0 h).resource)
  | inr h ↦ h
]

pub unmatched_sink :
    (r : RegisteredListener) (m : UMessage) (a : UAttributes) (source sink filter : UUri)
    → m.attributes ≡ some a
    → a.source ≡ some source
    → a.sink ≡ some sink
    → r.sink_filter ≡ some filter
    → Matching.matches filter sink ≡ false
    → matches_msg r m ≡ false
unfolding matches_msg matches
unmatched_sink r m a source sink filter attributes from to filtered other =
    elim (Bool-cases (Matching.matches r.source_filter source)) [
      | inl accepted ↦ rw (attributes, from, to, accepted, filtered, other) refl
      | inr refused ↦ rw (attributes, from, to, refused) refl
    ]

unmatched_source :
    (r : RegisteredListener) (m : UMessage) (a : UAttributes) (source sink : UUri)
    → m.attributes ≡ some a
    → a.source ≡ some source
    → a.sink ≡ some sink
    → Matching.matches r.source_filter source ≡ false
    → matches_msg r m ≡ false
unfolding matches_msg matches
unmatched_source r m a source sink attributes from to other = rw (attributes, from, to, other) refl

module _ (p : Pair) (is_method : (0 < p.method.resource_id) × (p.method.resource_id < 0x8000))
    (is_place : p.reply_to.resource_id ≡ 0) where
  -- The request goes to the endpoint only.
  pub send-request :
      (m : UMessage) (a : UAttributes)
      → m.attributes ≡ some a
      → a.source ≡ some p.reply_to
      → a.sink ≡ some p.method
      → Matching.matches p.origin p.reply_to ≡ true
      → (send m (connected p)).1 ≡ (p.endpoint, m) ∷ []
  unfolding send dispatch_to
  send-request m a attributes from to accepted =
      let (positive, below) = is_method in
      rw
        (
          matched (endpoint_of p) m a p.reply_to p.method p.method attributes from to refl accepted
              (matches-any p.method).1,
          unmatched_sink (client_of p) m a p.reply_to p.method p.reply_to attributes from to refl (
              unmatched p.reply_to p.method (λ e. omega (arith, is_place, e))
                (λ e. omega (arith, is_place, e, positive))),
        )
        refl

  -- The response goes to the client only.
  pub send-response :
      (m : UMessage) (a : UAttributes)
      → m.attributes ≡ some a
      → a.source ≡ some p.method
      → a.sink ≡ some p.reply_to
      → p.origin.resource_id ≡ 0
      → (send m (connected p)).1 ≡ (p.client, m) ∷ []
  unfolding send dispatch_to
  send-response m a attributes from to origin =
      let (positive, below) = is_method in
      rw
        (
          unmatched_source (endpoint_of p) m a p.method p.reply_to attributes from to (
              unmatched p.origin p.method (λ e. omega (arith, origin, e))
                (λ e. omega (arith, origin, e, positive))),
          matched (client_of p) m a p.method p.reply_to p.reply_to attributes from to refl
              (matches-any p.method).0 (matches-any p.reply_to).1,
        )
        refl

apart :
    (p : Pair)
    → 0 < p.method.resource_id
    → p.reply_to.resource_id ≡ 0
    → contains (client_of p ∷ []) (endpoint_of p) ≡ false
unfolding contains
apart p positive place = elim (Bool-cases (listener_eq (client_of p) (endpoint_of p))) [
  | inl same ↦
      let sinks =
        ap (λ r. r.sink_filter) ((listener_eq_iff (client_of p) (endpoint_of p)).0 same) in
      let uris : p.reply_to ≡ p.method = cc in
      absurd (omega (arith, positive, place, ap (λ u. u.resource_id) uris))
  | inr other ↦ rw other refl
]

registered_both :
    (p : Pair)
    → 0 < p.method.resource_id
    → p.reply_to.resource_id ≡ 0
    → (register_listener
        (endpoint_of p)
        ((register_listener (client_of p) (record { listeners = [] })).1)).1
      ≡ connected p
unfolding register_listener contains
registered_both p positive place = rw (apart p positive place) refl

-- Creating a client and registering an endpoint lead there from an empty transport.
pub connected_lem :
    (proto : Descriptors) (caller uris : LocalUriProvider) (origin : Option UUri)
    (k client endpoint : ℕ) (server server_after : InMemoryRpcServer) (t after : LocalTransport)
    (log log_after : List (ℕ × UMessage))
    → new LocalTransport.transport caller client (record { listeners = [] }, []) ≡ (ok tt, (t, log))
    → register_endpoint LocalTransport.transport uris origin k endpoint (server, (t, log))
      ≡ (ok tt, (server_after, (after, log_after)))
    → 0 < (uris.resource_uri k).resource_id
    → caller.source_uri.resource_id ≡ 0
    → after
      ≡ connected (record {
        reply_to = caller.source_uri;
        client = client;
        origin = origin_or_any origin;
        method = uris.resource_uri k;
        endpoint = endpoint;
      })
unfolding new register_listener contains
connected_lem proto caller uris origin k client endpoint server server_after t after log log_after h
      g positive place =
    let p : Pair = record {
      reply_to = caller.source_uri;
      client = client;
      origin = origin_or_any origin;
      method = uris.resource_uri k;
      endpoint = endpoint;
    } in
    sym (registered_lem uris origin k endpoint server server_after t after log log_after g)
    ∙ ap (λ u. (register_listener (endpoint_of p) u).1) (sym (ap (λ d. d.1.0) h))
    ∙ registered_both p positive place

place_of :
    (origin : Option UUri)
    → validate_origin_filter origin ≡ ok tt
    → (origin_or_any origin).resource_id ≡ 0
unfolding validate_origin_filter any_with_resource_id is_rpc_response
place_of none h = refl
place_of (some u) h = ground arith

-- An origin filter that `register_endpoint` takes asks for the resource ID of places for responses.
pub origin-register_endpoint :
    (uris : LocalUriProvider) (origin : Option UUri) (k listener : ℕ)
    (server server_after : InMemoryRpcServer) (s s_after : LocalTransport × List (ℕ × UMessage))
    → register_endpoint LocalTransport.transport uris origin k listener (server, s)
      ≡ (ok tt, (server_after, s_after))
    → (origin_or_any origin).resource_id ≡ 0
unfolding register_endpoint
origin-register_endpoint uris origin k listener server server_after s s_after h =
    elim (Result-cases (validate_origin_filter origin)) [
      | inl (_, valid) ↦ place_of origin valid
      | inr (e, invalid) ↦ cc (rw invalid at h)
    ]

-- Where a valid request goes, and where its response is to go.
pub addresses :
    (proto : Descriptors) (a : UAttributes) (method reply_to : UUri)
    → a.sink ≡ some method
    → a.source ≡ some reply_to
    → IsValid proto UAttributesValidators.request a
    → (0 < method.resource_id) × (reply_to.resource_id ≡ 0)
addresses proto a method reply_to to from valid =
    let (u, has_sink, (positive, _, _)) = valid.sink in
    let (v, has_source, (place, _)) = valid.source in
    let same_method : u ≡ method = cc in
    let same_reply : v ≡ reply_to = cc in
    (
      subst (λ w. 0 < w.resource_id) same_method positive,
      subst (λ w. w.resource_id ≡ 0) same_reply place,
    )
