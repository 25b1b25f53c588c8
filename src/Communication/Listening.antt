-- ===== src/Communication/Listening.antt =====
-- src/communication/default_notifier.rs, src/communication/in_memory_rpc_server.rs: over the local
-- transport, what has been registered is reached.
use up_rust.Prelude.{
  ℕ, ◌<◌, ◌≡◌, refl, ap, sym, subst, true, [], returns, Option, some, List, Result, ok, err,
  Result-cases, Option-cases, inl, inr,
}
use up_rust.Proto.{UUri, UAttributes, UMessage, UStatus, Descriptors}
use up_rust.Uri.{verify_no_wildcards}
use up_rust.Uri.Matching
use up_rust.Uri.Matching.Laws.{matches_iff, Accepts-refl}
use up_rust.LocalTransport
use up_rust.LocalTransport.{LocalTransport, RegisteredListener, register_listener, send}
use up_rust.LocalTransport.Deliveries.{received}
use up_rust.LocalTransport.Delivery.{send-register_listener}
use up_rust.Status.{fail_with_code}
use up_rust.Communication.Errors.{push_delivery_method_not_supported, registration_error_from}
use up_rust.Transport.{with_defaults, LocalUriProvider}
use up_rust.Builder
use up_rust.Uuid.{Entropy}
use up_rust.Communication.{CallOptions, UPayload}
use up_rust.Communication.Messages.{IsMessageOf}
use up_rust.Communication.Publishing.{start_listening, notify, notify-Outcome, sent, refused}
use up_rust.Communication.RpcServer.{
  InMemoryRpcServer, register_endpoint, registered, checked, entry, origin_or_any,
}

matches_self : (u : UUri) → Matching.matches u u ≡ true
matches_self u = (matches_iff u u).1 (Accepts-refl u)

-- The transport that a successful call of `start_listening` leaves.
start_listening_lem :
    (proto : Descriptors) (uris : LocalUriProvider) (topic : UUri) (listener : ℕ)
    (t after : LocalTransport) (log log_after : List (ℕ × UMessage))
    → start_listening proto LocalTransport.transport uris topic listener (t, log)
      ≡ (ok tt, (after, log_after))
    → (register_listener
        (record { source_filter = topic; sink_filter = some uris.source_uri; listener = listener })
        t).1
      ≡ after
unfolding start_listening
start_listening_lem proto uris topic listener t after log log_after h =
    elim (Result-cases (verify_no_wildcards topic)) [
      | inl (_, concrete) ↦ ap (λ d. d.1.0) (rw concrete at h)
      | inr (e, wildcards) ↦ cc (rw wildcards at h)
    ]

-- Once a notifier over the local transport listens to a topic, every message from that topic to its
-- own address reaches the listener.
pub send-start_listening :
    (proto : Descriptors) (uris : LocalUriProvider) (topic : UUri) (listener : ℕ)
    (t after : LocalTransport) (log log_after : List (ℕ × UMessage)) (m : UMessage)
    (a : UAttributes)
    → start_listening proto LocalTransport.transport uris topic listener (t, log)
      ≡ (ok tt, (after, log_after))
    → m.attributes ≡ some a
    → a.source ≡ some topic
    → a.sink ≡ some uris.source_uri
    → 0 < received listener ((send m after).1)
send-start_listening proto uris topic listener t after log log_after m a listening attributes from
      to =
    let r : RegisteredListener = record {
      source_filter = topic;
      sink_filter = some uris.source_uri;
      listener = listener;
    } in
    subst (λ u. 0 < received listener ((send m u).1))
      (start_listening_lem proto uris topic listener t after log log_after listening)
      (send-register_listener r t m a topic uris.source_uri uris.source_uri attributes from to refl
        (matches_self topic) (matches_self uris.source_uri))

abbrev State : Type 0
State = LocalTransport × List (ℕ × UMessage)

inserted_lem :
    (uris : LocalUriProvider) (k listener : ℕ) (server server_after : InMemoryRpcServer)
    (x : Result UStatus (Unit {0}) × State) (s : State)
    → registered LocalTransport.transport uris k listener server x ≡ (ok tt, (server_after, s))
    → x.1 ≡ s
inserted_lem uris k listener server server_after (ok _, t) s h = ap (λ d. d.1.1) h
inserted_lem uris k listener server server_after (err e, t) s h = cc

pub registered_lem :
    (uris : LocalUriProvider) (origin : Option UUri) (k listener : ℕ)
    (server server_after : InMemoryRpcServer) (t after : LocalTransport)
    (log log_after : List (ℕ × UMessage))
    → register_endpoint LocalTransport.transport uris origin k listener (server, (t, log))
      ≡ (ok tt, (server_after, (after, log_after)))
    → (register_listener
        (record {
          source_filter = origin_or_any origin;
          sink_filter = some (uris.resource_uri k);
          listener = listener;
        })
        t).1
      ≡ after
unfolding register_endpoint
registered_lem uris origin k listener server server_after t after log log_after h =
    elim (Result-cases (checked LocalTransport.transport uris origin (uris.resource_uri k))) [
      | inl (_, accepted) ↦ elim (Option-cases (entry k server.request_listeners)) [
        | inl vacant ↦
            ap (λ d. d.0)
              (inserted_lem uris k listener server server_after
                (LocalTransport.transport.register_listener (origin_or_any origin)
                  (some (uris.resource_uri k)) listener (t, log))
                (after, log_after) (rw (accepted, vacant) at h))
        | inr (l, taken) ↦ cc (rw (accepted, taken) at h)
      ]
      | inr (e, failed) ↦ cc (rw failed at h)
    ]

-- Once a server over the local transport has an endpoint for a method, every message to the method
-- whose source the endpoint's origin filter matches reaches the endpoint's listener.
pub send-register_endpoint :
    (uris : LocalUriProvider) (origin : Option UUri) (k listener : ℕ)
    (server server_after : InMemoryRpcServer) (t after : LocalTransport)
    (log log_after : List (ℕ × UMessage)) (m : UMessage) (a : UAttributes) (source : UUri)
    → register_endpoint LocalTransport.transport uris origin k listener (server, (t, log))
      ≡ (ok tt, (server_after, (after, log_after)))
    → m.attributes ≡ some a
    → a.source ≡ some source
    → a.sink ≡ some (uris.resource_uri k)
    → Matching.matches (origin_or_any origin) source ≡ true
    → 0 < received listener ((send m after).1)
send-register_endpoint uris origin k listener server server_after t after log log_after m a source
      registering attributes from to matching =
    let r : RegisteredListener = record {
      source_filter = origin_or_any origin;
      sink_filter = some (uris.resource_uri k);
      listener = listener;
    } in
    subst (λ u. 0 < received listener ((send m u).1))
      (registered_lem uris origin k listener server server_after t after log log_after registering)
      (send-register_listener r t m a source (uris.resource_uri k) (uris.resource_uri k) attributes
        from to refl matching (matches_self (uris.resource_uri k)))

-- The message that a successful call of `notify` has sent.
notify_lem :
    (proto : Descriptors) (uris : LocalUriProvider) (e : Entropy) (k : ℕ) (destination : UUri)
    (options : CallOptions) (payload : Option UPayload) (t after : LocalTransport)
    (deliveries : List (ℕ × UMessage))
    → notify proto LocalTransport.transport uris e k destination options payload (t, [])
      ≡ returns (ok tt, (after, deliveries))
    → (m : UMessage) × IsMessageOf proto
        (Builder.notification (uris.resource_uri k) destination)
        options
        payload
        m
      × (deliveries ≡ (send m t).1)
notify_lem proto uris e k destination options payload t after deliveries h =
    elim (notify-Outcome proto LocalTransport.transport uris e k destination options payload (t, [])
      (ok tt, (after, deliveries)) h) [
        | sent m is_message is ↦ (m, is_message, ap (λ d. d.1.1) is)
        | refused x is ↦ cc
      ]

-- Once a notifier over the local transport listens to a topic, a notification that another notifier
-- then successfully sends from that topic to the first one's address reaches the listener: it is a
-- valid notification with the call's options, the time-to-live as it is given and not capped, and
-- payload.
pub notify-start_listening :
    (proto : Descriptors) (uris origins : LocalUriProvider) (listener k : ℕ)
    (t after u : LocalTransport) (log log_after deliveries : List (ℕ × UMessage)) (e : Entropy)
    (options : CallOptions) (payload : Option UPayload)
    → start_listening proto LocalTransport.transport uris (origins.resource_uri k) listener (t, log)
      ≡ (ok tt, (after, log_after))
    → notify proto LocalTransport.transport origins e k uris.source_uri options payload (after, [])
      ≡ returns (ok tt, (u, deliveries))
    → (m : UMessage) × IsMessageOf proto
        (Builder.notification (origins.resource_uri k) uris.source_uri)
        options
        payload
        m
      × (deliveries ≡ (send m after).1)
      × (0 < received listener deliveries)
unfolding Builder.notification
notify-start_listening proto uris origins listener k t after u log log_after deliveries e options
      payload listening notified =
    let (m, is_message, sends) =
      notify_lem proto origins e k uris.source_uri options payload after u deliveries notified in
    (
      m,
      is_message,
      sends,
      subst (λ ds. 0 < received listener ds) (sym sends)
          (send-start_listening proto uris (origins.resource_uri k) listener t after log log_after m
            is_message.attributes listening is_message.same is_message.source is_message.sink),
    )

-- A notifier over a transport that has the trait's default methods reports that push delivery is
-- not supported, and nothing changes.
pub start_listening-with_defaults :
    {S : Type 0} (proto : Descriptors) (send_with : UMessage → S → Result UStatus (Unit {0}) × S)
    (uris : LocalUriProvider) (topic : UUri) (listener : ℕ) (s : S)
    → verify_no_wildcards topic ≡ ok tt
    → start_listening proto (with_defaults send_with) uris topic listener s
      ≡ (err push_delivery_method_not_supported, s)
unfolding start_listening with_defaults registration_error_from fail_with_code
start_listening-with_defaults proto send_with uris topic listener s concrete = rw concrete refl
