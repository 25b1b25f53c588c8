-- ===== src/Communication/Subscriber/Published.antt =====
-- src/communication/default_pubsub.rs over src/local_transport.rs: a publisher and a subscriber.
use up_rust.Prelude.{
  ℕ, ◌<◌, ◌≡◌, refl, ap, sym, subst, true, Option, none, some, List, [], Result, ok, returns,
}
use up_rust.Proto.{UStatus, UUri, UMessage, Descriptors}
use up_rust.Uuid.{Entropy}
use up_rust.Uri.Matching
use up_rust.Builder
use up_rust.LocalTransport
use up_rust.LocalTransport.{LocalTransport, RegisteredListener, register_listener}
use up_rust.LocalTransport.Deliveries
use up_rust.LocalTransport.Delivery.{send-register_listener_topic}
use up_rust.Transport.{LocalUriProvider}
use up_rust.Core.USubscription.{SubscriptionResponse}
use up_rust.Communication.{CallOptions, UPayload}
use up_rust.Communication.Messages.{IsMessageOf}
use up_rust.Communication.Publishing.{publish, sent, refused, publish-Outcome}
use up_rust.Communication.Rpc.Services.{USubscription}
use up_rust.Communication.Subscriber.{SubscriptionChangeListener, subscribe}
use up_rust.Communication.Subscriber.Subscribing
use up_rust.Communication.Subscriber.Subscribing.{subscribe-Subscribed, registered}

abbrev State : Type 0
State = LocalTransport × List (ℕ × UMessage)

-- The registration that `subscribe` makes.
abbrev subscribed_for : UUri → ℕ → RegisteredListener
subscribed_for filter listener = record {
  source_filter = filter;
  sink_filter = none;
  listener = listener;
}

-- The transport that a successful call of `subscribe` leaves.
subscribe_lem :
    (usubscription : USubscription State) (filter : UUri) (listener : ℕ) (handler : Option ℕ)
    (l l_after : SubscriptionChangeListener) (t during after : LocalTransport)
    (log log_during log_after : List (ℕ × UMessage)) (answer : Result UStatus SubscriptionResponse)
    → usubscription.subscribe (record { topic = some filter }) (t, log)
      ≡ returns (answer, (during, log_during))
    → subscribe LocalTransport.transport usubscription filter listener handler (l, (t, log))
      ≡ returns (ok tt, (l_after, (after, log_after)))
    → (register_listener (subscribed_for filter listener) during).1 ≡ after
subscribe_lem usubscription filter listener handler l l_after t during after log log_during
      log_after answer asked done =
    elim (subscribe-Subscribed LocalTransport.transport usubscription filter listener handler l
      (t, log) (during, log_during) answer (ok tt, (l_after, (after, log_after))) asked done) [
        | Subscribing.refused e _ is ↦ cc
        | registered handled accepted is ↦ sym (ap (λ d. d.1.1.0) is)
      ]

-- The message that a successful call of `publish` has sent.
publish_lem :
    (proto : Descriptors) (uris : LocalUriProvider) (e : Entropy) (k : ℕ) (options : CallOptions)
    (payload : Option UPayload) (t after : LocalTransport) (deliveries : List (ℕ × UMessage))
    → publish proto LocalTransport.transport uris e k options payload (t, [])
      ≡ returns (ok tt, (after, deliveries))
    → (m : UMessage) × IsMessageOf proto (Builder.publish (uris.resource_uri k)) options payload m
      × (deliveries ≡ (LocalTransport.send m t).1)
publish_lem proto uris e k options payload t after deliveries h =
    elim (publish-Outcome proto LocalTransport.transport uris e k options payload (t, [])
      (ok tt, (after, deliveries)) h) [
        | sent m is_message is ↦ (m, is_message, ap (λ d. d.1.1) is)
        | refused x is ↦ cc
      ]

-- After a subscriber over the local transport has successfully subscribed a listener to a topic
-- filter, a message that a publisher then successfully publishes to a topic which the filter
-- matches reaches the listener: it is a valid publish message from the topic with the call's
-- options, the time-to-live as it is given and not capped, and payload.
pub publish-subscribe :
    (proto : Descriptors) (usubscription : USubscription State) (filter : UUri) (listener : ℕ)
    (handler : Option ℕ) (l l_after : SubscriptionChangeListener)
    (t during after u : LocalTransport) (log log_during log_after deliveries : List (ℕ × UMessage))
    (answer : Result UStatus SubscriptionResponse) (uris : LocalUriProvider) (e : Entropy) (k : ℕ)
    (options : CallOptions) (payload : Option UPayload)
    → usubscription.subscribe (record { topic = some filter }) (t, log)
      ≡ returns (answer, (during, log_during))
    → subscribe LocalTransport.transport usubscription filter listener handler (l, (t, log))
      ≡ returns (ok tt, (l_after, (after, log_after)))
    → Matching.matches filter (uris.resource_uri k) ≡ true
    → publish proto LocalTransport.transport uris e k options payload (after, [])
      ≡ returns (ok tt, (u, deliveries))
    → (m : UMessage) × IsMessageOf proto (Builder.publish (uris.resource_uri k)) options payload m
      × (deliveries ≡ (LocalTransport.send m after).1)
      × (0 < Deliveries.received listener deliveries)
unfolding Builder.publish
publish-subscribe proto usubscription filter listener handler l l_after t during after u log
      log_during log_after deliveries answer uris e k options payload asked done matching
      published =
    let (m, is_message, sends) =
      publish_lem proto uris e k options payload after u deliveries published in
    let reached =
      send-register_listener_topic (subscribed_for filter listener) during m is_message.attributes
        (uris.resource_uri k) is_message.same is_message.source is_message.sink refl matching in
    let is =
      subscribe_lem usubscription filter listener handler l l_after t during after log log_during
        log_after answer asked done in
    (
      m,
      is_message,
      sends,
      subst (λ ds. 0 < Deliveries.received listener ds) (sym sends)
          (subst (λ v. 0 < Deliveries.received listener ((LocalTransport.send m v).1)) is reached),
    )
