-- ===== src/Communication/Subscriber/Subscribing.antt =====
-- src/communication/default_pubsub.rs: how the calls of an `InMemorySubscriber` end, and what its
-- listener then does with an update.
use up_rust.Prelude.{
  ℕ, String, ◌≡◌, refl, ap, sym, ◌∙◌, true, Option, none, some, ◌∷◌, Result, ok, err, returns,
  Bool-cases, Result-cases, Option-cases, inl, inr, ◌⊎◌, ◌==◌,
}
use up_rust.Proto.{UStatus, UUri, enum_value}
use up_rust.Transport.{UTransport}
use up_rust.Builder.Build.{returned}
use up_rust.Core.USubscription.{State, SubscriptionResponse}
use up_rust.Communication.Errors.{RegistrationError, already_exists, registration_error_from}
use up_rust.Communication.Publishing.{convert}
use up_rust.Communication.Rpc.Services.{USubscription}
use up_rust.Communication.Subscriber.{
  SubscriptionChangeListener, handler_of, Subscriber, no_write_lock, add_handler, add_optional,
  answered, status_or_default, is_subscribed, subscription, not_subscribed, not_invoked, subscribe,
  then_call, invoke_subscribe,
}

-- The service has accepted the subscription, and the topic has the handler, if one is given.
pub record Accepted (topic : UUri) (handler : Option ℕ) (l : SubscriptionChangeListener)
    (answer : Result UStatus SubscriptionResponse) (after : SubscriptionChangeListener)
    : Type 0 where
  pub response : SubscriptionResponse
  pub answered : answer ≡ ok response
  pub state : State
  pub has_state : enum_value (status_or_default response.status).state ≡ ok state
  pub subscribed : is_subscribed state ≡ true
  pub added : add_optional topic handler l ≡ (ok tt, after)

-- The result of registering the listener for a topic, as the subscriber's.
abbrev pub registration :
    {S : Type 0}
    → UTransport S
    → UUri
    → ℕ
    → SubscriptionChangeListener
    → S
    → Result RegistrationError (Unit {0}) × Subscriber S
registration transport topic listener l s =
    let (result, after) =
      convert registration_error_from (transport.register_listener topic none listener s) in
    (result, (l, after))

-- How a call of `subscribe` ends that the service has answered: where the subscription is not
-- accepted, with an error, no listener registered and the handlers as they were; or with the transport's result of
-- registering the listener.
pub data Subscribed {S : Type 0} (transport : UTransport S) (topic : UUri) (listener : ℕ)
    (handler : Option ℕ) (l : SubscriptionChangeListener)
    (answer : Result UStatus SubscriptionResponse) (s : S)
    (done : Result RegistrationError (Unit {0}) × Subscriber S) : Type 0 where
  refused :
      (e : RegistrationError)
      → ((after : SubscriptionChangeListener) → Accepted topic handler l answer after → ⊥)
      → done ≡ (err e, (l, s))
      → Subscribed transport topic listener handler l answer s done
  registered :
      (after : SubscriptionChangeListener)
      → Accepted topic handler l answer after
      → done ≡ registration transport topic listener after s
      → Subscribed transport topic listener handler l answer s done

-- What adding a handler leaves.
added_or_kept :
    (topic : UUri) (handler : Option ℕ) (l : SubscriptionChangeListener)
    → ((after : SubscriptionChangeListener) × (add_optional topic handler l ≡ (ok tt, after)))
      ⊎ ((e : RegistrationError) × (add_optional topic handler l ≡ (err e, l)))
unfolding add_handler
added_or_kept topic none l = inl (l, refl)
added_or_kept topic (some k) l = elim (Bool-cases l.poisoned) [
  | inl poisoned ↦ inr (no_write_lock, rw poisoned refl)
  | inr free ↦ elim (Option-cases (handler_of topic l.subscription_change_handlers)) [
    | inl vacant ↦ inl (
      record l { subscription_change_handlers = (topic, k) ∷ l.subscription_change_handlers },
      rw (free, vacant) refl,
    )
    | inr (present, taken) ↦ elim (Bool-cases (present == k)) [
      | inl same ↦ inl (l, rw (free, taken, same) refl)
      | inr other ↦ inr (already_exists, rw (free, taken, other) refl)
    ]
  ]
]

accepted_or_refused :
    (topic : UUri) (handler : Option ℕ) (l : SubscriptionChangeListener) (state : State)
    (message : String)
    → ((after : SubscriptionChangeListener) × (is_subscribed state ≡ true)
        × (add_optional topic handler l ≡ (ok tt, after))
        × (subscription topic handler (ok state) message l ≡ (ok state, after)))
      ⊎ ((e : RegistrationError) × ((after : SubscriptionChangeListener)
            → is_subscribed state ≡ true
            → add_optional topic handler l ≡ (ok tt, after)
            → ⊥)
          × (subscription topic handler (ok state) message l ≡ (err e, l)))
accepted_or_refused topic handler l state message = elim (Bool-cases (is_subscribed state)) [
  | inl subscribed ↦ elim (added_or_kept topic handler l) [
    | inl (after, added) ↦ inl (after, subscribed, added, rw (subscribed, added) refl)
    | inr (e, kept) ↦ inr (e, (λ after _ added. cc), rw (subscribed, kept) refl)
  ]
  | inr other ↦ inr (not_subscribed message, (λ after subscribed _. cc), rw other refl)
]

answered_lem :
    (topic : UUri) (handler : Option ℕ) (l : SubscriptionChangeListener)
    (answer : Result UStatus SubscriptionResponse)
    → ((after : SubscriptionChangeListener) × (state : State) × Accepted topic handler l answer
          after
        × (answered topic handler l answer ≡ (ok state, after)))
      ⊎ ((e : RegistrationError) × ((after : SubscriptionChangeListener)
            → Accepted topic handler l answer after
            → ⊥)
          × (answered topic handler l answer ≡ (err e, l)))
answered_lem topic handler l (err e) =
    inr (not_invoked, (λ after accepted. let is = accepted.answered in cc), refl)
answered_lem topic handler l (ok response) =
    let status = status_or_default response.status in
    elim (Result-cases (enum_value status.state)) [
      | inl (state, known_state) ↦ elim (accepted_or_refused topic handler l state status.message) [
        | inl (after, subscribed, added, is) ↦ inl (
          after,
          state,
          record {
            response = response;
            answered = refl;
            state = state;
            has_state = known_state;
            subscribed = subscribed;
            added = added;
          },
          rw known_state is,
        )
        | inr (e, unaccepted, is) ↦ inr (
          e,
          (λ after accepted.
              let is = accepted.answered in
              let has = accepted.has_state in
              let same : accepted.state ≡ state = cc in
              unaccepted after (ap is_subscribed (sym same) ∙ accepted.subscribed) accepted.added),
          rw known_state is,
        )
      ]
      | inr (n, unknown_state) ↦ inr (
        not_subscribed status.message,
        (λ after accepted. let is = accepted.answered in let has = accepted.has_state in cc),
        rw unknown_state refl,
      )
    ]

-- A call of `subscribe` that the service answers registers the listener exactly if the answer is a
-- response whose status is SUBSCRIBED or SUBSCRIBE_PENDING and the handler, if one is given, could
-- be added for the topic; it returns the transport's result then, and otherwise an error with the
-- handlers and the transport as they were.
pub subscribe-Subscribed :
    {S : Type 0} (transport : UTransport S) (usubscription : USubscription S) (topic : UUri)
    (listener : ℕ) (handler : Option ℕ) (l : SubscriptionChangeListener) (s after : S)
    (answer : Result UStatus SubscriptionResponse)
    (done : Result RegistrationError (Unit {0}) × Subscriber S)
    → usubscription.subscribe (record { topic = some topic }) s ≡ returns (answer, after)
    → subscribe transport usubscription topic listener handler (l, s) ≡ returns done
    → Subscribed transport topic listener handler l answer after done
unfolding subscribe invoke_subscribe
subscribe-Subscribed transport usubscription topic listener handler l s after answer done called h =
    let finish : Result RegistrationError State × SubscriptionChangeListener
        → Result RegistrationError (Unit {0}) × Subscriber _ =
      λ x. then_call (transport.register_listener topic none listener) (x.0, (x.1, after)) in
    let call : done ≡ finish (answered topic handler l answer) = sym (returned (rw called at h)) in
    elim (answered_lem topic handler l answer) [
      | inl (handled, state, accepted, is) ↦ registered handled accepted (call ∙ ap finish is)
      | inr (e, unaccepted, is) ↦ refused e unaccepted (call ∙ ap finish is)
    ]
