-- ===== src/Communication/Subscriber/Updates.antt =====
-- src/communication/default_pubsub.rs: which updates reach a handler after the calls of a
-- subscriber.
use up_rust.Prelude.{
  ℕ, ◌≡◌, refl, ap, subst, ◌∙◌, true, false, none, some, ◌∷◌, Result, ok, err, returns, Bool-cases,
  Option-cases, inl, inr, ◌⊎◌, >>=-eq-returns, if◌then◌else◌, ◌==◌, ==_iff,
}
use up_rust.Proto.{UStatus, UUri, UMessage, Descriptors}
use up_rust.Uri.{uri_eq}
use up_rust.Uri.Parsing.{UriParser}
use up_rust.LocalTransport.Deliveries.{uri_eq_iff}
use up_rust.Message.{is_notification}
use up_rust.Message.Extraction.{Codec, extract_protobuf}
use up_rust.Transport.{UTransport}
use up_rust.Builder.Build.{returned}
use up_rust.Core.USubscription.{
  SubscriptionStatus, SubscriptionResponse, Update, usubscription_uri,
  resource_id_subscription_change,
}
use up_rust.Communication.Errors.{RegistrationError}
use up_rust.Communication.Rpc.Services.{USubscription}
use up_rust.Communication.Subscriber.{
  SubscriptionChangeListener, handler_of, Subscriber, Notifier, add_handler, remove_handler, clear,
  subscribe, unsubscribe, stop, stopped, removed, then_call, invoke_unsubscribe, on_receive,
  changed,
}
use up_rust.Communication.Subscriber.Handlers.{handler_of-without, called, on_receive_iff}
use up_rust.Communication.Subscriber.Subscribing.{subscribe-Subscribed, registered, refused}

-- The message is a notification with an update of the topic's status.
pub record IsUpdate (proto : Descriptors) (codec : Codec Update) (m : UMessage) (about : UUri)
    (new_status : SubscriptionStatus) : Type 0 where
  pub notification : is_notification m ≡ true
  pub update : Update
  pub extracted : extract_protobuf proto codec m ≡ ok update
  pub topic : update.topic ≡ some about
  pub status : update.status ≡ some new_status

uri_eq_refl : (u : UUri) → uri_eq u u ≡ true
uri_eq_refl u = (uri_eq_iff u u).1 refl

found_in :
    (topic : UUri) (k : ℕ) (l after : SubscriptionChangeListener)
    → l ≡ after
    → l.poisoned ≡ false
    → handler_of topic l.subscription_change_handlers ≡ some k
    → (after.poisoned ≡ false) × (handler_of topic after.subscription_change_handlers ≡ some k)
found_in topic k l after same free found =
    subst (λ a. (a.poisoned ≡ false) × (handler_of topic a.subscription_change_handlers ≡ some k))
      same (free, found)

-- A handler that was added is there.
added_lem :
    (topic : UUri) (k : ℕ) (l after : SubscriptionChangeListener)
    → add_handler topic k l ≡ (ok tt, after)
    → (after.poisoned ≡ false) × (handler_of topic after.subscription_change_handlers ≡ some k)
unfolding add_handler handler_of
added_lem topic k l after h = elim (Bool-cases l.poisoned) [
  | inl poisoned ↦ cc (rw poisoned at h)
  | inr free ↦ elim (Option-cases (handler_of topic l.subscription_change_handlers)) [
    | inl vacant ↦
        found_in topic k
          (record {
            poisoned = false;
            subscription_change_handlers = (topic, k) ∷ l.subscription_change_handlers;
          })
          after (ap (λ d. d.1) (rw (free, vacant) at h)) refl (rw (uri_eq_refl topic) refl)
    | inr (present, taken) ↦ elim (Bool-cases (present == k)) [
      | inl same ↦
          found_in topic k
            (record {
              poisoned = false;
              subscription_change_handlers = l.subscription_change_handlers;
            })
            after (ap (λ d. d.1) (rw (free, taken, same) at h)) refl
            (taken ∙ ap some ((==_iff present k).0 same))
      | inr other ↦ cc (rw (free, taken, other) at h)
    ]
  ]
]

-- After a call of `subscribe` with a handler that was successful, an update of the topic's status
-- reaches that handler.
pub subscribe-on_receive :
    {S : Type 0} (proto : Descriptors) (codec : Codec Update) (transport : UTransport S)
    (usubscription : USubscription S) (topic : UUri) (listener handler : ℕ)
    (l after : SubscriptionChangeListener) (s t u : S)
    (answer : Result UStatus SubscriptionResponse) (m : UMessage) (status : SubscriptionStatus)
    → usubscription.subscribe (record { topic = some topic }) s ≡ returns (answer, t)
    → subscribe transport usubscription topic listener (some handler) (l, s)
      ≡ returns (ok tt, (after, u))
    → IsUpdate proto codec m topic status
    → on_receive proto codec m after
      ≡ some (record { handler = handler; topic = topic; status = status })
unfolding on_receive
subscribe-on_receive proto codec transport usubscription topic listener handler l after s t u answer
      m status asked done update =
    elim (subscribe-Subscribed transport usubscription topic listener (some handler) l s t answer _
      asked done) [
        | refused e _ is ↦ cc
        | registered handled accepted is ↦
            let (free, found) = added_lem topic handler l handled accepted.added in
            let same : after ≡ handled = ap (λ d. d.1.0) is in
            rw (update.notification, update.extracted)
              (called update.update after
                (record { handler = handler; topic = topic; status = status }) update.topic
                update.status (ap (λ x. x.poisoned) same ∙ free)
                (ap (λ x. handler_of topic x.subscription_change_handlers) same ∙ found))
      ]

abbrev Silent : UUri → SubscriptionChangeListener → Type 0
Silent topic l = (l.poisoned ≡ true) ⊎ (handler_of topic l.subscription_change_handlers ≡ none)

-- Without the handler, or with a poisoned lock, nothing is called.
not_called :
    (topic : UUri) (status : SubscriptionStatus) (l : SubscriptionChangeListener)
    → Silent topic l
    → changed (some topic) (some status) l ≡ none
not_called topic status l (inl poisoned) = rw poisoned refl
not_called topic status l (inr gone) = elim (Bool-cases l.poisoned) [
  | inl poisoned ↦ rw poisoned refl
  | inr free ↦ rw (free, gone) refl
]

removed_lem :
    (topic : UUri) (l : SubscriptionChangeListener) → Silent topic ((remove_handler topic l).1)
unfolding remove_handler
removed_lem topic l = elim (Bool-cases l.poisoned) [
  | inl poisoned ↦ rw poisoned (inl refl)
  | inr free ↦ rw free (
      inr (
        handler_of-without topic topic l.subscription_change_handlers
        ∙ ap (λ b. if b then none else handler_of topic l.subscription_change_handlers)
            (uri_eq_refl topic)))
]

then_call_lem :
    {A S : Type 0} (f : S → Result UStatus (Unit {0}) × S)
    (x : Result RegistrationError A × Subscriber S) (after : SubscriptionChangeListener) (u : S)
    → then_call f x ≡ (ok tt, (after, u))
    → (a : A) × (x.0 ≡ ok a) × (x.1.0 ≡ after)
then_call_lem f (ok a, (l, s)) after u h = (a, refl, ap (λ d. d.1.0) h)
then_call_lem f (err e, (l, s)) after u h = cc

answer_lem :
    {S : Type 0} (topic : UUri) (l : SubscriptionChangeListener)
    (answer : Result UStatus (Unit {0})) (t : S)
    (invoked : Result RegistrationError (Unit {0}) × Subscriber S)
    → ((removed topic l answer).0, ((removed topic l answer).1, t)) ≡ invoked
    → (a : Unit {0}) → invoked.0 ≡ ok a
    → Silent topic (invoked.1.0)
answer_lem topic l (ok _) t invoked same a fine =
    subst (λ d. Silent topic (d.1.0)) same (removed_lem topic l)
answer_lem topic l (err e) t invoked same a fine = cc

invoke_unsubscribe_lem :
    {S : Type 0} (usubscription : USubscription S) (topic : UUri) (l : SubscriptionChangeListener)
    (s : S) (invoked : Result RegistrationError (Unit {0}) × Subscriber S)
    → invoke_unsubscribe usubscription topic (l, s) ≡ returns invoked
    → (a : Unit {0}) → invoked.0 ≡ ok a
    → Silent topic (invoked.1.0)
unfolding invoke_unsubscribe
invoke_unsubscribe_lem usubscription topic l s invoked h a fine =
    let ((answer, t), _, finished) =
      >>=-eq-returns (usubscription.unsubscribe (record { topic = none }) s) _ h in
    answer_lem topic l answer t invoked (returned finished) a fine

-- After a call of `unsubscribe` that was successful, an update of the topic's status reaches no
-- handler.
pub unsubscribe-on_receive :
    {S : Type 0} (proto : Descriptors) (codec : Codec Update) (transport : UTransport S)
    (usubscription : USubscription S) (topic : UUri) (listener : ℕ)
    (l after : SubscriptionChangeListener) (s u : S) (m : UMessage) (status : SubscriptionStatus)
    → unsubscribe transport usubscription topic listener (l, s) ≡ returns (ok tt, (after, u))
    → IsUpdate proto codec m topic status
    → on_receive proto codec m after ≡ none
unfolding unsubscribe invoke_unsubscribe on_receive
unsubscribe-on_receive proto codec transport usubscription topic listener l after s u m status done
      update =
    let (invoked, asked, finished) =
      >>=-eq-returns (invoke_unsubscribe usubscription topic (l, s)) _ done in
    let (a, fine, same) = then_call_lem _ invoked after u (returned finished) in
    let quiet = invoke_unsubscribe_lem usubscription topic l s invoked asked a fine in
    rw (update.notification, update.extracted, update.topic, update.status)
      (not_called topic status after (subst (Silent topic) same quiet))

-- How a call of `stop` ends, by what the notifier's call ended with: the notifier unregistered the
-- listener, which then calls no handler any more, and the call's result is that of clearing the
-- handlers; or the notifier returned an error, which is the call's, and the handlers are as they
-- were.
pub data Stopped {S : Type 0} (proto : Descriptors) (codec : Codec Update)
    (l : SubscriptionChangeListener) (unregistered : Result RegistrationError (Unit {0}) × S)
    (done : Result RegistrationError (Unit {0}) × Subscriber S) : Type 0 where
  quiet :
      unregistered.0 ≡ ok tt
      → done.0 ≡ (clear l).0
      → ((m : UMessage) → on_receive proto codec m (done.1.0) ≡ none)
      → done.1.1 ≡ unregistered.1
      → Stopped proto codec l unregistered done
  kept :
      (e : RegistrationError)
      → unregistered.0 ≡ err e
      → done ≡ (err e, (l, unregistered.1))
      → Stopped proto codec l unregistered done

cleared_lem : (l : SubscriptionChangeListener) (topic : UUri) → Silent topic ((clear l).1)
unfolding clear handler_of
cleared_lem l topic = elim (Bool-cases l.poisoned) [
  | inl poisoned ↦ rw poisoned (inl refl)
  | inr free ↦ rw free (inr refl)
]

Silent-on_receive :
    (proto : Descriptors) (codec : Codec Update) (l : SubscriptionChangeListener)
    → ((topic : UUri) → Silent topic l)
    → (m : UMessage) → on_receive proto codec m l ≡ none
Silent-on_receive proto codec l silent m = elim (Option-cases (on_receive proto codec m l)) [
  | inl none_called ↦ none_called
  | inr (c, h) ↦
      let a = (on_receive_iff proto codec m l c).0 h in
      elim (silent c.topic) [
        | inl poisoned ↦ let free = a.unlocked in cc
        | inr gone ↦ let there = a.handler in cc
      ]
]

stopped_lem :
    {S : Type 0} (proto : Descriptors) (codec : Codec Update) (l : SubscriptionChangeListener)
    (r : Result RegistrationError (Unit {0}) × S)
    → Stopped proto codec l r (stopped l r)
stopped_lem proto codec l (ok _, s) =
    quiet refl refl (Silent-on_receive proto codec ((clear l).1) (cleared_lem l)) refl
stopped_lem proto codec l (err e, s) = kept e refl refl

-- Where the URI of the update notifications can be made, a call of `stop` returns. If the notifier
-- stops listening to them, the listener calls no handler any more, whatever it receives, and the
-- call's result is that of clearing the handlers; if the notifier returns an error, the call returns
-- that error with the handlers as they were. The notifier's state is what its call left.
pub stop-Stopped :
    {S : Type 0} (proto : Descriptors) (codec : Codec Update) (parser : UriParser)
    (notifier : Notifier S) (listener : ℕ) (l : SubscriptionChangeListener) (s : S) (uri : UUri)
    → usubscription_uri parser resource_id_subscription_change ≡ returns uri
    → (done : Result RegistrationError (Unit {0}) × Subscriber S) × (stop parser notifier listener
          (l, s)
        ≡ returns done)
      × Stopped proto codec l (notifier.stop_listening uri listener s) done
unfolding stop
stop-Stopped proto codec parser notifier listener l s uri made = (
  stopped l (notifier.stop_listening uri listener s),
  rw made refl,
  stopped_lem proto codec l (notifier.stop_listening uri listener s),
)
