-- ===== src/Communication/Subscriber.antt =====
-- src/communication/default_pubsub.rs: `SubscriptionChangeListener` and `InMemorySubscriber`. The
-- map of the handlers is an association list, a handler the address of its `Arc`. A lock is
-- poisoned where a thread panicked that held it to write.
pub mod Handlers
pub mod Subscribing
pub mod Updates
pub mod Published
use up_rust.Prelude.{
  ℕ, String, Bool, true, false, ◌||◌, not, Option, none, some, List, [], ◌∷◌, Result, ok, err,
  map_err, Run, returns, ◌==◌, if◌then◌else◌,
}
use up_rust.Prelude.Int.{ℤ}
use up_rust.Prelude.Panicking.{◌>>=◌}
use up_rust.Proto.{UCode, UStatus, UUri, UMessage, Descriptors, known, EnumOrUnknown, enum_value}
use up_rust.Uri.{uri_eq}
use up_rust.Uri.Parsing.{UriParser}
use up_rust.Status.{fail_with_code}
use up_rust.Message.{UMessageError, is_notification}
use up_rust.Message.Extraction.{Codec, extract_protobuf}
use up_rust.Transport.{UTransport, LocalUriProvider}
use up_rust.Core.USubscription.{
  State, state_eq, SubscriptionStatus, SubscriptionRequest, SubscriptionResponse,
  UnsubscribeRequest, Update, usubscription_uri, resource_id_subscription_change,
}
use up_rust.Communication.Errors.{
  RegistrationError, already_exists, unknown_error, registration_error_from,
}
use up_rust.Communication.Publishing.{convert, start_listening, stop_listening}
use up_rust.Communication.RpcClient
use up_rust.Communication.Rpc.Services.{USubscription}

pub record SubscriptionChangeListener : Type 0 where
  pub poisoned : Bool
  pub subscription_change_handlers : List (UUri × ℕ)

-- `HashMap::get` and `HashMap::remove`.
unfoldable pub handler_of : UUri → List (UUri × ℕ) → Option ℕ
handler_of topic [] = none
handler_of topic ((key, handler) ∷ rest) =
    if uri_eq key topic then some handler else handler_of topic rest

unfoldable pub without : UUri → List (UUri × ℕ) → List (UUri × ℕ)
without topic [] = []
without topic ((key, handler) ∷ rest) =
    let others = without topic rest in if uri_eq key topic then others else (key, handler) ∷ others

abbrev pub no_write_lock : RegistrationError
no_write_lock =
    unknown_error (fail_with_code UCode.internal "failed to acquire write lock for handler map")

-- What an operation that writes the handlers does, if it gets the lock.
abbrev pub if_locked :
    SubscriptionChangeListener
    → Result RegistrationError (Unit {0}) × SubscriptionChangeListener
    → Result RegistrationError (Unit {0}) × SubscriptionChangeListener
if_locked l done = if l.poisoned then (err no_write_lock, l) else done

abbrev pub add_entry :
    Option ℕ
    → UUri
    → ℕ
    → SubscriptionChangeListener
    → Result RegistrationError (Unit {0}) × SubscriptionChangeListener
add_entry none topic handler l = (
  ok tt,
  record l { subscription_change_handlers = (topic, handler) ∷ l.subscription_change_handlers },
)
add_entry (some present) topic handler l =
    if present == handler then (ok tt, l) else (err already_exists, l)

unfoldable pub add_handler :
    UUri
    → ℕ
    → SubscriptionChangeListener
    → Result RegistrationError (Unit {0}) × SubscriptionChangeListener
unfolding handler_of
add_handler topic handler l =
    if_locked l (add_entry (handler_of topic l.subscription_change_handlers) topic handler l)

unfoldable pub remove_handler :
    UUri
    → SubscriptionChangeListener
    → Result RegistrationError (Unit {0}) × SubscriptionChangeListener
unfolding without
remove_handler topic l = if_locked l (
  ok tt,
  record l { subscription_change_handlers = without topic l.subscription_change_handlers },
)

unfoldable pub clear :
    SubscriptionChangeListener → Result RegistrationError (Unit {0}) × SubscriptionChangeListener
clear l = if_locked l (ok tt, record l { subscription_change_handlers = [] })

-- The call of a handler.
pub record Change : Type 0 where
  pub handler : ℕ
  pub topic : UUri
  pub status : SubscriptionStatus

abbrev pub call : Option ℕ → UUri → SubscriptionStatus → Option Change
call none topic status = none
call (some handler) topic status =
    some (record { handler = handler; topic = topic; status = status })

abbrev pub changed :
    Option UUri → Option SubscriptionStatus → SubscriptionChangeListener → Option Change
changed (some topic) (some status) l =
    if l.poisoned then none else call (handler_of topic l.subscription_change_handlers) topic status
changed _ _ l = none

abbrev updated : Result UMessageError Update → SubscriptionChangeListener → Option Change
updated (ok update) l = changed update.topic update.status l
updated (err e) l = none

-- `on_receive`: the call that it makes.
unfoldable pub on_receive :
    Descriptors → Codec Update → UMessage → SubscriptionChangeListener → Option Change
unfolding handler_of is_notification extract_protobuf
on_receive proto codec m l =
    if not (is_notification m) then none else updated (extract_protobuf proto codec m) l

-- The listening part of the trait `Notifier`, and what it is for a `SimpleNotifier`.
pub record Notifier (S : Type 0) : Type 0 where
  pub start_listening : UUri → ℕ → S → Result RegistrationError (Unit {0}) × S
  pub stop_listening : UUri → ℕ → S → Result RegistrationError (Unit {0}) × S

unfoldable pub simple_notifier :
    {S : Type 0} → Descriptors → UTransport S → LocalUriProvider → Notifier S
simple_notifier proto transport uri_provider = record {
  start_listening = start_listening proto transport uri_provider;
  stop_listening = stop_listening proto transport uri_provider;
}

abbrev pub is_subscribed : State → Bool
is_subscribed state = state_eq state State.subscribed || state_eq state State.subscribe_pending

-- A status that is not there reads as the default one.
abbrev pub status_or_default : Option SubscriptionStatus → SubscriptionStatus
status_or_default none = record { state = known State.unsubscribed; message = "" }
status_or_default (some s) = s

abbrev pub not_invoked : RegistrationError
not_invoked = unknown_error (fail_with_code UCode.internal "failed to invoke USubscription service")

-- The listener and the state that the clients share.
abbrev pub Subscriber : Type 0 → Type 0
Subscriber S = SubscriptionChangeListener × S

abbrev created :
    {S : Type 0}
    → Result RegistrationError (Unit {0}) × S
    → Result RegistrationError SubscriptionChangeListener × S
created (ok _, s) = (ok (record { poisoned = false; subscription_change_handlers = [] }), s)
created (err e, s) = (err e, s)

abbrev pub stopped :
    {S : Type 0}
    → SubscriptionChangeListener
    → Result RegistrationError (Unit {0}) × S
    → Result RegistrationError (Unit {0}) × Subscriber S
stopped l (ok _, s) = let (result, cleared) = clear l in (result, (cleared, s))
stopped l (err e, s) = (err e, (l, s))

abbrev pub add_optional :
    UUri
    → Option ℕ
    → SubscriptionChangeListener
    → Result RegistrationError (Unit {0}) × SubscriptionChangeListener
add_optional topic none l = (ok tt, l)
add_optional topic (some handler) l = add_handler topic handler l

abbrev pub with_state :
    State
    → Result RegistrationError (Unit {0}) × SubscriptionChangeListener
    → Result RegistrationError State × SubscriptionChangeListener
with_state state (ok _, l) = (ok state, l)
with_state state (err e, l) = (err e, l)

abbrev pub not_subscribed : String → RegistrationError
not_subscribed message = unknown_error (fail_with_code UCode.failed_precondition message)

abbrev pub subscription :
    UUri
    → Option ℕ
    → Result ℤ State
    → String
    → SubscriptionChangeListener
    → Result RegistrationError State × SubscriptionChangeListener
subscription topic handler (ok state) message l =
    if is_subscribed state
    then with_state state (add_optional topic handler l)
    else (err (not_subscribed message), l)
subscription topic handler (err n) message l = (err (not_subscribed message), l)

abbrev pub answered :
    UUri
    → Option ℕ
    → SubscriptionChangeListener
    → Result UStatus SubscriptionResponse
    → Result RegistrationError State × SubscriptionChangeListener
answered topic handler l (ok response) =
    let status = status_or_default response.status in
    subscription topic handler (enum_value status.state) status.message l
answered topic handler l (err e) = (err not_invoked, l)

abbrev pub removed :
    UUri
    → SubscriptionChangeListener
    → Result UStatus (Unit {0})
    → Result RegistrationError (Unit {0}) × SubscriptionChangeListener
removed topic l (ok _) =
    let (ignored, without_handler) = remove_handler topic l in (ok tt, without_handler)
removed topic l (err e) = (err not_invoked, l)

-- A call of the transport, if the service's was successful.
abbrev pub then_call :
    {A S : Type 0}
    → (S → Result UStatus (Unit {0}) × S)
    → Result RegistrationError A × Subscriber S
    → Result RegistrationError (Unit {0}) × Subscriber S
then_call f (err e, (l, s)) = (err e, (l, s))
then_call f (ok _, (l, s)) =
    let (result, after) = convert registration_error_from (f s) in (result, (l, after))

module _ (parser : UriParser) {S : Type 0} (notifier : Notifier S) where
  -- `listener` is the address of the new listener, here and in `stop`.
  unfoldable pub for_clients : ℕ → S → Run (Result RegistrationError SubscriptionChangeListener × S)
  unfolding usubscription_uri
  for_clients listener s = do
    uri ← usubscription_uri parser resource_id_subscription_change
    returns (created (notifier.start_listening uri listener s))

  unfoldable pub stop : ℕ → Subscriber S → Run (Result RegistrationError (Unit {0}) × Subscriber S)
  unfolding usubscription_uri clear
  stop listener (l, s) = do
    uri ← usubscription_uri parser resource_id_subscription_change
    returns (stopped l (notifier.stop_listening uri listener s))

module _ {S : Type 0} (usubscription : USubscription S) where
  unfoldable pub invoke_subscribe :
      UUri → Option ℕ → Subscriber S → Run (Result RegistrationError State × Subscriber S)
  unfolding add_handler
  invoke_subscribe topic handler (l, s) = do
    (response, after) ← usubscription.subscribe (record { topic = some topic }) s
    returns
        (let (result, handled) = answered topic handler l response in (result, (handled, after)))

  unfoldable pub invoke_unsubscribe :
      UUri → Subscriber S → Run (Result RegistrationError (Unit {0}) × Subscriber S)
  unfolding remove_handler
  invoke_unsubscribe topic (l, s) = do
    (response, after) ← usubscription.unsubscribe (record { topic = none }) s
    returns (let (result, handled) = removed topic l response in (result, (handled, after)))

module _ {S : Type 0} (transport : UTransport S) (usubscription : USubscription S) where
  unfoldable pub subscribe :
      UUri → ℕ → Option ℕ → Subscriber S → Run (Result RegistrationError (Unit {0}) × Subscriber S)
  unfolding invoke_subscribe
  subscribe topic_filter handler subscription_change_handler subscriber = do
    invoked ← invoke_subscribe usubscription topic_filter subscription_change_handler subscriber
    returns (then_call (transport.register_listener topic_filter none handler) invoked)

  unfoldable pub unsubscribe :
      UUri → ℕ → Subscriber S → Run (Result RegistrationError (Unit {0}) × Subscriber S)
  unfolding invoke_unsubscribe
  unsubscribe topic listener subscriber = do
    invoked ← invoke_unsubscribe usubscription topic subscriber
    returns (then_call (transport.unregister_listener topic none listener) invoked)

-- `InMemorySubscriber::new`: it makes an RPC client, whose listener has the address `rpc_listener`,
-- and a notifier over the same transport. The client's pending requests are not part of the state,
-- since no request is made here.
module _ (proto : Descriptors) (parser : UriParser) {S : Type 0} (transport : UTransport S)
    (uri_provider : LocalUriProvider) where
  abbrev new_for :
      ℕ
      → Result RegistrationError (Unit {0}) × S
      → Run (Result RegistrationError SubscriptionChangeListener × S)
  new_for listener (ok _, s) =
      for_clients parser (simple_notifier proto transport uri_provider) listener s
  new_for listener (err e, s) = returns (err e, s)

  unfoldable pub new : ℕ → ℕ → S → Run (Result RegistrationError SubscriptionChangeListener × S)
  unfolding for_clients simple_notifier RpcClient.new
  new rpc_listener listener s =
      new_for listener (RpcClient.new transport uri_provider rpc_listener s)
