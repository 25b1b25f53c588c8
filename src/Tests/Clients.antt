-- ===== src/Tests/Clients.antt =====
-- Runs of the definitions on transports and clients.
use up_rust.Prelude.{
  subst, ℕ, ◌+◌, ◌≡◌, refl, true, none, some, List, [], ◌∷◌, Result, ok, err, returns, arith,
  if◌then◌else◌,
}
use up_rust.Proto.{UPayloadFormat, UCode, UMessage}
use up_rust.Uri
use up_rust.Uri.Matching.Laws.{matches-any}
use up_rust.Uri.{any}
use up_rust.Status.{fail_with_code}
use up_rust.Validator.{UAttributesValidators, message_type}
use up_rust.Transport.{LocalUriProvider, verify_filter_criteria}
use up_rust.LocalTransport
use up_rust.LocalTransport.{
  RegisteredListener, LocalTransport, matches_msg, matches, send, contains, register_listener,
  unregister_listener,
}
use up_rust.LocalTransport.Deliveries.{
  received, share, register_listener_lem, unregister_listener_lem,
}
use up_rust.LocalTransport.FilterSoundness.{matches_msg-verify_filter_criteria}
use up_rust.Uri.Checks.{verify_no_wildcards_iff}
use up_rust.Builder.{UMessageBuilder, attributes_of, id_or_new}
use up_rust.Builder.Build.{build_of_IsValid}
use up_rust.Builder
use up_rust.Builder.Responses.{Answers}
use up_rust.Communication.{CallOptions, apply_common_options, build_message}
use up_rust.Communication.Messages.{IsMessageOf}
use up_rust.Communication.Publishing
use up_rust.Communication.Publishing.{Outcome, publish-Outcome, notify-Outcome}
use up_rust.Communication.Errors.{
  ServiceInvocationError, PubSubError, NotificationError, publish_error, notify_error, not_found,
  status_from,
}
use up_rust.Communication.RpcServer.{
  Handled, RequestHandler, outcome, on_receive, validate_origin_filter, validate_sink_filter,
}
use up_rust.Communication.RpcServer.Answering.{CanWrite, reported_payload, on_receive-Answers}
use up_rust.Communication.RpcServer.Endpoints.{AcceptedFilters}
use up_rust.Tests.{
  proto, entropy, entropy-IsEntropy, uuid, uuid_valid, client, method, topic, request_attributes,
  request_valid, status_codec, topic_concrete, client_concrete,
}

-- A listener for all messages to the method.
abbrev everything : RegisteredListener
everything = record { source_filter = any; sink_filter = some method; listener = 3 }

abbrev pub request : UMessage
request = record { attributes = some request_attributes; payload = none }

abbrev empty : LocalTransport
empty = record { listeners = [] }

abbrev full : LocalTransport
full = record { listeners = everything ∷ [] }

register_listener_lem_example :
    ((register_listener everything empty).0 ≡ (
      if contains [] everything
      then err (fail_with_code UCode.already_exists "listener already registered for filters")
      else ok tt))
    × (received 3 ((send request ((register_listener everything empty).1)).1)
        ≡ received 3 ((send request empty).1)
          + (if contains [] everything then 0 else share everything request 3))
register_listener_lem_example = register_listener_lem everything empty request 3

unregister_listener_lem_example :
    ((unregister_listener everything full).0 ≡ (
      if contains (everything ∷ []) everything
      then ok tt
      else err (fail_with_code UCode.not_found "no such listener registered for filters")))
    × (received 3 ((send request ((unregister_listener everything full).1)).1)
          + (if contains (everything ∷ []) everything then share everything request 3 else 0)
        ≡ received 3 ((send request full).1))
unregister_listener_lem_example = unregister_listener_lem everything full request 3

matched : matches_msg everything request ≡ true
unfolding matches_msg matches
matched = rw ((matches-any client).0, (matches-any method).1) refl

matches_msg-verify_filter_criteria_example : verify_filter_criteria any (some method) ≡ ok tt
matches_msg-verify_filter_criteria_example =
    matches_msg-verify_filter_criteria proto UAttributesValidators.request everything
      request_attributes none request_valid matched

-- The addresses of the service at `method`.
abbrev pub uris : LocalUriProvider
uris = record {
  authority = "vcu";
  resource_uri = λ k. record method { resource_id = k };
  source_uri = record method { resource_id = 0 };
}

abbrev pub State : Type 0
State = LocalTransport × List (ℕ × UMessage)

abbrev pub nothing : State
nothing = (empty, [])

abbrev pub options : CallOptions
options = record { ttl = 500; message_id = some uuid; token = none; priority = none }

abbrev pub publish_start : UMessageBuilder
publish_start = Builder.publish (uris.resource_uri 0x8001)

abbrev publish_builder : UMessageBuilder
publish_builder = record publish_start { ttl = some 500; message_id = some uuid }

publish_applied : apply_common_options proto options publish_start ≡ returns publish_builder
unfolding apply_common_options Builder.with_message_id Builder.with_ttl
publish_applied = rw uuid_valid refl

abbrev pub publish_message : UMessage
publish_message = record { attributes = some (attributes_of publish_builder uuid); payload = none }

publish_built : build_message proto entropy publish_builder none ≡ returns (ok publish_message)
unfolding build_message id_or_new Builder.publish message_type
publish_built = build_of_IsValid proto entropy publish_builder uuid refl (record {
  type_ = refl;
  id = (uuid, refl, uuid_valid);
  source = (topic, refl, (omega arith, (verify_no_wildcards_iff topic).0 topic_concrete));
  sink = refl;
  own = tt;
})

abbrev pub publish_done : State → Result PubSubError (Unit {0}) × State
publish_done s = Publishing.convert publish_error (LocalTransport.transport.send publish_message s)

pub publish_run :
    (s : State)
    → Publishing.publish proto LocalTransport.transport uris entropy 0x8001 options none s
      ≡ returns (publish_done s)
unfolding Publishing.publish
publish_run s = rw (publish_applied, publish_built) refl

publish-Outcome_example :
    Outcome LocalTransport.transport publish_error
      (IsMessageOf proto publish_start options none)
      nothing
      (publish_done nothing)
publish-Outcome_example =
    publish-Outcome proto LocalTransport.transport uris entropy 0x8001 options none nothing
      (publish_done nothing) (publish_run nothing)

abbrev pub notification_start : UMessageBuilder
notification_start = Builder.notification (uris.resource_uri 0x8001) client

abbrev notification_builder : UMessageBuilder
notification_builder = record notification_start { ttl = some 500; message_id = some uuid }

notification_applied :
    apply_common_options proto options notification_start ≡ returns notification_builder
unfolding apply_common_options Builder.with_message_id Builder.with_ttl
notification_applied = rw uuid_valid refl

abbrev pub notification_message : UMessage
notification_message = record {
  attributes = some (attributes_of notification_builder uuid);
  payload = none;
}

notification_built :
    build_message proto entropy notification_builder none ≡ returns (ok notification_message)
unfolding build_message id_or_new Builder.notification message_type
notification_built = build_of_IsValid proto entropy notification_builder uuid refl (record {
  type_ = refl;
  id = (uuid, refl, uuid_valid);
  source = (topic, refl, (λ e. ground arith, (verify_no_wildcards_iff topic).0 topic_concrete));
  sink = (client, refl, (refl, (verify_no_wildcards_iff client).0 client_concrete));
  own = tt;
})

abbrev pub notification_done : State → Result NotificationError (Unit {0}) × State
notification_done s =
    Publishing.convert notify_error (LocalTransport.transport.send notification_message s)

pub notification_run :
    (s : State)
    → Publishing.notify proto LocalTransport.transport uris entropy 0x8001 client options none s
      ≡ returns (notification_done s)
unfolding Publishing.notify
notification_run s = rw (notification_applied, notification_built) refl

notify-Outcome_example :
    Outcome LocalTransport.transport notify_error
      (IsMessageOf proto notification_start options none)
      nothing
      (notification_done nothing)
notify-Outcome_example =
    notify-Outcome proto LocalTransport.transport uris entropy 0x8001 client options none nothing
      (notification_done nothing) (notification_run nothing)

abbrev pub answer_nothing : RequestHandler
answer_nothing ttl resource_id a payload = some (ok none)

pub can_write : CanWrite status_codec
can_write s = (1 ∷ [], refl)

on_receive-Answers_example :
    let handled = outcome (some (ok none)) in
    (m : UMessage) × (on_receive proto status_codec entropy LocalTransport.transport answer_nothing
        request nothing
      ≡ returns ((LocalTransport.transport.send m nothing).1))
    × Answers proto request_attributes UPayloadFormat.unspecified none m
    × (m.payload ≡ reported_payload status_codec can_write handled)
on_receive-Answers_example =
    on_receive-Answers proto status_codec can_write entropy LocalTransport.transport answer_nothing
      request_attributes none method nothing entropy-IsEntropy request_valid refl

-- A handler that fails.
abbrev pub answer_not_found : RequestHandler
answer_not_found ttl resource_id a payload = some (err (not_found "no"))

pub read_back :
    (e : ServiceInvocationError)
    → ◌≡◌ {A = Handled} (err (not_found "no")) (err e)
    → status_codec.parse ((can_write (status_from e)).0) ≡ ok (status_from e)
unfolding status_from fail_with_code
read_back e same =
    subst (λ x. status_codec.parse (1 ∷ []) ≡ ok (status_from x)) (error_of same) refl
  where
    error_of : ◌≡◌ {A = Handled} (err (not_found "no")) (err e) → not_found "no" ≡ e
    error_of h = cc

filters : AcceptedFilters none method
unfolding validate_origin_filter validate_sink_filter Uri.is_rpc_method
filters = record { origin_ok = refl; sink_ok = refl }
