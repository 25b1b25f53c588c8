-- ===== src/Tests/Subscriber.antt =====
-- Runs of the definitions on subscribers and on the clients of the core services.
use up_rust.Prelude.{
  ◌≡◌, refl, ◌↔◌, inl, false, none, some, List, [], ◌∷◌, Result, ok, err, returns, arith, str_eq,
}
use up_rust.Proto.{known, UMessageType, UPayloadFormat, UUri, UMessage, default_UAttributes}
use up_rust.Uri.Parsing.{
  Authority, UriParser, try_from_parts, verify_authority, verify_parsed_authority,
}
use up_rust.Uri.Parsing.Bounds.{IsHostOnly}
use up_rust.Message.{is_notification}
use up_rust.Message.Extraction.{Codec, extract_protobuf, deserialize_protobuf_bytes}
use up_rust.Attributes
use up_rust.Transport.{UTransport}
use up_rust.Core.USubscription.{
  State, SubscriptionStatus, SubscriptionRequest, SubscriptionResponse, Update, usubscription_uri,
}
use up_rust.Core.Addresses.{resource_of}
use up_rust.Communication.{UPayload, try_from_protobuf, new}
use up_rust.Communication.Rpc.{RpcClient}
use up_rust.Communication.Rpc.Services.{USubscription, subscribe as subscribe_remotely}
use up_rust.Communication.Rpc.Calls.{subscribe-invoke_method}
use up_rust.Communication.Errors.{RegistrationError, deadline_exceeded}
use up_rust.Communication.Subscriber.{
  SubscriptionChangeListener, Notifier, Change, add_handler, remove_handler, subscribe, unsubscribe,
  Subscriber, stop, on_receive, invoke_subscribe, invoke_unsubscribe, handler_of, without, clear,
}
use up_rust.Communication.Subscriber.Handlers.{
  adding, perform, seen, specified, registry, Announces, seen-perform, on_receive_iff,
}
use up_rust.Communication.Subscriber.Subscribing.{Subscribed, subscribe-Subscribed}
use up_rust.Communication.Subscriber.Updates.{
  IsUpdate, Stopped, subscribe-on_receive, unsubscribe-on_receive, stop-Stopped,
}
use up_rust.Tests.{proto, topic}

abbrev pub nobody : Authority
nobody = record { has_port = false; has_username = false; has_password = false; host = "" }

pub nobody-IsHostOnly : IsHostOnly nobody ""
nobody-IsHostOnly = record {
  port = refl;
  username = refl;
  password = refl;
  host = refl;
  length = omega arith;
}

-- A parser that reads every authority as the empty one.
abbrev pub local_parser : UriParser
local_parser = record {
  parse_reference = λ s. err "no reference";
  parse_authority = λ s. ok nobody;
  scheme_eq = str_eq;
}

-- A codec that writes each value as one byte, and knows one value to read.
abbrev pub constant : {T : Type 0} → T → Codec T
constant {T} v = record {
  Any = T;
  parse = λ bytes. ok v;
  write = λ w. ok (1 ∷ []);
  parse_any = λ bytes. ok v;
  write_any = λ any. ok (1 ∷ []);
  pack = λ w. ok w;
  unpack = λ any. ok (some any);
}

-- The service of a topic that accepts every subscription.
abbrev pending : SubscriptionStatus
pending = record { state = known State.subscribe_pending; message = "" }

abbrev pub accepted : SubscriptionResponse
accepted = record { status = some pending }

abbrev pub request : SubscriptionRequest
request = record { topic = some topic }

abbrev pub payload : UPayload
payload = record { payload_format = UPayloadFormat.protobuf_wrapped_in_any; payload = 1 ∷ [] }

-- A client whose calls are all answered at once.
abbrev answering : RpcClient (List UUri)
answering = record {
  invoke_method = λ method options p calls. returns (ok (some payload), method ∷ calls);
}

subscribe-invoke_method_example :
    subscribe_remotely proto local_parser answering
      (constant request)
      (constant accepted)
      request
      []
    ≡ returns (ok accepted, resource_of 0 1 ∷ [])
unfolding try_from_protobuf new
subscribe-invoke_method_example =
    subscribe-invoke_method proto local_parser answering (constant request) (constant accepted)
      nobody request accepted payload payload deadline_exceeded [] (resource_of 0 1 ∷ [])
      (ok (some payload)) refl nobody-IsHostOnly
      (λ any bytes packed written. (accepted, refl, refl)) refl refl (inl refl) refl

abbrev service : USubscription (List UUri)
service = record {
  subscribe = λ r calls. returns (ok accepted, calls);
  unsubscribe = λ r calls. returns (ok tt, calls);
}

-- A transport that takes every listener, and what was registered.
abbrev transport : UTransport (List UUri)
transport = record {
  send = λ m calls. (ok tt, calls);
  register_listener = λ source sink listener calls. (ok tt, source ∷ calls);
  unregister_listener = λ source sink listener calls. (ok tt, []);
}

abbrev no_handlers : SubscriptionChangeListener
no_handlers = record { poisoned = false; subscription_change_handlers = [] }

abbrev one_handler : SubscriptionChangeListener
one_handler = record { poisoned = false; subscription_change_handlers = (topic, 9) ∷ [] }

seen-perform_example :
    seen (perform (adding topic 9) no_handlers) ≡ specified (adding topic 9) (registry no_handlers)
seen-perform_example = seen-perform (adding topic 9) no_handlers

abbrev update : Update
update = record { topic = some topic; status = some pending }

-- A notification of the service with that update.
abbrev notification : UMessage
notification = record {
  attributes = some (record default_UAttributes { type_ = known UMessageType.notification });
  payload = some [];
}

abbrev change : Change
change = record { handler = 9; topic = topic; status = pending }

on_receive_iff_example :
    (on_receive proto (constant update) notification one_handler ≡ some change)
    ↔ Announces proto (constant update) notification (registry one_handler) change
on_receive_iff_example = on_receive_iff proto (constant update) notification one_handler change

subscribe-Subscribed_example :
    Subscribed transport topic 4
      (some 9)
      no_handlers
      (ok accepted)
      []
      (ok tt, (one_handler, topic ∷ []))
unfolding subscribe invoke_subscribe add_handler handler_of
subscribe-Subscribed_example =
    subscribe-Subscribed transport service topic 4 (some 9) no_handlers [] [] (ok accepted)
      (ok tt, (one_handler, topic ∷ [])) refl refl

is_update : IsUpdate proto (constant update) notification topic pending
unfolding is_notification Attributes.is_notification extract_protobuf deserialize_protobuf_bytes
is_update = record {
  notification = refl;
  update = update;
  extracted = refl;
  topic = refl;
  status = refl;
}

subscribe-on_receive_example :
    on_receive proto (constant update) notification one_handler ≡ some change
unfolding subscribe invoke_subscribe add_handler handler_of
subscribe-on_receive_example =
    subscribe-on_receive proto (constant update) transport service topic 4 9 no_handlers one_handler
      [] [] (topic ∷ []) (ok accepted) notification pending refl refl is_update

unsubscribe-on_receive_example : on_receive proto (constant update) notification no_handlers ≡ none
unfolding unsubscribe invoke_unsubscribe remove_handler without
unsubscribe-on_receive_example =
    unsubscribe-on_receive proto (constant update) transport service topic 4 one_handler no_handlers
      [] [] notification pending refl is_update

abbrev notifier : Notifier (List UUri)
notifier = record {
  start_listening = λ topic listener calls. (ok tt, topic ∷ calls);
  stop_listening = λ topic listener calls. (ok tt, []);
}

-- The topic of the updates.
abbrev changes : UUri
changes = resource_of 0 0x8000

stop-Stopped_example :
    (done : Result RegistrationError (Unit {0}) × Subscriber (List UUri)) × (stop local_parser
        notifier 2
        (one_handler, [])
      ≡ returns done)
    × Stopped proto (constant update) one_handler (notifier.stop_listening changes 2 []) done
unfolding stop usubscription_uri try_from_parts verify_authority verify_parsed_authority clear
stop-Stopped_example =
    stop-Stopped proto (constant update) local_parser notifier 2 one_handler [] changes refl
