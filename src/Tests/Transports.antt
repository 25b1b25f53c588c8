-- ===== src/Tests/Transports.antt =====
-- Runs of the definitions on the set of a transport's registrations.
use up_rust.Prelude.{◌≡◌, refl, Bool, inl, inr, arith, true, false, ◌||◌, none, some, [], ◌∷◌}
use up_rust.Proto.{known, UMessageType, UUri, UAttributes, UMessage, default_UAttributes}
use up_rust.LocalTransport.{
  RegisteredListener, LocalTransport, listener_eq, register_listener, contains, send,
}
use up_rust.LocalTransport.Deliveries.{received}
use up_rust.LocalTransport.Calls.{Reachable, start, step, registering}
use up_rust.LocalTransport.Sets
use up_rust.LocalTransport.Sets.{
  seen, perform, specified, registrations, seen-perform_set, send-registrations,
}
use up_rust.Transport.{LocalUriProvider}
use up_rust.Uri.{any_with_resource_id, resource_id_response}
use up_rust.Uri.Matching
use up_rust.Uri.Matching.Laws.{matches_iff}
use up_rust.Tests.{client, method, topic, publish_attributes}

abbrev first : RegisteredListener
first = record { source_filter = topic; sink_filter = none; listener = 1 }

abbrev second : RegisteredListener
second = record { source_filter = topic; sink_filter = none; listener = 2 }

abbrev empty : LocalTransport
empty = record { listeners = [] }

abbrev one_way : LocalTransport
one_way = record { listeners = first ∷ second ∷ [] }

abbrev other_way : LocalTransport
other_way = record { listeners = second ∷ first ∷ [] }

one_way-Reachable : Reachable one_way
unfolding register_listener contains
one_way-Reachable =
    step (record { listeners = second ∷ [] }) one_way
      (step empty (record { listeners = second ∷ [] }) start (registering second empty))
      (registering first (record { listeners = second ∷ [] }))

other_way-Reachable : Reachable other_way
unfolding register_listener contains
other_way-Reachable =
    step (record { listeners = first ∷ [] }) other_way
      (step empty (record { listeners = first ∷ [] }) start (registering first empty))
      (registering second (record { listeners = first ∷ [] }))

seen-perform_set_example :
    seen (perform (Sets.registering first) one_way)
    ≡ specified (Sets.registering first) (registrations one_way)
seen-perform_set_example = seen-perform_set one_way (Sets.registering first) one_way-Reachable

swapped : (a b : Bool) → (a || (b || false)) ≡ (b || (a || false))
swapped true true = refl
swapped true false = refl
swapped false true = refl
swapped false false = refl

same_set : (s : RegisteredListener) → registrations one_way s ≡ registrations other_way s
unfolding contains
same_set s = swapped (listener_eq first s) (listener_eq second s)

abbrev message : UMessage
message = record { attributes = some publish_attributes; payload = none }

send-registrations_example :
    received 1 ((send message one_way).1) ≡ received 1 ((send message other_way).1)
send-registrations_example =
    send-registrations one_way other_way message 1 one_way-Reachable other_way-Reachable same_set

-- The entity of the method, which also offers the topic.
abbrev uris : LocalUriProvider
uris = record {
  authority = "vcu";
  resource_uri = λ k. record method { resource_id = k };
  source_uri = record method { resource_id = 0 };
}

abbrev notification_attributes : UAttributes
notification_attributes = record default_UAttributes {
  type_ = known UMessageType.notification;
  source = some topic;
  sink = some uris.source_uri;
}

abbrev notification : UMessage
notification = record { attributes = some notification_attributes; payload = none }

abbrev endpoint_filter : UUri
endpoint_filter = any_with_resource_id resource_id_response

pub from_client : Matching.matches endpoint_filter client ≡ true
unfolding any_with_resource_id
from_client = (matches_iff endpoint_filter client).1 (record {
  authority = inl refl;
  entity_type = inl (omega arith);
  entity_instance = inl (omega arith);
  version = inl (omega arith);
  resource = inr refl;
})
