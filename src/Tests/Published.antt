-- ===== src/Tests/Published.antt =====
-- Runs of the definitions on a publisher and a notifier with the ones that listen to them.
use up_rust.Prelude.{◌≡◌, ◌<◌, refl, false, none, some, [], ◌∷◌, ok, returns}
use up_rust.Proto.{known, UMessage}
use up_rust.Uri.Matching.Laws.{matches-any}
use up_rust.LocalTransport
use up_rust.LocalTransport.{LocalTransport}
use up_rust.LocalTransport.Deliveries.{received}
use up_rust.Core.USubscription.{State, SubscriptionResponse}
use up_rust.Communication.Messages.{IsMessageOf}
use up_rust.Communication.Publishing.{start_listening}
use up_rust.Communication.Listening.{notify-start_listening}
use up_rust.Communication.Rpc.Services.{USubscription}
use up_rust.Communication.Subscriber.{SubscriptionChangeListener, subscribe, invoke_subscribe}
use up_rust.Communication.Subscriber.Published.{publish-subscribe}
use up_rust.Tests.{proto, entropy, client, topic, topic_concrete}
use up_rust.Tests.RpcClient.{caller}
use up_rust.Tests.Clients
use up_rust.Tests.Clients.{
  uris, options, publish_start, notification_start, publish_message, notification_message,
  publish_run, notification_run,
}

abbrev accepted : SubscriptionResponse
accepted = record { status = some (record { state = known State.subscribed; message = "" }) }

-- The service of a topic that accepts every subscription.
abbrev service : USubscription Clients.State
service = record {
  subscribe = λ r s. returns (ok accepted, s);
  unsubscribe = λ r s. returns (ok tt, s);
}

abbrev listener : SubscriptionChangeListener
listener = record { poisoned = false; subscription_change_handlers = [] }

abbrev empty : LocalTransport
empty = record { listeners = [] }

abbrev subscribed : LocalTransport
subscribed = record {
  listeners = record { source_filter = topic; sink_filter = none; listener = 7 } ∷ [];
}

subscribing :
    subscribe LocalTransport.transport service topic 7 none (listener, (empty, []))
    ≡ returns (ok tt, (listener, (subscribed, [])))
unfolding subscribe invoke_subscribe LocalTransport.register_listener LocalTransport.contains
subscribing = refl

publish-subscribe_example :
    (m : UMessage) × IsMessageOf proto publish_start options none m
    × ((LocalTransport.send publish_message subscribed).1 ≡ (LocalTransport.send m subscribed).1)
    × (0 < received 7 ((LocalTransport.send publish_message subscribed).1))
unfolding LocalTransport.send
publish-subscribe_example =
    publish-subscribe proto service topic 7 none listener listener empty empty subscribed subscribed
      [] [] [] ((LocalTransport.send publish_message subscribed).1) (ok accepted) uris entropy
      0x8001 options none refl subscribing (matches-any topic).1 (publish_run (subscribed, []))

abbrev listening : LocalTransport
listening = record {
  listeners = record { source_filter = topic; sink_filter = some client; listener = 5 } ∷ [];
}

started :
    start_listening proto LocalTransport.transport caller topic 5 (empty, [])
    ≡ (ok tt, (listening, []))
unfolding start_listening LocalTransport.register_listener LocalTransport.contains
started = rw topic_concrete refl

notify-start_listening_example :
    (m : UMessage) × IsMessageOf proto notification_start options none m
    × ((LocalTransport.send notification_message listening).1 ≡ (LocalTransport.send m listening).1)
    × (0 < received 5 ((LocalTransport.send notification_message listening).1))
unfolding LocalTransport.send
notify-start_listening_example =
    notify-start_listening proto caller uris 5 0x8001 empty listening listening [] []
      ((LocalTransport.send notification_message listening).1) entropy options none started
      (notification_run (listening, []))
