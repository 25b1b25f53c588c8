-- ===== src/Communication/Rpc/Services.antt =====
-- src/communication/usubscription_client.rs, src/communication/udiscovery_client.rs: the calls of
-- the core services. The types of the messages that the clients only hand on are parameters.
use up_rust.Prelude.{Bool, none, some, List, [], Result, ok, err, Run, returns}
use up_rust.Prelude.Panicking.{◌>>=◌}
use up_rust.Proto.{UStatus, UUri, Descriptors}
use up_rust.Uri.Parsing.{UriParser}
use up_rust.Message.Extraction.{Codec}
use up_rust.Communication.{CallOptions, for_rpc_request}
use up_rust.Communication.Errors.{ServiceInvocationError, status_from}
use up_rust.Communication.Rpc.{RpcClient, invoke_proto_method}
use up_rust.Core.USubscription.{
  usubscription_uri, resource_id_subscribe, resource_id_unsubscribe,
  resource_id_fetch_subscriptions, resource_id_register_for_notifications,
  resource_id_unregister_for_notifications, resource_id_fetch_subscribers, SubscriptionRequest,
  SubscriptionResponse, UnsubscribeRequest,
}
use up_rust.Core.UDiscovery.{
  udiscovery_uri, resource_id_find_services, resource_id_get_service_topics, FindServicesRequest,
  FindServicesResponse, GetServiceTopicsRequest, GetServiceTopicsResponse,
}

unfoldable pub default_call_options : CallOptions
unfolding for_rpc_request
default_call_options = for_rpc_request 5000 none none none

-- The operations of the trait `USubscription` that the subscriber calls.
pub record USubscription (S : Type 0) : Type 0 where
  pub subscribe : SubscriptionRequest → S → Run (Result UStatus SubscriptionResponse × S)
  pub unsubscribe : UnsubscribeRequest → S → Run (Result UStatus (Unit {0}) × S)

-- The trait `UDiscovery`, of which the topics' descriptions are only handed on.
pub record UDiscovery (Info S : Type 0) : Type 0 where
  pub find_services : UUri → Bool → S → Run (Result UStatus (List UUri) × S)
  pub get_service_topics : UUri → Bool → S → Run (Result UStatus (List Info) × S)

abbrev nothing : {R : Type 0} → R → Unit {0}
nothing response = tt

abbrev uris_or_none : FindServicesResponse → List UUri
uris_or_none response = elim response.uris [ none ↦ [] | some uris ↦ uris ]

abbrev topics_of : {Info : Type 0} → GetServiceTopicsResponse Info → List Info
topics_of response = response.topics

-- The result of a call, its response and its error converted.
abbrev pub answer :
    {R A S : Type 0} → (R → A) → Result ServiceInvocationError R × S → Result UStatus A × S
answer f (ok response, s) = (ok (f response), s)
answer f (err e, s) = (err (status_from e), s)

module _ (proto : Descriptors) (parser : UriParser) {S : Type 0} (client : RpcClient S) where
  abbrev pub call_at :
      {T R A : Type 0} → Codec T → Codec R → (R → A) → Run UUri → T → S → Run (Result UStatus A × S)
  call_at requests responses f uri request s = do
    method ← uri
    done ← invoke_proto_method proto requests responses client method default_call_options request s
    returns (answer f done)

  -- `RpcClientUSubscription`.
  module _ (requests : Codec SubscriptionRequest) (responses : Codec SubscriptionResponse) where
    unfoldable pub subscribe :
        SubscriptionRequest → S → Run (Result UStatus SubscriptionResponse × S)
    unfolding usubscription_uri default_call_options invoke_proto_method
    subscribe request s =
        call_at requests responses (λ response. response)
          (usubscription_uri parser resource_id_subscribe) request s

  module _ {Response : Type 0} (requests : Codec UnsubscribeRequest)
      (responses : Codec Response) where
    unfoldable pub unsubscribe : UnsubscribeRequest → S → Run (Result UStatus (Unit {0}) × S)
    unfolding usubscription_uri default_call_options invoke_proto_method
    unsubscribe request s =
        call_at requests responses nothing (usubscription_uri parser resource_id_unsubscribe)
          request s

  module _ {Request Response : Type 0} (requests : Codec Request) (responses : Codec Response) where
    unfoldable pub fetch_subscriptions : Request → S → Run (Result UStatus Response × S)
    unfolding usubscription_uri default_call_options invoke_proto_method
    fetch_subscriptions request s =
        call_at requests responses (λ response. response)
          (usubscription_uri parser resource_id_fetch_subscriptions) request s

    unfoldable pub register_for_notifications : Request → S → Run (Result UStatus (Unit {0}) × S)
    unfolding usubscription_uri default_call_options invoke_proto_method
    register_for_notifications request s =
        call_at requests responses nothing
          (usubscription_uri parser resource_id_register_for_notifications) request s

    unfoldable pub unregister_for_notifications : Request → S → Run (Result UStatus (Unit {0}) × S)
    unfolding usubscription_uri default_call_options invoke_proto_method
    unregister_for_notifications request s =
        call_at requests responses nothing
          (usubscription_uri parser resource_id_unregister_for_notifications) request s

    unfoldable pub fetch_subscribers : Request → S → Run (Result UStatus Response × S)
    unfolding usubscription_uri default_call_options invoke_proto_method
    fetch_subscribers request s =
        call_at requests responses (λ response. response)
          (usubscription_uri parser resource_id_fetch_subscribers) request s

  -- `RpcClientUDiscovery`.
  module _ (requests : Codec FindServicesRequest) (responses : Codec FindServicesResponse) where
    unfoldable pub find_services : UUri → Bool → S → Run (Result UStatus (List UUri) × S)
    unfolding udiscovery_uri default_call_options invoke_proto_method
    find_services uri_pattern recursive s =
        call_at requests responses uris_or_none (udiscovery_uri parser resource_id_find_services)
          (record { uri = some uri_pattern; recursive = recursive }) s

  module _ {Info : Type 0} (requests : Codec GetServiceTopicsRequest)
      (responses : Codec (GetServiceTopicsResponse Info)) where
    unfoldable pub get_service_topics : UUri → Bool → S → Run (Result UStatus (List Info) × S)
    unfolding udiscovery_uri default_call_options invoke_proto_method
    get_service_topics topic_pattern recursive s =
        call_at requests responses topics_of (udiscovery_uri parser resource_id_get_service_topics)
          (record { topic = some topic_pattern; recursive = recursive }) s

  -- `RpcClientUSubscription` as a `USubscription`.
  unfoldable pub usubscription_client :
      {Response : Type 0}
      → Codec SubscriptionRequest
      → Codec SubscriptionResponse
      → Codec UnsubscribeRequest
      → Codec Response
      → USubscription S
  unfolding subscribe unsubscribe
  usubscription_client requests responses unsubscribes unsubscribed = record {
    subscribe = subscribe requests responses;
    unsubscribe = unsubscribe unsubscribes unsubscribed;
  }

  -- `RpcClientUDiscovery` as a `UDiscovery`.
  unfoldable pub udiscovery_client :
      {Info : Type 0}
      → Codec FindServicesRequest
      → Codec FindServicesResponse
      → Codec GetServiceTopicsRequest
      → Codec (GetServiceTopicsResponse Info)
      → UDiscovery Info S
  unfolding find_services get_service_topics
  udiscovery_client requests responses topics_requests topics_responses = record {
    find_services = find_services requests responses;
    get_service_topics = get_service_topics topics_requests topics_responses;
  }
