-- ===== src/Communication/InProcess/Subscription.antt =====
-- src/communication/usubscription_client.rs over src/communication/in_memory_rpc_client.rs: a
-- subscription at a service in the same process.
use up_rust.Prelude.{ℕ, ◌≡◌, refl, ap, subst, ◌∙◌, true, Option, none, some, [], ok, inl, returns}
use up_rust.Proto.{UStatus, Uuid, UUri, UAttributes, Descriptors}
use up_rust.Uuid.{Entropy}
use up_rust.Uuid.Build.{IsEntropy}
use up_rust.Uri.Matching
use up_rust.Uri.Parsing.{Authority, UriParser}
use up_rust.Uri.Parsing.Bounds.{IsHostOnly}
use up_rust.Message.Extraction.{Codec}
use up_rust.Builder.{attributes_of}
use up_rust.LocalTransport
use up_rust.LocalTransport.{LocalTransport}
use up_rust.Transport.{LocalUriProvider}
use up_rust.Core.Addresses.{resource_of}
use up_rust.Core.USubscription.{SubscriptionRequest, SubscriptionResponse}
use up_rust.Communication.{CallOptions, UPayload, try_from_protobuf}
use up_rust.Communication.Errors.{deadline_exceeded}
use up_rust.Communication.RpcServer.{
  RequestHandler, InMemoryRpcServer, register_endpoint, origin_or_any, outcome,
}
use up_rust.Communication.RpcServer.Answering.{CanWrite}
use up_rust.Communication.RpcClient.{beside, ResponseListener, invoke_method, new}
use up_rust.Communication.RpcClient.Composing.{requesting}
use up_rust.Communication.Rpc.{in_memory}
use up_rust.Communication.Rpc.Services.{subscribe}
use up_rust.Communication.Rpc.Calls.{ReadsBack, subscribe-invoke_method}
use up_rust.Communication.InProcess.{
  Listener, request_listener, response_listener, Bus, Process, wait,
}
use up_rust.Communication.InProcess.Invocation.{in_memory-register_endpoint}

abbrev pub five_seconds : CallOptions
five_seconds = record { ttl = 5000; message_id = none; token = none; priority = none }

module _ (proto : Descriptors) (codec : Codec UStatus) (write : CanWrite codec)
    (entropy : Bus → Entropy) (random : (bus : Bus) → IsEntropy (entropy bus))
    (listeners : ℕ → Listener) (channel : ResponseListener → ℕ) (handler : RequestHandler)
    (parser : UriParser) (requests : Codec SubscriptionRequest)
    (responses : Codec SubscriptionResponse) where
  -- Where a client was created and then a uSubscription service's method for subscribing registered
  -- as an endpoint on an empty local transport, which takes requests from the client's address and
  -- whose handler answers the encoded request with an encoded response, subscribing by the
  -- uSubscription client over the in-memory client returns that response, if the call does not fail
  -- before it waits. Protobuf has to read back the response and to write every status, uriparse to
  -- read the empty text as an authority without a host, and the clock has to be below 2 ^ 64
  -- milliseconds.
  pub subscribe-register_endpoint :
      (caller uris : LocalUriProvider) (origin : Option UUri) (k client endpoint : ℕ)
      (server server_after : InMemoryRpcServer) (t after : LocalTransport) (l : ResponseListener)
      (id : Uuid) (waiting : Process) (auth : Authority) (request : SubscriptionRequest)
      (response : SubscriptionResponse) (p q : UPayload)
      → new LocalTransport.transport caller client (record { listeners = [] }, [])
        ≡ (ok tt, (t, []))
      → register_endpoint LocalTransport.transport uris origin k endpoint (server, (t, []))
        ≡ (ok tt, (server_after, (after, [])))
      → listeners client ≡ response_listener
      → listeners endpoint ≡ request_listener handler
      → Matching.matches (origin_or_any origin) caller.source_uri ≡ true
      → uris.resource_uri k ≡ resource_of 0 1
      → ((a : UAttributes)
          → outcome (handler 5000 (uris.resource_uri k).resource_id a (some p)) ≡ ok (some q))
      → parser.parse_authority "" ≡ ok auth
      → IsHostOnly auth ""
      → ReadsBack responses response
      → try_from_protobuf requests request ≡ ok p
      → try_from_protobuf responses response ≡ ok q
      → invoke_method proto
          (beside LocalTransport.transport)
          caller
          (entropy (after, []))
          (uris.resource_uri k)
          five_seconds
          (some p)
          (channel l)
          (l, (after, []))
        ≡ returns (ok id, waiting)
      → (l_after : ResponseListener) × (l_after.pending_requests ≡ l.pending_requests)
        × (subscribe proto parser
              (in_memory proto codec
                (beside LocalTransport.transport)
                caller
                entropy
                channel
                (wait proto codec entropy listeners))
              requests
              responses
              request
              (l, (after, []))
            ≡ returns (ok response, (l_after, (after, []))))
  subscribe-register_endpoint caller uris origin k client endpoint server server_after t after l id
        waiting auth request response p q created registered is_client is_endpoint accepted method
        answers parsed host reads sent answered begun =
      let (l_after, same, called) =
        in_memory-register_endpoint proto codec write entropy random listeners channel handler
          caller uris origin k client endpoint server server_after t after five_seconds (some p) l
          id waiting created registered is_client is_endpoint accepted
          (λ a s wrong. cc (answers a, wrong)) (λ a e wrong. cc (answers a, wrong)) begun in
      let a =
        attributes_of (requesting (uris.resource_uri k) caller.source_uri five_seconds id (some p))
          id in
      let answered_with = called ∙ ap (λ r. returns (r, (l_after, (after, [])))) (answers a) in
      (
        l_after,
        same,
        subscribe-invoke_method proto parser
            (in_memory proto codec (beside LocalTransport.transport) caller entropy channel
              (wait proto codec entropy listeners))
            requests responses auth request response p q deadline_exceeded (l, (after, []))
            (l_after, (after, [])) (ok (some q)) parsed host reads sent answered (inl refl)
            (subst
              (λ u.
                (in_memory proto codec (beside LocalTransport.transport) caller entropy channel
                    (wait proto codec entropy listeners)).invoke_method
                  u five_seconds (some p) (l, (after, []))
                ≡ returns (ok (some q), (l_after, (after, []))))
              method answered_with),
      )
