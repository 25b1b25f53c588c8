-- ===== src/Communication/InProcess/Invocation.antt =====
-- src/communication/in_memory_rpc_client.rs with src/communication/in_memory_rpc_server.rs over
-- src/local_transport.rs: a whole invocation.
use up_rust.Prelude.{ℕ, ◌≡◌, ◌≢◌, refl, sym, subst, true, Option, [], ok, err, returns}
use up_rust.Proto.{UStatus, Uuid, UUri, UAttributes, Descriptors}
use up_rust.Uuid.{Entropy}
use up_rust.Uuid.Build.{IsEntropy}
use up_rust.Uri.Matching
use up_rust.Message.Extraction.{Codec}
use up_rust.Builder
use up_rust.Builder.{UMessageBuilder, attributes_of}
use up_rust.LocalTransport
use up_rust.LocalTransport.{LocalTransport}
use up_rust.Transport.{LocalUriProvider}
use up_rust.Communication.{CallOptions, UPayload}
use up_rust.Communication.Errors.{ServiceInvocationError, rpc_error, status_from}
use up_rust.Communication.RpcServer.{
  RequestHandler, InMemoryRpcServer, register_endpoint, origin_or_any, outcome,
}
use up_rust.Communication.RpcServer.Answering.{CanWrite}
use up_rust.Communication.RpcClient.{beside, ResponseListener, invoke_method, new}
use up_rust.Communication.RpcClient.Composing.{requesting}
use up_rust.Communication.RpcClient.Requests.{invoke_method-HasSent}
use up_rust.Communication.Rpc.{in_memory}
use up_rust.Communication.InProcess.{
  Listener, request_listener, response_listener, Bus, Process, wait,
}
use up_rust.Communication.InProcess.Connected.{
  addresses, Pair, connected, connected_lem, origin-register_endpoint,
}
use up_rust.Communication.InProcess.Answered.{invoked}

module _ (proto : Descriptors) (codec : Codec UStatus) (write : CanWrite codec)
    (entropy : Bus → Entropy) (random : (bus : Bus) → IsEntropy (entropy bus))
    (listeners : ℕ → Listener) (channel : ResponseListener → ℕ) (handler : RequestHandler) where
  -- The call starts to wait, and what it returns, over the transport.
  abbrev Begins :
      LocalUriProvider
      → UUri
      → CallOptions
      → Option UPayload
      → ResponseListener
      → Uuid
      → Process
      → LocalTransport
      → Type 0
  Begins caller method options payload l id waiting t =
      invoke_method proto (beside LocalTransport.transport) caller (entropy (t, [])) method options
        payload (channel l) (l, (t, []))
      ≡ returns (ok id, waiting)

  abbrev Returns :
      LocalUriProvider
      → UUri
      → CallOptions
      → Option UPayload
      → ResponseListener
      → UAttributes
      → LocalTransport
      → Type 0
  Returns caller method options payload l a t =
      (l_after : ResponseListener) × (l_after.pending_requests ≡ l.pending_requests)
      × ((in_memory proto codec (beside LocalTransport.transport) caller entropy channel
              (wait proto codec entropy listeners)).invoke_method
            method options payload (l, (t, []))
          ≡ returns
              (outcome (handler options.ttl method.resource_id a payload), (l_after, (t, []))))

  -- Where a client was created and then an endpoint registered on an empty local transport, and the
  -- endpoint takes requests from the client's address, a call of the endpoint's method that does
  -- not fail before it waits returns exactly what the endpoint's handler returns for the call's
  -- time-to-live, the method's resource ID, the request's attributes and the call's payload: a
  -- payload, or an error, that of a timeout where the handler takes too long. After it the pending
  -- requests are as before it, and no delivery is left. Protobuf has to write every status and to
  -- read back that of the error that the handler returns for the call, the clock has to be below 2
  -- ^ 64 milliseconds, and the handler must not return RpcError for the call.
  pub in_memory-register_endpoint :
      (caller uris : LocalUriProvider) (origin : Option UUri) (k client endpoint : ℕ)
      (server server_after : InMemoryRpcServer) (t after : LocalTransport) (options : CallOptions)
      (payload : Option UPayload) (l : ResponseListener) (id : Uuid) (waiting : Process)
      → new LocalTransport.transport caller client (record { listeners = [] }, [])
        ≡ (ok tt, (t, []))
      → register_endpoint LocalTransport.transport uris origin k endpoint (server, (t, []))
        ≡ (ok tt, (server_after, (after, [])))
      → listeners client ≡ response_listener
      → listeners endpoint ≡ request_listener handler
      → Matching.matches (origin_or_any origin) caller.source_uri ≡ true
      → ((a : UAttributes) (s : UStatus)
          → outcome (handler options.ttl (uris.resource_uri k).resource_id a payload)
            ≢ err (rpc_error s))
      → ((a : UAttributes) (e : ServiceInvocationError)
          → outcome (handler options.ttl (uris.resource_uri k).resource_id a payload) ≡ err e
          → codec.parse ((write (status_from e)).0) ≡ ok (status_from e))
      → invoke_method proto
          (beside LocalTransport.transport)
          caller
          (entropy (after, []))
          (uris.resource_uri k)
          options
          payload
          (channel l)
          (l, (after, []))
        ≡ returns (ok id, waiting)
      → let a =
          attributes_of
            (requesting (uris.resource_uri k) caller.source_uri options id payload)
            id in
        (l_after : ResponseListener) × (l_after.pending_requests ≡ l.pending_requests)
        × ((in_memory proto codec
                (beside LocalTransport.transport)
                caller
                entropy
                channel
                (wait proto codec entropy listeners)).invoke_method
              (uris.resource_uri k)
              options
              payload
              (l, (after, []))
            ≡ returns (
              outcome (handler options.ttl (uris.resource_uri k).resource_id a payload),
              (l_after, (after, [])),
            ))
  unfolding Builder.request
  in_memory-register_endpoint caller uris origin k client endpoint server server_after t after
        options payload l id waiting created registered is_client is_endpoint accepted other reads
        begun =
      let p : Pair = record {
        reply_to = caller.source_uri;
        client = client;
        origin = origin_or_any origin;
        method = uris.resource_uri k;
        endpoint = endpoint;
      } in
      let a =
        attributes_of (requesting (uris.resource_uri k) caller.source_uri options id payload) id in
      let sent =
        invoke_method-HasSent proto (beside LocalTransport.transport) caller (entropy (after, []))
          (uris.resource_uri k) options payload (channel l) l (after, []) id waiting begun in
      let (positive, is_place) =
        addresses proto a (uris.resource_uri k) caller.source_uri refl refl sent.valid in
      let place =
        origin-register_endpoint uris origin k endpoint server server_after (t, []) (after, [])
          registered in
      let is_connected : after ≡ connected p =
        connected_lem proto caller uris origin k client endpoint server server_after t after [] []
          created registered positive is_place in
      subst (Returns caller (uris.resource_uri k) options payload l a) (sym is_connected) (
        invoked proto codec write entropy random listeners channel handler caller p options payload
          id is_client is_endpoint refl place accepted l waiting other reads
          (subst (Begins caller (uris.resource_uri k) options payload l id waiting) is_connected
            begun))
