-- ===== src/Communication/InProcess/Answered.antt =====
-- src/communication/in_memory_rpc_client.rs with src/communication/in_memory_rpc_server.rs over
-- src/local_transport.rs: what an invocation of an endpoint's method returns.
use up_rust.Prelude.{
  ℕ, ◌<◌, ◌≡◌, ◌≢◌, refl, ap, sym, subst, ◌∙◌, true, Option, none, some, [], ◌∷◌, ok, err, returns,
}
use up_rust.Proto.{UStatus, Uuid, UUri, UAttributes, UMessage, Descriptors}
use up_rust.Uuid.{Entropy}
use up_rust.Uuid.Build.{IsEntropy}
use up_rust.Uri.Matching
use up_rust.Message.Extraction.{Codec}
use up_rust.Validator.{message_type}
use up_rust.Builder
use up_rust.Builder.{UMessageBuilder, attributes_of}
use up_rust.Builder.Responses.{Answers}
use up_rust.LocalTransport
use up_rust.LocalTransport.{LocalTransport}
use up_rust.Transport.{LocalUriProvider}
use up_rust.Communication.{CallOptions, UPayload}
use up_rust.Communication.Errors.{ServiceInvocationError, rpc_error, status_from}
use up_rust.Communication.RpcServer.{Handled, RequestHandler, outcome, payload_of}
use up_rust.Communication.RpcServer.Answering.{
  CanWrite, reported_payload, reported_format, reported_code,
}
use up_rust.Communication.RpcClient.{beside, ResponseListener, received, invoke_method}
use up_rust.Communication.RpcClient.Pending.{pending, IsResponseTo, on_receive-pending}
use up_rust.Communication.RpcClient.Composing.{requesting}
use up_rust.Communication.RpcClient.Requests.{HasSent, invoke_method-HasSent}
use up_rust.Communication.Rpc.{in_memory}
use up_rust.Communication.Rpc.InMemory.{in_memory-Answers}
use up_rust.Communication.InProcess.{
  Listener, request_listener, response_listener, Bus, Process, wait,
}
use up_rust.Communication.InProcess.Connected.{Pair, connected, send-request}
use up_rust.Communication.InProcess.Relaying.{relayed_call, waited}

module _ (proto : Descriptors) (codec : Codec UStatus) (write : CanWrite codec)
    (entropy : Bus → Entropy) (random : (bus : Bus) → IsEntropy (entropy bus))
    (listeners : ℕ → Listener) (channel : ResponseListener → ℕ) (handler : RequestHandler) where
  answering :
      (a : UAttributes) (handled : Handled) (m : UMessage) (id : Uuid)
      → a.id ≡ some id
      → Answers proto a (reported_format handled) (reported_code handled) m
      → IsResponseTo id m
  unfolding message_type
  answering a handled m id same h = record {
    attributes = h.reply;
    same = h.attributes;
    type_ = h.valid.type_;
    reqid = h.reqid ∙ same;
  }

  handed_over :
      (method reply_to : UUri) (options : CallOptions) (id : Uuid) (payload : Option UPayload)
      → let b = requesting method reply_to options id payload in
        payload_of b.payload (attributes_of b id) ≡ payload
  unfolding Builder.request
  handed_over method reply_to options id none = refl
  handed_over method reply_to options id (some q) = refl

  module _ (caller : LocalUriProvider) (p : Pair) (options : CallOptions)
      (payload : Option UPayload) (id : Uuid) (is_client : listeners p.client ≡ response_listener)
      (is_endpoint : listeners p.endpoint ≡ request_listener handler)
      (same : p.reply_to ≡ caller.source_uri) (place : p.origin.resource_id ≡ 0)
      (accepted : Matching.matches p.origin p.reply_to ≡ true) where
    abbrev builder : UMessageBuilder
    builder = requesting p.method caller.source_uri options id payload

    abbrev attributes : UAttributes
    attributes = attributes_of builder id

    abbrev result : Handled
    result = outcome (
        handler options.ttl p.method.resource_id attributes (payload_of builder.payload attributes))

    abbrev HasWaited : ResponseListener → Process → UMessage → Type 0
    HasWaited l waiting m =
        (wait proto codec entropy listeners id waiting
          ≡ returns (
            received m,
            (record l { delivered = (channel l, m) ∷ l.delivered }, (connected p, [])),
          ))
        × Answers proto attributes (reported_format result) (reported_code result) m
        × (m.payload ≡ reported_payload codec write result)

    answered :
        (l : ResponseListener) (waiting : Process)
        → HasSent proto
            (beside LocalTransport.transport)
            (channel l)
            builder
            id
            l
            (connected p, [])
            waiting
        → (m : UMessage) × HasWaited l waiting m
    unfolding Builder.request LocalTransport.send
    answered l waiting sent =
        let (reply, from, (reply_place, _)) = sent.valid.source in
        let (method, to, (positive, below, _)) = sent.valid.sink in
        let method_is : p.method ≡ method = cc in
        let reply_is : p.reply_to ≡ reply = cc (from, same) in
        let is_method =
          subst (λ u. (0 < u.resource_id) × (u.resource_id < 0x8000)) (sym method_is)
            (positive, below) in
        let is_place = subst (λ u. u.resource_id ≡ 0) (sym reply_is) reply_place in
        let from_client : attributes.source ≡ some p.reply_to = ap some (sym same) in
        let request : UMessage = record {
          attributes = some attributes;
          payload = builder.payload;
        } in
        let (m, first, answers, carried) =
          relayed_call proto codec write entropy random listeners p handler is_client is_endpoint
            is_method is_place place attributes builder.payload (pending id (channel l) l)
            sent.valid from_client refl in
        let second =
          (on_receive-pending proto codec id (channel l) m l
            (answering attributes result m id refl answers) sent.working sent.vacant).0 in
        let deliveries =
          send-request p is_method is_place request attributes refl from_client refl accepted in
        let now : waiting ≡ (pending id (channel l) l, (connected p, (p.endpoint, request) ∷ [])) =
          λ i. (
            ap (λ d. d.1.0) (sym sent.sent) i,
            (ap (λ d. d.1.1) (sym sent.sent) ∙ ap (λ d. (connected p, d)) deliveries) i,
          ) in
        (
          m,
          (
            ap (λ w. wait proto codec entropy listeners id w) now
                ∙ waited proto codec write entropy random listeners p handler is_client is_endpoint
                    is_method is_place place request m l id (channel l) first second,
            answers,
            carried,
          ),
        )

    -- What the call returns.
    finished :
        (l : ResponseListener) (waiting : Process) (m : UMessage)
        → ((a : UAttributes) (s : UStatus)
            → outcome (handler options.ttl p.method.resource_id a payload) ≢ err (rpc_error s))
        → ((a : UAttributes) (e : ServiceInvocationError)
            → outcome (handler options.ttl p.method.resource_id a payload) ≡ err e
            → codec.parse ((write (status_from e)).0) ≡ ok (status_from e))
        → invoke_method proto
            (beside LocalTransport.transport)
            caller
            (entropy (connected p, []))
            p.method
            options
            payload
            (channel l)
            (l, (connected p, []))
          ≡ returns (ok id, waiting)
        → HasWaited l waiting m
        → (in_memory proto codec
              (beside LocalTransport.transport)
              caller
              entropy
              channel
              (wait proto codec entropy listeners)).invoke_method
            p.method options payload
            (l, (connected p, []))
          ≡ returns (
            outcome (handler options.ttl p.method.resource_id attributes payload),
            (record l { delivered = (channel l, m) ∷ l.delivered }, (connected p, [])),
          )
    finished l waiting m other reads begun (ended, answers, carried) =
        let l_after : ResponseListener = record l { delivered = (channel l, m) ∷ l.delivered } in
        let same_result =
          ap (λ q. outcome (handler options.ttl p.method.resource_id attributes q))
            (handed_over p.method caller.source_uri options id payload) in
        in_memory-Answers proto codec write (beside LocalTransport.transport) caller entropy channel
          (wait proto codec entropy listeners) p.method options payload l l_after (connected p, [])
          (connected p, []) id waiting m attributes result begun ended
          (λ s wrong. other attributes s (sym same_result ∙ wrong))
          (λ e failed. reads attributes e (sym same_result ∙ failed)) answers carried
        ∙ ap (λ r. returns (r, (l_after, (connected p, [])))) same_result

    pub invoked :
        (l : ResponseListener) (waiting : Process)
        → ((a : UAttributes) (s : UStatus)
            → outcome (handler options.ttl p.method.resource_id a payload) ≢ err (rpc_error s))
        → ((a : UAttributes) (e : ServiceInvocationError)
            → outcome (handler options.ttl p.method.resource_id a payload) ≡ err e
            → codec.parse ((write (status_from e)).0) ≡ ok (status_from e))
        → invoke_method proto
            (beside LocalTransport.transport)
            caller
            (entropy (connected p, []))
            p.method
            options
            payload
            (channel l)
            (l, (connected p, []))
          ≡ returns (ok id, waiting)
        → (l_after : ResponseListener) × (l_after.pending_requests ≡ l.pending_requests)
          × ((in_memory proto codec
                  (beside LocalTransport.transport)
                  caller
                  entropy
                  channel
                  (wait proto codec entropy listeners)).invoke_method
                p.method options payload
                (l, (connected p, []))
              ≡ returns (
                outcome (handler options.ttl p.method.resource_id attributes payload),
                (l_after, (connected p, [])),
              ))
    invoked l waiting other reads begun =
        let (m, waited) = answered l waiting (
          invoke_method-HasSent proto (beside LocalTransport.transport) caller
            (entropy (connected p, [])) p.method options payload (channel l) l (connected p, []) id
            waiting begun) in
        (
          record l { delivered = (channel l, m) ∷ l.delivered },
          refl,
          finished l waiting m other reads begun waited,
        )
