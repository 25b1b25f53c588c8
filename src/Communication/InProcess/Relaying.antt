-- ===== src/Communication/InProcess/Relaying.antt =====
-- src/local_transport.rs with src/communication/in_memory_rpc_server.rs and
-- src/communication/in_memory_rpc_client.rs: the deliveries of a request, up to the end of the
-- wait.
use up_rust.Prelude.{
  ℕ, suc, ◌+◌, ◌*◌, length, ◌<◌, ◌≡◌, refl, ap, ◌∙◌, Option, some, List, [], ◌∷◌, returns, ==_iff,
}
use up_rust.Proto.{UStatus, Uuid, UAttributes, UMessage, Descriptors}
use up_rust.Uuid.{Entropy}
use up_rust.Uuid.Build.{IsEntropy}
use up_rust.Message.Extraction.{Codec}
use up_rust.Validator.{UAttributesValidators}
use up_rust.Validator.Laws.{IsValid, validate_iff}
use up_rust.Builder.Responses.{Answers}
use up_rust.LocalTransport
use up_rust.LocalTransport.{LocalTransport}
use up_rust.Communication.RpcServer
use up_rust.Communication.RpcServer.{
  Handled, RequestHandler, InMemoryRpcServer, register_endpoint, origin_or_any, outcome, payload_of,
}
use up_rust.Communication.RpcServer.Answering.{
  CanWrite, on_receive-Answers, reported_payload, reported_format, reported_code,
}
use up_rust.Communication.RpcClient.{
  ResponseListener, Awaited, received, invoke_method, sender, new,
}
use up_rust.Communication.RpcClient
use up_rust.Communication.RpcClient.Pending.{pending, uuid_eq_refl}
use up_rust.Communication.InProcess.{
  Listener, request_listener, response_listener, Bus, Process, on_receive, settle, wait, awaited_in,
}
use up_rust.Communication.InProcess.Connected.{Pair, connected, send-response}

module _ (proto : Descriptors) (codec : Codec UStatus) (write : CanWrite codec)
    (entropy : Bus → Entropy) (random : (bus : Bus) → IsEntropy (entropy bus))
    (listeners : ℕ → Listener) (p : Pair) (handler : RequestHandler)
    (is_client : listeners p.client ≡ response_listener)
    (is_endpoint : listeners p.endpoint ≡ request_listener handler)
    (is_method : (0 < p.method.resource_id) × (p.method.resource_id < 0x8000))
    (reply_place : p.reply_to.resource_id ≡ 0) (place : p.origin.resource_id ≡ 0) where
  relayed :
      (listener : Listener) (m n : UMessage) (l : ResponseListener) (t : LocalTransport) (k : ℕ)
      → listener ≡ request_listener handler
      → RpcServer.on_receive proto codec
          (entropy (t, []))
          LocalTransport.transport
          handler
          m
          (t, [])
        ≡ returns ((LocalTransport.transport.send n (t, [])).1)
      → (LocalTransport.send n t).1 ≡ (k, n) ∷ []
      → on_receive proto codec entropy listeners listener m (l, (t, []))
        ≡ returns (l, (t, (k, n) ∷ []))
  unfolding on_receive
  relayed listener m n l t k is done to = rw (is, done, to) refl

  -- The delivery of a request leaves that of the answer.
  pub relayed_call :
      (a : UAttributes) (payload : Option (List ℕ)) (l : ResponseListener)
      → IsValid proto UAttributesValidators.request a
      → a.source ≡ some p.reply_to
      → a.sink ≡ some p.method
      → let handled =
          outcome
            (handler (RpcServer.timeout_of a.ttl) p.method.resource_id a (payload_of payload a)) in
        (m : UMessage) × (on_receive proto codec entropy listeners
            (listeners p.endpoint)
            (record { attributes = some a; payload = payload })
            (l, (connected p, []))
          ≡ returns (l, (connected p, (p.client, m) ∷ [])))
        × Answers proto a (reported_format handled) (reported_code handled) m
        × (m.payload ≡ reported_payload codec write handled)
  relayed_call a payload l valid from to =
      let (m, done, answers, same) =
        on_receive-Answers proto codec write (entropy (connected p, [])) LocalTransport.transport
          handler a payload p.method (connected p, []) (random (connected p, []))
          ((validate_iff proto UAttributesValidators.request a).1 valid) to in
      (
        m,
        relayed (listeners p.endpoint) (record { attributes = some a; payload = payload }) m l
            (connected p) p.client is_endpoint done
            (send-response p is_method reply_place m answers.reply answers.attributes
              (answers.source ∙ to) (answers.sink ∙ from) place),
        answers,
        same,
      )

  settle_step :
      (n k : ℕ) (m : UMessage) (l : ResponseListener) (t : LocalTransport)
      (rest : List (ℕ × UMessage)) (after : Process)
      → on_receive proto codec entropy listeners (listeners k) m (l, (t, rest)) ≡ returns after
      → settle proto codec entropy listeners (suc n) (l, (t, (k, m) ∷ rest))
        ≡ settle proto codec entropy listeners n after
  unfolding settle
  settle_step n k m l t rest after h = rw h refl

  received_response :
      (m : UMessage) (l : ResponseListener) (t : LocalTransport)
      → on_receive proto codec entropy listeners (listeners p.client) m (l, (t, []))
        ≡ returns (RpcClient.on_receive m l, (t, []))
  unfolding on_receive
  received_response m l t = rw is_client refl

  settled :
      (m n : UMessage) (l : ResponseListener)
      → on_receive proto codec entropy listeners (listeners p.endpoint) m (l, (connected p, []))
        ≡ returns (l, (connected p, (p.client, n) ∷ []))
      → settle proto codec entropy listeners 3 (l, (connected p, (p.endpoint, m) ∷ []))
        ≡ returns (RpcClient.on_receive n l, (connected p, []))
  unfolding settle
  settled m n l h =
      settle_step 2 p.endpoint m l (connected p) [] (l, (connected p, (p.client, n) ∷ [])) h
      ∙ settle_step 1 p.client n l (connected p) [] (RpcClient.on_receive n l, (connected p, []))
          (received_response n l (connected p))

  found_response :
      (id : Uuid) (channel : ℕ) (n : UMessage) (l : ResponseListener)
      → awaited_in
          (sender id ((id, channel) ∷ l.pending_requests))
          (record l { delivered = (channel, n) ∷ l.delivered })
        ≡ received n
  unfolding sender
  found_response id channel n l = rw (uuid_eq_refl id) (rw ((==_iff channel channel).1 refl) refl)

  read_lem :
      (id : Uuid) (q : Process) (l : ResponseListener) (t : LocalTransport) (k : ℕ) (m : UMessage)
      → settle proto codec entropy listeners (1 * (length t.listeners + 1)) (l, (t, (k, m) ∷ []))
        ≡ returns q
      → wait proto codec entropy listeners id (l, (t, (k, m) ∷ []))
        ≡ returns (awaited_in (sender id l.pending_requests) (q.0), q)
  unfolding wait
  read_lem id q l t k m h = rw h refl

  -- The wait ends with what the endpoint answered.
  pub waited :
      (m n : UMessage) (l : ResponseListener) (id : Uuid) (channel : ℕ)
      → on_receive proto codec entropy listeners
          (listeners p.endpoint)
          m
          (pending id channel l, (connected p, []))
        ≡ returns (pending id channel l, (connected p, (p.client, n) ∷ []))
      → RpcClient.on_receive n (pending id channel l)
        ≡ record l { delivered = (channel, n) ∷ l.delivered }
      → wait proto codec entropy listeners id
          (pending id channel l, (connected p, (p.endpoint, m) ∷ []))
        ≡ returns
            (received n, (record l { delivered = (channel, n) ∷ l.delivered }, (connected p, [])))
  waited m n l id channel first second =
      read_lem id (record l { delivered = (channel, n) ∷ l.delivered }, (connected p, []))
        (pending id channel l) (connected p) p.endpoint m
        (settled m n (pending id channel l) first ∙ ap (λ x. returns (x, (connected p, []))) second)
      ∙ ap
          (λ x.
            returns (x, (record l { delivered = (channel, n) ∷ l.delivered }, (connected p, []))))
          (found_response id channel n l)
