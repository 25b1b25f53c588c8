-- ===== src/Communication/InProcess/Unanswered.antt =====
-- src/communication/in_memory_rpc_client.rs over src/local_transport.rs: a call that nobody
-- answers.
use up_rust.Prelude.{
  ℕ, zero, suc, ◌*◌, length, false, ◌<◌, ◌≡◌, refl, ap, sym, subst, ◌∙◌, Option, some, List, [],
  ◌∷◌, ok, err, returns, Bool-cases, inl, inr, if_true, if_false, arith, ◌==◌, ◌+◌,
}
use up_rust.Proto.{UStatus, Uuid, UUri, UAttributes, UMessage, Descriptors}
use up_rust.Uuid.{Entropy}
use up_rust.Uri.{any}
use up_rust.Message.Extraction.{Codec}
use up_rust.Builder.{UMessageBuilder, attributes_of}
use up_rust.Builder
use up_rust.LocalTransport
use up_rust.LocalTransport.{LocalTransport, RegisteredListener}
use up_rust.LocalTransport.Deliveries
use up_rust.Transport.{LocalUriProvider}
use up_rust.Communication.{CallOptions, UPayload}
use up_rust.Communication.Errors.{deadline_exceeded}
use up_rust.Communication.RpcClient.{
  beside, ResponseListener, timed_out, invoke_method, await_response, sender, new,
}
use up_rust.Communication.RpcClient.Pending.{pending, uuid_eq_refl, remove-pending}
use up_rust.Communication.RpcClient.Composing.{requesting}
use up_rust.Communication.RpcClient.Requests.{invoke_method-HasSent}
use up_rust.Communication.Rpc.{in_memory, awaited}
use up_rust.Communication.InProcess.{Listener, Bus, Process, settle, wait, response_in, awaited_in}
use up_rust.Communication.InProcess.Connected.{unmatched, unmatched_sink, addresses}

abbrev client_only : UUri → ℕ → LocalTransport
client_only reply_to client = record {
  listeners = record { source_filter = any; sink_filter = some reply_to; listener = client } ∷ [];
}

created_lem :
    (proto : Descriptors) (caller : LocalUriProvider) (client : ℕ) (t : LocalTransport)
    → new LocalTransport.transport caller client (record { listeners = [] }, []) ≡ (ok tt, (t, []))
    → t ≡ client_only caller.source_uri client
unfolding new LocalTransport.register_listener LocalTransport.contains
created_lem proto caller client t h = sym (ap (λ d. d.1.0) h)

-- A request reaches nobody there.
send-client_only :
    (reply_to method : UUri) (client : ℕ) (m : UMessage) (a : UAttributes)
    → m.attributes ≡ some a
    → a.source ≡ some reply_to
    → a.sink ≡ some method
    → reply_to.resource_id ≡ 0
    → 0 < method.resource_id
    → (LocalTransport.send m (client_only reply_to client)).1 ≡ []
unfolding LocalTransport.send LocalTransport.dispatch_to
send-client_only reply_to method client m a attributes from to place positive =
    rw
      (unmatched_sink
        (record { source_filter = any; sink_filter = some reply_to; listener = client }) m a
        reply_to method reply_to attributes from to refl
        (unmatched reply_to method (λ e. omega (arith, place, e))
          (λ e. omega (arith, place, positive, e))))
      refl

no_response :
    (channel : ℕ) (delivered : List (ℕ × UMessage))
    → Deliveries.received channel delivered ≡ 0
    → response_in channel delivered ≡ timed_out
no_response channel [] h = refl
no_response channel ((k, m) ∷ rest) h = elim (Bool-cases (k == channel)) [
  | inl is ↦ absurd (omega (arith, sym (if_true (Deliveries.received channel rest) is) ∙ h))
  | inr other ↦ if_false _ other ∙ no_response channel rest (sym (if_false _ other) ∙ h)
]

module _ (proto : Descriptors) (codec : Codec UStatus) (entropy : Bus → Entropy)
    (listeners : ℕ → Listener) (channel : ResponseListener → ℕ) where
  settle_nothing :
      (n : ℕ) (l : ResponseListener) (t : LocalTransport)
      → settle proto codec entropy listeners n (l, (t, [])) ≡ returns (l, (t, []))
  unfolding settle
  settle_nothing zero l t = refl
  settle_nothing (suc n) l t = refl

  wait_nothing :
      (id : Uuid) (l : ResponseListener) (t : LocalTransport)
      → wait proto codec entropy listeners id (l, (t, []))
        ≡ returns (awaited_in (sender id l.pending_requests) l, (l, (t, [])))
  unfolding wait
  wait_nothing id l t = rw (settle_nothing (0 * (length t.listeners + 1)) l t) refl

  timed_out_lem :
      (id : Uuid) (k : ℕ) (l : ResponseListener) (t : LocalTransport)
      → Deliveries.received k l.delivered ≡ 0
      → wait proto codec entropy listeners id (pending id k l, (t, []))
        ≡ returns (timed_out, (pending id k l, (t, [])))
  unfolding sender
  timed_out_lem id k l t unused =
      wait_nothing id (pending id k l) t
      ∙ ap {A = Option ℕ} (λ o. returns (awaited_in o (pending id k l), (pending id k l, (t, []))))
          (if_true (sender id l.pending_requests) (uuid_eq_refl id))
      ∙ ap (λ x. returns (x, (pending id k l, (t, [])))) (no_response k l.delivered unused)

  given_up :
      (caller : LocalUriProvider) (id : Uuid) (k : ℕ) (l : ResponseListener) (t : LocalTransport)
      → l.poisoned ≡ false
      → awaited proto codec
          (beside LocalTransport.transport)
          caller
          entropy
          channel
          (wait proto codec entropy listeners)
          id
          (timed_out, (pending id k l, (t, [])))
        ≡ (err deadline_exceeded, (l, (t, [])))
  unfolding await_response
  given_up caller id k l t working =
      ap (λ r. (err deadline_exceeded, (r, (t, [])))) (remove-pending id k l working)

  -- Where a client was created on an empty local transport and nothing else is registered, a call
  -- that does not fail before it waits, and whose channel is a new one, ends with DeadlineExceeded,
  -- and leaves the client's listener and the transport as they were.
  pub in_memory-new :
      (caller : LocalUriProvider) (client : ℕ) (t : LocalTransport) (method : UUri)
      (options : CallOptions) (payload : Option UPayload) (l : ResponseListener) (id : Uuid)
      (waiting : Process)
      → new LocalTransport.transport caller client (record { listeners = [] }, [])
        ≡ (ok tt, (t, []))
      → Deliveries.received (channel l) l.delivered ≡ 0
      → invoke_method proto
          (beside LocalTransport.transport)
          caller
          (entropy (t, []))
          method
          options
          payload
          (channel l)
          (l, (t, []))
        ≡ returns (ok id, waiting)
      → (in_memory proto codec
            (beside LocalTransport.transport)
            caller
            entropy
            channel
            (wait proto codec entropy listeners)).invoke_method
          method options payload
          (l, (t, []))
        ≡ returns (err deadline_exceeded, (l, (t, [])))
  unfolding in_memory Builder.request LocalTransport.send
  in_memory-new caller client t method options payload l id waiting created unused begun =
      let sent =
        invoke_method-HasSent proto (beside LocalTransport.transport) caller (entropy (t, []))
          method options payload (channel l) l (t, []) id waiting begun in
      let a = attributes_of (requesting method caller.source_uri options id payload) id in
      let (positive, place) = addresses proto a method caller.source_uri refl refl sent.valid in
      let request : UMessage = record {
        attributes = some a;
        payload = (requesting method caller.source_uri options id payload).payload;
      } in
      let nobody : (LocalTransport.send request t).1 ≡ [] =
        subst (λ u. (LocalTransport.send request u).1 ≡ [])
          (sym (created_lem proto caller client t created))
          (send-client_only caller.source_uri method client request a refl refl refl place
            positive) in
      let now : waiting ≡ (pending id (channel l) l, (t, [])) = λ i. (
        ap (λ d. d.1.0) (sym sent.sent) i,
        (ap (λ d. d.1.1) (sym sent.sent) ∙ ap (λ d. (t, d)) nobody) i,
      ) in
      let ended =
        ap (λ w. wait proto codec entropy listeners id w) now
        ∙ timed_out_lem id (channel l) l t unused in
      rw (begun, ended, given_up caller id (channel l) l t sent.working) refl
