-- ===== src/Communication/Rpc/InMemory.antt =====
-- src/communication/in_memory_rpc_client.rs, src/communication/in_memory_rpc_server.rs: a whole
-- call of the in-memory client, from the request to what it returns.
use up_rust.Prelude.{ℕ, ◌≡◌, ◌≢◌, refl, Option, ok, err, Run, returns}
use up_rust.Proto.{UStatus, Uuid, UUri, UAttributes, UMessage, Descriptors}
use up_rust.Uuid.{Entropy}
use up_rust.Message.Extraction.{Codec}
use up_rust.Builder.Responses.{Answers}
use up_rust.Transport.{UTransport, LocalUriProvider}
use up_rust.Communication.{CallOptions, UPayload}
use up_rust.Communication.Errors.{ServiceInvocationError, rpc_error, status_from}
use up_rust.Communication.RpcServer.{Handled}
use up_rust.Communication.RpcServer.Answering.{
  CanWrite, reported_payload, reported_format, reported_code,
}
use up_rust.Communication.RpcClient.{
  ResponseListener, Awaited, received, invoke_method, await_response, handle_response_message,
}
use up_rust.Communication.RpcClient.RoundTrip.{handle_response_message-Answers}
use up_rust.Communication.Rpc.{in_memory, awaited}

module _ (proto : Descriptors) (codec : Codec UStatus) (write : CanWrite codec) {S : Type 0}
    (transport : UTransport (ResponseListener × S)) (uri_provider : LocalUriProvider)
    (entropy : S → Entropy) (channel : ResponseListener → ℕ)
    (wait : Uuid → ResponseListener × S → Run (Awaited × (ResponseListener × S))) where
  waited :
      (id : Uuid) (m : UMessage) (handled : Handled) (l_after : ResponseListener) (s_after : S)
      (ended : Awaited × (ResponseListener × S))
      → ended ≡ (received m, (l_after, s_after))
      → handle_response_message proto codec m ≡ handled
      → awaited proto codec transport uri_provider entropy channel wait id ended
        ≡ (handled, (l_after, s_after))
  unfolding await_response
  waited id m handled l_after s_after ended is result = rw (is, result) refl

  -- A call that has sent its request, and that a message reaches with which a server answers,
  -- returns what the server's handler returned, its payload or its error, where protobuf reads back
  -- the status that it writes for an error and the error is not RpcError.
  pub in_memory-Answers :
      (method : UUri) (options : CallOptions) (payload : Option UPayload)
      (l l_after : ResponseListener) (s s_after : S) (id : Uuid) (waiting : ResponseListener × S)
      (m : UMessage) (a : UAttributes) (handled : Handled)
      → invoke_method proto transport uri_provider
          (entropy s)
          method
          options
          payload
          (channel l)
          (l, s)
        ≡ returns (ok id, waiting)
      → wait id waiting ≡ returns (received m, (l_after, s_after))
      → ((e : UStatus) → handled ≢ err (rpc_error e))
      → ((e : ServiceInvocationError)
          → handled ≡ err e
          → codec.parse ((write (status_from e)).0) ≡ ok (status_from e))
      → Answers proto a (reported_format handled) (reported_code handled) m
      → m.payload ≡ reported_payload codec write handled
      → (in_memory proto codec transport uri_provider entropy channel wait).invoke_method method
          options payload
          (l, s)
        ≡ returns (handled, (l_after, s_after))
  unfolding in_memory
  in_memory-Answers method options payload l l_after s s_after id waiting m a handled begun ended
        known read answers same =
      let result =
        waited id m handled l_after s_after (received m, (l_after, s_after)) refl
          (handle_response_message-Answers proto codec write a handled m known read answers same) in
      rw (begun, ended, result) refl
