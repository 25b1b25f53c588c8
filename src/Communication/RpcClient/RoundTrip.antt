-- ===== src/Communication/RpcClient/RoundTrip.antt =====
-- src/communication/in_memory_rpc_client.rs, src/communication/in_memory_rpc_server.rs: the
-- result of a server's handler and that of the client's call.
use up_rust.Prelude.{◌≡◌, ◌≢◌, refl, ap, ◌∙◌, Option, none, some, ok, err, false}
use up_rust.Proto.{EnumOrUnknown, known, UCode, UStatus, UAttributes, UMessage, Descriptors, is_ok}
use up_rust.Status.{fail_with_code, get_code}
use up_rust.Message.Extraction.{Codec, extract_protobuf, deserialize_protobuf_bytes}
use up_rust.Builder.Responses.{Answers, status_of}
use up_rust.Communication.{UPayload}
use up_rust.Communication.Errors.{
  ServiceInvocationError, rpc_error, status_from, invocation_error_from,
  invocation_error_from-status_from,
}
use up_rust.Communication.RpcServer.{Handled}
use up_rust.Communication.RpcServer.Answering.{
  CanWrite, reported_payload, reported_format, reported_code,
}
use up_rust.Communication.RpcClient.{handle_response_message, handle_attributes, respond_to}

-- The message reports the handler's result, as far as a client reads it.
record Reports (codec : Codec UStatus) (write : CanWrite codec) (handled : Handled) (m : UMessage)
    : Type 0 where
  pub reply : UAttributes
  pub attributes : m.attributes ≡ some reply
  pub payload_format : reply.payload_format ≡ known (reported_format handled)
  pub commstatus : reply.commstatus ≡ status_of (reported_code handled)
  pub payload : m.payload ≡ reported_payload codec write handled

module _ (proto : Descriptors) (codec : Codec UStatus) (write : CanWrite codec) where
  reports :
      (a : UAttributes) (handled : Handled) (m : UMessage)
      → Answers proto a (reported_format handled) (reported_code handled) m
      → m.payload ≡ reported_payload codec write handled
      → Reports codec write handled m
  reports a handled m h payload = record {
    reply = h.reply;
    attributes = h.attributes;
    payload_format = h.payload_format;
    commstatus = h.commstatus;
    payload = payload;
  }

  returned_payload :
      (p : Option UPayload) (m : UMessage)
      → Reports codec write (ok p) m
      → handle_response_message proto codec m ≡ ok p
  unfolding handle_response_message
  returned_payload none m h = rw h.attributes (rw h.commstatus (rw h.payload refl))
  returned_payload (some p) m h =
      rw h.attributes (rw h.commstatus (rw h.payload (rw h.payload_format refl)))

  extracted :
      (e : ServiceInvocationError) (m : UMessage)
      → Reports codec write (err e) m
      → codec.parse ((write (status_from e)).0) ≡ ok (status_from e)
      → extract_protobuf proto codec m ≡ ok (status_from e)
  unfolding extract_protobuf deserialize_protobuf_bytes
  extracted e m h read = rw h.payload (rw h.attributes (rw h.payload_format (rw read refl)))

  failing_code : (e : ServiceInvocationError) → is_ok (get_code (status_from e)) ≡ false
  unfolding get_code status_from fail_with_code
  failing_code (rpc_error s) = refl
  failing_code _ = refl

  attributes_handled :
      (o : Option UAttributes) (a : UAttributes) (m : UMessage)
      → o ≡ some a
      → handle_attributes proto codec o m ≡ respond_to proto codec a.commstatus a m
  attributes_handled o a m h = rw h refl

  status_handled :
      (c : Option (EnumOrUnknown UCode)) (a : UAttributes) (m : UMessage) (code : UCode)
      (s : UStatus)
      → c ≡ some (known code)
      → is_ok code ≡ false
      → extract_protobuf proto codec m ≡ ok s
      → respond_to proto codec c a m ≡ err (invocation_error_from s)
  status_handled c a m code s h failing found = rw (h, failing, found) refl

  returned_error :
      (e : ServiceInvocationError) (m : UMessage)
      → Reports codec write (err e) m
      → codec.parse ((write (status_from e)).0) ≡ ok (status_from e)
      → handle_response_message proto codec m ≡ err (invocation_error_from (status_from e))
  unfolding handle_response_message
  returned_error e m h read =
      attributes_handled m.attributes h.reply m h.attributes
      ∙ status_handled h.reply.commstatus h.reply m (get_code (status_from e)) (status_from e)
          h.commstatus (failing_code e) (extracted e m h read)

  -- Where protobuf reads back the status that it writes for an error, a client turns every message
  -- with which a server answers a request into what the server's handler returned: its payload with
  -- the payload's format, or its error, other than RpcError.
  pub handle_response_message-Answers :
      (a : UAttributes) (handled : Handled) (m : UMessage)
      → ((s : UStatus) → handled ≢ err (rpc_error s))
      → ((e : ServiceInvocationError)
          → handled ≡ err e
          → codec.parse ((write (status_from e)).0) ≡ ok (status_from e))
      → Answers proto a (reported_format handled) (reported_code handled) m
      → m.payload ≡ reported_payload codec write handled
      → handle_response_message proto codec m ≡ handled
  handle_response_message-Answers a (ok p) m h read answers payload =
      returned_payload p m (reports a (ok p) m answers payload)
  handle_response_message-Answers a (err e) m h read answers payload =
      returned_error e m (reports a (err e) m answers payload) (read e refl)
      ∙ ap err (invocation_error_from-status_from e (λ s same. h s (ap err same)))
