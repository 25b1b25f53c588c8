-- ===== src/Communication/RpcServer/Answering.antt =====
-- src/communication/in_memory_rpc_server.rs: the answers that a request gets.
use up_rust.Prelude.{
  ℕ, ◌≡◌, refl, ◌∙◌, true, Option, none, some, List, ok, err, returns, ◌^◌, ltb, arith, subst,
}
use up_rust.Proto.{UPayloadFormat, UCode, UStatus, UUri, UAttributes, UMessage, Descriptors}
use up_rust.Uuid.{Entropy}
use up_rust.Uuid.Build.{IsEntropy}
use up_rust.Status.{get_code}
use up_rust.Message.Extraction.{Codec}
use up_rust.Validator.{UAttributesValidators, validate}
use up_rust.Validator.Laws.{validate_iff}
use up_rust.Builder.{
  response_for_request, with_comm_status, build, build_with_payload, build_with_protobuf_payload,
}
use up_rust.Builder.Responses.{answer, Answers, build-response_for_request}
use up_rust.Transport.{UTransport}
use up_rust.Communication.{build_message}
use up_rust.Communication.Errors.{status_from}
use up_rust.Communication.RpcServer.{
  Handled, RequestHandler, outcome, timeout_of, payload_of, respond, process_valid_request, accept,
  on_receive,
}

-- Protobuf can serialize every status.
abbrev pub CanWrite : Codec UStatus → Type 0
CanWrite codec = (s : UStatus) → (bytes : List ℕ) × (codec.write s ≡ ok bytes)

-- The payload and the status code with which a response reports what the handler returned: its
-- payload and no code, or the status of its error, serialized, and that status' code.
abbrev pub reported_payload : (codec : Codec UStatus) → CanWrite codec → Handled → Option (List ℕ)
reported_payload codec write (ok none) = none
reported_payload codec write (ok (some p)) = some p.payload
reported_payload codec write (err e) = some ((write (status_from e)).0)

abbrev pub reported_format : Handled → UPayloadFormat
reported_format (ok none) = UPayloadFormat.unspecified
reported_format (ok (some p)) = p.payload_format
reported_format (err e) = UPayloadFormat.protobuf

abbrev pub reported_code : Handled → Option UCode
reported_code (ok p) = none
reported_code (err e) = some (get_code (status_from e))

method_in_range :
    (proto : Descriptors) (a : UAttributes) (method : UUri)
    → validate proto UAttributesValidators.request a ≡ ok tt
    → a.sink ≡ some method
    → ltb method.resource_id (2 ^ 16) ≡ true
method_in_range proto a method valid sink =
    let (uri, there, (positive, below, concrete)) =
      ((validate_iff proto UAttributesValidators.request a).0 valid).sink in
    let same : uri ≡ method = cc in
    subst (λ u. ltb u.resource_id (2 ^ 16) ≡ true) same (ground arith)

module _ (proto : Descriptors) (codec : Codec UStatus) (write : CanWrite codec) (e : Entropy) where
  respond_lem :
      (a : UAttributes) (handled : Handled)
      → respond proto codec e a handled
        ≡ build proto e (
            answer a
              (reported_payload codec write handled)
              (reported_format handled)
              (reported_code handled))
  unfolding build_message build_with_payload build_with_protobuf_payload with_comm_status
      response_for_request
  respond_lem a (ok none) = refl
  respond_lem a (ok (some p)) = refl
  respond_lem a (err x) = rw (write (status_from x)).1 refl

  module _ {S : Type 0} (transport : UTransport S) (handler : RequestHandler) where
    processed :
        (a : UAttributes) (payload : Option (List ℕ)) (resource_id : ℕ) (s : S) (m : UMessage)
        → respond proto codec e a
            (outcome (handler (timeout_of a.ttl) resource_id a (payload_of payload a)))
          ≡ returns (ok m)
        → process_valid_request proto codec e transport handler resource_id a payload s
          ≡ returns ((transport.send m s).1)
    unfolding process_valid_request
    processed a payload resource_id s m h = rw h refl

    accepted :
        (o : Option UUri) (a : UAttributes) (payload : Option (List ℕ)) (method : UUri) (s : S)
        → o ≡ some method
        → ltb method.resource_id (2 ^ 16) ≡ true
        → accept proto codec e transport handler o a payload s
          ≡ process_valid_request proto codec e transport handler method.resource_id a payload s
    accepted o a payload method s sink range = rw (sink, range) refl

    -- Where protobuf writes every status, and with a clock below 2 ^ 64 milliseconds, a server's
    -- listener that receives a valid request calls the handler with the method's resource ID, the
    -- attributes and the payload, and sends one message: a valid response to the request's source,
    -- from its sink, with the request's ID, time-to-live and priority. It carries the handler's
    -- payload, or, where the handler fails or takes longer than the request's time-to-live, the
    -- status of the error, under the code of that status.
    pub on_receive-Answers :
        (a : UAttributes) (payload : Option (List ℕ)) (method : UUri) (s : S)
        → IsEntropy e
        → validate proto UAttributesValidators.request a ≡ ok tt
        → a.sink ≡ some method
        → let handled =
            outcome (handler (timeout_of a.ttl) method.resource_id a (payload_of payload a)) in
          (m : UMessage) × (on_receive proto codec e transport handler
              (record { attributes = some a; payload = payload })
              s
            ≡ returns ((transport.send m s).1))
          × Answers proto a (reported_format handled) (reported_code handled) m
          × (m.payload ≡ reported_payload codec write handled)
    unfolding on_receive
    on_receive-Answers a payload method s random valid sink =
        let handled =
          outcome (handler (timeout_of a.ttl) method.resource_id a (payload_of payload a)) in
        let (m, built, same, answers) =
          build-response_for_request proto e a (reported_payload codec write handled)
            (reported_format handled) (reported_code handled) random valid in
        let range = method_in_range proto a method valid sink in
        (
          m,
          rw valid (accepted a.sink a payload method s sink range)
              ∙ processed a payload method.resource_id s m (respond_lem a handled ∙ built),
          answers,
          same,
        )
