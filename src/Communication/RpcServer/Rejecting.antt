-- ===== src/Communication/RpcServer/Rejecting.antt =====
-- src/communication/in_memory_rpc_server.rs: what happens to a message that is no valid request.
use up_rust.Prelude.{
  ℕ, ◌≡◌, refl, sym, Result, inl, inr, true, false, Option, none, some, List, err, Run, returns,
  Result-cases, Bool-cases, Option-cases,
}
use up_rust.Proto.{
  known, UMessageType, UPriority, UPayloadFormat, UCode, UStatus, Uuid, UUri, UAttributes, UMessage,
  Descriptors, default_UUri, default_UAttributes,
}
use up_rust.Uuid.{Entropy, is_uprotocol_uuid}
use up_rust.Uuid.Build.{IsEntropy}
use up_rust.Uri.{is_rpc_response}
use up_rust.Attributes
use up_rust.Attributes.{UAttributesError}
use up_rust.Status.{get_code, fail_with_code}
use up_rust.Message.{UMessageError, attributes_validation_error}
use up_rust.Prelude.Panicking.{◌>>=◌}
use up_rust.Message.Extraction.{Codec}
use up_rust.Validator.{UAttributesValidators, validate}
use up_rust.Validator.Laws.{IsValid, validate_iff}
use up_rust.Builder.{
  UMessageBuilder, response, with_comm_status, build, build_with_payload,
  build_with_protobuf_payload, attributes_of, id_or_new,
}
use up_rust.Builder.Build.{id_or_new-valid, build_of_IsValid}
use up_rust.Transport.{UTransport}
use up_rust.Communication.RpcServer.{
  RequestHandler, error_response, send_built, process_invalid_request, on_receive,
}
use up_rust.Communication.RpcServer.Answering.{CanWrite}

-- The status that is sent back.
abbrev pub rejection : UAttributesError → UStatus
rejection x = fail_with_code UCode.invalid_argument (Attributes.to_string x)

module _ (proto : Descriptors) (codec : Codec UStatus) (write : CanWrite codec) (e : Entropy) where
  abbrev rejecting : UAttributesError → UUri → Uuid → UUri → UMessageBuilder
  rejecting x source id sink = record (response source id sink) {
    comm_status = some (known UCode.invalid_argument);
    payload = some ((write (rejection x)).0);
    payload_format = UPayloadFormat.protobuf;
  }

  unbuilt :
      (b : UMessageBuilder) (id : Uuid) (y : UAttributesError)
      → id_or_new e b.message_id ≡ returns id
      → validate proto b.validator (attributes_of b id) ≡ err y
      → build proto e b ≡ returns (err (attributes_validation_error y))
  unfolding build
  unbuilt b id y given invalid = rw (given, invalid) refl

  error_response_lem :
      (x : UAttributesError) (source : UUri) (id : Uuid) (sink : UUri)
      → error_response proto codec e (rejection x) (response source id sink)
        ≡ build proto e (rejecting x source id sink)
  unfolding build_with_payload build_with_protobuf_payload with_comm_status response get_code
      fail_with_code
  error_response_lem x source id sink = rw (write (rejection x)).1 refl

  -- The response's attributes.
  abbrev reply_to : Uuid → Uuid → UUri → UUri → UAttributes
  reply_to new_id id source sink = record default_UAttributes {
    id = some new_id;
    type_ = known UMessageType.response;
    source = some sink;
    sink = some source;
    reqid = some id;
    priority = known UPriority.cs4;
    commstatus = some (known UCode.invalid_argument);
    payload_format = known UPayloadFormat.protobuf;
  }

  abbrev sink_or_default : Option UUri → UUri
  sink_or_default none = default_UUri
  sink_or_default (some sink) = sink

  -- A sink that is not there reads as the empty URI.
  abbrev sink_of : UAttributes → UUri
  sink_of a = sink_or_default a.sink

  -- The message is a valid response to the sender of the attributes that says what is wrong with
  -- them.
  pub record Rejects (a : UAttributes) (x : UAttributesError) (m : UMessage) : Type 0 where
    pub reply : UAttributes
    pub attributes : m.attributes ≡ some reply
    pub valid : IsValid proto UAttributesValidators.response reply
    pub source : reply.source ≡ some (sink_of a)
    pub sink : reply.sink ≡ a.source
    pub reqid : reply.reqid ≡ a.id
    pub commstatus : reply.commstatus ≡ some (known UCode.invalid_argument)
    pub payload_format : reply.payload_format ≡ known UPayloadFormat.protobuf
    pub payload : m.payload ≡ some ((write (rejection x)).0)

  -- The sender cannot be told: there is no ID or no address for a response, or the response that
  -- carries the status, with a new ID, to the sender would not be valid.
  pub data IsUnanswerable (a : UAttributes) : Type 0 where
    no_id : a.id ≡ none → IsUnanswerable a
    no_source : a.source ≡ none → IsUnanswerable a
    no_address : (u : UUri) → a.source ≡ some u → is_rpc_response u ≡ false → IsUnanswerable a
    not_valid :
        (id new_id : Uuid) (u : UUri) (y : UAttributesError)
        → a.id ≡ some id
        → a.source ≡ some u
        → is_uprotocol_uuid new_id ≡ true
        → validate proto UAttributesValidators.response (reply_to new_id id u (sink_of a)) ≡ err y
        → IsUnanswerable a

  module _ {S : Type 0} (transport : UTransport S) (handler : RequestHandler) where
    pub data Rejected (a : UAttributes) (x : UAttributesError) (s s_after : S) : Type 0 where
      ignored : IsUnanswerable a → s_after ≡ s → Rejected a x s s_after
      answered :
          (m : UMessage) → Rejects a x m → s_after ≡ (transport.send m s).1 → Rejected a x s s_after

    abbrev send_rejection : S → Result UMessageError UMessage → Run S
    send_rejection s built = returns (send_built proto codec e transport handler built s)

    told :
        (a : UAttributes) (x : UAttributesError) (s : S) (id : Uuid) (u : UUri)
        → IsEntropy e
        → a.id ≡ some id
        → a.source ≡ some u
        → (s_after : S) × ((build proto e (rejecting x u id (sink_of a)) >>= send_rejection s)
            ≡ returns s_after)
          × Rejected a x s s_after
    unfolding response
    told a x s id u random has_id has_source =
        let b = rejecting x u id (sink_of a) in
        let (new_id, given, is_valid_id) = id_or_new-valid e none random (λ i h. cc) in
        let reply = attributes_of b new_id in
        elim (Result-cases (validate proto UAttributesValidators.response reply)) [
          | inl (_, valid) ↦
              let m : UMessage = record { attributes = some reply; payload = b.payload } in
              let obeys = (validate_iff proto UAttributesValidators.response reply).0 valid in
              (
                (transport.send m s).1,
                rw (build_of_IsValid proto e b new_id given obeys) refl,
                answered m
                    (record {
                      reply = reply;
                      attributes = refl;
                      valid = obeys;
                      source = refl;
                      sink = sym has_source;
                      reqid = sym has_id;
                      commstatus = refl;
                      payload_format = refl;
                      payload = refl;
                    })
                    refl,
              )
          | inr (y, invalid) ↦ (
            s,
            rw (unbuilt b new_id y given invalid) refl,
            ignored (not_valid id new_id u y has_id has_source is_valid_id invalid) refl,
          )
        ]

    -- Where protobuf writes every status, and with a clock below 2 ^ 64 milliseconds, a server's
    -- listener that receives attributes that are no valid request returns without calling the
    -- handler: it sends one valid response that carries INVALID_ARGUMENT with the validator's
    -- message to the sender; or it sends nothing, where the attributes have no ID, or no source that
    -- is an address for responses, or where the response to them would not be valid, be its own ID
    -- a uProtocol UUID.
    pub on_receive-Rejected :
        (a : UAttributes) (x : UAttributesError) (payload : Option (List ℕ)) (s : S)
        → IsEntropy e
        → validate proto UAttributesValidators.request a ≡ err x
        → (s_after : S) × (on_receive proto codec e transport handler
              (record { attributes = some a; payload = payload })
              s
            ≡ returns s_after)
          × Rejected a x s s_after
    unfolding on_receive process_invalid_request
    on_receive-Rejected a x payload s random invalid = elim (Option-cases a.id) [
      | inl missing ↦ (s, rw (invalid, missing) refl, ignored (no_id missing) refl)
      | inr (id, has_id) ↦ elim (Option-cases a.source) [
        | inl missing ↦ (s, rw (invalid, has_id, missing) refl, ignored (no_source missing) refl)
        | inr (u, has_source) ↦ elim (Bool-cases (is_rpc_response u)) [
          | inl address ↦
              let (s_after, is, rejected) = told a x s id u random has_id has_source in
              (
                s_after,
                rw (invalid, has_id, has_source, address, error_response_lem x u id (sink_of a)) is,
                rejected,
              )
          | inr other ↦ (
            s,
            rw (invalid, has_id, has_source, other) refl,
            ignored (no_address u has_source other) refl,
          )
        ]
      ]
    ]
