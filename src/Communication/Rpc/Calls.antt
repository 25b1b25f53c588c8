-- ===== src/Communication/Rpc/Calls.antt =====
-- src/communication/rpc.rs, src/communication.rs: a payload from a message and back, and what a
-- call of a service returns.
use up_rust.Prelude.{
  ◌≡◌, refl, ◌⊎◌, inl, inr, subst, String, List, Option, ℕ, some, none, Result, ok, err, returns,
  >>=-eq-ok, map_err-eq-ok,
}
use up_rust.Prelude.Fallible
use up_rust.Proto.{UUri, UPayloadFormat, Descriptors}
use up_rust.Message.{data_serialization_error}
use up_rust.Message.Extraction.{Codec, deserialize_protobuf_bytes}
use up_rust.Communication.{CallOptions, UPayload, new, try_from_protobuf, extract_protobuf}
use up_rust.Communication.Errors.{ServiceInvocationError, status_from}
use up_rust.Uri.Parsing.{Authority, UriParser}
use up_rust.Uri.Parsing.Bounds.{IsHostOnly}
use up_rust.Core.USubscription.{SubscriptionRequest, SubscriptionResponse}
use up_rust.Core.Addresses.{resource_of, usubscription_uri-udiscovery_uri}
use up_rust.Communication.Rpc.Services.{subscribe, default_call_options}
use up_rust.Communication.Rpc.{RpcClient, invoke_proto_method}

-- What is read of the bytes that the value is packed into is that value.
abbrev pub ReadsBack : {T : Type 0} → Codec T → T → Type 0
ReadsBack codec v =
    (any : codec.Any) (bytes : List ℕ)
    → codec.pack v ≡ ok any
    → codec.write_any any ≡ ok bytes
    → (read : codec.Any) × (codec.parse_any bytes ≡ ok read) × (codec.unpack read ≡ ok (some v))

module _ (proto : Descriptors) where
  wrapped_lem :
      {T : Type 0} (codec : Codec T) (v : T) (p : UPayload) (bytes : List ℕ) (any : codec.Any)
      → ◌≡◌ {A = Result String UPayload}
          (ok (new bytes UPayloadFormat.protobuf_wrapped_in_any))
          (ok p)
      → codec.parse_any bytes ≡ ok any
      → codec.unpack any ≡ ok (some v)
      → (p.payload_format ≡ UPayloadFormat.protobuf_wrapped_in_any)
        × (extract_protobuf codec proto p ≡ ok v)
  unfolding extract_protobuf deserialize_protobuf_bytes new
  wrapped_lem codec v p bytes any same parsed unpacked =
      let is : record { payload_format = UPayloadFormat.protobuf_wrapped_in_any; payload = bytes }
          ≡ p =
        cc in
      subst
        (λ q.
          (q.payload_format ≡ UPayloadFormat.protobuf_wrapped_in_any)
          × (extract_protobuf codec proto q ≡ ok v))
        is (refl, rw (parsed, unpacked) refl)

  -- A payload that was made from a message has the format of wrapped messages, and the message is
  -- extracted from it again, where rust-protobuf reads back what it writes.
  pub extract_protobuf-try_from_protobuf :
      {T : Type 0} (codec : Codec T) (v : T) (p : UPayload)
      → ReadsBack codec v
      → try_from_protobuf codec v ≡ ok p
      → (p.payload_format ≡ UPayloadFormat.protobuf_wrapped_in_any)
        × (extract_protobuf codec proto p ≡ ok v)
  unfolding try_from_protobuf
  extract_protobuf-try_from_protobuf codec v p reads h =
      let (bytes, written, last) =
        >>=-eq-ok (Fallible.◌>>=◌ (codec.pack v) (λ any. codec.write_any any)) _
          (map_err-eq-ok data_serialization_error _ h) in
      let (any, packed, wrote) = >>=-eq-ok (codec.pack v) _ written in
      let (read, parsed, unpacked) = reads any bytes packed wrote in
      wrapped_lem codec v p bytes read last parsed unpacked

  module _ {S : Type 0} (client : RpcClient S) {T R : Type 0} (requests : Codec T)
      (responses : Codec R) where
    -- A call whose request is encoded and that the client answers returns what the answer's
    -- payload encodes, and the state that the client leaves.
    pub invoke_proto_method-try_from_protobuf :
        (method : UUri) (options : CallOptions) (request : T) (response : R) (p q : UPayload)
        (s after : S)
        → ReadsBack responses response
        → try_from_protobuf requests request ≡ ok p
        → try_from_protobuf responses response ≡ ok q
        → client.invoke_method method options (some p) s ≡ returns (ok (some q), after)
        → invoke_proto_method proto requests responses client method options request s
          ≡ returns (ok response, after)
    unfolding invoke_proto_method
    invoke_proto_method-try_from_protobuf method options request response p q s after reads sent
          answered called =
        rw
          (sent, called, (extract_protobuf-try_from_protobuf responses response q reads answered).1)
          refl

module _ (proto : Descriptors) (parser : UriParser) {S : Type 0} (client : RpcClient S)
    (requests : Codec SubscriptionRequest) (responses : Codec SubscriptionResponse) where
  -- Subscribing invokes the method 1 of the local uSubscription service with a time-to-live of five
  -- seconds: where the service answers with a payload that encodes a response, that response is
  -- returned, and where the invocation fails, the status of its error.
  pub subscribe-invoke_method :
      (auth : Authority) (request : SubscriptionRequest) (response : SubscriptionResponse)
      (p q : UPayload) (e : ServiceInvocationError) (s after : S)
      (answer : Result ServiceInvocationError (Option UPayload))
      → parser.parse_authority "" ≡ ok auth
      → IsHostOnly auth ""
      → ReadsBack responses response
      → try_from_protobuf requests request ≡ ok p
      → try_from_protobuf responses response ≡ ok q
      → (answer ≡ ok (some q)) ⊎ (answer ≡ err e)
      → client.invoke_method
          (resource_of 0 1)
          (record { ttl = 5000; message_id = none; token = none; priority = none })
          (some p)
          s
        ≡ returns (answer, after)
      → subscribe proto parser client requests responses request s
        ≡ returns (elim answer [ ok _ ↦ ok response | err f ↦ err (status_from f) ], after)
  unfolding subscribe default_call_options invoke_proto_method
  subscribe-invoke_method auth request response p q e s after answer parsed h reads sent answered
        (inl is) called =
      rw
        (
          (usubscription_uri-udiscovery_uri parser auth 1 parsed h).0,
          sent,
          called,
          is,
          (extract_protobuf-try_from_protobuf proto responses response q reads answered).1,
        )
        refl
  subscribe-invoke_method auth request response p q e s after answer parsed h reads sent answered
        (inr is) called =
      rw ((usubscription_uri-udiscovery_uri parser auth 1 parsed h).0, sent, called, is) refl
