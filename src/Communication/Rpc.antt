-- ===== src/Communication/Rpc.antt =====
-- src/communication/rpc.rs: the trait `RpcClient`, what the in-memory client is for it, and
-- `invoke_proto_method`.
pub mod Services
pub mod Calls
pub mod InMemory
use up_rust.Prelude.{ℕ, Option, none, some, Result, ok, err, map_err, Run, returns}
use up_rust.Prelude.Panicking.{◌>>=◌}
use up_rust.Proto.{UStatus, Uuid, UUri, Descriptors}
use up_rust.Uuid.{Entropy}
use up_rust.Message
use up_rust.Message.{UMessageError}
use up_rust.Message.Extraction.{Codec}
use up_rust.Transport.{UTransport, LocalUriProvider}
use up_rust.Communication.{CallOptions, UPayload, try_from_protobuf, extract_protobuf}
use up_rust.Communication.Errors.{ServiceInvocationError, invalid_argument}
use up_rust.Communication.RpcClient.{
  ResponseListener, Awaited, invoke_method as begin_call, await_response,
}

-- A client that is one of its calls' state.
pub record RpcClient (S : Type 0) : Type 0 where
  pub invoke_method :
      UUri
      → CallOptions
      → Option UPayload
      → S
      → Run (Result ServiceInvocationError (Option UPayload) × S)

module _ {T R S : Type 0} (proto : Descriptors) (requests : Codec T) (responses : Codec R)
    (client : RpcClient S) where
  -- An error of the payload as the client's.
  abbrev invalid : {A : Type 0} → Result UMessageError A → Result ServiceInvocationError A
  invalid r = map_err (λ e. ServiceInvocationError.invalid_argument (Message.to_string e)) r

  abbrev pub extract_result :
      Result ServiceInvocationError (Option UPayload) → Result ServiceInvocationError R
  extract_result (ok (some p)) = invalid (extract_protobuf responses proto p)
  extract_result (ok none) = err (ServiceInvocationError.invalid_argument "No payload")
  extract_result (err e) = err e

  abbrev invoke_payload :
      UUri
      → CallOptions
      → Result ServiceInvocationError UPayload
      → S
      → Run (Result ServiceInvocationError R × S)
  invoke_payload method options (ok p) s =
      client.invoke_method method options (some p) s >>= λ (result, after).
      returns (extract_result result, after)
  invoke_payload method options (err e) s = returns (err e, s)

  unfoldable pub invoke_proto_method :
      UUri → CallOptions → T → S → Run (Result ServiceInvocationError R × S)
  unfolding try_from_protobuf extract_protobuf
  invoke_proto_method method options request s =
      invoke_payload method options (invalid (try_from_protobuf requests request)) s

-- The in-memory client: `wait` is what goes on while a call waits for its response, with what the
-- wait ends with; `entropy` and `channel` are what a call's ID and channel are made from.
module _ (proto : Descriptors) (codec : Codec UStatus) {S : Type 0}
    (transport : UTransport (ResponseListener × S)) (uri_provider : LocalUriProvider)
    (entropy : S → Entropy) (channel : ResponseListener → ℕ)
    (wait : Uuid → ResponseListener × S → Run (Awaited × (ResponseListener × S))) where
  abbrev pub awaited :
      Uuid
      → Awaited × (ResponseListener × S)
      → Result ServiceInvocationError (Option UPayload) × (ResponseListener × S)
  awaited id (a, (l, s)) =
      let (result, after) = await_response proto codec id a l in (result, (after, s))

  abbrev pub wait_if_begun :
      Result ServiceInvocationError Uuid
      → ResponseListener × S
      → Run (Result ServiceInvocationError (Option UPayload) × (ResponseListener × S))
  wait_if_begun (ok id) client = wait id client >>= λ ended. returns (awaited id ended)
  wait_if_begun (err e) client = returns (err e, client)

  unfoldable pub in_memory : RpcClient (ResponseListener × S)
  unfolding begin_call await_response
  in_memory = record {
    invoke_method = λ method options payload client.
        begin_call proto transport uri_provider (entropy (client.1)) method options payload
          (channel (client.0)) client
        >>= λ (begun, now). wait_if_begun begun now;
  }
