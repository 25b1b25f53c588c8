-- ===== src/Communication/RpcServer.antt =====
-- src/communication/in_memory_rpc_server.rs. The request handler is a parameter: its result, or
-- none if it does not answer within the time-to-live that it is given.
pub mod Answering
pub mod Rejecting
pub mod Endpoints
use up_rust.Prelude.{
  ℕ, ◌^◌, Bool, true, false, String, Option, none, some, List, [], ◌∷◌, Result, ok, err, Run,
  returns, ltb, ◌==◌, if◌then◌else◌, not,
}
use up_rust.Prelude.Panicking.{◌>>=◌}
use up_rust.Prelude.Fallible
use up_rust.Proto.{
  enum_value_or, default_format, default_UUri, UCode, UStatus, Uuid, UUri, UAttributes, UMessage,
  Descriptors,
}
use up_rust.Uuid.{Entropy}
use up_rust.Uri.{is_rpc_method, is_rpc_response, any_with_resource_id, resource_id_response}
use up_rust.Attributes.{UAttributesError}
use up_rust.Attributes
use up_rust.Validator.{UAttributesValidators, Check, validate}
use up_rust.Status.{fail_with_code, get_code}
use up_rust.Message.{UMessageError}
use up_rust.Message.Extraction.{Codec}
use up_rust.Builder.{
  UMessageBuilder, response_for_request, response, with_comm_status, build_with_protobuf_payload,
}
use up_rust.Transport.{UTransport, LocalUriProvider}
use up_rust.Communication.{UPayload, build_message}
use up_rust.Communication.Publishing.{convert}
use up_rust.Communication.Errors.{
  ServiceInvocationError, RegistrationError, registration_error_from, status_from, invalid_filter,
  deadline_exceeded, max_listeners_exceeded, no_such_listener,
}

-- What a handler returns for a request.
abbrev pub Handled : Type 0
Handled = Result ServiceInvocationError (Option UPayload)

-- `handle_request` under `tokio::time::timeout` of so many milliseconds.
abbrev pub RequestHandler : Type 0
RequestHandler = ℕ → ℕ → UAttributes → Option UPayload → Option Handled

abbrev pub outcome : Option Handled → Handled
outcome none = err deadline_exceeded
outcome (some handled) = handled

abbrev pub timeout_of : Option ℕ → ℕ
timeout_of none = 10000
timeout_of (some ttl) = ttl

abbrev pub payload_of : Option (List ℕ) → UAttributes → Option UPayload
payload_of none a = none
payload_of (some bytes) a =
    some
      (record { payload = bytes; payload_format = enum_value_or a.payload_format default_format })

-- The responses to a request.
module _ (proto : Descriptors) (codec : Codec UStatus) (entropy : Entropy) where
  abbrev pub error_response : UStatus → UMessageBuilder → Run (Result UMessageError UMessage)
  error_response error b = do
    with_status ← with_comm_status (get_code error) b
    build_with_protobuf_payload proto codec entropy error with_status

  abbrev pub respond : UAttributes → Handled → Run (Result UMessageError UMessage)
  respond a (ok payload) = build_message proto entropy (response_for_request a) payload
  respond a (err e) = error_response (status_from e) (response_for_request a)

-- `RequestListener`.
module _ (proto : Descriptors) (codec : Codec UStatus) (entropy : Entropy) {S : Type 0}
    (transport : UTransport S) (request_handler : RequestHandler) where
  -- A response that could not be built or sent is only logged.
  abbrev pub send_built : Result UMessageError UMessage → S → S
  send_built (ok m) s = (transport.send m s).1
  send_built (err e) s = s

  unfoldable pub process_valid_request : ℕ → UAttributes → Option (List ℕ) → S → Run S
  process_valid_request resource_id a payload s = do
    built ←
        respond proto codec entropy a
          (outcome (request_handler (timeout_of a.ttl) resource_id a (payload_of payload a)))
    returns (send_built built s)

  abbrev pub uri_or_default : Option UUri → UUri
  uri_or_default none = default_UUri
  uri_or_default (some u) = u

  abbrev pub reject : UAttributesError → Option Uuid → Option UUri → Option UUri → S → Run S
  reject e (some id) (some source_address) sink s =
      if is_rpc_response source_address
      then (do
        built ←
            error_response proto codec entropy
              (fail_with_code UCode.invalid_argument (Attributes.to_string e))
              (response source_address id (uri_or_default sink))
        returns (send_built built s))
      else returns s
  reject e _ _ sink s = returns s

  unfoldable pub process_invalid_request : UAttributesError → UAttributes → S → Run S
  process_invalid_request e a s = reject e a.id a.source a.sink s

  abbrev pub accept : Option UUri → UAttributes → Option (List ℕ) → S → Run S
  accept (some uri) a payload s =
      if ltb uri.resource_id (2 ^ 16)
      then process_valid_request uri.resource_id a payload s
      else returns s
  accept none a payload s = returns s

  abbrev dispatch : Check → UAttributes → Option (List ℕ) → S → Run S
  dispatch (err e) a payload s = process_invalid_request e a s
  dispatch (ok _) a payload s = accept a.sink a payload s

  abbrev receive : Option UAttributes → Option (List ℕ) → S → Run S
  receive none payload s = returns s
  receive (some a) payload s = dispatch (validate proto UAttributesValidators.request a) a payload s

  unfoldable pub on_receive : UMessage → S → Run S
  on_receive m s = receive m.attributes m.payload s

-- `InMemoryRpcServer`: the listener of each method's resource ID.
pub record InMemoryRpcServer : Type 0 where
  pub request_listeners : List (ℕ × ℕ)

unfoldable pub entry : ℕ → List (ℕ × ℕ) → Option ℕ
entry k [] = none
entry k ((i, l) ∷ rest) = if i == k then some l else entry k rest

unfoldable pub remove : ℕ → List (ℕ × ℕ) → List (ℕ × ℕ)
remove k [] = []
remove k ((i, l) ∷ rest) = if i == k then rest else (i, l) ∷ remove k rest

unfoldable pub validate_sink_filter : UUri → Result RegistrationError (Unit {0})
validate_sink_filter filter =
    if not (is_rpc_method filter)
    then err (invalid_filter "RPC endpoint's resource ID must be in range [0x0001, 0x7FFF]")
    else ok tt

unfoldable pub validate_origin_filter : Option UUri → Result RegistrationError (Unit {0})
validate_origin_filter none = ok tt
validate_origin_filter (some uri) =
    if not (is_rpc_response uri)
    then err (invalid_filter "origin filter's resource ID must be 0")
    else ok tt

abbrev pub origin_or_any : Option UUri → UUri
origin_or_any none = any_with_resource_id resource_id_response
origin_or_any (some uri) = uri

module _ {S : Type 0} (transport : UTransport S) (uri_provider : LocalUriProvider) where
  -- The server with the transport's state.
  abbrev pub Server : Type 0
  Server = InMemoryRpcServer × S

  abbrev pub checked : Option UUri → UUri → Result RegistrationError (Unit {0})
  checked origin sink = Fallible.◌>>◌ (validate_origin_filter origin) (validate_sink_filter sink)

  abbrev pub registered :
      ℕ
      → ℕ
      → InMemoryRpcServer
      → Result UStatus (Unit {0}) × S
      → Result RegistrationError (Unit {0}) × Server
  registered k listener server (ok _, s) =
      (ok tt, (record { request_listeners = (k, listener) ∷ server.request_listeners }, s))
  registered k listener server (err e, s) = (err (registration_error_from e), (server, s))

  abbrev register_vacant :
      Option ℕ → UUri → UUri → ℕ → ℕ → Server → Result RegistrationError (Unit {0}) × Server
  register_vacant none origin sink k listener (server, s) =
      registered k listener server (transport.register_listener origin (some sink) listener s)
  register_vacant (some _) origin sink k listener (server, s) =
      (err max_listeners_exceeded, (server, s))

  abbrev when_ok :
      Result RegistrationError (Unit {0})
      → Result RegistrationError (Unit {0}) × Server
      → Server
      → Result RegistrationError (Unit {0}) × Server
  when_ok (ok _) done unchanged = done
  when_ok (err e) done unchanged = (err e, unchanged)

  -- `listener` is the address of the new `RequestListener`.
  unfoldable pub register_endpoint :
      Option UUri → ℕ → ℕ → Server → Result RegistrationError (Unit {0}) × Server
  unfolding entry validate_sink_filter validate_origin_filter
  register_endpoint origin_filter resource_id listener (server, s) =
      when_ok (checked origin_filter (uri_provider.resource_uri resource_id))
        (register_vacant (entry resource_id server.request_listeners) (origin_or_any origin_filter)
          (uri_provider.resource_uri resource_id) resource_id listener (server, s))
        (server, s)

  abbrev unregistered :
      ℕ
      → InMemoryRpcServer
      → Result UStatus (Unit {0}) × S
      → Result RegistrationError (Unit {0}) × Server
  unregistered k server (ok _, s) =
      (ok tt, (record { request_listeners = remove k server.request_listeners }, s))
  unregistered k server (err e, s) = (err (registration_error_from e), (server, s))

  abbrev unregister_occupied :
      Option ℕ → UUri → UUri → ℕ → Server → Result RegistrationError (Unit {0}) × Server
  unregister_occupied none origin sink k (server, s) = (err no_such_listener, (server, s))
  unregister_occupied (some listener) origin sink k (server, s) =
      unregistered k server (transport.unregister_listener origin (some sink) listener s)

  unfoldable pub unregister_endpoint :
      Option UUri → ℕ → Server → Result RegistrationError (Unit {0}) × Server
  unfolding entry remove validate_sink_filter validate_origin_filter
  unregister_endpoint origin_filter resource_id (server, s) =
      when_ok (checked origin_filter (uri_provider.resource_uri resource_id))
        (unregister_occupied (entry resource_id server.request_listeners)
          (origin_or_any origin_filter) (uri_provider.resource_uri resource_id) resource_id
          (server, s))
        (server, s)
