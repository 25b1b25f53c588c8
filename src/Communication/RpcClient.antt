-- ===== src/Communication/RpcClient.antt =====
-- src/communication/in_memory_rpc_client.rs. A oneshot channel is the number of it; what was sent
-- into the channels is part of the state. `invoke_method` is two steps, the part up to where it
-- waits for the response and the part after that, since other calls run in between.
pub mod Pending
pub mod Composing
pub mod Requests
pub mod Counting
pub mod Interleaving
pub mod RoundTrip
use up_rust.Prelude.{
  ℕ, Bool, true, false, ◌&&◌, String, Option, none, some, List, [], ◌∷◌, Result, ok, err, Run,
  returns, ◌==◌, if◌then◌else◌, not,
}
use up_rust.Prelude.Panicking.{◌>>=◌}
use up_rust.Proto.{
  known, unknown, EnumOrUnknown, enum_value_or, default_format, default_code, default_type, type_eq,
  is_ok, UMessageType, UPayloadFormat, UCode, UStatus, Uuid, UUri, UAttributes, UMessage,
  Descriptors,
}
use up_rust.Uuid.{Entropy}
use up_rust.Uri.{any}
use up_rust.Status.{fail_with_code}
use up_rust.Message
use up_rust.Message.{UMessageError}
use up_rust.Message.Extraction.{Codec, extract_protobuf}
use up_rust.Builder
use up_rust.Builder.{UMessageBuilder, id_or_new}
use up_rust.Transport.{UTransport, LocalUriProvider}
use up_rust.Communication.{CallOptions, UPayload, with_optional_priority, build_message}
use up_rust.Communication.Publishing.{convert}
use up_rust.Communication.Errors.{
  ServiceInvocationError, RegistrationError, registration_error_from, invocation_error_from,
  deadline_exceeded,
}

-- The derived equality of UUIDs.
abbrev pub uuid_eq : Uuid → Uuid → Bool
uuid_eq u v = u.msb == v.msb && u.lsb == v.lsb

module _ (proto : Descriptors) (codec : Codec UStatus) where
  abbrev status_or : UCode → Result UMessageError UStatus → UStatus
  status_or code (ok s) = s
  status_or code (err e) = fail_with_code code "failed to invoke service operation"

  abbrev payload_of : Option (List ℕ) → UAttributes → Option UPayload
  payload_of none a = none
  payload_of (some bytes) a =
      some
        (record { payload = bytes; payload_format = enum_value_or a.payload_format default_format })

  abbrev pub respond_to :
      Option (EnumOrUnknown UCode)
      → UAttributes
      → UMessage
      → Result ServiceInvocationError (Option UPayload)
  respond_to none a response = ok (payload_of response.payload a)
  respond_to (some s) a response =
      if is_ok (enum_value_or s default_code)
      then ok (payload_of response.payload a)
      else err (
          invocation_error_from
            (status_or (enum_value_or s default_code) (extract_protobuf proto codec response)))

  abbrev pub handle_attributes :
      Option UAttributes → UMessage → Result ServiceInvocationError (Option UPayload)
  handle_attributes none response =
      err (ServiceInvocationError.invalid_argument "response message does not contain attributes")
  handle_attributes (some a) response = respond_to a.commstatus a response

  unfoldable pub handle_response_message :
      UMessage → Result ServiceInvocationError (Option UPayload)
  handle_response_message response = handle_attributes response.attributes response

-- The pending requests with their channels, what was sent into the channels, and whether the lock
-- of the pending requests is poisoned.
pub record ResponseListener : Type 0 where
  pub poisoned : Bool
  pub pending_requests : List (Uuid × ℕ)
  pub delivered : List (ℕ × UMessage)

unfoldable pub sender : Uuid → List (Uuid × ℕ) → Option ℕ
sender reqid [] = none
sender reqid ((id, channel) ∷ rest) = if uuid_eq id reqid then some channel else sender reqid rest

unfoldable pub without : Uuid → List (Uuid × ℕ) → List (Uuid × ℕ)
without reqid [] = []
without reqid ((id, channel) ∷ rest) =
    if uuid_eq id reqid then rest else (id, channel) ∷ without reqid rest

abbrev add_vacant :
    Option ℕ
    → Uuid
    → ℕ
    → ResponseListener
    → Result ServiceInvocationError (Unit {0}) × ResponseListener
add_vacant (some _) reqid channel l =
    (err (ServiceInvocationError.already_exists "RPC request with given ID already pending"), l)
add_vacant none reqid channel l =
    (ok tt, record l { pending_requests = (reqid, channel) ∷ l.pending_requests })

-- `channel` is the new oneshot channel.
unfoldable pub try_add_pending_request :
    Uuid → ℕ → ResponseListener → Result ServiceInvocationError (Unit {0}) × ResponseListener
unfolding sender
try_add_pending_request reqid channel l =
    if l.poisoned
    then (err (ServiceInvocationError.internal "failed to add response handler"), l)
    else add_vacant (sender reqid l.pending_requests) reqid channel l

unfoldable pub remove_pending_request : Uuid → ResponseListener → ResponseListener
unfolding without
remove_pending_request reqid l =
    if l.poisoned then l else record l { pending_requests = without reqid l.pending_requests }

abbrev deliver : Option ℕ → Uuid → UMessage → ResponseListener → ResponseListener
deliver none reqid m l = l
deliver (some channel) reqid m l = record l {
  pending_requests = without reqid l.pending_requests;
  delivered = (channel, m) ∷ l.delivered;
}

unfoldable pub handle_response : Uuid → UMessage → ResponseListener → ResponseListener
unfolding sender without
handle_response reqid m l =
    if l.poisoned then l else deliver (sender reqid l.pending_requests) reqid m l

abbrev receive_for : Option Uuid → UMessage → ResponseListener → ResponseListener
receive_for none m l = l
receive_for (some reqid) m l = handle_response reqid m l

abbrev receive : Option UAttributes → UMessage → ResponseListener → ResponseListener
receive none m l = l
receive (some a) m l =
    if not (type_eq (enum_value_or a.type_ default_type) UMessageType.response)
    then l
    else receive_for a.reqid m l

-- Attributes that are not there have the default type, which is not that of responses.
unfoldable pub on_receive : UMessage → ResponseListener → ResponseListener
unfolding handle_response
on_receive m l = receive m.attributes m l

-- What the call gets while it waits: nothing in time, the response, or a closed channel.
pub data Awaited : Type 0 where
  timed_out closed : Awaited
  received : UMessage → Awaited

-- The state of the client's listener and the transport's.
abbrev pub Client : Type 0 → Type 0
Client S = ResponseListener × S

-- A transport that does not call the client's listener while it takes a call.
abbrev pub beside : {S : Type 0} → UTransport S → UTransport (Client S)
beside transport = record {
  send = λ m (l, s). let (result, after) = transport.send m s in (result, (l, after));
  register_listener = λ source sink listener (l, s).
      let (result, after) = transport.register_listener source sink listener s in
      (result, (l, after));
  unregister_listener = λ source sink listener (l, s).
      let (result, after) = transport.unregister_listener source sink listener s in
      (result, (l, after));
}

module _ {S : Type 0} (transport : UTransport S) (uri_provider : LocalUriProvider) where
  -- `new`: the listener of address `listener` receives everything that is sent to the client.
  unfoldable pub new : ℕ → S → Result RegistrationError (Unit {0}) × S
  new listener s =
      convert registration_error_from
        (transport.register_listener any (some uri_provider.source_uri) listener s)

-- `transport.send` has the client's listener in its state: it may call it, with any message, before
-- it returns.
module _ (proto : Descriptors) {S : Type 0} (transport : UTransport (Client S))
    (uri_provider : LocalUriProvider) where
  abbrev pub with_optional_token : Option String → UMessageBuilder → Run UMessageBuilder
  with_optional_token none b = returns b
  with_optional_token (some token) b = Builder.with_token token b

  abbrev pub send_pending :
      Uuid → Result UStatus (Unit {0}) × Client S → Result ServiceInvocationError Uuid × Client S
  send_pending id (ok _, (l, s)) = (ok id, (l, s))
  send_pending id (err e, (l, s)) =
      (err (invocation_error_from e), (remove_pending_request id l, s))

  abbrev pub send_added :
      Uuid
      → UMessage
      → Result ServiceInvocationError (Unit {0}) × ResponseListener
      → S
      → Result ServiceInvocationError Uuid × Client S
  send_added id m (err e, l) s = (err e, (l, s))
  send_added id m (ok _, l) s = send_pending id (transport.send m (l, s))

  abbrev pub send_built :
      Uuid
      → ℕ
      → Result UMessageError UMessage
      → Client S
      → Result ServiceInvocationError Uuid × Client S
  send_built id channel (err e) (l, s) =
      (err (ServiceInvocationError.invalid_argument (Message.to_string e)), (l, s))
  send_built id channel (ok m) (l, s) = send_added id m (try_add_pending_request id channel l) s

  -- `invoke_method` up to where it waits for the response.
  unfoldable pub invoke_method :
      Entropy
      → UUri
      → CallOptions
      → Option UPayload
      → ℕ
      → Client S
      → Run (Result ServiceInvocationError Uuid × Client S)
  unfolding try_add_pending_request remove_pending_request
  invoke_method entropy method options payload channel client = do
    message_id ← id_or_new entropy options.message_id
    identified ←
        Builder.with_message_id message_id
          (Builder.request method uri_provider.source_uri options.ttl)
    authorized ← with_optional_token options.token identified
    prioritized ← with_optional_priority proto options.priority authorized
    built ← build_message proto entropy prioritized payload
    returns (send_built message_id channel built client)

-- `invoke_method` from there on.
unfoldable pub await_response :
    Descriptors
    → Codec UStatus
    → Uuid
    → Awaited
    → ResponseListener
    → Result ServiceInvocationError (Option UPayload) × ResponseListener
unfolding handle_response_message remove_pending_request
await_response proto codec id timed_out l = (err deadline_exceeded, remove_pending_request id l)
await_response proto codec id (received m) l = (handle_response_message proto codec m, l)
await_response proto codec id closed l = (
  err (ServiceInvocationError.internal "error receiving response message"),
  remove_pending_request id l,
)
