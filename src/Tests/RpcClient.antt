-- ===== src/Tests/RpcClient.antt =====
-- Runs of the definitions on a client of remote procedure calls.
use up_rust.Prelude.{ℕ, ◌≡◌, refl, false, none, some, List, [], ◌∷◌, Result, ok, err, returns}
use up_rust.Proto.{known, UMessageType, Uuid, UAttributes, UMessage, default_UAttributes}
use up_rust.Validator.{UAttributesValidators}
use up_rust.Validator.Laws.{IsValid, validate_iff}
use up_rust.Transport.{UTransport, LocalUriProvider}
use up_rust.LocalTransport.{LocalTransport}
use up_rust.Builder
use up_rust.Builder.{UMessageBuilder, attributes_of, id_or_new}
use up_rust.Builder.Build.{build_of_IsValid}
use up_rust.Communication.{CallOptions, build_message}
use up_rust.Communication.Errors.{ServiceInvocationError, deadline_exceeded}
use up_rust.Communication.RpcClient.{
  ResponseListener, Client, sender, on_receive, timed_out, invoke_method, await_response,
  send_built,
}
use up_rust.Communication.RpcClient.Composing.{requesting}
use up_rust.Communication.RpcClient.Requests.{Begun, invoke_method-Begun}
use up_rust.Communication.RpcClient.Pending.{pending, IsResponseTo, on_receive-pending}
use up_rust.Communication.RpcClient.Interleaving.{
  Calls, Reachable, start, step, opening, receiving, Exclusive, Reachable-Exclusive,
}
use up_rust.Communication.RpcClient.{try_add_pending_request}
use up_rust.Tests.{
  proto, entropy, uuid, uuid_valid, client, method, request_attributes, request_valid, status_codec,
}

abbrev pub caller : LocalUriProvider
caller = record {
  authority = "vcu";
  resource_uri = λ k. record client { resource_id = k };
  source_uri = client;
}

abbrev State : Type 0
State = LocalTransport × List (ℕ × UMessage)

abbrev nothing : State
nothing = (record { listeners = [] }, [])

abbrev pub idle : ResponseListener
idle = record { poisoned = false; pending_requests = []; delivered = [] }

abbrev pub options : CallOptions
options = record { ttl = 5000; message_id = some uuid; token = none; priority = none }

abbrev builder : UMessageBuilder
builder = record (Builder.request method client 5000) { message_id = some uuid }

identified : Builder.with_message_id uuid (Builder.request method client 5000) ≡ returns builder
unfolding Builder.with_message_id
identified = rw uuid_valid refl

given : id_or_new entropy (some uuid) ≡ returns uuid
unfolding id_or_new
given = refl

abbrev pub message : UMessage
message = record { attributes = some (attributes_of builder uuid); payload = none }

rules : IsValid proto UAttributesValidators.request (attributes_of builder uuid)
unfolding Builder.request
rules = (validate_iff proto UAttributesValidators.request request_attributes).0 request_valid

built : build_message proto entropy builder none ≡ returns (ok message)
unfolding build_message Builder.request
built = build_of_IsValid proto entropy builder uuid given rules

abbrev pub done :
    UTransport (Client State) → State → Result ServiceInvocationError Uuid × Client State
done transport s = send_built proto transport caller uuid 9 (ok message) (idle, s)

pub run :
    (transport : UTransport (Client State)) (s : State)
    → invoke_method proto transport caller entropy method options none 9 (idle, s)
      ≡ returns (done transport s)
unfolding invoke_method
run transport s = rw (given, identified, built) refl

abbrev response_attributes : UAttributes
response_attributes = record default_UAttributes {
  type_ = known UMessageType.response;
  reqid = some uuid;
}

abbrev response : UMessage
response = record { attributes = some response_attributes; payload = some (1 ∷ []) }

-- A transport that has the client's listener receive a response before `send` returns.
abbrev answering : UTransport (Client State)
answering = record {
  send = λ m (l, s). (ok tt, (on_receive response l, s));
  register_listener = λ source sink listener client. (ok tt, client);
  unregister_listener = λ source sink listener client. (ok tt, client);
}

invoke_method-Begun_example :
    (id : Uuid) × (id_or_new entropy (some uuid) ≡ returns id)
    × Begun proto answering 9
        (requesting method client options id none)
        id
        idle
        nothing
        (done answering nothing)
invoke_method-Begun_example =
    invoke_method-Begun proto answering caller entropy method options none 9 idle nothing
      (done answering nothing) (run answering nothing)

response-IsResponseTo : IsResponseTo uuid response
response-IsResponseTo = record {
  attributes = response_attributes;
  same = refl;
  type_ = refl;
  reqid = refl;
}

vacant : sender uuid [] ≡ none
unfolding sender
vacant = refl

on_receive-pending_example :
    (on_receive response (pending uuid 9 idle) ≡ record idle { delivered = (9, response) ∷ [] })
    × (on_receive response (on_receive response (pending uuid 9 idle))
        ≡ on_receive response (pending uuid 9 idle))
    × (await_response proto status_codec uuid timed_out (pending uuid 9 idle)
        ≡ (err deadline_exceeded, idle))
    × (on_receive response idle ≡ idle)
on_receive-pending_example =
    on_receive-pending proto status_codec uuid 9 response idle response-IsResponseTo refl vacant

abbrev calling : Calls
calling = (pending uuid 0 idle, uuid ∷ [])

calling-Reachable : Reachable calling
unfolding try_add_pending_request sender
calling-Reachable = step (idle, []) calling start (opening uuid idle [] refl)

abbrev answered : Calls
answered = (on_receive response (pending uuid 0 idle), uuid ∷ [])

Reachable-Exclusive_example : Exclusive (answered.0) (answered.1)
Reachable-Exclusive_example =
    Reachable-Exclusive answered (
      step calling answered calling-Reachable
        (receiving response (pending uuid 0 idle) (uuid ∷ [])))
