-- ===== src/Tests/Rejections.antt =====
-- Runs of the definitions on messages that are no valid requests.
use up_rust.Prelude.{◌≡◌, refl, none, some, err, returns}
use up_rust.Proto.{known, UMessageType, UPriority, UAttributes, default_UAttributes}
use up_rust.Prelude.{join}
use up_rust.Attributes.{to_string, validation_error}
use up_rust.Validator.{
  report, messages, UAttributesValidators, validate, validate_type, validate_id, validate_source,
  validate_sink, validate_ttl, validate_rpc_priority, message_type,
}
use up_rust.Uuid.{is_uprotocol_uuid}
use up_rust.Uri.{verify_rpc_method, verify_rpc_response, is_rpc_method, is_rpc_response}
use up_rust.LocalTransport
use up_rust.Communication.RpcServer.{on_receive}
use up_rust.Communication.RpcServer.Rejecting.{Rejected, on_receive-Rejected}
use up_rust.Tests.{
  proto, entropy, entropy-IsEntropy, uuid, client, method, status_codec, method_concrete,
  client_concrete,
}
use up_rust.Tests.Clients.{State, nothing, answer_nothing, can_write}

-- A request without a time-to-live.
abbrev endless : UAttributes
endless = record default_UAttributes {
  id = some uuid;
  type_ = known UMessageType.request;
  source = some client;
  sink = some method;
  priority = known UPriority.cs4;
}

refused :
    validate proto UAttributesValidators.request endless
    ≡ err (validation_error "Validation failure: RPC request message must contain a TTL")
unfolding validate validate_type validate_id validate_source validate_sink validate_ttl
    validate_rpc_priority message_type is_uprotocol_uuid report join messages to_string
    verify_rpc_method verify_rpc_response is_rpc_method is_rpc_response
refused = rw (method_concrete, client_concrete) refl

on_receive-Rejected_example :
    (s_after : State) × (on_receive proto status_codec entropy LocalTransport.transport
        answer_nothing
        (record { attributes = some endless; payload = none })
        nothing
      ≡ returns s_after)
    × Rejected proto status_codec can_write entropy LocalTransport.transport answer_nothing endless
        (validation_error "Validation failure: RPC request message must contain a TTL")
        nothing
        s_after
on_receive-Rejected_example =
    on_receive-Rejected proto status_codec can_write entropy LocalTransport.transport answer_nothing
      endless (validation_error "Validation failure: RPC request message must contain a TTL") none
      nothing entropy-IsEntropy refused
