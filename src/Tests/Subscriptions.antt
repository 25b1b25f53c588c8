-- ===== src/Tests/Subscriptions.antt =====
-- A run of a subscription at a service in the same process.
use up_rust.Prelude.{ℕ, ◌≡◌, refl, none, some, [], ◌∷◌, ok, returns, arith, ◌==◌, if◌then◌else◌}
use up_rust.Proto.{UPriority, UMessage}
use up_rust.Uri.{any, any_with_resource_id, is_rpc_method}
use up_rust.Uri.Checks.{verify_no_wildcards_iff, verify_rpc_method_iff}
use up_rust.Uuid
use up_rust.Validator.{UAttributesValidators, message_type}
use up_rust.Validator.Laws.{IsValid}
use up_rust.Builder
use up_rust.Builder.{UMessageBuilder, attributes_of, id_or_new}
use up_rust.Builder.Build.{build_of_IsValid}
use up_rust.LocalTransport
use up_rust.LocalTransport.{LocalTransport}
use up_rust.Transport.{LocalUriProvider}
use up_rust.Core.Addresses.{resource_of, resource_of-IsMethod}
use up_rust.Communication.{try_from_protobuf, new as new_payload, build_message}
use up_rust.Communication.RpcServer.{
  RequestHandler, register_endpoint, entry, validate_sink_filter, validate_origin_filter,
}
use up_rust.Communication.RpcClient.{
  beside, ResponseListener, invoke_method, try_add_pending_request, sender,
}
use up_rust.Communication.RpcClient.Pending.{pending}
use up_rust.Communication.Rpc.{in_memory}
use up_rust.Communication.Rpc.Services.{subscribe}
use up_rust.Communication.InProcess.{Listener, request_listener, response_listener, Process, wait}
use up_rust.Communication.InProcess.Subscription.{five_seconds, subscribe-register_endpoint}
use up_rust.Tests.{
  proto, entropy, entropy-IsEntropy, uuid, uuid_valid, client, client_concrete, status_codec,
}
use up_rust.Tests.RpcClient.{caller, idle}
use up_rust.Tests.Clients.{can_write}
use up_rust.Tests.Transports.{from_client}
use up_rust.Tests.InProcess.{server, created, creating}
use up_rust.Tests.Subscriber.{
  nobody, nobody-IsHostOnly, local_parser, constant, accepted, request, payload,
}

abbrev service_uris : LocalUriProvider
service_uris = record {
  authority = "";
  resource_uri = λ k. resource_of 0 k;
  source_uri = resource_of 0 0;
}

abbrev accepting : RequestHandler
accepting ttl resource_id a p = some (ok (some payload))

abbrev listeners : ℕ → Listener
listeners k = if k == 3 then request_listener accepting else response_listener

abbrev serving : LocalTransport
serving = record {
  listeners =
      record {
        source_filter = any_with_resource_id 0;
        sink_filter = some (resource_of 0 1);
        listener = 3;
      }
      ∷ created.listeners;
}

registering :
    register_endpoint LocalTransport.transport service_uris none 1 3 (server, (created, []))
    ≡ (ok tt, (record { request_listeners = (1, 3) ∷ [] }, (serving, [])))
unfolding register_endpoint entry validate_sink_filter validate_origin_filter is_rpc_method
    LocalTransport.register_listener LocalTransport.contains any any_with_resource_id
registering = refl

generated : id_or_new entropy none ≡ returns uuid
unfolding id_or_new Uuid.build_for_timestamp
generated = refl

abbrev builder : UMessageBuilder
builder = record (Builder.request (resource_of 0 1) client 5000) { message_id = some uuid }

abbrev final : UMessageBuilder
final = record builder { payload = some payload.payload; payload_format = payload.payload_format }

abbrev message : UMessage
message = record { attributes = some (attributes_of final uuid); payload = some payload.payload }

rules : IsValid proto UAttributesValidators.request (attributes_of final uuid)
unfolding Builder.request message_type
rules = record {
  type_ = refl;
  id = (uuid, refl, uuid_valid);
  source = (client, refl, (refl, (verify_no_wildcards_iff client).0 client_concrete));
  sink = (
    resource_of 0 1,
    refl,
    (verify_rpc_method_iff (resource_of 0 1)).0
        ((resource_of-IsMethod 0 1 (omega arith)).1 (omega arith, omega arith)),
  );
  own = record { ttl = (5000, refl, omega arith); priority = (UPriority.cs4, refl, omega arith) };
}

identified :
    Builder.with_message_id uuid (Builder.request (resource_of 0 1) client 5000) ≡ returns builder
unfolding Builder.with_message_id
identified = rw uuid_valid refl

given : id_or_new entropy (some uuid) ≡ returns uuid
unfolding id_or_new
given = refl

built : build_message proto entropy builder (some payload) ≡ returns (ok message)
unfolding build_message Builder.request Builder.build_with_payload
built = build_of_IsValid proto entropy final uuid given rules

abbrev waiting : Process
waiting = (pending uuid 9 idle, (LocalTransport.transport.send message (serving, [])).1)

begun :
    invoke_method proto
      (beside LocalTransport.transport)
      caller
      entropy
      (resource_of 0 1)
      five_seconds
      (some payload)
      9
      (idle, (serving, []))
    ≡ returns (ok uuid, waiting)
unfolding invoke_method try_add_pending_request sender LocalTransport.send
begun = rw (generated, identified, built) refl

subscribe-register_endpoint_example :
    (l_after : ResponseListener) × (l_after.pending_requests ≡ [])
    × (subscribe proto local_parser
          (in_memory proto status_codec
            (beside LocalTransport.transport)
            caller
            (λ bus. entropy)
            (λ l. 9)
            (wait proto status_codec (λ bus. entropy) listeners))
          (constant request)
          (constant accepted)
          request
          (idle, (serving, []))
        ≡ returns (ok accepted, (l_after, (serving, []))))
unfolding try_from_protobuf new_payload
subscribe-register_endpoint_example =
    subscribe-register_endpoint proto status_codec can_write (λ bus. entropy)
      (λ bus. entropy-IsEntropy) listeners (λ l. 9) accepting local_parser (constant request)
      (constant accepted) caller service_uris none 1 4 3 server
      (record { request_listeners = (1, 3) ∷ [] }) created serving idle uuid waiting nobody request
      accepted payload payload creating registering refl refl from_client refl (λ a. refl) refl
      nobody-IsHostOnly (λ any bytes packed written. (accepted, refl, refl)) refl refl begun
