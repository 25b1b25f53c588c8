-- ===== src/Tests/InProcess.antt =====
-- Runs of the definitions on a client and an endpoint in one process.
use up_rust.Prelude.{ℕ, ◌≡◌, refl, none, [], ◌∷◌, ◌==◌, some, if◌then◌else◌, ok, err, returns}
use up_rust.Uri.{any, any_with_resource_id, is_rpc_method}
use up_rust.LocalTransport
use up_rust.LocalTransport.{LocalTransport}
use up_rust.Communication.Errors.{not_found, deadline_exceeded}
use up_rust.Communication.InProcess.Unanswered.{in_memory-new}
use up_rust.Communication.RpcClient.Pending.{pending}
use up_rust.Communication.Rpc.{in_memory}
use up_rust.Tests.Transports.{from_client}
use up_rust.Communication.RpcServer.{
  InMemoryRpcServer, register_endpoint, entry, validate_sink_filter, validate_origin_filter,
}
use up_rust.Communication.RpcClient.{
  beside, ResponseListener, new, invoke_method, try_add_pending_request, sender,
}
use up_rust.Communication.InProcess.{
  Listener, request_listener, response_listener, application, wait, Process,
}
use up_rust.Communication.InProcess.Settling
use up_rust.Communication.InProcess.Invocation.{in_memory-register_endpoint}
use up_rust.Tests.{proto, entropy, entropy-IsEntropy, status_codec, client, method, uuid}
use up_rust.Tests.RpcClient.{caller, idle, options, message, run}
use up_rust.Tests.Clients.{can_write, answer_not_found, uris, read_back}

abbrev listeners : ℕ → Listener
listeners k =
    if k == 3
    then request_listener answer_not_found
    else if k == 4
    then response_listener
    else application (λ m. [])

abbrev full : LocalTransport
full = record { listeners = record { source_filter = any; sink_filter = none; listener = 3 } ∷ [] }

abbrev pub server : InMemoryRpcServer
server = record { request_listeners = [] }

abbrev pub created : LocalTransport
created = record {
  listeners = record { source_filter = any; sink_filter = some client; listener = 4 } ∷ [];
}

abbrev connected : LocalTransport
connected = record {
  listeners =
      record { source_filter = any_with_resource_id 0; sink_filter = some method; listener = 3 }
      ∷ created.listeners;
}

pub creating :
    new LocalTransport.transport caller 4 (record { listeners = [] }, []) ≡ (ok tt, (created, []))
unfolding new LocalTransport.register_listener LocalTransport.contains
creating = refl

registering :
    register_endpoint LocalTransport.transport uris none 1 3 (server, (created, []))
    ≡ (ok tt, (record { request_listeners = (1, 3) ∷ [] }, (connected, [])))
unfolding register_endpoint entry validate_sink_filter validate_origin_filter is_rpc_method
    LocalTransport.register_listener LocalTransport.contains any any_with_resource_id
registering = refl

abbrev waiting : Process
waiting = (pending uuid 9 idle, (LocalTransport.transport.send message (connected, [])).1)

begun :
    invoke_method proto
      (beside LocalTransport.transport)
      caller
      entropy
      method
      options
      none
      9
      (idle, (connected, []))
    ≡ returns (ok uuid, waiting)
unfolding try_add_pending_request sender LocalTransport.send
begun = run (beside LocalTransport.transport) (connected, [])

in_memory-register_endpoint_example :
    (l_after : ResponseListener) × (l_after.pending_requests ≡ [])
    × ((in_memory proto status_codec
            (beside LocalTransport.transport)
            caller
            (λ bus. entropy)
            (λ l. 9)
            (wait proto status_codec (λ bus. entropy) listeners)).invoke_method
          method options none
          (idle, (connected, []))
        ≡ returns (err (not_found "no"), (l_after, (connected, []))))
in_memory-register_endpoint_example =
    in_memory-register_endpoint proto status_codec can_write (λ bus. entropy)
      (λ bus. entropy-IsEntropy) listeners (λ l. 9) answer_not_found caller uris none 1 4 3 server
      (record { request_listeners = (1, 3) ∷ [] }) created connected options none idle uuid waiting
      creating registering refl refl from_client (λ a s same. cc) (λ a e same. read_back e same)
      begun

-- The request is out, be it that somebody has it or not.
abbrev unheard : Process
unheard = (pending uuid 9 idle, (LocalTransport.transport.send message (created, [])).1)

asked :
    invoke_method proto
      (beside LocalTransport.transport)
      caller
      entropy
      method
      options
      none
      9
      (idle, (created, []))
    ≡ returns (ok uuid, unheard)
unfolding try_add_pending_request sender LocalTransport.send
asked = run (beside LocalTransport.transport) (created, [])

in_memory-new_example :
    (in_memory proto status_codec
        (beside LocalTransport.transport)
        caller
        (λ bus. entropy)
        (λ l. 9)
        (wait proto status_codec (λ bus. entropy) listeners)).invoke_method
      method options none
      (idle, (created, []))
    ≡ returns (err deadline_exceeded, (idle, (created, [])))
in_memory-new_example =
    in_memory-new proto status_codec (λ bus. entropy) listeners (λ l. 9) caller 4 created method
      options none idle uuid unheard creating refl asked
