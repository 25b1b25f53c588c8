-- ===== src/Communication/RpcServer/Endpoints.antt =====
-- src/communication/in_memory_rpc_server.rs: the table of endpoints, over any transport and over
-- the local one.
use up_rust.Prelude.{ℕ, ◌≡◌, refl, ap, ◌∙◌, false, Option, none, some, List, ◌∷◌, ok, err, ==_iff}
use up_rust.Proto.{UUri, UMessage}
use up_rust.LocalTransport.{LocalTransport, RegisteredListener, contains}
use up_rust.LocalTransport
use up_rust.LocalTransport.Deliveries.{unregister_listener-register_listener}
use up_rust.Transport.{UTransport, LocalUriProvider}
use up_rust.Communication.Errors.{max_listeners_exceeded}
use up_rust.Communication.RpcServer.{
  InMemoryRpcServer, entry, remove, validate_sink_filter, validate_origin_filter, origin_or_any,
  register_endpoint, unregister_endpoint,
}

-- The filters that both operations accept: no origin or a place for responses, and a method.
pub record AcceptedFilters (origin : Option UUri) (method : UUri) : Type 0 where
  pub origin_ok : validate_origin_filter origin ≡ ok tt
  pub sink_ok : validate_sink_filter method ≡ ok tt

entry_here : (k l : ℕ) (rest : List (ℕ × ℕ)) → entry k ((k, l) ∷ rest) ≡ some l
unfolding entry
entry_here k l rest = rw ((==_iff k k).1 refl) refl

remove_here : (k l : ℕ) (rest : List (ℕ × ℕ)) → remove k ((k, l) ∷ rest) ≡ rest
unfolding remove
remove_here k l rest = rw ((==_iff k k).1 refl) refl

module _ {S : Type 0} (transport : UTransport S) (provider : LocalUriProvider) where
  -- A method has one endpoint: registering a second one fails with MaxListenersExceeded, whatever
  -- its listener and its origin filter, and changes neither the server nor the transport.
  pub register_endpoint_twice :
      (origin : Option UUri) (k l : ℕ) (server : InMemoryRpcServer) (s : S) (there : ℕ)
      → AcceptedFilters origin (provider.resource_uri k)
      → entry k server.request_listeners ≡ some there
      → register_endpoint transport provider origin k l (server, s)
        ≡ (err max_listeners_exceeded, (server, s))
  unfolding register_endpoint
  register_endpoint_twice origin k l server s there h e = rw (h.origin_ok, h.sink_ok, e) refl

  -- Where the transport takes the listener of a new endpoint, the server has it under the method's
  -- resource ID.
  pub register_endpoint_new :
      (origin : Option UUri) (k l : ℕ) (server : InMemoryRpcServer) (s after : S)
      → AcceptedFilters origin (provider.resource_uri k)
      → entry k server.request_listeners ≡ none
      → transport.register_listener (origin_or_any origin) (some (provider.resource_uri k)) l s
        ≡ (ok tt, after)
      → register_endpoint transport provider origin k l (server, s)
        ≡ (ok tt, (record { request_listeners = (k, l) ∷ server.request_listeners }, after))
  unfolding register_endpoint
  register_endpoint_new origin k l server s after h vacant taken =
      rw (h.origin_ok, h.sink_ok, vacant, taken) refl

  pub unregister_endpoint_there :
      (origin : Option UUri) (k l : ℕ) (rest : List (ℕ × ℕ)) (s after : S)
      → AcceptedFilters origin (provider.resource_uri k)
      → transport.unregister_listener (origin_or_any origin) (some (provider.resource_uri k)) l s
        ≡ (ok tt, after)
      → unregister_endpoint transport provider origin k
          (record { request_listeners = (k, l) ∷ rest }, s)
        ≡ (ok tt, (record { request_listeners = rest }, after))
  unfolding unregister_endpoint
  unregister_endpoint_there origin k l rest s after h gone =
      rw (h.origin_ok, h.sink_ok, entry_here k l rest, gone, remove_here k l rest) refl

registered_ok :
    (r : RegisteredListener) (t : LocalTransport)
    → contains t.listeners r ≡ false
    → (LocalTransport.register_listener r t).0 ≡ ok tt
unfolding LocalTransport.register_listener
registered_ok r t new = rw new refl

-- Over the local transport, unregistering a new endpoint restores the server and the transport.
pub unregister_endpoint-register_endpoint :
    (provider : LocalUriProvider) (origin : Option UUri) (k l : ℕ) (server : InMemoryRpcServer)
    (t : LocalTransport) (log : List (ℕ × UMessage))
    → AcceptedFilters origin (provider.resource_uri k)
    → entry k server.request_listeners ≡ none
    → contains t.listeners (record {
      source_filter = origin_or_any origin;
      sink_filter = some (provider.resource_uri k);
      listener = l;
    })
      ≡ false
    → unregister_endpoint LocalTransport.transport provider origin k
        ((register_endpoint LocalTransport.transport provider origin k l (server, (t, log))).1)
      ≡ (ok tt, (server, (t, log)))
unregister_endpoint-register_endpoint provider origin k l server t log h vacant new =
    let r : RegisteredListener = record {
      source_filter = origin_or_any origin;
      sink_filter = some (provider.resource_uri k);
      listener = l;
    } in
    let after = (LocalTransport.register_listener r t).1 in
    let taken = registered_ok r t new in
    let restored = unregister_listener-register_listener r t new in
    ap (λ x. unregister_endpoint LocalTransport.transport provider origin k (x.1))
      (register_endpoint_new LocalTransport.transport provider origin k l server (t, log)
        (after, log) h vacant (ap (λ x. (x, (after, log))) taken))
    ∙ unregister_endpoint_there LocalTransport.transport provider origin k l
        server.request_listeners (after, log) (t, log) h (ap (λ x. (x.0, (x.1, log))) restored)
