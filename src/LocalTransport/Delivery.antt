-- ===== src/LocalTransport/Delivery.antt =====
-- src/local_transport.rs: a message reaches the listeners that are registered for it.
use up_rust.Prelude.{◌<◌, ◌≡◌, refl, true, none, some, List, Bool-cases, inl, inr, arith, ==_iff}
use up_rust.Proto.{UUri, UAttributes, UMessage}
use up_rust.Uri.Matching
use up_rust.LocalTransport.{
  RegisteredListener, LocalTransport, matches, matches_msg, contains, send, dispatch_to,
  register_listener,
}
use up_rust.LocalTransport.Deliveries.{received, share, received-remove, listener_eq_iff}
use up_rust.LocalTransport.Calls.{contains_here}

share_one :
    (r : RegisteredListener) (m : UMessage) → matches_msg r m ≡ true → share r m r.listener ≡ 1
share_one r m h = rw (h, (==_iff r.listener r.listener).1 refl) refl

received-contains :
    (rs : List RegisteredListener) (r : RegisteredListener) (m : UMessage)
    → contains rs r ≡ true
    → matches_msg r m ≡ true
    → 0 < received r.listener (dispatch_to rs m)
received-contains rs r m there h =
    let one = share_one r m h in let whole = received-remove rs r m r.listener there in omega arith

contains-register_listener :
    (r : RegisteredListener) (t : LocalTransport)
    → contains ((register_listener r t).1).listeners r ≡ true
unfolding register_listener
contains-register_listener r t = elim (Bool-cases (contains t.listeners r)) [
  | inl there ↦ rw there there
  | inr new ↦ rw new (contains_here r t.listeners r ((listener_eq_iff r r).1 refl))
]

-- A message whose source and sink are those is what the listener's filters match.
pub matched :
    (r : RegisteredListener) (m : UMessage) (a : UAttributes) (source sink filter : UUri)
    → m.attributes ≡ some a
    → a.source ≡ some source
    → a.sink ≡ some sink
    → r.sink_filter ≡ some filter
    → Matching.matches r.source_filter source ≡ true
    → Matching.matches filter sink ≡ true
    → matches_msg r m ≡ true
unfolding matches_msg matches
matched r m a source sink filter attributes from to filtered accepts_source accepts_sink =
    rw (attributes, from, to, accepts_source, filtered, accepts_sink) refl

matched_topic :
    (r : RegisteredListener) (m : UMessage) (a : UAttributes) (source : UUri)
    → m.attributes ≡ some a
    → a.source ≡ some source
    → a.sink ≡ none
    → r.sink_filter ≡ none
    → Matching.matches r.source_filter source ≡ true
    → matches_msg r m ≡ true
unfolding matches_msg matches
matched_topic r m a source attributes from no_sink unfiltered accepted =
    rw (attributes, from, accepted, unfiltered, no_sink) refl

-- Once a call has registered a listener, whether or not it was registered before, a message that
-- the filters match reaches it.
pub send-register_listener :
    (r : RegisteredListener) (t : LocalTransport) (m : UMessage) (a : UAttributes)
    (source sink filter : UUri)
    → m.attributes ≡ some a
    → a.source ≡ some source
    → a.sink ≡ some sink
    → r.sink_filter ≡ some filter
    → Matching.matches r.source_filter source ≡ true
    → Matching.matches filter sink ≡ true
    → 0 < received r.listener ((send m ((register_listener r t).1)).1)
unfolding send
send-register_listener r t m a source sink filter attributes from to filtered accepts_source
      accepts_sink =
    received-contains ((register_listener r t).1).listeners r m (contains-register_listener r t)
      (matched r m a source sink filter attributes from to filtered accepts_source accepts_sink)

-- The same for a registration without a sink filter and a message without a sink.
pub send-register_listener_topic :
    (r : RegisteredListener) (t : LocalTransport) (m : UMessage) (a : UAttributes) (source : UUri)
    → m.attributes ≡ some a
    → a.source ≡ some source
    → a.sink ≡ none
    → r.sink_filter ≡ none
    → Matching.matches r.source_filter source ≡ true
    → 0 < received r.listener ((send m ((register_listener r t).1)).1)
unfolding send
send-register_listener_topic r t m a source attributes from no_sink unfiltered accepted =
    received-contains ((register_listener r t).1).listeners r m (contains-register_listener r t)
      (matched_topic r m a source attributes from no_sink unfiltered accepted)
