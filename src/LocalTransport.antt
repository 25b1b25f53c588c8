-- ===== src/LocalTransport.antt =====
-- src/local_transport.rs: the transport of one process. The set of registered listeners is a
-- list in the order of its iteration; a delivery is a listener's address with the message.
pub mod Deliveries
pub mod Calls
pub mod FilterSoundness
pub mod Sets
pub mod Delivery
use up_rust.Prelude.{
  ℕ, Bool, true, false, ◌&&◌, ◌||◌, Option, none, some, List, [], ◌∷◌, ◌++◌, Result, ok, err, ◌==◌,
  if◌then◌else◌, not,
}
use up_rust.Proto.{UCode, UUri, UAttributes, UMessage, UStatus}
use up_rust.Uri.{uri_eq}
use up_rust.Uri.Matching
use up_rust.Status.{fail_with_code}
use up_rust.Transport.{UTransport}

pub record RegisteredListener : Type 0 where
  pub source_filter : UUri
  pub sink_filter : Option UUri
  pub listener : ℕ

abbrev optional_uri_eq : Option UUri → Option UUri → Bool
optional_uri_eq none none = true
optional_uri_eq (some u) (some v) = uri_eq u v
optional_uri_eq _ _ = false

-- The derived equality, with `Arc::ptr_eq` on the listeners.
abbrev pub listener_eq : RegisteredListener → RegisteredListener → Bool
listener_eq r s =
    uri_eq r.source_filter s.source_filter
    && optional_uri_eq r.sink_filter s.sink_filter
    && r.listener == s.listener

abbrev sink_matches : Option UUri → Option UUri → Bool
sink_matches (some pattern) (some candidate) = Matching.matches pattern candidate
sink_matches (some pattern) none = false
sink_matches none (some candidate) = false
sink_matches none none = true

unfoldable pub matches : RegisteredListener → UUri → Option UUri → Bool
matches r source sink =
    if not (Matching.matches r.source_filter source) then false else sink_matches r.sink_filter sink

abbrev matches_attributes : RegisteredListener → Option UAttributes → Option UUri → Bool
matches_attributes r (some a) (some source) = matches r source a.sink
matches_attributes r _ _ = false

abbrev source_of : Option UAttributes → Option UUri
source_of none = none
source_of (some a) = a.source

unfoldable pub matches_msg : RegisteredListener → UMessage → Bool
unfolding matches
matches_msg r m = matches_attributes r m.attributes (source_of m.attributes)

pub record LocalTransport : Type 0 where
  pub listeners : List RegisteredListener

unfoldable pub dispatch_to : List RegisteredListener → UMessage → List (ℕ × UMessage)
dispatch_to [] m = []
dispatch_to (r ∷ rs) m =
    let rest = dispatch_to rs m in if matches_msg r m then (r.listener, m) ∷ rest else rest

-- `dispatch`, and `send`, which always succeeds: the calls of `on_receive`, in order.
unfoldable pub send : UMessage → LocalTransport → Result UStatus (Unit {0}) × List (ℕ × UMessage)
unfolding dispatch_to
send m t = (ok tt, dispatch_to t.listeners m)

unfoldable pub contains : List RegisteredListener → RegisteredListener → Bool
contains [] r = false
contains (s ∷ rs) r = listener_eq s r || contains rs r

unfoldable pub remove : List RegisteredListener → RegisteredListener → List RegisteredListener
remove [] r = []
remove (s ∷ rs) r = if listener_eq s r then rs else s ∷ remove rs r

unfoldable pub register_listener :
    RegisteredListener → LocalTransport → Result UStatus (Unit {0}) × LocalTransport
register_listener r t =
    if contains t.listeners r
    then (err (fail_with_code UCode.already_exists "listener already registered for filters"), t)
    else (ok tt, record { listeners = r ∷ t.listeners })

unfoldable pub unregister_listener :
    RegisteredListener → LocalTransport → Result UStatus (Unit {0}) × LocalTransport
unregister_listener r t =
    if contains t.listeners r
    then (ok tt, record { listeners = remove t.listeners r })
    else (err (fail_with_code UCode.not_found "no such listener registered for filters"), t)

-- `LocalTransport` as a `UTransport`, with all deliveries so far beside it.
abbrev pub transport : UTransport (LocalTransport × List (ℕ × UMessage))
transport = record {
  send = λ m (t, log). ((send m t).0, (t, log ++ (send m t).1));
  register_listener = λ source sink listener (t, log).
      let (result, after) =
        register_listener
          (record { source_filter = source; sink_filter = sink; listener = listener }) t in
      (result, (after, log));
  unregister_listener = λ source sink listener (t, log).
      let (result, after) =
        unregister_listener
          (record { source_filter = source; sink_filter = sink; listener = listener }) t in
      (result, (after, log));
}
