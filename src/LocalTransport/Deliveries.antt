-- ===== src/LocalTransport/Deliveries.antt =====
-- src/local_transport.rs: how registering and unregistering change what a message is delivered to.
use mathlib.Core.Bool.{and-eq-true_iff}
use up_rust.Prelude.{
  ℕ, ◌+◌, ◌≡◌, refl, ap, subst, sym, ◌↔◌, inl, inr, true, false, Option, none, some, List, [], ◌∷◌,
  ok, err, arith, ◌==◌, if◌then◌else◌, Bool-cases, eq_iff, ==_iff, eq_refl,
}
use up_rust.Proto.{UCode, UUri, UMessage}
use up_rust.Uri.{uri_eq}
use up_rust.Status.{fail_with_code}
use up_rust.LocalTransport.{
  RegisteredListener, listener_eq, optional_uri_eq, matches_msg, LocalTransport, dispatch_to, send,
  contains, remove, register_listener, unregister_listener,
}

pub uri_eq_iff : (u v : UUri) → (uri_eq u v ≡ true) ↔ (u ≡ v)
uri_eq_iff u v = (
  λ h. ground (arith, eq_iff u.authority_name v.authority_name),
  λ e. rw e (ground (arith, eq_refl v.authority_name)),
)

optional_uri_eq_iff : (u v : Option UUri) → (optional_uri_eq u v ≡ true) ↔ (u ≡ v)
optional_uri_eq_iff none none = (λ h. refl, λ h. refl)
optional_uri_eq_iff (some u) (some v) =
    (λ h. ap some ((uri_eq_iff u v).0 h), λ h. (uri_eq_iff u v).1 (cc))
optional_uri_eq_iff none (some v) = (λ h. cc, λ h. cc)
optional_uri_eq_iff (some u) none = (λ h. cc, λ h. cc)

listener_eq_refl : (r : RegisteredListener) → listener_eq r r ≡ true
listener_eq_refl r = (and-eq-true_iff _ _).1 (
  (and-eq-true_iff _ _).1 (
    (uri_eq_iff r.source_filter r.source_filter).1 refl,
    (optional_uri_eq_iff r.sink_filter r.sink_filter).1 refl,
  ),
  (==_iff r.listener r.listener).1 refl,
)

pub listener_eq_iff : (r s : RegisteredListener) → (listener_eq r s ≡ true) ↔ (r ≡ s)
listener_eq_iff r s = (
  λ h.
      let (filters, same_listener) = (and-eq-true_iff _ _).0 h in
      let (same_source, same_sink) = (and-eq-true_iff _ _).0 filters in
      let source = (uri_eq_iff r.source_filter s.source_filter).0 same_source in
      let sink = (optional_uri_eq_iff r.sink_filter s.sink_filter).0 same_sink in
      let listener = (==_iff r.listener s.listener).0 same_listener in
      λ i. record { source_filter = source i; sink_filter = sink i; listener = listener i },
  λ e. subst (λ t. listener_eq r t ≡ true) e (listener_eq_refl r),
)

-- How often a message reaches the listener of address `l`.
abbrev pub received : ℕ → List (ℕ × UMessage) → ℕ
received l [] = 0
received l ((k, m) ∷ rest) = if k == l then received l rest + 1 else received l rest

-- What the registration `r` adds to that.
abbrev pub share : RegisteredListener → UMessage → ℕ → ℕ
share r m l = if matches_msg r m then (if r.listener == l then 1 else 0) else 0

pub received-dispatch_to :
    (r : RegisteredListener) (rs : List RegisteredListener) (m : UMessage) (l : ℕ)
    → received l (dispatch_to (r ∷ rs) m) ≡ received l (dispatch_to rs m) + share r m l
unfolding dispatch_to
received-dispatch_to r rs m l = ground arith

-- Removing a registration that is there takes its share away.
pub received-remove :
    (rs : List RegisteredListener) (r : RegisteredListener) (m : UMessage) (l : ℕ)
    → contains rs r ≡ true
    → received l (dispatch_to (remove rs r) m) + share r m l ≡ received l (dispatch_to rs m)
unfolding contains remove
received-remove [] r m l h = cc
received-remove (s ∷ rs) r m l h = elim (Bool-cases (listener_eq s r)) [
  | inl here ↦ rw here (rw ((listener_eq_iff s r).0 here) (sym (received-dispatch_to r rs m l)))
  | inr later ↦ rw later (
      let smaller = received-remove rs r m l (cc) in
      let kept = received-dispatch_to s (remove rs r) m l in
      let whole = received-dispatch_to s rs m l in omega arith)
]

-- Registering fails with ALREADY_EXISTS exactly if the same registration is there. A message then
-- reaches the listener as often as before; otherwise once more exactly if it matches the filters.
pub register_listener_lem :
    (r : RegisteredListener) (t : LocalTransport) (m : UMessage) (l : ℕ)
    → ((register_listener r t).0 ≡ (
        if contains t.listeners r
        then err (fail_with_code UCode.already_exists "listener already registered for filters")
        else ok tt))
      × (received l ((send m ((register_listener r t).1)).1)
          ≡ received l ((send m t).1) + (if contains t.listeners r then 0 else share r m l))
unfolding register_listener send
register_listener_lem r t m l = elim (Bool-cases (contains t.listeners r)) [
  | inl there ↦ rw there (refl, omega arith)
  | inr new ↦ rw new (refl, received-dispatch_to r t.listeners m l)
]

-- Unregistering fails with NOT_FOUND exactly if the registration is not there, and nothing changes
-- then; otherwise a message reaches the listener once less exactly if it matches the filters.
pub unregister_listener_lem :
    (r : RegisteredListener) (t : LocalTransport) (m : UMessage) (l : ℕ)
    → ((unregister_listener r t).0 ≡ (
        if contains t.listeners r
        then ok tt
        else err (fail_with_code UCode.not_found "no such listener registered for filters")))
      × (received l ((send m ((unregister_listener r t).1)).1)
            + (if contains t.listeners r then share r m l else 0)
          ≡ received l ((send m t).1))
unfolding unregister_listener send
unregister_listener_lem r t m l = elim (Bool-cases (contains t.listeners r)) [
  | inl there ↦ rw there (refl, received-remove t.listeners r m l there)
  | inr missing ↦ rw missing (refl, omega arith)
]

-- Unregistering right after a registration that was new restores the transport.
pub unregister_listener-register_listener :
    (r : RegisteredListener) (t : LocalTransport)
    → contains t.listeners r ≡ false
    → unregister_listener r ((register_listener r t).1) ≡ (ok tt, t)
unfolding unregister_listener register_listener contains remove
unregister_listener-register_listener r t new = rw new (rw (listener_eq_refl r) refl)
