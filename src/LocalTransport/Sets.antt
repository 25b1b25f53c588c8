-- ===== src/LocalTransport/Sets.antt =====
-- src/local_transport.rs: the transport as the set of its registrations. The program keeps a hash
-- set, whose order of iteration is left open; nothing that a caller counts depends on it.
use up_rust.Prelude.{
  ℕ, ◌≡◌, refl, ap, sym, ◌∙◌, subst, Bool, true, false, not, ◌&&◌, ◌||◌, List, [], ◌∷◌, Result, ok,
  err, arith, if◌then◌else◌, Bool-cases, inl, inr,
}
use up_rust.Proto.{UCode, UMessage, UStatus}
use up_rust.Status.{fail_with_code}
use up_rust.LocalTransport.{
  RegisteredListener, LocalTransport, listener_eq, contains, remove, send, dispatch_to,
  register_listener, unregister_listener,
}
use up_rust.LocalTransport.Deliveries.{
  received, received-dispatch_to, received-remove, listener_eq_iff,
}
use up_rust.LocalTransport.Calls.{
  NoDuplicates, Reachable, Reachable-NoDuplicates, remove-NoDuplicates, contains_here,
}

and_true : (b : Bool) → (b && true) ≡ b
and_true true = refl
and_true false = refl

-- A set of registrations, and the set of a transport.
abbrev pub Registrations : Type 0
Registrations = RegisteredListener → Bool

abbrev pub registrations : LocalTransport → Registrations
registrations t = contains t.listeners

pub data Call : Type 0 where
  registering unregistering : RegisteredListener → Call

abbrev pub perform : Call → LocalTransport → Result UStatus (Unit {0}) × LocalTransport
perform (registering r) t = register_listener r t
perform (unregistering r) t = unregister_listener r t

-- What the calls promise for a set.
abbrev pub specified : Call → Registrations → Result UStatus (Unit {0}) × Registrations
specified (registering r) set =
    if set r
    then (err (fail_with_code UCode.already_exists "listener already registered for filters"), set)
    else (ok tt, λ s. listener_eq r s || set s)
specified (unregistering r) set =
    if set r
    then (ok tt, λ s. set s && not (listener_eq r s))
    else (err (fail_with_code UCode.not_found "no such listener registered for filters"), set)

abbrev pub seen :
    Result UStatus (Unit {0}) × LocalTransport → Result UStatus (Unit {0}) × Registrations
seen (r, t) = (r, registrations t)

removed_head :
    (r s : RegisteredListener) (rs : List RegisteredListener)
    → contains rs r ≡ false
    → contains rs s ≡ ((listener_eq r s || contains rs s) && not (listener_eq r s))
removed_head r s rs fresh = elim (Bool-cases (listener_eq r s)) [
  | inl same ↦ rw same (subst (λ x. contains rs x ≡ false) ((listener_eq_iff r s).0 same) fresh)
  | inr other ↦ rw other (sym (and_true (contains rs s)))
]

kept_head :
    (x r s : RegisteredListener)
    → listener_eq x r ≡ false
    → listener_eq x s ≡ true
    → listener_eq r s ≡ false
kept_head x r s apart same = elim (Bool-cases (listener_eq r s)) [
  | inl is ↦
      let same_rest : x ≡ r = (listener_eq_iff x s).0 same ∙ sym ((listener_eq_iff r s).0 is) in
      cc ((listener_eq_iff x r).1 same_rest)
  | inr other ↦ other
]

contains-remove_lem :
    (rs : List RegisteredListener) (r s : RegisteredListener)
    → NoDuplicates rs
    → contains (remove rs r) s ≡ (contains rs s && not (listener_eq r s))
unfolding contains remove
contains-remove_lem [] r s h = refl
contains-remove_lem (x ∷ rs) r s (fresh, h) = elim (Bool-cases (listener_eq x r)) [
  | inl here ↦
      let is = (listener_eq_iff x r).0 here in
      rw here (
        subst (λ y. contains rs s ≡ ((listener_eq y s || contains rs s) && not (listener_eq r s)))
          (sym is) (removed_head r s rs (subst (λ y. contains rs y ≡ false) is fresh)))
  | inr later ↦ rw later (elim (Bool-cases (listener_eq x s)) [
    | inl same ↦ rw (same, kept_head x r s later same) refl
    | inr other ↦ rw other (contains-remove_lem rs r s h)
  ])
]

seen-if :
    (b : Bool) (x y : Result UStatus (Unit {0}) × LocalTransport)
    (u v : Result UStatus (Unit {0}) × Registrations)
    → seen x ≡ u
    → seen y ≡ v
    → seen (if b then x else y) ≡ (if b then u else v)
seen-if true x y u v h k = h
seen-if false x y u v h k = k

-- In every state that calls lead to, a call returns what is specified for the set of the
-- registrations, and leaves the set that is specified.
pub seen-perform_set :
    (t : LocalTransport) (c : Call)
    → Reachable t
    → seen (perform c t) ≡ specified c (registrations t)
unfolding register_listener unregister_listener contains
seen-perform_set t (registering r) h = seen-if (contains t.listeners r) _ _ _ _ refl refl
seen-perform_set t (unregistering r) h =
    seen-if (contains t.listeners r) _ _ _ _
      (λ i. (ok tt, λ s. contains-remove_lem t.listeners r s (Reachable-NoDuplicates t h) i)) refl

smaller :
    (x : RegisteredListener) (rs : List RegisteredListener) (us : List RegisteredListener)
    → contains rs x ≡ false
    → NoDuplicates us
    → ((s : RegisteredListener) → contains (x ∷ rs) s ≡ contains us s)
    → (s : RegisteredListener) → contains rs s ≡ contains (remove us x) s
unfolding contains
smaller x rs us fresh h same s =
    removed_head x s rs fresh
    ∙ ap (λ b. b && not (listener_eq x s)) (same s)
    ∙ sym (contains-remove_lem us x s h)

received_same :
    (rs us : List RegisteredListener) (m : UMessage) (l : ℕ)
    → NoDuplicates rs
    → NoDuplicates us
    → ((s : RegisteredListener) → contains rs s ≡ contains us s)
    → received l (dispatch_to rs m) ≡ received l (dispatch_to us m)
unfolding contains
received_same [] [] m l h k same = refl
received_same [] (u ∷ us) m l h k same =
    cc (same u, contains_here u us u ((listener_eq_iff u u).1 refl))
received_same (x ∷ rs) us m l (fresh, h) k same =
    let there : contains us x ≡ true =
      sym (same x) ∙ contains_here x rs x ((listener_eq_iff x x).1 refl) in
    let rest =
      received_same rs (remove us x) m l h (remove-NoDuplicates us x k)
        (smaller x rs us fresh k same) in
    let whole = received-dispatch_to x rs m l in
    let taken = received-remove us x m l there in omega arith

-- In two transports that calls lead to and that have the same registrations, in whatever order, a
-- message reaches every listener equally often.
pub send-registrations :
    (t u : LocalTransport) (m : UMessage) (l : ℕ)
    → Reachable t
    → Reachable u
    → ((s : RegisteredListener) → registrations t s ≡ registrations u s)
    → received l ((send m t).1) ≡ received l ((send m u).1)
unfolding send
send-registrations t u m l h k same =
    received_same t.listeners u.listeners m l (Reachable-NoDuplicates t h)
      (Reachable-NoDuplicates u k) same
