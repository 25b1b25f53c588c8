-- ===== src/LocalTransport/Calls.antt =====
-- src/local_transport.rs: the states that the calls of a transport reach.
use up_rust.Prelude.{true, false, ◌≡◌, refl, sym, subst, ◌∙◌, inl, inr, List, [], ◌∷◌, Bool-cases}
use up_rust.LocalTransport.{
  RegisteredListener, listener_eq, LocalTransport, contains, remove, register_listener,
  unregister_listener,
}
use up_rust.LocalTransport.Deliveries.{listener_eq_iff}

-- One call of the transport's interface that changes it.
pub data Step : LocalTransport → LocalTransport → Type 0 where
  registering : (r : RegisteredListener) (t : LocalTransport) → Step t ((register_listener r t).1)
  unregistering :
      (r : RegisteredListener) (t : LocalTransport) → Step t ((unregister_listener r t).1)

-- The transports that calls reach from the empty one.
pub data Reachable : LocalTransport → Type 0 where
  start : Reachable (record { listeners = [] })
  step : (t u : LocalTransport) → Reachable t → Step t u → Reachable u

-- No registration is there twice: removing one leaves none of it.
abbrev pub NoDuplicates : List RegisteredListener → Type 0
NoDuplicates [] = Unit {0}
NoDuplicates (r ∷ rs) = (contains rs r ≡ false) × NoDuplicates rs

pub contains_here :
    (x : RegisteredListener) (rs : List RegisteredListener) (s : RegisteredListener)
    → listener_eq x s ≡ true
    → contains (x ∷ rs) s ≡ true
unfolding contains
contains_here x rs s h = rw h refl

pub contains_there :
    (x : RegisteredListener) (rs : List RegisteredListener) (s : RegisteredListener)
    → listener_eq x s ≡ false
    → contains (x ∷ rs) s ≡ contains rs s
unfolding contains
contains_there x rs s h = rw h refl

contains-remove :
    (rs : List RegisteredListener) (r s : RegisteredListener)
    → contains rs s ≡ false
    → contains (remove rs r) s ≡ false
unfolding contains remove
contains-remove [] r s h = refl
contains-remove (x ∷ rs) r s h = elim (Bool-cases (listener_eq x s)) [
  | inl is ↦ cc (h, contains_here x rs s is)
  | inr is_not ↦
      let tail : contains rs s ≡ false = sym (contains_there x rs s is_not) ∙ h in
      elim (Bool-cases (listener_eq x r)) [
        | inl here ↦ rw here tail
        | inr later ↦ rw later (rw is_not (contains-remove rs r s tail))
      ]
]

pub remove-NoDuplicates :
    (rs : List RegisteredListener) (r : RegisteredListener)
    → NoDuplicates rs
    → NoDuplicates (remove rs r)
unfolding remove
remove-NoDuplicates [] r h = tt
remove-NoDuplicates (x ∷ rs) r (fresh, h) = elim (Bool-cases (listener_eq x r)) [
  | inl here ↦ rw here h
  | inr later ↦ rw later (contains-remove rs r x fresh, remove-NoDuplicates rs r h)
]

Step-NoDuplicates :
    (t u : LocalTransport) → Step t u → NoDuplicates t.listeners → NoDuplicates u.listeners
unfolding register_listener unregister_listener
Step-NoDuplicates t _ (registering r _) h = elim (Bool-cases (contains t.listeners r)) [
  | inl there ↦ rw there h
  | inr new ↦ rw new (new, h)
]
Step-NoDuplicates t _ (unregistering r _) h = elim (Bool-cases (contains t.listeners r)) [
  | inl there ↦ rw there (remove-NoDuplicates t.listeners r h)
  | inr missing ↦ rw missing h
]

-- Whatever calls led to a transport, no registration is in it twice.
pub Reachable-NoDuplicates : (t : LocalTransport) → Reachable t → NoDuplicates t.listeners
Reachable-NoDuplicates _ start = tt
Reachable-NoDuplicates u (step t _ before s) =
    Step-NoDuplicates t u s (Reachable-NoDuplicates t before)

pub contains-remove_self :
    (rs : List RegisteredListener) (r : RegisteredListener)
    → NoDuplicates rs
    → contains (remove rs r) r ≡ false
unfolding contains remove
contains-remove_self [] r h = refl
contains-remove_self (x ∷ rs) r (fresh, h) = elim (Bool-cases (listener_eq x r)) [
  | inl here ↦ rw here (subst (λ s. contains rs s ≡ false) ((listener_eq_iff x r).0 here) fresh)
  | inr later ↦ rw later (rw later (contains-remove_self rs r h))
]

-- In a transport that calls led to, a registration is gone after it was unregistered: each listener
-- is removed by one call, whatever happened before.
pub unregister_listener-contains :
    (t : LocalTransport) (r : RegisteredListener)
    → Reachable t
    → contains ((unregister_listener r t).1).listeners r ≡ false
unfolding unregister_listener
unregister_listener-contains t r h = elim (Bool-cases (contains t.listeners r)) [
  | inl there ↦ rw there (contains-remove_self t.listeners r (Reachable-NoDuplicates t h))
  | inr missing ↦ rw missing missing
]
