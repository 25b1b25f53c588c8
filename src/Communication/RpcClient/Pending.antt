-- ===== src/Communication/RpcClient/Pending.antt =====
-- src/communication/in_memory_rpc_client.rs: the pending requests of a client.
use mathlib.Core.Bool.{and-eq-true_iff}
use up_rust.Prelude.{
  ℕ, ◌≡◌, refl, ap, sym, ◌∙◌, inl, inr, true, false, if_true, if_false, Bool-cases, none, some, ◌∷◌,
  ok, err, ==_iff,
}
use up_rust.Proto.{known, UMessageType, UStatus, Uuid, UAttributes, UMessage, Descriptors}
use up_rust.Message.Extraction.{Codec}
use up_rust.Communication.Errors.{ServiceInvocationError, deadline_exceeded}
use up_rust.Communication.RpcClient.{
  uuid_eq, ResponseListener, sender, try_add_pending_request, remove_pending_request,
  handle_response, on_receive, timed_out, await_response,
}

pub uuid_eq_refl : (u : Uuid) → uuid_eq u u ≡ true
uuid_eq_refl u = (and-eq-true_iff _ _).1 ((==_iff u.msb u.msb).1 refl, (==_iff u.lsb u.lsb).1 refl)

-- A listener with one more pending request.
abbrev pub pending : Uuid → ℕ → ResponseListener → ResponseListener
pending id channel l = record l { pending_requests = (id, channel) ∷ l.pending_requests }

pub remove-pending :
    (id : Uuid) (channel : ℕ) (l : ResponseListener)
    → l.poisoned ≡ false
    → remove_pending_request id (pending id channel l) ≡ l
unfolding remove_pending_request
remove-pending id channel l working = if_false _ working ∙ rw (uuid_eq_refl id) refl

pub try_add_vacant :
    (id : Uuid) (channel : ℕ) (l : ResponseListener)
    → l.poisoned ≡ false
    → sender id l.pending_requests ≡ none
    → try_add_pending_request id channel l ≡ (ok tt, pending id channel l)
unfolding try_add_pending_request
try_add_vacant id channel l working vacant = if_false _ working ∙ rw vacant refl

pub try_add_poisoned :
    (id : Uuid) (channel : ℕ) (l : ResponseListener)
    → l.poisoned ≡ true
    → try_add_pending_request id channel l
      ≡ (err (ServiceInvocationError.internal "failed to add response handler"), l)
unfolding try_add_pending_request
try_add_poisoned id channel l poisoned = if_true _ poisoned

pub try_add_taken :
    (id : Uuid) (channel other : ℕ) (l : ResponseListener)
    → l.poisoned ≡ false
    → sender id l.pending_requests ≡ some other
    → try_add_pending_request id channel l
      ≡ (err (ServiceInvocationError.already_exists "RPC request with given ID already pending"), l)
unfolding try_add_pending_request
try_add_taken id channel other l working taken = if_false _ working ∙ rw taken refl

-- The message is a response to the request of this ID.
pub record IsResponseTo (id : Uuid) (m : UMessage) : Type 0 where
  pub attributes : UAttributes
  pub same : m.attributes ≡ some attributes
  pub type_ : attributes.type_ ≡ known UMessageType.response
  pub reqid : attributes.reqid ≡ some id

received_lem :
    (id : Uuid) (m : UMessage) (l : ResponseListener)
    → IsResponseTo id m
    → on_receive m l ≡ handle_response id m l
unfolding on_receive
received_lem id m l h = rw h.same (rw h.type_ (rw h.reqid refl))

delivered_pending :
    (id : Uuid) (channel : ℕ) (m : UMessage) (l : ResponseListener)
    → l.poisoned ≡ false
    → handle_response id m (pending id channel l)
      ≡ record l { delivered = (channel, m) ∷ l.delivered }
unfolding handle_response
delivered_pending id channel m l working =
    if_false _ working ∙ rw (uuid_eq_refl id) (rw (uuid_eq_refl id) refl)

ignored :
    (id : Uuid) (m : UMessage) (l : ResponseListener)
    → sender id l.pending_requests ≡ none
    → handle_response id m l ≡ l
unfolding handle_response
ignored id m l vacant = elim (Bool-cases l.poisoned) [
  | inl poisoned ↦ if_true _ poisoned
  | inr working ↦ if_false _ working ∙ rw vacant refl
]

-- Where the listener's lock is not poisoned and a request is pending whose ID was not pending
-- before, the first response to it is sent into the request's channel and ends the pending request,
-- and a second one is ignored; where the time is up before, the pending request ends, and a
-- response is then ignored.
pub on_receive-pending :
    (proto : Descriptors) (codec : Codec UStatus) (id : Uuid) (channel : ℕ) (m : UMessage)
    (l : ResponseListener)
    → IsResponseTo id m
    → l.poisoned ≡ false
    → sender id l.pending_requests ≡ none
    → (on_receive m (pending id channel l) ≡ record l { delivered = (channel, m) ∷ l.delivered })
      × (on_receive m (on_receive m (pending id channel l)) ≡ on_receive m (pending id channel l))
      × (await_response proto codec id timed_out (pending id channel l)
          ≡ (err deadline_exceeded, l))
      × (on_receive m l ≡ l)
unfolding await_response
on_receive-pending proto codec id channel m l h working vacant =
    let first =
      received_lem id m (pending id channel l) h ∙ delivered_pending id channel m l working in
    (
      first,
      ap (on_receive m) first
          ∙ received_lem id m (record l { delivered = (channel, m) ∷ l.delivered }) h
          ∙ ignored id m (record l { delivered = (channel, m) ∷ l.delivered }) vacant
          ∙ sym first,
      ap (λ x. (err deadline_exceeded, x)) (remove-pending id channel l working),
      received_lem id m l h ∙ ignored id m l vacant,
    )
