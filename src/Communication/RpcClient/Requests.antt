-- ===== src/Communication/RpcClient/Requests.antt =====
-- src/communication/in_memory_rpc_client.rs: how a call begins, and the request that it sends.
use up_rust.Prelude.{
  ℕ, ◌≡◌, refl, ap, sym, subst, ◌∙◌, inl, inr, Option, none, some, Result, ok, err, returns,
  >>=-eq-returns, Option-cases, Bool-cases, Result-cases, true, false,
}
use up_rust.Proto.{UStatus, Uuid, UUri, UMessage, Descriptors}
use up_rust.Uuid.{Entropy}
use up_rust.Message.{UMessageError}
use up_rust.Attributes.{UAttributesError}
use up_rust.Validator.{UAttributesValidators, validate}
use up_rust.Validator.Laws.{IsValid}
use up_rust.Builder
use up_rust.Builder.{UMessageBuilder, attributes_of, id_or_new, build}
use up_rust.Builder.Build.{returned, build-IsValid}
use up_rust.Transport.{UTransport, LocalUriProvider}
use up_rust.Communication.{CallOptions, UPayload, with_optional_priority, build_message}
use up_rust.Communication.Messages.{filled, build_message-filled}
use up_rust.Communication.Errors.{ServiceInvocationError, invocation_error_from}
use up_rust.Communication.RpcClient.{
  ResponseListener, Client, remove_pending_request, sender, send_pending, send_added, send_built,
  with_optional_token, invoke_method,
}
use up_rust.Communication.RpcClient.Composing.{requesting, composed, composed_lem}
use up_rust.Communication.RpcClient.Pending.{
  pending, try_add_vacant, try_add_taken, try_add_poisoned,
}

-- The request of a builder with this ID.
abbrev pub request_of : UMessageBuilder → Uuid → UMessage
request_of b id = record { attributes = some (attributes_of b id); payload = b.payload }

-- Why a call does not hand its request over to the transport: its attributes are not valid, the
-- listener's lock is poisoned, or a request with its ID is pending.
pub data IsRefused (proto : Descriptors) (b : UMessageBuilder) (id : Uuid) (l : ResponseListener)
    : Type 0 where
  not_valid :
      (x : UAttributesError)
      → validate proto UAttributesValidators.request (attributes_of b id) ≡ err x
      → IsRefused proto b id l
  poisoned : l.poisoned ≡ true → IsRefused proto b id l
  taken : (channel : ℕ) → sender id l.pending_requests ≡ some channel → IsRefused proto b id l

-- A call with this ID waits for the response to the valid request that the transport has taken,
-- which was pending from before that.
pub record HasSent (proto : Descriptors) {S : Type 0} (transport : UTransport (Client S))
    (channel : ℕ) (b : UMessageBuilder) (id : Uuid) (l : ResponseListener) (s : S)
    (waiting : Client S) : Type 0 where
  pub valid : IsValid proto UAttributesValidators.request (attributes_of b id)
  pub working : l.poisoned ≡ false
  pub vacant : sender id l.pending_requests ≡ none
  pub sent : transport.send (request_of b id) (pending id channel l, s) ≡ (ok tt, waiting)

-- How the first part of a call ends. Where its request is handed over, it is pending while the
-- transport takes it, and `after` is what the transport leaves, with what it may have had the
-- listener do meanwhile.
pub data Begun (proto : Descriptors) {S : Type 0} (transport : UTransport (Client S)) (channel : ℕ)
    (b : UMessageBuilder) (id : Uuid) (l : ResponseListener) (s : S)
    (done : Result ServiceInvocationError Uuid × Client S) : Type 0 where
  refused :
      (e : ServiceInvocationError)
      → IsRefused proto b id l
      → done ≡ (err e, (l, s))
      → Begun proto transport channel b id l s done
  waiting :
      (after : Client S)
      → HasSent proto transport channel b id l s after
      → done ≡ (ok id, after)
      → Begun proto transport channel b id l s done
  unsent :
      (e : UStatus) (after : Client S)
      → IsValid proto UAttributesValidators.request (attributes_of b id)
      → l.poisoned ≡ false
      → sender id l.pending_requests ≡ none
      → transport.send (request_of b id) (pending id channel l, s) ≡ (err e, after)
      → done ≡ (err (invocation_error_from e), (remove_pending_request id (after.0), after.1))
      → Begun proto transport channel b id l s done

-- An error of `build` is that of the validator.
build-eq-err :
    (proto : Descriptors) (e : Entropy) (b : UMessageBuilder) (id : Uuid) (x : UMessageError)
    → id_or_new e b.message_id ≡ returns id
    → build proto e b ≡ returns (err x)
    → (y : UAttributesError) × (validate proto b.validator (attributes_of b id) ≡ err y)
unfolding build
build-eq-err proto e b id x given h =
    elim (Result-cases (validate proto b.validator (attributes_of b id))) [
      | inl (_, valid) ↦ cc (rw (given, valid) at h)
      | inr invalid ↦ invalid
    ]

module _ (proto : Descriptors) {S : Type 0} (transport : UTransport (Client S))
    (provider : LocalUriProvider) where
  -- The call's end by what the transport's call ends with.
  handed_over :
      (id : Uuid) (b : UMessageBuilder) (channel : ℕ) (l : ResponseListener) (s : S)
      (sent : Result UStatus (Unit {0}) × Client S)
      → IsValid proto UAttributesValidators.request (attributes_of b id)
      → l.poisoned ≡ false
      → sender id l.pending_requests ≡ none
      → transport.send (request_of b id) (pending id channel l, s) ≡ sent
      → Begun proto transport channel b id l s (send_pending proto transport provider id sent)
  handed_over id b channel l s (ok _, after) valid working vacant sent =
      waiting after (record { valid = valid; working = working; vacant = vacant; sent = sent }) refl
  handed_over id b channel l s (err e, after) valid working vacant sent =
      unsent e after valid working vacant sent refl

  added :
      (id : Uuid) (b : UMessageBuilder) (channel : ℕ) (l : ResponseListener) (s : S) (m : UMessage)
      → IsValid proto UAttributesValidators.request (attributes_of b id)
      → request_of b id ≡ m
      → Begun proto transport channel b id l s
          (send_built proto transport provider id channel (ok m) (l, s))
  added id b channel l s m valid is =
      let by = λ (r : Result ServiceInvocationError (Unit {0}) × ResponseListener).
        Begun proto transport channel b id l s (send_added proto transport provider id m r s) in
      elim (Bool-cases l.poisoned) [
        | inl locked ↦
            subst by (sym (try_add_poisoned id channel l locked)) (refused _ (poisoned locked) refl)
        | inr working ↦ elim (Option-cases (sender id l.pending_requests)) [
          | inl vacant ↦ subst by (sym (try_add_vacant id channel l working vacant)) (
              handed_over id b channel l s (transport.send m (pending id channel l, s)) valid
                working vacant (ap (λ n. transport.send n (pending id channel l, s)) is))
          | inr (other, there) ↦
              subst by (sym (try_add_taken id channel other l working there))
                (refused _ (taken other there) refl)
        ]
      ]

  begun :
      (e : Entropy) (id : Uuid) (b : UMessageBuilder) (channel : ℕ) (l : ResponseListener) (s : S)
      (r : Result UMessageError UMessage)
      → b.message_id ≡ some id
      → b.validator ≡ UAttributesValidators.request
      → build proto e b ≡ returns r
      → Begun proto transport channel b id l s
          (send_built proto transport provider id channel r (l, s))
  unfolding id_or_new
  begun e id b channel l s (err x) given kind built =
      let (y, invalid) = build-eq-err proto e b id x (rw given refl) built in
      refused _ (not_valid y (rw kind at invalid)) refl
  begun e id b channel l s (ok m) given kind built =
      let (j, identified, is, valid) = build-IsValid proto e b m built in
      let same_id : j ≡ id = sym (returned (rw given at identified)) in
      added id b channel l s m
        (subst (λ v. IsValid proto v (attributes_of b id)) kind
          (subst (λ k. IsValid proto b.validator (attributes_of b k)) same_id valid))
        (sym (is ∙ ap {A = Uuid} (λ k. request_of b k) same_id))

  -- A call that does not panic has the ID of its options or a new one. If its request is valid, the
  -- listener's lock is not poisoned and no request with the ID is pending, it adds the pending
  -- request and then sends the request that the options and the payload make: the call waits if
  -- the transport returns no error, and what is pending then is what the transport left, be it
  -- that the response was received meanwhile or not; if the transport returns an error, the
  -- call removes the pending request and returns that error. Otherwise it fails, and nothing was
  -- sent or added.
  pub invoke_method-Begun :
      (e : Entropy) (method : UUri) (options : CallOptions) (payload : Option UPayload)
      (channel : ℕ) (l : ResponseListener) (s : S)
      (done : Result ServiceInvocationError Uuid × Client S)
      → invoke_method proto transport provider e method options payload channel (l, s)
        ≡ returns done
      → (id : Uuid) × (id_or_new e options.message_id ≡ returns id)
        × Begun proto transport channel
            (requesting method provider.source_uri options id payload)
            id
            l
            s
            done
  unfolding invoke_method Builder.request
  invoke_method-Begun e method options payload channel l s done h =
      let b = Builder.request method provider.source_uri options.ttl in
      let (i, given, h1) = >>=-eq-returns (id_or_new e options.message_id) _ h in
      let (c, identified, h2) = >>=-eq-returns (Builder.with_message_id i b) _ h1 in
      let (d, authorized, h3) =
        >>=-eq-returns (with_optional_token proto transport provider options.token c) _ h2 in
      let (f, prioritized, h4) =
        >>=-eq-returns (with_optional_priority proto options.priority d) _ h3 in
      let (r, built, h5) = >>=-eq-returns (build_message proto e f payload) _ h4 in
      let final = filled (composed b options i) payload in
      (
        i,
        given,
        subst (Begun proto transport channel final i l s) (returned h5) (
            begun e i final channel l s r refl refl (
              sym (build_message-filled proto e (composed b options i) payload)
              ∙ subst (λ x. build_message proto e x payload ≡ returns r)
                  (composed_lem proto transport provider options i b c d f identified authorized
                    prioritized)
                  built)),
      )

  -- A call that waits has sent a valid request to the method, under the call's ID, with the
  -- options' time-to-live, token and priority and with the payload.
  pub invoke_method-HasSent :
      (e : Entropy) (method : UUri) (options : CallOptions) (payload : Option UPayload)
      (channel : ℕ) (l : ResponseListener) (s : S) (id : Uuid) (after : Client S)
      → invoke_method proto transport provider e method options payload channel (l, s)
        ≡ returns (ok id, after)
      → HasSent proto transport channel
          (requesting method provider.source_uri options id payload)
          id
          l
          s
          after
  invoke_method-HasSent e method options payload channel l s id after h =
      let (i, _, ended) =
        invoke_method-Begun e method options payload channel l s (ok id, after) h in
      elim ended [
        | refused x _ is ↦ cc
        | unsent x _ _ _ _ _ is ↦ cc
        | waiting left has_sent is ↦
            let same_id : i ≡ id = cc in
            let same : left ≡ after = sym (ap (λ d. d.1) is) in
            subst
              (λ k.
                HasSent proto transport channel
                  (requesting method provider.source_uri options k payload) k l s after)
              same_id
              (subst
                (HasSent proto transport channel
                  (requesting method provider.source_uri options i payload) i l s)
                same has_sent)
      ]
