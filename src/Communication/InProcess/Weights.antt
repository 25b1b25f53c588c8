-- ===== src/Communication/InProcess/Weights.antt =====
-- src/local_transport.rs with src/communication/in_memory_rpc_server.rs: how many deliveries a
-- message can still cause.
use up_rust.Prelude.{
  ℕ, ◌+◌, ◌*◌, ◌≤◌, ◌≡◌, refl, ap, Bool, true, false, Option, none, some, List, [], ◌∷◌, ◌++◌,
  length, ok, err, Bool-cases, inl, inr, arith, if◌then◌else◌,
}
use up_rust.Proto.{UStatus, UAttributes, UMessage, Descriptors}
use up_rust.Uuid.{Entropy}
use up_rust.Attributes.{UAttributesError}
use up_rust.Validator.{UAttributesValidators, Check, validate, message_type}
use up_rust.Validator.Laws.{IsValid, validate_iff}
use up_rust.Message.Extraction.{Codec}
use up_rust.LocalTransport.{RegisteredListener, matches_msg, dispatch_to}
use up_rust.Communication.RpcServer.Answering.{CanWrite}
use up_rust.Communication.RpcServer.Rejecting.{Rejects}

abbrev is_ok : Check → Bool
is_ok (ok _) = true
is_ok (err _) = false

is_ok_lem : (c : Check) → is_ok c ≡ true → c ≡ ok tt
is_ok_lem (ok tt) h = refl
is_ok_lem (err e) h = cc

pub false_unless : (b : Bool) → (b ≡ true → ⊥) → b ≡ false
false_unless true h = absurd (h refl)
false_unless false h = refl

module _ (proto : Descriptors) where
  -- No server sends anything when it receives the message.
  abbrev pub is_final : Option UAttributes → Bool
  is_final none = true
  is_final (some a) = is_ok (validate proto UAttributesValidators.response a)

  -- How many deliveries the message can still cause, itself included, in a transport of `size`
  -- registrations.
  abbrev pub weight : ℕ → UMessage → ℕ
  weight size m = if is_final m.attributes then 1 else size + 1

  abbrev pub total : ℕ → List (ℕ × UMessage) → ℕ
  total size [] = 0
  total size ((k, m) ∷ rest) = weight size m + total size rest

  pub total-append :
      (size : ℕ) (xs ys : List (ℕ × UMessage))
      → total size (xs ++ ys) ≡ total size xs + total size ys
  total-append size [] ys = omega arith
  total-append size ((k, m) ∷ xs) ys = omega (arith, total-append size xs ys)

  pub weight_bounds : (size : ℕ) (m : UMessage) → (1 ≤ weight size m) × (weight size m ≤ size + 1)
  weight_bounds size m = elim (Bool-cases (is_final m.attributes)) [
    | inl final ↦ rw final (omega arith, omega arith)
    | inr more ↦ rw more (omega arith, omega arith)
  ]

  pub total_bound : (size : ℕ) (xs : List (ℕ × UMessage)) → total size xs ≤ length xs * (size + 1)
  total_bound size [] = omega arith
  total_bound size ((k, m) ∷ xs) =
      let one = (weight_bounds size m).1 in
      let rest = total_bound size xs in omega (arith, one, rest)

  pub total-dispatch_to :
      (size : ℕ) (m : UMessage) (rs : List RegisteredListener)
      → is_final m.attributes ≡ true
      → total size (dispatch_to rs m) ≤ length rs
  unfolding dispatch_to
  total-dispatch_to size m [] h = omega arith
  total-dispatch_to size m (r ∷ rs) h =
      let rest = total-dispatch_to size m rs h in
      elim (Bool-cases (matches_msg r m)) [
        | inl matched ↦ rw (matched, h) (omega arith)
        | inr missed ↦ rw missed (omega arith)
      ]

  pub valid_is_final :
      (o : Option UAttributes) (a : UAttributes)
      → o ≡ some a
      → IsValid proto UAttributesValidators.response a
      → is_final o ≡ true
  valid_is_final o a same valid =
      rw (same, (validate_iff proto UAttributesValidators.response a).1 valid) refl

  -- A response is no request, and its source is no address for a response.
  pub final_no_request :
      (a : UAttributes)
      → is_final (some a) ≡ true
      → (validate proto UAttributesValidators.request a ≡ ok tt)
      → ⊥
  unfolding message_type
  final_no_request a final request =
      let response = (validate_iff proto UAttributesValidators.response a).0 (is_ok_lem _ final) in
      cc (response.type_, ((validate_iff proto UAttributesValidators.request a).0 request).type_)

  pub final_unanswered :
      (codec : Codec UStatus) (write : CanWrite codec) (e : Entropy) (a : UAttributes)
      (x : UAttributesError) (m : UMessage)
      → is_final (some a) ≡ true
      → Rejects proto codec write e a x m
      → ⊥
  final_unanswered codec write e a x m final h =
      let response = (validate_iff proto UAttributesValidators.response a).0 (is_ok_lem _ final) in
      let (method, from, (positive, _, _)) = response.source in
      let (address, to, (reply, _)) = h.valid.sink in
      let same : method ≡ address = cc (from, to, h.sink) in
      omega (arith, ap (λ u. u.resource_id) same)
