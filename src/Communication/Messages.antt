-- ===== src/Communication/Messages.antt =====
-- src/communication.rs: the messages that call options and a payload make.
use up_rust.Prelude.{
  ℕ, ◌≡◌, ◌⊎◌, inl, inr, refl, ap, sym, ◌∙◌, Option, none, some, List, ok, returns, >>=-eq-returns,
  assert-eq-returns,
}
use up_rust.Proto.{known, UPriority, UPayloadFormat, Uuid, UAttributes, UMessage, Descriptors}
use up_rust.Uuid.{Entropy}
use up_rust.Uuid
use up_rust.Builder.{UMessageBuilder, attributes_of, id_or_new, build}
use up_rust.Builder
use up_rust.Builder.Build.{stored_priority, with_priority-stored, build-IsValid, returned}
use up_rust.Validator.Laws.{IsValid}
use up_rust.Communication.{
  CallOptions, UPayload, with_optional_id, with_optional_priority, apply_common_options,
  build_message,
}

abbrev pub payload_of : Option UPayload → Option (List ℕ) → Option (List ℕ)
payload_of none default = default
payload_of (some p) default = some p.payload

abbrev pub format_of : Option UPayload → UPayloadFormat → UPayloadFormat
format_of none default = default
format_of (some p) default = p.payload_format

abbrev pub id_of : Option Uuid → Option Uuid → Option Uuid
id_of none default = default
id_of (some id) default = some id

abbrev pub priority_of : Option UPriority → UPriority → UPriority
priority_of none default = default
priority_of (some p) default = stored_priority p

-- What a builder is after the options were applied, and after the payload was set.
abbrev pub configured : UMessageBuilder → CallOptions → UMessageBuilder
configured b options = record b {
  ttl = some options.ttl;
  message_id = id_of options.message_id b.message_id;
  priority = priority_of options.priority b.priority;
}

abbrev pub filled : UMessageBuilder → Option UPayload → UMessageBuilder
filled b payload = record b {
  payload = payload_of payload b.payload;
  payload_format = format_of payload b.payload_format;
}

-- A valid message of the builder's kind, from its source to its sink, with the options' values and
-- the payload.
pub record IsMessageOf (proto : Descriptors) (b : UMessageBuilder) (options : CallOptions)
    (payload : Option UPayload) (m : UMessage) : Type 0 where
  pub attributes : UAttributes
  pub same : m.attributes ≡ some attributes
  pub same_payload : m.payload ≡ payload_of payload b.payload
  pub payload_format : attributes.payload_format ≡ known (format_of payload b.payload_format)
  pub valid : IsValid proto b.validator attributes
  pub source : attributes.source ≡ b.source
  pub sink : attributes.sink ≡ b.sink
  pub ttl : attributes.ttl ≡ some options.ttl
  pub id : (options.message_id ≡ none) ⊎ (options.message_id ≡ attributes.id)
  pub priority : attributes.priority ≡ known (priority_of options.priority b.priority)

module _ (proto : Descriptors) where
  pub id_stored :
      (o : Option Uuid) (b b' : UMessageBuilder)
      → with_optional_id proto o b ≡ returns b'
      → b' ≡ record b { message_id = id_of o b.message_id }
  unfolding Builder.with_message_id
  id_stored none b b' h = sym (returned h)
  id_stored (some id) b b' h =
      sym (returned ((assert-eq-returns (Uuid.is_uprotocol_uuid id) _ _ h).1))

  pub priority_stored :
      (o : Option UPriority) (b b' : UMessageBuilder)
      → with_optional_priority proto o b ≡ returns b'
      → b' ≡ record b { priority = priority_of o b.priority }
  priority_stored none b b' h = sym (returned h)
  priority_stored (some p) b b' h = with_priority-stored proto b b' p h

  applied :
      (options : CallOptions) (b b' : UMessageBuilder)
      → apply_common_options proto options b ≡ returns b'
      → b' ≡ configured b options
  unfolding apply_common_options Builder.with_ttl
  applied options b b' h =
      let (c, first, second) = >>=-eq-returns (with_optional_id proto options.message_id _) _ h in
      priority_stored options.priority c b' second
      ∙ ap {A = UMessageBuilder}
          (λ x. record x { priority = priority_of options.priority x.priority })
          (id_stored options.message_id _ c first)

  pub build_message-filled :
      (e : Entropy) (b : UMessageBuilder) (payload : Option UPayload)
      → build_message proto e b payload ≡ build proto e (filled b payload)
  unfolding build_message Builder.build_with_payload
  build_message-filled e b none = refl
  build_message-filled e b (some p) = refl

  given_id :
      (e : Entropy) (o d : Option Uuid) (id : Uuid)
      → id_or_new e (id_of o d) ≡ returns id
      → (o ≡ none) ⊎ (o ≡ some id)
  unfolding id_or_new
  given_id e none d id h = inl refl
  given_id e (some j) d id h = inr (ap some (returned h))

  -- A message that is built from a builder to which call options were applied, with a payload or
  -- without, is valid, goes from the builder's source to its sink, and has the options'
  -- time-to-live, message ID and priority, and the payload with its format.
  pub build_message-apply_common_options :
      (e : Entropy) (options : CallOptions) (payload : Option UPayload) (b b' : UMessageBuilder)
      (m : UMessage)
      → apply_common_options proto options b ≡ returns b'
      → build_message proto e b' payload ≡ returns (ok m)
      → IsMessageOf proto b options payload m
  build_message-apply_common_options e options payload b b' m h k =
      let final = filled (configured b options) payload in
      let built : build proto e final ≡ returns (ok m) =
        ap (λ x. build proto e (filled x payload)) (sym (applied options b b' h))
        ∙ sym (build_message-filled e b' payload)
        ∙ k in
      let (id, given, same, valid) = build-IsValid proto e final m built in
      record {
        attributes = attributes_of final id;
        same = ap (λ x. x.attributes) same;
        same_payload = ap (λ x. x.payload) same;
        payload_format = refl;
        valid = valid;
        source = refl;
        sink = refl;
        ttl = refl;
        id = given_id e options.message_id b.message_id id given;
        priority = refl;
      }
