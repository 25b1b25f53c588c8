-- ===== src/CloudEvents/Totality.antt =====
-- src/cloudevents.rs: which messages become events, and what events become messages.
use up_rust.Prelude.Optional
use up_rust.Prelude.Fallible
use up_rust.Prelude.Int.{pos}
use up_rust.Prelude.{
  String, ℕ, ◌^◌, ◌<◌, ◌≡◌, refl, ap, ◌↔◌, true, Option, none, some, List, [], ok, IsOk, IsOk->>=,
  >>=-eq-ok, map_err, arith, Bool-cases, inl, inr, ltb_iff, str_eq, eq_iff, sym, map_err-eq-ok,
}
use up_rust.Proto.{
  UPayloadFormat, UMessageType, UPriority, Uuid, UUri, UAttributes, UMessage, Descriptors,
}
use up_rust.Uuid.{UuidText}
use up_rust.Uri.Parsing.{UriParser}
use up_rust.Message
use up_rust.Message.{UMessageError, attributes_validation_error, known_value, or_cs1}
use up_rust.Validator.{validate, get_validator_for_attributes}
use up_rust.Validator.Laws.{IsValid, validate_iff}
use up_rust.CloudEvents.{
  payload_of, required, to_event, from_event, assemble, when_ok, set_payload, set_text, lift,
  set_optional_payload, from_utf8, is_utf8, format_or_default, attributes_of, spec_version,
}
use up_rust.CloudEvents.Event.{
  CloudEvent, text_data, ce_integer, insert, EnumNumbers, set_ttl, set_permission_level,
  insert_integer, set_payload_format,
}
use up_rust.CloudEvents.Extensions.{ok_injective}
use up_rust.CloudEvents.Normal.{Each}

abbrev pub IsSome : {A : Type 0} → Option A → Type 0
IsSome {A} o = (a : A) × (o ≡ some a)

-- A payload that is sent as text is UTF-8.
abbrev pub IsTextFor : UPayloadFormat → List ℕ → Type 0
IsTextFor UPayloadFormat.text payload = is_utf8 [] payload ≡ true
IsTextFor UPayloadFormat.json payload = is_utf8 [] payload ≡ true
IsTextFor _ payload = Unit

-- The message has what an event needs, its numbers fit into an i32, and its text is UTF-8.
pub record IsConvertible (a : UAttributes) (payload : Option (List ℕ)) : Type 0 where
  pub id : IsSome a.id
  pub type_ : IsSome (known_value a.type_)
  pub source : IsSome a.source
  pub priority : IsSome (known_value a.priority)
  pub ttl : Each (λ n. n < 2 ^ 31) a.ttl
  pub level : Each (λ n. n < 2 ^ 31) a.permission_level
  pub text : Each (IsTextFor (format_or_default (known_value a.payload_format))) payload

required-IsOk :
    {A : Type 0} (o : Option A) (message : String) → IsOk (required o message) ↔ IsSome o
required-IsOk none message = (λ h. cc (h.1), λ h. cc (h.1))
required-IsOk (some a) message = (λ h. (a, refl), λ h. (a, refl))

integer_IsOk :
    (name : String) (n : ℕ) (e : CloudEvent)
    → IsOk (map_err attributes_validation_error (insert_integer name n e)) ↔ (n < 2 ^ 31)
integer_IsOk name n e = (
  λ h. ground arith,
  λ h. (insert name (ce_integer (pos n)) e, rw ((ltb_iff n (2 ^ 31)).1 h) refl),
)

ttl_IsOk : (o : Option ℕ) (e : CloudEvent) → IsOk (when_ok o set_ttl e) ↔ Each (λ n. n < 2 ^ 31) o
unfolding set_ttl
ttl_IsOk none e = (λ h. tt, λ h. (e, refl))
ttl_IsOk (some n) e = integer_IsOk "ttl" n e

level_IsOk :
    (o : Option ℕ) (e : CloudEvent)
    → IsOk (when_ok o set_permission_level e) ↔ Each (λ n. n < 2 ^ 31) o
unfolding set_permission_level
level_IsOk none e = (λ h. tt, λ h. (e, refl))
level_IsOk (some n) e = integer_IsOk "plevel" n e

text_IsOk :
    (payload : List ℕ) (e : CloudEvent)
    → IsOk (set_text (from_utf8 payload) e) ↔ (is_utf8 [] payload ≡ true)
unfolding from_utf8
text_IsOk payload e =
    (λ h. ground arith, λ h. (record e { event_data = some (text_data payload) }, rw h refl))

payload_IsOk :
    (f : UPayloadFormat) (payload : List ℕ) (e : CloudEvent)
    → IsOk (set_payload f payload e) ↔ IsTextFor f payload
unfolding set_payload from_utf8
payload_IsOk UPayloadFormat.text payload e = text_IsOk payload e
payload_IsOk UPayloadFormat.json payload e = text_IsOk payload e
payload_IsOk UPayloadFormat.protobuf payload e = (λ h. tt, λ h. (_, refl))
payload_IsOk UPayloadFormat.protobuf_wrapped_in_any payload e = (λ h. tt, λ h. (_, refl))
payload_IsOk _ payload e = (λ h. tt, λ h. (_, refl))

defaulted_IsSome :
    (o : Option UPriority) → IsSome (Optional.◌>>=◌ o (λ p. some (or_cs1 p))) ↔ IsSome o
defaulted_IsSome none = (λ (p, e). cc, λ (p, e). cc)
defaulted_IsSome (some q) = (λ h. (q, refl), λ h. (or_cs1 q, refl))

checked_IsValid :
    (proto : Descriptors) (a : UAttributes) (payload : Option (List ℕ)) (m : UMessage)
    → Fallible.◌>>◌
        (lift (validate proto (get_validator_for_attributes a) a))
        (ok (record { attributes = some a; payload = payload }))
      ≡ ok m
    → (m.attributes ≡ some a)
      × (m.payload ≡ payload)
      × IsValid proto (get_validator_for_attributes a) a
checked_IsValid proto a payload m h =
    let (u, checked, last) =
      >>=-eq-ok (lift (validate proto (get_validator_for_attributes a) a)) _ h in
    (
      ap (λ m. m.attributes) (sym (ok_injective last)),
      ap (λ m. m.payload) (sym (ok_injective last)),
      (validate_iff proto (get_validator_for_attributes a) a).0
          (map_err-eq-ok attributes_validation_error _ checked),
    )

module _ (simd : UuidText) (parser : UriParser) (proto : Descriptors) (numbers : EnumNumbers) where
  optional_payload_IsOk :
      (o : Option (List ℕ)) (f : UPayloadFormat) (e : CloudEvent)
      → IsOk (set_optional_payload simd parser proto numbers o f e) ↔ Each (IsTextFor f) o
  optional_payload_IsOk none f e = (λ h. tt, λ h. (e, refl))
  optional_payload_IsOk (some payload) f e = payload_IsOk f payload (set_payload_format numbers f e)

  assemble_IsOk :
      (a : UAttributes) (payload : Option (List ℕ)) (id : Uuid) (t : UMessageType) (u : UUri)
      (p : UPriority)
      → IsOk (
          assemble simd parser proto numbers id t u p
            (record { attributes = some a; payload = payload }))
        ↔ (Each (λ n. n < 2 ^ 31) a.ttl
            × Each (λ n. n < 2 ^ 31) a.permission_level
            × Each (IsTextFor (format_or_default (known_value a.payload_format))) payload)
  unfolding assemble Message.ttl Message.permission_level Message.payload_format
  assemble_IsOk a payload id t u p = (
    λ (e, h).
        let (e3, timed, rest) = >>=-eq-ok (when_ok a.ttl set_ttl _) _ h in
        let (e5, levelled, last) =
          >>=-eq-ok (when_ok a.permission_level set_permission_level _) _ rest in
        (
          (ttl_IsOk a.ttl _).0 (e3, timed),
          (level_IsOk a.permission_level _).0 (e5, levelled),
          (optional_payload_IsOk payload _ _).0 (e, last),
        ),
    λ (ttl, level, text). IsOk->>= (when_ok a.ttl set_ttl _) _ ((ttl_IsOk a.ttl _).1 ttl) λ e3.
        IsOk->>= (when_ok a.permission_level set_permission_level _) _
          ((level_IsOk a.permission_level _).1 level)
          λ e5. (optional_payload_IsOk payload _ _).1 text,
  )

  priority_IsSome :
      (a : UAttributes) (payload : Option (List ℕ))
      → IsSome (Message.priority (record { attributes = some a; payload = payload }))
        ↔ IsSome (known_value a.priority)
  unfolding Message.priority
  priority_IsSome a payload = defaulted_IsSome (known_value a.priority)

  -- A message becomes an event exactly if it has an ID, a known type, a source and a known
  -- priority, its time-to-live and its permission level fit into an i32, and a payload that is sent
  -- as text is UTF-8.
  pub to_event-IsOk_iff :
      (a : UAttributes) (payload : Option (List ℕ))
      → IsOk
          (to_event simd parser proto numbers (record { attributes = some a; payload = payload }))
        ↔ IsConvertible a payload
  unfolding to_event Message.id Message.type_ Message.source Message.priority
  to_event-IsOk_iff a payload = (
    λ (e, h).
        let (id, h1, r1) = >>=-eq-ok (required a.id _) _ h in
        let (t, h2, r2) = >>=-eq-ok (required (known_value a.type_) _) _ r1 in
        let (u, h3, r3) = >>=-eq-ok (required a.source _) _ r2 in
        let (p, h4, r4) =
          >>=-eq-ok
            (required (Message.priority (record { attributes = some a; payload = payload }))
              "message has unsupported priority")
            _ r3 in
        let (ttl, level, text) = (assemble_IsOk a payload id t u p).0 (e, r4) in
        record {
          id = (required-IsOk _ _).0 (id, h1);
          type_ = (required-IsOk _ _).0 (t, h2);
          source = (required-IsOk _ _).0 (u, h3);
          priority = (priority_IsSome a payload).0 ((required-IsOk _ _).0 (p, h4));
          ttl = ttl;
          level = level;
          text = text;
        },
    λ c. IsOk->>= (required a.id _) _ ((required-IsOk _ _).1 c.id) λ id.
        IsOk->>= (required (known_value a.type_) _) _ ((required-IsOk _ _).1 c.type_) λ t.
          IsOk->>= (required a.source _) _ ((required-IsOk _ _).1 c.source) λ u.
            IsOk->>=
              (required (Message.priority (record { attributes = some a; payload = payload }))
                "message has unsupported priority")
              _ ((required-IsOk _ _).1 ((priority_IsSome a payload).1 c.priority))
              λ p. (assemble_IsOk a payload id t u p).1 (c.ttl, c.level, c.text),
  )

  -- A message that an event of the version 1.0 becomes has the bytes of the event's data, if there
  -- are any, as its payload, and attributes that are valid by the validator of their type; an event
  -- of another version becomes no message.
  pub from_event-IsValid :
      (e : CloudEvent) (m : UMessage)
      → from_event simd parser proto numbers e ≡ ok m
      → (a : UAttributes) × (m.attributes ≡ some a)
        × (e.spec_version ≡ spec_version)
        × (m.payload ≡ payload_of e.event_data)
        × IsValid proto (get_validator_for_attributes a) a
  unfolding from_event
  from_event-IsValid e m h = elim (Bool-cases (str_eq spec_version e.spec_version)) [
    | inl same ↦
        let (a, read, rest) =
          >>=-eq-ok (attributes_of simd parser proto numbers e) _ (rw same at h) in
        let (is, is_payload, valid) = checked_IsValid proto a (payload_of e.event_data) m rest in
        (a, is, sym ((eq_iff spec_version e.spec_version).0 same), is_payload, valid)
    | inr other ↦ cc (rw other at h)
  ]
