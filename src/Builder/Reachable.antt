-- ===== src/Builder/Reachable.antt =====
-- src/umessage/umessagebuilder.rs: the builders that a chain of calls reaches from one of the five
-- constructors, and what all of them have in common.
use up_rust.Prelude.{
  ℕ, ◌≡◌, refl, sym, String, Option, none, some, List, returns, true, assert-eq-returns, ◌⊎◌, inl,
  inr, subst,
}
use up_rust.Proto.{
  EnumOrUnknown, UMessageType, UPriority, UPayloadFormat, UCode, Uuid, UUri, UAttributes,
  Descriptors, type_eq_iff,
}
use up_rust.Uuid
use up_rust.Validator.{UAttributesValidators, message_type}
use up_rust.Builder.{
  UMessageBuilder, publish, notification, request, response, response_for_request, with_message_id,
  with_ttl, with_token, with_permission_level, with_comm_status, with_traceparent, with_priority,
  is_type,
}
use up_rust.Builder.Build.{with_priority-stored, returned}

module _ (proto : Descriptors) where
  pub data Reachable : UMessageBuilder → Type 0 where
    publish_call : (topic : UUri) → Reachable (publish topic)
    notification_call : (origin destination : UUri) → Reachable (notification origin destination)
    request_call : (method reply_to : UUri) (ttl : ℕ) → Reachable (request method reply_to ttl)
    response_call :
        (reply_to : UUri) (request_id : Uuid) (method : UUri)
        → Reachable (response reply_to request_id method)
    response_for_request_call : (a : UAttributes) → Reachable (response_for_request a)
    message_id_call :
        {b b' : UMessageBuilder} (id : Uuid)
        → Reachable b
        → with_message_id id b ≡ returns b'
        → Reachable b'
    priority_call :
        {b b' : UMessageBuilder} (p : UPriority)
        → Reachable b
        → with_priority proto p b ≡ returns b'
        → Reachable b'
    ttl_call : {b : UMessageBuilder} (ttl : ℕ) → Reachable b → Reachable (with_ttl ttl b)
    token_call :
        {b b' : UMessageBuilder} (token : String)
        → Reachable b
        → with_token token b ≡ returns b'
        → Reachable b'
    permission_level_call :
        {b b' : UMessageBuilder} (level : ℕ)
        → Reachable b
        → with_permission_level level b ≡ returns b'
        → Reachable b'
    comm_status_call :
        {b b' : UMessageBuilder} (code : UCode)
        → Reachable b
        → with_comm_status code b ≡ returns b'
        → Reachable b'
    traceparent_call :
        {b : UMessageBuilder} (traceparent : String)
        → Reachable b
        → Reachable (with_traceparent traceparent b)
    payload_call :
        {b : UMessageBuilder} (payload : List ℕ) (format : UPayloadFormat)
        → Reachable b
        → Reachable (record b { payload = some payload; payload_format = format })

-- The type is the validator's, an ID that is set is a uProtocol UUID, and only requests
-- carry tokens and permission levels, and only responses a communication status.
pub record AreConsistent (type_ : UMessageType) (v : UAttributesValidators) (id : Option Uuid)
    (token : Option String) (level : Option ℕ) (status : Option (EnumOrUnknown UCode))
    : Type 0 where
  pub of_validator : type_ ≡ message_type v
  pub valid_id : (id ≡ none) ⊎ ((i : Uuid) × (id ≡ some i) × (Uuid.is_uprotocol_uuid i ≡ true))
  pub request_token : (token ≡ none) ⊎ (type_ ≡ UMessageType.request)
  pub request_level : (level ≡ none) ⊎ (type_ ≡ UMessageType.request)
  pub response_status : (status ≡ none) ⊎ (type_ ≡ UMessageType.response)

abbrev pub IsConsistent : UMessageBuilder → Type 0
IsConsistent b =
    AreConsistent b.message_type b.validator b.message_id b.token b.permission_level b.comm_status

-- Fields that are left out are consistent with every type.
fresh :
    (type_ : UMessageType) (v : UAttributesValidators)
    → type_ ≡ message_type v
    → AreConsistent type_ v none none none none
fresh type_ v e = record {
  of_validator = e;
  valid_id = inl refl;
  request_token = inl refl;
  request_level = inl refl;
  response_status = inl refl;
}

module _ (b b' : UMessageBuilder) (h : IsConsistent b) where
  message_id_keeps : (id : Uuid) → with_message_id id b ≡ returns b' → IsConsistent b'
  unfolding with_message_id
  message_id_keeps id e =
      let (valid, kept) = assert-eq-returns (Uuid.is_uprotocol_uuid id) _ _ e in
      subst IsConsistent (returned kept) (record {
        of_validator = h.of_validator;
        valid_id = inr (id, refl, valid);
        request_token = h.request_token;
        request_level = h.request_level;
        response_status = h.response_status;
      })

  with_request_fields :
      (token : Option String) (level : Option ℕ)
      → is_type UMessageType.request b ≡ true
      → IsConsistent (record b { token = token; permission_level = level })
  with_request_fields token level allowed = record {
    of_validator = h.of_validator;
    valid_id = h.valid_id;
    request_token = inr ((type_eq_iff _ _).0 allowed);
    request_level = inr ((type_eq_iff _ _).0 allowed);
    response_status = h.response_status;
  }

  token_keeps : (token : String) → with_token token b ≡ returns b' → IsConsistent b'
  unfolding with_token
  token_keeps token e =
      let (allowed, kept) = assert-eq-returns (is_type UMessageType.request b) _ _ e in
      subst IsConsistent (returned kept)
        (with_request_fields (some token) b.permission_level allowed)

  level_keeps : (level : ℕ) → with_permission_level level b ≡ returns b' → IsConsistent b'
  unfolding with_permission_level
  level_keeps level e =
      let (allowed, kept) = assert-eq-returns (is_type UMessageType.request b) _ _ e in
      subst IsConsistent (returned kept) (with_request_fields b.token (some level) allowed)

  status_keeps : (code : UCode) → with_comm_status code b ≡ returns b' → IsConsistent b'
  unfolding with_comm_status
  status_keeps code e =
      let (allowed, kept) = assert-eq-returns (is_type UMessageType.response b) _ _ e in
      subst IsConsistent (returned kept) (record {
        of_validator = h.of_validator;
        valid_id = h.valid_id;
        request_token = h.request_token;
        request_level = h.request_level;
        response_status = inr ((type_eq_iff _ _).0 allowed);
      })

-- In every builder that a chain of returning calls reaches from one of the five constructors, the
-- message type is the validator's, an ID that is set is a uProtocol UUID, a token or a permission
-- level is set only for a request, and a communication status only for a response.
pub Reachable-IsConsistent :
    (proto : Descriptors) (b : UMessageBuilder) → Reachable proto b → IsConsistent b
unfolding publish notification request response response_for_request with_ttl with_traceparent
    message_type
Reachable-IsConsistent proto _ (publish_call topic) = fresh _ _ refl
Reachable-IsConsistent proto _ (notification_call origin destination) = fresh _ _ refl
Reachable-IsConsistent proto _ (request_call method reply_to ttl) = fresh _ _ refl
Reachable-IsConsistent proto _ (response_call reply_to request_id method) = fresh _ _ refl
Reachable-IsConsistent proto _ (response_for_request_call a) = fresh _ _ refl
Reachable-IsConsistent proto _ (message_id_call {b} {b'} id r e) =
    message_id_keeps b b' (Reachable-IsConsistent proto b r) id e
Reachable-IsConsistent proto _ (priority_call {b} {b'} p r e) =
    subst IsConsistent (sym (with_priority-stored proto b b' p e))
      (Reachable-IsConsistent proto b r)
Reachable-IsConsistent proto _ (ttl_call {b} ttl r) = Reachable-IsConsistent proto b r
Reachable-IsConsistent proto _ (token_call {b} {b'} token r e) =
    token_keeps b b' (Reachable-IsConsistent proto b r) token e
Reachable-IsConsistent proto _ (permission_level_call {b} {b'} level r e) =
    level_keeps b b' (Reachable-IsConsistent proto b r) level e
Reachable-IsConsistent proto _ (comm_status_call {b} {b'} code r e) =
    status_keeps b b' (Reachable-IsConsistent proto b r) code e
Reachable-IsConsistent proto _ (traceparent_call {b} traceparent r) =
    Reachable-IsConsistent proto b r
Reachable-IsConsistent proto _ (payload_call {b} payload format r) =
    Reachable-IsConsistent proto b r
