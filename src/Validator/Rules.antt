-- ===== src/Validator/Rules.antt =====
-- src/uattributes/uattributesvalidator.rs: the rule that each single check stands for.
use up_rust.Prelude.{
  ◌≤◌, ◌<◌, ◌≡◌, ◌≢◌, refl, ◌↔◌, ◌⊎◌, inl, inr, Option, none, some, Result, ok, err, true, String,
  arith, subst, sym,
}
use up_rust.Proto.{
  EnumOrUnknown, known, unknown, UMessageType, UPriority, UCode, Uuid, UUri, UAttributes,
  Descriptors, type_eq_iff,
}
use up_rust.Uuid
use up_rust.Uri
use up_rust.Uri.{
  verify_no_wildcards, verify_rpc_method, verify_rpc_response, is_rpc_response,
  is_notification_destination,
}
use up_rust.Uri.Checks.{
  IsConcrete, IsMethod, IsReplyAddress, IsTopic, verify_no_wildcards_iff, verify_rpc_method_iff,
  verify_rpc_response_iff, verify_event_iff,
}
use up_rust.Validator.{
  UAttributesValidators, publish, notification, request, response, message_type, validate_type,
  validate_id, validate_source, validate_sink, validate_ttl, validate_reqid, validate_commstatus,
  validate_rpc_priority, uri_check, Check, publish_source, notification_source, notification_sink,
  request_source, request_sink, response_source, response_sink, is_valid_id, known_code,
  matching_type,
}

-- The property is there, and satisfies `P`.
abbrev pub Has : {A : Type 0} → (A → Type 0) → Option A → Type 0
Has {A} P o = (a : A) × (o ≡ some a) × P a

abbrev pub IsUuid : Uuid → Type 0
IsUuid id = Uuid.is_uprotocol_uuid id ≡ true

-- The origin of a notification: any concrete URI but a place for responses.
abbrev pub IsOrigin : UUri → Type 0
IsOrigin u = (u.resource_id ≢ 0) × IsConcrete u

abbrev pub SourceRule : UAttributesValidators → Option UUri → Type 0
SourceRule publish o = Has IsTopic o
SourceRule notification o = Has IsOrigin o
SourceRule request o = Has IsReplyAddress o
SourceRule response o = Has IsMethod o

abbrev pub SinkRule : UAttributesValidators → Option UUri → Type 0
SinkRule publish o = o ≡ none
SinkRule notification o = Has IsReplyAddress o
SinkRule request o = Has IsMethod o
SinkRule response o = Has IsReplyAddress o

uri_check_iff :
    (s : String) (r : Result Uri.UUriError (Unit {0})) → (uri_check s r ≡ ok tt) ↔ (r ≡ ok tt)
uri_check_iff s (ok tt) = (λ h. refl, λ h. refl)
uri_check_iff s (err e) = (λ h. cc, λ h. cc)

-- A check of the URI in an optional property.
module _ (P : UUri → Type 0) (check : Option UUri → Check) (none_fails : check none ≢ ok tt)
    (each : (u : UUri) → (check (some u) ≡ ok tt) ↔ P u) where
  Has_iff : (o : Option UUri) → (check o ≡ ok tt) ↔ Has P o
  Has_iff none = (λ h. absurd (none_fails h), λ h. cc (h.1))
  Has_iff (some u) = (
    λ h. (u, refl, (each u).0 h),
    λ (v, same, p). subst (λ o. check o ≡ ok tt) (sym same) ((each v).1 p),
  )

IsTopic-iff : (u : UUri) → (publish_source (some u) ≡ ok tt) ↔ IsTopic u
IsTopic-iff u = (
  λ h. (verify_event_iff u).0 ((uri_check_iff _ _).0 h),
  λ h. (uri_check_iff _ _).1 ((verify_event_iff u).1 h),
)

IsOrigin-iff : (u : UUri) → (notification_source (some u) ≡ ok tt) ↔ IsOrigin u
unfolding is_rpc_response
IsOrigin-iff u = (
  λ h. ground (
    arith,
    uri_check_iff "Invalid source URI: " (verify_no_wildcards u),
    verify_no_wildcards_iff u,
  ),
  λ h. ground (
    arith,
    uri_check_iff "Invalid source URI: " (verify_no_wildcards u),
    verify_no_wildcards_iff u,
  ),
)

destination_iff : (u : UUri) → (notification_sink (some u) ≡ ok tt) ↔ IsReplyAddress u
unfolding is_notification_destination
destination_iff u = (
  λ h. ground (
    arith,
    uri_check_iff "Invalid sink URI: " (verify_no_wildcards u),
    verify_no_wildcards_iff u,
  ),
  λ h. ground (
    arith,
    uri_check_iff "Invalid sink URI: " (verify_no_wildcards u),
    verify_no_wildcards_iff u,
  ),
)

reply_iff :
    (s : String) (u : UUri) → (uri_check s (verify_rpc_response u) ≡ ok tt) ↔ IsReplyAddress u
reply_iff s u = (
  λ h. (verify_rpc_response_iff u).0 ((uri_check_iff _ _).0 h),
  λ h. (uri_check_iff _ _).1 ((verify_rpc_response_iff u).1 h),
)

IsMethod-iff : (s : String) (u : UUri) → (uri_check s (verify_rpc_method u) ≡ ok tt) ↔ IsMethod u
IsMethod-iff s u = (
  λ h. (verify_rpc_method_iff u).0 ((uri_check_iff _ _).0 h),
  λ h. (uri_check_iff _ _).1 ((verify_rpc_method_iff u).1 h),
)

pub validate_source_iff :
    (v : UAttributesValidators) (a : UAttributes)
    → (validate_source v a ≡ ok tt) ↔ SourceRule v a.source
unfolding validate_source
validate_source_iff publish a = Has_iff IsTopic publish_source (λ h. cc) IsTopic-iff a.source
validate_source_iff notification a =
    Has_iff IsOrigin notification_source (λ h. cc) IsOrigin-iff a.source
validate_source_iff request a =
    Has_iff IsReplyAddress request_source (λ h. cc) (reply_iff _) a.source
validate_source_iff response a =
    Has_iff IsMethod response_source (λ h. cc) (IsMethod-iff _) a.source

pub validate_sink_iff :
    (v : UAttributesValidators) (a : UAttributes) → (validate_sink v a ≡ ok tt) ↔ SinkRule v a.sink
unfolding validate_sink
validate_sink_iff publish a = (λ h. ground arith, λ h. ground arith)
validate_sink_iff notification a =
    Has_iff IsReplyAddress notification_sink (λ h. cc) destination_iff a.sink
validate_sink_iff request a = Has_iff IsMethod request_sink (λ h. cc) (IsMethod-iff _) a.sink
validate_sink_iff response a = Has_iff IsReplyAddress response_sink (λ h. cc) (reply_iff _) a.sink

valid_id_iff : (o : Option Uuid) → (is_valid_id o ≡ true) ↔ Has IsUuid o
valid_id_iff none = (λ h. cc, λ h. cc (h.1))
valid_id_iff (some id) =
    (λ h. (id, refl, h), λ (v, same, p). subst (λ o. is_valid_id o ≡ true) (sym same) p)

pub validate_id_iff : (a : UAttributes) → (validate_id a ≡ ok tt) ↔ Has IsUuid a.id
unfolding validate_id
validate_id_iff a =
    (λ h. (valid_id_iff a.id).0 (ground arith), λ h. rw ((valid_id_iff a.id).1 h) refl)

pub validate_reqid_iff : (a : UAttributes) → (validate_reqid a ≡ ok tt) ↔ Has IsUuid a.reqid
unfolding validate_reqid
validate_reqid_iff a =
    (λ h. (valid_id_iff a.reqid).0 (ground arith), λ h. rw ((valid_id_iff a.reqid).1 h) refl)

pub validate_ttl_iff : (a : UAttributes) → (validate_ttl a ≡ ok tt) ↔ Has (λ ttl. 0 < ttl) a.ttl
unfolding validate_ttl
validate_ttl_iff a = (λ h. ground arith, λ (ttl, has, pos). rw has (ground arith))

-- The status is left out, or known.
abbrev pub StatusRule : Option (EnumOrUnknown UCode) → Type 0
StatusRule o = (o ≡ none) ⊎ Has (λ s. (code : UCode) × (s ≡ known code)) o

known_code_iff : (o : Option (EnumOrUnknown UCode)) → (known_code o ≡ ok tt) ↔ StatusRule o
known_code_iff none = (λ h. inl refl, λ h. refl)
known_code_iff (some (known code)) = (λ h. inr (known code, refl, (code, refl)), λ h. refl)
known_code_iff (some (unknown n)) = (λ h. cc, λ h. absurd (unknown_fails h))
  where
    unknown_fails : StatusRule (some (unknown n)) → ⊥
    unknown_fails (inl e) = cc
    unknown_fails (inr (s, same, (code, e))) = cc

pub validate_commstatus_iff :
    (a : UAttributes) → (validate_commstatus a ≡ ok tt) ↔ StatusRule a.commstatus
unfolding validate_commstatus
validate_commstatus_iff a = known_code_iff a.commstatus

module _ (proto : Descriptors) where
  abbrev pub PriorityRule : EnumOrUnknown UPriority → Type 0
  PriorityRule p =
      (prio : UPriority) × (p ≡ known prio)
      × (proto.priority_value UPriority.cs4 ≤ proto.priority_value prio)

  pub validate_rpc_priority_iff :
      (a : UAttributes) → (validate_rpc_priority proto a ≡ ok tt) ↔ PriorityRule a.priority
  unfolding validate_rpc_priority
  validate_rpc_priority_iff a = (λ h. ground arith, λ h. ground arith)

  matching_type_iff :
      (expected : UMessageType) (t : EnumOrUnknown UMessageType)
      → (matching_type proto expected t ≡ ok tt) ↔ (t ≡ known expected)
  matching_type_iff expected (known mt) =
      (λ h. ground (arith, type_eq_iff mt expected), λ h. ground (arith, type_eq_iff mt expected))
  matching_type_iff expected (unknown code) = (λ h. cc, λ h. cc)

  pub validate_type_iff :
      (v : UAttributesValidators) (a : UAttributes)
      → (validate_type proto v a ≡ ok tt) ↔ (a.type_ ≡ known (message_type v))
  unfolding validate_type
  validate_type_iff v a = matching_type_iff (message_type v) a.type_
