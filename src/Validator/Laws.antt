-- ===== src/Validator/Laws.antt =====
-- src/uattributes/uattributesvalidator.rs: what each of the four validators accepts.
use up_rust.Prelude.{◌<◌, ◌≡◌, refl, ◌↔◌, ok}
use up_rust.Proto.{known, UAttributes, Descriptors}
use up_rust.Validator.{
  UAttributesValidators, publish, notification, request, response, message_type, validate_type,
  validate_id, validate_source, validate_sink, validate_ttl, validate_reqid, validate_commstatus,
  validate_rpc_priority, validate, get_validator_for_attributes,
}
use up_rust.Validator.Report.{report_iff}
use up_rust.Validator.Rules.{
  Has, IsUuid, SourceRule, SinkRule, StatusRule, PriorityRule, validate_type_iff, validate_id_iff,
  validate_source_iff, validate_sink_iff, validate_ttl_iff, validate_reqid_iff,
  validate_commstatus_iff, validate_rpc_priority_iff,
}

-- What a kind of message asks for beside the rules that all kinds share.
pub record RequestRules (proto : Descriptors) (a : UAttributes) : Type 0 where
  pub ttl : Has (λ ttl. 0 < ttl) a.ttl
  pub priority : PriorityRule proto a.priority

pub record ResponseRules (proto : Descriptors) (a : UAttributes) : Type 0 where
  pub reqid : Has IsUuid a.reqid
  pub commstatus : StatusRule a.commstatus
  pub priority : PriorityRule proto a.priority

abbrev pub OwnRules : Descriptors → UAttributesValidators → UAttributes → Type 0
OwnRules proto publish a = Unit
OwnRules proto notification a = Unit
OwnRules proto request a = RequestRules proto a
OwnRules proto response a = ResponseRules proto a

-- Attributes of the validator's kind of message.
pub record IsValid (proto : Descriptors) (v : UAttributesValidators) (a : UAttributes)
    : Type 0 where
  pub type_ : a.type_ ≡ known (message_type v)
  pub id : Has IsUuid a.id
  pub source : SourceRule v a.source
  pub sink : SinkRule v a.sink
  pub own : OwnRules proto v a

module _ (proto : Descriptors) (v : UAttributesValidators) (a : UAttributes) where
  -- The checks that all kinds of message share, and the rules for which they stand.
  assemble :
      validate_type proto v a ≡ ok tt
      → validate_id a ≡ ok tt
      → validate_source v a ≡ ok tt
      → validate_sink v a ≡ ok tt
      → OwnRules proto v a
      → IsValid proto v a
  assemble type_ id source sink own = record {
    type_ = (validate_type_iff proto v a).0 type_;
    id = (validate_id_iff a).0 id;
    source = (validate_source_iff v a).0 source;
    sink = (validate_sink_iff v a).0 sink;
    own = own;
  }

  module _ (h : IsValid proto v a) where
    type_ok : validate_type proto v a ≡ ok tt
    type_ok = (validate_type_iff proto v a).1 h.type_

    id_ok : validate_id a ≡ ok tt
    id_ok = (validate_id_iff a).1 h.id

    source_ok : validate_source v a ≡ ok tt
    source_ok = (validate_source_iff v a).1 h.source

    sink_ok : validate_sink v a ≡ ok tt
    sink_ok = (validate_sink_iff v a).1 h.sink

module _ (proto : Descriptors) (a : UAttributes) where
  request_rules :
      validate_ttl a ≡ ok tt → validate_rpc_priority proto a ≡ ok tt → RequestRules proto a
  request_rules ttl priority = record {
    ttl = (validate_ttl_iff a).0 ttl;
    priority = (validate_rpc_priority_iff proto a).0 priority;
  }

  response_rules :
      validate_reqid a ≡ ok tt
      → validate_commstatus a ≡ ok tt
      → validate_rpc_priority proto a ≡ ok tt
      → ResponseRules proto a
  response_rules reqid commstatus priority = record {
    reqid = (validate_reqid_iff a).0 reqid;
    commstatus = (validate_commstatus_iff a).0 commstatus;
    priority = (validate_rpc_priority_iff proto a).0 priority;
  }

validate_sound :
    (proto : Descriptors) (v : UAttributesValidators) (a : UAttributes)
    → validate proto v a ≡ ok tt
    → IsValid proto v a
unfolding validate
validate_sound proto publish a h =
    let (type_, (id, (source, (sink, _)))) = (report_iff _).0 h in
    assemble proto publish a type_ id source sink tt
validate_sound proto notification a h =
    let (type_, (id, (source, (sink, _)))) = (report_iff _).0 h in
    assemble proto notification a type_ id source sink tt
validate_sound proto request a h =
    let (type_, (id, (ttl, (source, (sink, (priority, _)))))) = (report_iff _).0 h in
    assemble proto request a type_ id source sink (request_rules proto a ttl priority)
validate_sound proto response a h =
    let (type_, (id, (source, (sink, (reqid, (commstatus, (priority, _))))))) =
      (report_iff _).0 h in
    assemble proto response a type_ id source sink
      (response_rules proto a reqid commstatus priority)

validate_complete :
    (proto : Descriptors) (v : UAttributesValidators) (a : UAttributes)
    → IsValid proto v a
    → validate proto v a ≡ ok tt
unfolding validate
validate_complete proto publish a h = (report_iff _).1 (
  type_ok proto publish a h,
  (id_ok proto publish a h, (source_ok proto publish a h, (sink_ok proto publish a h, tt))),
)
validate_complete proto notification a h = (report_iff _).1 (
  type_ok proto notification a h,
  (
    id_ok proto notification a h,
    (source_ok proto notification a h, (sink_ok proto notification a h, tt)),
  ),
)
validate_complete proto request a h = (report_iff _).1 (
  type_ok proto request a h,
  (
    id_ok proto request a h,
    (
      (validate_ttl_iff a).1 h.own.ttl,
      (
        source_ok proto request a h,
        (sink_ok proto request a h, ((validate_rpc_priority_iff proto a).1 h.own.priority, tt)),
      ),
    ),
  ),
)
validate_complete proto response a h = (report_iff _).1 (
  type_ok proto response a h,
  (
    id_ok proto response a h,
    (
      source_ok proto response a h,
      (
        sink_ok proto response a h,
        (
          (validate_reqid_iff a).1 h.own.reqid,
          (
            (validate_commstatus_iff a).1 h.own.commstatus,
            ((validate_rpc_priority_iff proto a).1 h.own.priority, tt),
          ),
        ),
      ),
    ),
  ),
)

-- A validator accepts attributes exactly if they have its message type, a uProtocol UUID for an ID,
-- a source and a sink of the roles that its kind of message asks for, for a request a positive
-- time-to-live and a priority of at least CS4, and for a response a uProtocol UUID for a request
-- ID, a known communication status if any, and a priority of at least CS4.
pub validate_iff :
    (proto : Descriptors) (v : UAttributesValidators) (a : UAttributes)
    → (validate proto v a ≡ ok tt) ↔ IsValid proto v a
validate_iff proto v a = (validate_sound proto v a, validate_complete proto v a)

picks :
    (v : UAttributesValidators) (a : UAttributes)
    → a.type_ ≡ known (message_type v)
    → get_validator_for_attributes a ≡ v
unfolding get_validator_for_attributes message_type
picks publish a h = rw h refl
picks notification a h = rw h refl
picks request a h = rw h refl
picks response a h = rw h refl

-- The validator that `get_validator_for_attributes` picks accepts attributes exactly if any of
-- the four does, and no validator but the picked one accepts them.
pub get_validator_for_attributes_iff :
    (proto : Descriptors) (v : UAttributesValidators) (a : UAttributes)
    → (validate proto v a ≡ ok tt) ↔ (
        (validate proto (get_validator_for_attributes a) a ≡ ok tt)
        × (get_validator_for_attributes a ≡ v))
get_validator_for_attributes_iff proto v a = (
  λ h. let picked = picks v a (validate_sound proto v a h).type_ in (rw picked h, picked),
  λ (h, picked). rw picked at h,
)
