-- ===== src/Uri/Checks.antt =====
-- src/uri.rs: what `verify_no_wildcards` and the three checks of a URI's role accept.
use up_rust.Prelude.{◌≤◌, ◌<◌, ◌≡◌, ◌≢◌, ◌↔◌, ◌⊎◌, inl, inr, ok, arith}
use native.Mathlib.Decide.{dec_lt, ℕ_discrete}
use up_rust.Proto.{UUri}
use up_rust.Uri.{
  verify_no_wildcards, is_rpc_method, verify_rpc_method, is_rpc_response, verify_rpc_response,
  is_event, verify_event,
}
use up_rust.Uri.Fields.{
  instance_of, type_of, has_wildcard_authority_iff, has_wildcard_entity_instance_iff,
  has_wildcard_entity_type_iff, has_wildcard_version_iff, has_wildcard_resource_id_iff,
}

-- No part of the URI is a wildcard.
pub record IsConcrete (u : UUri) : Type 0 where
  pub authority : u.authority_name ≢ "*"
  pub entity_instance : instance_of u ≢ 0xFFFF
  pub entity_type : type_of u ≢ 0xFFFF
  pub version : u.ue_version_major ≢ 0xFF
  pub resource : u.resource_id ≢ 0xFFFF

pub verify_no_wildcards_iff : (u : UUri) → (verify_no_wildcards u ≡ ok tt) ↔ IsConcrete u
unfolding verify_no_wildcards
verify_no_wildcards_iff u = (
  λ h. ground (
    arith,
    has_wildcard_authority_iff u,
    has_wildcard_entity_instance_iff u,
    has_wildcard_entity_type_iff u,
    has_wildcard_version_iff u,
    has_wildcard_resource_id_iff u,
  ),
  λ h. ground (
    arith,
    has_wildcard_authority_iff u,
    has_wildcard_entity_instance_iff u,
    has_wildcard_entity_type_iff u,
    has_wildcard_version_iff u,
    has_wildcard_resource_id_iff u,
  ),
)

-- The three roles of a URI: a method, a place for responses or notifications, a topic.
abbrev pub IsMethod : UUri → Type 0
IsMethod u = (0 < u.resource_id) × (u.resource_id < 0x8000) × IsConcrete u

abbrev pub IsReplyAddress : UUri → Type 0
IsReplyAddress u = (u.resource_id ≡ 0) × IsConcrete u

abbrev pub IsTopic : UUri → Type 0
IsTopic u = (0x8000 ≤ u.resource_id) × IsConcrete u

pub verify_rpc_method_iff : (u : UUri) → (verify_rpc_method u ≡ ok tt) ↔ IsMethod u
unfolding verify_rpc_method is_rpc_method
verify_rpc_method_iff u =
    (λ h. ground (arith, verify_no_wildcards_iff u), λ h. ground (arith, verify_no_wildcards_iff u))

pub verify_rpc_response_iff : (u : UUri) → (verify_rpc_response u ≡ ok tt) ↔ IsReplyAddress u
unfolding verify_rpc_response is_rpc_response
verify_rpc_response_iff u =
    (λ h. ground (arith, verify_no_wildcards_iff u), λ h. ground (arith, verify_no_wildcards_iff u))

pub verify_event_iff : (u : UUri) → (verify_event u ≡ ok tt) ↔ IsTopic u
unfolding verify_event is_event
verify_event_iff u =
    (λ h. ground (arith, verify_no_wildcards_iff u), λ h. ground (arith, verify_no_wildcards_iff u))

-- A URI is accepted as a method exactly if its resource ID is positive and below 0x8000, as a place
-- for responses exactly if it is 0, as a topic exactly if it is at least 0x8000, and each time it
-- has no wildcard; and it passes one of the three checks exactly if it has no wildcard.
pub roles_partition :
    (u : UUri)
    → ((verify_rpc_method u ≡ ok tt) ↔ IsMethod u)
      × ((verify_rpc_response u ≡ ok tt) ↔ IsReplyAddress u)
      × ((verify_event u ≡ ok tt) ↔ IsTopic u)
      × ((verify_rpc_method u ≡ ok tt) ⊎ (verify_rpc_response u ≡ ok tt) ⊎ (verify_event u ≡ ok tt)
          ↔ IsConcrete u)
roles_partition u = (
  verify_rpc_method_iff u,
  verify_rpc_response_iff u,
  verify_event_iff u,
  (
    λ h. ground (arith, verify_rpc_method_iff u, verify_rpc_response_iff u, verify_event_iff u),
    λ h. elim (dec_lt u.resource_id 0x8000) [
      | yes low ↦ elim (ℕ_discrete u.resource_id 0) [
        | yes zero ↦ inr (inl ((verify_rpc_response_iff u).1 (zero, h)))
        | no pos ↦ inl ((verify_rpc_method_iff u).1 (omega arith, low, h))
      ]
      | no high ↦ inr (inr ((verify_event_iff u).1 (omega arith, h)))
    ],
  ),
)
