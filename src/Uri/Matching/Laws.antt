-- ===== src/Uri/Matching/Laws.antt =====
-- src/uri.rs: `matches` against a description of what a pattern accepts, and its order laws.
use up_rust.Prelude.{◌^◌, ◌<◌, ◌≡◌, refl, ◌↔◌, ◌⊎◌, inl, inr, true, ok, arith, eq_iff, subst}
use up_rust.Proto.{UUri}
use up_rust.Uri.{any, verify_no_wildcards}
use up_rust.Uri.Checks.{IsConcrete, verify_no_wildcards_iff}
use up_rust.Uri.Fields.{
  instance_of, type_of, version_of, uentity_type_id_lem, uentity_instance_id_lem,
  uentity_major_version_lem, has_wildcard_authority_iff, has_wildcard_entity_instance_iff,
  has_wildcard_entity_type_iff, has_wildcard_version_iff, has_wildcard_resource_id_iff,
}
use up_rust.Uri.Matching.{
  matches, matches_authority, matches_entity_type, matches_entity_instance, matches_entity_version,
  matches_entity, matches_resource,
}

-- The pattern's part is a wildcard, or equal to the candidate's.
pub record Accepts (p c : UUri) : Type 0 where
  pub authority : (p.authority_name ≡ "*") ⊎ (p.authority_name ≡ c.authority_name)
  pub entity_type : (type_of p ≡ 0xFFFF) ⊎ (type_of p ≡ type_of c)
  pub entity_instance : (instance_of p ≡ 0xFFFF) ⊎ (instance_of p ≡ instance_of c)
  pub version : (p.ue_version_major ≡ 0xFF) ⊎ (version_of p ≡ version_of c)
  pub resource : (p.resource_id ≡ 0xFFFF) ⊎ (p.resource_id ≡ c.resource_id)

module _ (p c : UUri) where
  authority_iff :
      (matches_authority p c ≡ true)
      ↔ ((p.authority_name ≡ "*") ⊎ (p.authority_name ≡ c.authority_name))
  unfolding matches_authority
  authority_iff = (
    λ h. ground (arith, has_wildcard_authority_iff p, eq_iff p.authority_name c.authority_name),
    λ h. ground (arith, has_wildcard_authority_iff p, eq_iff p.authority_name c.authority_name),
  )

  entity_type_iff :
      (matches_entity_type p c ≡ true) ↔ ((type_of p ≡ 0xFFFF) ⊎ (type_of p ≡ type_of c))
  unfolding matches_entity_type
  entity_type_iff = (
    λ h.
        ground
          (arith, has_wildcard_entity_type_iff p, uentity_type_id_lem p, uentity_type_id_lem c),
    λ h.
        ground
          (arith, has_wildcard_entity_type_iff p, uentity_type_id_lem p, uentity_type_id_lem c),
  )

  entity_instance_iff :
      (matches_entity_instance p c ≡ true)
      ↔ ((instance_of p ≡ 0xFFFF) ⊎ (instance_of p ≡ instance_of c))
  unfolding matches_entity_instance
  entity_instance_iff = (
    λ h. ground (
      arith,
      has_wildcard_entity_instance_iff p,
      uentity_instance_id_lem p,
      uentity_instance_id_lem c,
    ),
    λ h. ground (
      arith,
      has_wildcard_entity_instance_iff p,
      uentity_instance_id_lem p,
      uentity_instance_id_lem c,
    ),
  )

  version_iff :
      (matches_entity_version p c ≡ true)
      ↔ ((p.ue_version_major ≡ 0xFF) ⊎ (version_of p ≡ version_of c))
  unfolding matches_entity_version
  version_iff = (
    λ h. ground (
      arith,
      has_wildcard_version_iff p,
      uentity_major_version_lem p,
      uentity_major_version_lem c,
    ),
    λ h. ground (
      arith,
      has_wildcard_version_iff p,
      uentity_major_version_lem p,
      uentity_major_version_lem c,
    ),
  )

  resource_iff :
      (matches_resource p c ≡ true) ↔ ((p.resource_id ≡ 0xFFFF) ⊎ (p.resource_id ≡ c.resource_id))
  unfolding matches_resource
  resource_iff = (
    λ h. ground (arith, has_wildcard_resource_id_iff p),
    λ h. ground (arith, has_wildcard_resource_id_iff p),
  )

-- A pattern matches a candidate exactly if each part of the pattern is a wildcard or equals the
-- candidate's part: authority, entity type, entity instance, the low byte of the version, and the
-- resource ID.
pub matches_iff : (p c : UUri) → (matches p c ≡ true) ↔ Accepts p c
unfolding matches matches_entity
matches_iff p c = (
  λ h. record {
    authority = (authority_iff p c).0 (ground arith);
    entity_type = (entity_type_iff p c).0 (ground arith);
    entity_instance = (entity_instance_iff p c).0 (ground arith);
    version = (version_iff p c).0 (ground arith);
    resource = (resource_iff p c).0 (ground arith);
  },
  λ h.
      rw
        (
          (authority_iff p c).1 h.authority,
          (entity_type_iff p c).1 h.entity_type,
          (entity_instance_iff p c).1 h.entity_instance,
          (version_iff p c).1 h.version,
          (resource_iff p c).1 h.resource,
        )
        refl,
)

pub Accepts-refl : (u : UUri) → Accepts u u
Accepts-refl u = record {
  authority = inr refl;
  entity_type = inr refl;
  entity_instance = inr refl;
  version = inr refl;
  resource = inr refl;
}

Accepts-trans :
    {p q c : UUri} → p.ue_version_major < 2 ^ 8 → Accepts p q → Accepts q c → Accepts p c
Accepts-trans small h k = record {
  authority = ground (arith, h.authority, k.authority);
  entity_type = ground (arith, h.entity_type, k.entity_type);
  entity_instance = ground (arith, h.entity_instance, k.entity_instance);
  version = ground (arith, h.version, k.version);
  resource = ground (arith, h.resource, k.resource);
}

any-Accepts : (u : UUri) → Accepts any u
unfolding any
any-Accepts u = record {
  authority = inl refl;
  entity_type = inl refl;
  entity_instance = inl refl;
  version = inl refl;
  resource = inl refl;
}

-- Every URI matches itself, and the pattern of wildcards matches every URI.
pub matches-any : (u : UUri) → (matches any u ≡ true) × (matches u u ≡ true)
matches-any u = ((matches_iff any u).1 (any-Accepts u), (matches_iff u u).1 (Accepts-refl u))

-- Matching is transitive where the outer pattern's version fits into its eight bits: what a
-- pattern's instance matches, the pattern matches.
pub matches_trans :
    (p q c : UUri)
    → p.ue_version_major < 2 ^ 8
    → matches p q ≡ true
    → matches q c ≡ true
    → matches p c ≡ true
matches_trans p q c small h k =
    (matches_iff p c).1 (Accepts-trans small ((matches_iff p q).0 h) ((matches_iff q c).0 k))

-- The widths of the fields of a valid URI.
pub record InRange (u : UUri) : Type 0 where
  pub ue_id : u.ue_id < 2 ^ 32
  pub version : u.ue_version_major < 2 ^ 8

concrete_eq : (p c : UUri) → IsConcrete p → InRange p → InRange c → Accepts p c → p ≡ c
concrete_eq p c k hp hc h =
    let authority : p.authority_name ≡ c.authority_name = ground (arith, h.authority) in
    let entity_type : type_of p ≡ type_of c = ground (arith, h.entity_type) in
    let entity_instance : instance_of p ≡ instance_of c = ground (arith, h.entity_instance) in
    let ue_id : p.ue_id ≡ c.ue_id = omega arith in
    let version : p.ue_version_major ≡ c.ue_version_major = ground (arith, h.version) in
    let resource : p.resource_id ≡ c.resource_id = ground (arith, h.resource) in
    λ i. record {
      authority_name = authority i;
      ue_id = ue_id i;
      ue_version_major = version i;
      resource_id = resource i;
    }

-- A pattern without wildcards matches no URI but itself, among the URIs whose entity IDs are 32
-- and whose versions are 8 bits wide.
pub matches_concrete_iff :
    (p c : UUri)
    → verify_no_wildcards p ≡ ok tt
    → InRange p
    → InRange c
    → (matches p c ≡ true) ↔ (p ≡ c)
matches_concrete_iff p c concrete hp hc = (
  λ h. concrete_eq p c ((verify_no_wildcards_iff p).0 concrete) hp hc ((matches_iff p c).0 h),
  λ e. subst (λ d. matches p d ≡ true) e (matches-any p).1,
)
