-- ===== src/Uri/Fields.antt =====
-- src/uri.rs: the masks of the accessors and of the wildcard tests as fields of the numbers.
use up_rust.Prelude.{
  ℕ, ◌*◌, ◌/◌, ◌%◌, ◌^◌, ◌≡◌, refl, ◌∙◌, ◌↔◌, bit_and, true, arith, bit_and-ones, bit_and-shifted,
  ==_iff, eq_iff,
}
use up_rust.Proto.{UUri}
use up_rust.Uri.{
  wildcard_entity_instance, wildcard_entity_type, wildcard_entity_version, uentity_type_id,
  uentity_instance_id, uentity_major_version, has_wildcard_authority, has_wildcard_entity_instance,
  has_wildcard_entity_type, has_wildcard_version, has_wildcard_resource_id,
}

-- The two halves of `ue_id`.
abbrev pub instance_of : UUri → ℕ
instance_of u = u.ue_id / 2 ^ 16 % 2 ^ 16

abbrev pub type_of : UUri → ℕ
type_of u = u.ue_id % 2 ^ 16

abbrev pub version_of : UUri → ℕ
version_of u = u.ue_version_major % 2 ^ 8

low_half : (n : ℕ) → bit_and n wildcard_entity_type ≡ n % 2 ^ 16
low_half n = bit_and-ones 16 n

high_half : (n : ℕ) → bit_and n wildcard_entity_instance ≡ n / 2 ^ 16 % 2 ^ 16 * 2 ^ 16
high_half n = bit_and-shifted 16 n 65535 ∙ rw (bit_and-ones 16 (n / 2 ^ 16)) refl

low_byte : (n : ℕ) → bit_and n wildcard_entity_version ≡ n % 2 ^ 8
low_byte n = bit_and-ones 8 n

pub uentity_type_id_lem : (u : UUri) → uentity_type_id u ≡ type_of u
unfolding uentity_type_id
uentity_type_id_lem u = omega (arith, low_half u.ue_id)

pub uentity_instance_id_lem : (u : UUri) → uentity_instance_id u ≡ instance_of u
unfolding uentity_instance_id
uentity_instance_id_lem u = omega (arith, high_half u.ue_id)

pub uentity_major_version_lem : (u : UUri) → uentity_major_version u ≡ version_of u
unfolding uentity_major_version
uentity_major_version_lem u = omega (arith, low_byte u.ue_version_major)

pub has_wildcard_authority_iff :
    (u : UUri) → (has_wildcard_authority u ≡ true) ↔ (u.authority_name ≡ "*")
unfolding has_wildcard_authority
has_wildcard_authority_iff u = eq_iff u.authority_name "*"

pub has_wildcard_entity_instance_iff :
    (u : UUri) → (has_wildcard_entity_instance u ≡ true) ↔ (instance_of u ≡ 0xFFFF)
unfolding has_wildcard_entity_instance
has_wildcard_entity_instance_iff u =
    (λ h. ground (arith, high_half u.ue_id), λ h. ground (arith, high_half u.ue_id))

pub has_wildcard_entity_type_iff :
    (u : UUri) → (has_wildcard_entity_type u ≡ true) ↔ (type_of u ≡ 0xFFFF)
unfolding has_wildcard_entity_type
has_wildcard_entity_type_iff u =
    (λ h. ground (arith, low_half u.ue_id), λ h. ground (arith, low_half u.ue_id))

pub has_wildcard_version_iff :
    (u : UUri) → (has_wildcard_version u ≡ true) ↔ (u.ue_version_major ≡ 0xFF)
unfolding has_wildcard_version
has_wildcard_version_iff u = ==_iff u.ue_version_major 0xFF

pub has_wildcard_resource_id_iff :
    (u : UUri) → (has_wildcard_resource_id u ≡ true) ↔ (u.resource_id ≡ 0xFFFF)
unfolding has_wildcard_resource_id
has_wildcard_resource_id_iff u = ==_iff u.resource_id 0xFFFF
