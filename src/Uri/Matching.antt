-- ===== src/Uri/Matching.antt =====
-- src/uri.rs: matching of a candidate against a pattern.
pub mod Laws
use up_rust.Prelude.{Bool, ◌&&◌, ◌||◌, ◌==◌, str_eq}
use up_rust.Proto.{UUri}
use up_rust.Uri.{
  uentity_type_id, uentity_instance_id, uentity_major_version, has_wildcard_authority,
  has_wildcard_entity_instance, has_wildcard_entity_type, has_wildcard_version,
  has_wildcard_resource_id,
}

unfoldable pub matches_authority : UUri → UUri → Bool
matches_authority p c = has_wildcard_authority p || str_eq p.authority_name c.authority_name

unfoldable pub matches_entity_type : UUri → UUri → Bool
matches_entity_type p c = has_wildcard_entity_type p || uentity_type_id p == uentity_type_id c

unfoldable pub matches_entity_instance : UUri → UUri → Bool
matches_entity_instance p c =
    has_wildcard_entity_instance p || uentity_instance_id p == uentity_instance_id c

unfoldable pub matches_entity_version : UUri → UUri → Bool
matches_entity_version p c =
    has_wildcard_version p || uentity_major_version p == uentity_major_version c

unfoldable pub matches_entity : UUri → UUri → Bool
matches_entity p c =
    matches_entity_type p c && matches_entity_instance p c && matches_entity_version p c

unfoldable pub matches_resource : UUri → UUri → Bool
matches_resource p c = has_wildcard_resource_id p || p.resource_id == c.resource_id

unfoldable pub matches : UUri → UUri → Bool
matches p c = matches_authority p c && matches_entity p c && matches_resource p c
