-- ===== src/Uri.antt =====
-- src/uri.rs: the uProtocol URI, its error type, its accessors, its tests and the checks that
-- follow from them. Parsing and printing stand in Uri/Parsing.antt, patterns in Uri/Matching.antt.
pub mod Hashing
pub mod Fields
pub mod Checks
pub mod Matching
pub mod Hex
pub mod Parsing
use up_rust.Prelude.{
  ℕ, ◌+◌, ◌*◌, ◌/◌, ◌%◌, ◌^◌, bit_and, bit_or, Bool, not, ◌&&◌, String, Result, ok, err, ◌==◌, ltb,
  leb, if◌then◌else◌, str_eq, is_empty, ◌++ˢ◌,
}
use up_rust.Proto.{UUri, default_UUri}

abbrev pub wildcard_authority : String
wildcard_authority = "*"

abbrev pub wildcard_entity_instance : ℕ
wildcard_entity_instance = 0xFFFF0000

abbrev pub wildcard_entity_type : ℕ
wildcard_entity_type = 0x0000FFFF

abbrev pub wildcard_entity_version : ℕ
wildcard_entity_version = 0x000000FF

abbrev pub wildcard_resource_id : ℕ
wildcard_resource_id = 0x0000FFFF

abbrev pub resource_id_response : ℕ
resource_id_response = 0

abbrev pub resource_id_min_event : ℕ
resource_id_min_event = 0x8000

pub data UUriError : Type 0 where
  serialization_error validation_error : String → UUriError

-- The error's `Display`.
unfoldable pub to_string : UUriError → String
to_string (serialization_error e) = "Serialization error: " ++ˢ e
to_string (validation_error e) = "Validation error: " ++ˢ e

-- The derived equality of the generated type.
abbrev pub uri_eq : UUri → UUri → Bool
uri_eq u v =
    str_eq u.authority_name v.authority_name
    && u.ue_id == v.ue_id
    && u.ue_version_major == v.ue_version_major
    && u.resource_id == v.resource_id

unfoldable pub any_with_resource_id : ℕ → UUri
any_with_resource_id resource_id = record {
  authority_name = wildcard_authority;
  ue_id = bit_or wildcard_entity_instance wildcard_entity_type;
  ue_version_major = wildcard_entity_version;
  resource_id = resource_id;
}

unfoldable pub any : UUri
unfolding any_with_resource_id
any = any_with_resource_id wildcard_resource_id

-- `as u16` and `as u8` keep the lower bits.
unfoldable pub uentity_type_id : UUri → ℕ
uentity_type_id u = bit_and u.ue_id wildcard_entity_type % 2 ^ 16

unfoldable pub uentity_instance_id : UUri → ℕ
uentity_instance_id u = bit_and u.ue_id wildcard_entity_instance / 2 ^ 16 % 2 ^ 16

unfoldable pub uentity_major_version : UUri → ℕ
uentity_major_version u = bit_and u.ue_version_major wildcard_entity_version % 2 ^ 8

unfoldable pub resource_id : UUri → ℕ
resource_id u = bit_and u.resource_id wildcard_resource_id % 2 ^ 16

unfoldable pub has_empty_authority : UUri → Bool
has_empty_authority u = is_empty u.authority_name

unfoldable pub has_wildcard_authority : UUri → Bool
has_wildcard_authority u = str_eq u.authority_name wildcard_authority

unfoldable pub has_wildcard_entity_instance : UUri → Bool
has_wildcard_entity_instance u =
    bit_and u.ue_id wildcard_entity_instance == wildcard_entity_instance

unfoldable pub has_wildcard_entity_type : UUri → Bool
has_wildcard_entity_type u = bit_and u.ue_id wildcard_entity_type == wildcard_entity_type

unfoldable pub has_wildcard_version : UUri → Bool
has_wildcard_version u = u.ue_version_major == wildcard_entity_version

unfoldable pub has_wildcard_resource_id : UUri → Bool
has_wildcard_resource_id u = u.resource_id == wildcard_resource_id

unfoldable pub is_uri_empty : UUri → Bool
is_uri_empty u = uri_eq u default_UUri

unfoldable pub is_remote_authority : UUri → String → Bool
unfolding has_wildcard_authority
is_remote_authority u authority =
    not (is_empty authority)
    && not (is_empty u.authority_name)
    && not (has_wildcard_authority u)
    && not (str_eq authority wildcard_authority)
    && not (str_eq u.authority_name authority)

unfoldable pub is_remote : UUri → UUri → Bool
unfolding is_remote_authority
is_remote u other = is_remote_authority u other.authority_name

unfoldable pub verify_no_wildcards : UUri → Result UUriError (Unit {0})
verify_no_wildcards u =
    if has_wildcard_authority u
    then err (validation_error "Authority must not contain wildcard character [*]")
    else if has_wildcard_entity_instance u
    then err (validation_error "Entity instance ID must not be set to wildcard value [0xFFFF0000]")
    else if has_wildcard_entity_type u
    then err (validation_error "Entity type ID must not be set to wildcard value [0xFFFF]")
    else if has_wildcard_version u
    then err (validation_error "Entity version must not be set to wildcard value [0xFF]")
    else if has_wildcard_resource_id u
    then err (validation_error "Resource ID must not be set to wildcard value [0xFFFF]")
    else ok tt

unfoldable pub is_rpc_method : UUri → Bool
is_rpc_method u = ltb resource_id_response u.resource_id && ltb u.resource_id resource_id_min_event

unfoldable pub verify_rpc_method : UUri → Result UUriError (Unit {0})
verify_rpc_method u =
    if not (is_rpc_method u)
    then err (validation_error "Resource ID must be a value from ]0x0, 0x8000[")
    else verify_no_wildcards u

unfoldable pub is_notification_destination : UUri → Bool
is_notification_destination u = u.resource_id == resource_id_response

unfoldable pub is_rpc_response : UUri → Bool
is_rpc_response u = u.resource_id == resource_id_response

unfoldable pub verify_rpc_response : UUri → Result UUriError (Unit {0})
verify_rpc_response u =
    if not (is_rpc_response u)
    then err (validation_error "Resource ID must be 0x0")
    else verify_no_wildcards u

unfoldable pub is_event : UUri → Bool
is_event u = leb resource_id_min_event u.resource_id

unfoldable pub verify_event : UUri → Result UUriError (Unit {0})
verify_event u =
    if not (is_event u)
    then err (validation_error "Resource ID must be >= 0x8000")
    else verify_no_wildcards u
