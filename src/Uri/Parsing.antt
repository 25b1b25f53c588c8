-- ===== src/Uri/Parsing.antt =====
-- src/uri.rs: `UUri::from_str`, `to_uri`, `try_from_parts` and `check_validity`. The grammar of
-- RFC 3986 is the uriparse crate's, a parameter: what it splits a text into, or its error's text, and
-- the comparison of a scheme with a text, which ignores case.
pub mod Bounds
pub mod RoundTrip
use Prim.Native.String.{len}
use up_rust.Prelude.{
  ℕ, ◌-◌, ◌^◌, Bool, ◌||◌, String, Option, none, some, List, [], ◌∷◌, Result, ok, err, map_err, ltb,
  leb, if◌then◌else◌, is_empty, ◌++ˢ◌,
}
use up_rust.Prelude.Fallible.{◌>>=◌, ◌>>◌}
use up_rust.Proto.{UUri}
use up_rust.Uri.{UUriError, serialization_error, validation_error}
use up_rust.Uri.Hex.{upper_hex, from_str_radix, show_error}

pub record Authority : Type 0 where
  pub has_port : Bool
  pub has_username : Bool
  pub has_password : Bool
  pub host : String

pub record UriReference : Type 0 where
  pub scheme : Option String
  pub has_query : Bool
  pub has_fragment : Bool
  pub authority : Option Authority
  pub segments : List String

pub record UriParser : Type 0 where
  pub parse_reference : String → Result String UriReference
  pub parse_authority : String → Result String Authority
  pub scheme_eq : String → String → Bool

abbrev unless : Bool → UUriError → Result UUriError (Unit {0})
unless bad e = if bad then err e else ok tt

unfoldable pub verify_parsed_authority : Authority → Result UUriError String
verify_parsed_authority auth =
    if auth.has_port
    then err (validation_error "uProtocol URI's authority must not contain port")
    else if auth.has_username || auth.has_password
    then err (validation_error "uProtocol URI's authority must not contain userinfo")
    else if leb (len auth.host) 128
    then ok auth.host
    else err (validation_error "URI's authority name must not exceed 128 characters")

unfoldable pub verify_major_version : ℕ → Result UUriError ℕ
verify_major_version major_version =
    if ltb major_version (2 ^ 8)
    then ok major_version
    else err (validation_error "uProtocol URI's major version must be an 8 bit unsigned integer")

unfoldable pub verify_resource_id : ℕ → Result UUriError ℕ
verify_resource_id resource_id =
    if ltb resource_id (2 ^ 16)
    then ok resource_id
    else err (validation_error "uProtocol URI's resource ID must be a 16 bit unsigned integer")

-- One of the three numbers of the path: not empty, and in the range of its type.
unfoldable pub parse_number : ℕ → String → String → String → Result UUriError ℕ
parse_number most missing malformed segment = do
  unless (is_empty segment) (serialization_error missing)
  map_err (λ e. serialization_error (malformed ++ˢ show_error e)) (from_str_radix most segment)

unfoldable pub parse_path : String → List String → Result UUriError UUri
parse_path authority_name (entity ∷ version ∷ resource ∷ []) = do
  ue_id ←
      parse_number (2 ^ 32 - 1) "URI must contain non-empty entity ID" "Cannot parse entity ID: "
        entity
  ue_version_major ←
      parse_number (2 ^ 8 - 1) "URI must contain non-empty entity version"
        "Cannot parse entity version: " version
  resource_id ←
      parse_number (2 ^ 16 - 1) "URI must contain non-empty resource ID"
        "Cannot parse resource ID: " resource
  ok (record {
    authority_name = authority_name;
    ue_id = ue_id;
    ue_version_major = ue_version_major;
    resource_id = resource_id;
  })
parse_path authority_name _ =
    err (serialization_error "uProtocol URI must contain entity ID, entity version and resource ID")

unfoldable pub parsed_authority_name : Option Authority → Result UUriError String
parsed_authority_name none = ok ""
parsed_authority_name (some auth) = verify_parsed_authority auth

unfoldable pub to_uri : UUri → Bool → String
to_uri u include_scheme =
    (if include_scheme then "up:" else "")
    ++ˢ (if is_empty u.authority_name then "" else "//" ++ˢ u.authority_name)
    ++ˢ "/"
    ++ˢ upper_hex u.ue_id
    ++ˢ "/"
    ++ˢ upper_hex u.ue_version_major
    ++ˢ "/"
    ++ˢ upper_hex u.resource_id

module _ (parser : UriParser) where
  open parser use {parse_reference, parse_authority, scheme_eq}

  unfoldable pub check_scheme : Option String → Result UUriError (Unit {0})
  check_scheme none = ok tt
  check_scheme (some scheme) =
      if scheme_eq scheme "up"
      then ok tt
      else err (serialization_error "uProtocol URI must use 'up' scheme")

  unfoldable pub from_str : String → Result UUriError UUri
  from_str uri = do
    unless (is_empty uri) (serialization_error "URI is empty")
    parsed ← map_err serialization_error (parse_reference uri)
    check_scheme parsed.scheme
    unless parsed.has_query (serialization_error "uProtocol URI must not contain query")
    unless parsed.has_fragment (serialization_error "uProtocol URI must not contain fragment")
    authority_name ← parsed_authority_name parsed.authority
    parse_path authority_name parsed.segments

  unfoldable pub verify_authority : String → Result UUriError String
  verify_authority authority = do
    auth ← map_err (λ e. validation_error ("invalid authority: " ++ˢ e)) (parse_authority authority)
    verify_parsed_authority auth

  unfoldable pub try_from_parts : String → ℕ → ℕ → ℕ → Result UUriError UUri
  try_from_parts authority entity_id entity_version resource_id = do
    authority_name ← verify_authority authority
    ok (record {
      authority_name = authority_name;
      ue_id = entity_id;
      ue_version_major = entity_version;
      resource_id = resource_id;
    })

  unfoldable pub check_validity : UUri → Result UUriError (Unit {0})
  check_validity u = do
    verify_authority u.authority_name
    verify_major_version u.ue_version_major
    verify_resource_id u.resource_id
    ok tt
