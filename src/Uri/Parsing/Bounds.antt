-- ===== src/Uri/Parsing/Bounds.antt =====
-- src/uri.rs: the ranges of what the constructors of a URI return, and what `check_validity`
-- accepts.
use Prim.Native.String.{len}
use up_rust.Prelude.{
  ℕ, ◌^◌, ◌≤◌, ◌<◌, ◌≡◌, ◌↔◌, refl, false, String, List, [], ◌∷◌, Option, none, some, ok, err,
  arith, subst, >>=-eq-ok, map_err-eq-ok, is_empty, map_err, ltb_iff, ◌++ˢ◌,
}
use up_rust.Proto.{UUri}
use up_rust.Uri.Hex.RoundTrip.{from_str_radix_le}
use up_rust.Uri.{serialization_error, validation_error}
use up_rust.Uri.Parsing.{
  unless, check_scheme, Authority, UriParser, verify_parsed_authority, verify_major_version,
  verify_resource_id, parse_number, parse_path, parsed_authority_name, from_str, verify_authority,
  try_from_parts, check_validity,
}

-- The authority name has at most 128 bytes, and the numbers fit into 32, 8 and 16 bits.
pub record IsBounded (u : UUri) : Type 0 where
  pub authority : len u.authority_name ≤ 128
  pub ue_id : u.ue_id < 2 ^ 32
  pub version : u.ue_version_major < 2 ^ 8
  pub resource : u.resource_id < 2 ^ 16

-- An authority that `verify_parsed_authority` accepts under its host's name.
pub record IsHostOnly (auth : Authority) (name : String) : Type 0 where
  pub port : auth.has_port ≡ false
  pub username : auth.has_username ≡ false
  pub password : auth.has_password ≡ false
  pub host : auth.host ≡ name
  pub length : len name ≤ 128

pub verify_parsed_authority_iff :
    (auth : Authority) (name : String)
    → (verify_parsed_authority auth ≡ ok name) ↔ IsHostOnly auth name
unfolding verify_parsed_authority
verify_parsed_authority_iff auth name = (λ h. ground arith, λ h. ground arith)

parsed_authority_name_le :
    (a : Option Authority) (name : String) → parsed_authority_name a ≡ ok name → len name ≤ 128
unfolding parsed_authority_name
parsed_authority_name_le none name h =
    let none_named : ◌≡◌ {A = String} "" name = cc in
    subst (λ s. len s ≤ 128) none_named (omega arith)
parsed_authority_name_le (some auth) name h = ((verify_parsed_authority_iff auth name).0 h).length

parse_number_le :
    (most n : ℕ) (missing malformed segment : String)
    → parse_number most missing malformed segment ≡ ok n
    → n ≤ most
unfolding parse_number
parse_number_le most n missing malformed segment h =
    let (_, present, parsed) =
      >>=-eq-ok (unless (is_empty segment) (serialization_error missing)) _ h in
    from_str_radix_le most n segment (map_err-eq-ok _ _ parsed)

parse_path-IsBounded :
    (name : String) (segments : List String) (u : UUri)
    → len name ≤ 128
    → parse_path name segments ≡ ok u
    → IsBounded u
unfolding parse_path
parse_path-IsBounded name (e ∷ v ∷ r ∷ []) u h parsed =
    let (ue_id, read_id, after_id) = >>=-eq-ok (parse_number _ _ _ e) _ parsed in
    let (version, read_version, after_version) = >>=-eq-ok (parse_number _ _ _ v) _ after_id in
    let (resource, read_resource, built) = >>=-eq-ok (parse_number _ _ _ r) _ after_version in
    let id_le = parse_number_le _ ue_id _ _ e read_id in
    let version_le = parse_number_le _ version _ _ v read_version in
    let resource_le = parse_number_le _ resource _ _ r read_resource in
    subst (λ r. elim r [ ok w ↦ IsBounded w | err _ ↦ ⊥ ]) built
      (record { authority = h; ue_id = omega arith; version = omega arith; resource = omega arith })
parse_path-IsBounded name _ u h parsed = cc

module _ (parser : UriParser) where
  -- Whatever the parser of RFC 3986 does, a URI that `from_str` returns has an authority name of
  -- at most 128 bytes, an entity ID of 32 bits, a version of 8 bits and a resource ID of 16 bits.
  pub from_str-IsBounded : (s : String) (u : UUri) → from_str parser s ≡ ok u → IsBounded u
  unfolding from_str
  from_str-IsBounded s u h =
      let (_, _, h1) = >>=-eq-ok (unless (is_empty s) _) _ h in
      let (parsed, _, h2) =
        >>=-eq-ok (map_err serialization_error (parser.parse_reference s)) _ h1 in
      let (_, _, h3) = >>=-eq-ok (check_scheme parser parsed.scheme) _ h2 in
      let (_, _, h4) = >>=-eq-ok (unless parsed.has_query _) _ h3 in
      let (_, _, h5) = >>=-eq-ok (unless parsed.has_fragment _) _ h4 in
      let (name, named, h6) = >>=-eq-ok (parsed_authority_name parsed.authority) _ h5 in
      parse_path-IsBounded name parsed.segments u
        (parsed_authority_name_le parsed.authority name named) h6

  verified_authority :
      (name host : String)
      → verify_authority parser name ≡ ok host
      → (auth : Authority) × (parser.parse_authority name ≡ ok auth) × IsHostOnly auth host
  unfolding verify_authority
  verified_authority name host h =
      let (auth, read, h1) =
        >>=-eq-ok
          (map_err (λ e. validation_error ("invalid authority: " ++ˢ e))
            (parser.parse_authority name))
          _ h in
      (auth, map_err-eq-ok _ _ read, (verify_parsed_authority_iff auth host).0 h1)

  -- `check_validity` accepts a URI exactly if uriparse reads its authority name as an authority
  -- with neither port nor userinfo and a host of at most 128 bytes, its version fits into 8 bits
  -- and its resource ID into 16.
  pub check_validity_iff :
      (u : UUri)
      → (check_validity parser u ≡ ok tt) ↔ (
          ((auth : Authority) × (parser.parse_authority u.authority_name ≡ ok auth)
            × IsHostOnly auth auth.host)
          × (u.ue_version_major < 2 ^ 8)
          × (u.resource_id < 2 ^ 16))
  unfolding check_validity verify_authority verify_major_version verify_resource_id
  check_validity_iff u = (
    λ h.
        let (name, verified, h1) = >>=-eq-ok (verify_authority parser u.authority_name) _ h in
        let (v, version, h2) = >>=-eq-ok (verify_major_version u.ue_version_major) _ h1 in
        let (r, resource, h3) = >>=-eq-ok (verify_resource_id u.resource_id) _ h2 in
        let (auth, parsed, host_only) = verified_authority u.authority_name name verified in
        ((auth, parsed, rw host_only.host host_only), ground arith, ground arith),
    λ (found, version, resource).
        rw
          (
            found.1,
            (verify_parsed_authority_iff found.0 found.0.host).1 found.2,
            (ltb_iff _ _).1 version,
            (ltb_iff _ _).1 resource,
          )
          refl,
  )

  -- What `try_from_parts` returns carries the numbers that it was given and the host's name,
  -- and passes `check_validity` if uriparse reads a host's name as the host of that name.
  pub try_from_parts-check_validity :
      ((name : String) (auth : Authority)
        → parser.parse_authority name ≡ ok auth
        → auth.has_port ≡ false
        → auth.has_username ≡ false
        → auth.has_password ≡ false
        → parser.parse_authority auth.host ≡ ok auth)
      → (name : String) (id version resource : ℕ) (u : UUri) → version < 2 ^ 8
      → resource < 2 ^ 16
      → try_from_parts parser name id version resource ≡ ok u
      → (check_validity parser u ≡ ok tt)
        × (u.ue_id ≡ id)
        × (u.ue_version_major ≡ version)
        × (u.resource_id ≡ resource)
  unfolding try_from_parts verify_authority
  try_from_parts-check_validity stable name id version resource u hv hr h =
      let (host, verified, built) = >>=-eq-ok (verify_authority parser name) _ h in
      let (auth, parsed, host_only) = verified_authority name host verified in
      let again : parser.parse_authority host ≡ ok auth =
        subst (λ n. parser.parse_authority n ≡ ok auth) host_only.host
          (stable name auth parsed host_only.port host_only.username host_only.password) in
      let valid =
        (check_validity_iff (record {
          authority_name = host;
          ue_id = id;
          ue_version_major = version;
          resource_id = resource;
        })).1
          ((auth, again, rw host_only.host host_only), hv, hr) in
      subst
        (λ r. elim r [
          | ok w ↦
              (check_validity parser w ≡ ok tt)
              × (w.ue_id ≡ id)
              × (w.ue_version_major ≡ version)
              × (w.resource_id ≡ resource)
          | err _ ↦ ⊥
        ])
        built (valid, refl, refl, refl)
