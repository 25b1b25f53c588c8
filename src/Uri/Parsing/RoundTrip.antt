-- ===== src/Uri/Parsing/RoundTrip.antt =====
-- src/uri.rs: reading the text that `to_uri` prints.
use up_rust.Prelude.{
  ℕ, ◌-◌, ◌^◌, ◌≤◌, ◌<◌, ◌≡◌, refl, Bool, true, false, String, Option, none, some, [], ◌∷◌, ok,
  arith, is_empty, is_empty-append, is_empty-append_right, if◌then◌else◌, ◌++ˢ◌,
}
use up_rust.Proto.{UUri}
use up_rust.Uri.Hex.{upper_hex}
use up_rust.Uri.Hex.RoundTrip.{from_str_radix-upper_hex, is_empty-upper_hex}
use up_rust.Uri.Parsing.{
  Authority, UriReference, UriParser, parse_number, parse_path, check_scheme, parsed_authority_name,
  to_uri, from_str,
}
use up_rust.Uri.Parsing.Bounds.{IsBounded, IsHostOnly, verify_parsed_authority_iff}

-- The parts of the text of `u` at its delimiters.
abbrev pub parts : UUri → Bool → Option Authority → UriReference
parts u include_scheme authority = record {
  scheme = if include_scheme then some "up" else none;
  has_query = false;
  has_fragment = false;
  authority = authority;
  segments = upper_hex u.ue_id ∷ upper_hex u.ue_version_major ∷ upper_hex u.resource_id ∷ [];
}

-- What uriparse finds between the scheme and the path: nothing for a local URI, and else an
-- authority that is the URI's host.
pub data IsAuthorityOf (u : UUri) : Option Authority → Type 0 where
  local : u.authority_name ≡ "" → IsAuthorityOf u none
  remote : (auth : Authority) → IsHostOnly auth u.authority_name → IsAuthorityOf u (some auth)

parse_number-upper_hex :
    (most n : ℕ) (missing malformed : String)
    → n < 2 ^ 32
    → n ≤ most
    → parse_number most missing malformed (upper_hex n) ≡ ok n
unfolding parse_number
parse_number-upper_hex most n missing malformed h k =
    rw (is_empty-upper_hex n, from_str_radix-upper_hex most n h k) refl

parse_path-upper_hex :
    (u : UUri)
    → IsBounded u
    → parse_path u.authority_name
        (upper_hex u.ue_id ∷ upper_hex u.ue_version_major ∷ upper_hex u.resource_id ∷ [])
      ≡ ok u
unfolding parse_path
parse_path-upper_hex u h =
    rw
      (
        parse_number-upper_hex (2 ^ 32 - 1) u.ue_id _ _ (omega arith) (omega arith),
        parse_number-upper_hex (2 ^ 8 - 1) u.ue_version_major _ _ (omega arith) (omega arith),
        parse_number-upper_hex (2 ^ 16 - 1) u.resource_id _ _ (omega arith) (omega arith),
      )
      refl

named :
    (u : UUri) {a : Option Authority}
    → IsAuthorityOf u a
    → parsed_authority_name a ≡ ok u.authority_name
unfolding parsed_authority_name
named u (local e) = rw e refl
named u (remote auth h) = (verify_parsed_authority_iff auth u.authority_name).1 h

is_empty-to_uri : (u : UUri) (b : Bool) → is_empty (to_uri u b) ≡ false
unfolding to_uri
is_empty-to_uri u b = is_empty-append_right (if b then "up:" else "") _ (
    is_empty-append_right (if is_empty u.authority_name then "" else "//" ++ˢ u.authority_name) _
      (is_empty-append "/" _ refl))

-- Printing a bounded URI, with or without the scheme, and parsing the text gives the URI back,
-- where uriparse splits that text at its delimiters: the scheme, if it was asked for, the host
-- that is the authority name, if that is not empty, and the three numbers of the path; and finds
-- the scheme "up" equal to the text "up".
pub from_str-to_uri :
    (parser : UriParser) (u : UUri) (include_scheme : Bool) (authority : Option Authority)
    → IsBounded u
    → IsAuthorityOf u authority
    → parser.parse_reference (to_uri u include_scheme) ≡ ok (parts u include_scheme authority)
    → parser.scheme_eq "up" "up" ≡ true
    → from_str parser (to_uri u include_scheme) ≡ ok u
unfolding from_str check_scheme
from_str-to_uri parser u true authority h a split up =
    rw (is_empty-to_uri u true, split, up, named u a) (parse_path-upper_hex u h)
from_str-to_uri parser u false authority h a split up =
    rw (is_empty-to_uri u false, split, named u a) (parse_path-upper_hex u h)
