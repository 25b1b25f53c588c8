-- ===== src/Tests/Uris.antt =====
-- Runs of the definitions on UUIDs and URIs.
use up_rust.Prelude.{
  ◌-◌, ◌%◌, ◌^◌, ◌&&◌, ◌||◌, ◌≡◌, refl, ◌↔◌, true, false, some, ok, returns, arith, str_eq,
}
use up_rust.Proto.{Uuid}
use up_rust.Uuid
use up_rust.Uuid.{Bytes8, UuidText}
use up_rust.Uuid.Build.{build_for_timestamp-get_time}
use up_rust.Uuid.TextForm.{from_str-to_hyphenated_string}
use up_rust.Uri.{any}
use up_rust.Uri.Matching.{matches}
use up_rust.Uri.Matching.Laws.{Accepts, matches_iff}
use up_rust.Uri.Hex.{upper_hex, from_str_radix}
use up_rust.Uri.Hex.RoundTrip.{from_str_radix-upper_hex}
use up_rust.Uri.Parsing.{Authority, UriParser, to_uri, from_str}
use up_rust.Uri.Parsing.Bounds.{IsBounded, IsHostOnly, from_str-IsBounded}
use up_rust.Uri.Parsing.RoundTrip.{parts, remote, from_str-to_uri}
use up_rust.Tests.{entropy, entropy-IsEntropy, uuid, method}

build_for_timestamp-get_time_example :
    (u : Uuid) × (Uuid.build_for_timestamp entropy ≡ returns u)
    × (Uuid.is_uprotocol_uuid u ≡ true)
    × (Uuid.get_time u ≡ some (entropy.millis % 2 ^ 48))
build_for_timestamp-get_time_example = build_for_timestamp-get_time entropy entropy-IsEntropy

matches_iff_example : (matches any method ≡ true) ↔ Accepts any method
matches_iff_example = matches_iff any method

from_str_radix-upper_hex_example : from_str_radix (2 ^ 16 - 1) (upper_hex 0x8001) ≡ ok 0x8001
from_str_radix-upper_hex_example =
    from_str_radix-upper_hex (2 ^ 16 - 1) 0x8001 (omega arith) (omega arith)

abbrev pub vcu : Authority
vcu = record { has_port = false; has_username = false; has_password = false; host = "vcu" }

-- A parser that knows one text and one authority, and two spellings of the scheme.
abbrev parser : UriParser
parser = record {
  parse_reference = λ s. ok (parts method true (some vcu));
  parse_authority = λ s. ok vcu;
  scheme_eq = λ s t. str_eq s t || (str_eq s "UP" && str_eq t "up");
}

method-IsBounded : IsBounded method
method-IsBounded = record {
  authority = omega arith;
  ue_id = omega arith;
  version = omega arith;
  resource = omega arith;
}

pub vcu-IsHostOnly : IsHostOnly vcu "vcu"
vcu-IsHostOnly = record {
  port = refl;
  username = refl;
  password = refl;
  host = refl;
  length = omega arith;
}

from_str-to_uri_example : from_str parser (to_uri method true) ≡ ok method
from_str-to_uri_example =
    from_str-to_uri parser method true (some vcu) method-IsBounded (remote vcu vcu-IsHostOnly) refl
      refl

from_str-IsBounded_example : IsBounded method
from_str-IsBounded_example = from_str-IsBounded parser (to_uri method true) method (
    from_str-to_uri parser method true (some vcu) method-IsBounded (remote vcu vcu-IsHostOnly) refl
      refl)

-- A formatter and a parser that know one UUID.
abbrev bytes : Bytes8 × Bytes8
bytes = (
  record { b0 = 0; b1 = 0; b2 = 0; b3 = 0; b4 = 3; b5 = 232; b6 = 112; b7 = 0 },
  record { b0 = 128; b1 = 0; b2 = 0; b3 = 0; b4 = 0; b5 = 0; b6 = 0; b7 = 0 },
)

abbrev pub simd : UuidText
simd = record { format_hyphenated = λ msb lsb. "..."; parse_hyphenated = λ s. ok bytes }

pub parsed :
    simd.parse_hyphenated
      (simd.format_hyphenated (Uuid.to_be_bytes uuid.msb) (Uuid.to_be_bytes uuid.lsb))
    ≡ ok (Uuid.to_be_bytes uuid.msb, Uuid.to_be_bytes uuid.lsb)
unfolding Uuid.to_be_bytes
parsed = refl

from_str-to_hyphenated_string_example :
    (Uuid.from_str simd (Uuid.to_hyphenated_string simd uuid) ≡ ok uuid)
    ↔ ((Uuid.is_uprotocol_uuid uuid ≡ true) × (uuid ≡ uuid))
from_str-to_hyphenated_string_example =
    from_str-to_hyphenated_string simd uuid uuid parsed (omega arith) (omega arith)
