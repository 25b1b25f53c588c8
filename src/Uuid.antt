-- ===== src/Uuid.antt =====
-- src/uuid.rs: the version 7 UUIDs of uProtocol. The clock's reading and the random bytes of
-- `build` are arguments; the text form goes through the uuid_simd crate, a parameter.
pub mod Fields
pub mod Build
pub mod TextForm
use up_rust.Prelude.{
  ◌++ˢ◌, ℕ, ◌+◌, ◌*◌, ◌/◌, ◌%◌, ◌^◌, bit_and, bit_or, Bool, not, ◌&&◌, String, Option, none, some,
  Result, ok, err, map_err, Run, returns, panics, ◌==◌, ltb, if◌then◌else◌,
}
use up_rust.Prelude.Fallible.{◌>>=◌}
use up_rust.Proto.{Uuid}

-- `u64::to_be_bytes` and `u64::from_be_bytes`, most significant byte first.
pub record Bytes8 : Type 0 where
  pub b0 : ℕ
  pub b1 : ℕ
  pub b2 : ℕ
  pub b3 : ℕ
  pub b4 : ℕ
  pub b5 : ℕ
  pub b6 : ℕ
  pub b7 : ℕ

unfoldable pub to_be_bytes : ℕ → Bytes8
to_be_bytes n = record {
  b0 = n / 2 ^ 56 % 256;
  b1 = n / 2 ^ 48 % 256;
  b2 = n / 2 ^ 40 % 256;
  b3 = n / 2 ^ 32 % 256;
  b4 = n / 2 ^ 24 % 256;
  b5 = n / 2 ^ 16 % 256;
  b6 = n / 2 ^ 8 % 256;
  b7 = n % 256;
}

unfoldable pub from_be_bytes : Bytes8 → ℕ
from_be_bytes b =
    b.b0 * 2 ^ 56
    + b.b1 * 2 ^ 48
    + b.b2 * 2 ^ 40
    + b.b3 * 2 ^ 32
    + b.b4 * 2 ^ 24
    + b.b5 * 2 ^ 16
    + b.b6 * 2 ^ 8
    + b.b7

abbrev pub bitmask_version : ℕ
bitmask_version = 0b1111 * 2 ^ 12

abbrev pub version_7 : ℕ
version_7 = 0b0111 * 2 ^ 12

abbrev pub bitmask_variant : ℕ
bitmask_variant = 0b11 * 2 ^ 62

abbrev pub variant_rfc4122 : ℕ
variant_rfc4122 = 0b10 * 2 ^ 62

pub is_correct_version : ℕ → Bool
is_correct_version msb = bit_and msb bitmask_version == version_7

pub is_correct_variant : ℕ → Bool
is_correct_variant lsb = bit_and lsb bitmask_variant == variant_rfc4122

unfoldable pub is_uprotocol_uuid : Uuid → Bool
unfolding is_correct_version is_correct_variant
is_uprotocol_uuid u = is_correct_version u.msb && is_correct_variant u.lsb

-- The message of the error.
pub record UuidConversionError : Type 0 where
  pub message : String

unfoldable pub to_string : UuidConversionError → String
to_string e = "Error converting Uuid: " ++ˢ e.message

unfoldable pub from_u64_pair : ℕ → ℕ → Result UuidConversionError Uuid
unfolding is_correct_version is_correct_variant
from_u64_pair msb lsb =
    if not (is_correct_version msb)
    then err (record { message = "not a v7 UUID" })
    else if not (is_correct_variant lsb)
    then err (record { message = "not an RFC4122 UUID" })
    else ok (record { msb = msb; lsb = lsb })

-- The sixteen bytes are given by their halves.
unfoldable pub from_bytes : Bytes8 → Bytes8 → Result UuidConversionError Uuid
unfolding from_be_bytes from_u64_pair
from_bytes msb lsb = from_u64_pair (from_be_bytes msb) (from_be_bytes lsb)

unfoldable pub from_bytes_unchecked : Bytes8 → Bytes8 → Uuid
unfolding from_be_bytes
from_bytes_unchecked msb lsb = record { msb = from_be_bytes msb; lsb = from_be_bytes lsb }

-- What `build` reads from outside: the milliseconds since the epoch, the two random bytes that
-- it puts into the first half and the eight of the second.
pub record Entropy : Type 0 where
  pub millis : ℕ
  pub r6 : ℕ
  pub r7 : ℕ
  pub random_lsb : Bytes8

unfoldable pub build_for_timestamp : Entropy → Run Uuid
unfolding to_be_bytes from_bytes_unchecked
build_for_timestamp e =
    if ltb e.millis (2 ^ 64)
    then returns (
        from_bytes_unchecked
          (record (to_be_bytes (e.millis * 2 ^ 16 % 2 ^ 64)) {
            b6 = bit_or (bit_and e.r6 0b00001111) 0b01110000;
            b7 = e.r7;
          })
          (record (e.random_lsb) { b0 = bit_or (bit_and e.random_lsb.b0 0b00111111) 0b10000000 }))
    else panics "system time is set to a time too far in the future"

unfoldable pub get_time : Uuid → Option ℕ
unfolding is_uprotocol_uuid
get_time u = if is_uprotocol_uuid u then some (u.msb / 2 ^ 16) else none

-- uuid_simd: the hyphenated text of sixteen bytes, and its parser with the message of its error.
pub record UuidText : Type 0 where
  pub format_hyphenated : Bytes8 → Bytes8 → String
  pub parse_hyphenated : String → Result String (Bytes8 × Bytes8)

module _ (simd : UuidText) where
  open simd use {format_hyphenated, parse_hyphenated}

  unfoldable pub to_hyphenated_string : Uuid → String
  unfolding to_be_bytes
  to_hyphenated_string u = format_hyphenated (to_be_bytes u.msb) (to_be_bytes u.lsb)

  unfoldable pub from_str : String → Result UuidConversionError Uuid
  unfolding from_bytes
  from_str s =
      map_err (λ e. record { message = e }) (parse_hyphenated s) >>= λ b. from_bytes b.0 b.1
