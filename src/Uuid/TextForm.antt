-- ===== src/Uuid/TextForm.antt =====
-- src/uuid.rs: reading the text form of a UUID.
use up_rust.Prelude.{ℕ, ◌↔◌, ◌^◌, ◌<◌, ◌≡◌, true, ok, arith}
use up_rust.Proto.{Uuid}
use up_rust.Uuid.{
  to_be_bytes, from_be_bytes, is_uprotocol_uuid, from_u64_pair, from_bytes, UuidText,
  to_hyphenated_string, from_str,
}

from_be_bytes-to_be_bytes : (n : ℕ) → n < 2 ^ 64 → from_be_bytes (to_be_bytes n) ≡ n
unfolding from_be_bytes to_be_bytes
from_be_bytes-to_be_bytes n h = omega arith

from_u64_pair-eq-ok_iff :
    (msb lsb : ℕ) (u : Uuid)
    → (from_u64_pair msb lsb ≡ ok u) ↔ (
        (is_uprotocol_uuid (record { msb = msb; lsb = lsb }) ≡ true)
        × (u ≡ record { msb = msb; lsb = lsb }))
unfolding from_u64_pair is_uprotocol_uuid
from_u64_pair-eq-ok_iff msb lsb u = (λ h. ground arith, λ h. ground arith)

module _ (simd : UuidText) where
  -- Where uuid_simd parses the text that it formats for a UUID back to its bytes, reading the text
  -- of that UUID of two 64 bit words gives a UUID exactly if it is a valid uProtocol UUID, and then
  -- that UUID.
  pub from_str-to_hyphenated_string :
      (u v : Uuid)
      → simd.parse_hyphenated (simd.format_hyphenated (to_be_bytes u.msb) (to_be_bytes u.lsb))
        ≡ ok (to_be_bytes u.msb, to_be_bytes u.lsb)
      → u.msb < 2 ^ 64
      → u.lsb < 2 ^ 64
      → (from_str simd (to_hyphenated_string simd u) ≡ ok v)
        ↔ ((is_uprotocol_uuid u ≡ true) × (v ≡ u))
  unfolding from_str to_hyphenated_string from_bytes
  from_str-to_hyphenated_string u v law hm hl =
      rw (law, from_be_bytes-to_be_bytes u.msb hm, from_be_bytes-to_be_bytes u.lsb hl)
        (from_u64_pair-eq-ok_iff u.msb u.lsb v)
