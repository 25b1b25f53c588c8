-- ===== src/Uuid/Fields.antt =====
-- src/uuid.rs: the version and variant tests as fields of the two words.
use up_rust.Prelude.{
  ℕ, ◌*◌, ◌/◌, ◌%◌, ◌^◌, ◌≡◌, refl, ◌↔◌, ◌∙◌, bit_and, true, arith, bit_and-ones, bit_and-shifted,
}
use up_rust.Proto.{Uuid}
use up_rust.Uuid.{bitmask_version, bitmask_variant, is_uprotocol_uuid}

version_field : (msb : ℕ) → bit_and msb bitmask_version ≡ msb / 2 ^ 12 % 16 * 2 ^ 12
version_field msb = bit_and-shifted 12 msb 15 ∙ rw (bit_and-ones 4 (msb / 2 ^ 12)) refl

variant_field : (lsb : ℕ) → bit_and lsb bitmask_variant ≡ lsb / 2 ^ 62 % 4 * 2 ^ 62
variant_field lsb = bit_and-shifted 62 lsb 3 ∙ rw (bit_and-ones 2 (lsb / 2 ^ 62)) refl

-- A UUID is a uProtocol UUID exactly if its version field is 7 and its variant field is binary 10.
pub is_uprotocol_uuid_iff :
    (u : Uuid)
    → (is_uprotocol_uuid u ≡ true) ↔ ((u.msb / 2 ^ 12 % 16 ≡ 7) × (u.lsb / 2 ^ 62 % 4 ≡ 2))
unfolding is_uprotocol_uuid
is_uprotocol_uuid_iff u = (
  λ h. ground (arith, version_field u.msb, variant_field u.lsb),
  λ h. ground (arith, version_field u.msb, variant_field u.lsb),
)
