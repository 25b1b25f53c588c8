-- ===== src/Uuid/Build.antt =====
-- src/uuid.rs: what `build` produces from the clock and the random bytes.
use up_rust.Prelude.{
  ℕ, ◌+◌, ◌*◌, ◌/◌, ◌%◌, ◌^◌, ◌<◌, ◌≡◌, refl, bit_and, bit_or, true, some, returns, arith, ◌==◌,
  ==_iff, all_below, all_below_sound, ltb_iff, ap, ◌∙◌,
}
use up_rust.Proto.{Uuid}
use up_rust.Uuid.{
  Bytes8, to_be_bytes, from_be_bytes, from_bytes_unchecked, Entropy, is_uprotocol_uuid, get_time,
  build_for_timestamp,
}
use up_rust.Uuid.Fields.{is_uprotocol_uuid_iff}

-- Every byte is below 256.
pub record IsBytes (b : Bytes8) : Type 0 where
  pub l0 : b.b0 < 256
  pub l1 : b.b1 < 256
  pub l2 : b.b2 < 256
  pub l3 : b.b3 < 256
  pub l4 : b.b4 < 256
  pub l5 : b.b5 < 256
  pub l6 : b.b6 < 256
  pub l7 : b.b7 < 256

pub record IsEntropy (e : Entropy) : Type 0 where
  pub in_time : e.millis < 2 ^ 64
  pub l6 : e.r6 < 256
  pub l7 : e.r7 < 256
  pub lsb : IsBytes e.random_lsb

abbrev version_byte : ℕ → ℕ
version_byte r = bit_or (bit_and r 0b00001111) 0b01110000

abbrev variant_byte : ℕ → ℕ
variant_byte r = bit_or (bit_and r 0b00111111) 0b10000000

version_table : all_below 256 (λ r. version_byte r / 16 == 7) ≡ true
unfolding all_below
version_table = refl

variant_table : all_below 256 (λ r. variant_byte r / 64 == 2) ≡ true
unfolding all_below
variant_table = refl

version_byte_high : (r : ℕ) → r < 256 → version_byte r / 16 ≡ 7
version_byte_high r h = (==_iff _ 7).0 (all_below_sound 256 _ r h version_table)

variant_byte_high : (r : ℕ) → r < 256 → variant_byte r / 64 ≡ 2
variant_byte_high r h = (==_iff _ 2).0 (all_below_sound 256 _ r h variant_table)

-- The 48 bits of a timestamp stand in front of the two bytes that replace the lower ones.
from_be_bytes-stamped :
    (t c d : ℕ)
    → from_be_bytes (record (to_be_bytes (t * 2 ^ 16 % 2 ^ 64)) { b6 = c; b7 = d })
      ≡ t % 2 ^ 48 * 2 ^ 16 + c * 2 ^ 8 + d
unfolding from_be_bytes to_be_bytes
from_be_bytes-stamped t c d = omega arith

stamped : Entropy → Uuid
stamped e =
    from_bytes_unchecked
      (record (to_be_bytes (e.millis * 2 ^ 16 % 2 ^ 64)) { b6 = version_byte e.r6; b7 = e.r7 })
      (record (e.random_lsb) { b0 = variant_byte e.random_lsb.b0 })

stamped_msb :
    (e : Entropy) → (stamped e).msb ≡ e.millis % 2 ^ 48 * 2 ^ 16 + version_byte e.r6 * 2 ^ 8 + e.r7
unfolding stamped from_bytes_unchecked
stamped_msb e = from_be_bytes-stamped e.millis (version_byte e.r6) e.r7

stamped_lsb :
    (e : Entropy) → IsEntropy e → (stamped e).lsb / 2 ^ 62 ≡ variant_byte e.random_lsb.b0 / 64
unfolding stamped from_bytes_unchecked
stamped_lsb e h = omega (arith, h.lsb.l1)

stamped_valid : (e : Entropy) → IsEntropy e → is_uprotocol_uuid (stamped e) ≡ true
stamped_valid e h = (is_uprotocol_uuid_iff (stamped e)).1 (
  omega (arith, stamped_msb e, version_byte_high e.r6 h.l6, h.l7),
  omega (arith, stamped_lsb e h, variant_byte_high e.random_lsb.b0 h.lsb.l0),
)

get_time_of_valid : (u : Uuid) → is_uprotocol_uuid u ≡ true → get_time u ≡ some (u.msb / 2 ^ 16)
unfolding get_time
get_time_of_valid u h = rw h refl

stamped_time : (e : Entropy) → IsEntropy e → get_time (stamped e) ≡ some (e.millis % 2 ^ 48)
stamped_time e h =
    get_time_of_valid (stamped e) (stamped_valid e h)
    ∙ ap some (omega (arith, stamped_msb e, version_byte_high e.r6 h.l6, h.l7))

-- With a clock below 2 ^ 64 milliseconds and any random bytes, `build_for_timestamp` returns a
-- UUID that is a valid uProtocol UUID, and `get_time` reads the lower 48 bits of the clock from
-- it.
pub build_for_timestamp-get_time :
    (e : Entropy)
    → IsEntropy e
    → (u : Uuid) × (build_for_timestamp e ≡ returns u)
      × (is_uprotocol_uuid u ≡ true)
      × (get_time u ≡ some (e.millis % 2 ^ 48))
unfolding stamped build_for_timestamp
build_for_timestamp-get_time e h =
    (stamped e, rw ((ltb_iff _ _).1 h.in_time) refl, stamped_valid e h, stamped_time e h)
