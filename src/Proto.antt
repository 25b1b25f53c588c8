-- ===== src/Proto.antt =====
-- The messages and enumerations that the build generates from the up-spec protobuf files: the
-- fields and the names of values that src/**/*.rs uses. Numbers of fixed width are native
-- numbers; `bytes` are lists of bytes; `MessageField` and `optional` are `Option`.
use up_rust.Prelude.{ℕ, String, Option, none, List, Result, Bool, true, false, ◌≡◌, ◌↔◌, arith}
use up_rust.Prelude.Fallible
use up_rust.Prelude.Int.{ℤ}

-- A value of an open enumeration: one that the program knows, or the number of another.
pub data EnumOrUnknown (E : Type 0) : Type 0 where
  known : E → EnumOrUnknown E
  unknown : ℤ → EnumOrUnknown E

abbrev pub enum_value : {E : Type 0} → EnumOrUnknown E → Result ℤ E
enum_value (known e) = Fallible.ok e
enum_value (unknown code) = Fallible.err code

abbrev pub enum_value_or : {E : Type 0} → EnumOrUnknown E → E → E
enum_value_or (known e) d = e
enum_value_or (unknown code) d = d

pub data UMessageType : Type 0 where
  unspecified publish request response notification : UMessageType

pub data UPriority : Type 0 where
  unspecified cs0 cs1 cs2 cs3 cs4 cs5 cs6 : UPriority

pub data UPayloadFormat : Type 0 where
  unspecified protobuf_wrapped_in_any protobuf json someip someip_tlv raw text shm : UPayloadFormat

pub data UCode : Type 0 where
  ok cancelled unknown invalid_argument deadline_exceeded not_found already_exists : UCode
  permission_denied unauthenticated resource_exhausted failed_precondition : UCode
  unimplemented internal unavailable data_loss : UCode

-- `msb` and `lsb` are 64 bits wide.
pub record Uuid : Type 0 where
  pub msb : ℕ
  pub lsb : ℕ

-- The three numbers are 32 bits wide.
pub record UUri : Type 0 where
  pub authority_name : String
  pub ue_id : ℕ
  pub ue_version_major : ℕ
  pub resource_id : ℕ

pub record UAttributes : Type 0 where
  pub id : Option Uuid
  pub type_ : EnumOrUnknown UMessageType
  pub source : Option UUri
  pub sink : Option UUri
  pub priority : EnumOrUnknown UPriority
  pub ttl : Option ℕ
  pub permission_level : Option ℕ
  pub commstatus : Option (EnumOrUnknown UCode)
  pub reqid : Option Uuid
  pub token : Option String
  pub traceparent : Option String
  pub payload_format : EnumOrUnknown UPayloadFormat

pub record UMessage : Type 0 where
  pub attributes : Option UAttributes
  pub payload : Option (List ℕ)

pub record UStatus : Type 0 where
  pub code : EnumOrUnknown UCode
  pub message : Option String

-- The default of a generated enumeration is its value of number zero.
abbrev pub default_type : UMessageType
default_type = UMessageType.unspecified

abbrev pub default_format : UPayloadFormat
default_format = UPayloadFormat.unspecified

abbrev pub default_code : UCode
default_code = UCode.ok

abbrev pub default_UUri : UUri
default_UUri = record { authority_name = ""; ue_id = 0; ue_version_major = 0; resource_id = 0 }

abbrev pub default_Uuid : Uuid
default_Uuid = record { msb = 0; lsb = 0 }

abbrev pub default_UAttributes : UAttributes
default_UAttributes = record {
  id = none;
  type_ = known default_type;
  source = none;
  sink = none;
  priority = known UPriority.unspecified;
  ttl = none;
  permission_level = none;
  commstatus = none;
  reqid = none;
  token = none;
  traceparent = none;
  payload_format = known default_format;
}

-- What the proto files assign to the values of the enumerations: the order in which a descriptor
-- lists them, their numbers, and the names that their options carry.
pub record Descriptors : Type 0 where
  pub types : List UMessageType
  pub type_ce_name : UMessageType → Option String
  pub priorities : List UPriority
  pub priority_ce_name : UPriority → Option String
  pub priority_value : UPriority → ℕ
  pub formats : List UPayloadFormat
  pub mime_type : UPayloadFormat → Option String

abbrev pub type_eq : UMessageType → UMessageType → Bool
type_eq UMessageType.unspecified UMessageType.unspecified = true
type_eq UMessageType.publish UMessageType.publish = true
type_eq UMessageType.request UMessageType.request = true
type_eq UMessageType.response UMessageType.response = true
type_eq UMessageType.notification UMessageType.notification = true
type_eq _ _ = false

pub type_eq_iff : (s t : UMessageType) → (type_eq s t ≡ true) ↔ (s ≡ t)
type_eq_iff s t = (λ h. ground arith, λ h. ground arith)

abbrev pub is_cs1 : UPriority → Bool
is_cs1 UPriority.cs1 = true
is_cs1 _ = false

abbrev pub is_ok : UCode → Bool
is_ok UCode.ok = true
is_ok _ = false
