-- ===== src/CloudEvents/Normal.antt =====
-- src/cloudevents.rs: what a message's properties are like for the way through an event and back.
use mathlib.Core.List.{Memᴰ}
use up_rust.Prelude.{ℕ, ◌≡◌, false, String, Option, none, some, List, ok}
use up_rust.Proto.{
  EnumOrUnknown, known, unknown, UPriority, UPayloadFormat, UCode, UAttributes, Descriptors,
}
use up_rust.Uuid
use up_rust.Uuid.{UuidText}
use up_rust.Uri.Parsing.{UriParser, to_uri, from_str}
use up_rust.Enums.Laws.{IsInjective}
use up_rust.Message.{or_cs1, known_value}
use up_rust.Prelude.Optional
use up_rust.CloudEvents.{known_code, format_or_default}
use up_rust.CloudEvents.Event.{EnumNumbers}
use up_rust.CloudEvents.Extensions.{written_code}

-- The value satisfies `P`, if there is one.
abbrev pub Each : {A : Type 0} → (A → Type 0) → Option A → Type 0
Each P none = Unit
Each P (some a) = P a

-- The proto file lists the value and gives it a name.
abbrev pub IsNamed : {E : Type 0} → (E → Option String) → List E → E → Type 0
IsNamed name_of es e = (name : String) × Memᴰ e es × (name_of e ≡ some name)

abbrev pub EachKnown : {E : Type 0} → (E → Type 0) → EnumOrUnknown E → Type 0
EachKnown P (known e) = P e
EachKnown P (unknown n) = Unit

-- What the conversions rely on for the attributes `a`: uuid_simd and uriparse read back the texts
-- of the UUIDs and URIs, and the proto files name the type and the priority.
pub record IsReadable (simd : UuidText) (parser : UriParser) (proto : Descriptors) (a : UAttributes)
    : Type 0 where
  pub id : Each (λ i. Uuid.from_str simd (Uuid.to_hyphenated_string simd i) ≡ ok i) a.id
  pub reqid : Each (λ i. Uuid.from_str simd (Uuid.to_hyphenated_string simd i) ≡ ok i) a.reqid
  pub source : Each (λ u. from_str parser (to_uri u false) ≡ ok u) a.source
  pub sink : Each (λ u. from_str parser (to_uri u false) ≡ ok u) a.sink
  pub type_ : EachKnown (IsNamed proto.type_ce_name proto.types) a.type_
  pub priority :
      EachKnown (λ p. IsNamed proto.priority_ce_name proto.priorities (or_cs1 p)) a.priority

-- No two values have the same name.
pub record HasDistinctNames (proto : Descriptors) : Type 0 where
  pub types : IsInjective proto.type_ce_name
  pub priorities : IsInjective proto.priority_ce_name

-- rust-protobuf reads the numbers back that it writes.
pub record ReadsNumbers (numbers : EnumNumbers) : Type 0 where
  pub codes : (c : UCode) → numbers.code_from_i32 (numbers.code_value c) ≡ some c
  pub formats : (f : UPayloadFormat) → numbers.format_from_i32 (numbers.format_value f) ≡ some f

abbrev pub explicit : EnumOrUnknown UPriority → EnumOrUnknown UPriority
explicit (known p) = known (or_cs1 p)
explicit (unknown n) = unknown n

abbrev pub kept_format : Option (List ℕ) → Option UPayloadFormat → UPayloadFormat
kept_format none f = UPayloadFormat.unspecified
kept_format (some payload) f = format_or_default f

abbrev pub code_value_of : Option (EnumOrUnknown UCode) → Option UCode
code_value_of o = Optional.◌>>=◌ o known_value

-- What is left of a message's attributes: a priority that was left out is CS1, the status OK and an
-- unknown status are left out, and so is the format where there is no payload.
abbrev pub normal : UAttributes → Option (List ℕ) → UAttributes
normal a payload = record a {
  priority = explicit a.priority;
  commstatus = known_code (written_code (code_value_of a.commstatus));
  payload_format = known (kept_format payload (known_value a.payload_format));
}
