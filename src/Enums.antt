-- ===== src/Enums.antt =====
-- src/umessage/umessagetype.rs, src/uattributes/upriority.rs and
-- src/uattributes/upayloadformat.rs: the names that the proto files' options give to the values.
-- A descriptor lists the values; a media type is parsed by the mediatype crate, a parameter.
pub mod Laws
use up_rust.Prelude.{
  Bool, true, false, ◌&&◌, String, Option, none, some, List, [], ◌∷◌, Result, ok, err,
  if◌then◌else◌, str_eq, ◌++ˢ◌,
}
use up_rust.Proto.{UMessageType, UPriority, UPayloadFormat, Descriptors}
use up_rust.Attributes.{UAttributesError, parsing_error}

-- `ce_name.get(..).unwrap_or_default()`.
abbrev pub or_empty : Option String → String
or_empty none = ""
or_empty (some name) = name

abbrev pub is_named : Option String → String → Bool
is_named none name = false
is_named (some option) name = str_eq option name

-- `values().find_map(..)`: the first value of that name.
unfoldable pub find_named : {E : Type 0} → (E → Option String) → List E → String → Option E
find_named name_of [] name = none
find_named name_of (e ∷ es) name =
    if is_named (name_of e) name then some e else find_named name_of es name

abbrev or_error : {E : Type 0} → Option E → String → Result UAttributesError E
or_error none message = err (parsing_error message)
or_error (some e) message = ok e

module _ (proto : Descriptors) where
  unfoldable pub to_cloudevent_type : UMessageType → String
  to_cloudevent_type t = or_empty (proto.type_ce_name t)

  unfoldable pub try_from_cloudevent_type : String → Result UAttributesError UMessageType
  try_from_cloudevent_type type_string =
      or_error (find_named proto.type_ce_name proto.types type_string)
        ("unknown message type: " ++ˢ type_string)

  unfoldable pub to_priority_code : UPriority → String
  to_priority_code prio = or_empty (proto.priority_ce_name prio)

  unfoldable pub try_from_priority_code : String → Result UAttributesError UPriority
  try_from_priority_code prio =
      or_error (find_named proto.priority_ce_name proto.priorities prio)
        ("unknown priority [" ++ˢ prio ++ˢ "]")

-- A parsed media type: its type and its subtype.
pub record MediaType : Type 0 where
  pub ty : String
  pub subty : String

pub data UPayloadError : Type 0 where
  serialization_error : String → UPayloadError
  mediatype_problem : UPayloadError

unfoldable pub error_to_string : UPayloadError → String
error_to_string (serialization_error e) = "Serialization error: " ++ˢ e
error_to_string mediatype_problem = "Mediatype problem unsupported or malformed"

-- `name_eq` is the crate's equality of names, which ignores case.
module _ (parse_media_type : String → Option MediaType) (name_eq : String → String → Bool)
    (proto : Descriptors) where
  abbrev same_media_type : MediaType → Option MediaType → Bool
  same_media_type m none = false
  same_media_type m (some n) = name_eq n.ty m.ty && name_eq n.subty m.subty

  abbrev parsed_option : Option String → Option MediaType
  parsed_option none = none
  parsed_option (some option) = parse_media_type option

  unfoldable pub find_format : MediaType → List UPayloadFormat → Option UPayloadFormat
  find_format m [] = none
  find_format m (f ∷ fs) =
      if same_media_type m (parsed_option (proto.mime_type f)) then some f else find_format m fs

  abbrev or_problem : Option UPayloadFormat → Result UPayloadError UPayloadFormat
  or_problem none = err mediatype_problem
  or_problem (some f) = ok f

  abbrev format_of : Option MediaType → Result UPayloadError UPayloadFormat
  format_of none = err mediatype_problem
  format_of (some m) = or_problem (find_format m proto.formats)

  unfoldable pub from_media_type : String → Result UPayloadError UPayloadFormat
  unfolding find_format
  from_media_type s = format_of (parse_media_type s)

unfoldable pub to_media_type : Descriptors → UPayloadFormat → Option String
to_media_type proto f = proto.mime_type f
