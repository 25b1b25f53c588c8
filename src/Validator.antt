-- ===== src/Validator.antt =====
-- src/uattributes/uattributesvalidator.rs: the four validators of message attributes. A validator
-- is one of the values of `UAttributesValidators`; the trait's methods dispatch on it.
pub mod Report
pub mod Rules
pub mod Laws
use up_rust.Prelude.{
  ℕ, Bool, String, Option, none, some, List, [], ◌∷◌, Result, ok, err, map_err, ltb, if◌then◌else◌,
  ◌++ˢ◌, join, is_empty, not, false,
}
use up_rust.Prelude.Int.{ℤ, show_ℤ}
use up_rust.Proto.{
  EnumOrUnknown, known, unknown, enum_value_or, UMessageType, UPriority, UCode, Uuid, UUri,
  UAttributes, Descriptors, default_type, type_eq,
}
use up_rust.Uuid
use up_rust.Uri.{
  verify_no_wildcards, is_rpc_response, is_notification_destination, verify_event,
  verify_rpc_method, verify_rpc_response,
}
use up_rust.Uri
use up_rust.Attributes.{UAttributesError, validation_error}
use up_rust.Attributes

abbrev pub Check : Type 0
Check = Result UAttributesError (Unit {0})

abbrev fail : String → Check
fail message = err (validation_error message)

pub data UAttributesValidators : Type 0 where
  publish notification request response : UAttributesValidators

-- `filter_map(Result::err)` and `to_string` of each error.
unfoldable pub messages : List Check → List String
messages [] = []
messages (ok _ ∷ checks) = messages checks
messages (err e ∷ checks) = Attributes.to_string e ∷ messages checks

-- The messages of the failed checks, joined; no message means that all checks passed.
unfoldable pub report : List Check → Check
report checks =
    let error_message = join "; " (messages checks) in
    if is_empty error_message then ok tt else err (validation_error error_message)

abbrev uri_check : String → Result Uri.UUriError (Unit {0}) → Check
uri_check prefix r = map_err (λ e. validation_error (prefix ++ˢ Uri.to_string e)) r

unfoldable pub message_type : UAttributesValidators → UMessageType
message_type publish = UMessageType.publish
message_type notification = UMessageType.notification
message_type request = UMessageType.request
message_type response = UMessageType.response

-- `as_ref().is_some_and(|id| id.is_uprotocol_uuid())`.
abbrev is_valid_id : Option Uuid → Bool
is_valid_id none = false
is_valid_id (some id) = Uuid.is_uprotocol_uuid id

unfoldable pub validate_id : UAttributes → Check
validate_id a =
    if is_valid_id a.id
    then ok tt
    else fail "Attributes must contain valid uProtocol UUID in id property"

abbrev publish_source : Option UUri → Check
publish_source (some source) = uri_check "Invalid source URI: " (verify_event source)
publish_source none = fail "Attributes for a publish message must contain a source URI"

abbrev publish_sink : Option UUri → Check
publish_sink (some sink) = fail "Attributes for a publish message must not contain a sink URI"
publish_sink none = ok tt

abbrev notification_source : Option UUri → Check
notification_source (some source) =
    if is_rpc_response source
    then fail "Origin must not be an RPC response URI"
    else uri_check "Invalid source URI: " (verify_no_wildcards source)
notification_source none = fail "Attributes must contain a source URI"

abbrev notification_sink : Option UUri → Check
notification_sink (some sink) =
    if not (is_notification_destination sink)
    then fail "Destination's resource ID must be 0"
    else uri_check "Invalid sink URI: " (verify_no_wildcards sink)
notification_sink none = fail "Attributes for a notification message must contain a sink URI"

abbrev request_source : Option UUri → Check
request_source (some source) = uri_check "Invalid source URI: " (verify_rpc_response source)
request_source none =
    fail "Attributes for a request message must contain a reply-to address in the source property"

abbrev request_sink : Option UUri → Check
request_sink (some sink) = uri_check "Invalid sink URI: " (verify_rpc_method sink)
request_sink none =
    fail "Attributes for a request message must contain a method-to-invoke in the sink property"

abbrev response_source : Option UUri → Check
response_source (some source) = uri_check "Invalid source URI: " (verify_rpc_method source)
response_source none = fail "Missing Source"

abbrev response_sink : Option UUri → Check
response_sink (some sink) = uri_check "Invalid sink URI: " (verify_rpc_response sink)
response_sink none = fail "Missing Sink"

unfoldable pub validate_source : UAttributesValidators → UAttributes → Check
validate_source publish a = publish_source a.source
validate_source notification a = notification_source a.source
validate_source request a = request_source a.source
validate_source response a = response_source a.source

unfoldable pub validate_sink : UAttributesValidators → UAttributes → Check
validate_sink publish a = publish_sink a.sink
validate_sink notification a = notification_sink a.sink
validate_sink request a = request_sink a.sink
validate_sink response a = response_sink a.sink

abbrev positive_ttl : Option ℕ → Check
positive_ttl (some ttl) =
    if ltb 0 ttl then ok tt else fail "RPC request message's TTL must be a positive integer [0]"
positive_ttl none = fail "RPC request message must contain a TTL"

unfoldable pub validate_ttl : UAttributes → Check
validate_ttl a = positive_ttl a.ttl

unfoldable pub validate_reqid : UAttributes → Check
validate_reqid a =
    if not (is_valid_id a.reqid) then fail "Request ID is not a valid uProtocol UUID" else ok tt

abbrev known_code : Option (EnumOrUnknown UCode) → Check
known_code none = ok tt
known_code (some (known code)) = ok tt
known_code (some (unknown code)) = fail ("Invalid Communication Status code: " ++ˢ show_ℤ code)

unfoldable pub validate_commstatus : UAttributes → Check
validate_commstatus a = known_code a.commstatus

unfoldable pub get_validator : UMessageType → UAttributesValidators
get_validator UMessageType.request = request
get_validator UMessageType.response = response
get_validator UMessageType.notification = notification
get_validator _ = publish

unfoldable pub get_validator_for_attributes : UAttributes → UAttributesValidators
unfolding get_validator
get_validator_for_attributes a = get_validator (enum_value_or a.type_ default_type)

module _ (proto : Descriptors) where
  -- The name of a type in the error's text is empty where the proto file gives none.
  abbrev type_name : Option String → String
  type_name none = ""
  type_name (some name) = name

  abbrev matching_type : UMessageType → EnumOrUnknown UMessageType → Check
  matching_type expected (known mt) =
      if type_eq mt expected
      then ok tt
      else fail ("Wrong Message Type [" ++ˢ type_name (proto.type_ce_name mt) ++ˢ "]")
  matching_type expected (unknown code) =
      fail ("Unknown Message Type code [" ++ˢ show_ℤ code ++ˢ "]")

  unfoldable pub validate_type : UAttributesValidators → UAttributes → Check
  unfolding message_type
  validate_type v a = matching_type (message_type v) a.type_

  abbrev rpc_priority : EnumOrUnknown UPriority → Check
  rpc_priority (known prio) =
      if ltb (proto.priority_value prio) (proto.priority_value UPriority.cs4)
      then fail "RPC message must have a priority of at least CS4"
      else ok tt
  rpc_priority (unknown code) =
      fail ("RPC message must have a valid priority [" ++ˢ show_ℤ code ++ˢ "]")

  unfoldable pub validate_rpc_priority : UAttributes → Check
  validate_rpc_priority a = rpc_priority a.priority

  abbrev validate_publish : UAttributes → Check
  validate_publish a = report (
      validate_type publish a
      ∷ validate_id a
      ∷ validate_source publish a
      ∷ validate_sink publish a
      ∷ [])

  abbrev validate_notification : UAttributes → Check
  validate_notification a = report (
      validate_type notification a
      ∷ validate_id a
      ∷ validate_source notification a
      ∷ validate_sink notification a
      ∷ [])

  abbrev validate_request : UAttributes → Check
  validate_request a = report (
      validate_type request a
      ∷ validate_id a
      ∷ validate_ttl a
      ∷ validate_source request a
      ∷ validate_sink request a
      ∷ validate_rpc_priority a
      ∷ [])

  abbrev validate_response : UAttributes → Check
  validate_response a = report (
      validate_type response a
      ∷ validate_id a
      ∷ validate_source response a
      ∷ validate_sink response a
      ∷ validate_reqid a
      ∷ validate_commstatus a
      ∷ validate_rpc_priority a
      ∷ [])

  -- The `validate` of the validator that `validator` makes.
  unfoldable pub validate : UAttributesValidators → UAttributes → Check
  validate publish a = validate_publish a
  validate notification a = validate_notification a
  validate request a = validate_request a
  validate response a = validate_response a
