-- ===== src/Tests/Messages.antt =====
-- Runs of the definitions on attributes, statuses, names and builders.
use up_rust.Prelude.{
  ◌+◌, ◌≤◌, ◌<◌, ◌≡◌, refl, ◌↔◌, true, String, Option, none, some, ok, err, returns, panics, arith,
  if◌then◌else◌, str_eq, sym, ap, ◌∙◌,
}
use up_rust.Proto.{UMessageType, UPriority, UPayloadFormat, UCode, Uuid, UMessage}
use up_rust.Uuid
use up_rust.Attributes.{validation_error, check_expired}
use up_rust.Attributes.Expiry.{check_expired_iff, check_expired_ahead}
use up_rust.Validator.{UAttributesValidators, validate, get_validator_for_attributes}
use up_rust.Validator.Laws.{IsValid, validate_iff, get_validator_for_attributes_iff}
use up_rust.Enums.Laws.{IsInjective}
use up_rust.Builder
use up_rust.Builder.{UMessageBuilder, attributes_of, id_or_new, build}
use up_rust.Builder.Build.{build-IsValid, build_of_IsValid}
use up_rust.Builder.Responses.{answer, Answers, build-response_for_request}
use up_rust.Builder.Reachable.{
  Reachable, request_call, message_id_call, IsConsistent, Reachable-IsConsistent,
}
use up_rust.Tests.{
  proto, type_name, priority_name, entropy, entropy-IsEntropy, uuid, uuid_valid, client, method,
  request_attributes, publish_attributes, request_valid,
}

validate_iff_example :
    (validate proto UAttributesValidators.request request_attributes ≡ ok tt)
    ↔ IsValid proto UAttributesValidators.request request_attributes
validate_iff_example = validate_iff proto UAttributesValidators.request request_attributes

get_validator_for_attributes_iff_example :
    (validate proto UAttributesValidators.publish publish_attributes ≡ ok tt) ↔ (
      (validate proto (get_validator_for_attributes publish_attributes) publish_attributes ≡ ok tt)
      × (get_validator_for_attributes publish_attributes ≡ UAttributesValidators.publish))
get_validator_for_attributes_iff_example =
    get_validator_for_attributes_iff proto UAttributesValidators.publish publish_attributes

created : Uuid.get_time uuid ≡ some 1000
unfolding Uuid.get_time
created = refl

check_expired_iff_example :
    ((check_expired true (ok 2000) request_attributes
        ≡ returns (err (validation_error "message is expired")))
      ↔ (1000 + 5000 ≤ 2000))
    × ((check_expired true (ok 2000) request_attributes ≡ returns (ok tt)) ↔ (2000 < 1000 + 5000))
check_expired_iff_example =
    check_expired_iff true 2000 request_attributes 5000 1000 refl (omega arith) created
      (omega arith) (omega arith)

check_expired_ahead_example :
    check_expired true (ok 999) request_attributes ≡ panics "attempt to subtract with overflow"
check_expired_ahead_example =
    check_expired_ahead true 999 request_attributes 5000 1000 refl (omega arith) (omega arith)
      created (omega arith) (omega arith)

abbrev type_of : Option String → UMessageType
type_of none = UMessageType.unspecified
type_of (some name) =
    if str_eq name "pub.v1"
    then UMessageType.publish
    else if str_eq name "req.v1"
    then UMessageType.request
    else if str_eq name "res.v1"
    then UMessageType.response
    else UMessageType.notification

type_of-type_name : (t : UMessageType) → type_of (type_name t) ≡ t
type_of-type_name UMessageType.unspecified = refl
type_of-type_name UMessageType.publish = refl
type_of-type_name UMessageType.request = refl
type_of-type_name UMessageType.response = refl
type_of-type_name UMessageType.notification = refl

pub type_name-IsInjective : IsInjective type_name
type_name-IsInjective d e name h k =
    sym (type_of-type_name d) ∙ ap type_of (h ∙ sym k) ∙ type_of-type_name e

abbrev priority_of : Option String → UPriority
priority_of none = UPriority.unspecified
priority_of (some name) =
    if str_eq name "CS0"
    then UPriority.cs0
    else if str_eq name "CS1"
    then UPriority.cs1
    else if str_eq name "CS2"
    then UPriority.cs2
    else if str_eq name "CS3"
    then UPriority.cs3
    else if str_eq name "CS4"
    then UPriority.cs4
    else if str_eq name "CS5"
    then UPriority.cs5
    else UPriority.cs6

priority_of-priority_name : (p : UPriority) → priority_of (priority_name p) ≡ p
priority_of-priority_name UPriority.unspecified = refl
priority_of-priority_name UPriority.cs0 = refl
priority_of-priority_name UPriority.cs1 = refl
priority_of-priority_name UPriority.cs2 = refl
priority_of-priority_name UPriority.cs3 = refl
priority_of-priority_name UPriority.cs4 = refl
priority_of-priority_name UPriority.cs5 = refl
priority_of-priority_name UPriority.cs6 = refl

pub priority_name-IsInjective : IsInjective priority_name
priority_name-IsInjective d e name h k =
    sym (priority_of-priority_name d) ∙ ap priority_of (h ∙ sym k) ∙ priority_of-priority_name e

-- A request under the UUID `uuid`.
abbrev builder : UMessageBuilder
builder = record (Builder.request method client 5000) { message_id = some uuid }

abbrev message : UMessage
message = record { attributes = some (attributes_of builder uuid); payload = none }

builder_given : id_or_new entropy builder.message_id ≡ returns uuid
unfolding id_or_new
builder_given = refl

builder-IsValid : IsValid proto UAttributesValidators.request (attributes_of builder uuid)
unfolding Builder.request
builder-IsValid =
    (validate_iff proto UAttributesValidators.request request_attributes).0 request_valid

built : build proto entropy builder ≡ returns (ok message)
unfolding Builder.request
built = build_of_IsValid proto entropy builder uuid builder_given builder-IsValid

build-IsValid_example :
    (id : Uuid) × (id_or_new entropy builder.message_id ≡ returns id)
    × (message ≡ record { attributes = some (attributes_of builder id); payload = builder.payload })
    × IsValid proto builder.validator (attributes_of builder id)
build-IsValid_example = build-IsValid proto entropy builder message built

build-response_for_request_example :
    (m : UMessage) × (build proto entropy
        (answer request_attributes none UPayloadFormat.unspecified (some UCode.ok))
      ≡ returns (ok m))
    × (m.payload ≡ none)
    × Answers proto request_attributes UPayloadFormat.unspecified (some UCode.ok) m
build-response_for_request_example =
    build-response_for_request proto entropy request_attributes none UPayloadFormat.unspecified
      (some UCode.ok) entropy-IsEntropy request_valid

started : Reachable proto (Builder.request method client 5000)
started = request_call method client 5000

identified : Builder.with_message_id uuid (Builder.request method client 5000) ≡ returns builder
unfolding Builder.with_message_id
identified = rw uuid_valid refl

Reachable-IsConsistent_example : IsConsistent builder
Reachable-IsConsistent_example =
    Reachable-IsConsistent proto builder (message_id_call uuid started identified)
