-- ===== src/Builder/Responses.antt =====
-- src/umessage/umessagebuilder.rs: the answers to a request.
use up_rust.Prelude.{ℕ, ◌≡◌, refl, Option, none, some, List, ok, returns, inl, inr}
use up_rust.Proto.{
  EnumOrUnknown, known, unknown, enum_value_or, UPriority, UPayloadFormat, UCode, Uuid, UAttributes,
  UMessage, Descriptors,
}
use up_rust.Uuid.{Entropy}
use up_rust.Uuid.Build.{IsEntropy}
use up_rust.Validator.{UAttributesValidators, message_type, validate}
use up_rust.Validator.Rules.{IsUuid, StatusRule, PriorityRule}
use up_rust.Validator.Laws.{IsValid, validate_iff}
use up_rust.Builder.{UMessageBuilder, attributes_of, response_for_request, build}
use up_rust.Builder.Build.{id_or_new-valid, build_of_IsValid}

abbrev pub status_of : Option UCode → Option (EnumOrUnknown UCode)
status_of none = none
status_of (some code) = some (known code)

known_status : (status : Option UCode) → StatusRule (status_of status)
known_status none = inl refl
known_status (some code) = inr (known code, refl, (code, refl))

-- The builder of a response to the request of attributes `a`, with or without a payload and a
-- communication status.
abbrev pub answer : UAttributes → Option (List ℕ) → UPayloadFormat → Option UCode → UMessageBuilder
answer a payload format status = record (response_for_request a) {
  payload = payload;
  payload_format = format;
  comm_status = status_of status;
}

-- The message answers the request of attributes `a` with a payload of this format and this status.
pub record Answers (proto : Descriptors) (a : UAttributes) (format : UPayloadFormat)
    (status : Option UCode) (m : UMessage) : Type 0 where
  pub reply : UAttributes
  pub attributes : m.attributes ≡ some reply
  pub valid : IsValid proto UAttributesValidators.response reply
  pub sink : reply.sink ≡ a.source
  pub source : reply.source ≡ a.sink
  pub reqid : reply.reqid ≡ a.id
  pub ttl : reply.ttl ≡ a.ttl
  pub priority : reply.priority ≡ a.priority
  pub payload_format : reply.payload_format ≡ known format
  pub commstatus : reply.commstatus ≡ status_of status

-- A priority that the request's rules allow is kept by the response.
kept_priority :
    (proto : Descriptors) (p : EnumOrUnknown UPriority)
    → PriorityRule proto p
    → PriorityRule proto (known (enum_value_or p UPriority.cs4))
kept_priority proto (known p) h = h
kept_priority proto (unknown n) (p, e, _) = cc

same_priority :
    (proto : Descriptors) (p : EnumOrUnknown UPriority)
    → PriorityRule proto p
    → known (enum_value_or p UPriority.cs4) ≡ p
same_priority proto p (prio, e, _) = rw e refl

answer-IsValid :
    (proto : Descriptors) (a : UAttributes) (payload : Option (List ℕ)) (format : UPayloadFormat)
    (status : Option UCode) (id : Uuid)
    → IsValid proto UAttributesValidators.request a
    → IsUuid id
    → IsValid proto UAttributesValidators.response
        (attributes_of (answer a payload format status) id)
unfolding response_for_request message_type
answer-IsValid proto a payload format status id h valid = record {
  type_ = refl;
  id = (id, refl, valid);
  source = h.sink;
  sink = h.source;
  own = record {
    reqid = h.id;
    commstatus = known_status status;
    priority = kept_priority proto a.priority h.own.priority;
  };
}

-- Every valid request can be answered: with a clock below 2 ^ 64 milliseconds, for its attributes,
-- any payload, any payload format and any status code or none, `response_for_request` makes a
-- builder from which `build` returns a message that is a valid response, with source and sink
-- exchanged, the request's ID for its request ID, the request's time-to-live and priority, and the
-- payload, format and status.
pub build-response_for_request :
    (proto : Descriptors) (e : Entropy) (a : UAttributes) (payload : Option (List ℕ))
    (format : UPayloadFormat) (status : Option UCode)
    → IsEntropy e
    → validate proto UAttributesValidators.request a ≡ ok tt
    → (m : UMessage) × (build proto e (answer a payload format status) ≡ returns (ok m))
      × (m.payload ≡ payload)
      × Answers proto a format status m
unfolding response_for_request
build-response_for_request proto e a payload format status random request =
    let (id, given, valid) = id_or_new-valid e none random (λ i h. cc) in
    let request_rules = (validate_iff proto UAttributesValidators.request a).0 request in
    (
      record {
        attributes = some (attributes_of (answer a payload format status) id);
        payload = payload;
      },
      build_of_IsValid proto e (answer a payload format status) id given
          (answer-IsValid proto a payload format status id request_rules valid),
      refl,
      record {
        reply = attributes_of (answer a payload format status) id;
        attributes = refl;
        valid = answer-IsValid proto a payload format status id request_rules valid;
        sink = refl;
        source = refl;
        reqid = refl;
        ttl = refl;
        priority = same_priority proto a.priority request_rules.own.priority;
        payload_format = refl;
        commstatus = refl;
      },
    )
