-- ===== src/Communication/Errors.antt =====
-- src/communication.rs, src/communication/rpc.rs, notification.rs, pubsub.rs: the errors of the
-- clients and their conversions from and to a status.
use up_rust.Prelude.{String, ◌++ˢ◌, ◌≡◌, ◌≢◌, refl}
use up_rust.Proto.{EnumOrUnknown, known, unknown, UCode, UStatus}
use up_rust.Status.{fail_with_code, get_message}

pub data RegistrationError : Type 0 where
  already_exists max_listeners_exceeded no_such_listener : RegistrationError
  push_delivery_method_not_supported : RegistrationError
  invalid_filter : String → RegistrationError
  unknown_error : UStatus → RegistrationError

unfoldable pub to_string : RegistrationError → String
to_string already_exists = "a listener for the given filter criteria already exists"
to_string max_listeners_exceeded = "maximum number of listeners has been reached"
to_string no_such_listener = "no listener registered for given pattern"
to_string push_delivery_method_not_supported =
    "the underlying transport implementation does not support the push delivery method"
to_string (invalid_filter msg) = "invalid filter(s): " ++ˢ msg
to_string (unknown_error status) = "error un-/registering listener: " ++ˢ get_message status

abbrev registration_error : EnumOrUnknown UCode → UStatus → RegistrationError
registration_error (known UCode.already_exists) s = already_exists
registration_error (known UCode.not_found) s = no_such_listener
registration_error (known UCode.resource_exhausted) s = max_listeners_exceeded
registration_error (known UCode.unimplemented) s = push_delivery_method_not_supported
registration_error (known UCode.invalid_argument) s = invalid_filter (get_message s)
registration_error _ s = unknown_error s

-- `From<UStatus>`.
unfoldable pub registration_error_from : UStatus → RegistrationError
registration_error_from s = registration_error s.code s

pub data NotificationError : Type 0 where
  invalid_argument : String → NotificationError
  notify_error : UStatus → NotificationError

pub data PubSubError : Type 0 where
  invalid_argument : String → PubSubError
  publish_error : UStatus → PubSubError

-- The texts of these errors. That of a status is made by generated code.
module _ (show_status : UStatus → String) where
  unfoldable pub notification_to_string : NotificationError → String
  notification_to_string (invalid_argument s) = s
  notification_to_string (notify_error s) = "failed to send notification: " ++ˢ show_status s

  unfoldable pub pub_sub_to_string : PubSubError → String
  pub_sub_to_string (invalid_argument s) = s
  pub_sub_to_string (publish_error s) = "failed to publish message: " ++ˢ show_status s

pub data ServiceInvocationError : Type 0 where
  already_exists failed_precondition internal invalid_argument : String → ServiceInvocationError
  not_found permission_denied resource_exhausted : String → ServiceInvocationError
  unavailable unimplemented : String → ServiceInvocationError
  deadline_exceeded unauthenticated : ServiceInvocationError
  rpc_error : UStatus → ServiceInvocationError

abbrev invocation_error : EnumOrUnknown UCode → UStatus → ServiceInvocationError
invocation_error (known UCode.already_exists) s = already_exists (get_message s)
invocation_error (known UCode.deadline_exceeded) s = deadline_exceeded
invocation_error (known UCode.failed_precondition) s = failed_precondition (get_message s)
invocation_error (known UCode.internal) s = internal (get_message s)
invocation_error (known UCode.invalid_argument) s = invalid_argument (get_message s)
invocation_error (known UCode.not_found) s = not_found (get_message s)
invocation_error (known UCode.permission_denied) s = permission_denied (get_message s)
invocation_error (known UCode.resource_exhausted) s = resource_exhausted (get_message s)
invocation_error (known UCode.unauthenticated) s = unauthenticated
invocation_error (known UCode.unavailable) s = unavailable (get_message s)
invocation_error (known UCode.unimplemented) s = unimplemented (get_message s)
invocation_error _ s = rpc_error s

-- `From<UStatus>`.
unfoldable pub invocation_error_from : UStatus → ServiceInvocationError
invocation_error_from s = invocation_error s.code s

-- `From<ServiceInvocationError>`.
unfoldable pub status_from : ServiceInvocationError → UStatus
status_from (already_exists msg) = fail_with_code UCode.already_exists msg
status_from deadline_exceeded = fail_with_code UCode.deadline_exceeded "request timed out"
status_from (failed_precondition msg) = fail_with_code UCode.failed_precondition msg
status_from (internal msg) = fail_with_code UCode.internal msg
status_from (invalid_argument msg) = fail_with_code UCode.invalid_argument msg
status_from (not_found msg) = fail_with_code UCode.not_found msg
status_from (permission_denied msg) = fail_with_code UCode.permission_denied msg
status_from (resource_exhausted msg) = fail_with_code UCode.resource_exhausted msg
status_from unauthenticated = fail_with_code UCode.unauthenticated "client must authenticate"
status_from (unavailable msg) = fail_with_code UCode.unavailable msg
status_from (unimplemented msg) = fail_with_code UCode.unimplemented msg
status_from (rpc_error s) = fail_with_code UCode.unknown "unknown"

-- Every error of an invocation but `RpcError` survives the way through a status: the client reads
-- the error, with its text, that the server's handler returned.
pub invocation_error_from-status_from :
    (e : ServiceInvocationError)
    → ((s : UStatus) → e ≢ rpc_error s)
    → invocation_error_from (status_from e) ≡ e
unfolding invocation_error_from status_from fail_with_code get_message
invocation_error_from-status_from (rpc_error s) h = absurd (h s refl)
invocation_error_from-status_from _ h = refl

abbrev pub forwarded : EnumOrUnknown UCode → UCode
forwarded (known UCode.ok) = UCode.unknown
forwarded (known UCode.cancelled) = UCode.unknown
forwarded (known UCode.data_loss) = UCode.unknown
forwarded (known code) = code
forwarded (unknown n) = UCode.unknown

code_kept :
    (c : EnumOrUnknown UCode) (s : UStatus)
    → (status_from (invocation_error c s)).code ≡ known (forwarded c)
unfolding status_from fail_with_code
code_kept (known UCode.ok) s = refl
code_kept (known _) s = refl
code_kept (unknown n) s = refl

-- A status that is turned into an error and back keeps its code, except that OK, CANCELLED,
-- DATA_LOSS and codes that the program does not know become UNKNOWN.
pub status_from-invocation_error_from :
    (s : UStatus) → (status_from (invocation_error_from s)).code ≡ known (forwarded s.code)
unfolding invocation_error_from status_from fail_with_code
status_from-invocation_error_from s = code_kept s.code s
