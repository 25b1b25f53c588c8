-- ===== src/Core/USubscription.antt =====
-- src/core/usubscription.rs. The messages have the fields that the program reads or sets.
use up_rust.Prelude.{ℕ, String, Bool, true, false, Option, none, some, ok, err, Run}
use up_rust.Proto.{EnumOrUnknown, enum_value, UUri}
use up_rust.Uri.Parsing.{UriParser, try_from_parts}
use up_rust.Core.{unwrap}

pub data State : Type 0 where
  unsubscribed subscribe_pending subscribed unsubscribe_pending : State

pub record SubscriptionStatus : Type 0 where
  pub state : EnumOrUnknown State
  pub message : String

pub record SubscriptionRequest : Type 0 where
  pub topic : Option UUri

pub record UnsubscribeRequest : Type 0 where
  pub topic : Option UUri

pub record SubscriptionResponse : Type 0 where
  pub status : Option SubscriptionStatus

pub record Update : Type 0 where
  pub topic : Option UUri
  pub status : Option SubscriptionStatus

abbrev pub state_eq : State → State → Bool
state_eq State.unsubscribed State.unsubscribed = true
state_eq State.subscribe_pending State.subscribe_pending = true
state_eq State.subscribed State.subscribed = true
state_eq State.unsubscribe_pending State.unsubscribe_pending = true
state_eq _ _ = false

abbrev is_state_of : State → Option SubscriptionStatus → Bool
is_state_of state none = false
is_state_of state (some s) = elim (enum_value s.state) [ ok t ↦ state_eq t state | err n ↦ false ]

unfoldable pub is_state : State → SubscriptionResponse → Bool
is_state state response = is_state_of state response.status

abbrev pub type_id : ℕ
type_id = 0

abbrev pub version_major : ℕ
version_major = 3

abbrev pub resource_id_subscribe : ℕ
resource_id_subscribe = 1

abbrev pub resource_id_unsubscribe : ℕ
resource_id_unsubscribe = 2

abbrev pub resource_id_fetch_subscriptions : ℕ
resource_id_fetch_subscriptions = 3

abbrev pub resource_id_register_for_notifications : ℕ
resource_id_register_for_notifications = 6

abbrev pub resource_id_unregister_for_notifications : ℕ
resource_id_unregister_for_notifications = 7

abbrev pub resource_id_fetch_subscribers : ℕ
resource_id_fetch_subscribers = 8

abbrev pub resource_id_subscription_change : ℕ
resource_id_subscription_change = 0x8000

unfoldable pub usubscription_uri : UriParser → ℕ → Run UUri
usubscription_uri parser resource_id =
    unwrap (try_from_parts parser "" type_id version_major resource_id)
