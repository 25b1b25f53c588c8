-- ===== src/Communication/Subscriber/Handlers.antt =====
-- src/communication/default_pubsub.rs: the listener's handlers as the map that they stand for.
use up_rust.Prelude.{
  ℕ, ◌≡◌, refl, ap, subst, sym, ◌∙◌, ◌↔◌, inl, inr, Bool, true, false, Option, none, some, List, [],
  ◌∷◌, Result, ok, err, ◌==◌, if◌then◌else◌, Bool-cases, Result-cases,
}
use up_rust.Proto.{UUri, UMessage, Descriptors}
use up_rust.Uri.{uri_eq}
use up_rust.Message.{is_notification}
use up_rust.Message.Extraction.{Codec, extract_protobuf}
use up_rust.Core.USubscription.{Update, SubscriptionStatus}
use up_rust.LocalTransport.Deliveries.{uri_eq_iff}
use up_rust.Communication.Errors.{RegistrationError, already_exists}
use up_rust.Communication.Subscriber.{
  SubscriptionChangeListener, add_entry, call, changed, handler_of, without, no_write_lock,
  add_handler, remove_handler, clear, Change, on_receive,
}

-- What a listener is for: which handler a topic has, and whether that can still change.
pub record Registry : Type 0 where
  pub locked : Bool
  pub handler : UUri → Option ℕ

abbrev pub registry : SubscriptionChangeListener → Registry
registry l = record {
  locked = l.poisoned;
  handler = λ topic. handler_of topic l.subscription_change_handlers;
}

-- The calls that change the handlers.
pub data Call : Type 0 where
  adding : UUri → ℕ → Call
  removing : UUri → Call
  clearing : Call

abbrev pub perform :
    Call
    → SubscriptionChangeListener
    → Result RegistrationError (Unit {0}) × SubscriptionChangeListener
perform (adding topic handler) l = add_handler topic handler l
perform (removing topic) l = remove_handler topic l
perform clearing l = clear l

abbrev pub set : UUri → Option ℕ → (UUri → Option ℕ) → UUri → Option ℕ
set topic handler f u = if uri_eq topic u then handler else f u

abbrev specified_add :
    Option ℕ → UUri → ℕ → Registry → Result RegistrationError (Unit {0}) × Registry
specified_add none topic handler r =
    (ok tt, record r { handler = set topic (some handler) r.handler })
specified_add (some present) topic handler r =
    if present == handler then (ok tt, r) else (err already_exists, r)

-- What the calls promise: a topic has at most one handler, the first one stays, and every call
-- fails once the lock is poisoned.
abbrev specified_open : Call → Registry → Result RegistrationError (Unit {0}) × Registry
specified_open (adding topic handler) r = specified_add (r.handler topic) topic handler r
specified_open (removing topic) r = (ok tt, record r { handler = set topic none r.handler })
specified_open clearing r = (ok tt, record r { handler = λ topic. none })

abbrev pub specified : Call → Registry → Result RegistrationError (Unit {0}) × Registry
specified c r = if r.locked then (err no_write_lock, r) else specified_open c r

same_uri : (u v w : UUri) → uri_eq u v ≡ true → uri_eq u w ≡ uri_eq v w
same_uri u v w h = ap (λ x. uri_eq x w) ((uri_eq_iff u v).0 h)

other_uri : (u v w : UUri) → uri_eq u v ≡ false → uri_eq u w ≡ true → uri_eq v w ≡ false
other_uri u v w h k = elim (Bool-cases (uri_eq v w)) [
  | inl same ↦
      let is : u ≡ v = (uri_eq_iff u w).0 k ∙ sym ((uri_eq_iff v w).0 same) in
      cc ((uri_eq_iff u v).1 is)
  | inr other ↦ other
]

asked_twice :
    (b : Bool) (x y : Option ℕ) → (if b then none else y) ≡ (if b then none else if b then x else y)
asked_twice true x y = refl
asked_twice false x y = refl

pub handler_of-without :
    (topic u : UUri) (hs : List (UUri × ℕ))
    → handler_of u (without topic hs) ≡ set topic none (λ v. handler_of v hs) u
unfolding handler_of without
handler_of-without topic u [] = elim (Bool-cases (uri_eq topic u)) [
  | inl same ↦ rw same refl
  | inr other ↦ rw other refl
]
handler_of-without topic u ((key, handler) ∷ rest) = elim (Bool-cases (uri_eq key topic)) [
  | inl removed ↦
      rw (removed, same_uri key topic u removed)
        (handler_of-without topic u rest
          ∙ asked_twice (uri_eq topic u) (some handler) (handler_of u rest))
  | inr kept ↦ elim (Bool-cases (uri_eq key u)) [
    | inl here ↦ rw (kept, here, other_uri key topic u kept here) refl
    | inr later ↦ rw (kept, later) (handler_of-without topic u rest)
  ]
]

-- The result of a call with what the handlers then stand for.
abbrev pub seen :
    Result RegistrationError (Unit {0}) × SubscriptionChangeListener
    → Result RegistrationError (Unit {0}) × Registry
seen (r, l) = (r, registry l)

seen-if :
    (b : Bool) (x y : Result RegistrationError (Unit {0}) × SubscriptionChangeListener)
    (r : Result RegistrationError (Unit {0}) × Registry)
    → seen y ≡ r
    → seen (if b then x else y) ≡ (if b then seen x else r)
seen-if true x y r h = refl
seen-if false x y r h = h

seen-add_entry :
    (o : Option ℕ) (topic : UUri) (handler : ℕ) (l : SubscriptionChangeListener)
    → seen (add_entry o topic handler l) ≡ specified_add o topic handler (registry l)
unfolding handler_of
seen-add_entry none topic handler l = refl
seen-add_entry (some present) topic handler l =
    seen-if (present == handler) (ok tt, l) (err already_exists, l) _ refl

-- Every call of the listener does what is specified for the map that its handlers stand for: it
-- returns the same result and leaves handlers that stand for the map that is specified.
pub seen-perform :
    (c : Call) (l : SubscriptionChangeListener) → seen (perform c l) ≡ specified c (registry l)
unfolding add_handler remove_handler clear handler_of
seen-perform (adding topic handler) l =
    seen-if l.poisoned (err no_write_lock, l) _ _
      (seen-add_entry (handler_of topic l.subscription_change_handlers) topic handler l)
seen-perform (removing topic) l =
    seen-if l.poisoned (err no_write_lock, l) _ _
      (λ i. (
        ok tt,
        record {
          locked = l.poisoned;
          handler = λ u. handler_of-without topic u l.subscription_change_handlers i;
        },
      ))
seen-perform clearing l = seen-if l.poisoned (err no_write_lock, l) _ _ refl

-- The notification tells of a change of the topic's status, and the topic has that handler.
pub record Announces (proto : Descriptors) (codec : Codec Update) (m : UMessage) (r : Registry)
    (c : Change) : Type 0 where
  pub notification : is_notification m ≡ true
  pub update : Update
  pub extracted : extract_protobuf proto codec m ≡ ok update
  pub topic : update.topic ≡ some c.topic
  pub status : update.status ≡ some c.status
  pub unlocked : r.locked ≡ false
  pub handler : r.handler c.topic ≡ some c.handler

called_lem :
    (o : Option ℕ) (topic : UUri) (status : SubscriptionStatus) (c : Change)
    → call o topic status ≡ some c
    → (topic ≡ c.topic) × (status ≡ c.status) × (o ≡ some c.handler)
called_lem none topic status c h = cc
called_lem (some k) topic status c h =
    let is : record { handler = k; topic = topic; status = status } ≡ c = cc in
    (ap (λ d. d.topic) is, ap (λ d. d.status) is, ap (λ d. some d.handler) is)

changed_lem :
    (topic : Option UUri) (status : Option SubscriptionStatus) (l : SubscriptionChangeListener)
    (c : Change)
    → changed topic status l ≡ some c
    → (topic ≡ some c.topic)
      × (status ≡ some c.status)
      × (l.poisoned ≡ false)
      × (handler_of c.topic l.subscription_change_handlers ≡ some c.handler)
changed_lem (some topic) (some status) l c h = elim (Bool-cases l.poisoned) [
  | inl poisoned ↦ cc (rw poisoned at h)
  | inr free ↦
      let (same_topic, same_status, found) =
        called_lem (handler_of topic l.subscription_change_handlers) topic status c
          (rw free at h) in
      (
        ap some same_topic,
        ap some same_status,
        free,
        subst (λ t. handler_of t l.subscription_change_handlers ≡ some c.handler) same_topic found,
      )
]
changed_lem (some topic) none l c h = cc
changed_lem none (some status) l c h = cc
changed_lem none none l c h = cc

pub called :
    (update : Update) (l : SubscriptionChangeListener) (c : Change)
    → update.topic ≡ some c.topic
    → update.status ≡ some c.status
    → l.poisoned ≡ false
    → handler_of c.topic l.subscription_change_handlers ≡ some c.handler
    → changed update.topic update.status l ≡ some c
called update l c topic status free handler = rw (topic, status, free, handler) refl

-- The listener calls a handler exactly if the message is a notification with an update of a topic's
-- status, the lock is not poisoned and the topic has that handler, and then with that topic and
-- that status.
pub on_receive_iff :
    (proto : Descriptors) (codec : Codec Update) (m : UMessage) (l : SubscriptionChangeListener)
    (c : Change)
    → (on_receive proto codec m l ≡ some c) ↔ Announces proto codec m (registry l) c
unfolding on_receive
on_receive_iff proto codec m l c = (
  λ h. elim (Bool-cases (is_notification m)) [
    | inl notified ↦ elim (Result-cases (extract_protobuf proto codec m)) [
      | inl (update, extracted) ↦
          let (topic, status, unlocked, handler) =
            changed_lem update.topic update.status l c (rw (notified, extracted) at h) in
          record {
            notification = notified;
            update = update;
            extracted = extracted;
            topic = topic;
            status = status;
            unlocked = unlocked;
            handler = handler;
          }
      | inr (e, failed) ↦ cc (rw (notified, failed) at h)
    ]
    | inr other ↦ cc (rw other at h)
  ],
  λ a. rw (a.notification, a.extracted) (called a.update l c a.topic a.status a.unlocked a.handler),
)
