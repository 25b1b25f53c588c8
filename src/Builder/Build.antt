-- ===== src/Builder/Build.antt =====
-- src/umessage/umessagebuilder.rs: the messages that `build` returns.
use up_rust.Prelude.{
  ℕ, ◌≡◌, refl, sym, ap, ◌∙◌, ◌≢◌, Option, none, some, List, ok, err, Run, returns, true,
  >>=-eq-returns, assert-eq-returns, not, if◌then◌else◌,
}
use up_rust.Proto.{UPriority, Uuid, UAttributes, UMessage, Descriptors}
use up_rust.Uuid
use up_rust.Uuid.{Entropy}
use up_rust.Uuid.Build.{IsEntropy, build_for_timestamp-get_time}
use up_rust.Attributes.{is_default_priority}
use up_rust.Validator.{Check, validate}
use up_rust.Validator.Laws.{IsValid, validate_iff}
use up_rust.Message
use up_rust.Message.{or_cs1}
use up_rust.Builder.{
  UMessageBuilder, attributes_of, id_or_new, priority_allowed, message_or_error, with_priority,
  build,
}

-- The ID that a message gets is a uProtocol UUID: with_message_id checks one that is set.
pub id_or_new-valid :
    (e : Entropy) (o : Option Uuid)
    → IsEntropy e
    → ((id : Uuid) → o ≡ some id → Uuid.is_uprotocol_uuid id ≡ true)
    → (id : Uuid) × (id_or_new e o ≡ returns id) × (Uuid.is_uprotocol_uuid id ≡ true)
unfolding id_or_new
id_or_new-valid e none h valid =
    let (id, built, is_valid, _) = build_for_timestamp-get_time e h in (id, built, is_valid)
id_or_new-valid e (some id) h valid = (id, refl, valid id refl)

message_or_error-eq-ok :
    (a : UAttributes) (payload : Option (List ℕ)) (c : Check) (m : UMessage)
    → message_or_error a payload c ≡ ok m
    → (c ≡ ok tt) × (m ≡ record { attributes = some a; payload = payload })
message_or_error-eq-ok a payload (ok tt) m h = (refl, cc)
message_or_error-eq-ok a payload (err _) m h = cc

-- A `Run` that returned determines its value.
pub returned : {A : Type 0} {x y : A} → ◌≡◌ {A = Run A} (returns x) (returns y) → x ≡ y
returned h = cc

module _ (proto : Descriptors) (e : Entropy) (b : UMessageBuilder) where
  -- A message that `build` returns consists of the builder's payload and of its attributes, under
  -- the ID that was set or a new one, and these attributes obey all rules of the builder's
  -- validator.
  pub build-IsValid :
      (m : UMessage)
      → build proto e b ≡ returns (ok m)
      → (id : Uuid) × (id_or_new e b.message_id ≡ returns id)
        × (m ≡ record { attributes = some (attributes_of b id); payload = b.payload })
        × IsValid proto b.validator (attributes_of b id)
  unfolding build
  build-IsValid m h =
      let (id, built, rest) = >>=-eq-returns (id_or_new e b.message_id) _ h in
      let (valid, same) =
        message_or_error-eq-ok (attributes_of b id) b.payload
          (validate proto b.validator (attributes_of b id)) m (returned rest) in
      (id, built, same, (validate_iff proto b.validator (attributes_of b id)).0 valid)

  -- Where the rules hold for the builder's attributes, `build` returns the message.
  pub build_of_IsValid :
      (id : Uuid)
      → id_or_new e b.message_id ≡ returns id
      → IsValid proto b.validator (attributes_of b id)
      → build proto e b
        ≡ returns (ok (record { attributes = some (attributes_of b id); payload = b.payload }))
  unfolding build
  build_of_IsValid id given valid =
      rw (given, (validate_iff proto b.validator (attributes_of b id)).1 valid) refl

pub stored_priority : UPriority → UPriority
stored_priority p = if not (is_default_priority p) then p else UPriority.unspecified

pub with_priority-stored :
    (proto : Descriptors) (b b' : UMessageBuilder) (p : UPriority)
    → with_priority proto p b ≡ returns b'
    → b' ≡ record b { priority = stored_priority p }
unfolding with_priority stored_priority
with_priority-stored proto b b' p h =
    sym (returned ((assert-eq-returns (priority_allowed proto p b) _ _ h).1))

read_back : (p : UPriority) → p ≢ UPriority.unspecified → or_cs1 (stored_priority p) ≡ p
unfolding stored_priority is_default_priority
read_back UPriority.unspecified set = absurd (set refl)
read_back _ set = refl

-- A priority that `with_priority` takes is the one that the built message reports, though CS1 is
-- stored as unspecified.
pub priority-with_priority :
    (proto : Descriptors) (e : Entropy) (b b' : UMessageBuilder) (p : UPriority) (m : UMessage)
    → p ≢ UPriority.unspecified
    → with_priority proto p b ≡ returns b'
    → build proto e b' ≡ returns (ok m)
    → Message.priority m ≡ some p
unfolding Message.priority
priority-with_priority proto e b b' p m set stored h =
    let (id, _, same, _) = build-IsValid proto e b' m h in
    ap Message.priority same
    ∙ ap (λ c. some (or_cs1 c.priority)) (with_priority-stored proto b b' p stored)
    ∙ ap some (read_back p set)
