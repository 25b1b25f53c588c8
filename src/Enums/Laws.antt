-- ===== src/Enums/Laws.antt =====
-- src/umessage/umessagetype.rs, src/uattributes/upriority.rs: reading the names of values.
use mathlib.Core.List.{Memᴰ}
use up_rust.Prelude.{
  ◌≡◌, refl, ap, subst, true, false, String, Option, none, some, List, [], ◌∷◌, ok, eq_iff, eq_refl,
  Bool-cases, inl, inr,
}
use up_rust.Proto.{UMessageType, UPriority, Descriptors}
use up_rust.Enums.{
  is_named, find_named, to_cloudevent_type, try_from_cloudevent_type, to_priority_code,
  try_from_priority_code,
}

-- No two values have the same name.
abbrev pub IsInjective : {E : Type 0} → (E → Option String) → Type 0
IsInjective {E} name_of =
    (d e : E) (name : String) → name_of d ≡ some name → name_of e ≡ some name → d ≡ e

eq_of_is_named : (o : Option String) (name : String) → is_named o name ≡ true → o ≡ some name
eq_of_is_named none name h = cc
eq_of_is_named (some option) name h = ap some ((eq_iff option name).0 h)

false_named : (o : Option String) (name : String) → o ≡ some name → is_named o name ≡ false → ⊥
false_named o name e h = cc (rw e at h, eq_refl name)

find_named_self :
    {E : Type 0} (name_of : E → Option String) (es : List E) (e : E) (name : String)
    → IsInjective name_of
    → name_of e ≡ some name
    → Memᴰ e es
    → find_named name_of es name ≡ some e
unfolding find_named
find_named_self name_of [] e name inj named m = elim m [ ]
find_named_self name_of (d ∷ es) e name inj named m =
    elim (Bool-cases (is_named (name_of d) name)) [
      | inl here ↦ rw here (ap some (inj d e name (eq_of_is_named (name_of d) name here) named))
      | inr later ↦ rw later (find_named_self name_of es e name inj named (other later m))
    ]
  where
    other : is_named (name_of d) name ≡ false → Memᴰ e (d ∷ es) → Memᴰ e es
    other later (Memᴰ.head same) =
        absurd (false_named (name_of d) name (subst (λ x. name_of x ≡ some name) same named) later)
    other later (Memᴰ.tail rest) = rest

-- The names of message types are read back by `try_from_cloudevent_type`, where the proto file
-- lists the type and gives it a name that no other type has.
pub try_from_cloudevent_type-to_cloudevent_type :
    (proto : Descriptors) (t : UMessageType) (name : String)
    → IsInjective proto.type_ce_name
    → Memᴰ t proto.types
    → proto.type_ce_name t ≡ some name
    → try_from_cloudevent_type proto (to_cloudevent_type proto t) ≡ ok t
unfolding try_from_cloudevent_type to_cloudevent_type
try_from_cloudevent_type-to_cloudevent_type proto t name inj listed named =
    rw (named, find_named_self proto.type_ce_name proto.types t name inj named listed) refl

-- The names of priorities are read back by `try_from_priority_code`, where the proto file lists
-- the priority and gives it a name that no other priority has.
pub try_from_priority_code-to_priority_code :
    (proto : Descriptors) (p : UPriority) (name : String)
    → IsInjective proto.priority_ce_name
    → Memᴰ p proto.priorities
    → proto.priority_ce_name p ≡ some name
    → try_from_priority_code proto (to_priority_code proto p) ≡ ok p
unfolding try_from_priority_code to_priority_code
try_from_priority_code-to_priority_code proto p name inj listed named =
    rw (named, find_named_self proto.priority_ce_name proto.priorities p name inj named listed) refl
