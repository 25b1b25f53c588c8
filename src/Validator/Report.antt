-- ===== src/Validator/Report.antt =====
-- src/uattributes/uattributesvalidator.rs: the joined messages of the checks.
use up_rust.Prelude.{
  ◌≡◌, refl, ◌↔◌, String, List, [], ◌∷◌, ok, err, true, false, All, join, is_empty, is_empty-append,
  arith,
}
use up_rust.Attributes
use up_rust.Attributes.{UAttributesError, validation_error, parsing_error}
use up_rust.Validator.{Check, messages, report}

is_empty-to_string : (e : UAttributesError) → is_empty (Attributes.to_string e) ≡ false
unfolding Attributes.to_string
is_empty-to_string (validation_error e) = is_empty-append "Validation failure: " e refl
is_empty-to_string (parsing_error e) = is_empty-append "Parsing error: " e refl

is_empty-join :
    (s : String) (rest : List String) → is_empty s ≡ false → is_empty (join "; " (s ∷ rest)) ≡ false
unfolding join
is_empty-join s [] h = h
is_empty-join s (t ∷ ts) h = is_empty-append s _ h

abbrev pub AllOk : List Check → Type 0
AllOk = All (λ c. c ≡ ok tt)

messages-AllOk : (checks : List Check) → AllOk checks → messages checks ≡ []
unfolding messages
messages-AllOk [] h = refl
messages-AllOk (ok _ ∷ checks) h = messages-AllOk checks h.1
messages-AllOk (err e ∷ checks) h = cc (h.0)

AllOk-of_messages :
    (checks : List Check) → is_empty (join "; " (messages checks)) ≡ true → AllOk checks
unfolding messages
AllOk-of_messages [] h = tt
AllOk-of_messages (ok tt ∷ checks) h = (refl, AllOk-of_messages checks h)
AllOk-of_messages (err e ∷ checks) h = absurd (
    ground (arith, is_empty-join (Attributes.to_string e) (messages checks) (is_empty-to_string e)))

pub report_iff : (checks : List Check) → (report checks ≡ ok tt) ↔ AllOk checks
unfolding report
report_iff checks = (
  λ h. AllOk-of_messages checks (ground arith),
  λ h. rw (messages-AllOk checks h) (unfold join in refl),
)
