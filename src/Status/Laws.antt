-- ===== src/Status/Laws.antt =====
-- src/ustatus.rs: success and failure, and the unknown codes.
use up_rust.Prelude.{◌≡◌, ◌≢◌, refl, ◌↔◌, ◌⊎◌, inl, inr, true, not, arith, String}
use up_rust.Prelude.Int.{ℤ}
use up_rust.Proto.{
  EnumOrUnknown, known, unknown, enum_value_or, default_code, is_ok, UCode, UStatus,
}
use up_rust.Status.{fail_with_code, get_code, is_failed, is_success, get_message}

-- A status is a success or a failure and never both; it is a success exactly if its code is OK or a
-- number that is no `UCode`.
pub is_success_iff :
    (s : UStatus)
    → (is_failed s ≡ not (is_success s))
      × ((is_success s ≡ true) ↔ ((s.code ≡ known UCode.ok) ⊎ ((n : ℤ) × (s.code ≡ unknown n))))
unfolding is_failed is_success
is_success_iff s = (refl, (to s.code, from s.code))
  where
    to :
        (c : EnumOrUnknown UCode)
        → is_ok (enum_value_or c default_code) ≡ true
        → (c ≡ known UCode.ok) ⊎ ((n : ℤ) × (c ≡ unknown n))
    to (known code) h = inl (ground arith)
    to (unknown n) h = inr (n, refl)

    from :
        (c : EnumOrUnknown UCode)
        → (c ≡ known UCode.ok) ⊎ ((n : ℤ) × (c ≡ unknown n))
        → is_ok (enum_value_or c default_code) ≡ true
    from c (inl e) = rw e refl
    from c (inr (n, e)) = rw e refl

-- What `fail_with_code` makes reads back its code and its message, and is a failure exactly if
-- the code is not OK.
pub fail_with_code_lem :
    (code : UCode) (msg : String)
    → (get_code (fail_with_code code msg) ≡ code)
      × (get_message (fail_with_code code msg) ≡ msg)
      × ((is_failed (fail_with_code code msg) ≡ true) ↔ (code ≢ UCode.ok))
unfolding fail_with_code get_message is_failed
fail_with_code_lem code msg = (refl, refl, (λ h. ground arith, λ h. ground arith))
