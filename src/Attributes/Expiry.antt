-- ===== src/Attributes/Expiry.antt =====
-- src/uattributes.rs: when `check_expired` calls a message expired.
use up_rust.Prelude.{
  ℕ, ◌+◌, ◌^◌, ◌≤◌, ◌<◌, ◌≡◌, ◌↔◌, Bool, some, ok, err, returns, panics, arith, if◌then◌else◌,
}
use up_rust.Proto.{UAttributes}
use up_rust.Attributes.{validation_error, creation_time_of, check_expired}

module _ (overflow_checks : Bool) (now : ℕ) (a : UAttributes) (ttl created : ℕ) where
  -- A message with a positive time-to-live, created at a time that the clock has reached, a clock
  -- below 2 ^ 64 milliseconds, is reported as expired exactly if its age has reached its
  -- time-to-live, and else accepted.
  pub check_expired_iff :
      a.ttl ≡ some ttl
      → 0 < ttl
      → creation_time_of a.id ≡ some created
      → created ≤ now
      → now < 2 ^ 64
      → ((check_expired overflow_checks (ok now) a
            ≡ returns (err (validation_error "message is expired")))
          ↔ (created + ttl ≤ now))
        × ((check_expired overflow_checks (ok now) a ≡ returns (ok tt)) ↔ (now < created + ttl))
  unfolding check_expired
  check_expired_iff has_ttl pos has_time past small =
      rw (has_ttl, has_time)
        ((λ h. ground arith, λ h. ground arith), (λ h. ground arith, λ h. ground arith))

  -- A message with a positive time-to-live whose creation time is ahead of the clock makes the
  -- check panic where overflow checks are on, and is reported as expired, whatever its
  -- time-to-live, where they are off.
  pub check_expired_ahead :
      a.ttl ≡ some ttl
      → 0 < ttl
      → ttl < 2 ^ 32
      → creation_time_of a.id ≡ some created
      → created < 2 ^ 48
      → now < created
      → check_expired overflow_checks (ok now) a ≡ (
          if overflow_checks
          then panics "attempt to subtract with overflow"
          else returns (err (validation_error "message is expired")))
  unfolding check_expired
  check_expired_ahead has_ttl pos small has_time in_time ahead =
      rw (has_ttl, has_time) (ground arith)
