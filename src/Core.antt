-- ===== src/Core.antt =====
-- src/core/usubscription.rs, src/core/udiscovery.rs: the addresses of the core services and what
-- their clients exchange.
pub mod USubscription
pub mod UDiscovery
pub mod Addresses
use up_rust.Prelude.{String, Result, ok, err, Run, returns, panics}

-- `Result::unwrap`.
abbrev pub unwrap : {E A : Type 0} → Result E A → Run A
unwrap (ok a) = returns a
unwrap (err e) = panics "called `Result::unwrap()` on an `Err` value"
