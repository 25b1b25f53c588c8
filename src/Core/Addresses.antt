-- ===== src/Core/Addresses.antt =====
-- src/core/usubscription.rs, src/core/udiscovery.rs: the addresses of the services' resources.
use up_rust.Prelude.{ℕ, ◌<◌, ◌≡◌, refl, ap, ◌↔◌, returns, ok, arith}
use up_rust.Proto.{UUri}
use up_rust.Uri.{verify_rpc_method}
use up_rust.Uri.Checks.{verify_rpc_method_iff}
use up_rust.Uri.Parsing.{Authority, UriParser, try_from_parts, verify_authority}
use up_rust.Uri.Parsing.Bounds.{IsHostOnly, verify_parsed_authority_iff}
use up_rust.Core.{unwrap}
use up_rust.Core.USubscription
use up_rust.Core.UDiscovery

-- The address of a resource of a core service.
abbrev pub resource_of : ℕ → ℕ → UUri
resource_of type_id resource_id = record {
  authority_name = "";
  ue_id = type_id;
  ue_version_major = 3;
  resource_id = resource_id;
}

local_parts :
    (parser : UriParser) (auth : Authority) (type_id resource_id : ℕ)
    → parser.parse_authority "" ≡ ok auth
    → IsHostOnly auth ""
    → try_from_parts parser "" type_id 3 resource_id ≡ ok (resource_of type_id resource_id)
unfolding try_from_parts verify_authority
local_parts parser auth type_id resource_id parsed h =
    rw (parsed, (verify_parsed_authority_iff auth "").1 h) refl

pub resource_of-IsMethod :
    (type_id resource_id : ℕ)
    → type_id < 2
    → (verify_rpc_method (resource_of type_id resource_id) ≡ ok tt)
      ↔ ((0 < resource_id) × (resource_id < 0x8000))
resource_of-IsMethod type_id resource_id small = (
  λ h.
      let (positive, below, _) = (verify_rpc_method_iff (resource_of type_id resource_id)).0 h in
      (positive, below),
  λ (positive, below). (verify_rpc_method_iff (resource_of type_id resource_id)).1 (
    positive,
    below,
    record {
      authority = λ e. cc;
      entity_instance = λ e. omega arith;
      entity_type = λ e. omega arith;
      version = λ e. omega arith;
      resource = λ e. omega arith;
    },
  ),
)

-- Where uriparse reads the empty text as an authority without a host, the addresses of the core
-- services are made without a panic, and those of the resources 1 to 0x7FFF are exactly the
-- addresses of methods.
pub usubscription_uri-udiscovery_uri :
    (parser : UriParser) (auth : Authority) (resource_id : ℕ)
    → parser.parse_authority "" ≡ ok auth
    → IsHostOnly auth ""
    → (USubscription.usubscription_uri parser resource_id ≡ returns (resource_of 0 resource_id))
      × (UDiscovery.udiscovery_uri parser resource_id ≡ returns (resource_of 1 resource_id))
      × ((verify_rpc_method (resource_of 0 resource_id) ≡ ok tt)
          ↔ ((0 < resource_id) × (resource_id < 0x8000)))
      × ((verify_rpc_method (resource_of 1 resource_id) ≡ ok tt)
          ↔ ((0 < resource_id) × (resource_id < 0x8000)))
unfolding USubscription.usubscription_uri UDiscovery.udiscovery_uri
usubscription_uri-udiscovery_uri parser auth resource_id parsed h = (
  ap unwrap (local_parts parser auth 0 resource_id parsed h),
  ap unwrap (local_parts parser auth 1 resource_id parsed h),
  resource_of-IsMethod 0 resource_id (omega arith),
  resource_of-IsMethod 1 resource_id (omega arith),
)
