-- ===== src/Transport/Provider.antt =====
-- src/utransport.rs: a provider made from a URI.
use up_rust.Prelude.{ℕ, ◌^◌, ◌<◌, ◌≡◌, ok, arith, ◌↔◌}
use up_rust.Proto.{UUri}
use up_rust.Transport.{StaticUriProvider, get_authority, get_resource_uri, get_source_uri, try_from}

-- A provider is made from a URI exactly if the version fits into 8 bits, and then its own address
-- is the URI with resource ID 0.
pub try_from_iff :
    (u : UUri) (p : StaticUriProvider)
    → (try_from u ≡ ok p)
      ↔ ((u.ue_version_major < 2 ^ 8) × (get_source_uri p ≡ record u { resource_id = 0 }))
unfolding try_from get_source_uri
try_from_iff u p = (λ h. ground arith, λ h. ground arith)

-- The provider made from a URI has its authority; the address of a resource is the URI with that
-- resource ID, and the address of resource 0 is the provider's own.
pub get_resource_uri-try_from :
    (u : UUri) (p : StaticUriProvider) (resource : ℕ)
    → try_from u ≡ ok p
    → (get_authority p ≡ u.authority_name)
      × (get_resource_uri resource p ≡ record u { resource_id = resource })
      × (get_resource_uri 0 p ≡ get_source_uri p)
unfolding get_resource_uri get_authority get_source_uri try_from
get_resource_uri-try_from u p resource h = (ground arith, ground arith, ground arith)
