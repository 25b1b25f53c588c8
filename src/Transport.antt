-- ===== src/Transport.antt =====
-- src/utransport.rs: the check of a listener's filters, the URIs of a local entity, and the
-- interface that clients have to a transport.
pub mod Provider
use up_rust.Prelude.{
  ℕ, ◌^◌, Bool, ◌&&◌, not, String, Option, none, some, Result, ok, err, ltb, if◌then◌else◌,
}
use up_rust.Proto.{UCode, UUri, UMessage, UStatus}
use up_rust.Uri.{has_wildcard_resource_id, is_notification_destination, is_rpc_method, is_event}
use up_rust.Status.{fail_with_code}

abbrev invalid : String → Result UStatus (Unit {0})
invalid message = err (fail_with_code UCode.invalid_argument message)

unfoldable pub verify_filter_criteria : UUri → Option UUri → Result UStatus (Unit {0})
verify_filter_criteria source (some sink) =
    if is_notification_destination sink && is_notification_destination source
    then invalid "source and sink filters must not both have resource ID 0"
    else if is_rpc_method sink
        && not (has_wildcard_resource_id source)
        && not (is_notification_destination source)
    then invalid
        "source filter must either have the wildcard resource ID or resource ID 0, if sink filter matches RPC method resource ID"
    else ok tt
verify_filter_criteria source none =
    if not (has_wildcard_resource_id source) && not (is_event source)
    then invalid
        "source filter must either have the wildcard resource ID or a resource ID from topic range, if sink filter is empty"
    else ok tt

-- `StaticUriProvider` and its methods as a `LocalUriProvider`.
pub record StaticUriProvider : Type 0 where
  pub local_uri : UUri

unfoldable pub new : String → ℕ → ℕ → StaticUriProvider
new authority entity_id major_version = record {
  local_uri = record {
    authority_name = authority;
    ue_id = entity_id;
    ue_version_major = major_version;
    resource_id = 0;
  };
}

unfoldable pub get_authority : StaticUriProvider → String
get_authority p = p.local_uri.authority_name

unfoldable pub get_resource_uri : ℕ → StaticUriProvider → UUri
get_resource_uri resource_id p = record (p.local_uri) { resource_id = resource_id }

unfoldable pub get_source_uri : StaticUriProvider → UUri
get_source_uri p = p.local_uri

-- The error is that of a number out of range.
unfoldable pub try_from : UUri → Result String StaticUriProvider
unfolding new
try_from source_uri =
    if ltb source_uri.ue_version_major (2 ^ 8)
    then ok (new source_uri.authority_name source_uri.ue_id source_uri.ue_version_major)
    else err "out of range integral type conversion attempted"

-- The trait `UTransport` over the transport's state. A listener is the address of its `Arc`.
pub record UTransport (S : Type 0) : Type 0 where
  pub send : UMessage → S → Result UStatus (Unit {0}) × S
  pub register_listener : UUri → Option UUri → ℕ → S → Result UStatus (Unit {0}) × S
  pub unregister_listener : UUri → Option UUri → ℕ → S → Result UStatus (Unit {0}) × S

-- The trait `LocalUriProvider`, and what it is for a `StaticUriProvider`.
pub record LocalUriProvider : Type 0 where
  pub authority : String
  pub resource_uri : ℕ → UUri
  pub source_uri : UUri

unfoldable pub provider : StaticUriProvider → LocalUriProvider
unfolding get_authority get_resource_uri get_source_uri
provider p = record {
  authority = get_authority p;
  resource_uri = λ resource_id. get_resource_uri resource_id p;
  source_uri = get_source_uri p;
}

abbrev not_implemented : {A : Type 0} → Result UStatus A
not_implemented = err (fail_with_code UCode.unimplemented "not implemented")

-- The default methods of the trait, which a transport has that only sends.
module _ {S : Type 0} where
  unfoldable pub receive : UUri → Option UUri → S → Result UStatus UMessage × S
  receive source_filter sink_filter s = (not_implemented, s)

  unfoldable pub with_defaults : (UMessage → S → Result UStatus (Unit {0}) × S) → UTransport S
  with_defaults send = record {
    send = send;
    register_listener = λ source_filter sink_filter listener s. (not_implemented, s);
    unregister_listener = λ source_filter sink_filter listener s. (not_implemented, s);
  }
