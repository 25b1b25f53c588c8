-- ===== src/Core/UDiscovery.antt =====
-- src/core/udiscovery.rs. The messages have the fields that the program reads or sets.
use up_rust.Prelude.{ℕ, Bool, Option, List, Run}
use up_rust.Proto.{UUri}
use up_rust.Uri.Parsing.{UriParser, try_from_parts}
use up_rust.Core.{unwrap}

pub record FindServicesRequest : Type 0 where
  pub uri : Option UUri
  pub recursive : Bool

-- The URIs of a batch, if there is one.
pub record FindServicesResponse : Type 0 where
  pub uris : Option (List UUri)

pub record GetServiceTopicsRequest : Type 0 where
  pub topic : Option UUri
  pub recursive : Bool

pub record GetServiceTopicsResponse (ServiceTopicInfo : Type 0) : Type 0 where
  pub topics : List ServiceTopicInfo

abbrev pub type_id : ℕ
type_id = 1

abbrev pub version_major : ℕ
version_major = 3

abbrev pub resource_id_find_services : ℕ
resource_id_find_services = 1

abbrev pub resource_id_get_service_topics : ℕ
resource_id_get_service_topics = 2

unfoldable pub udiscovery_uri : UriParser → ℕ → Run UUri
udiscovery_uri parser resource_id =
    unwrap (try_from_parts parser "" type_id version_major resource_id)
