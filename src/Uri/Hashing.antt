-- ===== src/Uri/Hashing.antt =====
-- src/uri.rs, src/uuid.rs: what a hasher is fed with for the keys of the maps of handlers and of
-- pending requests.
use up_rust.Prelude.{ℕ, String, ◌≡◌, ap, subst, ◌↔◌, true, List, [], ◌∷◌}
use up_rust.Proto.{Uuid, UUri}
use up_rust.Uri.{uri_eq}
use up_rust.LocalTransport.Deliveries.{uri_eq_iff}
use up_rust.Communication.RpcClient.{uuid_eq}
use up_rust.Communication.RpcClient.Counting.{uuid_eq_sound}
use up_rust.Communication.RpcClient.Pending.{uuid_eq_refl}

pub data Fed : Type 0 where
  text : String → Fed
  number : ℕ → Fed

unfoldable pub hash : UUri → List Fed
hash u =
    text u.authority_name ∷ number u.ue_id ∷ number u.ue_version_major ∷ number u.resource_id ∷ []

unfoldable pub hash_uuid : Uuid → List Fed
hash_uuid id = number id.msb ∷ number id.lsb ∷ []

hash_inj : (u v : UUri) → hash u ≡ hash v → u ≡ v
unfolding hash
hash_inj u v h = λ i. record {
  authority_name = authority i;
  ue_id = entity i;
  ue_version_major = version i;
  resource_id = resource i;
}
  where
    authority : u.authority_name ≡ v.authority_name
    authority = cc

    entity : u.ue_id ≡ v.ue_id
    entity = cc

    version : u.ue_version_major ≡ v.ue_version_major
    version = cc

    resource : u.resource_id ≡ v.resource_id
    resource = cc

hash_uuid_inj : (u v : Uuid) → hash_uuid u ≡ hash_uuid v → u ≡ v
unfolding hash_uuid
hash_uuid_inj u v h = λ i. record { msb = msb i; lsb = lsb i }
  where
    msb : u.msb ≡ v.msb
    msb = cc

    lsb : u.lsb ≡ v.lsb
    lsb = cc

-- Keys of the maps, URIs as well as UUIDs, are equal exactly if a hasher is fed with the same for
-- them: equal keys have the same hash, and different keys are not fed alike.
pub uri_eq-hash_iff :
    (u v : UUri) (i j : Uuid)
    → ((uri_eq u v ≡ true) ↔ (hash u ≡ hash v))
      × ((uuid_eq i j ≡ true) ↔ (hash_uuid i ≡ hash_uuid j))
uri_eq-hash_iff u v i j = (
  (λ h. ap hash ((uri_eq_iff u v).0 h), λ h. (uri_eq_iff u v).1 (hash_inj u v h)),
  (
    λ h. ap hash_uuid (uuid_eq_sound i j h),
    λ h. subst (λ k. uuid_eq i k ≡ true) (hash_uuid_inj i j h) (uuid_eq_refl i),
  ),
)
