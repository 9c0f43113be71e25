-- ===== src/Did/Revocation/Tests.antt =====
-- Runs of the revocation on a document with one bitmap.
use identity_rs.Core.OneOrSet
use identity_rs.Did.Query
use identity_rs.Did.Query.{matches, did_str, end_pos, cut, fragment}
use identity_rs.Did.Revocation
use identity_rs.Did.Revocation.{
  revoke_all, unrevoke_all, resolve_revocation_bitmap, revoke_credentials, unrevoke_credentials,
}
use identity_rs.Did.Revocation.Bitmap
use identity_rs.Did.Revocation.Bitmap.{
  is_revoked, from_endpoint, to_endpoint, from_endpoint-to_endpoint, service_not_found,
}
use identity_rs.Did.Revocation.Samples.{bitmaps, codec, endpoint, issuer_document}
use identity_rs.Did.Revocation.Updates.{revoke_credentials-resolve}
use identity_rs.Did.Samples.{as_str}
use identity_rs.Did.Url
use identity_rs.Prelude.{ℕ, ◌≡◌, refl, ◌||◌, [], ◌∷◌, any, nat_beq, ok, err, text}

program : Unit {0}
unfolding Revocation.update_first revoke_all unrevoke_all Revocation.try_from_service
    Revocation.update_service resolve_revocation_bitmap Revocation.update_revocation_bitmap
    revoke_credentials unrevoke_credentials is_revoked Bitmap.revoke Bitmap.unrevoke
    Bitmap.serialize_compressed_base64 Bitmap.deserialize_compressed_base64 to_endpoint
    from_endpoint OneOrSet.contains_key cut end_pos did_str fragment matches Query.did_matches
    Query.query Url.get_fragment
program = tt

resolved :
    (resolve_revocation_bitmap codec as_str issuer_document (text "#revocation") ≡ ok (7 ∷ []))
    × (resolve_revocation_bitmap codec as_str issuer_document (text "#other")
        ≡ err service_not_found)
unfolding program
resolved = (refl, refl)

from_endpoint-to_endpoint_example : from_endpoint codec (endpoint (3 ∷ [])) ≡ ok (3 ∷ [])
unfolding program
from_endpoint-to_endpoint_example =
    from_endpoint-to_endpoint codec (3 ∷ []) (endpoint (3 ∷ [])) refl

revoke_credentials-resolve_example :
    ((revoke_credentials codec as_str bitmaps issuer_document (text "#revocation") (3 ∷ [])).1
      ≡ ok tt)
    × (bitmap : _) × (resolve_revocation_bitmap codec as_str
          (revoke_credentials codec as_str bitmaps issuer_document (text "#revocation") (3 ∷ [])).0
          (text "#revocation")
        ≡ ok bitmap)
    × ((index : ℕ)
        → is_revoked bitmaps bitmap index
          ≡ (any (λ i. nat_beq i index) (3 ∷ []) || is_revoked bitmaps (7 ∷ []) index))
unfolding program
revoke_credentials-resolve_example =
    revoke_credentials-resolve codec as_str bitmaps issuer_document (text "#revocation") (3 ∷ [])
      (7 ∷ []) (endpoint (3 ∷ 7 ∷ [])) refl refl
