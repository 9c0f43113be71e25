-- ===== src/Did/Revocation.antt =====
-- identity_did/src/revocation/bitmap.rs and the revocation in
-- identity_did/src/document/core_document.rs: a service of a document holds a compressed bitmap of
-- the revoked indices. The bitmap and the codecs are libraries.
pub mod Bitmap
pub mod Samples
pub mod Updates
mod Tests
use identity_rs.Core.OneOrSet
use identity_rs.Core.OneOrSet.{contains_key}
use identity_rs.Did.Document.{CoreDocument}
use identity_rs.Did.Query.{query, matches}
use identity_rs.Did.Revocation.Bitmap.{
  Bitmaps, Codec, ServiceEndpoint, Error, wrong_type, service_not_found, bitmap_type, from_endpoint,
  to_endpoint, revoke, unrevoke,
}
use identity_rs.Did.Service.{Service}
use identity_rs.Prelude.{
  ℕ, ◌≡◌, Bool, true, false, Option, none, some, List, [], ◌∷◌, if◌then◌else◌, Outcome, ok, err,
  ◌>>=◌, ok_or, Text, nat_eq, list_eq,
}

-- `Queryable::query_mut`, followed by a change of the item that is found
unfoldable pub update_first :
    {E A : Type 0} → (A → Bool) → (A → Outcome E A) → E → List A → Outcome E (List A)
update_first found change missing [] = err missing
update_first found change missing (item ∷ items) =
    let rest = update_first found change missing items in
    if found item
    then (change item >>= λ item'. ok (item' ∷ items))
    else (rest >>= λ items'. ok (item ∷ items'))

module _ {B : Type 0} (bitmaps : Bitmaps B) where
  -- `for credential in indices { … }`
  unfoldable pub revoke_all : B → List ℕ → B
  revoke_all bitmap [] = bitmap
  revoke_all bitmap (index ∷ indices) = revoke_all (revoke bitmaps bitmap index).0 indices

  unfoldable pub unrevoke_all : B → List ℕ → B
  unrevoke_all bitmap [] = bitmap
  unrevoke_all bitmap (index ∷ indices) = unrevoke_all (unrevoke bitmaps bitmap index).0 indices

module _ {B E : Type 0} (codec : Codec B E) where
  module _ {D V : Type 0} where
    -- `TryFrom<&Service> for RevocationBitmap`
    unfoldable pub try_from_service : Service D V ServiceEndpoint → Outcome (Error E) B
    try_from_service service =
        if contains_key (λ (t : Text). t) service.type_ bitmap_type
        then from_endpoint codec service.service_endpoint
        else err wrong_type

    unfoldable pub update_service :
        (B → B) → Service D V ServiceEndpoint → Outcome (Error E) (Service D V ServiceEndpoint)
    update_service f service = do
      bitmap ← try_from_service service
      endpoint ← to_endpoint codec (f bitmap)
      ok (record service { service_endpoint = endpoint })

  module _ {D T U V : Type 0} (as_str : D → Text) where
    -- `ValidatorDocument::resolve_revocation_bitmap`
    unfoldable pub resolve_revocation_bitmap :
        CoreDocument D T U V ServiceEndpoint → Text → Outcome (Error E) B
    resolve_revocation_bitmap doc q =
        ok_or (query as_str (λ service. service.id) doc.service q) service_not_found
        >>= try_from_service

    unfoldable pub update_revocation_bitmap :
        CoreDocument D T U V ServiceEndpoint
        → Text
        → (B → B)
        → CoreDocument D T U V ServiceEndpoint × Outcome (Error E) (Unit {0})
    update_revocation_bitmap doc q f =
        elim (update_first (λ service. matches as_str q service.id) (update_service f)
          service_not_found doc.service) [
            | ok service ↦ (record doc { service = service }, ok tt)
            | err e ↦ (doc, err e)
          ]

    module _ (bitmaps : Bitmaps B) where
      unfoldable pub revoke_credentials :
          CoreDocument D T U V ServiceEndpoint
          → Text
          → List ℕ
          → CoreDocument D T U V ServiceEndpoint × Outcome (Error E) (Unit {0})
      revoke_credentials doc q indices =
          update_revocation_bitmap doc q (λ bitmap. revoke_all bitmaps bitmap indices)

      unfoldable pub unrevoke_credentials :
          CoreDocument D T U V ServiceEndpoint
          → Text
          → List ℕ
          → CoreDocument D T U V ServiceEndpoint × Outcome (Error E) (Unit {0})
      unrevoke_credentials doc q indices =
          update_revocation_bitmap doc q (λ bitmap. unrevoke_all bitmaps bitmap indices)
