-- ===== src/Did/Editing/Removal.antt =====
-- What `remove_method` removes, and what it leaves.
use identity_rs.Core.OrderedSet
use identity_rs.Core.OrderedSet.{OrderedSet, contains}
use identity_rs.Core.OrderedSet.Laws.{contains-remove}
use identity_rs.Did.Document.{CoreDocument, relation}
use identity_rs.Did.Editing.{remove_method, method_not_found}
use identity_rs.Did.Method.{MethodRelationship, method_key, ref_key}
use identity_rs.Did.Url
use identity_rs.Did.Url.{DidUrl, UrlKey, key_eq}
use identity_rs.Prelude.{
  ◌≡◌, Bool, false, not, ◌&&◌, ◌||◌, HasEq, ◌==◌, if◌then◌else◌, ok, err, arith,
}

module _ {D T U V P : Type 0} ⦃e : HasEq D⦄ (doc : CoreDocument D T U V P) (did : DidUrl D) where
  -- The id is in the set of methods or in that of some relationship.
  abbrev pub occurs : Bool
  occurs =
      contains ref_key doc.authentication (Url.key did)
      || contains ref_key doc.assertion_method (Url.key did)
      || contains ref_key doc.key_agreement (Url.key did)
      || contains ref_key doc.capability_delegation (Url.key did)
      || contains ref_key doc.capability_invocation (Url.key did)
      || contains method_key doc.verification_method (Url.key did)

  refs-remove_method :
      (r : MethodRelationship) (k : UrlKey D)
      → contains ref_key (relation (remove_method doc did).0 r) k
        ≡ (contains ref_key (relation doc r) k && not (k == Url.key did))
  unfolding remove_method
  refs-remove_method MethodRelationship.authentication k =
      (contains-remove ref_key doc.authentication (Url.key did) k).0
  refs-remove_method r k = (contains-remove ref_key (relation doc r) (Url.key did) k).0

  result-remove_method :
      (remove_method doc did).1 ≡ (if occurs then ok tt else err method_not_found)
  unfolding remove_method OrderedSet.remove
  result-remove_method = ground arith

  -- After `remove_method` the id is in no set of the document, and for every other id each set has it
  -- exactly when it had it before. The result is the error exactly when the id was in none of the six
  -- sets, and then the document is as before.
  pub remove_method-occurs :
      (r : MethodRelationship) (k : UrlKey D)
      → (contains ref_key (relation (remove_method doc did).0 r) k
          ≡ (contains ref_key (relation doc r) k && not (k == Url.key did)))
        × (contains method_key (remove_method doc did).0.verification_method k
            ≡ (contains method_key doc.verification_method k && not (k == Url.key did)))
        × ((remove_method doc did).1 ≡ (if occurs then ok tt else err method_not_found))
        × (occurs ≡ false → (remove_method doc did).0 ≡ doc)
  unfolding remove_method
  remove_method-occurs r k = (
    refs-remove_method r k,
    (contains-remove method_key doc.verification_method (Url.key did) k).0,
    result-remove_method,
    λ absent. unfold OrderedSet.remove in ground arith,
  )
