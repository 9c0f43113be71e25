-- ===== src/Did/Tests.antt =====
-- Runs of the DID document on small inputs.
use identity_rs.Core.OrderedSet.{contains}
use identity_rs.Core.OrderedSet.Laws.{IsUnique}
use identity_rs.Core.OrderedSet
use identity_rs.Did.Document
use identity_rs.Did.Document.{resolve_method, relation}
use identity_rs.Did.Editing
use identity_rs.Did.Editing.{
  Error, insert_method, remove_method, attach_method_relationship, detach_method_relationship,
  method_not_found, invalid_method_embedded, not_generic, method_already_exists,
}
use identity_rs.Did.Editing.Keys.{HasUniqueKeys, edits-HasUniqueKeys}
use identity_rs.Did.Editing.Removal.{occurs, remove_method-occurs}
use identity_rs.Did.Editing.Relationships.{attached_or_detached}
use identity_rs.Did.Editing.Insertion.{insert_method-resolve, insert_method_silent}
use identity_rs.Did.Method.{MethodRelationship, MethodScope, ref_key, method_key, refer}
use identity_rs.Did.Query.{matches, from_did_url, did_str, end_pos, fragment, cut, same_fragment}
use identity_rs.Did.Query
use identity_rs.Did.Query.Matching.{IsDidText, matches-from_did_url}
use identity_rs.Did.Samples.{owner, url, method, empty, sample, as_str}
use identity_rs.Did.Url
use identity_rs.Did.Url.{key_eq, get_fragment}
use identity_rs.Did.Url.Validity.{IsValid}
use identity_rs.Prelude.{
  ◌≡◌, ◌≢◌, ◌⊎◌, if◌then◌else◌, refl, false, none, some, [], ◌∷◌, ok, err, text, ◌==◌, not, ◌&&◌,
  ◌||◌, arith, list_eq, nat_eq, Lacks-find_char,
}

-- all that the documents' operations call
program : Unit {0}
unfolding contains OrderedSet.append OrderedSet.remove Document.query_methods Document.query_refs
    Document.resolve_method_ref Document.first_ref Document.resolve_method_inner resolve_method
    Editing.append_in_scope insert_method remove_method not_generic attach_method_relationship
    detach_method_relationship cut end_pos did_str fragment matches Query.did_matches from_did_url
    Query.query Url.to_string Url.did_url_to_string get_fragment Url.key
program = tt

-- identity_did/src/utils/did_url_query.rs, `test_did_str` and `test_fragment`
query_parts :
    (did_str (text "did:iota:example/path?query#fragment") ≡ some (text "did:iota:example"))
    × (did_str (text "#fragment") ≡ none)
    × (fragment (text "did:iota:example?q=#a#b") ≡ some (text "b"))
    × (fragment (text "fragment") ≡ some (text "fragment"))
    × (fragment (text "did:iota:example#") ≡ none)
unfolding program
query_parts = (refl, refl, refl, refl, refl)

resolved :
    (resolve_method as_str sample (text "#k2") none ≡ some (method (text "k2")))
    × (resolve_method as_str sample
          (text "k1")
          (some (MethodScope.verification_relationship MethodRelationship.authentication))
        ≡ some (method (text "k1")))
    × (resolve_method as_str sample (text "did:example:9#k1") none ≡ none)
unfolding program
resolved = (refl, refl, refl)

attached :
    (attach_method_relationship as_str sample (text "#k2") MethodRelationship.authentication
      ≡ (sample, err invalid_method_embedded))
    × (attach_method_relationship as_str sample (text "#k3") MethodRelationship.authentication
        ≡ (sample, err method_not_found))
    × (attach_method_relationship as_str sample (text "#k1") MethodRelationship.authentication
        ≡ (sample, ok false))
unfolding program
attached = (refl, refl, refl)

sample-HasUniqueKeys : HasUniqueKeys sample
unfolding program
sample-HasUniqueKeys = record { methods = (refl, tt); refs = λ r. refs r; services = tt }
  where
    refs : (r : MethodRelationship) → IsUnique ref_key (relation sample r)
    refs MethodRelationship.authentication = (refl, tt)
    refs MethodRelationship.assertion_method = tt
    refs MethodRelationship.key_agreement = (refl, tt)
    refs MethodRelationship.capability_delegation = tt
    refs MethodRelationship.capability_invocation = tt

owner-IsDidText : IsDidText owner
owner-IsDidText = record {
  starts = refl;
  no_query = Lacks-find_char b'?' owner refl;
  no_path = Lacks-find_char b'/' owner refl;
  no_fragment = Lacks-find_char b'#' owner refl;
}

url-IsValid : IsValid (url (text "k3")).url
unfolding Url.is_char_fragment Url.is_char_path Url.is_char_method_id
url-IsValid = record { path = tt; query = tt; fragment = (refl, refl) }

edits-HasUniqueKeys_example :
    HasUniqueKeys
      (insert_method as_str sample (method (text "k3")) MethodScope.verification_method).0
    × HasUniqueKeys (remove_method sample (url (text "k1"))).0
    × HasUniqueKeys
        (attach_method_relationship as_str sample (text "#k1") MethodRelationship.key_agreement).0
    × HasUniqueKeys
        (detach_method_relationship as_str sample (text "#k1") MethodRelationship.key_agreement).0
edits-HasUniqueKeys_example =
    edits-HasUniqueKeys as_str sample sample-HasUniqueKeys (method (text "k3"))
      MethodScope.verification_method (url (text "k1")) (text "#k1")
      MethodRelationship.key_agreement

remove_method-occurs_example :
    (contains ref_key
        (remove_method sample (url (text "k1"))).0.authentication
        (Url.key (url (text "k1")))
      ≡ (contains ref_key sample.authentication (Url.key (url (text "k1")))
          && not (Url.key (url (text "k1")) == Url.key (url (text "k1")))))
    × (contains method_key
          (remove_method sample (url (text "k1"))).0.verification_method
          (Url.key (url (text "k1")))
        ≡ (contains method_key sample.verification_method (Url.key (url (text "k1")))
            && not (Url.key (url (text "k1")) == Url.key (url (text "k1")))))
    × ((remove_method sample (url (text "k1"))).1
        ≡ (if occurs sample (url (text "k1")) then ok tt else err method_not_found))
    × (occurs sample (url (text "k1")) ≡ false
        → (remove_method sample (url (text "k1"))).0 ≡ sample)
remove_method-occurs_example =
    remove_method-occurs sample (url (text "k1")) MethodRelationship.authentication
      (Url.key (url (text "k1")))

attached_or_detached_example :
    let after =
      attach_method_relationship as_str sample (text "#k1") MethodRelationship.key_agreement in
    let after' =
      detach_method_relationship as_str sample (text "#k1") MethodRelationship.key_agreement in
    (contains ref_key after.0.key_agreement (Url.key (url (text "k1"))) ≡ (
      contains ref_key sample.key_agreement (Url.key (url (text "k1")))
      || Url.key (url (text "k1")) == Url.key (url (text "k1"))))
    × (after.1 ≡ ok (not (contains ref_key sample.key_agreement (Url.key (url (text "k1"))))))
    × (after.0.verification_method ≡ sample.verification_method)
    × (contains ref_key after'.0.key_agreement (Url.key (url (text "k1"))) ≡ (
        contains ref_key sample.key_agreement (Url.key (url (text "k1")))
        && not (Url.key (url (text "k1")) == Url.key (url (text "k1")))))
    × (after'.1 ≡ ok (contains ref_key sample.key_agreement (Url.key (url (text "k1")))))
    × (after'.0.verification_method ≡ sample.verification_method)
unfolding program
attached_or_detached_example =
    attached_or_detached as_str sample (text "#k1") MethodRelationship.key_agreement
      (method (text "k1")) refl (Url.key (url (text "k1")))

matches-from_did_url_example :
    matches as_str (from_did_url as_str (url (text "k3"))) (url (text "k1"))
    ≡ (owner == owner && same_fragment (some (text "k3")) (get_fragment (url (text "k1")).url))
matches-from_did_url_example =
    matches-from_did_url as_str (url (text "k3")) b'k' (b'3' ∷ []) owner-IsDidText url-IsValid refl
      (url (text "k1"))

insert_method-resolve_example :
    ((resolve_method as_str sample (from_did_url as_str (url (text "k3"))) none ≡ none)
      × ((insert_method as_str sample (method (text "k3")) MethodScope.verification_method).1
          ≡ ok tt)
      × (resolve_method as_str
            (insert_method as_str sample (method (text "k3")) MethodScope.verification_method).0
            (from_did_url as_str (url (text "k3")))
            (some MethodScope.verification_method)
          ≡ some (method (text "k3")))
      × (resolve_method as_str
            (insert_method as_str sample (method (text "k3")) MethodScope.verification_method).0
            (from_did_url as_str (url (text "k3")))
            none
          ≡ some (method (text "k3"))))
    ⊎ ((resolve_method as_str sample (from_did_url as_str (url (text "k3"))) none ≢ none)
        × (insert_method as_str sample (method (text "k3")) MethodScope.verification_method
            ≡ (sample, err method_already_exists)))
unfolding program
insert_method-resolve_example =
    insert_method-resolve as_str sample (method (text "k3")) b'k' (b'3' ∷ []) owner-IsDidText
      url-IsValid refl MethodScope.verification_method (λ ref found. absurd (ground arith))

insert_method_silent_example :
    insert_method as_str
      (record empty { authentication = refer (url (text "k1")) ∷ [] })
      (method (text "k1"))
      (MethodScope.verification_relationship MethodRelationship.authentication)
    ≡ (record empty { authentication = refer (url (text "k1")) ∷ [] }, ok tt)
unfolding program
insert_method_silent_example =
    insert_method_silent as_str (record empty { authentication = refer (url (text "k1")) ∷ [] })
      (method (text "k1")) MethodRelationship.authentication refl refl
