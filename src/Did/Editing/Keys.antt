-- ===== src/Did/Editing/Keys.antt =====
-- Every edit keeps the keys of each set of a document unique.
use identity_rs.Core.OrderedSet.{OrderedSet}
use identity_rs.Core.OrderedSet.Laws.{IsUnique, append-IsUnique, remove-IsUnique}
use identity_rs.Did.Document.{CoreDocument, relation, set_relation, resolve_method}
use identity_rs.Did.Editing.{
  append_in_scope, insert_method, remove_method, attach_method_relationship,
  detach_method_relationship,
}
use identity_rs.Did.Method.{
  MethodRelationship, MethodScope, VerificationMethod, MethodRef, method_key, ref_key, embed, refer,
}
use identity_rs.Did.Query.{from_did_url}
use identity_rs.Did.Service.{service_key}
use identity_rs.Did.Url
use identity_rs.Did.Url.{DidUrl, key_eq}
use identity_rs.Prelude.{◌≡◌, refl, none, some, HasEq, Text, Option-cases, inl, inr}

module _ {D T U V P : Type 0} ⦃e : HasEq D⦄ where
  pub record HasUniqueKeys (doc : CoreDocument D T U V P) : Type 0 where
    pub methods : IsUnique method_key doc.verification_method
    pub refs : (r : MethodRelationship) → IsUnique ref_key (relation doc r)
    pub services : IsUnique service_key doc.service

  relation-IsUnique :
      (doc : CoreDocument D T U V P) (set : OrderedSet (MethodRef D U))
      → IsUnique ref_key set
      → ((r : MethodRelationship) → IsUnique ref_key (relation doc r))
      → (r s : MethodRelationship) → IsUnique ref_key (relation (set_relation doc r set) s)
  relation-IsUnique doc set u all MethodRelationship.authentication
        MethodRelationship.authentication =
      u
  relation-IsUnique doc set u all MethodRelationship.assertion_method
        MethodRelationship.assertion_method =
      u
  relation-IsUnique doc set u all MethodRelationship.key_agreement
        MethodRelationship.key_agreement =
      u
  relation-IsUnique doc set u all MethodRelationship.capability_delegation
        MethodRelationship.capability_delegation =
      u
  relation-IsUnique doc set u all MethodRelationship.capability_invocation
        MethodRelationship.capability_invocation =
      u
  relation-IsUnique doc set u all _ s = all s

  pub methods-set_relation :
      (doc : CoreDocument D T U V P) (r : MethodRelationship) (set : OrderedSet (MethodRef D U))
      → (set_relation doc r set).verification_method ≡ doc.verification_method
  methods-set_relation doc MethodRelationship.authentication set = refl
  methods-set_relation doc _ set = refl

  services-set_relation :
      (doc : CoreDocument D T U V P) (r : MethodRelationship) (set : OrderedSet (MethodRef D U))
      → (set_relation doc r set).service ≡ doc.service
  services-set_relation doc MethodRelationship.authentication set = refl
  services-set_relation doc _ set = refl

  set_relation-HasUniqueKeys :
      (doc : CoreDocument D T U V P) (r : MethodRelationship) (set : OrderedSet (MethodRef D U))
      → HasUniqueKeys doc
      → IsUnique ref_key set
      → HasUniqueKeys (set_relation doc r set)
  set_relation-HasUniqueKeys doc r set h u = record {
    methods = rw (methods-set_relation doc r set) h.methods;
    refs = relation-IsUnique doc set u h.refs r;
    services = rw (services-set_relation doc r set) h.services;
  }

  append_in_scope-HasUniqueKeys :
      (doc : CoreDocument D T U V P) (method : VerificationMethod D U) (scope : MethodScope)
      → HasUniqueKeys doc
      → HasUniqueKeys (append_in_scope doc method scope)
  unfolding append_in_scope
  append_in_scope-HasUniqueKeys doc method MethodScope.verification_method h = record {
    methods = append-IsUnique method_key doc.verification_method method h.methods;
    refs = refs;
    services = h.services;
  }
    where
      refs :
          (r : MethodRelationship)
          → IsUnique ref_key
              (relation (append_in_scope doc method MethodScope.verification_method) r)
      refs MethodRelationship.authentication = h.refs MethodRelationship.authentication
      refs r = h.refs r
  append_in_scope-HasUniqueKeys doc method (MethodScope.verification_relationship r) h =
      set_relation-HasUniqueKeys doc r _ h
        (append-IsUnique ref_key (relation doc r) (embed method) (h.refs r))

  pub remove_method-HasUniqueKeys :
      (doc : CoreDocument D T U V P) (did : DidUrl D)
      → HasUniqueKeys doc
      → HasUniqueKeys (remove_method doc did).0
  unfolding remove_method
  remove_method-HasUniqueKeys doc did h = record {
    methods = remove-IsUnique method_key doc.verification_method (Url.key did) h.methods;
    refs = refs;
    services = h.services;
  }
    where
      refs : (r : MethodRelationship) → IsUnique ref_key (relation (remove_method doc did).0 r)
      refs MethodRelationship.authentication =
          remove-IsUnique ref_key doc.authentication (Url.key did)
            (h.refs MethodRelationship.authentication)
      refs r = remove-IsUnique ref_key (relation doc r) (Url.key did) (h.refs r)

module _ {D T U V P : Type 0} ⦃e : HasEq D⦄ (as_str : D → Text) (doc : CoreDocument D T U V P)
    (h : HasUniqueKeys doc) where
  insert_method-HasUniqueKeys :
      (method : VerificationMethod D U) (scope : MethodScope)
      → HasUniqueKeys (insert_method as_str doc method scope).0
  unfolding insert_method
  insert_method-HasUniqueKeys method scope =
      elim (Option-cases (resolve_method as_str doc (from_did_url as_str method.id) none)) [
        | inl new ↦ rw (new, insert_method) (append_in_scope-HasUniqueKeys doc method scope h)
        | inr (old, found) ↦ rw (found, insert_method) h
      ]

  attach-HasUniqueKeys :
      (q : Text) (r : MethodRelationship)
      → HasUniqueKeys (attach_method_relationship as_str doc q r).0
  unfolding attach_method_relationship
  attach-HasUniqueKeys q r =
      elim (Option-cases (resolve_method as_str doc q (some MethodScope.verification_method))) [
        | inl missing ↦ rw (missing, attach_method_relationship) h
        | inr (method, found) ↦
            rw (found, attach_method_relationship)
              (set_relation-HasUniqueKeys doc r _ h
                (append-IsUnique ref_key (relation doc r) (refer method.id) (h.refs r)))
      ]

  detach-HasUniqueKeys :
      (q : Text) (r : MethodRelationship)
      → HasUniqueKeys (detach_method_relationship as_str doc q r).0
  unfolding detach_method_relationship
  detach-HasUniqueKeys q r =
      elim (Option-cases (resolve_method as_str doc q (some MethodScope.verification_method))) [
        | inl missing ↦ rw (missing, detach_method_relationship) h
        | inr (method, found) ↦
            rw (found, detach_method_relationship)
              (set_relation-HasUniqueKeys doc r _ h
                (remove-IsUnique ref_key (relation doc r) (Url.key method.id) (h.refs r)))
      ]

  -- From a document whose sets have unique keys, every edit leads to such a document, whether it
  -- succeeds or fails: the insertion and the removal of a method, and the attachment and the
  -- detachment of a relationship.
  pub edits-HasUniqueKeys :
      (method : VerificationMethod D U) (scope : MethodScope) (did : DidUrl D) (q : Text)
      (r : MethodRelationship)
      → HasUniqueKeys (insert_method as_str doc method scope).0
        × HasUniqueKeys (remove_method doc did).0
        × HasUniqueKeys (attach_method_relationship as_str doc q r).0
        × HasUniqueKeys (detach_method_relationship as_str doc q r).0
  edits-HasUniqueKeys method scope did q r = (
    insert_method-HasUniqueKeys method scope,
    remove_method-HasUniqueKeys doc did h,
    attach-HasUniqueKeys q r,
    detach-HasUniqueKeys q r,
  )
