-- ===== src/Did/Editing.antt =====
-- identity_did/src/document/core_document.rs: the operations that edit a document. Each returns the
-- document as it stands afterwards beside its result, on the error paths too.
pub mod Keys
pub mod Removal
pub mod Relationships
pub mod Insertion
use identity_rs.Core.OrderedSet
use identity_rs.Core.OrderedSet.{OrderedSet}
use identity_rs.Did.Document.{CoreDocument, relation, set_relation, resolve_method}
use identity_rs.Did.Method.{
  MethodRelationship, MethodScope, VerificationMethod, MethodRef, method_key, ref_key, embed, refer,
}
use identity_rs.Did.Query.{from_did_url}
use identity_rs.Did.Url
use identity_rs.Did.Url.{DidUrl, key_eq}
use identity_rs.Prelude.{
  Bool, true, false, ◌||◌, Option, none, some, HasEq, if◌then◌else◌, Text, Outcome, ok, err,
}

pub data Error : Type 0 where
  method_already_exists method_not_found invalid_method_embedded : Error

module _ {D T U V P : Type 0} ⦃e : HasEq D⦄ where
  -- the `match` on the scope of `insert_method`; its result is dropped there
  unfoldable pub append_in_scope :
      CoreDocument D T U V P → VerificationMethod D U → MethodScope → CoreDocument D T U V P
  append_in_scope doc method MethodScope.verification_method = record doc {
    verification_method = (OrderedSet.append method_key doc.verification_method method).0;
  }
  append_in_scope doc method (MethodScope.verification_relationship r) =
      set_relation doc r (OrderedSet.append ref_key (relation doc r) (embed method)).0

  -- The six removals are made in this order, each on its own set.
  unfoldable pub remove_method :
      CoreDocument D T U V P → DidUrl D → CoreDocument D T U V P × Outcome Error (Unit {0})
  remove_method doc did =
      let (authentication, in_authentication) =
        OrderedSet.remove ref_key doc.authentication (Url.key did) in
      let (assertion_method, in_assertion_method) =
        OrderedSet.remove ref_key doc.assertion_method (Url.key did) in
      let (key_agreement, in_key_agreement) =
        OrderedSet.remove ref_key doc.key_agreement (Url.key did) in
      let (capability_delegation, in_capability_delegation) =
        OrderedSet.remove ref_key doc.capability_delegation (Url.key did) in
      let (capability_invocation, in_capability_invocation) =
        OrderedSet.remove ref_key doc.capability_invocation (Url.key did) in
      let (verification_method, in_verification_method) =
        OrderedSet.remove method_key doc.verification_method (Url.key did) in
      let was_removed =
        in_authentication || in_assertion_method || in_key_agreement || in_capability_delegation
        || in_capability_invocation || in_verification_method in
      (
        record doc {
          authentication = authentication;
          assertion_method = assertion_method;
          key_agreement = key_agreement;
          capability_delegation = capability_delegation;
          capability_invocation = capability_invocation;
          verification_method = verification_method;
        },
        if was_removed then ok tt else err method_not_found,
      )

module _ {D T U V P : Type 0} ⦃e : HasEq D⦄ (as_str : D → Text) where
  unfoldable pub insert_method :
      CoreDocument D T U V P
      → VerificationMethod D U
      → MethodScope
      → CoreDocument D T U V P × Outcome Error (Unit {0})
  insert_method doc method scope =
      elim (resolve_method as_str doc (from_did_url as_str method.id) none) [
        | some _ ↦ (doc, err method_already_exists)
        | none ↦ (append_in_scope doc method scope, ok tt)
      ]

  -- the arm `None` of the two operations below
  unfoldable pub not_generic : CoreDocument D T U V P → Text → Error
  not_generic doc q = elim (resolve_method as_str doc q none) [
    | some _ ↦ invalid_method_embedded
    | none ↦ method_not_found
  ]

  unfoldable pub attach_method_relationship :
      CoreDocument D T U V P
      → Text
      → MethodRelationship
      → CoreDocument D T U V P × Outcome Error Bool
  attach_method_relationship doc q relationship =
      elim (resolve_method as_str doc q (some MethodScope.verification_method)) [
        | none ↦ (doc, err (not_generic doc q))
        | some method ↦
            let (set, was_attached) =
              OrderedSet.append ref_key (relation doc relationship) (refer method.id) in
            (set_relation doc relationship set, ok was_attached)
      ]

  unfoldable pub detach_method_relationship :
      CoreDocument D T U V P
      → Text
      → MethodRelationship
      → CoreDocument D T U V P × Outcome Error Bool
  detach_method_relationship doc q relationship =
      elim (resolve_method as_str doc q (some MethodScope.verification_method)) [
        | none ↦ (doc, err (not_generic doc q))
        | some method ↦
            let (set, was_detached) =
              OrderedSet.remove ref_key (relation doc relationship) (Url.key method.id) in
            (set_relation doc relationship set, ok was_detached)
      ]
