-- ===== src/Did/Document.antt =====
-- identity_did/src/document/core_document.rs: the DID document. A reference into the document that
-- the source returns is the value itself here.
use identity_rs.Core.OneOrSet.{OneOrSet}
use identity_rs.Core.OrderedSet.{OrderedSet}
use identity_rs.Did.Method.{
  MethodRelationship, MethodScope, VerificationMethod, MethodRef, ref_id, embed, refer,
}
use identity_rs.Did.Query.{query, from_did_url}
use identity_rs.Did.Service.{Service}
use identity_rs.Did.Url.{key_eq}
use identity_rs.Prelude.{Option, none, some, List, [], ◌∷◌, ◌++◌, Text}

-- The parameters: DIDs, the properties of the document, of methods and of services, and endpoints.
pub record CoreDocument (D T U V P : Type 0) : Type 0 where
  pub id : D
  pub controller : Option (OneOrSet D)
  pub also_known_as : OrderedSet Text
  pub verification_method : OrderedSet (VerificationMethod D U)
  pub authentication : OrderedSet (MethodRef D U)
  pub assertion_method : OrderedSet (MethodRef D U)
  pub key_agreement : OrderedSet (MethodRef D U)
  pub capability_delegation : OrderedSet (MethodRef D U)
  pub capability_invocation : OrderedSet (MethodRef D U)
  pub service : OrderedSet (Service D V P)
  pub properties : T

module _ {D U : Type 0} where
  -- the closure `__filter_ref`, mapped over a set
  unfoldable pub embedded : List (MethodRef D U) → List (VerificationMethod D U)
  embedded [] = []
  embedded (embed method ∷ refs) = method ∷ embedded refs
  embedded (refer _ ∷ refs) = embedded refs

  -- `if method.is_none() { method = …; }`
  abbrev pub or_query : Option (MethodRef D U) → Option (MethodRef D U) → Option (MethodRef D U)
  or_query none next = next
  or_query (some method_ref) next = some method_ref

  module _ (as_str : D → Text) where
    unfoldable pub query_methods :
        OrderedSet (VerificationMethod D U) → Text → Option (VerificationMethod D U)
    query_methods set q = query as_str (λ method. method.id) set q

    unfoldable pub query_refs : OrderedSet (MethodRef D U) → Text → Option (MethodRef D U)
    query_refs set q = query as_str ref_id set q

module _ {D T U V P : Type 0} where
  -- the five `match`es on a relationship: the set that it names, and the document with that set
  -- written back
  abbrev pub relation : CoreDocument D T U V P → MethodRelationship → OrderedSet (MethodRef D U)
  relation doc MethodRelationship.authentication = doc.authentication
  relation doc MethodRelationship.assertion_method = doc.assertion_method
  relation doc MethodRelationship.key_agreement = doc.key_agreement
  relation doc MethodRelationship.capability_delegation = doc.capability_delegation
  relation doc MethodRelationship.capability_invocation = doc.capability_invocation

  abbrev pub set_relation :
      CoreDocument D T U V P
      → MethodRelationship
      → OrderedSet (MethodRef D U)
      → CoreDocument D T U V P
  set_relation doc MethodRelationship.authentication set = record doc { authentication = set }
  set_relation doc MethodRelationship.assertion_method set = record doc { assertion_method = set }
  set_relation doc MethodRelationship.key_agreement set = record doc { key_agreement = set }
  set_relation doc MethodRelationship.capability_delegation set = record doc {
    capability_delegation = set;
  }
  set_relation doc MethodRelationship.capability_invocation set = record doc {
    capability_invocation = set;
  }

  unfoldable pub methods : CoreDocument D T U V P → List (VerificationMethod D U)
  methods doc =
      doc.verification_method
      ++ (embedded doc.authentication
          ++ (embedded doc.assertion_method
              ++ (embedded doc.key_agreement
                  ++ (embedded doc.capability_delegation ++ embedded doc.capability_invocation))))

  unfoldable pub verification_relationships : CoreDocument D T U V P → List (MethodRef D U)
  verification_relationships doc =
      doc.authentication
      ++ (doc.assertion_method
          ++ (doc.key_agreement ++ (doc.capability_delegation ++ doc.capability_invocation)))

module _ {D T U V P : Type 0} (as_str : D → Text) where
  unfoldable pub resolve_method_ref :
      CoreDocument D T U V P → MethodRef D U → Option (VerificationMethod D U)
  resolve_method_ref doc (embed method) = some method
  resolve_method_ref doc (refer did) =
      query_methods as_str doc.verification_method (from_did_url as_str did)

  abbrev pub and_then_ref :
      CoreDocument D T U V P → Option (MethodRef D U) → Option (VerificationMethod D U)
  and_then_ref doc none = none
  and_then_ref doc (some method_ref) = resolve_method_ref doc method_ref

  unfoldable pub first_ref : CoreDocument D T U V P → Text → Option (MethodRef D U)
  first_ref doc q =
      or_query
        (or_query
          (or_query
            (or_query (query_refs as_str doc.authentication q)
              (query_refs as_str doc.assertion_method q))
            (query_refs as_str doc.key_agreement q))
          (query_refs as_str doc.capability_delegation q))
        (query_refs as_str doc.capability_invocation q)

  unfoldable pub resolve_method_inner :
      CoreDocument D T U V P → Text → Option (VerificationMethod D U)
  resolve_method_inner doc q = elim (first_ref doc q) [
    | some method_ref ↦ resolve_method_ref doc method_ref
    | none ↦ query_methods as_str doc.verification_method q
  ]

  unfoldable pub resolve_method :
      CoreDocument D T U V P → Text → Option MethodScope → Option (VerificationMethod D U)
  resolve_method doc q none = resolve_method_inner doc q
  resolve_method doc q (some MethodScope.verification_method) =
      query_methods as_str doc.verification_method q
  resolve_method doc q (some (MethodScope.verification_relationship r)) =
      and_then_ref doc (query_refs as_str (relation doc r) q)
