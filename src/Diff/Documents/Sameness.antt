-- ===== src/Diff/Documents/Sameness.antt =====
-- The derived `PartialEq` of documents (identity_did/src/document/core_document.rs): sound documents are
-- the same only if they are equal.
use identity_rs.Core.OneOrSet.{OneOrSet}
use identity_rs.Did.Document.{CoreDocument, relation}
use identity_rs.Did.Method.{MethodType, MethodData, MethodRelationship}
use identity_rs.Diff.Documents.Program.{Libraries, IsSound}
use identity_rs.Diff.Interface.{PartialEq, Separates, list_same}
use identity_rs.Diff.Sameness.{
  IsMethod, IsRef, method_same, ref_same, service_same, method_same-Separates, ref_same-Separates,
  service_same-Separates, vec_same-Separates, and_parts,
}
use identity_rs.Diff.Services.Laws.{IsService}
use identity_rs.Prelude.{Option, ◌≡◌, true, ◌&&◌, HasEq, ◌==◌, Text, list_eq, nat_eq}

module _ {D T U V P : Type 0} ⦃e : HasEq D⦄ ⦃c_eq : HasEq (Option (OneOrSet D))⦄
    ⦃type_eq : HasEq MethodType⦄ ⦃data_eq : HasEq MethodData⦄ ⦃u_eq : HasEq U⦄
    ⦃types_eq : HasEq (OneOrSet Text)⦄ ⦃p_eq : HasEq P⦄ ⦃v_eq : HasEq V⦄ ⦃t_eq : HasEq T⦄ where
  instance abbrev pub document_same : PartialEq (CoreDocument D T U V P)
  document_same = record {
    same? = λ a b.
        a.id == b.id
        && (a.controller == b.controller
            && (a.also_known_as == b.also_known_as
                && (list_same method_same a.verification_method b.verification_method
                    && (list_same ref_same a.authentication b.authentication
                        && (list_same ref_same a.assertion_method b.assertion_method
                            && (list_same ref_same a.key_agreement b.key_agreement
                                && (list_same ref_same a.capability_delegation
                                      b.capability_delegation
                                    && (list_same ref_same a.capability_invocation
                                          b.capability_invocation
                                        && (list_same service_same a.service b.service
                                            && (a.properties == b.properties))))))))));
  }

  module _ {DT DU DV E : Type 0} (libs : Libraries D T U V DT DU DV E)
      (a b : CoreDocument D T U V P) (v : IsSound libs a) (v' : IsSound libs b) where
    methods_equal :
        list_same method_same a.verification_method b.verification_method ≡ true
        → a.verification_method ≡ b.verification_method
    methods_equal h =
        vec_same-Separates method_same (IsMethod libs.as_str libs.parse_url)
          (λ x y w w' same. method_same-Separates libs.as_str libs.parse_url x y w.1 w'.1 same)
          a.verification_method b.verification_method v.methods v'.methods h

    refs_equal :
        (r : MethodRelationship)
        → list_same ref_same (relation a r) (relation b r) ≡ true
        → relation a r ≡ relation b r
    refs_equal r h =
        vec_same-Separates ref_same (IsRef libs.as_str libs.parse_url)
          (λ x y w w' same. ref_same-Separates libs.as_str libs.parse_url x y w.1 w'.1 same)
          (relation a r) (relation b r) (v.refs r) (v'.refs r) h

    services_equal : list_same service_same a.service b.service ≡ true → a.service ≡ b.service
    services_equal h =
        vec_same-Separates service_same (IsService libs.as_str libs.parse_url)
          (λ x y w w' same.
            service_same-Separates libs.as_str libs.parse_url x y w.0.0.1 w'.0.0.1 same)
          a.service b.service v.services v'.services h

  module _ {DT DU DV E : Type 0} (libs : Libraries D T U V DT DU DV E) where
    pub document_same-Separates : Separates document_same (IsSound libs)
    document_same-Separates a b v v' h =
        let (id, h) = and_parts _ _ h in
        let (controller, h) = and_parts _ _ h in
        let (also_known_as, h) = and_parts _ _ h in
        let (verification_method, h) = and_parts _ _ h in
        let (authentication, h) = and_parts _ _ h in
        let (assertion_method, h) = and_parts _ _ h in
        let (key_agreement, h) = and_parts _ _ h in
        let (capability_delegation, h) = and_parts _ _ h in
        let (capability_invocation, h) = and_parts _ _ h in
        let (service, properties) = and_parts _ _ h in
        let id' = (e.beq_iff a.id b.id).0 id in
        let controller' = (c_eq.beq_iff a.controller b.controller).0 controller in
        let also_known_as' = (list_eq.beq_iff a.also_known_as b.also_known_as).0 also_known_as in
        let verification_method' = methods_equal libs a b v v' verification_method in
        let authentication' =
          refs_equal libs a b v v' MethodRelationship.authentication authentication in
        let assertion_method' =
          refs_equal libs a b v v' MethodRelationship.assertion_method assertion_method in
        let key_agreement' =
          refs_equal libs a b v v' MethodRelationship.key_agreement key_agreement in
        let capability_delegation' =
          refs_equal libs a b v v' MethodRelationship.capability_delegation capability_delegation in
        let capability_invocation' =
          refs_equal libs a b v v' MethodRelationship.capability_invocation capability_invocation in
        let service' = services_equal libs a b v v' service in
        let properties' = (t_eq.beq_iff a.properties b.properties).0 properties in
        λ i. record {
          id = id' i;
          controller = controller' i;
          also_known_as = also_known_as' i;
          verification_method = verification_method' i;
          authentication = authentication' i;
          assertion_method = assertion_method' i;
          key_agreement = key_agreement' i;
          capability_delegation = capability_delegation' i;
          capability_invocation = capability_invocation' i;
          service = service' i;
          properties = properties' i;
        }
