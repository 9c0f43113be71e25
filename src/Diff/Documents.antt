-- ===== src/Diff/Documents.antt =====
-- identity_did/src/diff/diff_document.rs: the implementation of `Diff` for DID documents. The
-- implementations for DIDs, aliases, methods, references, services and properties, and the equality of
-- methods, references and services, are arguments; Program has those of the program.
pub mod Fields
pub mod Program
pub mod Sameness
pub mod Laws
pub mod Whole
mod Tests
use identity_rs.Core.OneOrSet.{OneOrSet}
use identity_rs.Core.OrderedSet.{OrderedSet}
use identity_rs.Did.Builder.{alias_key}
use identity_rs.Did.Document.{CoreDocument}
use identity_rs.Did.Mapping.{did_key}
use identity_rs.Did.Method.{MethodRef, VerificationMethod, method_key, ref_key}
use identity_rs.Did.Service.{Service, service_key}
use identity_rs.Did.Url.{key_eq}
use identity_rs.Diff.Collections.{
  ordered_set_diff, ordered_set_merge, ordered_set_from_diff, ordered_set_into_diff,
  one_or_set_diff, one_or_set_merge, one_or_set_from_diff, one_or_set_into_diff,
}
use identity_rs.Diff.Documents.Fields.{
  field_diff, field_merge, field_from_diff, field_into_diff, default_from_diff, default_into_diff,
}
use identity_rs.Diff.Interface.{PartialEq, same_as_eq, vec_same, Diff, Res, conversion_error}
use identity_rs.Diff.Vecs.{InnerVec}
use identity_rs.Prelude.{
  Bool, Option, none, some, List, HasEq, ◌==◌, if◌then◌else◌, Outcome, ok, err, ◌>>=◌, Text,
  list_eq, nat_eq,
}

-- the implementations of `Diff` for the parts
pub record Parts (D T U V P DD DA DM DR DS DP : Type 0) : Type 0 where
  pub did : Diff D DD
  pub alias : Diff Text DA
  pub method : Diff (VerificationMethod D U) DM
  pub method_ref : Diff (MethodRef D U) DR
  pub service : Diff (Service D V P) DS
  pub properties : Diff T DP

pub record DiffDocument (DD DA DM DR DS DP : Type 0) : Type 0 where
  pub id : Option DD
  pub controller : Option (Option (List (InnerVec DD)))
  pub also_known_as : Option (List (InnerVec DA))
  pub verification_method : Option (List (InnerVec DM))
  pub authentication : Option (List (InnerVec DR))
  pub assertion_method : Option (List (InnerVec DR))
  pub key_agreement : Option (List (InnerVec DR))
  pub capability_delegation : Option (List (InnerVec DR))
  pub capability_invocation : Option (List (InnerVec DR))
  pub service : Option (List (InnerVec DS))
  pub properties : Option DP

module _ {D DD : Type 0} ⦃e : HasEq D⦄ (did : Diff D DD) where
  abbrev pub changed_controller :
      Option (OneOrSet D) → Option (OneOrSet D) → Res (Option (Option (List (InnerVec DD))))
  changed_controller (some a) (some b) =
      one_or_set_diff did_key did a b >>= λ delta. ok (some (some delta))
  changed_controller none (some b) =
      one_or_set_into_diff did_key did b >>= λ delta. ok (some (some delta))
  changed_controller (some _) none = ok (some none)
  changed_controller none none = ok (some none)

  abbrev pub controller_diff :
      ⦃c : HasEq (Option (OneOrSet D))⦄
      → Option (OneOrSet D)
      → Option (OneOrSet D)
      → Res (Option (Option (List (InnerVec DD))))
  controller_diff this other = if this == other then ok none else changed_controller this other

  -- `self.controller().map(|controller| controller.merge(diff_value)).transpose()`
  abbrev pub merge_some_controller :
      Option (OneOrSet D) → List (InnerVec DD) → Res (Option (OneOrSet D))
  merge_some_controller none delta = ok none
  merge_some_controller (some controller) delta =
      one_or_set_merge did_key did controller delta >>= λ merged. ok (some merged)

  abbrev pub controller_merge :
      Option (OneOrSet D) → Option (Option (List (InnerVec DD))) → Res (Option (OneOrSet D))
  controller_merge this none = ok this
  controller_merge this (some none) = ok none
  controller_merge this (some (some delta)) = merge_some_controller this delta

  abbrev pub controller_from_diff : Option (Option (List (InnerVec DD))) → Res (Option (OneOrSet D))
  controller_from_diff none = err conversion_error
  controller_from_diff (some none) = ok none
  controller_from_diff (some (some delta)) =
      one_or_set_from_diff did_key did delta >>= λ controller. ok (some controller)

  abbrev pub controller_into_diff : Option (OneOrSet D) → Res (Option (Option (List (InnerVec DD))))
  controller_into_diff none = ok (some none)
  controller_into_diff (some controller) =
      one_or_set_into_diff did_key did controller >>= λ delta. ok (some (some delta))

module _ {D T U V P DD DA DM DR DS DP : Type 0} ⦃e : HasEq D⦄ ⦃c_eq : HasEq (Option (OneOrSet D))⦄
    ⦃m_eq : PartialEq (VerificationMethod D U)⦄ ⦃r_eq : PartialEq (MethodRef D U)⦄
    ⦃s_eq : PartialEq (Service D V P)⦄ ⦃t_eq : HasEq T⦄
    (parts : Parts D T U V P DD DA DM DR DS DP) where
  unfoldable pub document_diff :
      CoreDocument D T U V P → CoreDocument D T U V P → Res (DiffDocument DD DA DM DR DS DP)
  document_diff this other = do
    id' ← field_diff parts.did.diff this.id other.id
    controller' ← controller_diff parts.did this.controller other.controller
    also_known_as' ←
        field_diff (ordered_set_diff alias_key parts.alias) this.also_known_as other.also_known_as
    verification_method' ←
        field_diff ⦃p = vec_same m_eq⦄ (ordered_set_diff method_key parts.method)
          this.verification_method other.verification_method
    authentication' ←
        field_diff ⦃p = vec_same r_eq⦄ (ordered_set_diff ref_key parts.method_ref)
          this.authentication other.authentication
    assertion_method' ←
        field_diff ⦃p = vec_same r_eq⦄ (ordered_set_diff ref_key parts.method_ref)
          this.assertion_method other.assertion_method
    key_agreement' ←
        field_diff ⦃p = vec_same r_eq⦄ (ordered_set_diff ref_key parts.method_ref)
          this.key_agreement other.key_agreement
    capability_delegation' ←
        field_diff ⦃p = vec_same r_eq⦄ (ordered_set_diff ref_key parts.method_ref)
          this.capability_delegation other.capability_delegation
    capability_invocation' ←
        field_diff ⦃p = vec_same r_eq⦄ (ordered_set_diff ref_key parts.method_ref)
          this.capability_invocation other.capability_invocation
    service' ←
        field_diff ⦃p = vec_same s_eq⦄ (ordered_set_diff service_key parts.service) this.service
          other.service
    properties' ← field_diff parts.properties.diff this.properties other.properties
    ok (record {
      id = id';
      controller = controller';
      also_known_as = also_known_as';
      verification_method = verification_method';
      authentication = authentication';
      assertion_method = assertion_method';
      key_agreement = key_agreement';
      capability_delegation = capability_delegation';
      capability_invocation = capability_invocation';
      service = service';
      properties = properties';
    })

  unfoldable pub document_merge :
      CoreDocument D T U V P → DiffDocument DD DA DM DR DS DP → Res (CoreDocument D T U V P)
  document_merge this diff = do
    id' ← field_merge parts.did.merge this.id diff.id
    controller' ← controller_merge parts.did this.controller diff.controller
    also_known_as' ←
        field_merge (ordered_set_merge alias_key parts.alias) this.also_known_as diff.also_known_as
    verification_method' ←
        field_merge (ordered_set_merge method_key parts.method) this.verification_method
          diff.verification_method
    authentication' ←
        field_merge (ordered_set_merge ref_key parts.method_ref) this.authentication
          diff.authentication
    assertion_method' ←
        field_merge (ordered_set_merge ref_key parts.method_ref) this.assertion_method
          diff.assertion_method
    key_agreement' ←
        field_merge (ordered_set_merge ref_key parts.method_ref) this.key_agreement
          diff.key_agreement
    capability_delegation' ←
        field_merge (ordered_set_merge ref_key parts.method_ref) this.capability_delegation
          diff.capability_delegation
    capability_invocation' ←
        field_merge (ordered_set_merge ref_key parts.method_ref) this.capability_invocation
          diff.capability_invocation
    service' ← field_merge (ordered_set_merge service_key parts.service) this.service diff.service
    properties' ← field_merge parts.properties.merge this.properties diff.properties
    ok (record {
      id = id';
      controller = controller';
      also_known_as = also_known_as';
      verification_method = verification_method';
      authentication = authentication';
      assertion_method = assertion_method';
      key_agreement = key_agreement';
      capability_delegation = capability_delegation';
      capability_invocation = capability_invocation';
      service = service';
      properties = properties';
    })

  -- `default` is `Default::default()` of the properties.
  unfoldable pub document_from_diff :
      T → DiffDocument DD DA DM DR DS DP → Res (CoreDocument D T U V P)
  document_from_diff default diff = do
    id' ← field_from_diff parts.did.from_diff diff.id
    controller' ← controller_from_diff parts.did diff.controller
    also_known_as' ←
        field_from_diff (ordered_set_from_diff alias_key parts.alias) diff.also_known_as
    verification_method' ←
        field_from_diff (ordered_set_from_diff method_key parts.method) diff.verification_method
    authentication' ←
        field_from_diff (ordered_set_from_diff ref_key parts.method_ref) diff.authentication
    assertion_method' ←
        field_from_diff (ordered_set_from_diff ref_key parts.method_ref) diff.assertion_method
    key_agreement' ←
        field_from_diff (ordered_set_from_diff ref_key parts.method_ref) diff.key_agreement
    capability_delegation' ←
        field_from_diff (ordered_set_from_diff ref_key parts.method_ref) diff.capability_delegation
    capability_invocation' ←
        field_from_diff (ordered_set_from_diff ref_key parts.method_ref) diff.capability_invocation
    service' ← field_from_diff (ordered_set_from_diff service_key parts.service) diff.service
    properties' ← default_from_diff default parts.properties.from_diff diff.properties
    ok (record {
      id = id';
      controller = controller';
      also_known_as = also_known_as';
      verification_method = verification_method';
      authentication = authentication';
      assertion_method = assertion_method';
      key_agreement = key_agreement';
      capability_delegation = capability_delegation';
      capability_invocation = capability_invocation';
      service = service';
      properties = properties';
    })

  unfoldable pub document_into_diff :
      T → CoreDocument D T U V P → Res (DiffDocument DD DA DM DR DS DP)
  document_into_diff default this = do
    id' ← field_into_diff parts.did.into_diff this.id
    controller' ← controller_into_diff parts.did this.controller
    also_known_as' ←
        field_into_diff (ordered_set_into_diff alias_key parts.alias) this.also_known_as
    verification_method' ←
        field_into_diff (ordered_set_into_diff method_key parts.method) this.verification_method
    authentication' ←
        field_into_diff (ordered_set_into_diff ref_key parts.method_ref) this.authentication
    assertion_method' ←
        field_into_diff (ordered_set_into_diff ref_key parts.method_ref) this.assertion_method
    key_agreement' ←
        field_into_diff (ordered_set_into_diff ref_key parts.method_ref) this.key_agreement
    capability_delegation' ←
        field_into_diff (ordered_set_into_diff ref_key parts.method_ref) this.capability_delegation
    capability_invocation' ←
        field_into_diff (ordered_set_into_diff ref_key parts.method_ref) this.capability_invocation
    service' ← field_into_diff (ordered_set_into_diff service_key parts.service) this.service
    properties' ← default_into_diff default parts.properties.into_diff this.properties
    ok (record {
      id = id';
      controller = controller';
      also_known_as = also_known_as';
      verification_method = verification_method';
      authentication = authentication';
      assertion_method = assertion_method';
      key_agreement = key_agreement';
      capability_delegation = capability_delegation';
      capability_invocation = capability_invocation';
      service = service';
      properties = properties';
    })
