-- ===== src/Diff/Documents/Whole.antt =====
-- A document that is turned into a difference is read back.
use mathlib.Core.Option
use identity_rs.Core.OneOrSet.{OneOrSet, into_vec}
use identity_rs.Did.Builder.{alias_key}
use identity_rs.Did.Document.{CoreDocument, relation}
use identity_rs.Did.Mapping.{did_key}
use identity_rs.Did.Method.{MethodRelationship, method_key, ref_key}
use identity_rs.Did.Service.{service_key}
use identity_rs.Did.Url.{key_eq}
use identity_rs.Diff.Collections.{
  ordered_set_into_diff, ordered_set_from_diff, ordered_set_merge-diff, one_or_set_merge-diff,
}
use identity_rs.Diff.Documents.{
  controller_into_diff, controller_from_diff, document_into_diff, document_from_diff,
}
use identity_rs.Core.OrderedSet.{OrderedSet}
use identity_rs.Core.OrderedSet.Laws.{IsUnique}
use identity_rs.Did.Method.{MethodType, MethodData}
use identity_rs.Diff.Documents.Fields.{FieldReturns}
use identity_rs.Diff.Documents.Program.{
  Libraries, Delta, did_diff, did_diff-IsLawful, AreLawful, IsSound, parts, alias_text,
  IsValidController,
}
use identity_rs.Diff.Methods.Laws.{method-IsLawfulOn, method_ref-IsLawfulOn}
use identity_rs.Diff.Parsed.{parsed, Reads, parsed-IsLawfulOn}
use identity_rs.Diff.Sameness.{
  IsMethod, IsRef, url_same, method_same, ref_same, service_same, method_same-Separates,
  ref_same-Separates, service_same-Separates,
}
use identity_rs.Diff.Services.Laws.{IsService, service-IsLawfulOn}
use identity_rs.Diff.Interface.{PartialEq, same_as_eq, Separates, IsLawfulOn}
use identity_rs.Prelude.{All, Text}
use identity_rs.Diff.Documents.Fields.{field-Returns, default-Returns}
use identity_rs.Diff.Interface.{Diff, IsLawful}
use identity_rs.Diff.Vecs.{InnerVec}
use identity_rs.Prelude.{◌≡◌, refl, Option, none, some, List, HasEq, ok, list_eq, nat_eq}

module _ {D DD : Type 0} ⦃e : HasEq D⦄ (did : Diff D DD) where
  controller-Returns :
      (this : Option (OneOrSet D))
      → IsLawful did
      → IsValidController this
      → (delta : Option (Option (List (InnerVec DD)))) × (controller_into_diff did this ≡ ok delta)
        × (back : Option (OneOrSet D)) × (controller_from_diff did delta ≡ ok back)
        × (Option.map into_vec back ≡ Option.map into_vec this)
  controller-Returns none lawful v = (some none, refl, none, refl, refl)
  controller-Returns (some controller) lawful v =
      let (_, (delta, made, back, read, _, same)) =
        one_or_set_merge-diff did_key did controller controller lawful v in
      (some (some delta), rw made refl, some back, rw read refl, rw same refl)

module _ {A B K : Type 0} ⦃p : PartialEq A⦄ ⦃k_eq : HasEq K⦄ (key : A → K) (item : Diff A B)
    (P : A → Type 0) (separates : Separates p P) (lawful : IsLawfulOn item P) where
  -- the field of a set
  set_field :
      (this : OrderedSet A)
      → All P this
      → IsUnique key this
      → FieldReturns (ordered_set_into_diff key item) (ordered_set_from_diff key item) this
  set_field this valid u =
      field-Returns (ordered_set_into_diff key item) (ordered_set_from_diff key item) this
        (ordered_set_merge-diff key item P this this separates lawful valid valid u).1

module _ {D T U V P DT DU DV E : Type 0} ⦃e : HasEq D⦄ ⦃c_eq : HasEq (Option (OneOrSet D))⦄
    ⦃type_eq : HasEq MethodType⦄ ⦃data_eq : HasEq MethodData⦄ ⦃u_eq : HasEq U⦄
    ⦃types_eq : HasEq (OneOrSet Text)⦄ ⦃p_eq : HasEq P⦄ ⦃v_eq : HasEq V⦄ ⦃t_eq : HasEq T⦄
    (libs : Libraries D T U V DT DU DV E) (lawful : AreLawful libs) where
  ref_field :
      (this : CoreDocument D T U V P)
      → IsSound libs this
      → (r : MethodRelationship)
      → FieldReturns
          (ordered_set_into_diff ref_key (parts libs {P = P}).method_ref)
          (ordered_set_from_diff ref_key (parts libs {P = P}).method_ref)
          (relation this r)
  ref_field this sound r =
      set_field ref_key (parts libs {P = P}).method_ref (IsRef libs.as_str libs.parse_url)
        (λ a b v v' h. ref_same-Separates libs.as_str libs.parse_url a b v.1 v'.1 h)
        (method_ref-IsLawfulOn libs.as_str libs.parse_url (did_diff libs) libs.method_properties
          libs.method_default (did_diff-IsLawful libs lawful) lawful.method_properties)
        (relation this r) (sound.refs r) (sound.keys.refs r)

  -- Where every DID is read back from its text, the differences of properties are lawful and a document
  -- is sound, it is turned into a difference, and this is read back to the same document, with the same
  -- controllers in the same order, whichever value the properties have by default. A sound document has
  -- unique keys, valid controllers, ids with fragments, URLs and aliases that are read back by their
  -- parse, and service types as they are built.
  pub document_from_diff-into_diff :
      (default : T) (this : CoreDocument D T U V P)
      → IsSound libs this
      → (delta : Delta DT DU DV P) × (document_into_diff (parts libs) default this ≡ ok delta)
        × (controller : Option (OneOrSet D)) × (document_from_diff (parts libs) default delta
            ≡ ok (record this { controller = controller }))
        × (Option.map into_vec controller ≡ Option.map into_vec this.controller)
  unfolding document_into_diff document_from_diff
  document_from_diff-into_diff default this sound =
      let (d0, made0, done0) =
        field-Returns (did_diff libs).into_diff (did_diff libs).from_diff this.id
          ((did_diff-IsLawful libs lawful).returns this.id) in
      let (d1, made1, controller, done1, same) =
        controller-Returns (did_diff libs) this.controller (did_diff-IsLawful libs lawful)
          sound.controller in
      let (d2, made2, done2) =
        set_field alias_key (parsed alias_text libs.parse_alias) (Reads alias_text libs.parse_alias)
          (λ a b _ _ h. (list_eq.beq_iff a b).0 h) (parsed-IsLawfulOn alias_text libs.parse_alias)
          this.also_known_as sound.read_aliases sound.aliases in
      let (d3, made3, done3) =
        set_field method_key (parts libs {P = P}).method (IsMethod libs.as_str libs.parse_url)
          (λ a b v v' h. method_same-Separates libs.as_str libs.parse_url a b v.1 v'.1 h)
          (method-IsLawfulOn libs.as_str libs.parse_url (did_diff libs) libs.method_properties
            libs.method_default (did_diff-IsLawful libs lawful) lawful.method_properties)
          this.verification_method sound.methods sound.keys.methods in
      let refs = ref_field this sound in
      let (d4, made4, done4) = refs MethodRelationship.authentication in
      let (d5, made5, done5) = refs MethodRelationship.assertion_method in
      let (d6, made6, done6) = refs MethodRelationship.key_agreement in
      let (d7, made7, done7) = refs MethodRelationship.capability_delegation in
      let (d8, made8, done8) = refs MethodRelationship.capability_invocation in
      let (d9, made9, done9) =
        set_field service_key (parts libs {P = P}).service (IsService libs.as_str libs.parse_url)
          (λ a b v v' h. service_same-Separates libs.as_str libs.parse_url a b v.0.0.1 v'.0.0.1 h)
          (service-IsLawfulOn libs.as_str libs.parse_url libs.service_properties
            libs.service_default lawful.service_properties)
          this.service sound.services sound.keys.services in
      let (d10, made10, done10) =
        default-Returns libs.properties.into_diff libs.properties.from_diff default this.properties
          (lawful.properties.returns this.properties) in
      (
        record {
          id = d0;
          controller = d1;
          also_known_as = d2;
          verification_method = d3;
          authentication = d4;
          assertion_method = d5;
          key_agreement = d6;
          capability_delegation = d7;
          capability_invocation = d8;
          service = d9;
          properties = d10;
        },
        rw (made0, made1, made2, made3, made4, made5, made6, made7, made8, made9, made10) refl,
        controller,
        rw (done0, done1, done2, done3, done4, done5, done6, done7, done8, done9, done10) refl,
        same,
      )
