-- ===== src/Diff/Documents/Laws.antt =====
-- The difference of two documents merges into the first.
use mathlib.Core.Option
use identity_rs.Core.OneOrSet.{OneOrSet, into_vec}
use identity_rs.Core.OrderedSet.Laws.{IsUnique}
use identity_rs.Did.Builder.{alias_key}
use identity_rs.Did.Document.{CoreDocument, relation}
use identity_rs.Did.Mapping.{did_key}
use identity_rs.Did.Method.{MethodType, MethodData, MethodRelationship, method_key, ref_key}
use identity_rs.Did.Service.{service_key}
use identity_rs.Did.Url.{key_eq}
use identity_rs.Diff.Collections.{
  ordered_set_diff, ordered_set_merge, ordered_set_merge-diff, one_or_set_merge-diff,
}
use identity_rs.Diff.Documents.{controller_diff, controller_merge, document_diff, document_merge}
use identity_rs.Diff.Documents.Fields.{field-Merges, FieldMerges}
use identity_rs.Diff.Documents.Program.{
  Libraries, Delta, did_diff, did_diff-IsLawful, AreLawful, IsSound, parts, alias_text,
  merged_items, IsValidController,
}
use identity_rs.Diff.Methods.Laws.{method-IsLawfulOn, method_ref-IsLawfulOn}
use identity_rs.Diff.Parsed.{parsed, Reads, parsed-IsLawfulOn}
use identity_rs.Diff.Sameness.{
  IsMethod, IsRef, url_same, method_same, ref_same, service_same, method_same-Separates,
  ref_same-Separates, service_same-Separates, vec_same-Separates,
}
use identity_rs.Diff.Services.Laws.{IsService, service-IsLawfulOn}
use identity_rs.Diff.Interface.{
  PartialEq, same_as_eq, vec_same, Separates, IsLawfulOn, Diff, IsLawful,
}
use identity_rs.Diff.Vecs.{InnerVec}
use identity_rs.Core.OrderedSet.{OrderedSet}
use identity_rs.Prelude.{
  All, Text, ◌≡◌, refl, false, Option, none, some, List, HasEq, ◌==◌, ok, list_eq, nat_eq,
  Bool-cases, inl, inr, subst,
}

module _ {D : Type 0} ⦃e : HasEq D⦄ where
  pub merged_items_same :
      (this : Option (OneOrSet D)) → Option.map into_vec this ≡ merged_items this this
  merged_items_same none = refl
  merged_items_same (some _) = refl

module _ {D DD : Type 0} ⦃e : HasEq D⦄ ⦃c : HasEq (Option (OneOrSet D))⦄ (did : Diff D DD) where
  abbrev ControllerMerges : Option (OneOrSet D) → Option (OneOrSet D) → Type 0
  ControllerMerges this other =
      (delta : Option (Option (List (InnerVec DD)))) × (controller_diff did this other ≡ ok delta)
      × (merged : Option (OneOrSet D)) × (controller_merge did this delta ≡ ok merged)
      × (Option.map into_vec merged ≡ merged_items this other)

  changed_controller-Merges :
      (this other : Option (OneOrSet D))
      → IsLawful did
      → IsValidController other
      → (this == other) ≡ false
      → ControllerMerges this other
  changed_controller-Merges (some a) (some b) lawful v changed =
      let ((delta, made, merged, done, _, same), _) =
        one_or_set_merge-diff did_key did a b lawful v in
      (some (some delta), rw (changed, made) refl, some merged, rw done refl, rw same refl)
  changed_controller-Merges none (some b) lawful v changed =
      let (_, (delta, made, _, _, _, _)) = one_or_set_merge-diff did_key did b b lawful v in
      (some (some delta), rw (changed, made) refl, none, refl, refl)
  changed_controller-Merges (some a) none lawful v changed =
      (some none, rw changed refl, none, refl, refl)
  changed_controller-Merges none none lawful v changed =
      (some none, rw changed refl, none, refl, refl)

  controller-Merges :
      (this other : Option (OneOrSet D))
      → IsLawful did
      → IsValidController other
      → ControllerMerges this other
  controller-Merges this other lawful v = elim (Bool-cases (this == other)) [
    | inl same ↦ (
      none,
      rw same refl,
      this,
      refl,
      subst (λ o. Option.map into_vec this ≡ merged_items this o) ((c.beq_iff this other).0 same)
          (merged_items_same this),
    )
    | inr changed ↦ changed_controller-Merges this other lawful v changed
  ]

module _ {A B K : Type 0} ⦃p : PartialEq A⦄ ⦃k_eq : HasEq K⦄ (key : A → K) (item : Diff A B)
    (P : A → Type 0) (separates : Separates p P) (lawful : IsLawfulOn item P) where
  -- the field of a set
  set_field :
      (this other : OrderedSet A)
      → All P this
      → All P other
      → IsUnique key other
      → FieldMerges ⦃p = vec_same p⦄
          (ordered_set_diff key item)
          (ordered_set_merge key item)
          this
          other
  set_field this other valid valid' u =
      field-Merges ⦃p = vec_same p⦄ (ordered_set_diff key item) (ordered_set_merge key item) this
        other (vec_same-Separates p P separates this other valid valid')
        (ordered_set_merge-diff key item P this other separates lawful valid valid' u).0

module _ {D T U V P DT DU DV E : Type 0} ⦃e : HasEq D⦄ ⦃c_eq : HasEq (Option (OneOrSet D))⦄
    ⦃type_eq : HasEq MethodType⦄ ⦃data_eq : HasEq MethodData⦄ ⦃u_eq : HasEq U⦄
    ⦃types_eq : HasEq (OneOrSet Text)⦄ ⦃p_eq : HasEq P⦄ ⦃v_eq : HasEq V⦄ ⦃t_eq : HasEq T⦄
    (libs : Libraries D T U V DT DU DV E) (lawful : AreLawful libs) where
  alias_field :
      (this other : CoreDocument D T U V P)
      → IsSound libs this
      → IsSound libs other
      → FieldMerges
          (ordered_set_diff alias_key (parsed alias_text libs.parse_alias))
          (ordered_set_merge alias_key (parsed alias_text libs.parse_alias))
          this.also_known_as
          other.also_known_as
  alias_field this other sound sound' =
      field-Merges (ordered_set_diff alias_key (parsed alias_text libs.parse_alias))
        (ordered_set_merge alias_key (parsed alias_text libs.parse_alias)) this.also_known_as
        other.also_known_as (list_eq.beq_iff this.also_known_as other.also_known_as).0
        (ordered_set_merge-diff alias_key (parsed alias_text libs.parse_alias)
          (Reads alias_text libs.parse_alias) this.also_known_as other.also_known_as
          (λ a b _ _ h. (list_eq.beq_iff a b).0 h) (parsed-IsLawfulOn alias_text libs.parse_alias)
          sound.read_aliases sound'.read_aliases sound'.aliases).0

  ref_field :
      (this other : CoreDocument D T U V P)
      → IsSound libs this
      → IsSound libs other
      → (r : MethodRelationship)
      → FieldMerges ⦃p = vec_same ref_same⦄
          (ordered_set_diff ref_key (parts libs {P = P}).method_ref)
          (ordered_set_merge ref_key (parts libs {P = P}).method_ref)
          (relation this r)
          (relation other r)
  ref_field this other sound sound' r =
      set_field ref_key (parts libs {P = P}).method_ref (IsRef libs.as_str libs.parse_url)
        (λ a b v v' h. ref_same-Separates libs.as_str libs.parse_url a b v.1 v'.1 h)
        (method_ref-IsLawfulOn libs.as_str libs.parse_url (did_diff libs) libs.method_properties
          libs.method_default (did_diff-IsLawful libs lawful) lawful.method_properties)
        (relation this r) (relation other r) (sound.refs r) (sound'.refs r) (sound'.keys.refs r)

  -- DIDs, URLs, methods, references and services are compared as the program compares them. Where every
  -- DID is read back from its text, the differences of properties are lawful and both documents are
  -- sound, the difference of the first to the second succeeds, and merging it into the first gives the
  -- second, with one exception: the controllers are those of the second only if the first had
  -- controllers, and a document without controllers stays without. A sound document has unique keys,
  -- valid controllers, ids with fragments, URLs and aliases that are read back, and service types as
  -- they are built.
  pub document_merge-diff :
      (this other : CoreDocument D T U V P)
      → IsSound libs this
      → IsSound libs other
      → (delta : Delta DT DU DV P) × (document_diff (parts libs) this other ≡ ok delta)
        × (controller : Option (OneOrSet D)) × (document_merge (parts libs) this delta
            ≡ ok (record other { controller = controller }))
        × (Option.map into_vec controller ≡ merged_items this.controller other.controller)
  unfolding document_diff document_merge
  document_merge-diff this other sound sound' =
      let (d0, made0, done0) =
        field-Merges (did_diff libs).diff (did_diff libs).merge this.id other.id
          (e.beq_iff this.id other.id).0
          ((did_diff-IsLawful libs lawful).merges this.id other.id) in
      let (d1, made1, controller, done1, same) =
        controller-Merges (did_diff libs) this.controller other.controller
          (did_diff-IsLawful libs lawful) sound'.controller in
      let (d2, made2, done2) = alias_field this other sound sound' in
      let (d3, made3, done3) =
        set_field method_key (parts libs {P = P}).method (IsMethod libs.as_str libs.parse_url)
          (λ a b v v' h. method_same-Separates libs.as_str libs.parse_url a b v.1 v'.1 h)
          (method-IsLawfulOn libs.as_str libs.parse_url (did_diff libs) libs.method_properties
            libs.method_default (did_diff-IsLawful libs lawful) lawful.method_properties)
          this.verification_method other.verification_method sound.methods sound'.methods
          sound'.keys.methods in
      let refs = ref_field this other sound sound' in
      let (d4, made4, done4) = refs MethodRelationship.authentication in
      let (d5, made5, done5) = refs MethodRelationship.assertion_method in
      let (d6, made6, done6) = refs MethodRelationship.key_agreement in
      let (d7, made7, done7) = refs MethodRelationship.capability_delegation in
      let (d8, made8, done8) = refs MethodRelationship.capability_invocation in
      let (d9, made9, done9) =
        set_field service_key (parts libs {P = P}).service (IsService libs.as_str libs.parse_url)
          (λ a b v v' h. service_same-Separates libs.as_str libs.parse_url a b v.0.0.1 v'.0.0.1 h)
          (service-IsLawfulOn libs.as_str libs.parse_url libs.service_properties
            libs.service_default lawful.service_properties)
          this.service other.service sound.services sound'.services sound'.keys.services in
      let (d10, made10, done10) =
        field-Merges libs.properties.diff libs.properties.merge this.properties other.properties
          (t_eq.beq_iff this.properties other.properties).0
          (lawful.properties.merges this.properties other.properties) in
      (
        record {
          id = d0;
          controller = d1;
          also_known_as = d2;
          verification_method = d3;
          authentication = d4;
          assertion_method = d5;
          key_agreement = d6;
          capability_delegation = d7;
          capability_invocation = d8;
          service = d9;
          properties = d10;
        },
        rw (made0, made1, made2, made3, made4, made5, made6, made7, made8, made9, made10) refl,
        controller,
        rw (done0, done1, done2, done3, done4, done5, done6, done7, done8, done9, done10) refl,
        same,
      )
