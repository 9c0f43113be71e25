-- ===== src/Diff/Methods/Laws.antt =====
-- The differences of verification methods and of the references to them.
use identity_rs.Did.Building.{has_fragment, new_method, set_method, method_from_builder}
use identity_rs.Did.Method.{MethodType, MethodData, VerificationMethod, MethodRef}
use identity_rs.Did.Url.{DidUrl}
use identity_rs.Diff.Documents.Fields.{field-Merges, field-Returns, default-Returns}
use identity_rs.Diff.Sameness.{
  url, url-IsLawfulOn, IsMethod, IsRef, url_same, method_same, ref_same, url_same-Separates,
  method_same-Separates,
}
use identity_rs.Diff.Interface.{
  ◌=~◌, same_as_eq, IsLawfulOn, Diff, Error, Merges, Returns, IsLawful,
}
use identity_rs.Diff.Methods.{
  method_ref, DiffMethodData, DiffMethodRef, method_data, method_data_diff, method_data_merge,
  method_data_from_diff, method_data_into_diff, method_type, build, method, method_diff,
  method_merge, method_from_diff, method_into_diff, ref_diff, ref_merge, ref_from_diff,
  ref_into_diff,
}
use identity_rs.Diff.Texts.{string-IsLawful}
use identity_rs.Prelude.{
  Text, Outcome, Option, ◌≡◌, refl, true, none, some, HasEq, ◌==◌, ok, Bool-cases, inl, inr,
  list_eq, nat_eq, list_beq_iff,
}

method_data-Merges : (a b : MethodData) → Merges method_data a b
unfolding method_data_diff method_data_merge method_data_into_diff method_data_from_diff
method_data-Merges (MethodData.public_key_multibase a) (MethodData.public_key_multibase b) =
    elim (Bool-cases (a == b)) [
      | inl same ↦ (
        DiffMethodData.public_key_multibase none,
        rw same refl,
        rw ((list_beq_iff a b).0 same) refl,
      )
      | inr changed ↦
          let (d, made, merged) = string-IsLawful.merges a b in
          (DiffMethodData.public_key_multibase (some d), rw (changed, made) refl, rw merged refl)
    ]
method_data-Merges (MethodData.public_key_base58 a) (MethodData.public_key_base58 b) =
    elim (Bool-cases (a == b)) [
      | inl same ↦
          (DiffMethodData.public_key_base58 none, rw same refl, rw ((list_beq_iff a b).0 same) refl)
      | inr changed ↦
          let (d, made, merged) = string-IsLawful.merges a b in
          (DiffMethodData.public_key_base58 (some d), rw (changed, made) refl, rw merged refl)
    ]
method_data-Merges (MethodData.public_key_multibase a) (MethodData.public_key_base58 b) =
    let (d, made, back) = string-IsLawful.returns b in
    (DiffMethodData.public_key_base58 (some d), rw made refl, rw back refl)
method_data-Merges (MethodData.public_key_base58 a) (MethodData.public_key_multibase b) =
    let (d, made, back) = string-IsLawful.returns b in
    (DiffMethodData.public_key_multibase (some d), rw made refl, rw back refl)

method_data-Returns : (a : MethodData) → Returns method_data a
unfolding method_data_into_diff method_data_from_diff
method_data-Returns (MethodData.public_key_multibase a) =
    let (d, made, back) = string-IsLawful.returns a in
    (DiffMethodData.public_key_multibase (some d), rw made refl, rw back refl)
method_data-Returns (MethodData.public_key_base58 a) =
    let (d, made, back) = string-IsLawful.returns a in
    (DiffMethodData.public_key_base58 (some d), rw made refl, rw back refl)

method_data-IsLawful : IsLawful method_data
method_data-IsLawful = record { merges = method_data-Merges; returns = method_data-Returns }

method_type-IsLawful : IsLawful method_type
method_type-IsLawful = record { merges = λ a b. (b, refl, refl); returns = λ a. (a, refl, refl) }

module _ {D U DD DP E : Type 0} ⦃d_eq : HasEq D⦄ ⦃type_eq : HasEq MethodType⦄
    ⦃data_eq : HasEq MethodData⦄ ⦃u_eq : HasEq U⦄ (as_str : D → Text)
    (parse : Text → Outcome E (DidUrl D)) (did : Diff D DD) (props : Diff U DP) (default : U) where
  build-fields :
      (error : Error) (this : VerificationMethod D U)
      → has_fragment this.id ≡ true
      → build
          (url as_str parse)
          did
          props
          default
          error
          this.id
          this.controller
          this.type_
          this.content
          this.properties
        ≡ ok this
  unfolding build new_method set_method method_from_builder
  build-fields error this h = rw h refl

  module _ (did_lawful : IsLawful did) (props_lawful : IsLawful props) where
    method-Merges :
        (this other : VerificationMethod D U)
        → IsMethod as_str parse this
        → IsMethod as_str parse other
        → Merges (method (url as_str parse) did props default) this other
    unfolding method_diff method_merge
    method-Merges this other valid h =
        let (d0, made0, done0) =
          field-Merges (url as_str parse).diff (url as_str parse).merge this.id other.id
            (url_same-Separates as_str parse this.id other.id valid.1 h.1)
            ((url-IsLawfulOn as_str parse).merges this.id other.id valid.1 h.1) in
        let (d1, made1, done1) =
          field-Merges did.diff did.merge this.controller other.controller
            (d_eq.beq_iff this.controller other.controller).0
            (did_lawful.merges this.controller other.controller) in
        let (d2, made2, done2) =
          field-Merges method_type.diff method_type.merge this.type_ other.type_
            (type_eq.beq_iff this.type_ other.type_).0
            (method_type-IsLawful.merges this.type_ other.type_) in
        let (d3, made3, done3) =
          field-Merges method_data.diff method_data.merge this.content other.content
            (data_eq.beq_iff this.content other.content).0
            (method_data-IsLawful.merges this.content other.content) in
        let (d4, made4, done4) =
          field-Merges props.diff props.merge this.properties other.properties
            (u_eq.beq_iff this.properties other.properties).0
            (props_lawful.merges this.properties other.properties) in
        (
          record { id = d0; controller = d1; type_ = d2; content = d3; properties = d4 },
          rw (made0, made1, made2, made3, made4) refl,
          rw (done0, done1, done2, done3, done4) (build-fields _ other h.0),
        )

    method-Returns :
        (this : VerificationMethod D U)
        → IsMethod as_str parse this
        → Returns (method (url as_str parse) did props default) this
    unfolding method_into_diff method_from_diff
    method-Returns this h =
        let (d0, made0, done0) =
          field-Returns (url as_str parse).into_diff (url as_str parse).from_diff this.id
            ((url-IsLawfulOn as_str parse).returns this.id h.1) in
        let (d1, made1, done1) =
          field-Returns did.into_diff did.from_diff this.controller
            (did_lawful.returns this.controller) in
        let (d3, made3, done3) =
          field-Returns method_data.into_diff method_data.from_diff this.content
            (method_data-IsLawful.returns this.content) in
        let (d4, made4, done4) =
          default-Returns props.into_diff props.from_diff default this.properties
            (props_lawful.returns this.properties) in
        (
          record {
            id = d0;
            controller = d1;
            type_ = some this.type_;
            content = d3;
            properties = d4;
          },
          rw (made0, made1, made3, made4) refl,
          rw (done0, done1, done3, done4) (build-fields _ this h.0),
        )

    ref-Merges :
        (this other : MethodRef D U)
        → IsRef as_str parse this
        → IsRef as_str parse other
        → (delta : DiffMethodRef (Option Text) DD DP) × (ref_diff
              (url as_str parse)
              did
              props
              default
              this
              other
            ≡ ok delta)
          × (ref_merge (url as_str parse) did props default this delta ≡ ok other)
    unfolding ref_diff ref_merge ref_into_diff ref_from_diff
    ref-Merges (MethodRef.embed a) (MethodRef.embed b) v h = elim (Bool-cases (a =~ b)) [
      | inl same ↦ (
        DiffMethodRef.embed none,
        rw same refl,
        rw (method_same-Separates as_str parse a b v.1 h.1 same) refl,
      )
      | inr changed ↦
          let (d, made, merged) = method-Merges a b v h in
          (DiffMethodRef.embed (some d), rw (changed, made) refl, rw merged refl)
    ]
    ref-Merges (MethodRef.refer a) (MethodRef.refer b) v h = elim (Bool-cases (a =~ b)) [
      | inl same ↦ (
        DiffMethodRef.refer none,
        rw same refl,
        rw (url_same-Separates as_str parse a b v.1 h.1 same) refl,
      )
      | inr changed ↦
          let (d, made, merged) = (url-IsLawfulOn as_str parse).merges a b v.1 h.1 in
          (DiffMethodRef.refer (some d), rw (changed, made) refl, rw merged refl)
    ]
    ref-Merges (MethodRef.embed a) (MethodRef.refer b) v h =
        let (d, made, back) = (url-IsLawfulOn as_str parse).returns b h.1 in
        (DiffMethodRef.refer (some d), rw made refl, rw back refl)
    ref-Merges (MethodRef.refer a) (MethodRef.embed b) v h =
        let (d, made, back) = method-Returns b h in
        (DiffMethodRef.embed (some d), rw made refl, rw back refl)

    ref-Returns :
        (this : MethodRef D U)
        → IsRef as_str parse this
        → (delta : DiffMethodRef (Option Text) DD DP) × (ref_into_diff
              (url as_str parse)
              did
              props
              default
              this
            ≡ ok delta)
          × (ref_from_diff (url as_str parse) did props default delta ≡ ok this)
    unfolding ref_into_diff ref_from_diff
    ref-Returns (MethodRef.embed a) h =
        let (d, made, back) = method-Returns a h in
        (DiffMethodRef.embed (some d), rw made refl, rw back refl)
    ref-Returns (MethodRef.refer a) h =
        let (d, made, back) = (url-IsLawfulOn as_str parse).returns a h.1 in
        (DiffMethodRef.refer (some d), rw made refl, rw back refl)

    pub method-IsLawfulOn :
        IsLawfulOn (method (url as_str parse) did props default) (IsMethod as_str parse)
    method-IsLawfulOn = record { merges = method-Merges; returns = method-Returns }

    pub method_ref-IsLawfulOn :
        IsLawfulOn (method_ref (url as_str parse) did props default) (IsRef as_str parse)
    method_ref-IsLawfulOn = record { merges = ref-Merges; returns = ref-Returns }

    -- URLs go through their text and are compared as their keys. Where the ids of the methods that two
    -- references hold or name have a fragment and are read back by the parse, and the differences of
    -- DIDs and properties are lawful, the difference of the first reference to the second succeeds and
    -- merges into the first to the second, whether they hold methods or name them, and the second
    -- turned into a difference is read back.
    pub ref_merge-diff :
        (this other : MethodRef D U)
        → IsRef as_str parse this
        → IsRef as_str parse other
        → ((delta : DiffMethodRef (Option Text) DD DP) × (ref_diff
                (url as_str parse)
                did
                props
                default
                this
                other
              ≡ ok delta)
            × (ref_merge (url as_str parse) did props default this delta ≡ ok other))
          × ((delta : DiffMethodRef (Option Text) DD DP) × (ref_into_diff
                  (url as_str parse)
                  did
                  props
                  default
                  other
                ≡ ok delta)
              × (ref_from_diff (url as_str parse) did props default delta ≡ ok other))
    ref_merge-diff this other v h = (ref-Merges this other v h, ref-Returns other h)
