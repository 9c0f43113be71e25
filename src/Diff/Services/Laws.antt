-- ===== src/Diff/Services/Laws.antt =====
-- The differences of services.
use identity_rs.Core.OneOrSet.{OneOrSet, into_vec, try_from_vec}
use identity_rs.Core.OneOrSet.Laws.{IsValid, try_from_vec_unique}
use identity_rs.Did.Building.{
  has_fragment, new_service, set_service, service_from_builder, type_key,
}
use identity_rs.Did.Service.{Service}
use identity_rs.Did.Url.{DidUrl}
use identity_rs.Diff.Collections.{
  one_or_set_diff, one_or_set_merge, one_or_set_merge-diff, into_vec-IsUnique,
}
use identity_rs.Diff.Documents.Fields.{
  field_diff, field_merge, field-Merges, field-Returns, default-Returns,
}
use identity_rs.Diff.Sameness.{url, url-IsLawfulOn, IsId, url_same, url_same-Separates}
use identity_rs.Diff.Interface.{
  same_as_eq, IsLawfulOn, Diff, Error, IsLawful, merge_error, conversion_error,
}
use identity_rs.Diff.Services.{
  service, DiffService, endpoint_diff, endpoint_merge, endpoint_from_diff, endpoint_into_diff,
  build, service_diff, service_merge, service_from_diff, service_into_diff,
}
use identity_rs.Diff.Texts.{string, string-IsLawful}
use identity_rs.Diff.Vecs.{InnerVec}
use identity_rs.Prelude.{
  Outcome, ap, ◌∙◌, sym, arith, Text, ◌≡◌, refl, true, Option, none, some, List, HasEq, ◌==◌, ok,
  Bool-cases, inl, inr, list_eq, nat_eq, Text,
}

ok-injective : {E A : Type 0} {a b : A} → ◌≡◌ {A = Outcome E A} (ok a) (ok b) → a ≡ b
ok-injective h = ground arith

module _ {P : Type 0} ⦃e : HasEq P⦄ where
  endpoint-Merges :
      (a b : P) → (delta : P) × (endpoint_diff a b ≡ ok delta) × (endpoint_merge a delta ≡ ok b)
  unfolding endpoint_diff endpoint_merge
  endpoint-Merges a b = elim (Bool-cases (a == b)) [
    | inl same ↦
        (b, rw same (rw ((e.beq_iff a b).0 same) refl), rw same (rw ((e.beq_iff a b).0 same) refl))
    | inr changed ↦ (b, rw changed refl, rw changed refl)
  ]

module _ ⦃type_eq : HasEq (OneOrSet Text)⦄ where
  -- the field of the types, of which the items are kept
  types-Merges :
      (this other : OneOrSet Text)
      → IsValid type_key other
      → (delta : Option (List (InnerVec (Option Text)))) × (field_diff
            (one_or_set_diff type_key string)
            this
            other
          ≡ ok delta)
        × (merged : OneOrSet Text) × (field_merge (one_or_set_merge type_key string) this delta
            ≡ ok merged)
        × (into_vec merged ≡ into_vec other)
  types-Merges this other v = elim (Bool-cases (this == other)) [
    | inl same ↦ (none, rw same refl, this, refl, rw ((type_eq.beq_iff this other).0 same) refl)
    | inr changed ↦
        let ((delta, made, merged, done, _, items), _) =
          one_or_set_merge-diff type_key string this other string-IsLawful v in
        (some delta, rw (changed, made) refl, merged, done, items)
  ]

module _ {D V P E : Type 0} (as_str : D → Text) (parse : Text → Outcome E (DidUrl D)) where
  -- The id has a fragment and is read back, and the types are unique and not none.
  abbrev pub IsSound : Service D V P → Type 0
  IsSound this = IsId as_str parse this.id × IsValid type_key this.type_

  -- The types are also as the conversion of a vector makes them: one type stands alone.
  abbrev pub IsService : Service D V P → Type 0
  IsService this = IsSound this × (try_from_vec type_key (into_vec this.type_) ≡ ok this.type_)

module _ {D V P DP E : Type 0} ⦃d_eq : HasEq D⦄ ⦃type_eq : HasEq (OneOrSet Text)⦄ ⦃p_eq : HasEq P⦄
    ⦃v_eq : HasEq V⦄ (as_str : D → Text) (parse : Text → Outcome E (DidUrl D)) (props : Diff V DP)
    (default : V) where
  build-fields :
      (error : Error) (this : Service D V P) (items : OneOrSet Text)
      → has_fragment this.id ≡ true
      → IsValid type_key this.type_
      → into_vec items ≡ into_vec this.type_
      → (types' : OneOrSet Text) × (build
            (url as_str parse)
            props
            default
            error
            this.id
            items
            this.service_endpoint
            this.properties
          ≡ ok (record this { type_ = types' }))
        × (into_vec types' ≡ into_vec this.type_)
        × (try_from_vec type_key (into_vec this.type_) ≡ ok types')
  unfolding build new_service set_service service_from_builder
  build-fields error this items h v same =
      let (u, some_item) = into_vec-IsUnique type_key string this.type_ v in
      let (result, converted, _, kept) =
        try_from_vec_unique type_key (into_vec this.type_) u some_item in
      (result, rw h (rw same (rw converted refl)), kept, converted)

  module _ (props_lawful : IsLawful props) where
    service-Merges :
        (this other : Service D V P)
        → IsSound as_str parse this
        → IsSound as_str parse other
        → (delta : DiffService (Option Text) DP P) × (service_diff
              (url as_str parse)
              props
              default
              this
              other
            ≡ ok delta)
          × (types' : OneOrSet Text) × (service_merge (url as_str parse) props default this delta
              ≡ ok (record other { type_ = types' }))
          × (into_vec types' ≡ into_vec other.type_)
          × (try_from_vec type_key (into_vec other.type_) ≡ ok types')
    unfolding service_diff service_merge
    service-Merges this other sound h =
        let (d0, made0, done0) =
          field-Merges (url as_str parse).diff (url as_str parse).merge this.id other.id
            (url_same-Separates as_str parse this.id other.id sound.0.1 h.0.1)
            ((url-IsLawfulOn as_str parse).merges this.id other.id sound.0.1 h.0.1) in
        let (d1, made1, items, done1, same) = types-Merges this.type_ other.type_ h.1 in
        let (d2, made2, done2) =
          field-Merges endpoint_diff endpoint_merge this.service_endpoint other.service_endpoint
            (p_eq.beq_iff this.service_endpoint other.service_endpoint).0
            (endpoint-Merges this.service_endpoint other.service_endpoint) in
        let (d3, made3, done3) =
          field-Merges props.diff props.merge this.properties other.properties
            (v_eq.beq_iff this.properties other.properties).0
            (props_lawful.merges this.properties other.properties) in
        let (types', built, kept, converted) =
          build-fields merge_error other items h.0.0 h.1 same in
        (
          record { id = d0; type_ = d1; service_endpoint = d2; properties = d3 },
          rw (made0, made1, made2, made3) refl,
          types',
          rw (done0, done1, done2, done3) built,
          kept,
          converted,
        )

    service-Returns :
        (this : Service D V P)
        → IsSound as_str parse this
        → (delta : DiffService (Option Text) DP P) × (service_into_diff
              (url as_str parse)
              props
              default
              this
            ≡ ok delta)
          × (types' : OneOrSet Text) × (service_from_diff (url as_str parse) props default delta
              ≡ ok (record this { type_ = types' }))
          × (into_vec types' ≡ into_vec this.type_)
          × (try_from_vec type_key (into_vec this.type_) ≡ ok types')
    unfolding service_into_diff service_from_diff endpoint_into_diff endpoint_from_diff
    service-Returns this h =
        let (d0, made0, done0) =
          field-Returns (url as_str parse).into_diff (url as_str parse).from_diff this.id
            ((url-IsLawfulOn as_str parse).returns this.id h.0.1) in
        let (_, (d1, made1, items, done1, _, same)) =
          one_or_set_merge-diff type_key string this.type_ this.type_ string-IsLawful h.1 in
        let (d3, made3, done3) =
          default-Returns props.into_diff props.from_diff default this.properties
            (props_lawful.returns this.properties) in
        let (types', built, kept, converted) =
          build-fields conversion_error this items h.0.0 h.1 same in
        (
          record {
            id = d0;
            type_ = some d1;
            service_endpoint = some this.service_endpoint;
            properties = d3;
          },
          rw (made0, made1, made3) refl,
          types',
          rw (done0, done1, done3) built,
          kept,
          converted,
        )

    built_types :
        (this : Service D V P) (types' : OneOrSet Text)
        → IsService as_str parse this
        → try_from_vec type_key (into_vec this.type_) ≡ ok types'
        → record this { type_ = types' } ≡ this
    built_types this types' sound converted =
        let same : types' ≡ this.type_ = ok-injective (sym converted ∙ sound.1) in
        ap (λ (w : OneOrSet Text). record this { type_ = w }) same

    -- The laws, for services whose types are as they are built.
    pub service-IsLawfulOn :
        IsLawfulOn (service {P = P} (url as_str parse) props default) (IsService as_str parse)
    service-IsLawfulOn = record {
      merges = λ a b v v'.
          let (delta, made, types', merged, _, converted) = service-Merges a b v.0 v'.0 in
          (delta, made, merged ∙ ap ok (built_types b types' v' converted));
      returns = λ a v.
          let (delta, made, types', back, _, converted) = service-Returns a v.0 in
          (delta, made, back ∙ ap ok (built_types a types' v converted));
    }

    -- URLs go through their text and are compared as their keys. Where the ids of two services have a
    -- fragment and are read back by the parse, their types are valid, and the differences of properties
    -- are lawful, the difference of the first service to the second succeeds, and merging it into the
    -- first, and turning the second into a difference and back, both give the second, with the same
    -- types in the same order.
    pub service_merge-diff :
        (this other : Service D V P)
        → IsSound as_str parse this
        → IsSound as_str parse other
        → ((delta : DiffService (Option Text) DP P) × (service_diff
                (url as_str parse)
                props
                default
                this
                other
              ≡ ok delta)
            × (types' : OneOrSet Text) × (service_merge (url as_str parse) props default this delta
                ≡ ok (record other { type_ = types' }))
            × (into_vec types' ≡ into_vec other.type_))
          × ((delta : DiffService (Option Text) DP P) × (service_into_diff
                  (url as_str parse)
                  props
                  default
                  other
                ≡ ok delta)
              × (types' : OneOrSet Text) × (service_from_diff (url as_str parse) props default delta
                  ≡ ok (record other { type_ = types' }))
              × (into_vec types' ≡ into_vec other.type_))
    service_merge-diff this other sound h =
        let (delta, made, types', merged, kept, _) = service-Merges this other sound h in
        let (whole, made', back', read, kept', _) = service-Returns other h in
        ((delta, made, types', merged, kept), (whole, made', back', read, kept'))
