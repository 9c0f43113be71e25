-- ===== src/Diff/Services.antt =====
-- identity_did/src/diff/diff_service.rs. The implementations for URLs and properties are arguments.
pub mod Laws
use identity_rs.Core.OneOrSet.{OneOrSet, into_vec}
use identity_rs.Did.Building.{
  new_service, set_service, service_from_builder, type_key, id, types, service_endpoint,
}
use identity_rs.Did.Service.{Service}
use identity_rs.Did.Url.{DidUrl}
use identity_rs.Diff.Collections.{
  one_or_set_diff, one_or_set_merge, one_or_set_from_diff, one_or_set_into_diff,
}
use identity_rs.Diff.Documents.Fields.{
  field_diff, field_merge, field_from_diff, field_into_diff, default_from_diff, default_into_diff,
}
use identity_rs.Diff.Interface.{
  PartialEq, same_as_eq, Diff, Error, Res, conversion_error, merge_error,
}
use identity_rs.Diff.Texts.{string}
use identity_rs.Diff.Vecs.{InnerVec}
use identity_rs.Prelude.{
  Bool, Option, List, HasEq, ◌==◌, if◌then◌else◌, not, Outcome, ok, ◌>>=◌, map_err, Text, list_eq,
  nat_eq,
}

module _ {P : Type 0} where
  -- `Diff for ServiceEndpoint`
  unfoldable pub endpoint_diff : ⦃e : HasEq P⦄ → P → P → Res P
  endpoint_diff this other = if not (this == other) then ok other else ok this

  unfoldable pub endpoint_merge : ⦃e : HasEq P⦄ → P → P → Res P
  endpoint_merge this diff = if not (this == diff) then ok diff else ok this

  unfoldable pub endpoint_from_diff : P → Res P
  endpoint_from_diff diff = ok diff

  unfoldable pub endpoint_into_diff : P → Res P
  endpoint_into_diff this = ok this

pub record DiffService (DU DP P : Type 0) : Type 0 where
  pub id : Option DU
  pub type_ : Option (List (InnerVec (Option Text)))
  pub service_endpoint : Option P
  pub properties : Option DP

module _ {D V P DU DP : Type 0} ⦃url_eq : PartialEq (DidUrl D)⦄ ⦃type_eq : HasEq (OneOrSet Text)⦄
    ⦃p_eq : HasEq P⦄ ⦃v_eq : HasEq V⦄ (url : Diff (DidUrl D) DU) (props : Diff V DP)
    (default : V) where
  -- `ServiceBuilder::new(properties).id(id).types(type_).service_endpoint(service_endpoint).build()`
  unfoldable pub build : Error → DidUrl D → OneOrSet Text → P → V → Res (Service D V P)
  build error id' type_' service_endpoint' properties' =
      map_err (λ _. error)
        (service_from_builder (
          set_service (service_endpoint service_endpoint') (
            set_service (types (into_vec type_'))
              (set_service (id id') (new_service properties')))))

  unfoldable pub service_diff : Service D V P → Service D V P → Res (DiffService DU DP P)
  service_diff this other = do
    id' ← field_diff url.diff this.id other.id
    type_' ← field_diff (one_or_set_diff type_key string) this.type_ other.type_
    service_endpoint' ← field_diff endpoint_diff this.service_endpoint other.service_endpoint
    properties' ← field_diff props.diff this.properties other.properties
    ok (record {
      id = id';
      type_ = type_';
      service_endpoint = service_endpoint';
      properties = properties';
    })

  unfoldable pub service_merge : Service D V P → DiffService DU DP P → Res (Service D V P)
  service_merge this diff = do
    id' ← field_merge url.merge this.id diff.id
    type_' ← field_merge (one_or_set_merge type_key string) this.type_ diff.type_
    service_endpoint' ← field_merge endpoint_merge this.service_endpoint diff.service_endpoint
    properties' ← field_merge props.merge this.properties diff.properties
    build merge_error id' type_' service_endpoint' properties'

  unfoldable pub service_from_diff : DiffService DU DP P → Res (Service D V P)
  service_from_diff diff = do
    id' ← field_from_diff url.from_diff diff.id
    type_' ← field_from_diff (one_or_set_from_diff type_key string) diff.type_
    service_endpoint' ← field_from_diff endpoint_from_diff diff.service_endpoint
    properties' ← default_from_diff default props.from_diff diff.properties
    build conversion_error id' type_' service_endpoint' properties'

  unfoldable pub service_into_diff : Service D V P → Res (DiffService DU DP P)
  service_into_diff this = do
    id' ← field_into_diff url.into_diff this.id
    type_' ← field_into_diff (one_or_set_into_diff type_key string) this.type_
    service_endpoint' ← field_into_diff endpoint_into_diff this.service_endpoint
    properties' ← default_into_diff default props.into_diff this.properties
    ok (record {
      id = id';
      type_ = type_';
      service_endpoint = service_endpoint';
      properties = properties';
    })

  abbrev pub service : Diff (Service D V P) (DiffService DU DP P)
  service = record {
    diff = service_diff;
    merge = service_merge;
    from_diff = service_from_diff;
    into_diff = service_into_diff;
  }
