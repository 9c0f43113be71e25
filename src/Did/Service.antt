-- ===== src/Did/Service.antt =====
-- identity_did/src/service/service.rs
use identity_rs.Did.Url
use identity_rs.Did.Url.{DidUrl, UrlKey}
use identity_rs.Core.OneOrSet.{OneOrSet}
use identity_rs.Prelude.{Text, Outcome, ok, ◌>>=◌}

-- The endpoint is opaque here: no operation of a document reads into it.
pub record Service (D V P : Type 0) : Type 0 where
  pub id : DidUrl D
  pub type_ : OneOrSet Text
  pub service_endpoint : P
  pub properties : V

-- `KeyComparable for Service`
abbrev pub service_key : {D V P : Type 0} → Service D V P → UrlKey D
service_key service = Url.key service.id

unfoldable pub map_service : {D C V P : Type 0} → (D → C) → Service D V P → Service C V P
map_service f service = record {
  id = Url.map service.id f;
  type_ = service.type_;
  service_endpoint = service.service_endpoint;
  properties = service.properties;
}

unfoldable pub try_map_service :
    {D C V P E : Type 0} → (D → Outcome E C) → Service D V P → Outcome E (Service C V P)
try_map_service f service = do
  id ← Url.try_map service.id f
  ok (record {
    id = id;
    type_ = service.type_;
    service_endpoint = service.service_endpoint;
    properties = service.properties;
  })
