-- ===== src/Did/Mapping.antt =====
-- identity_did/src/document/core_document.rs: `map` and `try_map`, which replace every DID of a
-- document. The sets are collected anew, under the keys of the new DIDs.
pub mod Roundtrip
mod Tests
use identity_rs.Core.OneOrSet.{OneOrSet, map_items, try_map_items}
use identity_rs.Core.OrderedSet.{OrderedSet, from_iter}
use identity_rs.Did.Document.{CoreDocument}
use identity_rs.Did.Method.{
  MethodRef, VerificationMethod, method_key, ref_key, map_method, map_ref, try_map_method,
  try_map_ref,
}
use identity_rs.Did.Service.{Service, service_key, map_service, try_map_service}
use identity_rs.Did.Url.{key_eq}
use identity_rs.Prelude.{Option, none, some, List, map, HasEq, Outcome, ok, err, ◌>>=◌, traverse}

-- A DID is compared with others as a whole.
abbrev pub did_key : {D : Type 0} → D → D
did_key did = did

-- `iter.map(f).collect::<Result<OrderedSet<_>, E>>()`
unfoldable pub try_collect :
    {E A B K : Type 0} ⦃e : HasEq K⦄
    → (B → K)
    → (A → Outcome E B)
    → List A
    → Outcome E (OrderedSet B)
try_collect key f items = traverse f items >>= λ results. ok (from_iter key results)

module _ {D C : Type 0} ⦃c_eq : HasEq C⦄ (f : D → C) where
  unfoldable pub map_controller : Option (OneOrSet D) → Option (OneOrSet C)
  map_controller none = none
  map_controller (some controller) = some (map_items did_key controller f)

module _ {D C T S U V P : Type 0} ⦃c_eq : HasEq C⦄ (f : D → C) (g : T → S) where
  unfoldable pub map_document : CoreDocument D T U V P → CoreDocument C S U V P
  map_document doc = record {
    id = f doc.id;
    controller = map_controller f doc.controller;
    also_known_as = doc.also_known_as;
    verification_method = from_iter method_key (map (map_method f) doc.verification_method);
    authentication = from_iter ref_key (map (map_ref f) doc.authentication);
    assertion_method = from_iter ref_key (map (map_ref f) doc.assertion_method);
    key_agreement = from_iter ref_key (map (map_ref f) doc.key_agreement);
    capability_delegation = from_iter ref_key (map (map_ref f) doc.capability_delegation);
    capability_invocation = from_iter ref_key (map (map_ref f) doc.capability_invocation);
    service = from_iter service_key (map (map_service f) doc.service);
    properties = g doc.properties;
  }

module _ {D C E : Type 0} ⦃c_eq : HasEq C⦄ (f : D → Outcome E C) where
  unfoldable pub try_map_controller : Option (OneOrSet D) → Outcome E (Option (OneOrSet C))
  try_map_controller none = ok none
  try_map_controller (some controller) =
      try_map_items did_key controller f >>= λ controller'. ok (some controller')

module _ {D C T S U V P E : Type 0} ⦃c_eq : HasEq C⦄ (f : D → Outcome E C)
    (g : T → Outcome E S) where
  unfoldable pub try_map_document : CoreDocument D T U V P → Outcome E (CoreDocument C S U V P)
  try_map_document doc = do
    id ← f doc.id
    controller ← try_map_controller f doc.controller
    verification_method ← try_collect method_key (try_map_method f) doc.verification_method
    authentication ← try_collect ref_key (try_map_ref f) doc.authentication
    assertion_method ← try_collect ref_key (try_map_ref f) doc.assertion_method
    key_agreement ← try_collect ref_key (try_map_ref f) doc.key_agreement
    capability_delegation ← try_collect ref_key (try_map_ref f) doc.capability_delegation
    capability_invocation ← try_collect ref_key (try_map_ref f) doc.capability_invocation
    service ← try_collect service_key (try_map_service f) doc.service
    properties ← g doc.properties
    ok (record {
      id = id;
      controller = controller;
      also_known_as = doc.also_known_as;
      verification_method = verification_method;
      authentication = authentication;
      assertion_method = assertion_method;
      key_agreement = key_agreement;
      capability_delegation = capability_delegation;
      capability_invocation = capability_invocation;
      service = service;
      properties = properties;
    })
