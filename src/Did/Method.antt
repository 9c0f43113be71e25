-- ===== src/Did/Method.antt =====
-- identity_did/src/verification: verification methods, references to them, and the relationships
-- that a document puts them under.
use identity_rs.Did.Url
use identity_rs.Did.Url.{DidUrl, UrlKey, get_fragment}
use identity_rs.Prelude.{
  Bool, true, false, Option, none, some, Text, Outcome, ok, err, ◌>>=◌, list_eq, nat_eq,
}

pub data MethodType : Type 0 where
  ed25519_verification_key_2018 x25519_key_agreement_key_2019 : MethodType

pub data MethodData : Type 0 where
  public_key_multibase : Text → MethodData
  public_key_base58 : Text → MethodData

pub data MethodRelationship : Type 0 where
  authentication assertion_method key_agreement capability_delegation capability_invocation :
      MethodRelationship

pub data MethodScope : Type 0 where
  verification_method : MethodScope
  verification_relationship : MethodRelationship → MethodScope

pub record VerificationMethod (D U : Type 0) : Type 0 where
  pub id : DidUrl D
  pub controller : D
  pub type_ : MethodType
  pub content : MethodData
  pub properties : U

pub data MethodRef (D U : Type 0) : Type 0 where
  embed : VerificationMethod D U → MethodRef D U
  refer : DidUrl D → MethodRef D U

module _ {D U : Type 0} where
  -- `KeyComparable for VerificationMethod`
  abbrev pub method_key : VerificationMethod D U → UrlKey D
  method_key method = Url.key method.id

  abbrev pub ref_id : MethodRef D U → DidUrl D
  ref_id (embed inner) = inner.id
  ref_id (refer inner) = inner

  -- `KeyComparable for MethodRef`
  abbrev pub ref_key : MethodRef D U → UrlKey D
  ref_key method_ref = Url.key (ref_id method_ref)

  unfoldable pub ref_controller : MethodRef D U → Option D
  ref_controller (embed inner) = some inner.controller
  ref_controller (refer _) = none

  unfoldable pub is_embedded : MethodRef D U → Bool
  is_embedded (embed _) = true
  is_embedded (refer _) = false

  unfoldable pub is_referred : MethodRef D U → Bool
  is_referred (embed _) = false
  is_referred (refer _) = true

  unfoldable pub try_into_embedded :
      MethodRef D U → Outcome (MethodRef D U) (VerificationMethod D U)
  try_into_embedded (embed inner) = ok inner
  try_into_embedded (refer inner) = err (refer inner)

  unfoldable pub try_into_referenced : MethodRef D U → Outcome (MethodRef D U) (DidUrl D)
  try_into_referenced (embed inner) = err (embed inner)
  try_into_referenced (refer inner) = ok inner

module _ {D C U : Type 0} (f : D → C) where
  unfoldable pub map_method : VerificationMethod D U → VerificationMethod C U
  map_method method = record {
    id = Url.map method.id f;
    controller = f method.controller;
    type_ = method.type_;
    content = method.content;
    properties = method.properties;
  }

  unfoldable pub map_ref : MethodRef D U → MethodRef C U
  map_ref (embed method) = embed (map_method method)
  map_ref (refer id) = refer (Url.map id f)

module _ {D C U E : Type 0} (f : D → Outcome E C) where
  unfoldable pub try_map_method : VerificationMethod D U → Outcome E (VerificationMethod C U)
  try_map_method method = do
    id ← Url.try_map method.id f
    controller ← f method.controller
    ok (record {
      id = id;
      controller = controller;
      type_ = method.type_;
      content = method.content;
      properties = method.properties;
    })

  unfoldable pub try_map_ref : MethodRef D U → Outcome E (MethodRef C U)
  try_map_ref (embed method) = do method' ← try_map_method method; ok (embed method')
  try_map_ref (refer id) = do id' ← Url.try_map id f; ok (refer id')
