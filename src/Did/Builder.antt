-- ===== src/Did/Builder.antt =====
-- identity_did/src/document: builder.rs, and `from_builder` of core_document.rs. A setting is a call of
-- a method of the builder.
pub mod Builds
use identity_rs.Core.OneOrSet.{OneOrSet, try_from_vec}
use identity_rs.Core.OrderedSet
use identity_rs.Core.OrderedSet.{OrderedSet, try_from}
use identity_rs.Did.Document.{CoreDocument}
use identity_rs.Did.Mapping.{did_key}
use identity_rs.Did.Method.{MethodRef, VerificationMethod, method_key, ref_key}
use identity_rs.Did.Service.{Service, service_key}
use identity_rs.Did.Url.{key_eq}
use identity_rs.Prelude.{
  Option, none, some, List, [], ◌∷◌, ◌++◌, HasEq, Outcome, ok, err, ◌>>=◌, ok_or, map_err, Text,
  text, list_eq, nat_eq,
}

pub record DocumentBuilder (D T U V P : Type 0) : Type 0 where
  pub id : Option D
  pub controller : List D
  pub also_known_as : List Text
  pub verification_method : List (VerificationMethod D U)
  pub authentication : List (MethodRef D U)
  pub assertion_method : List (MethodRef D U)
  pub key_agreement : List (MethodRef D U)
  pub capability_delegation : List (MethodRef D U)
  pub capability_invocation : List (MethodRef D U)
  pub service : List (Service D V P)
  pub properties : T

pub data DocumentSetting (D U V P : Type 0) : Type 0 where
  id controller : D → DocumentSetting D U V P
  also_known_as : Text → DocumentSetting D U V P
  verification_method : VerificationMethod D U → DocumentSetting D U V P
  authentication assertion_method key_agreement capability_delegation capability_invocation :
      MethodRef D U → DocumentSetting D U V P
  service : Service D V P → DocumentSetting D U V P

-- `Error::InvalidDocument`: what is missing, or the part with duplicates
pub data BuilderError : Type 0 where
  missing_id : BuilderError
  invalid_document : Text → OrderedSet.Error → BuilderError

-- an alias is compared with others as a whole
abbrev pub alias_key : Text → Text
alias_key alias = alias

module _ {D T U V P : Type 0} where
  unfoldable pub new_document : T → DocumentBuilder D T U V P
  new_document properties = record {
    id = none;
    controller = [];
    also_known_as = [];
    verification_method = [];
    authentication = [];
    assertion_method = [];
    key_agreement = [];
    capability_delegation = [];
    capability_invocation = [];
    service = [];
    properties = properties;
  }

  unfoldable pub set_document :
      DocumentSetting D U V P → DocumentBuilder D T U V P → DocumentBuilder D T U V P
  set_document (id value) this = record this { id = some value }
  set_document (controller value) this = record this { controller = this.controller ++ value ∷ [] }
  set_document (also_known_as value) this = record this {
    also_known_as = this.also_known_as ++ value ∷ [];
  }
  set_document (verification_method value) this = record this {
    verification_method = this.verification_method ++ value ∷ [];
  }
  set_document (authentication value) this = record this {
    authentication = this.authentication ++ value ∷ [];
  }
  set_document (assertion_method value) this = record this {
    assertion_method = this.assertion_method ++ value ∷ [];
  }
  set_document (key_agreement value) this = record this {
    key_agreement = this.key_agreement ++ value ∷ [];
  }
  set_document (capability_delegation value) this = record this {
    capability_delegation = this.capability_delegation ++ value ∷ [];
  }
  set_document (capability_invocation value) this = record this {
    capability_invocation = this.capability_invocation ++ value ∷ [];
  }
  set_document (service value) this = record this { service = this.service ++ value ∷ [] }

module _ {K A : Type 0} ⦃e : HasEq K⦄ where
  -- `field.try_into().map_err(|err| Error::InvalidDocument(name, Some(err)))`
  unfoldable pub try_field : Text → (A → K) → List A → Outcome BuilderError (OrderedSet A)
  try_field name key items = map_err (invalid_document name) (try_from key items)

module _ {D : Type 0} ⦃e : HasEq D⦄ where
  -- `Some(controllers).filter(|controllers| !controllers.is_empty())`, read into a set
  unfoldable pub try_controller : List D → Outcome BuilderError (Option (OneOrSet D))
  try_controller [] = ok none
  try_controller (c ∷ cs) =
      map_err (invalid_document (text "controller")) (try_from_vec did_key (c ∷ cs))
      >>= λ controllers. ok (some controllers)

module _ {D T U V P : Type 0} ⦃e : HasEq D⦄ where
  unfoldable pub from_builder :
      DocumentBuilder D T U V P → Outcome BuilderError (CoreDocument D T U V P)
  from_builder builder = do
    id' ← ok_or builder.id missing_id
    controller' ← try_controller builder.controller
    also_known_as' ← try_field (text "also_known_as") alias_key builder.also_known_as
    verification_method' ←
        try_field (text "verification_method") method_key builder.verification_method
    authentication' ← try_field (text "authentication") ref_key builder.authentication
    assertion_method' ← try_field (text "assertion_method") ref_key builder.assertion_method
    key_agreement' ← try_field (text "key_agreement") ref_key builder.key_agreement
    capability_delegation' ←
        try_field (text "capability_delegation") ref_key builder.capability_delegation
    capability_invocation' ←
        try_field (text "capability_invocation") ref_key builder.capability_invocation
    service' ← try_field (text "service") service_key builder.service
    ok (record {
      id = id';
      controller = controller';
      also_known_as = also_known_as';
      verification_method = verification_method';
      authentication = authentication';
      assertion_method = assertion_method';
      key_agreement = key_agreement';
      capability_delegation = capability_delegation';
      capability_invocation = capability_invocation';
      service = service';
      properties = builder.properties;
    })
