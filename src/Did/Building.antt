-- ===== src/Did/Building.antt =====
-- identity_did/src/verification/builder.rs and service/builder.rs, with `from_builder` of
-- verification_method.rs and service.rs. A setting is a call of a method of the builder.
use identity_rs.Core.OneOrSet.{try_from_vec}
use identity_rs.Did.Method.{MethodType, MethodData, VerificationMethod}
use identity_rs.Did.Service.{Service}
use identity_rs.Did.Url.{DidUrl, get_fragment, or_empty}
use identity_rs.Prelude.{
  Bool, not, Option, none, some, List, [], ◌∷◌, ◌++◌, ◌==◌, Outcome, ok, ◌>>=◌, guard, ok_or,
  map_err, Text, list_eq, nat_eq,
}

-- `Error::InvalidMethod`, `Error::InvalidService`
pub data BuildError : Type 0 where
  missing_id empty_id_fragment missing_controller missing_type missing_data : BuildError
  invalid_type missing_endpoint : BuildError

module _ {D : Type 0} where
  -- `!id.fragment().unwrap_or_default().is_empty()`
  abbrev pub has_fragment : DidUrl D → Bool
  has_fragment id = not (or_empty (get_fragment id.url) == [])

pub record MethodBuilder (D U : Type 0) : Type 0 where
  pub id : Option (DidUrl D)
  pub controller : Option D
  pub type_ : Option MethodType
  pub content : Option MethodData
  pub properties : U

pub data MethodSetting (D : Type 0) : Type 0 where
  id : DidUrl D → MethodSetting D
  controller : D → MethodSetting D
  type_ : MethodType → MethodSetting D
  content : MethodData → MethodSetting D

module _ {D U : Type 0} where
  unfoldable pub new_method : U → MethodBuilder D U
  new_method properties = record {
    id = none;
    controller = none;
    type_ = none;
    content = none;
    properties = properties;
  }

  unfoldable pub set_method : MethodSetting D → MethodBuilder D U → MethodBuilder D U
  set_method (MethodSetting.id value) this = record this { id = some value }
  set_method (MethodSetting.controller value) this = record this { controller = some value }
  set_method (MethodSetting.type_ value) this = record this { type_ = some value }
  set_method (MethodSetting.content value) this = record this { content = some value }

  unfoldable pub method_from_builder :
      MethodBuilder D U → Outcome BuildError (VerificationMethod D U)
  method_from_builder builder = do
    id' ← ok_or builder.id missing_id
    _ ← guard (has_fragment id') empty_id_fragment
    controller' ← ok_or builder.controller missing_controller
    type_' ← ok_or builder.type_ missing_type
    content' ← ok_or builder.content missing_data
    ok (record {
      id = id';
      controller = controller';
      type_ = type_';
      content = content';
      properties = builder.properties;
    })

pub record ServiceBuilder (D V P : Type 0) : Type 0 where
  pub id : Option (DidUrl D)
  pub type_ : List Text
  pub service_endpoint : Option P
  pub properties : V

pub data ServiceSetting (D P : Type 0) : Type 0 where
  id : DidUrl D → ServiceSetting D P
  type_ : Text → ServiceSetting D P
  types : List Text → ServiceSetting D P
  service_endpoint : P → ServiceSetting D P

-- a type is compared with others as a whole
abbrev pub type_key : Text → Text
type_key text = text

module _ {D V P : Type 0} where
  unfoldable pub new_service : V → ServiceBuilder D V P
  new_service properties = record {
    id = none;
    type_ = [];
    service_endpoint = none;
    properties = properties;
  }

  unfoldable pub set_service : ServiceSetting D P → ServiceBuilder D V P → ServiceBuilder D V P
  set_service (ServiceSetting.id value) this = record this { id = some value }
  set_service (ServiceSetting.type_ value) this = record this { type_ = this.type_ ++ value ∷ [] }
  set_service (ServiceSetting.types values) this = record this { type_ = values }
  set_service (ServiceSetting.service_endpoint value) this = record this {
    service_endpoint = some value;
  }

  unfoldable pub service_from_builder : ServiceBuilder D V P → Outcome BuildError (Service D V P)
  service_from_builder builder = do
    id' ← ok_or builder.id missing_id
    _ ← guard (has_fragment id') empty_id_fragment
    types' ← map_err (λ _. invalid_type) (try_from_vec type_key builder.type_)
    endpoint ← ok_or builder.service_endpoint missing_endpoint
    ok (record {
      id = id';
      type_ = types';
      service_endpoint = endpoint;
      properties = builder.properties;
    })
