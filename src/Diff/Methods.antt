-- ===== src/Diff/Methods.antt =====
-- identity_did/src/diff/diff_method.rs, method_data.rs, method_type.rs and method_ref.rs. The
-- implementations for DIDs, URLs and properties are arguments.
pub mod Laws
mod Tests
use identity_rs.Did.Building.{
  new_method, set_method, method_from_builder, id, controller, type_, content,
}
use identity_rs.Did.Method.{MethodType, MethodData, VerificationMethod, MethodRef}
use identity_rs.Did.Url.{DidUrl}
use identity_rs.Diff.Documents.Fields.{
  field_diff, field_merge, field_from_diff, field_into_diff, default_from_diff, default_into_diff,
}
use identity_rs.Diff.Interface.{
  PartialEq, ◌=~◌, same_as_eq, Diff, Error, Res, conversion_error, merge_error,
}
use identity_rs.Diff.Texts.{string_diff, string_merge, string_from_diff, string_into_diff}
use identity_rs.Prelude.{
  Bool, Option, none, some, [], HasEq, ◌==◌, if◌then◌else◌, Outcome, ok, err, ◌>>=◌, map_err, Text,
  list_eq, nat_eq,
}

pub data DiffMethodData : Type 0 where
  public_key_multibase public_key_base58 : Option (Option Text) → DiffMethodData

unfoldable pub method_data_into_diff : MethodData → Res DiffMethodData
method_data_into_diff (MethodData.public_key_multibase value) =
    string_into_diff value >>= λ d. ok (DiffMethodData.public_key_multibase (some d))
method_data_into_diff (MethodData.public_key_base58 value) =
    string_into_diff value >>= λ d. ok (DiffMethodData.public_key_base58 (some d))

unfoldable pub method_data_from_diff : DiffMethodData → Res MethodData
method_data_from_diff (DiffMethodData.public_key_multibase (some value)) =
    string_from_diff value >>= λ text. ok (MethodData.public_key_multibase text)
method_data_from_diff (DiffMethodData.public_key_multibase none) =
    ok (MethodData.public_key_multibase [])
method_data_from_diff (DiffMethodData.public_key_base58 (some value)) =
    string_from_diff value >>= λ text. ok (MethodData.public_key_base58 text)
method_data_from_diff (DiffMethodData.public_key_base58 none) = ok (MethodData.public_key_base58 [])

unfoldable pub method_data_diff : MethodData → MethodData → Res DiffMethodData
method_data_diff (MethodData.public_key_multibase a) (MethodData.public_key_multibase b) =
    if a == b
    then ok (DiffMethodData.public_key_multibase none)
    else (string_diff a b >>= λ d. ok (DiffMethodData.public_key_multibase (some d)))
method_data_diff (MethodData.public_key_base58 a) (MethodData.public_key_base58 b) =
    if a == b
    then ok (DiffMethodData.public_key_base58 none)
    else (string_diff a b >>= λ d. ok (DiffMethodData.public_key_base58 (some d)))
method_data_diff _ other = method_data_into_diff other

unfoldable pub method_data_merge : MethodData → DiffMethodData → Res MethodData
method_data_merge (MethodData.public_key_multibase a)
      (DiffMethodData.public_key_multibase (some b)) =
    string_merge a b >>= λ text. ok (MethodData.public_key_multibase text)
method_data_merge (MethodData.public_key_multibase a) (DiffMethodData.public_key_multibase none) =
    ok (MethodData.public_key_multibase a)
method_data_merge (MethodData.public_key_base58 a) (DiffMethodData.public_key_base58 (some b)) =
    string_merge a b >>= λ text. ok (MethodData.public_key_base58 text)
method_data_merge (MethodData.public_key_base58 a) (DiffMethodData.public_key_base58 none) =
    ok (MethodData.public_key_base58 a)
method_data_merge _ diff = method_data_from_diff diff

abbrev pub method_data : Diff MethodData DiffMethodData
method_data = record {
  diff = method_data_diff;
  merge = method_data_merge;
  from_diff = method_data_from_diff;
  into_diff = method_data_into_diff;
}

-- `Diff for MethodType`: a difference is the whole new value.
abbrev pub method_type : Diff MethodType MethodType
method_type = record {
  diff = λ _ other. ok other;
  merge = λ _ diff. ok diff;
  from_diff = λ diff. ok diff;
  into_diff = λ this. ok this;
}

pub record DiffMethod (DU DD DP : Type 0) : Type 0 where
  pub id : Option DU
  pub controller : Option DD
  pub type_ : Option MethodType
  pub content : Option DiffMethodData
  pub properties : Option DP

-- `Embed(Option<…>)`, `Refer(Option<…>)`
pub data DiffMethodRef (DU DD DP : Type 0) : Type 0 where
  embed : Option (DiffMethod DU DD DP) → DiffMethodRef DU DD DP
  refer : Option DU → DiffMethodRef DU DD DP

module _ {D U DU DD DP : Type 0} ⦃d_eq : HasEq D⦄ ⦃url_eq : PartialEq (DidUrl D)⦄
    ⦃type_eq : HasEq MethodType⦄ ⦃data_eq : HasEq MethodData⦄ ⦃u_eq : HasEq U⦄
    (url : Diff (DidUrl D) DU) (did : Diff D DD) (props : Diff U DP) (default : U) where
  -- `MethodBuilder::new(properties).id(id).controller(controller).type_(type_).data(data).build()`
  unfoldable pub build :
      Error → DidUrl D → D → MethodType → MethodData → U → Res (VerificationMethod D U)
  build error id' controller' type_' content' properties' =
      map_err (λ _. error)
        (method_from_builder (
          set_method (content content') (
            set_method (type_ type_') (
              set_method (controller controller') (set_method (id id') (new_method properties'))))))

  unfoldable pub method_diff :
      VerificationMethod D U → VerificationMethod D U → Res (DiffMethod DU DD DP)
  method_diff this other = do
    id' ← field_diff url.diff this.id other.id
    controller' ← field_diff did.diff this.controller other.controller
    type_' ← field_diff method_type.diff this.type_ other.type_
    content' ← field_diff method_data.diff this.content other.content
    properties' ← field_diff props.diff this.properties other.properties
    ok (record {
      id = id';
      controller = controller';
      type_ = type_';
      content = content';
      properties = properties';
    })

  unfoldable pub method_merge :
      VerificationMethod D U → DiffMethod DU DD DP → Res (VerificationMethod D U)
  method_merge this diff = do
    id' ← field_merge url.merge this.id diff.id
    controller' ← field_merge did.merge this.controller diff.controller
    content' ← field_merge method_data.merge this.content diff.content
    type_' ← field_merge method_type.merge this.type_ diff.type_
    properties' ← field_merge props.merge this.properties diff.properties
    build merge_error id' controller' type_' content' properties'

  unfoldable pub method_from_diff : DiffMethod DU DD DP → Res (VerificationMethod D U)
  method_from_diff diff = do
    id' ← field_from_diff url.from_diff diff.id
    controller' ← field_from_diff did.from_diff diff.controller
    type_' ← field_from_diff method_type.from_diff diff.type_
    content' ← field_from_diff method_data.from_diff diff.content
    properties' ← default_from_diff default props.from_diff diff.properties
    build conversion_error id' controller' type_' content' properties'

  unfoldable pub method_into_diff : VerificationMethod D U → Res (DiffMethod DU DD DP)
  method_into_diff this = do
    id' ← field_into_diff url.into_diff this.id
    controller' ← field_into_diff did.into_diff this.controller
    type_' ← field_into_diff method_type.into_diff this.type_
    content' ← field_into_diff method_data.into_diff this.content
    properties' ← default_into_diff default props.into_diff this.properties
    ok (record {
      id = id';
      controller = controller';
      type_ = type_';
      content = content';
      properties = properties';
    })

  abbrev pub method : Diff (VerificationMethod D U) (DiffMethod DU DD DP)
  method = record {
    diff = method_diff;
    merge = method_merge;
    from_diff = method_from_diff;
    into_diff = method_into_diff;
  }

  unfoldable pub ref_into_diff : MethodRef D U → Res (DiffMethodRef DU DD DP)
  ref_into_diff (MethodRef.embed value) =
      method_into_diff value >>= λ d. ok (DiffMethodRef.embed (some d))
  ref_into_diff (MethodRef.refer value) =
      url.into_diff value >>= λ d. ok (DiffMethodRef.refer (some d))

  unfoldable pub ref_from_diff : DiffMethodRef DU DD DP → Res (MethodRef D U)
  ref_from_diff (DiffMethodRef.embed (some value)) =
      method_from_diff value >>= λ inner. ok (MethodRef.embed inner)
  ref_from_diff (DiffMethodRef.embed none) = err conversion_error
  ref_from_diff (DiffMethodRef.refer (some value)) =
      url.from_diff value >>= λ inner. ok (MethodRef.refer inner)
  ref_from_diff (DiffMethodRef.refer none) = err conversion_error

  module _ ⦃m_eq : PartialEq (VerificationMethod D U)⦄ where
    unfoldable pub ref_diff : MethodRef D U → MethodRef D U → Res (DiffMethodRef DU DD DP)
    ref_diff (MethodRef.embed a) (MethodRef.embed b) =
        if a =~ b
        then ok (DiffMethodRef.embed none)
        else (method_diff a b >>= λ d. ok (DiffMethodRef.embed (some d)))
    ref_diff (MethodRef.refer a) (MethodRef.refer b) =
        if a =~ b
        then ok (DiffMethodRef.refer none)
        else (url.diff a b >>= λ d. ok (DiffMethodRef.refer (some d)))
    ref_diff _ other = ref_into_diff other

  unfoldable pub ref_merge : MethodRef D U → DiffMethodRef DU DD DP → Res (MethodRef D U)
  ref_merge (MethodRef.embed a) (DiffMethodRef.embed (some b)) =
      method_merge a b >>= λ inner. ok (MethodRef.embed inner)
  ref_merge (MethodRef.embed a) (DiffMethodRef.embed none) = ok (MethodRef.embed a)
  ref_merge (MethodRef.refer a) (DiffMethodRef.refer (some b)) =
      url.merge a b >>= λ inner. ok (MethodRef.refer inner)
  ref_merge (MethodRef.refer a) (DiffMethodRef.refer none) = ok (MethodRef.refer a)
  ref_merge _ diff = ref_from_diff diff

  abbrev pub method_ref :
      ⦃m_eq : PartialEq (VerificationMethod D U)⦄ → Diff (MethodRef D U) (DiffMethodRef DU DD DP)
  method_ref = record {
    diff = ref_diff;
    merge = ref_merge;
    from_diff = ref_from_diff;
    into_diff = ref_into_diff;
  }
