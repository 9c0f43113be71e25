-- ===== src/Credential/Builder.antt =====
-- identity_credential/src: credential/builder.rs and presentation/builder.rs, with `from_builder` of
-- credential/credential.rs and presentation/presentation.rs. A setting is a call of a method of the
-- builder; the properties are opaque, so the calls that add to them are left out.
pub mod Builds
use identity_rs.Core.OneOrMany.{from_vec}
use identity_rs.Credential.Data.{
  Context, Subject, Issuer, Status, Credential, Presentation, Error, missing_issuer, base_context,
  credential_type, presentation_type,
}
use identity_rs.Credential.Structure.{check_structure, check_presentation}
use identity_rs.Prelude.{
  ◌≡◌, Bool, Option, none, some, List, [], ◌∷◌, ◌++◌, unwrap_or, Outcome, ok, err, ◌>>=◌, ok_or,
  Text,
}

pub record CredentialBuilder (Time O T : Type 0) : Type 0 where
  pub context : List (Context O)
  pub id : Option Text
  pub types : List Text
  pub subject : List (Subject O)
  pub issuer : Option (Issuer O)
  pub issuance_date : Option Time
  pub expiration_date : Option Time
  pub status : Option (Status O)
  pub schema : List O
  pub refresh_service : List O
  pub terms_of_use : List O
  pub evidence : List O
  pub non_transferable : Option Bool
  pub properties : T

pub data CredentialSetting (Time O : Type 0) : Type 0 where
  context : Context O → CredentialSetting Time O
  id : Text → CredentialSetting Time O
  type_ : Text → CredentialSetting Time O
  subject : Subject O → CredentialSetting Time O
  subjects : List (Subject O) → CredentialSetting Time O
  issuer : Issuer O → CredentialSetting Time O
  issuance_date expiration_date : Time → CredentialSetting Time O
  status : Status O → CredentialSetting Time O
  schema refresh_service terms_of_use evidence : O → CredentialSetting Time O
  non_transferable : Bool → CredentialSetting Time O

module _ {Time O T : Type 0} where
  unfoldable pub new_credential : T → CredentialBuilder Time O T
  new_credential properties = record {
    context = base_context ∷ [];
    id = none;
    types = credential_type ∷ [];
    subject = [];
    issuer = none;
    issuance_date = none;
    expiration_date = none;
    status = none;
    schema = [];
    refresh_service = [];
    terms_of_use = [];
    evidence = [];
    non_transferable = none;
    properties = properties;
  }

  unfoldable pub set_credential :
      CredentialSetting Time O → CredentialBuilder Time O T → CredentialBuilder Time O T
  set_credential (context value) this = record this { context = this.context ++ value ∷ [] }
  set_credential (id value) this = record this { id = some value }
  set_credential (type_ value) this = record this { types = this.types ++ value ∷ [] }
  set_credential (subject value) this = record this { subject = this.subject ++ value ∷ [] }
  set_credential (subjects values) this = record this { subject = this.subject ++ values }
  set_credential (issuer value) this = record this { issuer = some value }
  set_credential (issuance_date value) this = record this { issuance_date = some value }
  set_credential (expiration_date value) this = record this { expiration_date = some value }
  set_credential (status value) this = record this { status = some value }
  set_credential (schema value) this = record this { schema = this.schema ++ value ∷ [] }
  set_credential (refresh_service value) this = record this {
    refresh_service = this.refresh_service ++ value ∷ [];
  }
  set_credential (terms_of_use value) this = record this {
    terms_of_use = this.terms_of_use ++ value ∷ [];
  }
  set_credential (evidence value) this = record this { evidence = this.evidence ++ value ∷ [] }
  set_credential (non_transferable value) this = record this { non_transferable = some value }

  -- the credential of a builder with an issuer
  unfoldable pub assemble : Time → CredentialBuilder Time O T → Issuer O → Credential Time O T
  assemble now builder by = record {
    context = from_vec builder.context;
    id = builder.id;
    types = from_vec builder.types;
    credential_subject = from_vec builder.subject;
    issuer = by;
    issuance_date = unwrap_or builder.issuance_date now;
    expiration_date = builder.expiration_date;
    credential_status = builder.status;
    credential_schema = from_vec builder.schema;
    refresh_service = from_vec builder.refresh_service;
    terms_of_use = from_vec builder.terms_of_use;
    evidence = from_vec builder.evidence;
    non_transferable = builder.non_transferable;
    properties = builder.properties;
    proof = none;
  }

  -- `Timestamp::default()` is the current time.
  unfoldable pub credential_from_builder :
      Time → CredentialBuilder Time O T → Outcome Error (Credential Time O T)
  credential_from_builder now builder = do
    by ← ok_or builder.issuer missing_issuer
    _ ← check_structure (assemble now builder by)
    ok (assemble now builder by)

pub record PresentationBuilder (Time O T U : Type 0) : Type 0 where
  pub context : List (Context O)
  pub id : Option Text
  pub types : List Text
  pub credentials : List (Credential Time O U)
  pub holder : Option Text
  pub refresh_service : List O
  pub terms_of_use : List O
  pub properties : T

pub data PresentationSetting (Time O U : Type 0) : Type 0 where
  context : Context O → PresentationSetting Time O U
  id type_ holder : Text → PresentationSetting Time O U
  credential : Credential Time O U → PresentationSetting Time O U
  refresh_service terms_of_use : O → PresentationSetting Time O U

module _ {Time O T U : Type 0} where
  unfoldable pub new_presentation : T → PresentationBuilder Time O T U
  new_presentation properties = record {
    context = base_context ∷ [];
    id = none;
    types = presentation_type ∷ [];
    credentials = [];
    holder = none;
    refresh_service = [];
    terms_of_use = [];
    properties = properties;
  }

  unfoldable pub set_presentation :
      PresentationSetting Time O U → PresentationBuilder Time O T U → PresentationBuilder Time O T U
  set_presentation (PresentationSetting.context value) this = record this {
    context = this.context ++ value ∷ [];
  }
  set_presentation (PresentationSetting.id value) this = record this { id = some value }
  set_presentation (PresentationSetting.type_ value) this = record this {
    types = this.types ++ value ∷ [];
  }
  set_presentation (credential value) this = record this {
    credentials = this.credentials ++ value ∷ [];
  }
  set_presentation (holder value) this = record this { holder = some value }
  set_presentation (PresentationSetting.refresh_service value) this = record this {
    refresh_service = this.refresh_service ++ value ∷ [];
  }
  set_presentation (PresentationSetting.terms_of_use value) this = record this {
    terms_of_use = this.terms_of_use ++ value ∷ [];
  }

  unfoldable pub assemble_presentation : PresentationBuilder Time O T U → Presentation Time O T U
  assemble_presentation builder = record {
    context = from_vec builder.context;
    id = builder.id;
    types = from_vec builder.types;
    verifiable_credential = from_vec builder.credentials;
    holder = builder.holder;
    refresh_service = from_vec builder.refresh_service;
    terms_of_use = from_vec builder.terms_of_use;
    properties = builder.properties;
    proof = none;
  }

  unfoldable pub presentation_from_builder :
      PresentationBuilder Time O T U → Outcome Error (Presentation Time O T U)
  presentation_from_builder builder =
      let this = assemble_presentation builder in check_presentation this >>= λ _. ok this
