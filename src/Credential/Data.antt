-- ===== src/Credential/Data.antt =====
-- identity_credential/src: credential/{credential,issuer,subject,status}.rs,
-- presentation/presentation.rs and error.rs. JSON values other than texts are opaque.
use identity_rs.Core.OneOrMany.{OneOrMany}
use identity_rs.Core.Proof.{Proof}
use identity_rs.Prelude.{Bool, Option, List, Text, text}

pub data Value (O : Type 0) : Type 0 where
  string : Text → Value O
  other : O → Value O

-- `Object`: a map from texts, as the list of its entries
abbrev pub Object : Type 0 → Type 0
Object O = List (Text × Value O)

pub data Context (O : Type 0) : Type 0 where
  url : Text → Context O
  obj : O → Context O

pub record Subject (O : Type 0) : Type 0 where
  pub id : Option Text
  pub properties : Object O

pub data Issuer (O : Type 0) : Type 0 where
  url : Text → Issuer O
  obj : Text → Object O → Issuer O

abbrev pub issuer_url : {O : Type 0} → Issuer O → Text
issuer_url (Issuer.url u) = u
issuer_url (Issuer.obj id _) = id

pub record Status (O : Type 0) : Type 0 where
  pub id : Text
  pub type_ : Text
  pub properties : Object O

-- Schemas, refresh services, policies and evidence are opaque, as JSON values are; `T` is the type
-- of the properties, and `Time` that of timestamps.
pub record Credential (Time O T : Type 0) : Type 0 where
  pub context : OneOrMany (Context O)
  pub id : Option Text
  pub types : OneOrMany Text
  pub credential_subject : OneOrMany (Subject O)
  pub issuer : Issuer O
  pub issuance_date : Time
  pub expiration_date : Option Time
  pub credential_status : Option (Status O)
  pub credential_schema : OneOrMany O
  pub refresh_service : OneOrMany O
  pub terms_of_use : OneOrMany O
  pub evidence : OneOrMany O
  pub non_transferable : Option Bool
  pub properties : T
  pub proof : Option (Proof Time)

pub record Presentation (Time O T U : Type 0) : Type 0 where
  pub context : OneOrMany (Context O)
  pub id : Option Text
  pub types : OneOrMany Text
  pub verifiable_credential : OneOrMany (Credential Time O U)
  pub holder : Option Text
  pub refresh_service : OneOrMany O
  pub terms_of_use : OneOrMany O
  pub properties : T
  pub proof : Option (Proof Time)

pub data StatusError : Type 0 where
  unsupported_type unexpected_type missing_index invalid_url index_not_u32 index_not_string :
      StatusError

pub data Error : Type 0 where
  missing_base_context missing_base_type missing_issuer missing_subject invalid_subject : Error
  invalid_status : StatusError → Error

abbrev pub base_url : Text
base_url = text "https://www.w3.org/2018/credentials/v1"

abbrev pub base_context : {O : Type 0} → Context O
base_context = Context.url base_url

abbrev pub credential_type : Text
credential_type = text "VerifiableCredential"

abbrev pub presentation_type : Text
presentation_type = text "VerifiablePresentation"
