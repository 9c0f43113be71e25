-- ===== src/Credential/Samples.antt =====
-- A credential and a presentation for the tests. Times are numbers, and every text is its own parse.
use identity_rs.Core.OneOrMany.{one, many}
use identity_rs.Credential.Data.{
  Credential, Presentation, Subject, Issuer, base_context, credential_type, presentation_type,
}
use identity_rs.Credential.Presentation.{PresentationValidationOptions}
use identity_rs.Credential.Status.{new_status}
use identity_rs.Credential.Validator.{
  CredentialValidationOptions, ValidatorDocument, Environment, strict, always_subject,
}
use identity_rs.Did.Samples.{owner}
use identity_rs.Did.Signing.Verifies.{plain_options}
use identity_rs.Prelude.{ℕ, true, none, some, [], ◌∷◌, leb, nat_beq, ok, Text, text}

abbrev pub holder_url : Text
holder_url = text "did:example:holder"

abbrev pub subject : Subject ℕ
subject = record { id = some holder_url; properties = [] }

-- issued at 10, until 30, with index 7
abbrev pub degree : Credential ℕ ℕ ℕ
degree = record {
  context = one base_context;
  id = none;
  types = many (text "Degree" ∷ credential_type ∷ []);
  credential_subject = one subject;
  issuer = Issuer.url owner;
  issuance_date = 10;
  expiration_date = some 30;
  credential_status = some (new_status (text "#revocation") 7);
  credential_schema = many [];
  refresh_service = many [];
  terms_of_use = many [];
  evidence = many [];
  non_transferable = none;
  properties = 0;
  proof = none;
}

-- without its type, and from an issuer that is not trusted
abbrev pub forged : Credential ℕ ℕ ℕ
forged = record degree {
  types = one (text "Degree");
  issuer = Issuer.url (text "did:example:nobody");
}

abbrev pub presented : Presentation ℕ ℕ ℕ ℕ
presented = record {
  context = one base_context;
  id = none;
  types = one presentation_type;
  verifiable_credential = many (degree ∷ record degree { non_transferable = some true } ∷ []);
  holder = some holder_url;
  refresh_service = many [];
  terms_of_use = many [];
  properties = 0;
  proof = none;
}

-- the time is 20
abbrev pub environment : {E : Type 0} → Environment ℕ E
environment = record { now = 20; le = leb; parse_did = ok; parse_url = some }

-- A document that is its DID verifies all data, and has revoked the index 5.
abbrev pub document : {X : Type 0} → ValidatorDocument Text X ℕ
document = record {
  did_str = λ doc. doc;
  verify_data = λ doc this options. ok tt;
  resolve_revocation_bitmap = λ doc url. ok (λ i. nat_beq i 5);
}

abbrev pub options : CredentialValidationOptions ℕ
options = record {
  earliest_expiry_date = none;
  latest_issuance_date = none;
  status = strict;
  verifier_options = plain_options;
}

abbrev pub presentation_options : PresentationValidationOptions ℕ
presentation_options = record {
  shared_validation_options = options;
  presentation_verifier_options = plain_options;
  subject_holder_relationship = always_subject;
}
