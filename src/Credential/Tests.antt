-- ===== src/Credential/Tests.antt =====
-- Runs of the validation on a credential and a presentation.
use identity_rs.Core.OneOrMany
use identity_rs.Core.OneOrMany.{one, many, into_vec}
use identity_rs.Credential.Builder.{
  issuer, context, new_credential, set_credential, assemble, credential_from_builder,
  new_presentation, set_presentation, assemble_presentation, presentation_from_builder,
}
use identity_rs.Credential.Builder
use identity_rs.Credential.Builder.Builds.{set_all, credential_from_builder_iff}
use identity_rs.Credential.Data.{Credential, Issuer, missing_base_type}
use identity_rs.Credential.Presentation
use identity_rs.Credential.Presentation.{errors_or_default, criterion, validate_credentials}
use identity_rs.Credential.Presentation.Positions.{
  ReportsErrors, validate_credentials-ReportsErrors,
}
use identity_rs.Credential.Presentation.Trust.{IsHeld, AreTrusted, validate_iff}
use identity_rs.Credential.Samples.{
  holder_url, subject, degree, forged, presented, environment, document, options,
  presentation_options,
}
use identity_rs.Credential.Status.{new_status, get_property, try_from_status, index, status_url}
use identity_rs.Credential.Status.Decimal
use identity_rs.Credential.Status.Decimal.{u32_mod}
use identity_rs.Credential.Structure.{
  check_subjects, check_structure, check_credentials, check_presentation,
}
use identity_rs.Credential.Structure.Laws.{HasStructure, HasPresentationStructure, IsSubject}
use identity_rs.Credential.Validator
use identity_rs.Credential.Validator.{all_errors, first_error, validate_extended, always_subject}
use identity_rs.Credential.Validator.Trust.{IsTrusted, validate_extended_iff}
use identity_rs.Core.OneOrSet
use identity_rs.Credential.Validator.{check_status, strict, revoked}
use identity_rs.Credential.Validator.Documents.{core_document}
use identity_rs.Credential.Validator.Revoked.{HasBitmapStatus, revoke_credentials-check_status}
use identity_rs.Did.Query
use identity_rs.Did.Revocation
use identity_rs.Did.Revocation.{
  revoke_all, unrevoke_all, resolve_revocation_bitmap, revoke_credentials, unrevoke_credentials,
}
use identity_rs.Did.Revocation.Bitmap
use identity_rs.Did.Revocation.Bitmap.{is_revoked}
use identity_rs.Did.Revocation.Samples.{bitmaps, codec, endpoint, issuer_document}
use identity_rs.Did.Samples.{owner, as_str}
use identity_rs.Did.Url
use identity_rs.Did.Verify.{Verifiable}
use identity_rs.Prelude.{
  ℕ, ◌≡◌, ◌≢◌, ◌↔◌, refl, All, not, ◌||◌, none, some, [], ◌∷◌, any, nat_beq, ltb, guard, ok, err,
  text, arith,
}

program : Unit {0}
unfolding into_vec OneOrMany.len OneOrMany.is_empty OneOrMany.get check_subjects check_structure
    check_credentials check_presentation new_status get_property try_from_status index status_url
    Validator.collect_errors Validator.check_expires_on_or_after Validator.check_issued_on_or_before
    Validator.extract_issuer Validator.check_subject_holder_relationship Validator.find_issuer
    Validator.verify_signature Validator.check_revocation_bitmap_status Validator.check_supported
    Validator.check_status Validator.validation_units validate_extended Presentation.errors_at
    Presentation.extract_holder Presentation.check_structure
    Presentation.verify_presentation_signature
    Presentation.validate_presentation_without_credentials Presentation.credential_results
    validate_credentials Presentation.validate Decimal.from_str Decimal.to_string
    Decimal.print_digits Decimal.read_digits
program = tt

-- what the revocation in a document calls
revocation_program : Unit {0}
unfolding Revocation.update_first revoke_all unrevoke_all Revocation.try_from_service
    Revocation.update_service resolve_revocation_bitmap Revocation.update_revocation_bitmap
    revoke_credentials unrevoke_credentials is_revoked Bitmap.revoke Bitmap.unrevoke
    Bitmap.serialize_compressed_base64 Bitmap.deserialize_compressed_base64 Bitmap.to_endpoint
    Bitmap.from_endpoint OneOrSet.contains_key Query.cut Query.end_pos Query.did_str Query.fragment
    Query.matches Query.did_matches Query.query Url.get_fragment
revocation_program = tt

structures :
    (check_structure degree ≡ ok tt)
    × (check_structure forged ≡ err missing_base_type)
    × (check_presentation presented ≡ ok tt)
unfolding program
structures = (refl, refl, refl)

-- The structure and the issuer of the forged credential are reported, and in fast mode only the first.
validations :
    (validate_extended environment document degree (owner ∷ []) options none all_errors ≡ ok tt)
    × (validate_extended environment document forged (owner ∷ []) options none first_error
        ≡ err (Validator.credential_structure missing_base_type ∷ []))
    × (validate_extended environment document forged (owner ∷ []) options none all_errors
        ≡ err (
            Validator.credential_structure missing_base_type
            ∷ Validator.document_mismatch Validator.SignerContext.issuer
            ∷ Validator.document_mismatch Validator.SignerContext.issuer
            ∷ []))
    × (Presentation.validate environment document document presented holder_url
          (owner ∷ [])
          presentation_options
          first_error
        ≡ ok tt)
unfolding program
validations = (refl, refl, refl, refl)

validate_extended-iff_example :
    (validate_extended environment document degree
        (owner ∷ [])
        options
        (some (holder_url, always_subject))
        first_error
      ≡ ok tt)
    ↔ IsTrusted environment document degree (owner ∷ []) options (some (holder_url, always_subject))
validate_extended-iff_example =
    validate_extended_iff environment document degree (owner ∷ []) options
      (some (holder_url, always_subject)) first_error

validate-iff_example :
    (Presentation.validate environment document document presented holder_url
        (owner ∷ [])
        presentation_options
        first_error
      ≡ ok tt)
    ↔ ((HasPresentationStructure presented
          × IsHeld environment document presented holder_url
              presentation_options.presentation_verifier_options)
        × AreTrusted environment document presented (owner ∷ []) presentation_options)
validate-iff_example =
    validate_iff environment document document presented holder_url (owner ∷ [])
      presentation_options first_error

validate_credentials-ReportsErrors_example :
    ReportsErrors environment document presented ([]) presentation_options (
      errors_or_default
        (validate_credentials environment document presented ([]) presentation_options all_errors))
validate_credentials-ReportsErrors_example =
    validate_credentials-ReportsErrors environment document presented [] presentation_options

credential_from_builder-iff_example :
    ((built : Credential ℕ ℕ ℕ) × (credential_from_builder 20 (
          set_all set_credential
            (issuer (Issuer.url owner) ∷ Builder.subject subject ∷ [])
            (new_credential 0))
        ≡ ok built)
      × HasStructure built)
    ↔ ((by : Issuer ℕ) × (some (Issuer.url owner) ≡ some by)
        × ((subject ∷ [] ≢ []) × All IsSubject (subject ∷ [])))
unfolding set_credential new_credential
credential_from_builder-iff_example =
    credential_from_builder_iff 20 0 (issuer (Issuer.url owner) ∷ Builder.subject subject ∷ [])
      (set_all set_credential (issuer (Issuer.url owner) ∷ Builder.subject subject ∷ [])
        (new_credential 0))
      refl

-- a verifier that accepts what is signed
abbrev lib : Verifiable (Credential ℕ ℕ ℕ) ℕ ℕ
lib = record {
  signature = λ this. this.proof;
  try_decode = λ _. ok [];
  verify = λ this value key. ok tt;
  later = λ a b. ltb b a;
}

bitmap_status :
    HasBitmapStatus as_str lib codec bitmaps environment degree issuer_document
      (text "#revocation")
      7
bitmap_status = record {
  small = omega arith;
  url = text "#revocation";
  has_status = refl;
  located = refl;
  issued = refl;
}

revoke_credentials-check_status_example :
    check_status environment
      (core_document as_str lib codec bitmaps 20)
      degree
      ((revoke_credentials codec as_str bitmaps issuer_document (text "#revocation") (3 ∷ [])).0
        ∷ [])
      strict
    ≡ guard (not (any (λ j. nat_beq j 7) (3 ∷ []) || is_revoked bitmaps (7 ∷ []) 7)) revoked
unfolding revocation_program
revoke_credentials-check_status_example =
    revoke_credentials-check_status as_str lib codec bitmaps environment degree issuer_document
      (text "#revocation") 7 (3 ∷ []) (7 ∷ []) (endpoint (3 ∷ 7 ∷ [])) bitmap_status refl refl
