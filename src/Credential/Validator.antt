-- ===== src/Credential/Validator.antt =====
-- identity_credential/src/validator: credential_validator.rs, validation_options.rs, errors.rs and
-- validator_document.rs. The clock and the order of times are arguments, and so is the parse of DIDs
-- and DID URLs.
pub mod Accepts
pub mod Trust
pub mod Documents
pub mod Revoked
use identity_rs.Core.OneOrMany.{OneOrMany, one, many}
use identity_rs.Credential.Data
use identity_rs.Credential.Data.{
  Credential, Subject, Status, StatusError, unsupported_type, issuer_url,
}
use identity_rs.Credential.Status.{type_name, try_from_status, index, status_url}
use identity_rs.Credential.Structure.{check_structure}
use identity_rs.Did.Verify.{VerifierOptions}
use identity_rs.Prelude.{
  ℕ, ◌≡◌, Bool, true, false, not, ◌&&◌, ◌||◌, Option, none, some, List, [], ◌∷◌, ◌==◌, find, take,
  unwrap_or, if◌then◌else◌, nat_eq, list_eq, Outcome, ok, err, ◌>>=◌, guard, ok_or, map_err, Text,
}

pub data SignerContext : Type 0 where
  issuer holder : SignerContext

-- `E` is the error of documents and of the parsers.
pub data ValidationError (E : Type 0) : Type 0 where
  expiration_date issuance_date subject_holder_relationship missing_presentation_holder revoked :
      ValidationError E
  signature : E → SignerContext → ValidationError E
  signer_url : E → SignerContext → ValidationError E
  document_mismatch : SignerContext → ValidationError E
  credential_structure : Data.Error → ValidationError E
  presentation_structure : Data.Error → ValidationError E
  invalid_status : StatusError → ValidationError E
  invalid_service : E → ValidationError E

pub data StatusCheck : Type 0 where
  strict skip_unsupported skip_all : StatusCheck

pub data SubjectHolderRelationship : Type 0 where
  always_subject subject_on_non_transferable any : SubjectHolderRelationship

pub data FailFast : Type 0 where
  all_errors first_error : FailFast

pub record CredentialValidationOptions (Time : Type 0) : Type 0 where
  pub earliest_expiry_date : Option Time
  pub latest_issuance_date : Option Time
  pub status : StatusCheck
  pub verifier_options : VerifierOptions

-- `ValidatorDocument`, for data `X`: what the validators ask of a DID document. The index is looked
-- up in the bitmap that the query leads to.
pub record ValidatorDocument (Doc X E : Type 0) : Type 0 where
  pub did_str : Doc → Text
  pub verify_data : Doc → X → VerifierOptions → Outcome E (Unit {0})
  pub resolve_revocation_bitmap : Doc → Text → Outcome E (ℕ → Bool)

-- the time, and the libraries that parse: the text of the DID that a text writes, and of a DID URL
pub record Environment (Time E : Type 0) : Type 0 where
  pub now : Time
  pub le : Time → Time → Bool
  pub parse_did : Text → Outcome E Text
  pub parse_url : Text → Option Text

-- `result.err()` for each result
abbrev pub errors {ℓ κ} : {E : Type κ} {A : Type ℓ} → List (Outcome E A) → List E
errors [] = []
errors (ok _ ∷ results) = errors results
errors (err e ∷ results) = e ∷ errors results

-- `match fail_fast { FirstError => iter.take(1).collect(), AllErrors => iter.collect() }`
unfoldable pub collect_errors {ℓ κ} :
    {E : Type κ} {A : Type ℓ} → FailFast → List (Outcome E A) → List E
collect_errors first_error results = take 1 (errors results)
collect_errors all_errors results = errors results

-- `if errors.is_empty() { Ok(()) } else { Err(…) }`
abbrev pub no_errors {ℓ} : {E : Type ℓ} → List E → Outcome (List E) (Unit {0})
no_errors [] = ok tt
no_errors (e ∷ es) = err (e ∷ es)

-- `credential_subject.id.as_ref() == Some(holder)`
abbrev pub is_holder : {O : Type 0} → Text → Subject O → Bool
is_holder holder_url subject = elim subject.id [ none ↦ false | some id ↦ id == holder_url ]

abbrev pub url_matches : {O : Type 0} → Text → OneOrMany (Subject O) → Bool
url_matches holder_url (one subject) = is_holder holder_url subject
url_matches holder_url (many (subject ∷ [])) = is_holder holder_url subject
url_matches holder_url (many []) = false
url_matches holder_url (many (_ ∷ _ ∷ _)) = false

abbrev pub relationship_holds : SubjectHolderRelationship → Bool → Option Bool → Bool
relationship_holds always_subject matches non_transferable = matches
relationship_holds subject_on_non_transferable matches non_transferable =
    matches || not (unwrap_or non_transferable false)
relationship_holds any matches non_transferable = true

abbrev pub expires_after : {Time : Type 0} → (Time → Time → Bool) → Option Time → Time → Bool
expires_after le none timestamp = true
expires_after le (some expires) timestamp = le timestamp expires

module _ {E Time O T : Type 0} (env : Environment Time E) where
  unfoldable pub check_expires_on_or_after :
      Credential Time O T → Time → Outcome (ValidationError E) (Unit {0})
  check_expires_on_or_after credential timestamp =
      guard (expires_after env.le credential.expiration_date timestamp) expiration_date

  unfoldable pub check_issued_on_or_before :
      Credential Time O T → Time → Outcome (ValidationError E) (Unit {0})
  check_issued_on_or_before credential timestamp =
      guard (env.le credential.issuance_date timestamp) issuance_date

  unfoldable pub extract_issuer : Credential Time O T → Outcome (ValidationError E) Text
  extract_issuer credential =
      map_err (λ e. signer_url e issuer) (env.parse_did (issuer_url credential.issuer))

  unfoldable pub check_subject_holder_relationship :
      Credential Time O T
      → Text
      → SubjectHolderRelationship
      → Outcome (ValidationError E) (Unit {0})
  check_subject_holder_relationship credential holder_url relationship =
      guard
        (relationship_holds relationship (url_matches holder_url credential.credential_subject)
          credential.non_transferable)
        subject_holder_relationship

  module _ {Doc : Type 0} (document : ValidatorDocument Doc (Credential Time O T) E) where
    -- the document of the issuer among those that are trusted
    unfoldable pub find_issuer : List Doc → Text → Outcome (ValidationError E) Doc
    find_issuer trusted_issuers issuer_did =
        ok_or (find (λ doc. document.did_str doc == issuer_did) trusted_issuers)
          (document_mismatch issuer)

    unfoldable pub verify_signature :
        Credential Time O T → List Doc → VerifierOptions → Outcome (ValidationError E) (Unit {0})
    verify_signature credential trusted_issuers options = do
      issuer_did ← extract_issuer credential
      doc ← find_issuer trusted_issuers issuer_did
      map_err (λ e. signature e issuer) (document.verify_data doc credential options)

    unfoldable pub check_revocation_bitmap_status :
        Doc → Status O → Outcome (ValidationError E) (Unit {0})
    check_revocation_bitmap_status doc status = do
      url ← map_err invalid_status (status_url env.parse_url status)
      is_revoked ← map_err invalid_service (document.resolve_revocation_bitmap doc url)
      i ← map_err invalid_status (index status)
      guard (not (is_revoked i)) revoked

    abbrev pub unsupported : StatusCheck → Outcome (ValidationError E) (Unit {0})
    unsupported skip_unsupported = ok tt
    unsupported skip_all = err (invalid_status unsupported_type)
    unsupported strict = err (invalid_status unsupported_type)

    unfoldable pub check_supported :
        Credential Time O T → List Doc → Status O → Outcome (ValidationError E) (Unit {0})
    check_supported credential trusted_issuers status = do
      status ← map_err invalid_status (try_from_status status)
      issuer_did ← extract_issuer credential
      doc ← find_issuer trusted_issuers issuer_did
      check_revocation_bitmap_status doc status

    abbrev pub check_some_status :
        Credential Time O T
        → List Doc
        → StatusCheck
        → Option (Status O)
        → Outcome (ValidationError E) (Unit {0})
    check_some_status credential trusted_issuers status_check none = ok tt
    check_some_status credential trusted_issuers status_check (some status) =
        if status.type_ == type_name
        then check_supported credential trusted_issuers status
        else unsupported status_check

    unfoldable pub check_status :
        Credential Time O T → List Doc → StatusCheck → Outcome (ValidationError E) (Unit {0})
    check_status credential trusted_issuers skip_all = ok tt
    check_status credential trusted_issuers strict =
        check_some_status credential trusted_issuers strict credential.credential_status
    check_status credential trusted_issuers skip_unsupported =
        check_some_status credential trusted_issuers skip_unsupported credential.credential_status

    abbrev pub check_relationship :
        Credential Time O T
        → Option (Text × SubjectHolderRelationship)
        → Outcome (ValidationError E) (Unit {0})
    check_relationship credential none = ok tt
    check_relationship credential (some (holder_url, relationship)) =
        check_subject_holder_relationship credential holder_url relationship

    -- The checks in the order in which their errors are collected.
    unfoldable pub validation_units :
        Credential Time O T
        → List Doc
        → CredentialValidationOptions Time
        → Option (Text × SubjectHolderRelationship)
        → List (Outcome (ValidationError E) (Unit {0}))
    validation_units credential issuers options relationship_criterion =
        check_issued_on_or_before credential (unwrap_or options.latest_issuance_date env.now)
        ∷ check_expires_on_or_after credential (unwrap_or options.earliest_expiry_date env.now)
        ∷ map_err credential_structure (check_structure credential)
        ∷ check_relationship credential relationship_criterion
        ∷ verify_signature credential issuers options.verifier_options
        ∷ check_status credential issuers options.status
        ∷ []

    unfoldable pub validate_extended :
        Credential Time O T
        → List Doc
        → CredentialValidationOptions Time
        → Option (Text × SubjectHolderRelationship)
        → FailFast
        → Outcome (List (ValidationError E)) (Unit {0})
    validate_extended credential issuers options relationship_criterion fail_fast = no_errors (
        collect_errors fail_fast
          (validation_units credential issuers options relationship_criterion))

    unfoldable pub validate :
        Credential Time O T
        → Doc
        → CredentialValidationOptions Time
        → FailFast
        → Outcome (List (ValidationError E)) (Unit {0})
    validate credential doc options fail_fast =
        validate_extended credential (doc ∷ []) options none fail_fast
