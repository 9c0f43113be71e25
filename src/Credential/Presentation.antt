-- ===== src/Credential/Presentation.antt =====
-- identity_credential/src/validator: presentation_validator.rs, with its options and errors.
pub mod Trust
pub mod Positions
use identity_rs.Core.OneOrMany.{into_vec, len}
use identity_rs.Credential.Data.{Credential, Presentation}
use identity_rs.Credential.Structure.{check_presentation}
use identity_rs.Credential.Validator.{
  SignerContext, issuer, ValidationError, missing_presentation_holder, signature, signer_url,
  document_mismatch, presentation_structure, FailFast, first_error, all_errors,
  CredentialValidationOptions, ValidatorDocument, Environment, SubjectHolderRelationship,
  collect_errors, no_errors, validate_extended,
}
use identity_rs.Did.Verify.{VerifierOptions}
use identity_rs.Prelude.{
  ℕ, suc, ◌≡◌, Bool, true, false, Option, none, some, List, [], ◌∷◌, ◌==◌, take, map, nat_eq,
  list_eq, Outcome, ok, err, ◌>>=◌, guard, ok_or, map_err, Text,
}

pub record PresentationValidationOptions (Time : Type 0) : Type 0 where
  pub shared_validation_options : CredentialValidationOptions Time
  pub presentation_verifier_options : VerifierOptions
  pub subject_holder_relationship : SubjectHolderRelationship

-- The map from positions to errors is the list of its entries, by ascending position.
pub record CompoundPresentationValidationError (E : Type 0) : Type 0 where
  pub presentation_validation_errors : List (ValidationError E)
  pub credential_errors : List (ℕ × List (ValidationError E))

-- `result.err().unwrap_or_default()`
abbrev pub errors_or_default {ℓ κ} : {E : Type κ} {A : Type ℓ} → Outcome (List E) A → List E
errors_or_default (ok _) = []
errors_or_default (err es) = es

-- `results.enumerate().filter_map(|(position, result)| result.err().map(|error| (position, error)))`
unfoldable pub errors_at {ℓ κ} : {E : Type κ} {A : Type ℓ} → ℕ → List (Outcome E A) → List (ℕ × E)
errors_at position [] = []
errors_at position (ok _ ∷ results) = errors_at (suc position) results
errors_at position (err e ∷ results) = (position, e) ∷ errors_at (suc position) results

-- how many errors of credentials are taken
abbrev pub errors_limit : FailFast → ℕ → ℕ
errors_limit first_error number_of_credentials = 1
errors_limit all_errors number_of_credentials = number_of_credentials

-- `holder_url` with the wanted relationship
abbrev pub criterion :
    Option Text → SubjectHolderRelationship → Option (Text × SubjectHolderRelationship)
criterion none relationship = none
criterion (some holder_url) relationship = some (holder_url, relationship)

abbrev pub compound_result {ℓ} :
    {E : Type 0} {A : Type ℓ}
    → List (ValidationError E)
    → List (ℕ × List (ValidationError E))
    → A
    → Outcome (CompoundPresentationValidationError E) A
compound_result [] [] a = ok a
compound_result [] (e ∷ es) a =
    err (record { presentation_validation_errors = []; credential_errors = e ∷ es })
compound_result (p ∷ ps) es a =
    err (record { presentation_validation_errors = p ∷ ps; credential_errors = es })

-- `if presentation_validation_errors.is_empty() { … } else { BTreeMap::default() }`
abbrev pub unless_failed {ℓ κ} : {A : Type ℓ} {B : Type κ} → List A → List B → List B
unless_failed [] bs = bs
unless_failed (_ ∷ _) bs = []

module _ {E Time O T U : Type 0} (env : Environment Time E) where
  unfoldable pub extract_holder : Presentation Time O T U → Outcome (ValidationError E) Text
  extract_holder presentation = do
    holder ← ok_or presentation.holder missing_presentation_holder
    map_err (λ e. signer_url e issuer) (env.parse_did holder)

  unfoldable pub check_structure : Presentation Time O T U → Outcome (ValidationError E) (Unit {0})
  check_structure presentation = map_err presentation_structure (check_presentation presentation)

  module _ {HDoc : Type 0}
      (holder_document : ValidatorDocument HDoc (Presentation Time O T U) E) where
    unfoldable pub verify_presentation_signature :
        Presentation Time O T U → HDoc → VerifierOptions → Outcome (ValidationError E) (Unit {0})
    verify_presentation_signature presentation holder options = do
      did ← extract_holder presentation
      _ ← guard (did == holder_document.did_str holder) (document_mismatch SignerContext.holder)
      map_err (λ e. signature e SignerContext.holder)
          (holder_document.verify_data holder presentation options)

    unfoldable pub validate_presentation_without_credentials :
        Presentation Time O T U
        → HDoc
        → PresentationValidationOptions Time
        → FailFast
        → Outcome (List (ValidationError E)) (Unit {0})
    validate_presentation_without_credentials presentation holder options fail_fast = no_errors (
        collect_errors fail_fast (
          check_structure presentation
          ∷ verify_presentation_signature presentation holder options.presentation_verifier_options
          ∷ []))

  module _ {IDoc : Type 0} (document : ValidatorDocument IDoc (Credential Time O U) E) where
    unfoldable pub credential_results :
        Presentation Time O T U
        → List IDoc
        → PresentationValidationOptions Time
        → FailFast
        → List (Outcome (List (ValidationError E)) (Unit {0}))
    credential_results presentation issuers options fail_fast =
        map
          (λ credential.
            validate_extended env document credential issuers options.shared_validation_options
              (criterion presentation.holder options.subject_holder_relationship) fail_fast)
          (into_vec presentation.verifiable_credential)

    unfoldable pub validate_credentials :
        Presentation Time O T U
        → List IDoc
        → PresentationValidationOptions Time
        → FailFast
        → Outcome (List (ℕ × List (ValidationError E))) (Unit {0})
    validate_credentials presentation issuers options fail_fast = no_errors (
        take (errors_limit fail_fast (len presentation.verifiable_credential))
          (errors_at 0 (credential_results presentation issuers options fail_fast)))

    module _ {HDoc : Type 0}
        (holder_document : ValidatorDocument HDoc (Presentation Time O T U) E) where
      unfoldable pub validate :
          Presentation Time O T U
          → HDoc
          → List IDoc
          → PresentationValidationOptions Time
          → FailFast
          → Outcome (CompoundPresentationValidationError E) (Unit {0})
      validate presentation holder issuers options all_errors =
          compound_result
            (errors_or_default (
              validate_presentation_without_credentials holder_document presentation holder options
                all_errors))
            (errors_or_default (validate_credentials presentation issuers options all_errors)) tt
      validate presentation holder issuers options first_error =
          let presentation_validation_errors = errors_or_default (
            validate_presentation_without_credentials holder_document presentation holder options
              first_error) in
          compound_result presentation_validation_errors
            (unless_failed presentation_validation_errors
              (errors_or_default (validate_credentials presentation issuers options first_error)))
            tt
