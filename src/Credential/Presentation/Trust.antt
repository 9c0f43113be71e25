-- ===== src/Credential/Presentation/Trust.antt =====
-- The presentations that the validation accepts.
use identity_rs.Core.OneOrMany.{into_vec}
use identity_rs.Credential.Data.{Credential, Presentation}
use identity_rs.Credential.Presentation.{
  PresentationValidationOptions, errors_at, errors_or_default, criterion, compound_result,
  unless_failed, extract_holder, check_structure, verify_presentation_signature,
  validate_presentation_without_credentials, credential_results, validate_credentials, validate,
}
use identity_rs.Credential.Presentation.Positions.{all_errors_value, errors_or_default-no_errors}
use identity_rs.Credential.Structure.Laws.{HasPresentationStructure, check_presentation_iff}
use identity_rs.Credential.Validator.{
  ValidationError, FailFast, first_error, all_errors, ValidatorDocument, Environment, no_errors,
}
use identity_rs.Credential.Validator.Accepts.{no_errors_iff}
use identity_rs.Credential.Validator.Trust.{IsTrusted, validate_extended_iff}
use identity_rs.Did.Verify.{VerifierOptions}
use identity_rs.Prelude.{
  ℕ, suc, ◌≡◌, ◌↔◌, refl, subst, sym, All, some, List, [], ◌∷◌, take, map, Outcome, ok, err,
  guard_iff, check_iff, bind_iff, map_err_iff, ok_or, ok_or_iff, iff_trans, iff_and, Text, nat_eq,
  list_eq, arith,
}

compound_iff :
    {E : Type 0} (ps : List (ValidationError E)) (es : List (ℕ × List (ValidationError E)))
    → (compound_result {A = Unit {0}} ps es tt ≡ ok tt) ↔ ((ps ≡ []) × (es ≡ []))
compound_iff [] [] = (λ h. (refl, refl), λ h. refl)
compound_iff [] (e ∷ es) = (λ h. cc, λ h. absurd (ground (arith, h.1)))
compound_iff (p ∷ ps) es = (λ h. cc, λ h. absurd (ground (arith, h.0)))

default-nil_iff {ℓ} :
    {A : Type ℓ} (es : List A) → (errors_or_default (no_errors es) ≡ []) ↔ (no_errors es ≡ ok tt)
default-nil_iff [] = (λ h. refl, λ h. refl)
default-nil_iff (e ∷ es) = (λ h. cc, λ h. cc)

unless_failed_iff {ℓ κ} :
    {A : Type ℓ} {B : Type κ} (earlier : List A) (bs : List B)
    → ((earlier ≡ []) × (unless_failed earlier bs ≡ [])) ↔ ((earlier ≡ []) × (bs ≡ []))
unless_failed_iff [] bs = (λ h. h, λ h. h)
unless_failed_iff (a ∷ rest) bs =
    (λ h. absurd (ground (arith, h.0)), λ h. absurd (ground (arith, h.0)))

-- No error is recorded when all results are good.
errors_at-nil_iff :
    {E : Type 0} (position : ℕ) (results : List (Outcome E (Unit {0})))
    → (errors_at position results ≡ []) ↔ All (λ r. r ≡ ok tt) results
unfolding errors_at
errors_at-nil_iff position [] = (λ h. tt, λ h. refl)
errors_at-nil_iff position (ok tt ∷ results) = (
  λ h. (refl, (errors_at-nil_iff (suc position) results).0 h),
  λ h. (errors_at-nil_iff (suc position) results).1 h.1,
)
errors_at-nil_iff position (err e ∷ results) = (λ h. cc, λ h. absurd (ground (arith, h.0)))

take-suc-nil_iff {ℓ} : {A : Type ℓ} (n : ℕ) (xs : List A) → (take (suc n) xs ≡ []) ↔ (xs ≡ [])
take-suc-nil_iff n [] = (λ h. refl, λ h. refl)
take-suc-nil_iff n (x ∷ xs) = (λ h. cc, λ h. cc)

All-map_iff {ℓ κ μ ν} :
    {A : Type ℓ} {B : Type κ} (P : B → Type μ) (Q : A → Type ν) (f : A → B)
    → ((x : A) → P (f x) ↔ Q x)
    → (xs : List A) → All P (map f xs) ↔ All Q xs
All-map_iff P Q f h [] = (λ _. tt, λ _. tt)
All-map_iff P Q f h (x ∷ xs) = iff_and (h x) (All-map_iff P Q f h xs)

module _ {E Time O T U HDoc : Type 0} (env : Environment Time E)
    (holder_document : ValidatorDocument HDoc (Presentation Time O T U) E) where
  -- the holder's document is the one of the presentation's holder, and verifies the presentation
  pub record IsHeld (presentation : Presentation Time O T U) (holder : HDoc)
      (options : VerifierOptions) : Type 0 where
    pub url : Text
    pub named : presentation.holder ≡ some url
    pub parsed : env.parse_did url ≡ ok (holder_document.did_str holder)
    pub signed : holder_document.verify_data holder presentation options ≡ ok tt

  IsHeld-iff :
      (presentation : Presentation Time O T U) (holder : HDoc) (options : VerifierOptions)
      → (verify_presentation_signature env holder_document presentation holder options ≡ ok tt)
        ↔ IsHeld presentation holder options
  unfolding verify_presentation_signature extract_holder
  IsHeld-iff presentation holder options =
      iff_trans (bind_iff (extract_holder env presentation) _ tt) (
        λ h.
            let read = (bind_iff (ok_or presentation.holder _) _ h.0).0 h.1 in
            let checked = (check_iff _ _).0 h.2 in
            let same : h.0 ≡ holder_document.did_str holder =
              (list_eq.beq_iff h.0 _).0 ((guard_iff _ _).0 checked.0) in
            record {
              url = read.0;
              named = (ok_or_iff _ _ read.0).0 read.1;
              parsed =
                  subst (λ d. env.parse_did read.0 ≡ ok d) same ((map_err_iff _ _ h.0).0 read.2);
              signed = (map_err_iff _ _ tt).0 checked.1;
            },
        λ h.
            let did = holder_document.did_str holder in
            (
              did,
              (bind_iff (ok_or presentation.holder _) _ did).1
                  (h.url, (ok_or_iff _ _ h.url).1 h.named, (map_err_iff _ _ did).1 h.parsed),
              (check_iff _ _).1 (
                (guard_iff _ _).1 ((list_eq.beq_iff did did).1 refl),
                (map_err_iff _ _ tt).1 h.signed,
              ),
            ),
      )

  presentation_iff :
      (presentation : Presentation Time O T U) (holder : HDoc)
      (options : PresentationValidationOptions Time) (fail_fast : FailFast)
      → (errors_or_default (
            validate_presentation_without_credentials env holder_document presentation holder
              options fail_fast)
          ≡ [])
        ↔ (HasPresentationStructure presentation
            × IsHeld presentation holder options.presentation_verifier_options)
  unfolding validate_presentation_without_credentials check_structure
  presentation_iff presentation holder options fail_fast = iff_trans (default-nil_iff _) (
      iff_trans (no_errors_iff fail_fast _) (
        iff_trans
          (iff_and (iff_trans (map_err_iff _ _ tt) (check_presentation_iff presentation)) (
            iff_and (IsHeld-iff presentation holder options.presentation_verifier_options)
              (λ t. t, λ t. t)))
          (λ h. (h.0, h.1.0), λ h. (h.0, (h.1, tt)))))

module _ {E Time O T U IDoc : Type 0} (env : Environment Time E)
    (document : ValidatorDocument IDoc (Credential Time O U) E) where
  pub AreTrusted : Presentation Time O T U → List IDoc → PresentationValidationOptions Time → Type 0
  AreTrusted presentation issuers options =
      All
        (λ credential.
          IsTrusted env document credential issuers options.shared_validation_options
            (criterion presentation.holder options.subject_holder_relationship))
        (into_vec presentation.verifiable_credential)

  results_iff :
      (presentation : Presentation Time O T U) (issuers : List IDoc)
      (options : PresentationValidationOptions Time) (fail_fast : FailFast)
      → All
          (λ r. r ≡ ok tt)
          (credential_results env document presentation issuers options fail_fast)
        ↔ AreTrusted presentation issuers options
  unfolding credential_results AreTrusted
  results_iff presentation issuers options fail_fast =
      All-map_iff (λ r. r ≡ ok tt) _ _
        (λ credential.
          validate_extended_iff env document credential issuers options.shared_validation_options
            (criterion presentation.holder options.subject_holder_relationship) fail_fast)
        (into_vec presentation.verifiable_credential)

  first_error_value :
      (presentation : Presentation Time O T U) (issuers : List IDoc)
      (options : PresentationValidationOptions Time)
      → errors_or_default
          (validate_credentials env document presentation issuers options first_error)
        ≡ take 1
            (errors_at 0 (credential_results env document presentation issuers options first_error))
  unfolding validate_credentials
  first_error_value presentation issuers options = errors_or_default-no_errors _

  credentials_iff :
      (fail_fast : FailFast) (presentation : Presentation Time O T U) (issuers : List IDoc)
      (options : PresentationValidationOptions Time)
      → (errors_or_default
            (validate_credentials env document presentation issuers options fail_fast)
          ≡ [])
        ↔ AreTrusted presentation issuers options
  credentials_iff all_errors presentation issuers options =
      subst (λ es. (es ≡ []) ↔ AreTrusted presentation issuers options)
        (sym (all_errors_value env document presentation issuers options))
        (iff_trans (errors_at-nil_iff 0 _) (results_iff presentation issuers options all_errors))
  credentials_iff first_error presentation issuers options =
      subst (λ es. (es ≡ []) ↔ AreTrusted presentation issuers options)
        (sym (first_error_value presentation issuers options))
        (iff_trans (take-suc-nil_iff 0 _) (
          iff_trans (errors_at-nil_iff 0 _) (results_iff presentation issuers options first_error)))

  module _ {HDoc : Type 0}
      (holder_document : ValidatorDocument HDoc (Presentation Time O T U) E) where
    -- Whether the validation stops at the first error or collects them all, it accepts a presentation
    -- exactly when the presentation has its structure, the given document is the holder's and verifies
    -- the presentation, and each credential is accepted by itself against the wanted relation to the
    -- holder.
    pub validate_iff :
        (presentation : Presentation Time O T U) (holder : HDoc) (issuers : List IDoc)
        (options : PresentationValidationOptions Time) (fail_fast : FailFast)
        → (validate env document holder_document presentation holder issuers options fail_fast
            ≡ ok tt)
          ↔ ((HasPresentationStructure presentation
                × IsHeld env holder_document presentation holder
                    options.presentation_verifier_options)
              × AreTrusted presentation issuers options)
    unfolding validate
    validate_iff presentation holder issuers options all_errors = iff_trans (compound_iff _ _) (
        iff_and (presentation_iff env holder_document presentation holder options all_errors)
          (credentials_iff all_errors presentation issuers options))
    validate_iff presentation holder issuers options first_error = iff_trans (compound_iff _ _) (
        iff_trans (unless_failed_iff _ _) (
          iff_and (presentation_iff env holder_document presentation holder options first_error)
            (credentials_iff first_error presentation issuers options)))
