-- ===== src/Credential/Presentation/Positions.antt =====
-- The positions of the credentials with errors.
use identity_rs.Core.OneOrMany.{into_vec, len}
use identity_rs.Core.OneOrMany.Laws.{len-eq-length}
use identity_rs.Credential.Data.{Credential, Presentation}
use identity_rs.Credential.Presentation.{
  PresentationValidationOptions, errors_at, errors_or_default, criterion, credential_results,
  validate_credentials,
}
use identity_rs.Credential.Structure.Laws.{Among}
use identity_rs.Credential.Validator.{
  ValidationError, FailFast, all_errors, ValidatorDocument, Environment, no_errors,
  validate_extended,
}
use identity_rs.Prelude.{
  ℕ, zero, suc, ◌+◌, ◌≤◌, ◌≡◌, ◌↔◌, inl, inr, refl, ap, subst, sym, some, List, [], ◌∷◌, take, map,
  length, get_elem?, Outcome, ok, err, arith, iff_trans,
}

-- Each position is at least the bound, and greater than the one before it.
abbrev pub IsAscending {ℓ} : {A : Type ℓ} → ℕ → List (ℕ × A) → Type 0
IsAscending bound [] = Unit
IsAscending bound ((position, _) ∷ entries) =
    (bound ≤ position) × IsAscending (suc position) entries

IsAscending-weaken {ℓ} :
    {A : Type ℓ} (m n : ℕ) (entries : List (ℕ × A))
    → m ≤ n
    → IsAscending n entries
    → IsAscending m entries
IsAscending-weaken m n [] h a = tt
IsAscending-weaken m n ((position, x) ∷ entries) h a = (omega (arith, a.0), a.1)

errors_at-IsAscending {ℓ κ} :
    {E : Type κ} {A : Type ℓ} (position : ℕ) (results : List (Outcome E A))
    → IsAscending position (errors_at position results)
unfolding errors_at
errors_at-IsAscending position [] = tt
errors_at-IsAscending position (ok a ∷ results) =
    IsAscending-weaken position (suc position) (errors_at (suc position) results) (omega arith)
      (errors_at-IsAscending (suc position) results)
errors_at-IsAscending position (err e ∷ results) =
    (omega arith, errors_at-IsAscending (suc position) results)

Among-ascending :
    {A : Type 0} (bound position : ℕ) (a : A) (entries : List (ℕ × A))
    → IsAscending bound entries
    → Among (position, a) entries
    → bound ≤ position
Among-ascending bound position a [] asc m = absurd m
Among-ascending bound position a ((p, x) ∷ entries) asc (inl e) =
    let same : p ≡ position = ap (λ entry. entry.0) e in omega (arith, asc.0, same)
Among-ascending bound position a ((p, x) ∷ entries) asc (inr m) =
    omega (arith, asc.0, Among-ascending (suc p) position a entries asc.1 m)

length-errors_at_le {ℓ κ} :
    {E : Type κ} {A : Type ℓ} (position : ℕ) (results : List (Outcome E A))
    → length (errors_at position results) ≤ length results
unfolding errors_at
length-errors_at_le position [] = omega arith
length-errors_at_le position (ok a ∷ results) =
    omega (arith, length-errors_at_le (suc position) results)
length-errors_at_le position (err e ∷ results) =
    omega (arith, length-errors_at_le (suc position) results)

take_all {ℓ} : {A : Type ℓ} (n : ℕ) (xs : List A) → length xs ≤ n → take n xs ≡ xs
take_all zero [] h = refl
take_all zero (x ∷ xs) h = absurd (omega arith)
take_all (suc n) [] h = refl
take_all (suc n) (x ∷ xs) h = ap (◌∷◌ x) (take_all n xs (omega arith))

later_iff {κ} :
    {E : Type 0} {P : Type κ} (start i : ℕ) (e : E) (entries : List (ℕ × E))
    → Among (suc start + i, e) entries ↔ P
    → Among (start + suc i, e) entries ↔ P
later_iff {P = P} start i e entries h =
    let shift : suc start + i ≡ start + suc i = omega arith in
    subst (λ p. Among (p, e) entries ↔ P) shift h

-- An error is recorded at a position exactly when the result there is that error.
errors_at_iff :
    {E A : Type 0} (start i : ℕ) (e : E) (results : List (Outcome E A))
    → Among (start + i, e) (errors_at start results) ↔ (get_elem? results i ≡ some (err e))
unfolding errors_at
errors_at_iff start i e [] = (λ m. absurd m, λ h. cc)
errors_at_iff start zero e (ok a ∷ results) = (
  λ m. absurd (
      omega (
        arith,
        Among-ascending (suc start) (start + 0) e _ (errors_at-IsAscending (suc start) results) m,
      )),
  λ h. absurd (ground (arith, h)),
)
errors_at_iff start (suc i) e (ok a ∷ results) =
    later_iff start i e (errors_at (suc start) results) (errors_at_iff (suc start) i e results)
errors_at_iff start zero e (err e' ∷ results) = (
  λ m. elim m [
    | inl same ↦ ap (λ entry. some (err entry.1)) same
    | inr later ↦ absurd (
        omega (
          arith,
          Among-ascending (suc start) (start + 0) e _ (errors_at-IsAscending (suc start) results)
              later,
        ))
  ],
  λ h. inl (ground (arith, h)),
)
errors_at_iff start (suc i) e (err e' ∷ results) =
    let rest =
      later_iff start i e (errors_at (suc start) results) (errors_at_iff (suc start) i e results) in
    (
      λ m. elim m [
        | inl same ↦
            let here : start ≡ start + suc i = ap (λ entry. entry.0) same in
            absurd (omega (arith, here))
        | inr later ↦ rest.0 later
      ],
      λ h. inr (rest.1 h),
    )

errors_at_zero_iff :
    {E A : Type 0} (i : ℕ) (e : E) (results : List (Outcome E A))
    → Among (i, e) (errors_at 0 results) ↔ (get_elem? results i ≡ some (err e))
errors_at_zero_iff i e results =
    let same : 0 + i ≡ i = omega arith in
    subst (λ p. Among (p, e) (errors_at 0 results) ↔ (get_elem? results i ≡ some (err e))) same
      (errors_at_iff 0 i e results)

get_elem?-map_iff {ℓ κ} :
    {A : Type ℓ} {B : Type κ} (f : A → B) (xs : List A) (i : ℕ) (b : B)
    → (get_elem? (map f xs) i ≡ some b) ↔ ((x : A) × (get_elem? xs i ≡ some x) × (f x ≡ b))
get_elem?-map_iff f [] i b = (λ h. cc, λ h. absurd (ground (arith, h.1)))
get_elem?-map_iff f (x ∷ xs) zero b = (
  λ h. (x, refl, ground (arith, h)),
  λ h. let same : x ≡ h.0 = ground (arith, h.1) in rw (same, h.2) refl,
)
get_elem?-map_iff f (x ∷ xs) (suc i) b = get_elem?-map_iff f xs i b

length-map {ℓ κ} :
    {A : Type ℓ} {B : Type κ} (f : A → B) (xs : List A) → length (map f xs) ≡ length xs
length-map f [] = refl
length-map f (x ∷ xs) = ap suc (length-map f xs)

pub errors_or_default-no_errors {ℓ} :
    {A : Type ℓ} (es : List A) → errors_or_default (no_errors es) ≡ es
errors_or_default-no_errors [] = refl
errors_or_default-no_errors (e ∷ es) = refl

module _ {E Time O T U IDoc : Type 0} (env : Environment Time E)
    (document : ValidatorDocument IDoc (Credential Time O U) E) where
  length-credential_results :
      (presentation : Presentation Time O T U) (issuers : List IDoc)
      (options : PresentationValidationOptions Time) (fail_fast : FailFast)
      → length (credential_results env document presentation issuers options fail_fast)
        ≡ len presentation.verifiable_credential
  unfolding credential_results
  length-credential_results presentation issuers options fail_fast = ground (
    arith,
    length-map
        (λ credential.
          validate_extended env document credential issuers options.shared_validation_options
            (criterion presentation.holder options.subject_holder_relationship) fail_fast)
        (into_vec presentation.verifiable_credential),
    len-eq-length presentation.verifiable_credential,
  )

  pub all_errors_value :
      (presentation : Presentation Time O T U) (issuers : List IDoc)
      (options : PresentationValidationOptions Time)
      → errors_or_default
          (validate_credentials env document presentation issuers options all_errors)
        ≡ errors_at 0 (credential_results env document presentation issuers options all_errors)
  unfolding validate_credentials
  all_errors_value presentation issuers options =
      let results = credential_results env document presentation issuers options all_errors in
      let same = length-credential_results presentation issuers options all_errors in
      let bounded = length-errors_at_le 0 results in
      ground (
        arith,
        errors_or_default-no_errors
            (take (len presentation.verifiable_credential) (errors_at 0 results)),
        take_all (len presentation.verifiable_credential) (errors_at 0 results)
            (omega (arith, same, bounded)),
      )

  -- The entries are at ascending positions, no more than there are credentials, and an entry is the
  -- error that the credential at its position gets by itself.
  abbrev pub ReportsErrors :
      Presentation Time O T U
      → List IDoc
      → PresentationValidationOptions Time
      → List (ℕ × List (ValidationError E))
      → Type 0
  ReportsErrors presentation issuers options found =
      IsAscending 0 found
      × (length found ≤ len presentation.verifiable_credential)
      × ((position : ℕ) (es : List (ValidationError E))
          → Among (position, es) found ↔ (
              (credential : Credential Time O U) × (get_elem?
                  (into_vec presentation.verifiable_credential) position
                ≡ some credential)
              × (validate_extended env document credential issuers options.shared_validation_options
                    (criterion presentation.holder options.subject_holder_relationship) all_errors
                  ≡ err es)))

  -- When all errors are wanted, the errors of the credentials are at ascending positions, and a
  -- position has errors exactly when there is a credential at it and these are the errors of its own
  -- validation against the wanted relation to the holder; the limit cuts none of them off.
  pub validate_credentials-ReportsErrors :
      (presentation : Presentation Time O T U) (issuers : List IDoc)
      (options : PresentationValidationOptions Time)
      → ReportsErrors presentation issuers options (
          errors_or_default
            (validate_credentials env document presentation issuers options all_errors))
  unfolding credential_results
  validate_credentials-ReportsErrors presentation issuers options =
      let results = credential_results env document presentation issuers options all_errors in
      let same = length-credential_results presentation issuers options all_errors in
      subst (ReportsErrors presentation issuers options)
        (sym (all_errors_value presentation issuers options))
        (
          errors_at-IsAscending 0 results,
          omega (arith, same, length-errors_at_le 0 results),
          λ position es.
              iff_trans (errors_at_zero_iff position es results) (
                get_elem?-map_iff _ (into_vec presentation.verifiable_credential) position
                  (err es)),
        )
