-- ===== src/Credential/Structure/Laws.antt =====
-- What the checks of the structure accept.
use identity_rs.Core.OneOrMany.{OneOrMany, into_vec, get, is_empty}
use identity_rs.Core.OneOrMany.Laws.{is_empty_iff}
use identity_rs.Credential.Data.{
  Context, Subject, Credential, Presentation, base_url, base_context, credential_type,
  presentation_type,
}
use identity_rs.Credential.Structure.{
  is_base, is_none, is_nil, check_subjects, check_structure, check_credentials, check_presentation,
}
use identity_rs.Prelude.{
  ◌≡◌, ◌≢◌, ◌↔◌, ◌⊎◌, inl, inr, refl, ap, Bool-cases, All, true, not, ◌&&◌, Option, none, some,
  List, [], ◌∷◌, ◌==◌, any, nat_eq, list_eq, ok, guard_iff, check_iff, iff_trans, iff_and, Text,
  arith, HasEq,
}

abbrev pub Among : {A : Type 0} → A → List A → Type 0
Among a [] = ⊥
Among a (x ∷ xs) = (x ≡ a) ⊎ Among a xs

any_iff :
    {A : Type 0} ⦃e : HasEq A⦄ (a : A) (xs : List A) → (any (λ x. x == a) xs ≡ true) ↔ Among a xs
any_iff a [] = ground arith
any_iff ⦃e⦄ a (x ∷ xs) = ground (arith, e.beq_iff x a, any_iff a xs)

url_injective :
    {O : Type 0} (u v : Text)
    → ◌≡◌ {A = Option (Context O)} (some (Context.url u)) (some (Context.url v))
    → u ≡ v
url_injective u v h = ground arith

is_base_iff : {O : Type 0} (c : Option (Context O)) → (is_base c ≡ true) ↔ (c ≡ some base_context)
is_base_iff none = ground arith
is_base_iff (some (Context.obj o)) = (λ h. cc, λ h. cc)
is_base_iff (some (Context.url u)) = (
  λ h. ap (λ v. some (Context.url v)) ((list_eq.beq_iff u base_url).0 h),
  λ h. (list_eq.beq_iff u base_url).1 (url_injective u base_url h),
)

-- A subject has an id or some property.
abbrev pub IsSubject : {O : Type 0} → Subject O → Type 0
IsSubject subject = (subject.id ≢ none) ⊎ (subject.properties ≢ [])

subject_parts :
    {A B : Type 0} (id : Option A) (properties : List B)
    → (not (is_none id && is_nil properties) ≡ true) ↔ ((id ≢ none) ⊎ (properties ≢ []))
subject_parts (some id) properties = (λ h. inl (λ e. cc), λ h. refl)
subject_parts none [] = (λ h. cc, λ h. absurd (elim h [ inl p ↦ p refl | inr p ↦ p refl ]))
subject_parts none (p ∷ ps) = (λ h. inr (λ e. cc), λ h. refl)

subject_iff :
    {O : Type 0} (subject : Subject O)
    → (not (is_none subject.id && is_nil subject.properties) ≡ true) ↔ IsSubject subject
subject_iff subject = subject_parts subject.id subject.properties

check_subjects_iff :
    {O : Type 0} (subjects : List (Subject O))
    → (check_subjects subjects ≡ ok tt) ↔ All IsSubject subjects
unfolding check_subjects
check_subjects_iff [] = (λ h. tt, λ h. refl)
check_subjects_iff (subject ∷ subjects) =
    iff_trans (check_iff _ (check_subjects subjects))
      (iff_and (iff_trans (guard_iff _ _) (subject_iff subject)) (check_subjects_iff subjects))

not_empty :
    {A : Type 0} (items : OneOrMany A) → (not (is_empty items) ≡ true) ↔ (into_vec items ≢ [])
not_empty items = (
  λ h e. ground (arith, (is_empty_iff items).1 e),
  λ n. elim (Bool-cases (is_empty items)) [
    | inl t ↦ absurd (n ((is_empty_iff items).0 t))
    | inr f ↦ rw f refl
  ],
)

module _ {Time O T : Type 0} where
  pub record HasStructure (credential : Credential Time O T) : Type 0 where
    pub based : get credential.context 0 ≡ some base_context
    pub typed : Among credential_type (into_vec credential.types)
    pub subjects : into_vec credential.credential_subject ≢ []
    pub each : All IsSubject (into_vec credential.credential_subject)

  -- The structure of a credential is accepted exactly when its first context is the base context, its
  -- types include the base type, and it has at least one subject, each with an id or some property.
  pub check_structure_iff :
      (credential : Credential Time O T)
      → (check_structure credential ≡ ok tt) ↔ HasStructure credential
  unfolding check_structure
  check_structure_iff credential =
      iff_trans
        (iff_trans (check_iff _ _) (
          iff_and (iff_trans (guard_iff _ _) (is_base_iff (get credential.context 0))) (
            iff_trans (check_iff _ _) (
              iff_and
                (iff_trans (guard_iff _ _) (any_iff credential_type (into_vec credential.types)))
                (iff_trans (check_iff _ _) (
                  iff_and (iff_trans (guard_iff _ _) (not_empty credential.credential_subject))
                    (check_subjects_iff (into_vec credential.credential_subject))))))))
        (
          λ h. record { based = h.0; typed = h.1.0; subjects = h.1.1.0; each = h.1.1.1 },
          λ s. (s.based, (s.typed, (s.subjects, s.each))),
        )

  check_credentials_iff :
      (credentials : List (Credential Time O T))
      → (check_credentials credentials ≡ ok tt) ↔ All HasStructure credentials
  unfolding check_credentials
  check_credentials_iff [] = (λ h. tt, λ h. refl)
  check_credentials_iff (credential ∷ credentials) =
      iff_trans (check_iff _ _)
        (iff_and (check_structure_iff credential) (check_credentials_iff credentials))

  module _ {U : Type 0} where
    pub record HasPresentationStructure (presentation : Presentation Time O U T) : Type 0 where
      pub based : get presentation.context 0 ≡ some base_context
      pub typed : Among presentation_type (into_vec presentation.types)
      pub each : All HasStructure (into_vec presentation.verifiable_credential)

    -- The structure of a presentation is accepted exactly when its first context is the base context,
    -- its types include the base type of presentations, and the structure of each of its credentials
    -- is accepted.
    pub check_presentation_iff :
        (presentation : Presentation Time O U T)
        → (check_presentation presentation ≡ ok tt) ↔ HasPresentationStructure presentation
    unfolding check_presentation
    check_presentation_iff presentation =
        iff_trans
          (iff_trans (check_iff _ _) (
            iff_and (iff_trans (guard_iff _ _) (is_base_iff (get presentation.context 0))) (
              iff_trans (check_iff _ _) (
                iff_and
                  (iff_trans (guard_iff _ _)
                    (any_iff presentation_type (into_vec presentation.types)))
                  (check_credentials_iff (into_vec presentation.verifiable_credential))))))
          (
            λ h. record { based = h.0; typed = h.1.0; each = h.1.1 },
            λ s. (s.based, (s.typed, s.each)),
          )
