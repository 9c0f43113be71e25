-- ===== src/Credential/Builder/Builds.antt =====
-- What the builders build.
use identity_rs.Core.OneOrMany.{from_vec, get}
use identity_rs.Core.OneOrMany.Laws.{into_vec-from_vec}
use identity_rs.Credential.Builder.{
  CredentialBuilder, CredentialSetting, context, id, type_, subject, subjects, issuer,
  issuance_date, expiration_date, status, schema, refresh_service, terms_of_use, evidence,
  non_transferable, new_credential, set_credential, assemble, credential_from_builder,
  PresentationBuilder, PresentationSetting, credential, holder, new_presentation, set_presentation,
  assemble_presentation, presentation_from_builder,
}
use identity_rs.Credential.Data.{
  Context, Issuer, Credential, Presentation, base_context, credential_type, presentation_type,
}
use identity_rs.Credential.Structure.{check_structure, check_presentation}
use identity_rs.Credential.Structure.Laws.{
  Among, IsSubject, HasStructure, check_structure_iff, HasPresentationStructure,
  check_presentation_iff,
}
use identity_rs.Prelude.{
  ◌≡◌, ◌≢◌, ◌↔◌, inl, inr, refl, sym, subst, ◌∙◌, All, some, List, [], ◌∷◌, ◌++◌, ok, ok_or,
  bind_iff, ok_or_iff, Text,
}

get-from_vec {ℓ} : {A : Type ℓ} (x : A) (xs : List A) → get (from_vec (x ∷ xs)) 0 ≡ some x
unfolding get from_vec
get-from_vec x [] = refl
get-from_vec x (y ∷ ys) = refl

Among-append : {A : Type 0} (a : A) (xs ys : List A) → Among a xs → Among a (xs ++ ys)
Among-append a [] ys m = absurd m
Among-append a (x ∷ xs) ys (inl e) = inl e
Among-append a (x ∷ xs) ys (inr m) = inr (Among-append a xs ys m)

-- The settings are applied in order.
abbrev pub set_all {ℓ κ} : {S : Type ℓ} {B : Type κ} → (S → B → B) → List S → B → B
set_all set [] builder = builder
set_all set (setting ∷ settings) builder = set_all set settings (set setting builder)

set_all-preserves {ℓ κ μ} :
    {S : Type ℓ} {B : Type κ} (P : B → Type μ) (set : S → B → B)
    → ((setting : S) (builder : B) → P builder → P (set setting builder))
    → (settings : List S) (builder : B) → P builder
    → P (set_all set settings builder)
set_all-preserves P set keeps [] builder h = h
set_all-preserves P set keeps (setting ∷ settings) builder h =
    set_all-preserves P set keeps settings (set setting builder) (keeps setting builder h)

-- The contexts start with the base context, and the types include the base type.
abbrev pub IsBased : {O : Type 0} → Text → List (Context O) → List Text → Type 0
IsBased type contexts types =
    ((rest : List (Context _)) × (contexts ≡ base_context ∷ rest)) × Among type types

context_push :
    {O : Type 0} (type : Text) (contexts : List (Context O)) (types : List Text) (value : Context O)
    → IsBased type contexts types
    → IsBased type (contexts ++ value ∷ []) types
context_push type contexts types value ((rest, first), typed) =
    ((rest ++ value ∷ [], rw first refl), typed)

type_push :
    {O : Type 0} (type : Text) (contexts : List (Context O)) (types : List Text) (value : Text)
    → IsBased type contexts types
    → IsBased type contexts (types ++ value ∷ [])
type_push type contexts types value (first, typed) =
    (first, Among-append type types (value ∷ []) typed)

module _ {Time O T : Type 0} where
  set_credential-IsBased :
      (setting : CredentialSetting Time O) (this : CredentialBuilder Time O T)
      → IsBased credential_type this.context this.types
      → IsBased credential_type
          (set_credential setting this).context
          (set_credential setting this).types
  unfolding set_credential
  set_credential-IsBased (context value) this h =
      context_push credential_type this.context this.types value h
  set_credential-IsBased (id value) this h = h
  set_credential-IsBased (type_ value) this h =
      type_push credential_type this.context this.types value h
  set_credential-IsBased (subject value) this h = h
  set_credential-IsBased (subjects values) this h = h
  set_credential-IsBased (issuer value) this h = h
  set_credential-IsBased (issuance_date value) this h = h
  set_credential-IsBased (expiration_date value) this h = h
  set_credential-IsBased (status value) this h = h
  set_credential-IsBased (schema value) this h = h
  set_credential-IsBased (refresh_service value) this h = h
  set_credential-IsBased (terms_of_use value) this h = h
  set_credential-IsBased (evidence value) this h = h
  set_credential-IsBased (non_transferable value) this h = h

  assemble-HasStructure :
      (now : Time) (builder : CredentialBuilder Time O T) (by : Issuer O)
      → IsBased credential_type builder.context builder.types
      → builder.subject ≢ []
      → All IsSubject builder.subject
      → HasStructure (assemble now builder by)
  unfolding assemble
  assemble-HasStructure now builder by ((rest, first), typed) some_subject each = record {
    based = rw first (get-from_vec base_context rest);
    typed = subst (Among credential_type) (sym (into_vec-from_vec builder.types)) typed;
    subjects = λ none_left. some_subject (sym (into_vec-from_vec builder.subject) ∙ none_left);
    each = subst (All IsSubject) (sym (into_vec-from_vec builder.subject)) each;
  }

  structure_subjects :
      (now : Time) (builder : CredentialBuilder Time O T) (by : Issuer O)
      → HasStructure (assemble now builder by)
      → (builder.subject ≢ []) × All IsSubject builder.subject
  unfolding assemble
  structure_subjects now builder by good = (
    λ none_left. good.subjects (into_vec-from_vec builder.subject ∙ none_left),
    subst (All IsSubject) (into_vec-from_vec builder.subject) good.each,
  )

  abbrev IsBasedBuilder : CredentialBuilder Time O T → Type 0
  IsBasedBuilder builder = IsBased credential_type builder.context builder.types

  set_all-based :
      (properties : T) (settings : List (CredentialSetting Time O))
      → IsBasedBuilder (set_all set_credential settings (new_credential properties))
  unfolding new_credential
  set_all-based properties settings =
      set_all-preserves IsBasedBuilder set_credential set_credential-IsBased settings
        (new_credential properties) (([], refl), inl refl)

  -- A builder that was made anew and then set in any way builds a credential, one with the structure
  -- of credentials, exactly when an issuer was set and there is some subject, each with an id or some
  -- property.
  pub credential_from_builder_iff :
      (now : Time) (properties : T) (settings : List (CredentialSetting Time O))
      (builder : CredentialBuilder Time O T)
      → builder ≡ set_all set_credential settings (new_credential properties)
      → ((built : Credential Time O T) × (credential_from_builder now builder ≡ ok built)
          × HasStructure built)
        ↔ ((by : Issuer O) × (builder.issuer ≡ some by)
            × ((builder.subject ≢ []) × All IsSubject builder.subject))
  unfolding credential_from_builder check_structure assemble
  credential_from_builder_iff now properties settings builder is = (
    λ h.
        let (by, set, checked) = (bind_iff (ok_or builder.issuer _) _ h.0).0 h.1 in
        let (done, passed, _) =
          (bind_iff (check_structure (assemble now builder by)) _ h.0).0 checked in
        let good = (check_structure_iff (assemble now builder by)).0 passed in
        (by, (ok_or_iff _ _ by).0 set, structure_subjects now builder by good),
    λ h.
        let based = subst IsBasedBuilder (sym is) (set_all-based properties settings) in
        let good = assemble-HasStructure now builder h.0 based h.2.0 h.2.1 in
        (
          assemble now builder h.0,
          rw (h.1, (check_structure_iff (assemble now builder h.0)).1 good) refl,
          good,
        ),
  )

module _ {Time O T U : Type 0} where
  abbrev IsBasedPresentation : PresentationBuilder Time O T U → Type 0
  IsBasedPresentation builder = IsBased presentation_type builder.context builder.types

  set_presentation-IsBased :
      (setting : PresentationSetting Time O U) (this : PresentationBuilder Time O T U)
      → IsBasedPresentation this
      → IsBasedPresentation (set_presentation setting this)
  unfolding set_presentation
  set_presentation-IsBased (PresentationSetting.context value) this h =
      context_push presentation_type this.context this.types value h
  set_presentation-IsBased (PresentationSetting.id value) this h = h
  set_presentation-IsBased (PresentationSetting.type_ value) this h =
      type_push presentation_type this.context this.types value h
  set_presentation-IsBased (credential value) this h = h
  set_presentation-IsBased (holder value) this h = h
  set_presentation-IsBased (PresentationSetting.refresh_service value) this h = h
  set_presentation-IsBased (PresentationSetting.terms_of_use value) this h = h

  presentation_structure :
      (builder : PresentationBuilder Time O T U)
      → IsBasedPresentation builder
      → All HasStructure builder.credentials
      → HasPresentationStructure (assemble_presentation builder)
  unfolding assemble_presentation
  presentation_structure builder ((rest, first), typed) each = record {
    based = rw first (get-from_vec base_context rest);
    typed = subst (Among presentation_type) (sym (into_vec-from_vec builder.types)) typed;
    each = subst (All HasStructure) (sym (into_vec-from_vec builder.credentials)) each;
  }

  structure_credentials :
      (builder : PresentationBuilder Time O T U)
      → HasPresentationStructure (assemble_presentation builder)
      → All HasStructure builder.credentials
  unfolding assemble_presentation
  structure_credentials builder good =
      subst (All HasStructure) (into_vec-from_vec builder.credentials) good.each

  -- A builder that was made anew and then set in any way builds a presentation, one with the structure
  -- of presentations, exactly when each of its credentials has the structure of credentials.
  pub presentation_from_builder_iff :
      (properties : T) (settings : List (PresentationSetting Time O U))
      (builder : PresentationBuilder Time O T U)
      → builder ≡ set_all set_presentation settings (new_presentation properties)
      → ((built : Presentation Time O T U) × (presentation_from_builder builder ≡ ok built)
          × HasPresentationStructure built)
        ↔ All HasStructure builder.credentials
  unfolding presentation_from_builder new_presentation
  presentation_from_builder_iff properties settings builder is =
      let this = assemble_presentation builder in
      (
        λ h.
            let (done, passed, _) = (bind_iff (check_presentation this) _ h.0).0 h.1 in
            structure_credentials builder ((check_presentation_iff this).0 passed),
        λ each.
            let based = subst IsBasedPresentation (sym is) (
              set_all-preserves IsBasedPresentation set_presentation set_presentation-IsBased
                settings (new_presentation properties) (([], refl), inl refl)) in
            let good = presentation_structure builder based each in
            (this, rw ((check_presentation_iff this).1 good) refl, good),
      )
