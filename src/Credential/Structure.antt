-- ===== src/Credential/Structure.antt =====
-- identity_credential/src/credential/credential.rs and presentation/presentation.rs: the checks of
-- the semantic structure.
pub mod Laws
use identity_rs.Core.OneOrMany.{OneOrMany, into_vec, get, is_empty}
use identity_rs.Credential.Data.{
  Context, Subject, Credential, Presentation, Error, missing_base_context, missing_base_type,
  missing_subject, invalid_subject, base_url, credential_type, presentation_type,
}
use identity_rs.Prelude.{
  ◌≡◌, Bool, true, false, not, ◌&&◌, ◌||◌, Option, none, some, List, [], ◌∷◌, ◌==◌, any, all,
  nat_eq, list_eq, Outcome, ok, err, ◌>>=◌, guard, Text,
}

-- `context == Self::base_context()`
abbrev pub is_base : {O : Type 0} → Option (Context O) → Bool
is_base none = false
is_base (some (Context.url u)) = u == base_url
is_base (some (Context.obj _)) = false

abbrev pub is_none : {A : Type 0} → Option A → Bool
is_none none = true
is_none (some _) = false

abbrev pub is_nil : {A : Type 0} → List A → Bool
is_nil [] = true
is_nil (_ ∷ _) = false

-- `for subject in … { if … { return Err(…); } }`
unfoldable pub check_subjects : {O : Type 0} → List (Subject O) → Outcome Error (Unit {0})
check_subjects [] = ok tt
check_subjects (subject ∷ subjects) =
    guard (not (is_none subject.id && is_nil subject.properties)) invalid_subject >>= λ _.
    check_subjects subjects

unfoldable pub check_structure :
    {Time O T : Type 0} → Credential Time O T → Outcome Error (Unit {0})
check_structure credential = do
  _ ← guard (is_base (get credential.context 0)) missing_base_context
  _ ← guard (any (λ type_. type_ == credential_type) (into_vec credential.types)) missing_base_type
  _ ← guard (not (is_empty credential.credential_subject)) missing_subject
  check_subjects (into_vec credential.credential_subject)

unfoldable pub check_credentials :
    {Time O T : Type 0} → List (Credential Time O T) → Outcome Error (Unit {0})
check_credentials [] = ok tt
check_credentials (credential ∷ credentials) =
    check_structure credential >>= λ _. check_credentials credentials

unfoldable pub check_presentation :
    {Time O T U : Type 0} → Presentation Time O T U → Outcome Error (Unit {0})
check_presentation presentation = do
  _ ← guard (is_base (get presentation.context 0)) missing_base_context
  _ ←
      guard (any (λ type_. type_ == presentation_type) (into_vec presentation.types))
        missing_base_type
  check_credentials (into_vec presentation.verifiable_credential)
