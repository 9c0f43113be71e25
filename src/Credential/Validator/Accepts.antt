-- ===== src/Credential/Validator/Accepts.antt =====
-- Which credentials the validation accepts.
use identity_rs.Core.OneOrMany.{OneOrMany, one, many, into_vec}
use identity_rs.Credential.Data.{Credential, Subject, issuer_url}
use identity_rs.Credential.Validator.{
  ValidationError, ValidatorDocument, Environment, SubjectHolderRelationship, always_subject,
  subject_on_non_transferable, any, FailFast, all_errors, first_error, collect_errors, no_errors,
  is_holder, url_matches, expires_after, extract_issuer, find_issuer,
}
use identity_rs.Prelude.{
  ◌≡◌, ◌≢◌, ◌↔◌, ◌⊎◌, refl, ap, sym, subst, Bool, true, false, Option, none, some, All, List, [],
  ◌∷◌, ◌==◌, find, nat_eq, list_eq, Outcome, ok, err, ◌>>=◌, bind_iff, map_err_iff, ok_or_iff, Text,
  arith,
}

pub no_errors_iff :
    {E : Type 0} (fail_fast : FailFast) (results : List (Outcome E (Unit {0})))
    → (no_errors (collect_errors fail_fast results) ≡ ok tt) ↔ All (λ r. r ≡ ok tt) results
unfolding collect_errors
no_errors_iff all_errors [] = (λ h. tt, λ h. refl)
no_errors_iff first_error [] = (λ h. tt, λ h. refl)
no_errors_iff all_errors (ok tt ∷ rs) =
    (λ h. (refl, (no_errors_iff all_errors rs).0 h), λ h. (no_errors_iff all_errors rs).1 h.1)
no_errors_iff first_error (ok tt ∷ rs) =
    (λ h. (refl, (no_errors_iff first_error rs).0 h), λ h. (no_errors_iff first_error rs).1 h.1)
no_errors_iff all_errors (err e ∷ rs) = (λ h. cc, λ h. absurd (ground (arith, h.0)))
no_errors_iff first_error (err e ∷ rs) = (λ h. cc, λ h. absurd (ground (arith, h.0)))

module _ {Time O T : Type 0} where
  -- The holder is the only subject.
  abbrev pub IsSoleSubject : Text → Credential Time O T → Type 0
  IsSoleSubject holder credential =
      (subject : Subject O) × (into_vec credential.credential_subject ≡ subject ∷ [])
      × (subject.id ≡ some holder)

  abbrev pub Relates : SubjectHolderRelationship → Text → Credential Time O T → Type 0
  Relates always_subject holder credential = IsSoleSubject holder credential
  Relates subject_on_non_transferable holder credential =
      IsSoleSubject holder credential ⊎ (credential.non_transferable ≢ some true)
  Relates any holder credential = Unit

some_is_iff :
    (holder : Text) (id : Option Text)
    → (elim id [ none ↦ false | some i ↦ i == holder ] ≡ true) ↔ (id ≡ some holder)
some_is_iff holder none = (λ h. cc, λ h. cc)
some_is_iff holder (some id) = (
  λ h. ap some ((list_eq.beq_iff id holder).0 h),
  λ h. (list_eq.beq_iff id holder).1 (ground arith),
)

is_holder_iff :
    {O : Type 0} (holder : Text) (subject : Subject O)
    → (is_holder holder subject ≡ true) ↔ (subject.id ≡ some holder)
is_holder_iff holder subject = some_is_iff holder subject.id

sole_iff :
    {O : Type 0} (holder : Text) (subject : Subject O)
    → (is_holder holder subject ≡ true) ↔ (
        (s : Subject O) × (◌≡◌ {A = List (Subject O)} (subject ∷ []) (s ∷ []))
        × (s.id ≡ some holder))
sole_iff holder subject = (
  λ h. (subject, refl, (is_holder_iff holder subject).0 h),
  λ h.
      let same : subject ≡ h.0 = ground (arith, h.1) in
      (is_holder_iff holder subject).1 (subst (λ s. s.id ≡ some holder) (sym same) h.2),
)

pub url_matches_iff :
    {O : Type 0} (holder : Text) (subjects : OneOrMany (Subject O))
    → (url_matches holder subjects ≡ true)
      ↔ ((subject : Subject O) × (into_vec subjects ≡ subject ∷ []) × (subject.id ≡ some holder))
unfolding into_vec
url_matches_iff holder (one subject) = sole_iff holder subject
url_matches_iff holder (many []) = (λ h. cc, λ h. absurd (ground (arith, h.1)))
url_matches_iff holder (many (subject ∷ [])) = sole_iff holder subject
url_matches_iff holder (many (_ ∷ _ ∷ _)) = (λ h. cc, λ h. absurd (ground (arith, h.1)))

pub expires_after_iff :
    {Time : Type 0} (le : Time → Time → Bool) (expires : Option Time) (timestamp : Time)
    → (expires_after le expires timestamp ≡ true)
      ↔ ((t : Time) → expires ≡ some t → le timestamp t ≡ true)
expires_after_iff le none timestamp = (λ h t e. cc, λ h. refl)
expires_after_iff le (some expires) timestamp = (
  λ h t e. let same : expires ≡ t = ground arith in subst (λ u. le timestamp u ≡ true) same h,
  λ h. h expires refl,
)

module _ {E Time O T Doc : Type 0} (env : Environment Time E)
    (document : ValidatorDocument Doc (Credential Time O T) E) where
  -- the trusted document of the issuer
  pub record IsIssuer (credential : Credential Time O T) (issuers : List Doc) (doc : Doc)
      : Type 0 where
    pub did : Text
    pub parsed : env.parse_did (issuer_url credential.issuer) ≡ ok did
    pub trusted : find (λ d. document.did_str d == did) issuers ≡ some doc

  pub IsIssuer-iff :
      {A : Type 0} (credential : Credential Time O T) (issuers : List Doc)
      (f : Doc → Outcome (ValidationError E) A) (a : A)
      → ((extract_issuer env credential >>= λ did. find_issuer env document issuers did >>= f)
          ≡ ok a)
        ↔ ((doc : Doc) × IsIssuer credential issuers doc × (f doc ≡ ok a))
  unfolding extract_issuer find_issuer
  IsIssuer-iff credential issuers f a = (
    λ h.
        let outer = (bind_iff (extract_issuer env credential) _ a).0 h in
        let inner = (bind_iff (find_issuer env document issuers outer.0) f a).0 outer.2 in
        (
          inner.0,
          record {
            did = outer.0;
            parsed = (map_err_iff _ _ outer.0).0 outer.1;
            trusted = (ok_or_iff _ _ inner.0).0 inner.1;
          },
          inner.2,
        ),
    λ h. (bind_iff (extract_issuer env credential) _ a).1 (
      h.1.did,
      (map_err_iff _ _ h.1.did).1 h.1.parsed,
      (bind_iff (find_issuer env document issuers h.1.did) f a).1
          (h.0, (ok_or_iff _ _ h.0).1 h.1.trusted, h.2),
    ),
  )
