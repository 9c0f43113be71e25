-- ===== src/Credential/Validator/Trust.antt =====
-- The credentials that the validation accepts.
use identity_rs.Credential.Data.{Credential, Status}
use identity_rs.Credential.Status.{type_name, try_from_status, index, status_url}
use identity_rs.Credential.Structure.Laws.{HasStructure, check_structure_iff}
use identity_rs.Credential.Validator.{
  ValidationError, CredentialValidationOptions, ValidatorDocument, Environment, StatusCheck, strict,
  skip_unsupported, skip_all, SubjectHolderRelationship, always_subject,
  subject_on_non_transferable, any, FailFast, relationship_holds, url_matches,
  check_expires_on_or_after, check_issued_on_or_before, check_subject_holder_relationship,
  verify_signature, check_revocation_bitmap_status, check_supported, check_some_status,
  check_status, check_relationship, validation_units, validate_extended,
}
use identity_rs.Credential.Validator.Accepts.{
  no_errors_iff, Relates, url_matches_iff, expires_after_iff, IsIssuer, IsIssuer-iff,
}
use identity_rs.Did.Verify.{VerifierOptions}
use identity_rs.Prelude.{
  ℕ, ◌≡◌, ◌≢◌, ◌↔◌, ◌⊎◌, inl, inr, refl, subst, Bool, true, false, not, ◌||◌, Option, none, some,
  List, unwrap_or, if◌then◌else◌, nat_eq, list_eq, Outcome, ok, guard_iff, iff_trans, iff_and,
  iff_after, map_err_iff, map_err_bind_iff, Text, arith,
}

some_injective {ℓ} : {A : Type ℓ} {a b : A} → some a ≡ some b → a ≡ b
some_injective e = ground arith

or_iff : (a b : Bool) → (a || b ≡ true) ↔ ((a ≡ true) ⊎ (b ≡ true))
or_iff true b = (λ h. inl refl, λ h. refl)
or_iff false b = (λ h. inr h, λ h. elim h [ inl e ↦ cc | inr e ↦ e ])

iff_or {ℓ κ μ ν} :
    {A : Type ℓ} {B : Type κ} {C : Type μ} {D : Type ν} → A ↔ C → B ↔ D → (A ⊎ B) ↔ (C ⊎ D)
iff_or f g = (
  λ h. elim h [ inl a ↦ inl (f.0 a) | inr b ↦ inr (g.0 b) ],
  λ h. elim h [ inl c ↦ inl (f.1 c) | inr d ↦ inr (g.1 d) ],
)

not_iff : (b : Bool) → (not b ≡ true) ↔ (b ≡ false)
not_iff true = (λ h. cc, λ h. cc)
not_iff false = (λ h. refl, λ h. refl)

transferable_iff : (flag : Option Bool) → (not (unwrap_or flag false) ≡ true) ↔ (flag ≢ some true)
transferable_iff none = (λ h e. cc, λ h. refl)
transferable_iff (some true) = (λ h. cc, λ h. absurd (h refl))
transferable_iff (some false) = (λ h e. ground arith, λ h. refl)

relationship_iff :
    (relationship : SubjectHolderRelationship) {Time O T : Type 0} (holder : Text)
    (credential : Credential Time O T)
    → (relationship_holds relationship
          (url_matches holder credential.credential_subject)
          credential.non_transferable
        ≡ true)
      ↔ Relates relationship holder credential
relationship_iff any holder credential = (λ h. tt, λ h. refl)
relationship_iff always_subject holder credential =
    url_matches_iff holder credential.credential_subject
relationship_iff subject_on_non_transferable holder credential = iff_trans (or_iff _ _) (
    iff_or (url_matches_iff holder credential.credential_subject)
      (transferable_iff credential.non_transferable))

if_ok_iff {ℓ κ} :
    {E : Type κ} {A : Type ℓ} (b : Bool) {m n : Outcome E A} {a : A}
    → (n ≢ ok a)
    → ((if b then m else n) ≡ ok a) ↔ ((b ≡ true) × (m ≡ ok a))
if_ok_iff true bad = (λ h. (refl, h), λ h. h.1)
if_ok_iff false bad = (λ h. absurd (bad h), λ h. cc)

if_skip_iff {κ} :
    {E : Type κ} (b : Bool) {m : Outcome E (Unit {0})}
    → ((if b then m else ok tt) ≡ ok tt) ↔ (b ≡ true → m ≡ ok tt)
if_skip_iff true = (λ h e. h, λ h. h refl)
if_skip_iff false = (λ h e. cc, λ h. refl)

iff_if {ℓ κ μ ν} :
    {A : Type ℓ} {B : Type κ} {C : Type μ} {D : Type ν} → A ↔ C → B ↔ D → (A → B) ↔ (C → D)
iff_if f g = (λ h c. g.0 (h (f.1 c)), λ h a. g.1 (h (f.0 a)))

module _ {E Time O T Doc : Type 0} (env : Environment Time E)
    (document : ValidatorDocument Doc (Credential Time O T) E) where
  -- the status entry of the credential leads to an index that the bitmap of the issuer does not hold
  pub record IsUnrevoked (credential : Credential Time O T) (issuers : List Doc) (entry : Status O)
      : Type 0 where
    pub status : Status O
    pub parsed : try_from_status entry ≡ ok status
    pub doc : Doc
    pub issued : IsIssuer env document credential issuers doc
    pub url : Text
    pub located : status_url env.parse_url status ≡ ok url
    pub is_revoked : ℕ → Bool
    pub resolved : document.resolve_revocation_bitmap doc url ≡ ok is_revoked
    pub i : ℕ
    pub indexed : index status ≡ ok i
    pub unrevoked : is_revoked i ≡ false

  abbrev pub StatusIsGood :
      Credential Time O T → List Doc → StatusCheck → Option (Status O) → Type 0
  StatusIsGood credential issuers skip_all entry = Unit
  StatusIsGood credential issuers strict none = Unit
  StatusIsGood credential issuers skip_unsupported none = Unit
  StatusIsGood credential issuers strict (some entry) =
      (entry.type_ ≡ type_name) × IsUnrevoked credential issuers entry
  StatusIsGood credential issuers skip_unsupported (some entry) =
      entry.type_ ≡ type_name → IsUnrevoked credential issuers entry

  bitmap_iff :
      (doc : Doc) (status : Status O)
      → (check_revocation_bitmap_status env document doc status ≡ ok tt) ↔ (
          (url : Text) × (status_url env.parse_url status ≡ ok url)
          × ((is_revoked : ℕ → Bool) × (document.resolve_revocation_bitmap doc url ≡ ok is_revoked)
              × ((i : ℕ) × (index status ≡ ok i) × (is_revoked i ≡ false))))
  unfolding check_revocation_bitmap_status
  bitmap_iff doc status = iff_trans (map_err_bind_iff _ _ _ tt) (
      iff_after (λ url. iff_trans (map_err_bind_iff _ _ _ tt) (
        iff_after (λ is_revoked.
          iff_trans (map_err_bind_iff _ _ _ tt)
            (iff_after (λ i. iff_trans (guard_iff _ _) (not_iff (is_revoked i))))))))

  supported_iff :
      (credential : Credential Time O T) (issuers : List Doc) (entry : Status O)
      → (check_supported env document credential issuers entry ≡ ok tt)
        ↔ IsUnrevoked credential issuers entry
  unfolding check_supported
  supported_iff credential issuers entry =
      iff_trans
        (iff_trans (map_err_bind_iff _ _ _ tt) (
          iff_after (λ status.
            iff_trans (IsIssuer-iff env document credential issuers _ tt)
              (iff_after (λ doc. bitmap_iff doc status)))))
        (
          λ h. record {
            status = h.0;
            parsed = h.1;
            doc = h.2.0;
            issued = h.2.1;
            url = h.2.2.0;
            located = h.2.2.1;
            is_revoked = h.2.2.2.0;
            resolved = h.2.2.2.1;
            i = h.2.2.2.2.0;
            indexed = h.2.2.2.2.1;
            unrevoked = h.2.2.2.2.2;
          },
          λ u. (
            u.status,
            u.parsed,
            (
              u.doc,
              u.issued,
              (u.url, u.located, (u.is_revoked, u.resolved, (u.i, u.indexed, u.unrevoked))),
            ),
          ),
        )

  abbrev check_status_entry :
      StatusCheck
      → Credential Time O T
      → List Doc
      → Option (Status O)
      → Outcome (ValidationError E) (Unit {0})
  check_status_entry skip_all credential issuers entry = ok tt
  check_status_entry strict credential issuers entry =
      check_some_status env document credential issuers strict entry
  check_status_entry skip_unsupported credential issuers entry =
      check_some_status env document credential issuers skip_unsupported entry

  some_status_iff :
      (status_check : StatusCheck) (credential : Credential Time O T) (issuers : List Doc)
      (entry : Option (Status O))
      → (check_status_entry status_check credential issuers entry ≡ ok tt)
        ↔ StatusIsGood credential issuers status_check entry
  some_status_iff skip_all credential issuers entry = (λ h. tt, λ h. refl)
  some_status_iff strict credential issuers none = (λ h. tt, λ h. refl)
  some_status_iff skip_unsupported credential issuers none = (λ h. tt, λ h. refl)
  some_status_iff strict credential issuers (some entry) =
      iff_trans (if_ok_iff _ (λ h. cc))
        (iff_and (list_eq.beq_iff entry.type_ type_name) (supported_iff credential issuers entry))
  some_status_iff skip_unsupported credential issuers (some entry) =
      iff_trans (if_skip_iff _)
        (iff_if (list_eq.beq_iff entry.type_ type_name) (supported_iff credential issuers entry))

  status_iff :
      (status_check : StatusCheck) (credential : Credential Time O T) (issuers : List Doc)
      → (check_status env document credential issuers status_check ≡ ok tt)
        ↔ StatusIsGood credential issuers status_check credential.credential_status
  unfolding check_status
  status_iff skip_all credential issuers = (λ h. tt, λ h. refl)
  status_iff strict credential issuers =
      some_status_iff strict credential issuers credential.credential_status
  status_iff skip_unsupported credential issuers =
      some_status_iff skip_unsupported credential issuers credential.credential_status

  verified_iff :
      (credential : Credential Time O T) (issuers : List Doc) (options : VerifierOptions)
      → (verify_signature env document credential issuers options ≡ ok tt) ↔ (
          (doc : Doc) × IsIssuer env document credential issuers doc
          × (document.verify_data doc credential options ≡ ok tt))
  unfolding verify_signature
  verified_iff credential issuers options =
      iff_trans (IsIssuer-iff env document credential issuers _ tt)
        (iff_after (λ doc. map_err_iff _ _ tt))

  pub record IsTrusted (credential : Credential Time O T) (issuers : List Doc)
      (options : CredentialValidationOptions Time)
      (criterion : Option (Text × SubjectHolderRelationship)) : Type 0 where
    pub issued :
        env.le credential.issuance_date (unwrap_or options.latest_issuance_date env.now) ≡ true
    pub unexpired :
        (t : Time)
        → credential.expiration_date ≡ some t
        → env.le (unwrap_or options.earliest_expiry_date env.now) t ≡ true
    pub structured : HasStructure credential
    pub related :
        (holder : Text) (relationship : SubjectHolderRelationship)
        → criterion ≡ some (holder, relationship)
        → Relates relationship holder credential
    pub signer : Doc
    pub trusted : IsIssuer env document credential issuers signer
    pub signed : document.verify_data signer credential options.verifier_options ≡ ok tt
    pub status : StatusIsGood credential issuers options.status credential.credential_status

  criterion_iff :
      (credential : Credential Time O T) (criterion : Option (Text × SubjectHolderRelationship))
      → (check_relationship env document credential criterion ≡ ok tt) ↔ (
          (holder : Text) (relationship : SubjectHolderRelationship)
          → criterion ≡ some (holder, relationship)
          → Relates relationship holder credential)
  unfolding check_subject_holder_relationship
  criterion_iff credential none = (λ h holder relationship e. cc, λ h. refl)
  criterion_iff credential (some (url, wanted)) = (
    λ h holder relationship e.
        let same = some_injective e in
        subst (λ (c : Text × SubjectHolderRelationship). Relates c.1 c.0 credential) same
          ((relationship_iff wanted url credential).0 ((guard_iff _ _).0 h)),
    λ h. (guard_iff _ _).1 ((relationship_iff wanted url credential).1 (h url wanted refl)),
  )

  -- Whether the validation stops at the first error or collects them all, it accepts a credential
  -- exactly when the credential was issued in time, has not expired, has the structure of credentials,
  -- stands in the wanted relation to the holder, is signed by the trusted document of its issuer, and
  -- has a status that the wanted check of the status accepts.
  pub validate_extended_iff :
      (credential : Credential Time O T) (issuers : List Doc)
      (options : CredentialValidationOptions Time)
      (criterion : Option (Text × SubjectHolderRelationship)) (fail_fast : FailFast)
      → (validate_extended env document credential issuers options criterion fail_fast ≡ ok tt)
        ↔ IsTrusted credential issuers options criterion
  unfolding validate_extended validation_units check_issued_on_or_before check_expires_on_or_after
  validate_extended_iff credential issuers options criterion fail_fast =
      iff_trans
        (iff_trans
          (no_errors_iff fail_fast
            (validation_units env document credential issuers options criterion))
          (iff_and (guard_iff _ _) (
            iff_and
              (iff_trans (guard_iff _ _) (expires_after_iff env.le credential.expiration_date _))
              (iff_and (iff_trans (map_err_iff _ _ tt) (check_structure_iff credential)) (
                iff_and (criterion_iff credential criterion) (
                  iff_and (verified_iff credential issuers options.verifier_options)
                    (iff_and (status_iff options.status credential issuers) (λ t. t, λ t. t))))))))
        (
          λ h. record {
            issued = h.0;
            unexpired = h.1.0;
            structured = h.1.1.0;
            related = h.1.1.1.0;
            signer = h.1.1.1.1.0.0;
            trusted = h.1.1.1.1.0.1;
            signed = h.1.1.1.1.0.2;
            status = h.1.1.1.1.1.0;
          },
          λ t. (
            t.issued,
            (
              t.unexpired,
              (t.structured, (t.related, ((t.signer, t.trusted, t.signed), (t.status, tt)))),
            ),
          ),
        )
