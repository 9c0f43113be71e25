-- ===== src/Did/Verify/Accepted.antt =====
-- What data a document accepts: the conditions on the proof, without the order of the checks.
use identity_rs.Core.Proof.{Proof, ProofPurpose, assertion_method, authentication, purpose_beq}
use identity_rs.Did.Document.{CoreDocument, resolve_method}
use identity_rs.Did.Method.{
  MethodScope, MethodType, VerificationMethod, ed25519_verification_key_2018,
  x25519_key_agreement_key_2019,
}
use identity_rs.Did.Verify.{
  VerifierOptions, Verifiable, type_beq, agrees, purpose_scope, type_allowed, not_expired,
  do_verify, verify_signature, suite_name, SignatureError, invalid_method_type, signing_method,
  verify_data,
}
use identity_rs.Prelude.{
  ◌≡◌, ◌↔◌, ◌⊎◌, inl, inr, refl, subst, Bool, true, false, Option, none, some, List, [], ◌∷◌, ◌==◌,
  ℕ, sym, ◌∙◌, Outcome, err, guard, map_err, map_err-ok, any, ok, guard_iff, ok_or, ok_or_iff, Text,
  nat_eq, list_eq, arith, bind_parts,
}

some-injective : {A : Type 0} {a b : A} → some a ≡ some b → a ≡ b
some-injective h = ground arith

-- the purpose, if there is one, decides the relationship
abbrev pub wanted_scope : Option ProofPurpose → Option MethodScope → Option MethodScope
wanted_scope (some purpose) scope = some (purpose_scope purpose)
wanted_scope none scope = scope

agrees_lem :
    {A : Type 0} (same : A → A → Bool)
    → ((a b : A) → (same a b ≡ true) ↔ (a ≡ b))
    → (wanted actual : Option A)
    → (agrees same wanted actual ≡ true) ↔ ((a : A) → wanted ≡ some a → actual ≡ some a)
agrees_lem same decides none actual = (λ h a e. cc, λ h. refl)
agrees_lem same decides (some w) none = (λ h a e. cc, λ h. absurd (ground (arith, h w refl)))
agrees_lem same decides (some w) (some b) =
    (λ h a e. ground (arith, (decides w b).0 h), λ h. (decides w b).1 (ground (arith, h w refl)))

purpose_beq_iff : (a b : ProofPurpose) → (purpose_beq a b ≡ true) ↔ (a ≡ b)
purpose_beq_iff assertion_method assertion_method = ground arith
purpose_beq_iff assertion_method authentication = ground arith
purpose_beq_iff authentication assertion_method = ground arith
purpose_beq_iff authentication authentication = ground arith

type_allowed_lem :
    (wanted : Option (List MethodType)) (type_ : MethodType)
    → (type_allowed wanted type_ ≡ true) ↔ (
        (types : List MethodType)
        → wanted ≡ some types
        → types ≡ [] ⊎ any (λ allowed. type_beq allowed type_) types ≡ true)
type_allowed_lem none type_ = (λ h types e. cc, λ h. refl)
type_allowed_lem (some []) type_ = (λ h types e. inl (ground arith), λ h. refl)
type_allowed_lem (some (t ∷ ts)) type_ = (
  λ h types e.
      let e' : t ∷ ts ≡ types = ground arith in
      inr (subst (λ l. any (λ allowed. type_beq allowed type_) l ≡ true) e' h),
  λ h. ground (arith, h (t ∷ ts) refl),
)

module _ {X Time E : Type 0} (lib : Verifiable X Time E) (now : Time) where
  not_expired_lem :
      (allow : Option Bool) (expires : Option Time)
      → (not_expired lib allow now expires ≡ true)
        ↔ ((t : Time) → expires ≡ some t → allow ≡ some true ⊎ lib.later now t ≡ false)
  not_expired_lem allow none = (λ h t e. cc, λ h. refl)
  not_expired_lem (some true) (some t) = (λ h t' e. inl refl, λ h. refl)
  not_expired_lem (some false) (some t) = (
    λ h t' e.
        let e' : t ≡ t' = ground arith in
        inr (subst (λ u. lib.later now u ≡ false) e' (ground arith)),
    λ h. ground (arith, h t refl),
  )
  not_expired_lem none (some t) = (
    λ h t' e.
        let e' : t ≡ t' = ground arith in
        inr (subst (λ u. lib.later now u ≡ false) e' (ground arith)),
    λ h. ground (arith, h t refl),
  )

module _ {X Time E D U : Type 0} (lib : Verifiable X Time E) where
  -- The proof is of the suite, the method has a key of the suite, and the value verifies with that key.
  pub record HasValue (method : VerificationMethod D U) (this : X) (proof : Proof Time)
      : Type 0 where
    pub suite : proof.type_ ≡ suite_name
    pub ed25519 : method.type_ ≡ ed25519_verification_key_2018
    pub public_key : List ℕ
    pub decoded : lib.try_decode method.content ≡ ok public_key
    pub verified : lib.verify this proof.value public_key ≡ ok tt

  do_verify-HasValue :
      (method : VerificationMethod D U) (this : X) (proof : Proof Time)
      → lib.signature this ≡ some proof
      → HasValue method this proof
      → do_verify lib method this ≡ ok tt
  unfolding do_verify verify_signature
  do_verify-HasValue method this proof signed v =
      rw
        (
          v.decoded,
          v.ed25519,
          signed,
          (list_eq.beq_iff proof.type_ suite_name).1 v.suite,
          v.verified,
        )
        refl

  verified_with :
      (method : VerificationMethod D U) (this : X) (public_key : List ℕ) (type_ : MethodType)
      → ◌≡◌ {A = Outcome (SignatureError E) (Unit {0})}
          (elim type_ [
            | ed25519_verification_key_2018 ↦ verify_signature lib this public_key
            | x25519_key_agreement_key_2019 ↦ err invalid_method_type
          ])
          (ok tt)
      → (type_ ≡ ed25519_verification_key_2018) × (verify_signature lib this public_key ≡ ok tt)
  verified_with method this public_key ed25519_verification_key_2018 h = (refl, h)
  verified_with method this public_key x25519_key_agreement_key_2019 h = cc

  HasValue-only :
      (method : VerificationMethod D U) (this : X) (proof : Proof Time)
      → lib.signature this ≡ some proof
      → do_verify lib method this ≡ ok tt
      → HasValue method this proof
  unfolding do_verify verify_signature
  HasValue-only method this proof signed h =
      let (public_key, decoded, h) = bind_parts (map_err _ (lib.try_decode method.content)) _ h in
      let (ed25519, h) = verified_with method this public_key method.type_ h in
      let (proof', found, h) = bind_parts (ok_or (lib.signature this) _) _ h in
      let (_, suite, h) = bind_parts (guard (proof'.type_ == suite_name) _) _ h in
      let same : proof' ≡ proof = some-injective (sym ((ok_or_iff _ _ proof').0 found) ∙ signed) in
      record {
        suite =
            subst (λ (p : Proof Time). p.type_ ≡ suite_name) same
              ((list_eq.beq_iff proof'.type_ suite_name).0 ((guard_iff _ _).0 suite));
        ed25519 = ed25519;
        public_key = public_key;
        decoded = map_err-ok _ _ decoded;
        verified =
            subst (λ (p : Proof Time). lib.verify this p.value public_key ≡ ok tt) same
              (map_err-ok _ _ h);
      }

  -- What `do_verify` accepts.
  pub do_verify_iff :
      (method : VerificationMethod D U) (this : X) (proof : Proof Time)
      → lib.signature this ≡ some proof
      → (do_verify lib method this ≡ ok tt) ↔ HasValue method this proof
  do_verify_iff method this proof signed =
      (HasValue-only method this proof signed, do_verify-HasValue method this proof signed)

module _ {X Time E D T U V P : Type 0} (lib : Verifiable X Time E) (as_str : D → Text) where
  signing_method_iff :
      (doc : CoreDocument D T U V P) (q : Text) (purpose : Option ProofPurpose)
      (scope : Option MethodScope) (method : VerificationMethod D U)
      → (signing_method lib as_str doc q purpose scope ≡ ok method)
        ↔ (resolve_method as_str doc q (wanted_scope purpose scope) ≡ some method)
  unfolding signing_method
  signing_method_iff doc q (some purpose) scope method = ok_or_iff _ _ method
  signing_method_iff doc q none (some scope) method = ok_or_iff _ _ method
  signing_method_iff doc q none none method = ok_or_iff _ _ method

  -- the conditions on a proof and the method that made it
  pub record IsAccepted (now : Time) (doc : CoreDocument D T U V P) (this : X)
      (options : VerifierOptions) (proof : Proof Time) (method : VerificationMethod D U)
      : Type 0 where
    pub signed : lib.signature this ≡ some proof
    pub in_scope :
        resolve_method as_str doc proof.method (wanted_scope options.purpose options.method_scope)
        ≡ some method
    pub typed :
        (types : List MethodType)
        → options.method_type ≡ some types
        → types ≡ [] ⊎ any (λ allowed. type_beq allowed method.type_) types ≡ true
    pub challenged : (c : Text) → options.challenge ≡ some c → proof.challenge ≡ some c
    pub in_domain : (d : Text) → options.domain ≡ some d → proof.domain ≡ some d
    pub purposed : (p : ProofPurpose) → options.purpose ≡ some p → proof.purpose ≡ some p
    pub in_time :
        (t : Time)
        → proof.expires ≡ some t
        → options.allow_expired ≡ some true ⊎ lib.later now t ≡ false
    pub checked : HasValue lib method this proof

  accepted :
      (now : Time) (doc : CoreDocument D T U V P) (this : X) (options : VerifierOptions)
      (proof : Proof Time) (method : VerificationMethod D U)
      → IsAccepted now doc this options proof method
      → verify_data lib as_str now doc this options ≡ ok tt
  unfolding verify_data
  accepted now doc this options proof method a =
      rw
        (
          a.signed,
          (signing_method_iff doc proof.method options.purpose options.method_scope method).1
              a.in_scope,
          (type_allowed_lem options.method_type method.type_).1 a.typed,
          (agrees_lem (λ x y. x == y) list_eq.beq_iff options.challenge proof.challenge).1
              a.challenged,
          (agrees_lem (λ x y. x == y) list_eq.beq_iff options.domain proof.domain).1 a.in_domain,
          (agrees_lem purpose_beq purpose_beq_iff options.purpose proof.purpose).1 a.purposed,
          (not_expired_lem lib now options.allow_expired proof.expires).1 a.in_time,
        )
        ((do_verify_iff lib method this proof a.signed).1 a.checked)

  only-IsAccepted :
      (now : Time) (doc : CoreDocument D T U V P) (this : X) (options : VerifierOptions)
      → verify_data lib as_str now doc this options ≡ ok tt
      → (proof : Proof Time) × (method : VerificationMethod D U) × IsAccepted now doc this options
          proof method
  unfolding verify_data
  only-IsAccepted now doc this options h =
      let (proof, signed, h) = bind_parts (ok_or (lib.signature this) _) _ h in
      let (method, signing, h) = bind_parts _ _ h in
      let (_, types, h) = bind_parts _ _ h in
      let (_, challenge, h) = bind_parts _ _ h in
      let (_, domain, h) = bind_parts _ _ h in
      let (_, purpose, h) = bind_parts _ _ h in
      let (_, time, h) = bind_parts _ _ h in
      (
        proof,
        method,
        record {
          signed = (ok_or_iff _ _ proof).0 signed;
          in_scope = (signing_method_iff doc proof.method _ _ method).0 signing;
          typed = (type_allowed_lem options.method_type method.type_).0 ((guard_iff _ _).0 types);
          challenged = (agrees_lem _ list_eq.beq_iff _ _).0 ((guard_iff _ _).0 challenge);
          in_domain = (agrees_lem _ list_eq.beq_iff _ _).0 ((guard_iff _ _).0 domain);
          purposed = (agrees_lem _ purpose_beq_iff _ _).0 ((guard_iff _ _).0 purpose);
          in_time =
              (not_expired_lem lib now options.allow_expired proof.expires).0
                ((guard_iff _ _).0 time);
          checked = (do_verify_iff lib method this proof ((ok_or_iff _ _ proof).0 signed)).0 h;
        },
      )

  -- A document accepts data exactly when they carry a proof whose method the document has, in the
  -- relationship of the wanted purpose or else in the wanted scope; the type of the method is one of
  -- those that are allowed, if any are named; the challenge, the domain and the purpose of the proof
  -- are the wanted ones; the proof is not expired, or may be; it names the signature suite, the method is
  -- of the type Ed25519VerificationKey2018, its key can be decoded, and the value of the proof verifies
  -- with that key.
  pub verify_data_iff :
      (now : Time) (doc : CoreDocument D T U V P) (this : X) (options : VerifierOptions)
      → (verify_data lib as_str now doc this options ≡ ok tt) ↔ (
          (proof : Proof Time) × (method : VerificationMethod D U) × IsAccepted now doc this options
            proof method)
  verify_data_iff now doc this options =
      (only-IsAccepted now doc this options, λ a. accepted now doc this options a.0 a.1 a.2)
