-- ===== src/Iota/Document/Signed.antt =====
-- What a document accepts as its update: a document that one of its methods has signed.
use identity_rs.Core.Proof.{Proof}
use identity_rs.Did.Document.{CoreDocument, resolve_method}
use identity_rs.Did.Method.{
  MethodType, VerificationMethod, ed25519_verification_key_2018, x25519_key_agreement_key_2019,
}
use identity_rs.Did.Signing.{Signable, SignerError, create_signature}
use identity_rs.Did.Signing.Verifies.{Corresponds, proof_of, create_signature-inv, HasValue-signed}
use identity_rs.Did.Verify.{Verifiable, type_beq, verify_data}
use identity_rs.Did.Verify.Accepted.{verify_data_iff}
use identity_rs.Iota.Document.{
  IotaDocument, Error, document_sign_error, x25519_cannot_sign, Suite, is_signing_method_type,
  capability_invocation, update_options, default_options, signable, verifiable, method_id,
  resolve_signing_method, sign_self, verify_document,
}
use identity_rs.Prelude.{
  ◌≡◌, inr, refl, sym, ◌∙◌, subst, true, some, HasEq, any, Outcome, ok, err, guard, ok_or, map_err,
  map_err-ok, bind_parts, guard_iff, ok_or_iff, Text, arith,
}

pub some-injective : {A : Type 0} {a b : A} → some a ≡ some b → a ≡ b
some-injective h = ground arith

ed25519_signs :
    {A E : Type 0} (type_ : MethodType) (r : Outcome (SignerError E) A) (a : A)
    → ◌≡◌ {A = Outcome (Error E) A}
        (elim type_ [
          | ed25519_verification_key_2018 ↦ map_err document_sign_error r
          | x25519_key_agreement_key_2019 ↦ err x25519_cannot_sign
        ])
        (ok a)
    → (type_ ≡ ed25519_verification_key_2018) × (r ≡ ok a)
ed25519_signs ed25519_verification_key_2018 r a h = (refl, map_err-ok _ r h)
ed25519_signs x25519_key_agreement_key_2019 r a h = cc

-- What a method has signed is accepted under the options for updates, wherever the name of the method
-- in the proof leads to it.
module _ {X D T U V P Time K E : Type 0} (signer : Signable X Time K E)
    (verifier : Verifiable X Time E) (as_str : D → Text) (now : Time) where
  pub verify_data-created :
      (doc : CoreDocument D T U V P) (private : K) (uri : Text) (that signed : X)
      (method : VerificationMethod D U)
      → resolve_method as_str doc uri (some capability_invocation) ≡ some method
      → Corresponds signer verifier private method
      → method.type_ ≡ ed25519_verification_key_2018
      → create_signature signer that uri private default_options ≡ ok signed
      → verify_data verifier as_str now doc signed update_options ≡ ok tt
  verify_data-created doc private uri that signed method back c ed25519 created =
      let (value, produced, made) =
        create_signature-inv signer private uri default_options that signed created in
      (verify_data_iff verifier as_str now doc signed update_options).1 (
        proof_of uri default_options value,
        method,
        record {
          signed = rw made (
              c.same_signature (signer.set_signature that (proof_of uri default_options value))
              ∙ signer.signature-set that (proof_of uri default_options value));
          in_scope = back;
          typed = λ types e. inr (
              subst (λ ts. any (λ allowed. type_beq allowed method.type_) ts ≡ true)
                (some-injective e) (rw ed25519 refl));
          challenged = λ _ e. cc;
          in_domain = λ _ e. cc;
          purposed = λ _ e. cc;
          in_time = λ t e. cc;
          checked = rw made (
              HasValue-signed signer verifier private method uri default_options that value c
                ed25519 produced);
        },
      )

module _ {D T U V P Time O : Type 0} (as_str : D → Text) where
  signing_method_ok :
      {E : Type 0} (this : IotaDocument D T U V P Time O) (q : Text)
      (method : VerificationMethod D U)
      → ◌≡◌ {A = Outcome (Error E) (VerificationMethod D U)}
          (resolve_signing_method as_str this q)
          (ok method)
      → (resolve_method as_str this.document q (some capability_invocation) ≡ some method)
        × (is_signing_method_type method.type_ ≡ true)
  unfolding resolve_signing_method
  signing_method_ok this q method h =
      let (found, a, h) = bind_parts (ok_or (resolve_method as_str this.document q _) _) _ h in
      let (_, b, h) = bind_parts (guard (is_signing_method_type found.type_) _) _ h in
      let same : found ≡ method = ground (arith, h) in
      subst
        (λ (m : VerificationMethod D U).
          (resolve_method as_str this.document q (some capability_invocation) ≡ some m)
          × (is_signing_method_type m.type_ ≡ true))
        same ((ok_or_iff _ _ found).0 a, (guard_iff _ _).0 b)

  module _ {K E : Type 0} ⦃e : HasEq D⦄
      (suite : Suite (IotaDocument D T U V P Time O) K Time E) where
    -- how a document signs itself
    pub sign_self-parts :
        (this : IotaDocument D T U V P Time O) (private : K) (q : Text)
        (signed : IotaDocument D T U V P Time O)
        → sign_self as_str suite this private q ≡ ok signed
        → (method : VerificationMethod D U) × (uri : Text) × (resolve_method as_str this.document q
              (some capability_invocation)
            ≡ some method)
          × ◌≡◌ {A = Outcome (Error E) Text} (method_id as_str this.document.id method) (ok uri)
          × (method.type_ ≡ ed25519_verification_key_2018)
          × (create_signature (signable suite) this uri private default_options ≡ ok signed)
    unfolding sign_self
    sign_self-parts this private q signed h =
        let (method, a, h) = bind_parts (resolve_signing_method as_str this q) _ h in
        let (uri, b, h) = bind_parts (method_id as_str this.document.id method) _ h in
        let (found, _) = signing_method_ok this q method a in
        let (typed, created) =
          ed25519_signs method.type_
            (create_signature (signable suite) this uri private default_options) signed h in
        (method, uri, found, b, typed, created)

    -- What a document has signed as itself is accepted as an update by every document in which the
    -- name of the method in the proof leads to that method for capability invocation, at every time;
    -- and the signature changes only the proof, which names the method. The private key must belong to
    -- the method.
    pub verify_document-sign_self :
        (now : Time) (this verifying signed : IotaDocument D T U V P Time O) (private : K)
        (q : Text) (method : VerificationMethod D U)
        → resolve_method as_str this.document q (some capability_invocation) ≡ some method
        → ((uri : Text)
            → ◌≡◌ {A = Outcome (Error E) Text} (method_id as_str this.document.id method) (ok uri)
            → resolve_method as_str verifying.document uri (some capability_invocation)
              ≡ some method)
        → Corresponds (signable suite) (verifiable suite) private method
        → sign_self as_str suite this private q ≡ ok signed
        → (verify_document as_str suite now verifying signed ≡ ok tt)
          × ((proof : Proof Time) × ◌≡◌ {A = Outcome (Error E) Text}
                (method_id as_str this.document.id method)
                (ok proof.method)
              × (signed ≡ record this { proof = some proof }))
    unfolding verify_document
    verify_document-sign_self now this verifying signed private q method found back c h =
        let (by, uri, found', named, ed25519, created) = sign_self-parts this private q signed h in
        let same : method ≡ by = some-injective (sym found ∙ found') in
        let (value, produced, made) =
          create_signature-inv (signable suite) private uri default_options this signed created in
        let named' =
          subst
            (λ (m : VerificationMethod D U).
              ◌≡◌ {A = Outcome (Error E) Text} (method_id as_str this.document.id m) (ok uri))
            (sym same) named in
        let ed25519' =
          subst (λ (m : VerificationMethod D U). m.type_ ≡ ed25519_verification_key_2018) (sym same)
            ed25519 in
        let accepted =
          verify_data-created (signable suite) (verifiable suite) as_str now verifying.document
            private uri this signed method (back uri named') c ed25519' created in
        (rw accepted refl, (proof_of uri default_options value, named', made))
