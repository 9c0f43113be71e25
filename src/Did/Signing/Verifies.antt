-- ===== src/Did/Signing/Verifies.antt =====
-- What is signed with a method of a document is verified by the document.
use identity_rs.Core.Proof.{Proof, ProofOptions, ProofValue, new_with_options}
use identity_rs.Did.Document.{CoreDocument, resolve_method}
use identity_rs.Did.Method.{VerificationMethod, ed25519_verification_key_2018}
use identity_rs.Did.Signing.{Signable, method_uri, try_method, create_signature, sign}
use identity_rs.Did.Verify.{Verifiable, VerifierOptions, suite_name, verify_data}
use identity_rs.Did.Verify.Accepted.{HasValue, verify_data_iff}
use identity_rs.Prelude.{
  ℕ, ◌≡◌, inl, inr, refl, sym, ◌∙◌, false, none, some, List, Outcome, ok, Text, list_eq, nat_eq,
  arith, map_err-ok, bind_parts, Option-cases,
}

-- Options that ask for nothing, and let an expired proof pass only if they say so.
abbrev pub plain_options : VerifierOptions
plain_options = record {
  method_scope = none;
  method_type = none;
  challenge = none;
  domain = none;
  purpose = none;
  allow_expired = none;
}

pub ok-injective : {E A : Type 0} {a b : A} → ◌≡◌ {A = Outcome E A} (ok a) (ok b) → a ≡ b
ok-injective h = ground arith

abbrev pub proof_of : {Time : Type 0} → Text → ProofOptions Time → Text → Proof Time
proof_of uri options value = record (new_with_options suite_name uri options) {
  value = ProofValue.signature value;
}

module _ {X Time K E : Type 0} (signer : Signable X Time K E) where
  create_signature-ok :
      (private : K) (uri : Text) (options : ProofOptions Time) (that : X) (value : Text)
      → signer.sign (signer.set_signature that (new_with_options suite_name uri options)) private
        ≡ ok value
      → create_signature signer that uri private options
        ≡ ok (signer.set_signature that (proof_of uri options value))
  unfolding create_signature
  create_signature-ok private uri options that value produced =
      rw (produced, signer.signature-set, signer.set_signature_twice) refl

  pub create_signature-inv :
      (private : K) (uri : Text) (options : ProofOptions Time) (that signed : X)
      → create_signature signer that uri private options ≡ ok signed
      → (value : Text) × (signer.sign
            (signer.set_signature that (new_with_options suite_name uri options))
            private
          ≡ ok value)
        × (signed ≡ signer.set_signature that (proof_of uri options value))
  unfolding create_signature
  create_signature-inv private uri options that signed h =
      let (value, produced, _) = bind_parts _ _ h in
      let produced' : signer.sign
            (signer.set_signature that (new_with_options suite_name uri options)) private
          ≡ ok value =
        map_err-ok _ _ produced in
      let made : create_signature signer that uri private options
          ≡ ok (signer.set_signature that (proof_of uri options value)) =
        create_signature-ok private uri options that value produced' in
      (value, produced', ok-injective (sym h ∙ made))

module _ {X Time K E D U : Type 0} (signer : Signable X Time K E)
    (verifier : Verifiable X Time E) where
  -- The verifier reads the proof that the signer sets, and the libraries check what they have signed:
  -- the key of the method belongs to the private key, and the value of the proof is no part of what
  -- is signed.
  pub record Corresponds (private : K) (method : VerificationMethod D U) : Type 0 where
    pub same_signature : (this : X) → verifier.signature this ≡ signer.signature this
    pub public_key : List ℕ
    pub decoded : verifier.try_decode method.content ≡ ok public_key
    pub signed :
        (this : X) (proof : Proof Time) (value : Text)
        → signer.sign (signer.set_signature this proof) private ≡ ok value
        → verifier.verify
            (signer.set_signature this (record proof { value = ProofValue.signature value }))
            (ProofValue.signature value)
            public_key
          ≡ ok tt

  pub HasValue-signed :
      (private : K) (method : VerificationMethod D U) (uri : Text) (options : ProofOptions Time)
      (that : X) (value : Text)
      → Corresponds private method
      → method.type_ ≡ ed25519_verification_key_2018
      → signer.sign (signer.set_signature that (new_with_options suite_name uri options)) private
        ≡ ok value
      → HasValue verifier method
          (signer.set_signature that (proof_of uri options value))
          (proof_of uri options value)
  HasValue-signed private method uri options that value c t produced = record {
    suite = refl;
    ed25519 = t;
    public_key = c.public_key;
    decoded = c.decoded;
    verified = c.signed that (new_with_options suite_name uri options) value produced;
  }

  module _ {T V P : Type 0} (as_str : D → Text) where
    pub sign-inv :
        (doc : CoreDocument D T U V P) (private : K) (q : Text) (options : ProofOptions Time)
        (that signed : X) (method : VerificationMethod D U)
        → resolve_method as_str doc q none ≡ some method
        → sign signer as_str doc private (some q) options that ≡ ok signed
        → (uri : Text) × (method_uri as_str signer.uri_type method ≡ some uri)
          × (method.type_ ≡ ed25519_verification_key_2018)
          × (create_signature signer that uri private options ≡ ok signed)
    unfolding sign try_method
    sign-inv doc private q options that signed method found h =
        elim (Option-cases (method_uri as_str signer.uri_type method)) [
          | inl missing ↦ absurd (ground arith)
          | inr (uri, e) ↦ (uri, e, ground arith, ground arith)
        ]

    -- What a method of the document signs, the document verifies: if the query leads to a method and
    -- signing with it succeeds, the signed data are accepted without further options, at every time
    -- at which the proof has not expired. The URI that the proof names must lead back to that method,
    -- and the private key must belong to it.
    pub verify_data-sign :
        (now : Time) (doc : CoreDocument D T U V P) (private : K) (q : Text)
        (options : ProofOptions Time) (that signed : X) (method : VerificationMethod D U)
        → resolve_method as_str doc q none ≡ some method
        → ((uri : Text)
            → method_uri as_str signer.uri_type method ≡ some uri
            → resolve_method as_str doc uri none ≡ some method)
        → Corresponds private method
        → ((t : Time) → options.expires ≡ some t → verifier.later now t ≡ false)
        → sign signer as_str doc private (some q) options that ≡ ok signed
        → verify_data verifier as_str now doc signed plain_options ≡ ok tt
    verify_data-sign now doc private q options that signed method found back c fresh h =
        let (uri, named, ed25519, created) =
          sign-inv doc private q options that signed method found h in
        let (value, produced, same) =
          create_signature-inv signer private uri options that signed created in
        (verify_data_iff verifier as_str now doc signed plain_options).1 (
          proof_of uri options value,
          method,
          record {
            signed = rw same (
                c.same_signature (signer.set_signature that (proof_of uri options value))
                ∙ signer.signature-set that (proof_of uri options value));
            in_scope = back uri named;
            typed = λ types e. cc;
            challenged = λ _ e. cc;
            in_domain = λ _ e. cc;
            purposed = λ _ e. cc;
            in_time = λ t e. inr (fresh t e);
            checked =
                rw same (HasValue-signed private method uri options that value c ed25519 produced);
          },
        )
