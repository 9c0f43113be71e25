-- ===== src/Did/Signing/Tests.antt =====
-- Runs of signing and of the verification: letters are signed with a number.
use identity_rs.Core.Proof.{Proof, ProofOptions, ProofValue, assertion_method}
use identity_rs.Did.Document
use identity_rs.Did.Document.{resolve_method}
use identity_rs.Did.Query
use identity_rs.Did.Query.{matches, did_str, end_pos, cut, fragment}
use identity_rs.Did.Revocation.Samples.{issuer_document}
use identity_rs.Did.Samples.{as_str, method}
use identity_rs.Did.Signing.{Signable, relative, method_uri, try_method, create_signature, sign}
use identity_rs.Did.Signing.Verifies.{Corresponds, plain_options, verify_data-sign}
use identity_rs.Did.Url
use identity_rs.Did.Verify.{
  Verifiable, verify_signature, do_verify, signing_method, verify_data, suite_name, expired,
  invalid_challenge,
}
use identity_rs.Did.Verify.Accepted.{IsAccepted, verify_data_iff}
use identity_rs.Prelude.{
  ℕ, ◌≡◌, ◌↔◌, refl, subst, false, Option, none, some, List, [], ◌∷◌, ◌==◌, ltb, Outcome, ok, err,
  guard, Text, text, nat_eq, list_eq, arith,
}

record Letter : Type 0 where
  body : ℕ
  proof : Option (Proof ℕ)

abbrev value_matches : ℕ → ProofValue → List ℕ → Outcome ℕ (Unit {0})
value_matches body (ProofValue.signature value) key = guard (value == body ∷ key) 0
value_matches body ProofValue.none key = err 1
value_matches body (ProofValue.jws _) key = err 1
value_matches body (ProofValue.proof _) key = err 1

abbrev signer : Signable Letter ℕ ℕ ℕ
signer = record {
  signature = λ this. this.proof;
  set_signature = λ this proof. record this { proof = some proof };
  signature-set = λ this proof. refl;
  set_signature_twice = λ this proof proof'. refl;
  uri_type = relative;
  sign = λ this key. ok (this.body ∷ key ∷ []);
}

abbrev verifier : Verifiable Letter ℕ ℕ
verifier = record {
  signature = λ this. this.proof;
  try_decode = λ _. ok (5 ∷ []);
  verify = λ this value key. value_matches this.body value key;
  later = λ a b. ltb b a;
}

abbrev letter : Letter
letter = record { body = 9; proof = none }

abbrev options : ProofOptions ℕ
options = record {
  created = some 10;
  expires = some 20;
  challenge = none;
  domain = none;
  purpose = some assertion_method;
}

abbrev signed_letter : Letter
signed_letter = record {
  body = 9;
  proof = some (record {
    type_ = suite_name;
    value = ProofValue.signature (9 ∷ 5 ∷ []);
    method = text "#k1";
    created = some 10;
    expires = some 20;
    challenge = none;
    domain = none;
    purpose = some assertion_method;
  });
}

program : Unit {0}
unfolding Document.query_methods Document.query_refs Document.resolve_method_ref Document.first_ref
    Document.resolve_method_inner resolve_method cut end_pos did_str fragment matches
    Query.did_matches Query.query Url.get_fragment Url.did_url_to_string method_uri try_method
    create_signature sign verify_signature do_verify signing_method verify_data
program = tt

signs : sign signer as_str issuer_document 5 (some (text "#k1")) options letter ≡ ok signed_letter
unfolding program
signs = refl

-- A proof is accepted until it expires, and only for the challenge that it answers.
verifies :
    (verify_data verifier as_str 20 issuer_document signed_letter plain_options ≡ ok tt)
    × (verify_data verifier as_str 21 issuer_document signed_letter plain_options ≡ err expired)
    × (verify_data verifier as_str 15 issuer_document signed_letter
          (record plain_options { challenge = some (text "c") })
        ≡ err invalid_challenge)
unfolding program
verifies = (refl, refl, refl)

verify_data-iff_example :
    (verify_data verifier as_str 15 issuer_document signed_letter plain_options ≡ ok tt) ↔ (
      (proof : Proof ℕ) × (by : _) × IsAccepted verifier as_str 15 issuer_document signed_letter
        plain_options proof by)
verify_data-iff_example =
    verify_data_iff verifier as_str 15 issuer_document signed_letter plain_options

value_checks :
    (body : ℕ) (value : Text)
    → ◌≡◌ {A = Outcome ℕ Text} (ok (body ∷ 5 ∷ [])) (ok value)
    → value_matches body (ProofValue.signature value) (5 ∷ []) ≡ ok tt
value_checks body value h =
    let same : value ≡ body ∷ 5 ∷ [] = ground arith in
    rw ((list_eq.beq_iff value (body ∷ 5 ∷ [])).1 same) refl

corresponds : Corresponds signer verifier 5 (method (text "k1"))
corresponds = record {
  same_signature = λ this. refl;
  public_key = 5 ∷ [];
  decoded = refl;
  signed = λ this proof value h. value_checks this.body value h;
}

some-injective : {A : Type 0} {a b : A} → some a ≡ some b → a ≡ b
some-injective h = ground arith

leads_back :
    (uri : Text)
    → method_uri as_str signer.uri_type (method (text "k1")) ≡ some uri
    → resolve_method as_str issuer_document uri none ≡ some (method (text "k1"))
unfolding program
leads_back uri named =
    subst (λ q. resolve_method as_str issuer_document q none ≡ some (method (text "k1")))
      (some-injective named) refl

verify_data-sign_example :
    verify_data verifier as_str 15 issuer_document signed_letter plain_options ≡ ok tt
unfolding program
verify_data-sign_example =
    verify_data-sign signer verifier as_str 15 issuer_document 5 (text "#k1") options letter
      signed_letter (method (text "k1")) refl leads_back corresponds
      (λ t e. subst (λ u. ltb u 15 ≡ false) (some-injective e) refl) refl
