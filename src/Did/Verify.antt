-- ===== src/Did/Verify.antt =====
-- identity_did/src/document/core_document.rs: `verify_data`, with
-- identity_did/src/verifiable/verifier_options.rs and identity_core/src/crypto (proof/proof.rs,
-- proof/proof_options.rs, signature/core.rs). The codec of keys and the check of a signature value
-- are arguments; so are the clock and the order of times.
pub mod Accepted
use identity_rs.Core.Proof.{
  Proof, ProofPurpose, ProofValue, assertion_method, authentication, purpose_beq,
}
use identity_rs.Did.Document.{CoreDocument, resolve_method}
use identity_rs.Did.Method.{
  MethodScope, MethodRelationship, MethodType, MethodData, VerificationMethod,
  verification_relationship, ed25519_verification_key_2018, x25519_key_agreement_key_2019,
}
use identity_rs.Prelude.{
  ℕ, ◌≡◌, ◌↔◌, Bool, true, false, not, ◌&&◌, ◌||◌, Option, none, some, List, [], ◌∷◌, HasEq, ◌==◌,
  any, unwrap_or, Outcome, ok, err, ◌>>=◌, guard, ok_or, map_err, Text, text, nat_eq, list_eq,
  arith,
}

pub record VerifierOptions : Type 0 where
  pub method_scope : Option MethodScope
  pub method_type : Option (List MethodType)
  pub challenge : Option Text
  pub domain : Option Text
  pub purpose : Option ProofPurpose
  pub allow_expired : Option Bool

-- What the data under verification offer, and the parts that libraries do: `try_decode` of a method's
-- key, and `verify` of the serialized data with the value of the proof left out.
pub record Verifiable (X Time E : Type 0) : Type 0 where
  pub signature : X → Option (Proof Time)
  pub try_decode : MethodData → Outcome E (List ℕ)
  pub verify : X → ProofValue → List ℕ → Outcome E (Unit {0})
  pub later : Time → Time → Bool

pub data SignatureError (E : Type 0) : Type 0 where
  missing_signature method_with_purpose_scope_not_found : SignatureError E
  method_with_specified_scope_not_found method_not_found : SignatureError E
  wrong_method_type invalid_challenge invalid_domain invalid_purpose expired : SignatureError E
  invalid_method_type invalid_proof_value : SignatureError E
  library_error : E → SignatureError E

abbrev pub type_beq : MethodType → MethodType → Bool
type_beq ed25519_verification_key_2018 ed25519_verification_key_2018 = true
type_beq x25519_key_agreement_key_2019 x25519_key_agreement_key_2019 = true
type_beq _ _ = false

-- `options.field.is_some() && options.field != signature.field`, negated
abbrev pub agrees : {A : Type 0} → (A → A → Bool) → Option A → Option A → Bool
agrees same none actual = true
agrees same (some wanted) none = false
agrees same (some wanted) (some actual) = same wanted actual

abbrev pub purpose_scope : ProofPurpose → MethodScope
purpose_scope assertion_method = verification_relationship MethodRelationship.assertion_method
purpose_scope authentication = verification_relationship MethodRelationship.authentication

-- `if !method_types.is_empty() && !method_types.contains(&method.type_)`, negated
abbrev pub type_allowed : Option (List MethodType) → MethodType → Bool
type_allowed none type_ = true
type_allowed (some []) type_ = true
type_allowed (some (t ∷ ts)) type_ = any (λ allowed. type_beq allowed type_) (t ∷ ts)

abbrev pub suite_name : Text
suite_name = text "JcsEd25519Signature2020"

module _ {X Time E : Type 0} (lib : Verifiable X Time E) where
  abbrev pub not_expired : Option Bool → Time → Option Time → Bool
  not_expired allow_expired now none = true
  not_expired allow_expired now (some expires) =
      unwrap_or allow_expired false || not (lib.later now expires)

  -- `JcsEd25519::verify_signature`
  unfoldable pub verify_signature : X → List ℕ → Outcome (SignatureError E) (Unit {0})
  verify_signature this public = do
    proof ← ok_or (lib.signature this) missing_signature
    _ ← guard (proof.type_ == suite_name) invalid_proof_value
    map_err library_error (lib.verify this proof.value public)

  module _ {D U : Type 0} where
    unfoldable pub do_verify : VerificationMethod D U → X → Outcome (SignatureError E) (Unit {0})
    do_verify method this = do
      public_key ← map_err library_error (lib.try_decode method.content)
      elim method.type_ [
        | ed25519_verification_key_2018 ↦ verify_signature this public_key
        | x25519_key_agreement_key_2019 ↦ err invalid_method_type
      ]

  module _ {D T U V P : Type 0} (as_str : D → Text) where
    -- the purpose takes precedence over the scope
    unfoldable pub signing_method :
        CoreDocument D T U V P
        → Text
        → Option ProofPurpose
        → Option MethodScope
        → Outcome (SignatureError E) (VerificationMethod D U)
    signing_method doc q (some purpose) scope =
        ok_or (resolve_method as_str doc q (some (purpose_scope purpose)))
          method_with_purpose_scope_not_found
    signing_method doc q none (some scope) =
        ok_or (resolve_method as_str doc q (some scope)) method_with_specified_scope_not_found
    signing_method doc q none none = ok_or (resolve_method as_str doc q none) method_not_found

    unfoldable pub verify_data :
        Time → CoreDocument D T U V P → X → VerifierOptions → Outcome (SignatureError E) (Unit {0})
    verify_data now doc this options = do
      proof ← ok_or (lib.signature this) missing_signature
      method ← signing_method doc proof.method options.purpose options.method_scope
      _ ← guard (type_allowed options.method_type method.type_) wrong_method_type
      _ ← guard (agrees (λ a b. a == b) options.challenge proof.challenge) invalid_challenge
      _ ← guard (agrees (λ a b. a == b) options.domain proof.domain) invalid_domain
      _ ← guard (agrees purpose_beq options.purpose proof.purpose) invalid_purpose
      _ ← guard (not_expired options.allow_expired now proof.expires) expired
      do_verify method this
