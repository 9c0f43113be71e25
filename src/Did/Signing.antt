-- ===== src/Did/Signing.antt =====
-- identity_did/src/verifiable/document_signer.rs, with the traits TryMethod
-- (identity_did/src/verification/traits.rs) and Signer (identity_core/src/crypto/signature/core.rs):
-- data are signed with a method of a document.
pub mod Verifies
mod Tests
use identity_rs.Core.Proof.{Proof, ProofOptions, ProofValue, new_with_options}
use identity_rs.Did.Document.{CoreDocument, resolve_method}
use identity_rs.Did.Method.{
  VerificationMethod, ed25519_verification_key_2018, x25519_key_agreement_key_2019,
}
use identity_rs.Did.Url.{get_fragment, did_url_to_string}
use identity_rs.Did.Verify.{Verifiable, suite_name}
use identity_rs.Prelude.{
  ◌≡◌, Option, none, some, ◌∷◌, Outcome, ok, err, ◌>>=◌, ok_or, map_err, Text,
}

pub data MethodUriType : Type 0 where
  absolute relative : MethodUriType

pub data SignerError (E : Type 0) : Type 0 where
  method_not_found missing_id_fragment invalid_method_type missing_signature : SignerError E
  library_error : E → SignerError E

-- Data that are signed: their proof can be set, and a library signs their text with a key.
pub record Signable (X Time K E : Type 0) : Type 0 where
  pub signature : X → Option (Proof Time)
  pub set_signature : X → Proof Time → X
  pub signature-set :
      (this : X) (proof : Proof Time) → signature (set_signature this proof) ≡ some proof
  pub set_signature_twice :
      (this : X) (proof proof' : Proof Time)
      → set_signature (set_signature this proof) proof' ≡ set_signature this proof'
  pub uri_type : MethodUriType
  pub sign : X → K → Outcome E Text

module _ {D U : Type 0} (as_str : D → Text) where
  -- `TryMethod::method`
  unfoldable pub method_uri : MethodUriType → VerificationMethod D U → Option Text
  method_uri uri_type method = elim (get_fragment method.id.url) [
    | none ↦ none
    | some fragment ↦ elim uri_type [
      | absolute ↦ some (did_url_to_string as_str method.id)
      | relative ↦ some (b'#' ∷ fragment)
    ]
  ]

  unfoldable pub try_method :
      {E : Type 0} → MethodUriType → VerificationMethod D U → Outcome (SignerError E) Text
  try_method uri_type method = ok_or (method_uri uri_type method) missing_id_fragment

module _ {X Time K E : Type 0} (lib : Signable X Time K E) where
  -- `JcsEd25519::create_signature`
  unfoldable pub create_signature : X → Text → K → ProofOptions Time → Outcome (SignerError E) X
  create_signature this method secret options =
      let this' = lib.set_signature this (new_with_options suite_name method options) in
      do
        value ← map_err library_error (lib.sign this' secret)
        write ← ok_or (lib.signature this') missing_signature
        ok (lib.set_signature this' (record write { value = ProofValue.signature value }))

  module _ {D T U V P : Type 0} (as_str : D → Text) where
    -- The method is the one that was set in the signer, if any.
    unfoldable pub sign :
        CoreDocument D T U V P → K → Option Text → ProofOptions Time → X → Outcome (SignerError E) X
    sign document private method options that = do
      query ← ok_or method method_not_found
      method ← ok_or (resolve_method as_str document query none) method_not_found
      uri ← try_method as_str lib.uri_type method
      elim method.type_ [
        | ed25519_verification_key_2018 ↦ create_signature that uri private options
        | x25519_key_agreement_key_2019 ↦ err invalid_method_type
      ]
