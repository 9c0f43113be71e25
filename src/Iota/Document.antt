-- ===== src/Iota/Document.antt =====
-- identity_iota_core/src/document: iota_document.rs and iota_document_metadata.rs. The signatures and
-- the codec of keys are libraries', and so is the digest of a key; `tag` is that of the DID.
pub mod Signed
pub mod Root
use identity_rs.Chain.Index.{MessageId, null}
use identity_rs.Core.OrderedSet
use identity_rs.Core.Proof.{Proof, ProofOptions, ProofValue}
use identity_rs.Did.Builder
use identity_rs.Did.Builder.{BuilderError, new_document, set_document, from_builder}
use identity_rs.Did.Document.{CoreDocument, resolve_method, resolve_method_ref}
use identity_rs.Did.Method.{
  MethodRelationship, MethodScope, MethodRef, MethodType, MethodData, VerificationMethod, embed,
  refer, verification_relationship, ed25519_verification_key_2018, x25519_key_agreement_key_2019,
}
use identity_rs.Did.Query.{from_did_url}
use identity_rs.Did.Service.{Service, service_key}
use identity_rs.Did.Signing.{Signable, SignerError, absolute, create_signature}
use identity_rs.Did.Url
use identity_rs.Did.Url.{DidUrl, get_fragment, did_url_to_string, key_eq}
use identity_rs.Did.Verify.{Verifiable, VerifierOptions, SignatureError, type_beq, verify_data}
use identity_rs.Diff.Interface
use identity_rs.Prelude.{
  ℕ, ◌≡◌, refl, Bool, true, false, not, Option, none, some, List, [], ◌∷◌, HasEq, ◌==◌, any, head?,
  map, filter, if◌then◌else◌, nat_beq, nat_eq, list_eq, Outcome, ok, err, ◌>>=◌, guard, ok_or,
  map_err, Text,
}

pub record IotaDocumentMetadata (Time O : Type 0) : Type 0 where
  pub created : Option Time
  pub updated : Option Time
  pub previous_message_id : MessageId
  pub properties : O

-- The parameters are those of `CoreDocument`, the time, and the properties of the metadata.
pub record IotaDocument (D T U V P Time O : Type 0) : Type 0 where
  pub document : CoreDocument D T U V P
  pub metadata : IotaDocumentMetadata Time O
  pub proof : Option (Proof Time)

pub data Error (E : Type 0) : Type 0 where
  invalid_document_signing_method_type missing_signing_key invalid_document_message_id : Error E
  method_not_found missing_id_fragment x25519_cannot_sign : Error E
  previous_message_id_not_null missing_signature tag_mismatch : Error E
  invalid_document : BuilderError → Error E
  document_sign_error : SignerError E → Error E
  invalid_doc : SignatureError E → Error E
  sign_error : SignerError E → Error E
  diff_error : Interface.Error → Error E
  library_error : E → Error E

-- What the signature suite does with data `X` and private keys `K`: the data are serialized without
-- the value of their proof.
pub record Suite (X K Time E : Type 0) : Type 0 where
  pub sign : X → K → Outcome E Text
  pub verify : X → ProofValue → List ℕ → Outcome E (Unit {0})
  pub try_decode : MethodData → Outcome E (List ℕ)
  pub later : Time → Time → Bool

-- `UPDATE_METHOD_TYPES`
abbrev pub update_method_types : List MethodType
update_method_types = ed25519_verification_key_2018 ∷ []

abbrev pub is_signing_method_type : MethodType → Bool
is_signing_method_type method_type = any (λ t. type_beq t method_type) update_method_types

abbrev pub capability_invocation : MethodScope
capability_invocation = verification_relationship MethodRelationship.capability_invocation

-- the options of `verify_document` and `verify_diff`
abbrev pub update_options : VerifierOptions
update_options = record {
  method_scope = some capability_invocation;
  method_type = some update_method_types;
  challenge = none;
  domain = none;
  purpose = none;
  allow_expired = none;
}

-- `ProofOptions::default()`
abbrev pub default_options : {Time : Type 0} → ProofOptions Time
default_options = record {
  created = none;
  expires = none;
  challenge = none;
  domain = none;
  purpose = none;
}

-- `IotaDocument::diff_index`; the digest of a message id is a library's
unfoldable pub diff_index : {E : Type 0} → (MessageId → Text) → MessageId → Outcome (Error E) Text
diff_index encode message_id =
    if nat_beq message_id null then err invalid_document_message_id else ok (encode message_id)

-- `IotaDocumentMetadata::new`
abbrev pub new_metadata : {Time O : Type 0} → Time → O → IotaDocumentMetadata Time O
new_metadata now properties = record {
  created = some now;
  updated = some now;
  previous_message_id = null;
  properties = properties;
}

module _ {D U : Type 0} (as_str : D → Text) where
  abbrev pub signing_key :
      {T V P : Type 0} → CoreDocument D T U V P → MethodRef D U → Option (VerificationMethod D U)
  signing_key document (embed method) = some method
  signing_key document (refer did_url) =
      resolve_method as_str document (from_did_url as_str did_url) none

  module _ ⦃e : HasEq D⦄ where
    -- the name of the method in a proof of the document
    unfoldable pub method_id : {E : Type 0} → D → VerificationMethod D U → Outcome (Error E) Text
    method_id id method =
        if method.id.did == id
        then (elim (get_fragment method.id.url) [
          | none ↦ err missing_id_fragment
          | some fragment ↦ ok (b'#' ∷ fragment)
        ])
        else ok (did_url_to_string as_str method.id)

module _ {D U : Type 0} where
  -- the closure of the filter
  abbrev pub may_sign : Option (VerificationMethod D U) → Bool
  may_sign none = true
  may_sign (some method) = is_signing_method_type method.type_

module _ {D T U V P Time O : Type 0} where
  -- `GetSignature`, `SetSignature` and `TryMethod for IotaDocument`
  abbrev pub signable :
      {K E : Type 0}
      → Suite (IotaDocument D T U V P Time O) K Time E
      → Signable (IotaDocument D T U V P Time O) Time K E
  signable suite = record {
    signature = λ this. this.proof;
    set_signature = λ this signature. record this { proof = some signature };
    signature-set = λ this proof. refl;
    set_signature_twice = λ this proof proof'. refl;
    uri_type = absolute;
    sign = suite.sign;
  }

  abbrev pub verifiable :
      {K E : Type 0}
      → Suite (IotaDocument D T U V P Time O) K Time E
      → Verifiable (IotaDocument D T U V P Time O) Time E
  verifiable suite = record {
    signature = λ this. this.proof;
    try_decode = suite.try_decode;
    verify = suite.verify;
    later = suite.later;
  }

  module _ {E : Type 0} ⦃e : HasEq D⦄ where
    -- The properties of the document and of the metadata are the default ones.
    unfoldable pub from_verification_method :
        Time → T → O → VerificationMethod D U → Outcome (Error E) (IotaDocument D T U V P Time O)
    from_verification_method now properties meta method = do
      _ ← guard (is_signing_method_type method.type_) invalid_document_signing_method_type
      document ← map_err invalid_document (
          from_builder (
            set_document (Builder.capability_invocation (embed method))
              (set_document (Builder.id method.id.did) (new_document properties))))
      ok (record { document = document; metadata = new_metadata now meta; proof = none })

  module _ ⦃e : HasEq D⦄ where
    unfoldable pub insert_service :
        IotaDocument D T U V P Time O → Service D V P → IotaDocument D T U V P Time O × Bool
    insert_service this service = elim (get_fragment service.id.url) [
      | none ↦ (this, false)
      | some _ ↦
          let (services, added) = OrderedSet.append service_key this.document.service service in
          (record this { document = record this.document { service = services } }, added)
    ]

    unfoldable pub remove_service :
        IotaDocument D T U V P Time O → DidUrl D → IotaDocument D T U V P Time O × Bool
    remove_service this did_url =
        let (services, removed) =
          OrderedSet.remove service_key this.document.service (Url.key did_url) in
        (record this { document = record this.document { service = services } }, removed)

  module _ (as_str : D → Text) where
    unfoldable pub default_signing_method :
        {E : Type 0} → IotaDocument D T U V P Time O → Outcome (Error E) (VerificationMethod D U)
    default_signing_method this = elim (head? this.document.capability_invocation) [
      | none ↦ err missing_signing_key
      | some method_ref ↦
          ok_or (resolve_method_ref as_str this.document method_ref) missing_signing_key
    ]

    unfoldable pub extract_signing_keys :
        IotaDocument D T U V P Time O → List (Option (VerificationMethod D U))
    extract_signing_keys this =
        filter may_sign (map (signing_key as_str this.document) this.document.capability_invocation)

    unfoldable pub resolve_signing_method :
        {E : Type 0}
        → IotaDocument D T U V P Time O
        → Text
        → Outcome (Error E) (VerificationMethod D U)
    resolve_signing_method this q = do
      method ←
          ok_or (resolve_method as_str this.document q (some capability_invocation))
            method_not_found
      _ ← guard (is_signing_method_type method.type_) invalid_document_signing_method_type
      ok method

    module _ ⦃e : HasEq D⦄ where
      module _ {K E : Type 0} (suite : Suite (IotaDocument D T U V P Time O) K Time E) where
        unfoldable pub sign_self :
            IotaDocument D T U V P Time O
            → K
            → Text
            → Outcome (Error E) (IotaDocument D T U V P Time O)
        sign_self this private_key method_query = do
          method ← resolve_signing_method this method_query
          uri ← method_id as_str this.document.id method
          elim method.type_ [
            | ed25519_verification_key_2018 ↦
                map_err document_sign_error
                  (create_signature (signable suite) this uri private_key default_options)
            | x25519_key_agreement_key_2019 ↦ err x25519_cannot_sign
          ]

    module _ {K E : Type 0} (suite : Suite (IotaDocument D T U V P Time O) K Time E)
        (now : Time) where
      unfoldable pub verify_document :
          IotaDocument D T U V P Time O
          → IotaDocument D T U V P Time O
          → Outcome (Error E) (Unit {0})
      verify_document this signed =
          map_err invalid_doc
            (verify_data (verifiable suite) as_str now this.document signed update_options)

      module _ (tag : D → Text) (encode_key : List ℕ → Text) where
        unfoldable pub verify_root_document :
            IotaDocument D T U V P Time O → Outcome (Error E) (Unit {0})
        verify_root_document document = do
          _ ←
              guard (nat_beq document.metadata.previous_message_id null)
                previous_message_id_not_null
          signature ← ok_or document.proof missing_signature
          method ←
              ok_or (resolve_method as_str document.document signature.method none) method_not_found
          public ← map_err library_error (suite.try_decode method.content)
          _ ← guard (tag document.document.id == encode_key public) tag_mismatch
          verify_document document document

  abbrev pub integration_index : (D → Text) → IotaDocument D T U V P Time O → Text
  integration_index tag this = tag this.document.id
