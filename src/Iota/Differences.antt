-- ===== src/Iota/Differences.antt =====
-- identity_iota_core/src/diff: diff_iota_document.rs and diff_message.rs, with `diff`, `verify_diff` and
-- `merge_diff` of document/iota_document.rs. A document that is changed comes out as the result.
pub mod Laws
mod Tests
use identity_rs.Chain.Index.{MessageId, null}
use identity_rs.Core.OneOrSet.{OneOrSet}
use identity_rs.Core.Proof.{Proof}
use identity_rs.Did.Document.{CoreDocument}
use identity_rs.Did.Method.{VerificationMethod, MethodRef}
use identity_rs.Did.Service.{Service}
use identity_rs.Did.Signing.{Signable, relative, sign}
use identity_rs.Did.Verify.{Verifiable, verify_data}
use identity_rs.Diff.Documents.{
  Parts, DiffDocument, document_diff, document_merge, document_from_diff, document_into_diff,
}
use identity_rs.Diff.Documents.Fields.{field_diff, field_merge, field_from_diff, field_into_diff}
use identity_rs.Diff.Interface.{PartialEq, same_as_eq, Diff, Res}
use identity_rs.Iota.Document.{
  IotaDocument, IotaDocumentMetadata, Error, diff_error, sign_error, invalid_doc, Suite,
  update_options, default_options, resolve_signing_method,
}
use identity_rs.Prelude.{◌≡◌, refl, Option, none, some, HasEq, Outcome, ok, ◌>>=◌, map_err, Text}

pub record DiffIotaDocument (DC DM : Type 0) : Type 0 where
  pub document : Option DC
  pub metadata : Option DM

-- `X` is the difference of two documents.
pub record DiffMessage (D X Time : Type 0) : Type 0 where
  pub id : D
  pub diff : X
  pub previous_message_id : MessageId
  pub proof : Option (Proof Time)
  pub message_id : MessageId

module _ {D X Time : Type 0} where
  unfoldable pub set_message_id : DiffMessage D X Time → MessageId → DiffMessage D X Time
  set_message_id this id = record this { message_id = id }

  unfoldable pub set_previous_message_id : DiffMessage D X Time → MessageId → DiffMessage D X Time
  set_previous_message_id this id = record this { previous_message_id = id }

module _ {D X Time K E : Type 0} (suite : Suite (DiffMessage D X Time) K Time E) where
  -- `GetSignature`, `SetSignature` and `TryMethod for DiffMessage`
  abbrev pub signable_diff : Signable (DiffMessage D X Time) Time K E
  signable_diff = record {
    signature = λ this. this.proof;
    set_signature = λ this signature. record this { proof = some signature };
    signature-set = λ this proof. refl;
    set_signature_twice = λ this proof proof'. refl;
    uri_type = relative;
    sign = suite.sign;
  }

  abbrev pub verifiable_diff : Verifiable (DiffMessage D X Time) Time E
  verifiable_diff = record {
    signature = λ this. this.proof;
    try_decode = suite.try_decode;
    verify = suite.verify;
    later = suite.later;
  }

module _ {D T U V P Time O DD DA DM DR DS DP DMeta : Type 0} ⦃e : HasEq D⦄
    ⦃c_eq : HasEq (Option (OneOrSet D))⦄ ⦃m_eq : PartialEq (VerificationMethod D U)⦄
    ⦃r_eq : PartialEq (MethodRef D U)⦄ ⦃s_eq : PartialEq (Service D V P)⦄ ⦃t_eq : HasEq T⦄
    ⦃doc_eq : PartialEq (CoreDocument D T U V P)⦄ ⦃meta_eq : HasEq (IotaDocumentMetadata Time O)⦄
    (parts : Parts D T U V P DD DA DM DR DS DP)
    (metadata : Diff (IotaDocumentMetadata Time O) DMeta) where
  unfoldable pub iota_diff :
      IotaDocument D T U V P Time O
      → IotaDocument D T U V P Time O
      → Res (DiffIotaDocument (DiffDocument DD DA DM DR DS DP) DMeta)
  iota_diff this other = do
    document' ← field_diff (document_diff parts) this.document other.document
    metadata' ← field_diff metadata.diff this.metadata other.metadata
    ok (record { document = document'; metadata = metadata' })

  unfoldable pub iota_merge :
      IotaDocument D T U V P Time O
      → DiffIotaDocument (DiffDocument DD DA DM DR DS DP) DMeta
      → Res (IotaDocument D T U V P Time O)
  iota_merge this diff = do
    document' ← field_merge (document_merge parts) this.document diff.document
    metadata' ← field_merge metadata.merge this.metadata diff.metadata
    ok (record { document = document'; metadata = metadata'; proof = none })

  -- `default` is `Default::default()` of the properties of the document.
  unfoldable pub iota_from_diff :
      T
      → DiffIotaDocument (DiffDocument DD DA DM DR DS DP) DMeta
      → Res (IotaDocument D T U V P Time O)
  iota_from_diff default diff = do
    document' ← field_from_diff (document_from_diff parts default) diff.document
    metadata' ← field_from_diff metadata.from_diff diff.metadata
    ok (record { document = document'; metadata = metadata'; proof = none })

  unfoldable pub iota_into_diff :
      T
      → IotaDocument D T U V P Time O
      → Res (DiffIotaDocument (DiffDocument DD DA DM DR DS DP) DMeta)
  iota_into_diff default this = do
    document' ← field_into_diff (document_into_diff parts default) this.document
    metadata' ← field_into_diff metadata.into_diff this.metadata
    ok (record { document = document'; metadata = metadata' })

  -- `DiffMessage::new`
  unfoldable pub new_message :
      IotaDocument D T U V P Time O
      → IotaDocument D T U V P Time O
      → MessageId
      → Res (DiffMessage D (DiffIotaDocument (DiffDocument DD DA DM DR DS DP) DMeta) Time)
  new_message current updated previous_message_id = do
    diff' ← iota_diff current updated
    ok (record {
      id = current.document.id;
      diff = diff';
      previous_message_id = previous_message_id;
      proof = none;
      message_id = null;
    })

  module _ {K E : Type 0}
      (suite : Suite
        (DiffMessage D (DiffIotaDocument (DiffDocument DD DA DM DR DS DP) DMeta) Time)
        K
        Time
        E)
      (as_str : D → Text) where
    -- `IotaDocument::diff`
    unfoldable pub signed_diff :
        IotaDocument D T U V P Time O
        → IotaDocument D T U V P Time O
        → MessageId
        → K
        → Text
        → Outcome
            (Error E)
            (DiffMessage D (DiffIotaDocument (DiffDocument DD DA DM DR DS DP) DMeta) Time)
    signed_diff this other message_id private_key method_query = do
      message ← map_err diff_error (new_message this other message_id)
      _ ← resolve_signing_method as_str this method_query
      map_err sign_error (
          sign (signable_diff suite) as_str this.document private_key (some method_query)
            default_options message)

    unfoldable pub verify_diff :
        Time
        → IotaDocument D T U V P Time O
        → DiffMessage D (DiffIotaDocument (DiffDocument DD DA DM DR DS DP) DMeta) Time
        → Outcome (Error E) (Unit {0})
    verify_diff now this diff =
        map_err invalid_doc
          (verify_data (verifiable_diff suite) as_str now this.document diff update_options)

    unfoldable pub merge_diff :
        Time
        → IotaDocument D T U V P Time O
        → DiffMessage D (DiffIotaDocument (DiffDocument DD DA DM DR DS DP) DMeta) Time
        → Outcome (Error E) (IotaDocument D T U V P Time O)
    merge_diff now this diff =
        verify_diff now this diff >>= λ _. map_err diff_error (iota_merge this diff.diff)
