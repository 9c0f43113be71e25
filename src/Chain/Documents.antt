-- ===== src/Chain/Documents.antt =====
-- What the chains ask of a document: identity_iota_client/src/document/resolved_iota_document.rs, and
-- the operations of identity_iota_core's `IotaDocument` that the chains call, as an interface.
use identity_rs.Chain.Index.{MessageId, TangleRef, null}
use identity_rs.Prelude.{Bool, ◌&&◌, nat_beq}

pub record Documents (Did Doc : Type 0) : Type 0 where
  pub id : Doc → Did
  pub previous_message_id : Doc → MessageId
  -- what `verify_root_document` checks after the previous message id: the key of the signature and
  -- the signature
  pub is_self_certified : Doc → Bool
  -- `self.verify_document(document).is_ok()`
  pub verify_document : Doc → Doc → Bool

pub record ResolvedIotaDocument (Doc : Type 0) : Type 0 where
  pub document : Doc
  pub integration_message_id : MessageId
  pub diff_message_id : MessageId

-- identity_iota_client/src/tangle/publish.rs
pub data PublishType : Type 0 where
  integration diff : PublishType

module _ {Did Doc : Type 0} (docs : Documents Did Doc) where
  -- `IotaDocument::verify_root_document(document).is_ok()`
  unfoldable pub verify_root_document : Doc → Bool
  verify_root_document document =
      nat_beq (docs.previous_message_id document) null && docs.is_self_certified document

  abbrev pub resolved_tangle : TangleRef (ResolvedIotaDocument Doc)
  resolved_tangle = record {
    message_id = λ r. r.integration_message_id;
    previous_message_id = λ r. docs.previous_message_id r.document;
  }
