-- ===== src/Credential/Validator/Documents.antt =====
-- identity_credential/src/validator/validator_document.rs: DID documents as the documents that the
-- validators use.
use identity_rs.Credential.Validator.{ValidatorDocument}
use identity_rs.Did.Document.{CoreDocument}
use identity_rs.Did.Revocation
use identity_rs.Did.Revocation.Bitmap
use identity_rs.Did.Revocation.Bitmap.{Bitmaps, Codec, ServiceEndpoint, is_revoked}
use identity_rs.Did.Verify
use identity_rs.Did.Verify.{Verifiable, SignatureError}
use identity_rs.Prelude.{ok, ◌>>=◌, map_err, Text}

-- `identity_did::Error`, as far as these documents return it, and the errors of parsers
pub data DocumentError (E : Type 0) : Type 0 where
  invalid_signature : SignatureError E → DocumentError E
  invalid_service : Bitmap.Error E → DocumentError E
  invalid_did : E → DocumentError E

module _ {D T U V X Time B E : Type 0} (as_str : D → Text) (lib : Verifiable X Time E)
    (codec : Codec B E) (bitmaps : Bitmaps B) (now : Time) where
  abbrev pub core_document :
      ValidatorDocument (CoreDocument D T U V ServiceEndpoint) X (DocumentError E)
  core_document = record {
    did_str = λ doc. as_str doc.id;
    verify_data = λ doc data_ options.
        map_err invalid_signature (Verify.verify_data lib as_str now doc data_ options);
    resolve_revocation_bitmap = λ doc q.
        map_err invalid_service (Revocation.resolve_revocation_bitmap codec as_str doc q)
        >>= λ bitmap. ok (is_revoked bitmaps bitmap);
  }
