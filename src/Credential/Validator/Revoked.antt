-- ===== src/Credential/Validator/Revoked.antt =====
-- The revocation in the issuer's document, as the check of a credential's status sees it.
use identity_rs.Credential.Data.{Credential, issuer_url}
use identity_rs.Credential.Status.{type_name, status_url, new_status, index-new_status}
use identity_rs.Credential.Status.Decimal.{u32_mod}
use identity_rs.Credential.Validator.{
  revoked, ValidatorDocument, Environment, strict, extract_issuer, find_issuer,
  check_revocation_bitmap_status, check_supported, check_status,
}
use identity_rs.Credential.Validator.Documents.{DocumentError, core_document}
use identity_rs.Did.Document.{CoreDocument}
use identity_rs.Did.Revocation.{
  revoke_all, unrevoke_all, resolve_revocation_bitmap, revoke_credentials, unrevoke_credentials,
}
use identity_rs.Did.Revocation.Bitmap.{Bitmaps, Codec, ServiceEndpoint, is_revoked, to_endpoint}
use identity_rs.Did.Revocation.Updates.{
  revoke_credentials-resolve, unrevoke_credentials-resolve, update_revocation_bitmap-id,
}
use identity_rs.Did.Verify.{Verifiable}
use identity_rs.Prelude.{
  ℕ, ◌<◌, ◌≡◌, refl, sym, ◌∙◌, ap, Bool, true, not, ◌&&◌, ◌||◌, Option, some, List, [], ◌∷◌, ◌==◌,
  any, nat_beq, nat_eq, list_eq, ok, guard, Text,
}

module _ (O : Type 0) where
  new_status_is_supported :
      (url : Text) (i : ℕ) → ((new_status {O = O} url i).type_ == type_name) ≡ true
  unfolding new_status
  new_status_is_supported url i = (list_eq.beq_iff type_name type_name).1 refl

  status_url-new_status :
      (parse_url : Text → Option Text) (url q : Text) (i : ℕ)
      → parse_url url ≡ some q
      → status_url parse_url (new_status {O = O} url i) ≡ ok q
  unfolding status_url new_status
  status_url-new_status parse_url url q i located = rw located refl

module _ {E Time O T Doc : Type 0} (env : Environment Time E)
    (document : ValidatorDocument Doc (Credential Time O T) E) where
  -- the status is looked up in the bitmap of the issuer's document
  status_of_bitmap :
      (credential : Credential Time O T) (doc : Doc) (url q : Text) (i : ℕ) (found : ℕ → Bool)
      → i < u32_mod
      → credential.credential_status ≡ some (new_status url i)
      → env.parse_url url ≡ some q
      → env.parse_did (issuer_url credential.issuer) ≡ ok (document.did_str doc)
      → document.resolve_revocation_bitmap doc q ≡ ok found
      → check_status env document credential (doc ∷ []) strict ≡ guard (not (found i)) revoked
  unfolding check_status check_supported extract_issuer find_issuer check_revocation_bitmap_status
      status_url
  status_of_bitmap credential doc url q i found small has_status located issued resolved =
      let (typed, read, _) = index-new_status {O = O} url i (new_status url i) small in
      let same = (list_eq.beq_iff (document.did_str doc) (document.did_str doc)).1 refl in
      rw
        (
          has_status,
          new_status_is_supported O url i,
          typed,
          issued,
          same,
          status_url-new_status O env.parse_url url q i located,
          resolved,
          read,
        )
        refl

module _ {D T U V P Time O B E : Type 0} (as_str : D → Text)
    (lib : Verifiable (Credential Time O P) Time E) (codec : Codec B E) (bitmaps : Bitmaps B)
    (env : Environment Time (DocumentError E)) where
  resolves_to :
      (doc : CoreDocument D T U V ServiceEndpoint) (q : Text) (bitmap : B)
      → resolve_revocation_bitmap codec as_str doc q ≡ ok bitmap
      → (core_document as_str lib codec bitmaps env.now).resolve_revocation_bitmap doc q
        ≡ ok (is_revoked bitmaps bitmap)
  resolves_to doc q bitmap resolved = rw resolved refl

  -- The credential is issued by the document, with a status that is the index in the bitmap to which
  -- the query leads.
  pub record HasBitmapStatus (credential : Credential Time O P)
      (doc : CoreDocument D T U V ServiceEndpoint) (q : Text) (i : ℕ) : Type 0 where
    pub small : i < u32_mod
    pub url : Text
    pub has_status : credential.credential_status ≡ some (new_status url i)
    pub located : env.parse_url url ≡ some q
    pub issued : env.parse_did (issuer_url credential.issuer) ≡ ok (as_str doc.id)

  -- the status of the credential in a document with the same id
  checked_in :
      (credential : Credential Time O P) (doc doc' : CoreDocument D T U V ServiceEndpoint)
      (q : Text) (i : ℕ) (bitmap : B)
      → HasBitmapStatus credential doc q i
      → doc'.id ≡ doc.id
      → resolve_revocation_bitmap codec as_str doc' q ≡ ok bitmap
      → check_status env
          (core_document as_str lib codec bitmaps env.now)
          credential
          (doc' ∷ [])
          strict
        ≡ guard (not (is_revoked bitmaps bitmap i)) revoked
  checked_in credential doc doc' q i bitmap status same resolved =
      status_of_bitmap env (core_document as_str lib codec bitmaps env.now) credential doc'
        status.url q i (is_revoked bitmaps bitmap) status.small status.has_status status.located
        (status.issued ∙ ap (λ d. ok (as_str d)) (sym same)) (resolves_to doc' q bitmap resolved)

  -- After indices were revoked in the document of the issuer, the strict check of a credential's status
  -- fails as revoked exactly when the credential's index is one of them or was revoked before, and
  -- passes otherwise.
  pub revoke_credentials-check_status :
      (credential : Credential Time O P) (doc : CoreDocument D T U V ServiceEndpoint) (q : Text)
      (i : ℕ) (indices : List ℕ) (bitmap : B) (endpoint : ServiceEndpoint)
      → HasBitmapStatus credential doc q i
      → resolve_revocation_bitmap codec as_str doc q ≡ ok bitmap
      → to_endpoint codec (revoke_all bitmaps bitmap indices) ≡ ok endpoint
      → check_status env
          (core_document as_str lib codec bitmaps env.now)
          credential
          ((revoke_credentials codec as_str bitmaps doc q indices).0 ∷ [])
          strict
        ≡ guard (not (any (λ j. nat_beq j i) indices || is_revoked bitmaps bitmap i)) revoked
  unfolding revoke_credentials
  revoke_credentials-check_status credential doc q i indices bitmap endpoint status read written =
      let (done, bitmap', again, value) =
        revoke_credentials-resolve codec as_str bitmaps doc q indices bitmap endpoint read
          written in
      checked_in credential doc (revoke_credentials codec as_str bitmaps doc q indices).0 q i
        bitmap' status
        (update_revocation_bitmap-id codec as_str doc q (λ b. revoke_all bitmaps b indices)) again
      ∙ ap (λ b. guard (not b) revoked) (value i)

  -- The same after the undoing: the check passes exactly when the index is one of those given, or was
  -- not revoked before.
  pub unrevoke_credentials-check_status :
      (credential : Credential Time O P) (doc : CoreDocument D T U V ServiceEndpoint) (q : Text)
      (i : ℕ) (indices : List ℕ) (bitmap : B) (endpoint : ServiceEndpoint)
      → HasBitmapStatus credential doc q i
      → resolve_revocation_bitmap codec as_str doc q ≡ ok bitmap
      → to_endpoint codec (unrevoke_all bitmaps bitmap indices) ≡ ok endpoint
      → check_status env
          (core_document as_str lib codec bitmaps env.now)
          credential
          ((unrevoke_credentials codec as_str bitmaps doc q indices).0 ∷ [])
          strict
        ≡ guard (not (not (any (λ j. nat_beq j i) indices) && is_revoked bitmaps bitmap i)) revoked
  unfolding unrevoke_credentials
  unrevoke_credentials-check_status credential doc q i indices bitmap endpoint status read written =
      let (done, bitmap', again, value) =
        unrevoke_credentials-resolve codec as_str bitmaps doc q indices bitmap endpoint read
          written in
      checked_in credential doc (unrevoke_credentials codec as_str bitmaps doc q indices).0 q i
        bitmap' status
        (update_revocation_bitmap-id codec as_str doc q (λ b. unrevoke_all bitmaps b indices)) again
      ∙ ap (λ b. guard (not b) revoked) (value i)
