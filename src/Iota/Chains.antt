-- ===== src/Iota/Chains.antt =====
-- IOTA documents as the documents of the chains of identity_iota_client: what
-- identity_iota_core/src/document/iota_document.rs gives to Chain/Documents.
use identity_rs.Chain.Documents
use identity_rs.Chain.Documents.{Documents, ResolvedIotaDocument}
use identity_rs.Chain.Index.{MessageId, null}
use identity_rs.Chain.Integration.{
  IntegrationChain, is_ok, current_message_id, push_unchecked, check_valid_addition, try_push,
}
use identity_rs.Did.Document.{resolve_method}
use identity_rs.Did.Method.{VerificationMethod}
use identity_rs.Did.Signing.Verifies.{Corresponds}
use identity_rs.Iota.Document.{
  IotaDocument, Error, Suite, capability_invocation, signable, verifiable, method_id, sign_self,
  verify_document, verify_root_document,
}
use identity_rs.Iota.Document.Signed.{verify_document-sign_self}
use identity_rs.Prelude.{
  ℕ, ◌≡◌, ◌≢◌, refl, ap, ◌∙◌, Bool, true, false, ◌&&◌, some, List, HasEq, nat_beq, nat_eq, list_eq,
  Outcome, ok, ◌>>=◌, guard, Text, Bool-cases, inl, inr,
}

null_twice :
    {E A : Type 0} (b : Bool) (error : E) (m : Outcome E A)
    → (b && is_ok (guard b error >>= λ _. m)) ≡ is_ok (guard b error >>= λ _. m)
null_twice true error m = refl
null_twice false error m = refl

-- a document with the ids of its messages
abbrev pub published : {Doc : Type 0} → Doc → MessageId → MessageId → ResolvedIotaDocument Doc
published document message_id diff_id = record {
  document = document;
  integration_message_id = message_id;
  diff_message_id = diff_id;
}

module _ {Did Doc : Type 0} ⦃e : HasEq Did⦄ (docs : Documents Did Doc) where
  accepted :
      (this : IntegrationChain Doc) (next : ResolvedIotaDocument Doc)
      → docs.id next.document ≡ docs.id this.current.document
      → nat_beq next.integration_message_id null ≡ false
      → nat_beq (current_message_id this) null ≡ false
      → docs.previous_message_id next.document ≡ current_message_id this
      → docs.verify_document this.current.document next.document ≡ true
      → try_push docs this next ≡ (push_unchecked this next, ok tt)
  unfolding try_push check_valid_addition
  accepted this next same has_id has_current follows verified =
      let same' = (e.beq_iff (docs.id next.document) (docs.id this.current.document)).1 same in
      let self = (nat_eq.beq_iff (current_message_id this) (current_message_id this)).1 refl in
      rw (try_push, check_valid_addition, same', has_id, follows, has_current, self, verified) refl

module _ {D T U V P Time O K E : Type 0} (as_str : D → Text)
    (suite : Suite (IotaDocument D T U V P Time O) K Time E) (now : Time) (tag : D → Text)
    (encode_key : List ℕ → Text) where
  abbrev pub documents : Documents D (IotaDocument D T U V P Time O)
  documents = record {
    id = λ doc. doc.document.id;
    previous_message_id = λ doc. doc.metadata.previous_message_id;
    is_self_certified = λ doc. is_ok (verify_root_document as_str suite now tag encode_key doc);
    verify_document = λ doc signed. is_ok (verify_document as_str suite now doc signed);
  }

  -- The chains accept the same root documents.
  pub verify_root_document-documents :
      (doc : IotaDocument D T U V P Time O)
      → Documents.verify_root_document documents doc
        ≡ is_ok (verify_root_document as_str suite now tag encode_key doc)
  unfolding Documents.verify_root_document verify_root_document
  verify_root_document-documents doc =
      null_twice (nat_beq doc.metadata.previous_message_id null) _ _

  module _ ⦃e : HasEq D⦄ where
    not_null : (id : MessageId) → id ≢ null → nat_beq id null ≡ false
    not_null id other = elim (Bool-cases (nat_beq id null)) [
      | inl same ↦ absurd (other ((nat_eq.beq_iff id null).0 same))
      | inr apart ↦ apart
    ]

    -- What a document has signed as itself, under a proof whose method the current document of the chain
    -- has for capability invocation, is pushed: if it has the DID of the chain and refers to the
    -- message of the current document, and both message ids are set. The private key must belong to
    -- the method.
    pub try_push-sign_self :
        (this : IntegrationChain (IotaDocument D T U V P Time O))
        (draft signed : IotaDocument D T U V P Time O) (message_id diff_id : MessageId)
        (private : K) (q : Text) (method : VerificationMethod D U)
        → draft.document.id ≡ this.current.document.document.id
        → draft.metadata.previous_message_id ≡ current_message_id this
        → current_message_id this ≢ null
        → message_id ≢ null
        → resolve_method as_str draft.document q (some capability_invocation) ≡ some method
        → ((uri : Text)
            → ◌≡◌ {A = Outcome (Error E) Text} (method_id as_str draft.document.id method) (ok uri)
            → resolve_method as_str this.current.document.document uri (some capability_invocation)
              ≡ some method)
        → Corresponds (signable suite) (verifiable suite) private method
        → sign_self as_str suite draft private q ≡ ok signed
        → try_push documents this (published signed message_id diff_id)
          ≡ (push_unchecked this (published signed message_id diff_id), ok tt)
    try_push-sign_self this draft signed message_id diff_id private q method same follows
          current_set message_set found back c h =
        let (verified, (proof, _, result)) =
          verify_document-sign_self as_str suite now draft this.current.document signed private q
            method found back c h in
        accepted documents this (published signed message_id diff_id)
          (ap (λ (d : IotaDocument D T U V P Time O). d.document.id) result ∙ same)
          (not_null message_id message_set) (not_null (current_message_id this) current_set)
          (ap (λ (d : IotaDocument D T U V P Time O). d.metadata.previous_message_id) result
            ∙ follows)
          (ap is_ok verified)
