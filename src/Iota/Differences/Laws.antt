-- ===== src/Iota/Differences/Laws.antt =====
-- A difference that a document has signed is accepted by it, and leads to the changed document.
use mathlib.Core.Option
use identity_rs.Chain.Index.{MessageId, null}
use identity_rs.Core.OneOrSet.{OneOrSet, into_vec}
use identity_rs.Did.Document.{CoreDocument, resolve_method}
use identity_rs.Did.Method.{VerificationMethod}
use identity_rs.Did.Signing.{relative, method_uri, sign}
use identity_rs.Did.Signing.Verifies.{Corresponds, ok-injective, create_signature-inv, sign-inv}
use identity_rs.Diff.Documents.{document_diff, document_merge}
use identity_rs.Diff.Documents.Fields.{field_diff, field_merge, field-Merges}
use identity_rs.Diff.Documents.Laws.{merged_items_same, document_merge-diff}
use identity_rs.Diff.Documents.Program.{Libraries, Delta, AreLawful, IsSound, parts, merged_items}
use identity_rs.Diff.Documents.Sameness.{document_same, document_same-Separates}
use identity_rs.Diff.Interface.{same_as_eq, ◌=~◌, Diff, IsLawful}
use identity_rs.Diff.Sameness.{url_same, method_same, ref_same, service_same}
use identity_rs.Did.Method.{MethodType, MethodData}
use identity_rs.Iota.Differences.{
  DiffIotaDocument, DiffMessage, signable_diff, verifiable_diff, iota_diff, iota_merge, new_message,
  signed_diff, verify_diff, merge_diff,
}
use identity_rs.Iota.Document.{
  IotaDocument, IotaDocumentMetadata, Suite, capability_invocation, default_options,
  resolve_signing_method,
}
use identity_rs.Iota.Document.Signed.{verify_data-created}
use identity_rs.Prelude.{
  ◌≡◌, refl, ap, sym, subst, ◌∙◌, Option, none, some, HasEq, Bool-cases, inl, inr, ok, map_err-ok,
  bind_parts, Text,
}

module _ {D T U V P Time O : Type 0} where
  -- the other document, with controllers in its place and without a proof
  abbrev pub merged_document :
      IotaDocument D T U V P Time O → Option (OneOrSet D) → IotaDocument D T U V P Time O
  merged_document other controller = record {
    document = record other.document { controller = controller };
    metadata = other.metadata;
    proof = none;
  }

module _ {D T U V P Time O DT DU DV DMeta Fail : Type 0} ⦃e : HasEq D⦄
    ⦃c_eq : HasEq (Option (OneOrSet D))⦄ ⦃type_eq : HasEq MethodType⦄ ⦃data_eq : HasEq MethodData⦄
    ⦃u_eq : HasEq U⦄ ⦃types_eq : HasEq (OneOrSet Text)⦄ ⦃p_eq : HasEq P⦄ ⦃v_eq : HasEq V⦄
    ⦃t_eq : HasEq T⦄ ⦃meta_eq : HasEq (IotaDocumentMetadata Time O)⦄
    (libs : Libraries D T U V DT DU DV Fail) (metadata : Diff (IotaDocumentMetadata Time O) DMeta)
    (lawful : AreLawful libs) (meta_lawful : IsLawful metadata) where
  abbrev draft :
      IotaDocument D T U V P Time O
      → MessageId
      → (DiffIotaDocument (Delta DT DU DV P) DMeta)
      → DiffMessage D (DiffIotaDocument (Delta DT DU DV P) DMeta) Time
  draft this previous_message_id delta = record {
    id = this.document.id;
    diff = delta;
    previous_message_id = previous_message_id;
    proof = none;
    message_id = null;
  }

  document-Merges :
      (this other : CoreDocument D T U V P)
      → IsSound libs this
      → IsSound libs other
      → (delta : Option (Delta DT DU DV P)) × (field_diff (document_diff (parts libs)) this other
          ≡ ok delta)
        × (controller : Option (OneOrSet D)) × (field_merge (document_merge (parts libs)) this delta
            ≡ ok (record other { controller = controller }))
        × (Option.map into_vec controller ≡ merged_items this.controller other.controller)
  document-Merges this other sound sound' = elim (Bool-cases (this =~ other)) [
    | inl same ↦
        let eq : this ≡ other = document_same-Separates libs this other sound sound' same in
        (
          none,
          rw same refl,
          other.controller,
          ap ok eq,
          subst
              (λ (d : CoreDocument D T U V P).
                Option.map into_vec other.controller ≡ merged_items d.controller other.controller)
              (sym eq) (merged_items_same other.controller),
        )
    | inr changed ↦
        let (delta, made, controller, done, items) =
          document_merge-diff libs lawful this other sound sound' in
        (some delta, rw (changed, made) refl, controller, done, items)
  ]

  iota-Merges :
      (this other : IotaDocument D T U V P Time O)
      → IsSound libs this.document
      → IsSound libs other.document
      → (delta : (DiffIotaDocument (Delta DT DU DV P) DMeta)) × (iota_diff
            (parts libs)
            metadata
            this
            other
          ≡ ok delta)
        × (controller : Option (OneOrSet D)) × (iota_merge (parts libs) metadata this delta
            ≡ ok (merged_document other controller))
        × (Option.map into_vec controller
            ≡ merged_items this.document.controller other.document.controller)
  unfolding iota_diff iota_merge
  iota-Merges this other sound sound' =
      let (d0, made0, controller, done0, items) =
        document-Merges this.document other.document sound sound' in
      let (d1, made1, done1) =
        field-Merges metadata.diff metadata.merge this.metadata other.metadata
          (meta_eq.beq_iff this.metadata other.metadata).0
          (meta_lawful.merges this.metadata other.metadata) in
      (
        record { document = d0; metadata = d1 },
        rw (made0, made1) refl,
        controller,
        rw (done0, done1) refl,
        items,
      )

  module _ {K E : Type 0}
      (suite : Suite (DiffMessage D (DiffIotaDocument (Delta DT DU DV P) DMeta) Time) K Time E)
      (as_str : D → Text) where
    signed_diff-parts :
        (this other : IotaDocument D T U V P Time O) (message_id : MessageId) (private : K)
        (q : Text) (delta : (DiffIotaDocument (Delta DT DU DV P) DMeta))
        (signed : DiffMessage D (DiffIotaDocument (Delta DT DU DV P) DMeta) Time)
        → iota_diff (parts libs) metadata this other ≡ ok delta
        → signed_diff (parts libs) metadata suite as_str this other message_id private q ≡ ok signed
        → sign
            (signable_diff suite)
            as_str
            this.document
            private
            (some q)
            default_options
            (draft this message_id delta)
          ≡ ok signed
    unfolding signed_diff new_message
    signed_diff-parts this other message_id private q delta signed made h =
        let (message, m, h) = bind_parts _ _ h in
        let (_, _, h) = bind_parts (resolve_signing_method as_str this q) _ h in
        let built : new_message (parts libs) metadata this other message_id
            ≡ ok (draft this message_id delta) =
          rw made refl in
        subst
          (λ (d : DiffMessage D (DiffIotaDocument (Delta DT DU DV P) DMeta) Time).
            sign (signable_diff suite) as_str this.document private (some q) default_options d
            ≡ ok signed)
          (ok-injective (
            sym (map_err-ok _ (new_message (parts libs) metadata this other message_id) m) ∙ built))
          (map_err-ok _ _ h)

    -- A difference that a document has signed, with a method that it has for capability invocation, is
    -- accepted by the same document at every time, and merging it gives the other document, without a
    -- proof. The controllers are those of the other document only if the signing document has some,
    -- and else there are none. The documents and their parts are compared as the program compares
    -- them. Both documents must be sound: unique keys, valid controllers, ids with fragments, URLs and
    -- aliases that are read back, service types as they are built. Every DID must be read back from
    -- its text, the differences of properties and metadata must be lawful, the name of the method in
    -- the proof must lead back to the method, and the private key must belong to it.
    pub merge_diff-signed_diff :
        (now : Time) (this other : IotaDocument D T U V P Time O) (message_id : MessageId)
        (private : K) (q : Text) (method : VerificationMethod D U)
        (signed : DiffMessage D (DiffIotaDocument (Delta DT DU DV P) DMeta) Time)
        → IsSound libs this.document
        → IsSound libs other.document
        → resolve_method as_str this.document q none ≡ some method
        → ((uri : Text)
            → method_uri as_str relative method ≡ some uri
            → resolve_method as_str this.document uri (some capability_invocation) ≡ some method)
        → Corresponds (signable_diff suite) (verifiable_diff suite) private method
        → signed_diff (parts libs) metadata suite as_str this other message_id private q ≡ ok signed
        → (controller : Option (OneOrSet D)) × (merge_diff
              (parts libs)
              metadata
              suite
              as_str
              now
              this
              signed
            ≡ ok (merged_document other controller))
          × (Option.map into_vec controller
              ≡ merged_items this.document.controller other.document.controller)
    unfolding merge_diff verify_diff
    merge_diff-signed_diff now this other message_id private q method signed sound sound' found back
          c h =
        let (delta, made, controller, done, items) = iota-Merges this other sound sound' in
        let signs = signed_diff-parts this other message_id private q delta signed made h in
        let (uri, named, ed25519, created) =
          sign-inv (signable_diff suite) (verifiable_diff suite) as_str this.document private q
            default_options (draft this message_id delta) signed method found signs in
        let (value, _, same) =
          create_signature-inv (signable_diff suite) private uri default_options
            (draft this message_id delta) signed created in
        let accepted =
          verify_data-created (signable_diff suite) (verifiable_diff suite) as_str now this.document
            private uri (draft this message_id delta) signed method (back uri named) c ed25519
            created in
        (controller, rw (accepted, same) (rw done refl), items)
