-- ===== src/Chain/Differences/Links.antt =====
-- The differences of a chain: each refers to the one before, the first to the document.
use identity_rs.Chain.Index.{MessageId}
use identity_rs.Chain.Documents.{Documents, ResolvedIotaDocument, PublishType}
use identity_rs.Chain.Differences.{
  DiffMessages, DiffChain, merge_diff_message, message_id_or, verify_diff, try_merge,
  check_publish_type, publish_type,
}
use identity_rs.Prelude.{
  ◌≡◌, refl, subst, some, [], ◌∷◌, ◌++◌, HasEq, get_last?, ok, arith, Option-cases, Outcome-cases,
  inl, inr,
}

module _ {Did Doc Msg Keys : Type 0} ⦃did_eq : HasEq Did⦄ ⦃doc_eq : HasEq Doc⦄
    ⦃keys_eq : HasEq Keys⦄ (docs : Documents Did Doc) (diffs : DiffMessages Did Doc Msg Keys) where
  -- A merge that `try_merge` accepts is a merge of the message.
  pub try_merge-merge_diff_message :
      (diff : Msg) (document merged : ResolvedIotaDocument Doc)
      → try_merge docs diffs diff document ≡ ok merged
      → merge_diff_message docs diffs document diff ≡ ok merged
  unfolding try_merge check_publish_type
  try_merge-merge_diff_message diff document merged h =
      elim (Outcome-cases (merge_diff_message docs diffs document diff)) [
        | inr (error, failed) ↦ absurd (ground arith)
        | inl (updated, found) ↦
            elim (Option-cases (publish_type docs diffs document.document updated.document)) [
              | inl same ↦ ground arith
              | inr (PublishType.integration, kind) ↦ absurd (ground arith)
              | inr (PublishType.diff, kind) ↦ ground arith
            ]
      ]

  pub get_last?-some :
      (d : Msg) (chain : DiffChain Msg) → (x : Msg) × (get_last? (d ∷ chain) ≡ some x)
  get_last?-some d [] = (d, refl)
  get_last?-some d (d' ∷ chain) = get_last?-some d' chain

  message_id_or_cons :
      (d d' : Msg) (chain : DiffChain Msg) (document document' : ResolvedIotaDocument Doc)
      → message_id_or docs diffs (d ∷ d' ∷ chain) document
        ≡ message_id_or docs diffs (d' ∷ chain) document'
  unfolding message_id_or
  message_id_or_cons d d' chain document document' =
      let (x, last) = get_last?-some d' chain in rw (last, message_id_or, message_id_or) refl

  module _ (integration_document : ResolvedIotaDocument Doc) where
    -- Each difference is valid for the document, after the message that it follows.
    abbrev pub IsDiffChain : MessageId → DiffChain Msg → Type 0
    IsDiffChain expected [] = Unit
    IsDiffChain expected (diff ∷ chain) =
        (verify_diff docs diffs diff integration_document expected ≡ ok tt)
        × IsDiffChain (diffs.tangle.message_id diff) chain

    pub IsDiffChain-append :
        (document : ResolvedIotaDocument Doc) (chain : DiffChain Msg) (diff : Msg)
        → IsDiffChain document.integration_message_id chain
        → verify_diff docs diffs diff integration_document (message_id_or docs diffs chain document)
          ≡ ok tt
        → IsDiffChain document.integration_message_id (chain ++ diff ∷ [])
    unfolding message_id_or
    IsDiffChain-append document [] diff c v = (v, tt)
    IsDiffChain-append document (d ∷ []) diff c v = (c.0, (v, tt))
    IsDiffChain-append document (d ∷ d' ∷ chain) diff c v =
        let document' = record document { integration_message_id = diffs.tangle.message_id d } in
        (
          c.0,
          IsDiffChain-append document' (d' ∷ chain) diff c.1 (
              subst (λ id. verify_diff docs diffs diff integration_document id ≡ ok tt)
                (message_id_or_cons d d' chain document document') v),
        )
