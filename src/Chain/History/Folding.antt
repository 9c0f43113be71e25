-- ===== src/Chain/History/Folding.antt =====
-- The stored document of a document chain is what the differences make of the last integration
-- document.
use identity_rs.Chain.Index.{MessageId}
use identity_rs.Chain.Documents.{Documents, ResolvedIotaDocument}
use identity_rs.Chain.Milestone.{Error}
use identity_rs.Chain.Integration.{IntegrationChain, try_push}
use identity_rs.Chain.Integration
use identity_rs.Chain.Differences.{
  DiffMessages, DiffChain, merge_diff_message, message_id_or, verify_diff, check_valid_addition,
  try_push_and_merge,
}
use identity_rs.Chain.Differences.Links.{try_merge-merge_diff_message}
use identity_rs.Chain.History.{
  DocumentChain, new_history, current, fold_from, fold_chains, fold, new_with_diff_chain,
  try_push_integration, try_push_diff,
}
use identity_rs.Prelude.{
  ◌≡◌, refl, subst, none, some, [], ◌∷◌, ◌++◌, HasEq, ok, err, ◌>>=◌, bind_ok, arith, Outcome-cases,
  inl, inr,
}

module _ {Did Doc Msg Keys : Type 0} ⦃did_eq : HasEq Did⦄ ⦃doc_eq : HasEq Doc⦄
    ⦃keys_eq : HasEq Keys⦄ (docs : Documents Did Doc) (diffs : DiffMessages Did Doc Msg Keys) where
  pub fold_from-append :
      (document : ResolvedIotaDocument Doc) (chain : DiffChain Msg) (diff : Msg)
      → fold_from docs diffs document (chain ++ diff ∷ []) ≡ (
          fold_from docs diffs document chain >>= λ merged.
          merge_diff_message docs diffs merged diff)
  unfolding fold_from
  fold_from-append document [] diff = bind_ok (merge_diff_message docs diffs document diff)
  fold_from-append document (d ∷ chain) diff =
      elim (Outcome-cases (merge_diff_message docs diffs document d)) [
        | inl (merged, found) ↦ rw found (fold_from-append merged chain diff)
        | inr (error, failed) ↦ rw failed
      ]

  module _ (this : DocumentChain Doc Msg) (h : fold docs diffs this ≡ ok (current this)) where
    push_diff_ok :
        (diff : Msg) (document : ResolvedIotaDocument Doc)
        → check_valid_addition docs diffs diff
            (current this)
            (message_id_or docs diffs this.chain_d (current this))
          ≡ ok document
        → try_push_and_merge docs diffs this.chain_d diff (current this)
          ≡ (this.chain_d ++ diff ∷ [], ok document)
    unfolding try_push_and_merge
    push_diff_ok diff document valid = rw (valid, try_push_and_merge) refl

    push_diff_err :
        (diff : Msg) (error : Error)
        → check_valid_addition docs diffs diff
            (current this)
            (message_id_or docs diffs this.chain_d (current this))
          ≡ err error
        → try_push_and_merge docs diffs this.chain_d diff (current this) ≡ (this.chain_d, err error)
    unfolding try_push_and_merge
    push_diff_err diff error failed = rw (failed, try_push_and_merge) refl

    merged :
        (diff : Msg) (expected : MessageId) (document : ResolvedIotaDocument Doc)
        → check_valid_addition docs diffs diff (current this) expected ≡ ok document
        → merge_diff_message docs diffs (current this) diff ≡ ok document
    unfolding check_valid_addition
    merged diff expected document valid =
        elim (Outcome-cases (verify_diff docs diffs diff (current this) expected)) [
          | inr (error, failed) ↦ absurd (ground arith)
          | inl (done, verified) ↦
              try_merge-merge_diff_message docs diffs diff (current this) document (ground arith)
        ]

    try_push_diff-fold :
        (diff : Msg)
        → fold docs diffs (try_push_diff docs diffs this diff).0
          ≡ ok (current (try_push_diff docs diffs this diff).0)
    unfolding try_push_diff fold fold_chains current
    try_push_diff-fold diff =
        let prev = message_id_or docs diffs this.chain_d (current this) in
        elim (Outcome-cases (check_valid_addition docs diffs diff (current this) prev)) [
          | inr (error, failed) ↦
              rw (push_diff_err diff error failed, try_push_diff)
                (rw (push_diff_err diff error failed) h)
          | inl (document, valid) ↦
              rw (push_diff_ok diff document valid, try_push_diff)
                (rw (push_diff_ok diff document valid, fold_from-append, h)
                  (merged diff prev document valid))
        ]

    try_push_integration-fold :
        (document : ResolvedIotaDocument Doc)
        → fold docs diffs (try_push_integration docs diffs this document).0
          ≡ ok (current (try_push_integration docs diffs this document).0)
    unfolding try_push_integration fold fold_chains current fold_from
    try_push_integration-fold document =
        elim (Outcome-cases (Integration.check_valid_addition docs this.chain_i document)) [
          | inr (error, failed) ↦
              let kept : try_push docs this.chain_i document ≡ (this.chain_i, err error) =
                unfold try_push in rw (failed, try_push) refl in
              rw (kept, try_push_integration) (rw kept h)
          | inl (done, valid) ↦
              let pushed : try_push docs this.chain_i document
                  ≡ (Integration.push_unchecked this.chain_i document, ok tt) =
                unfold try_push in rw (valid, try_push) refl in
              rw (pushed, try_push_integration) refl
        ]

  new_with_diff_chain-fold :
      (chain_i : IntegrationChain Doc) (chain_d : DiffChain Msg) (this : DocumentChain Doc Msg)
      → new_with_diff_chain docs diffs chain_i chain_d ≡ ok this
      → fold docs diffs this ≡ ok (current this)
  unfolding new_with_diff_chain fold fold_chains current fold_from
  new_with_diff_chain-fold chain_i [] this h =
      let eq : record { chain_i = chain_i; chain_d = []; document = none } ≡ this = ground arith in
      subst (λ t. fold docs diffs t ≡ ok (current t)) eq refl
  new_with_diff_chain-fold chain_i (diff ∷ chain_d) this h =
      elim (Outcome-cases (fold_from docs diffs chain_i.current (diff ∷ chain_d))) [
        | inr (error, failed) ↦ absurd (ground arith)
        | inl (document, folded) ↦
            let eq : record {
              chain_i = chain_i;
              chain_d = diff ∷ chain_d;
              document = some document;
            }
                ≡ this =
              ground arith in
            subst (λ t. fold docs diffs t ≡ ok (current t)) eq folded
      ]

  -- The document chains that the operations build.
  pub data Grown : DocumentChain Doc Msg → Type 0 where
    from_integration : (chain_i : IntegrationChain Doc) → Grown (new_history chain_i)
    from_both :
        (chain_i : IntegrationChain Doc) (chain_d : DiffChain Msg) (this : DocumentChain Doc Msg)
        → new_with_diff_chain docs diffs chain_i chain_d ≡ ok this
        → Grown this
    pushed_integration :
        (this : DocumentChain Doc Msg) (document : ResolvedIotaDocument Doc)
        → Grown this
        → Grown (try_push_integration docs diffs this document).0
    pushed_diff :
        (this : DocumentChain Doc Msg) (diff : Msg)
        → Grown this
        → Grown (try_push_diff docs diffs this diff).0

  -- In every document chain that the operations build, whether they succeed or fail, the current
  -- document is what the merge of all differences into the current integration document gives.
  pub Grown-fold :
      (this : DocumentChain Doc Msg) → Grown this → fold docs diffs this ≡ ok (current this)
  unfolding fold fold_chains current fold_from new_history
  Grown-fold _ (from_integration chain_i) = refl
  Grown-fold _ (from_both chain_i chain_d this made) =
      new_with_diff_chain-fold chain_i chain_d this made
  Grown-fold _ (pushed_integration this document g) =
      try_push_integration-fold this (Grown-fold this g) document
  Grown-fold _ (pushed_diff this diff g) = try_push_diff-fold this (Grown-fold this g) diff
