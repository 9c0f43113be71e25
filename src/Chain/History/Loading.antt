-- ===== src/Chain/History/Loading.antt =====
-- The loop of `DiffChain::try_from_index`: it ends, and what it builds can be folded.
use identity_rs.Chain.Index.{MessageId}
use identity_rs.Chain.Documents.{Documents, ResolvedIotaDocument}
use identity_rs.Chain.Milestone.{Error}
use identity_rs.Chain.Integration.{is_ok}
use identity_rs.Chain.Differences.{DiffMessages, DiffChain, message_id_or, verify_diff}
use identity_rs.Chain.Differences.Links.{IsDiffChain}
use identity_rs.Chain.History.{fold_from}
use identity_rs.Prelude.{ℕ, ◌≡◌, ◌⊎◌, true, Option, some, HasEq, nat_eq, Outcome, ok, err}

module _ {Did Doc Msg Keys : Type 0} ⦃did_eq : HasEq Did⦄ ⦃doc_eq : HasEq Doc⦄
    ⦃keys_eq : HasEq Keys⦄ (docs : Documents Did Doc) (diffs : DiffMessages Did Doc Msg Keys)
    (milestone : MessageId → Outcome Error (Option ℕ)) (start : ResolvedIotaDocument Doc) where
  -- The differences are valid one after the other, and make this document of the first.
  abbrev Folded : DiffChain Msg → ResolvedIotaDocument Doc → Type 0
  Folded chain document =
      IsDiffChain docs diffs start start.integration_message_id chain
      × (fold_from docs diffs start chain ≡ ok document)

  ValidAfter : DiffChain Msg → ResolvedIotaDocument Doc → Msg → Type 0
  ValidAfter chain document diff =
      is_ok (verify_diff docs diffs diff start (message_id_or docs diffs chain document)) ≡ true

  -- What the loop gives: an error, or a chain that can be folded.
  abbrev Ends : Option (Outcome Error (DiffChain Msg)) → Type 0
  Ends result =
      ((error : Error) × (result ≡ some (err error)))
      ⊎ ((chain : DiffChain Msg) × (result ≡ some (ok chain))
          × IsDiffChain docs diffs start start.integration_message_id chain
          × (document : ResolvedIotaDocument Doc) × (fold_from docs diffs start chain
              ≡ ok document))
