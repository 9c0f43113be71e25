-- ===== src/Chain/History.antt =====
-- identity_iota_client/src/chain/document_chain.rs: an integration chain, the differences of its last
-- document, and the document that they make.
pub mod Folding
pub mod Loading
use identity_rs.Chain.Index.{MessageId}
use identity_rs.Chain.Documents.{Documents, ResolvedIotaDocument}
use identity_rs.Chain.Milestone.{Error}
use identity_rs.Chain.Integration.{IntegrationChain, current_message_id, try_push}
use identity_rs.Chain.Differences.{
  DiffMessages, DiffChain, merge_diff_message, message_id_or, try_push_and_merge,
}
use identity_rs.Prelude.{
  Option, none, some, List, [], ◌∷◌, HasEq, Outcome, ok, err, ◌>>=◌, unwrap_or,
}

pub record DocumentChain (Doc Msg : Type 0) : Type 0 where
  pub chain_i : IntegrationChain Doc
  pub chain_d : DiffChain Msg
  pub document : Option (ResolvedIotaDocument Doc)

module _ {Doc Msg : Type 0} where
  unfoldable pub new_history : IntegrationChain Doc → DocumentChain Doc Msg
  new_history chain_i = record { chain_i = chain_i; chain_d = []; document = none }

  unfoldable pub current : DocumentChain Doc Msg → ResolvedIotaDocument Doc
  current this = unwrap_or this.document this.chain_i.current

module _ {Did Doc Msg Keys : Type 0} ⦃did_eq : HasEq Did⦄ ⦃doc_eq : HasEq Doc⦄
    ⦃keys_eq : HasEq Keys⦄ (docs : Documents Did Doc) (diffs : DiffMessages Did Doc Msg Keys) where
  -- the loop of `__fold`
  unfoldable pub fold_from :
      ResolvedIotaDocument Doc → DiffChain Msg → Outcome Error (ResolvedIotaDocument Doc)
  fold_from document [] = ok document
  fold_from document (diff_message ∷ chain_d) =
      merge_diff_message docs diffs document diff_message >>= λ merged. fold_from merged chain_d

  unfoldable pub fold_chains :
      IntegrationChain Doc → DiffChain Msg → Outcome Error (ResolvedIotaDocument Doc)
  fold_chains chain_i chain_d = fold_from chain_i.current chain_d

  unfoldable pub fold : DocumentChain Doc Msg → Outcome Error (ResolvedIotaDocument Doc)
  fold this = fold_chains this.chain_i this.chain_d

  unfoldable pub new_with_diff_chain :
      IntegrationChain Doc → DiffChain Msg → Outcome Error (DocumentChain Doc Msg)
  new_with_diff_chain chain_i [] = ok (record { chain_i = chain_i; chain_d = []; document = none })
  new_with_diff_chain chain_i (diff ∷ chain_d) =
      fold_chains chain_i (diff ∷ chain_d) >>= λ document.
      ok (record { chain_i = chain_i; chain_d = diff ∷ chain_d; document = some document })

  -- `__diff_message_id`
  unfoldable pub diff_message_id : DocumentChain Doc Msg → MessageId
  diff_message_id this = message_id_or docs diffs this.chain_d this.chain_i.current

  unfoldable pub try_push_integration :
      DocumentChain Doc Msg
      → ResolvedIotaDocument Doc
      → DocumentChain Doc Msg × Outcome Error (Unit {0})
  try_push_integration this document =
      let (chain_i, result) = try_push docs this.chain_i document in
      elim result [
        | err error ↦ (record this { chain_i = chain_i }, err error)
        | ok _ ↦ (record { chain_i = chain_i; chain_d = []; document = none }, ok tt)
      ]

  unfoldable pub try_push_diff :
      DocumentChain Doc Msg → Msg → DocumentChain Doc Msg × Outcome Error (Unit {0})
  try_push_diff this diff =
      let (chain_d, result) = try_push_and_merge docs diffs this.chain_d diff (current this) in
      elim result [
        | err error ↦ (record this { chain_d = chain_d }, err error)
        | ok document ↦ (record this { chain_d = chain_d; document = some document }, ok tt)
      ]
