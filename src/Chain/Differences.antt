-- ===== src/Chain/Differences.antt =====
-- identity_iota_client/src/chain/diff_chain.rs, with `PublishType::new` (tangle/publish.rs) and
-- `merge_diff_message` (document/resolved_iota_document.rs). The differences that are signed and sent
-- are an interface: their ids, the check of the signature, and the merge.
pub mod Links
use identity_rs.Chain.Index.{MessageId, MessageIndex, TangleRef, null}
use identity_rs.Chain.Documents.{Documents, ResolvedIotaDocument, PublishType}
use identity_rs.Chain.Milestone.{
  Error, invalid_did, invalid_message_id, invalid_previous_message_id, invalid_signature,
  invalid_diff, cannot_alter_signing_methods, sort_by_milestone,
}
use identity_rs.Chain.Integration.{is_ok}
use identity_rs.Prelude.{
  ℕ, zero, suc, Bool, true, false, not, Option, none, some, List, [], ◌∷◌, ◌++◌, HasEq, ◌==◌,
  if◌then◌else◌, length, filter, get_last?, nat_beq, nat_eq, get, remove_key, Outcome, ok, err,
  ◌>>=◌,
}

pub record DiffMessages (Did Doc Msg Keys : Type 0) : Type 0 where
  pub tangle : TangleRef Msg
  pub diff_id : Msg → Did
  -- `self.verify_diff(diff).is_ok()`
  pub verify_diff : Doc → Msg → Bool
  -- `diff.merge(self)`
  pub merge : Doc → Msg → Outcome Error Doc
  pub extract_signing_keys : Doc → Keys

abbrev pub DiffChain : Type 0 → Type 0
DiffChain Msg = List Msg

module _ {Did Doc Msg Keys : Type 0} ⦃did_eq : HasEq Did⦄ ⦃doc_eq : HasEq Doc⦄
    ⦃keys_eq : HasEq Keys⦄ (docs : Documents Did Doc) (diffs : DiffMessages Did Doc Msg Keys) where
  unfoldable pub publish_type : Doc → Doc → Option PublishType
  publish_type old_doc new_doc =
      if old_doc == new_doc
      then none
      else if diffs.extract_signing_keys old_doc == diffs.extract_signing_keys new_doc
      then some PublishType.diff
      else some PublishType.integration

  -- `IotaDocument::merge_diff`
  unfoldable pub merge_diff : Doc → Msg → Outcome Error Doc
  merge_diff document diff =
      if diffs.verify_diff document diff then diffs.merge document diff else err invalid_signature

  unfoldable pub merge_diff_message :
      ResolvedIotaDocument Doc → Msg → Outcome Error (ResolvedIotaDocument Doc)
  merge_diff_message this diff = merge_diff this.document diff >>= λ document.
      ok (record this { document = document; diff_message_id = diffs.tangle.message_id diff })

  -- `self.inner.last().map(|diff| diff.message_id())`, or else the id of the document
  unfoldable pub message_id_or : DiffChain Msg → ResolvedIotaDocument Doc → MessageId
  message_id_or this document = elim (get_last? this) [
    | none ↦ document.integration_message_id
    | some diff ↦ diffs.tangle.message_id diff
  ]

  unfoldable pub verify_diff : Msg → ResolvedIotaDocument Doc → MessageId → Outcome Error (Unit {0})
  verify_diff diff document expected_prev_message_id =
      if not (docs.id document.document == diffs.diff_id diff)
      then err invalid_did
      else if nat_beq (diffs.tangle.message_id diff) null
      then err invalid_message_id
      else if nat_beq (diffs.tangle.previous_message_id diff) null
      then err invalid_previous_message_id
      else if not (nat_beq (diffs.tangle.previous_message_id diff) expected_prev_message_id)
      then err invalid_previous_message_id
      else if not (diffs.verify_diff document.document diff)
      then err invalid_signature
      else ok tt

  -- the check of `try_merge` after the merge
  unfoldable pub check_publish_type :
      Option PublishType → ResolvedIotaDocument Doc → Outcome Error (ResolvedIotaDocument Doc)
  check_publish_type none updated_document = ok updated_document
  check_publish_type (some PublishType.diff) updated_document = ok updated_document
  check_publish_type (some PublishType.integration) updated_document =
      err cannot_alter_signing_methods

  unfoldable pub try_merge :
      Msg → ResolvedIotaDocument Doc → Outcome Error (ResolvedIotaDocument Doc)
  try_merge diff document = merge_diff_message document diff >>= λ updated_document.
      check_publish_type (publish_type document.document updated_document.document) updated_document

  unfoldable pub check_valid_addition :
      Msg → ResolvedIotaDocument Doc → MessageId → Outcome Error (ResolvedIotaDocument Doc)
  check_valid_addition diff document expected_prev_message_id =
      verify_diff diff document expected_prev_message_id >>= λ _. try_merge diff document

  unfoldable pub try_push_and_merge :
      DiffChain Msg
      → Msg
      → ResolvedIotaDocument Doc
      → DiffChain Msg × Outcome Error (ResolvedIotaDocument Doc)
  try_push_and_merge this diff integration_document =
      elim (check_valid_addition diff integration_document
        (message_id_or this integration_document)) [
          | err error ↦ (this, err error)
          | ok updated_document ↦ (this ++ diff ∷ [], ok updated_document)
        ]

  -- The first of the sorted differences that merges is pushed, with the document that it makes.
  unfoldable pub push_merged :
      DiffChain Msg → ResolvedIotaDocument Doc → List Msg → DiffChain Msg × ResolvedIotaDocument Doc
  push_merged this current_document [] = (this, current_document)
  push_merged this current_document (diff ∷ sorted) = elim (try_merge diff current_document) [
    | err _ ↦ push_merged this current_document sorted
    | ok merged_document ↦ (this ++ diff ∷ [], merged_document)
  ]

  module _ (milestone : MessageId → Outcome Error (Option ℕ))
      (integration_document : ResolvedIotaDocument Doc) where
    -- one round of the loop
    unfoldable pub next_diff :
        DiffChain Msg
        → ResolvedIotaDocument Doc
        → List Msg
        → Outcome Error (DiffChain Msg × ResolvedIotaDocument Doc)
    next_diff this current_document found =
        let expected_prev_message_id = message_id_or this current_document in
        sort_by_milestone diffs.tangle milestone (
          filter (λ diff. is_ok (verify_diff diff integration_document expected_prev_message_id))
            found)
        >>= λ sorted. ok (push_merged this current_document sorted)

    -- The loop, on fuel: `none` when the fuel is spent.
    unfoldable pub extend_diffs :
        ℕ
        → MessageIndex Msg
        → DiffChain Msg
        → ResolvedIotaDocument Doc
        → Option (Outcome Error (DiffChain Msg))
    extend_diffs zero index this current_document = none
    extend_diffs (suc fuel) index this current_document =
        elim (get index (message_id_or this current_document)) [
          | none ↦ some (ok this)
          | some found ↦ elim (next_diff this current_document found) [
            | err error ↦ some (err error)
            | ok (this', current_document') ↦
                extend_diffs fuel (remove_key index (message_id_or this current_document)) this'
                  current_document'
          ]
        ]

    -- An index with no keys gives the empty chain, as does the loop.
    unfoldable pub try_from_index_with_document :
        MessageIndex Msg → Option (Outcome Error (DiffChain Msg))
    try_from_index_with_document [] = some (ok [])
    try_from_index_with_document (entry ∷ index) =
        extend_diffs (suc (length (entry ∷ index))) (entry ∷ index) [] integration_document
