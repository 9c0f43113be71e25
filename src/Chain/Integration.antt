-- ===== src/Chain/Integration.antt =====
-- identity_iota_client/src/chain/integration_chain.rs
pub mod Links
pub mod Loop
pub mod Arrival
use identity_rs.Chain.Index.{MessageId, MessageIndex, TangleRef, null, from_iter}
use identity_rs.Chain.Documents.{
  Documents, ResolvedIotaDocument, verify_root_document, resolved_tangle,
}
use identity_rs.Chain.Milestone.{
  Error, did_not_found, invalid_root_document, invalid_message_id, invalid_did, missing_message_id,
  missing_previous_message_id, invalid_previous_message_id, invalid_signature, sort_by_milestone,
}
use identity_rs.Prelude.{
  ℕ, zero, suc, ◌+◌, Bool, true, false, not, Option, none, some, List, [], ◌∷◌, ◌++◌, HasEq, ◌==◌,
  if◌then◌else◌, length, filter, nat_beq, nat_eq, HashMap, get, remove_key, Outcome, ok, err, ◌>>=◌,
  unwrap_or,
}

pub record IntegrationChain (Doc : Type 0) : Type 0 where
  pub history : Option (List (ResolvedIotaDocument Doc))
  pub current : ResolvedIotaDocument Doc

-- `Result::is_ok`
abbrev pub is_ok {ℓ κ} : {E : Type ℓ} {A : Type κ} → Outcome E A → Bool
is_ok (ok a) = true
is_ok (err e) = false

module _ {Doc : Type 0} where
  unfoldable pub current_message_id : IntegrationChain Doc → MessageId
  current_message_id this = this.current.integration_message_id

  unfoldable pub push_unchecked :
      IntegrationChain Doc → ResolvedIotaDocument Doc → IntegrationChain Doc
  push_unchecked this document = record {
    history = some (unwrap_or this.history [] ++ this.current ∷ []);
    current = document;
  }

  -- `From<IntegrationChain> for Vec<ResolvedIotaDocument>`
  unfoldable pub into_documents : IntegrationChain Doc → List (ResolvedIotaDocument Doc)
  into_documents chain = unwrap_or chain.history [] ++ chain.current ∷ []

  -- The first of the sorted documents, if there is one, is pushed.
  unfoldable pub push_first :
      IntegrationChain Doc → List (ResolvedIotaDocument Doc) → IntegrationChain Doc
  push_first this [] = this
  push_first this (next ∷ documents) = push_unchecked this next

-- `messages.iter().flat_map(|message| message.try_extract_document(did))`, where the extraction is a
-- parameter: it parses the payload of a message.
module _ {Msg R : Type 0} (try_extract_document : Msg → Option R) where
  unfoldable pub extracted : Option R → List R → List R
  extracted none rest = rest
  extracted (some document) rest = document ∷ rest

  unfoldable pub extract_documents : List Msg → List R
  extract_documents [] = []
  extract_documents (message ∷ messages) =
      extracted (try_extract_document message) (extract_documents messages)

module _ {Did Doc : Type 0} ⦃e : HasEq Did⦄ (docs : Documents Did Doc) where
  unfoldable pub new_chain : ResolvedIotaDocument Doc → Outcome Error (IntegrationChain Doc)
  new_chain current =
      if not (verify_root_document docs current.document)
      then err invalid_root_document
      else if nat_beq current.integration_message_id null
      then err invalid_message_id
      else ok (record { history = none; current = current })

  unfoldable pub check_valid_addition :
      IntegrationChain Doc → ResolvedIotaDocument Doc → Outcome Error (Unit {0})
  check_valid_addition this document =
      if not (docs.id document.document == docs.id this.current.document)
      then err invalid_did
      else if nat_beq document.integration_message_id null
      then err missing_message_id
      else if nat_beq (docs.previous_message_id document.document) null
      then err missing_previous_message_id
      else if not (nat_beq (current_message_id this) (docs.previous_message_id document.document))
      then err invalid_previous_message_id
      else if not (docs.verify_document this.current.document document.document)
      then err invalid_signature
      else ok tt

  unfoldable pub try_push :
      IntegrationChain Doc
      → ResolvedIotaDocument Doc
      → IntegrationChain Doc × Outcome Error (Unit {0})
  try_push this document = elim (check_valid_addition this document) [
    | err e ↦ (this, err e)
    | ok _ ↦ (push_unchecked this document, ok tt)
  ]

  module _ (milestone : MessageId → Outcome Error (Option ℕ)) where
    -- one round of the loop: what is pushed of the documents that refer to the current one
    unfoldable pub next_chain :
        IntegrationChain Doc
        → List (ResolvedIotaDocument Doc)
        → Outcome Error (IntegrationChain Doc)
    next_chain this documents =
        sort_by_milestone (resolved_tangle docs) milestone
          (filter (λ document. is_ok (check_valid_addition this document)) documents)
        >>= λ sorted. ok (push_first this sorted)

    -- The loop, on fuel: `none` when the fuel is spent.
    unfoldable pub extend_chain :
        ℕ
        → MessageIndex (ResolvedIotaDocument Doc)
        → IntegrationChain Doc
        → Option (Outcome Error (IntegrationChain Doc))
    extend_chain zero index this = none
    extend_chain (suc fuel) index this = elim (get index (current_message_id this)) [
      | none ↦ some (ok this)
      | some documents ↦ elim (next_chain this documents) [
        | err e ↦ some (err e)
        | ok this' ↦ extend_chain fuel (remove_key index (current_message_id this)) this'
      ]
    ]

    -- the first of the sorted root documents
    unfoldable pub first_root :
        List (ResolvedIotaDocument Doc) → Outcome Error (ResolvedIotaDocument Doc)
    first_root [] = err did_not_found
    first_root (root ∷ documents) = ok root

    unfoldable pub root_document :
        Option (List (ResolvedIotaDocument Doc)) → Outcome Error (ResolvedIotaDocument Doc)
    root_document none = err did_not_found
    root_document (some documents) =
        sort_by_milestone (resolved_tangle docs) milestone
          (filter (λ doc. verify_root_document docs doc.document) documents)
        >>= first_root

    -- Each round removes a key, so that the number of keys and one more is enough.
    unfoldable pub try_from_index :
        MessageIndex (ResolvedIotaDocument Doc) → Option (Outcome Error (IntegrationChain Doc))
    try_from_index index = elim (root_document (get index null) >>= new_chain) [
      | err e ↦ some (err e)
      | ok this ↦ extend_chain (suc (length index)) (remove_key index null) this
    ]

    unfoldable pub try_from_messages :
        {Msg : Type 0}
        → (Msg → Option (ResolvedIotaDocument Doc))
        → List Msg
        → Option (Outcome Error (IntegrationChain Doc))
    try_from_messages try_extract_document messages =
        try_from_index
          (from_iter (resolved_tangle docs) (extract_documents try_extract_document messages))
