-- ===== src/Chain/Integration/Loop.antt =====
-- The loop of `try_from_index`: it ends, and what it builds is a chain, whatever the index holds.
use identity_rs.Chain.Index.{MessageId, MessageIndex, null}
use identity_rs.Chain.Documents.{
  Documents, ResolvedIotaDocument, verify_root_document, resolved_tangle,
}
use identity_rs.Chain.Milestone.{Error, sort_by_milestone}
use identity_rs.Chain.Milestone.Laws.{sort_by_milestone-All}
use identity_rs.Chain.Integration.{
  IntegrationChain, is_ok, current_message_id, into_documents, push_first, new_chain,
  check_valid_addition, next_chain, extend_chain, first_root, root_document, try_from_index,
}
use identity_rs.Chain.Integration.Links.{
  IsChain, All-filter, check_valid_addition-Follows, push_unchecked-IsChain,
}
use identity_rs.Prelude.{
  ℕ, zero, suc, ◌<◌, ◌≡◌, ◌⊎◌, refl, subst, true, Option, none, some, List, [], ◌∷◌, HasEq, filter,
  nat_beq, nat_eq, length, get, remove_key, length-remove_key, length-remove_key_le, Outcome, ok,
  err, ◌>>=◌, All, arith, Bool-cases, Option-cases, Outcome-cases, inl, inr,
}

module _ {Did Doc : Type 0} ⦃e : HasEq Did⦄ (docs : Documents Did Doc)
    (milestone : MessageId → Outcome Error (Option ℕ)) where
  push_first-IsChain :
      (this : IntegrationChain Doc) (sorted : List (ResolvedIotaDocument Doc))
      → All (λ d. is_ok (check_valid_addition docs this d) ≡ true) sorted
      → IsChain docs (into_documents this)
      → IsChain docs (into_documents (push_first this sorted))
  unfolding push_first
  push_first-IsChain this [] v c = c
  push_first-IsChain this (next ∷ sorted) v c =
      push_unchecked-IsChain docs this next c (check_valid_addition-Follows docs this next v.0)

  next_chain-IsChain :
      (this this' : IntegrationChain Doc) (documents : List (ResolvedIotaDocument Doc))
      → next_chain docs milestone this documents ≡ ok this'
      → IsChain docs (into_documents this)
      → IsChain docs (into_documents this')
  unfolding next_chain
  next_chain-IsChain this this' documents h c =
      let valid = filter (λ d. is_ok (check_valid_addition docs this d)) documents in
      elim (Outcome-cases (sort_by_milestone (resolved_tangle docs) milestone valid)) [
        | inr (error, failed) ↦ absurd (ground arith)
        | inl (sorted, found) ↦
            let eq : push_first this sorted ≡ this' = ground arith in
            subst (λ t. IsChain docs (into_documents t)) eq
              (push_first-IsChain this sorted
                (sort_by_milestone-All (resolved_tangle docs)
                  (λ d. is_ok (check_valid_addition docs this d) ≡ true) milestone valid sorted
                  found (All-filter docs (λ d. is_ok (check_valid_addition docs this d)) documents))
                c)
      ]

  -- What `extend_chain` gives: an error, or a chain.
  abbrev Ends : Option (Outcome Error (IntegrationChain Doc)) → Type 0
  Ends result =
      ((error : Error) × (result ≡ some (err error)))
      ⊎ ((chain : IntegrationChain Doc) × (result ≡ some (ok chain))
          × IsChain docs (into_documents chain))

  extend_chain-Ends :
      (fuel : ℕ) (index : MessageIndex (ResolvedIotaDocument Doc)) (this : IntegrationChain Doc)
      → length index < fuel
      → IsChain docs (into_documents this)
      → Ends (extend_chain docs milestone fuel index this)
  unfolding extend_chain
  extend_chain-Ends zero index this enough c = absurd (omega arith)
  extend_chain-Ends (suc fuel) index this enough c =
      elim (Option-cases (get index (current_message_id this))) [
        | inl absent ↦ inr (this, rw (absent, extend_chain) refl, c)
        | inr (documents, found) ↦ elim (Outcome-cases (next_chain docs milestone this documents)) [
          | inr (error, failed) ↦ inl (error, rw (found, extend_chain) (rw failed refl))
          | inl (this', next) ↦
              rw (found, extend_chain, next)
                (extend_chain-Ends fuel (remove_key index (current_message_id this)) this'
                  (omega (arith, length-remove_key index (current_message_id this) documents found))
                  (next_chain-IsChain this this' documents next c))
        ]
      ]

  first_root-All :
      (P : ResolvedIotaDocument Doc → Type 0) (sorted : List (ResolvedIotaDocument Doc))
      (root : ResolvedIotaDocument Doc)
      → first_root docs milestone sorted ≡ ok root
      → All P sorted
      → P root
  unfolding first_root
  first_root-All P [] root h v = absurd (ground arith)
  first_root-All P (r ∷ sorted) root h v = let eq : r ≡ root = ground arith in subst P eq v.0

  new_chain-IsChain :
      (root : ResolvedIotaDocument Doc) (this : IntegrationChain Doc)
      → new_chain docs root ≡ ok this
      → IsChain docs (into_documents this)
  unfolding new_chain into_documents
  new_chain-IsChain root this h = elim (Bool-cases (verify_root_document docs root.document)) [
    | inr invalid ↦ absurd (ground arith)
    | inl valid ↦ elim (Bool-cases (nat_beq root.integration_message_id null)) [
      | inl missing ↦ absurd (ground arith)
      | inr present ↦
          let eq : (record { history = none; current = root }) ≡ this = ground arith in
          subst (λ t. IsChain docs (into_documents t)) eq (valid, ground arith, tt)
    ]
  ]

  -- Whatever messages the index holds, building the chain ends, with an error or with a chain: its
  -- first document is a valid root document, and each later one has the DID of the one before, refers
  -- to its message, has an id of its own and is signed as the one before asks.
  pub try_from_index-IsChain :
      (index : MessageIndex (ResolvedIotaDocument Doc))
      → ((error : Error) × (try_from_index docs milestone index ≡ some (err error)))
        ⊎ ((chain : IntegrationChain Doc) × (try_from_index docs milestone index ≡ some (ok chain))
            × IsChain docs (into_documents chain))
  unfolding try_from_index
  try_from_index-IsChain index =
      elim (Outcome-cases (root_document docs milestone (get index null) >>= new_chain docs)) [
        | inr (error, failed) ↦ inl (error, rw (failed, try_from_index) refl)
        | inl (this, found) ↦
            rw (found, try_from_index)
              (extend_chain-Ends (suc (length index)) (remove_key index null) this
                (omega (arith, length-remove_key_le index null))
                (elim (Outcome-cases (root_document docs milestone (get index null))) [
                  | inr (error, failed) ↦ absurd (ground arith)
                  | inl (root, first) ↦ new_chain-IsChain root this (ground arith)
                ]))
      ]
