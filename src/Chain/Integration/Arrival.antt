-- ===== src/Chain/Integration/Arrival.antt =====
-- The chain does not depend on the order in which its messages are received.
use mathlib.Core.List.{Permᴰ}
use mathlib.Core.List.Permᴰ
use identity_rs.Chain.Index.{MessageId, MessageIndex, null, from_iter}
use identity_rs.Chain.Index.Order.{Same, IdsIdentify, from_iter-Same}
use identity_rs.Chain.Documents.{Documents, ResolvedIotaDocument, resolved_tangle}
use identity_rs.Chain.Milestone.{Error}
use identity_rs.Chain.Integration.{
  IntegrationChain, current_message_id, new_chain, next_chain, extend_chain, root_document,
  try_from_index, try_from_messages, extracted, extract_documents,
}
use identity_rs.Prelude.{
  ℕ, zero, suc, ◌<◌, ◌≡◌, ◌∙◌, sym, refl, subst, Option, none, some, List, ◌∷◌, HasEq, nat_eq,
  length, get, remove_key, get-remove_key, length-remove_key, length-remove_key_le, Outcome, ok,
  err, ◌>>=◌, arith, Option-cases, Outcome-cases, inl, inr,
}

module _ {Msg R : Type 0} (try_extract : Msg → Option R) where
  extracted_perm :
      (found : Option R) {xs ys : List R}
      → Permᴰ xs ys
      → Permᴰ (extracted try_extract found xs) (extracted try_extract found ys)
  unfolding extracted
  extracted_perm none p = p
  extracted_perm (some document) p = Permᴰ.cons refl p

  extracted_swap :
      (found found' : Option R) (xs : List R)
      → Permᴰ
          (extracted try_extract found (extracted try_extract found' xs))
          (extracted try_extract found' (extracted try_extract found xs))
  unfolding extracted
  extracted_swap none found' xs = Permᴰ.refl (extracted try_extract found' xs)
  extracted_swap (some document) none xs = Permᴰ.refl (document ∷ xs)
  extracted_swap (some document) (some document') xs = Permᴰ.swap refl refl

  extract_documents_perm :
      {xs ys : List Msg}
      → Permᴰ xs ys
      → Permᴰ (extract_documents try_extract xs) (extract_documents try_extract ys)
  unfolding extract_documents
  extract_documents_perm Permᴰ.nil = Permᴰ.nil
  extract_documents_perm (Permᴰ.cons {a} {b} {l₁} {l₂} eq p) =
      subst
        (λ m.
          Permᴰ (extract_documents try_extract (a ∷ l₁)) (extract_documents try_extract (m ∷ l₂)))
        eq (extracted_perm (try_extract a) (extract_documents_perm p))
  extract_documents_perm (Permᴰ.swap {a} {b} {a'} {b'} {l} eq eq') =
      subst
        (λ m.
          Permᴰ (extract_documents try_extract (a ∷ b ∷ l))
            (extract_documents try_extract (a' ∷ m ∷ l)))
        eq
        (subst
          (λ m.
            Permᴰ (extract_documents try_extract (a ∷ b ∷ l))
              (extract_documents try_extract (m ∷ a ∷ l)))
          eq' (extracted_swap (try_extract a) (try_extract b) (extract_documents try_extract l)))
  extract_documents_perm (Permᴰ.trans p q) =
      Permᴰ.trans (extract_documents_perm p) (extract_documents_perm q)

module _ {Did Doc : Type 0} ⦃e : HasEq Did⦄ (docs : Documents Did Doc)
    (milestone : MessageId → Outcome Error (Option ℕ)) where
  extend_chain-none :
      (fuel : ℕ) (index : MessageIndex (ResolvedIotaDocument Doc)) (this : IntegrationChain Doc)
      → get index (current_message_id this) ≡ none
      → extend_chain docs milestone (suc fuel) index this ≡ some (ok this)
  unfolding extend_chain
  extend_chain-none fuel index this absent = rw (absent, extend_chain) refl

  module _ (fuel : ℕ) (index : MessageIndex (ResolvedIotaDocument Doc))
      (this : IntegrationChain Doc) (documents : List (ResolvedIotaDocument Doc))
      (found : get index (current_message_id this) ≡ some documents) where
    extend_chain-err :
        (error : Error)
        → next_chain docs milestone this documents ≡ err error
        → extend_chain docs milestone (suc fuel) index this ≡ some (err error)
    unfolding extend_chain
    extend_chain-err error failed = rw (found, extend_chain, failed) refl

    extend_chain_next :
        (this' : IntegrationChain Doc)
        → next_chain docs milestone this documents ≡ ok this'
        → extend_chain docs milestone (suc fuel) index this
          ≡ extend_chain docs milestone fuel (remove_key index (current_message_id this)) this'
    unfolding extend_chain
    extend_chain_next this' next = rw (found, extend_chain, next) refl

  remove_key-Same :
      (index index' : MessageIndex (ResolvedIotaDocument Doc)) (key : MessageId)
      → Same index index'
      → Same (remove_key index key) (remove_key index' key)
  remove_key-Same index index' key same j =
      ground (arith, get-remove_key index key j, get-remove_key index' key j, same j)

  -- Two indices with the same lists, each with enough fuel.
  extend_chain-Same :
      (fuel fuel' : ℕ) (index index' : MessageIndex (ResolvedIotaDocument Doc))
      (this : IntegrationChain Doc)
      → length index < fuel
      → length index' < fuel'
      → Same index index'
      → extend_chain docs milestone fuel index this ≡ extend_chain docs milestone fuel' index' this
  extend_chain-Same zero fuel' index index' this enough enough' same = absurd (omega arith)
  extend_chain-Same (suc fuel) zero index index' this enough enough' same = absurd (omega arith)
  extend_chain-Same (suc fuel) (suc fuel') index index' this enough enough' same =
      let key = current_message_id this in
      elim (Option-cases (get index' key)) [
        | inl absent ↦
            extend_chain-none fuel index this (same key ∙ absent)
            ∙ sym (extend_chain-none fuel' index' this absent)
        | inr (documents, found) ↦ elim (Outcome-cases (next_chain docs milestone this documents)) [
          | inr (error, failed) ↦
              extend_chain-err fuel index this documents (same key ∙ found) error failed
              ∙ sym (extend_chain-err fuel' index' this documents found error failed)
          | inl (this', next) ↦
              extend_chain_next fuel index this documents (same key ∙ found) this' next
              ∙ extend_chain-Same fuel fuel' (remove_key index key) (remove_key index' key) this'
                  (omega (arith, length-remove_key index key documents (same key ∙ found)))
                  (omega (arith, length-remove_key index' key documents found))
                  (remove_key-Same index index' key same)
              ∙ sym (extend_chain_next fuel' index' this documents found this' next)
        ]
      ]

  start_err :
      (index : MessageIndex (ResolvedIotaDocument Doc)) (error : Error)
      → (root_document docs milestone (get index null) >>= new_chain docs) ≡ err error
      → try_from_index docs milestone index ≡ some (err error)
  unfolding try_from_index
  start_err index error failed = rw (failed, try_from_index) refl

  start_ok :
      (index : MessageIndex (ResolvedIotaDocument Doc)) (this : IntegrationChain Doc)
      → (root_document docs milestone (get index null) >>= new_chain docs) ≡ ok this
      → try_from_index docs milestone index
        ≡ extend_chain docs milestone (suc (length index)) (remove_key index null) this
  unfolding try_from_index
  start_ok index this found = rw (found, try_from_index) refl

  try_from_index-Same :
      (index index' : MessageIndex (ResolvedIotaDocument Doc))
      → Same index index'
      → try_from_index docs milestone index ≡ try_from_index docs milestone index'
  try_from_index-Same index index' same =
      let start : get index null ≡ get index' null = same null in
      elim (Outcome-cases (root_document docs milestone (get index' null) >>= new_chain docs)) [
        | inr (error, failed) ↦
            start_err index error (rw start failed) ∙ sym (start_err index' error failed)
        | inl (this, found) ↦
            start_ok index this (rw start found)
            ∙ extend_chain-Same (suc (length index)) (suc (length index')) (remove_key index null)
                (remove_key index' null) this (omega (arith, length-remove_key_le index null))
                (omega (arith, length-remove_key_le index' null))
                (remove_key-Same index index' null same)
            ∙ sym (start_ok index' this found)
      ]

  -- However the messages are ordered when they are received, the chain that is built of them, or the
  -- error, is the same, if the ids of the
  -- documents in them tell these apart.
  pub try_from_messages_perm :
      {Msg : Type 0} (try_extract : Msg → Option (ResolvedIotaDocument Doc))
      (messages messages' : List Msg)
      → IdsIdentify (resolved_tangle docs) (extract_documents try_extract messages)
      → Permᴰ messages messages'
      → try_from_messages docs milestone try_extract messages
        ≡ try_from_messages docs milestone try_extract messages'
  unfolding try_from_messages
  try_from_messages_perm try_extract messages messages' identify p =
      try_from_index-Same
        (from_iter (resolved_tangle docs) (extract_documents try_extract messages))
        (from_iter (resolved_tangle docs) (extract_documents try_extract messages'))
        (from_iter-Same (resolved_tangle docs) (extract_documents try_extract messages)
          (extract_documents try_extract messages') identify (extract_documents_perm try_extract p))
