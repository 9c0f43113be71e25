-- ===== src/Chain/Integration/Links.antt =====
-- The chain that the loop builds: a root document, and then documents that refer each to the one
-- before.
use identity_rs.Chain.Index.{null}
use identity_rs.Chain.Documents.{Documents, ResolvedIotaDocument, verify_root_document}
use identity_rs.Chain.Integration.{
  IntegrationChain, is_ok, current_message_id, push_unchecked, into_documents, check_valid_addition,
  try_push,
}
use identity_rs.Prelude.{
  ◌≡◌, ◌≢◌, refl, Bool, true, List, [], ◌∷◌, ◌++◌, HasEq, if◌then◌else◌, filter, nat_eq, unwrap_or,
  All, arith, Bool-cases, Outcome-cases, inl, inr,
}

module _ {Did Doc : Type 0} ⦃e : HasEq Did⦄ (docs : Documents Did Doc) where
  -- The second document is a valid successor of the first: it has its DID, refers to its message, has
  -- an id of its own and is signed as the first one asks.
  pub record Follows (a b : ResolvedIotaDocument Doc) : Type 0 where
    pub did : docs.id b.document ≡ docs.id a.document
    pub previous : docs.previous_message_id b.document ≡ a.integration_message_id
    pub message_id : b.integration_message_id ≢ null
    pub signature : docs.verify_document a.document b.document ≡ true

  -- Each document of the list follows the one before, the first follows `a`.
  abbrev pub Links : ResolvedIotaDocument Doc → List (ResolvedIotaDocument Doc) → Type 0
  Links a [] = Unit
  Links a (b ∷ documents) = Follows a b × Links b documents

  abbrev pub IsChain : List (ResolvedIotaDocument Doc) → Type 0
  IsChain [] = ⊥
  IsChain (root ∷ documents) =
      (verify_root_document docs root.document ≡ true)
      × (root.integration_message_id ≢ null)
      × Links root documents

  Links-append :
      (a : ResolvedIotaDocument Doc) (xs : List (ResolvedIotaDocument Doc))
      (x y : ResolvedIotaDocument Doc)
      → Links a (xs ++ x ∷ [])
      → Follows x y
      → Links a ((xs ++ x ∷ []) ++ y ∷ [])
  Links-append a [] x y l f = (l.0, (f, tt))
  Links-append a (b ∷ xs) x y l f = (l.0, Links-append b xs x y l.1 f)

  IsChain-append :
      (xs : List (ResolvedIotaDocument Doc)) (x y : ResolvedIotaDocument Doc)
      → IsChain (xs ++ x ∷ [])
      → Follows x y
      → IsChain ((xs ++ x ∷ []) ++ y ∷ [])
  IsChain-append [] x y c f = (c.0, c.1, (f, tt))
  IsChain-append (a ∷ xs) x y c f = (c.0, c.1, Links-append a xs x y c.2 f)

  pub check_valid_addition-Follows :
      (this : IntegrationChain Doc) (document : ResolvedIotaDocument Doc)
      → is_ok (check_valid_addition docs this document) ≡ true
      → Follows this.current document
  unfolding check_valid_addition current_message_id
  check_valid_addition-Follows this document h = record {
    did = ground (arith, e.beq_iff (docs.id document.document) (docs.id this.current.document));
    previous = ground arith;
    message_id = ground arith;
    signature = ground arith;
  }

  pub push_unchecked-IsChain :
      (this : IntegrationChain Doc) (document : ResolvedIotaDocument Doc)
      → IsChain (into_documents this)
      → Follows this.current document
      → IsChain (into_documents (push_unchecked this document))
  unfolding into_documents push_unchecked
  push_unchecked-IsChain this document c f =
      IsChain-append (unwrap_or this.history []) this.current document c f

  pub All-filter :
      (p : ResolvedIotaDocument Doc → Bool) (xs : List (ResolvedIotaDocument Doc))
      → All (λ x. p x ≡ true) (filter p xs)
  All-filter p [] = tt
  All-filter p (x ∷ xs) = elim (Bool-cases (p x)) [
    | inl kept ↦ rw kept (kept, All-filter p xs)
    | inr dropped ↦ rw dropped (All-filter p xs)
  ]

  -- A document that `try_push` accepts extends the chain, and one that it refuses leaves the chain as
  -- it is; the documents stay a chain in either case.
  pub try_push-IsChain :
      (this : IntegrationChain Doc) (document : ResolvedIotaDocument Doc)
      → IsChain (into_documents this)
      → IsChain (into_documents (try_push docs this document).0)
        × (into_documents (try_push docs this document).0 ≡ (
            if is_ok (try_push docs this document).1
            then into_documents this ++ document ∷ []
            else into_documents this))
  unfolding try_push into_documents push_unchecked
  try_push-IsChain this document c =
      elim (Outcome-cases (check_valid_addition docs this document)) [
        | inl (done, valid) ↦
            rw (valid, try_push)
              (
                push_unchecked-IsChain this document c
                    (check_valid_addition-Follows this document (rw valid)),
                refl,
              )
        | inr (error, invalid) ↦ rw (invalid, try_push) (c, refl)
      ]
