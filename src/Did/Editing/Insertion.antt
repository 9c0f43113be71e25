-- ===== src/Did/Editing/Insertion.antt =====
-- `insert_method`: what it inserts can be resolved, and where it inserts nothing without an error.
use identity_rs.Core.OrderedSet
use identity_rs.Core.OrderedSet.{OrderedSet, contains}
use identity_rs.Did.Document.{
  CoreDocument, relation, set_relation, query_methods, query_refs, first_ref, resolve_method_ref,
  resolve_method_inner, resolve_method,
}
use identity_rs.Did.Editing.{append_in_scope, insert_method, method_already_exists}
use identity_rs.Did.Editing.Relationships.{relation-set_relation, set_relation_self}
use identity_rs.Did.Method.{
  MethodRelationship, MethodScope, VerificationMethod, MethodRef, method_key, ref_key, ref_id,
  embed,
}
use identity_rs.Did.Query.{matches, from_did_url, query}
use identity_rs.Did.Query.Matching.{IsDidText, matches-from_did_url}
use identity_rs.Did.Url
use identity_rs.Did.Url.{
  DidUrl, UrlKey, RelativeDidUrl, key_eq, key_beq_iff, get_fragment, or_empty,
}
use identity_rs.Did.Url.Validity.{IsValid}
use identity_rs.Prelude.{
  ℕ, ◌≡◌, ◌≢◌, ◌⊎◌, ap, ◌∙◌, refl, Bool, true, false, Option, none, some, List, [], ◌∷◌, ◌++◌,
  HasEq, ◌==◌, ok, err, Text, arith, find, Option-cases, inl, inr, beq_refl, list_eq, nat_eq,
}

find_append :
    {A : Type 0} (p : A → Bool) (xs : List A) (x : A)
    → find p xs ≡ none
    → p x ≡ true
    → find p (xs ++ x ∷ []) ≡ some x
find_append p [] x h px = rw px refl
find_append p (y ∷ xs) x h px = ground (arith, find_append p xs x)

fragment_of_text : (o : Option Text) (t : Text) → or_empty o ≡ b'#' ∷ t → o ≡ some (b'#' ∷ t)
fragment_of_text none t h = absurd (ground arith)
fragment_of_text (some s) t h = ap some h

get_fragment_lem :
    (url : RelativeDidUrl) (t : Text) → or_empty url.fragment ≡ b'#' ∷ t → get_fragment url ≡ some t
unfolding get_fragment
get_fragment_lem url t h = rw (fragment_of_text url.fragment t h, get_fragment) refl

module _ {T K : Type 0} ⦃e : HasEq K⦄ (key : T → K) (p : T → Bool) (k : K)
    (covers : (entry : T) → (key entry == k) ≡ true → p entry ≡ true) where
  not-contains_of_find : (xs : List T) → find p xs ≡ none → contains key xs k ≡ false
  unfolding contains
  not-contains_of_find [] h = refl
  not-contains_of_find (x ∷ xs) h = ground (arith, covers x, not-contains_of_find xs)

module _ {D T U V P : Type 0} ⦃e : HasEq D⦄ (as_str : D → Text) (doc : CoreDocument D T U V P) where
  -- Where the key of a new method stands under a relationship already and yet no method is resolved,
  -- as with a reference to a method that the document does not hold, the insertion reports success and
  -- the document is as before.
  pub insert_method_silent :
      (method : VerificationMethod D U) (r : MethodRelationship)
      → resolve_method as_str doc (from_did_url as_str method.id) none ≡ none
      → contains ref_key (relation doc r) (method_key method) ≡ true
      → insert_method as_str doc method (MethodScope.verification_relationship r) ≡ (doc, ok tt)
  unfolding insert_method append_in_scope OrderedSet.append
  insert_method_silent method r missing present =
      rw (missing, insert_method) (rw present (rw (set_relation_self doc r) refl))

  insert_new :
      (method : VerificationMethod D U) (scope : MethodScope)
      → resolve_method as_str doc (from_did_url as_str method.id) none ≡ none
      → insert_method as_str doc method scope ≡ (append_in_scope doc method scope, ok tt)
  unfolding insert_method
  insert_new method scope missing = rw (missing, insert_method) refl

  insert_old :
      (method : VerificationMethod D U) (scope : MethodScope)
      → resolve_method as_str doc (from_did_url as_str method.id) none ≢ none
      → insert_method as_str doc method scope ≡ (doc, err method_already_exists)
  unfolding insert_method
  insert_old method scope present =
      elim (Option-cases (resolve_method as_str doc (from_did_url as_str method.id) none)) [
        | inl missing ↦ absurd (present missing)
        | inr (old, found) ↦ rw (found, insert_method) refl
      ]

  first_ref-none :
      (q : Text) (r : MethodRelationship)
      → first_ref as_str doc q ≡ none
      → query_refs as_str (relation doc r) q ≡ none
  unfolding first_ref
  first_ref-none q MethodRelationship.authentication h = ground arith
  first_ref-none q r h = ground arith

  module _ (method : VerificationMethod D U) (ch : ℕ) (f : Text)
      (did_text : IsDidText (as_str method.id.did)) (valid : IsValid method.id.url)
      (frag : method.id.url.fragment ≡ some (b'#' ∷ ch ∷ f)) where
    abbrev q : Text
    q = from_did_url as_str method.id

    same_key-matches :
        (v : DidUrl D) → (Url.key v == method_key method) ≡ true → matches as_str q v ≡ true
    unfolding Url.key
    same_key-matches v same =
        let eq : Url.key v ≡ method_key method = (key_beq_iff _ _).0 same in
        let did_eq : v.did ≡ method.id.did = ap (λ (k : UrlKey D). k.did) eq in
        let frag_eq : or_empty v.url.fragment ≡ b'#' ∷ ch ∷ f =
          ap (λ (k : UrlKey D). k.fragment) eq ∙ ap or_empty frag in
        rw (matches-from_did_url as_str method.id ch f did_text valid frag v, did_eq)
          (rw (get_fragment_lem v.url (ch ∷ f) frag_eq)
            (rw (beq_refl (as_str method.id.did)) (beq_refl (ch ∷ f))))

    module _ (new : first_ref as_str doc q ≡ none)
        (absent : query_methods as_str doc.verification_method q ≡ none) where
      refs_absent :
          (r : MethodRelationship) → contains ref_key (relation doc r) (method_key method) ≡ false
      unfolding query_refs query
      refs_absent r =
          not-contains_of_find ref_key (λ entry. matches as_str q (ref_id entry))
            (method_key method) (λ entry. same_key-matches (ref_id entry)) (relation doc r)
            (first_ref-none q r new)

      methods_absent : contains method_key doc.verification_method (method_key method) ≡ false
      unfolding query_methods query
      methods_absent =
          not-contains_of_find method_key (λ entry. matches as_str q entry.id) (method_key method)
            (λ entry. same_key-matches entry.id) doc.verification_method absent

      self_matches : matches as_str q method.id ≡ true
      self_matches = same_key-matches method.id (beq_refl (method_key method))

      resolved_in_scope :
          (scope : MethodScope)
          → resolve_method as_str (append_in_scope doc method scope) q (some scope) ≡ some method
      unfolding resolve_method append_in_scope OrderedSet.append query_methods query_refs query
      resolved_in_scope MethodScope.verification_method =
          rw methods_absent (find_append _ doc.verification_method method absent self_matches)
      resolved_in_scope (MethodScope.verification_relationship r) =
          rw (relation-set_relation, refs_absent r)
            (rw
              (find_append (λ entry. matches as_str q (ref_id entry)) (relation doc r)
                (embed method) (first_ref-none q r new) self_matches)
              (unfold resolve_method_ref in refl))

      embed_found :
          (r : MethodRelationship)
          → query_refs as_str (relation doc r ++ embed method ∷ []) q ≡ some (embed method)
      unfolding query_refs query
      embed_found r =
          find_append (λ entry. matches as_str q (ref_id entry)) (relation doc r) (embed method)
            (first_ref-none q r new) self_matches

      first_ref-embed :
          (r : MethodRelationship)
          → first_ref as_str (set_relation doc r (relation doc r ++ embed method ∷ [])) q
            ≡ some (embed method)
      unfolding first_ref
      first_ref-embed MethodRelationship.authentication =
          rw (embed_found MethodRelationship.authentication) refl
      first_ref-embed r = ground (
        arith,
        embed_found r,
        first_ref-none q MethodRelationship.authentication new,
        first_ref-none q MethodRelationship.assertion_method new,
        first_ref-none q MethodRelationship.key_agreement new,
        first_ref-none q MethodRelationship.capability_delegation new,
      )

      first_ref-methods :
          (set : OrderedSet (VerificationMethod D U))
          → first_ref as_str (record doc { verification_method = set }) q ≡ none
      unfolding first_ref
      first_ref-methods set = new

      resolved_anywhere :
          (scope : MethodScope)
          → resolve_method as_str (append_in_scope doc method scope) q none ≡ some method
      unfolding resolve_method resolve_method_inner append_in_scope OrderedSet.append query_methods
          query
      resolved_anywhere MethodScope.verification_method =
          rw (first_ref-methods _, resolve_method_inner)
            (rw methods_absent (find_append _ doc.verification_method method absent self_matches))
      resolved_anywhere (MethodScope.verification_relationship r) =
          rw (refs_absent r)
            (rw (first_ref-embed r, resolve_method_inner) (unfold resolve_method_ref in refl))

    new_id :
        ((ref : MethodRef D U)
          → first_ref as_str doc q ≡ some ref
          → resolve_method_ref as_str doc ref ≢ none)
        → resolve_method as_str doc q none ≡ none
        → (first_ref as_str doc q ≡ none) × (query_methods as_str doc.verification_method q ≡ none)
    unfolding resolve_method resolve_method_inner
    new_id leads missing = elim (Option-cases (first_ref as_str doc q)) [
      | inl none_found ↦ (none_found, ground arith)
      | inr (ref, found) ↦ absurd (leads ref found (ground arith))
    ]

    -- A method with a well-formed id is inserted when no method resolves for its id and no reference
    -- to that id leads nowhere: the result is success, and then the id resolves to the method, in the
    -- scope of the insertion and without a scope. When some method resolves, the insertion fails and
    -- the document is as before.
    pub insert_method-resolve :
        (scope : MethodScope)
        → ((ref : MethodRef D U)
            → first_ref as_str doc q ≡ some ref
            → resolve_method_ref as_str doc ref ≢ none)
        → ((resolve_method as_str doc q none ≡ none)
            × ((insert_method as_str doc method scope).1 ≡ ok tt)
            × (resolve_method as_str (insert_method as_str doc method scope).0 q (some scope)
                ≡ some method)
            × (resolve_method as_str (insert_method as_str doc method scope).0 q none
                ≡ some method))
          ⊎ ((resolve_method as_str doc q none ≢ none)
              × (insert_method as_str doc method scope ≡ (doc, err method_already_exists)))
    insert_method-resolve scope leads = elim (Option-cases (resolve_method as_str doc q none)) [
      | inl missing ↦
          let (new, absent) = new_id leads missing in
          inl (
            rw (insert_new method scope missing) (
              missing,
              refl,
              resolved_in_scope new absent scope,
              resolved_anywhere new absent scope,
            ))
      | inr (old, found) ↦
          let exists : resolve_method as_str doc q none ≢ none = λ q. absurd (ground arith) in
          inr (exists, insert_old method scope exists)
    ]
