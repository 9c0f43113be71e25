-- ===== src/Did/Editing/Relationships.antt =====
-- `attach_method_relationship` and `detach_method_relationship`.
use identity_rs.Core.OrderedSet
use identity_rs.Core.OrderedSet.{OrderedSet, contains}
use identity_rs.Core.OrderedSet.Laws.{contains-append, contains-append_list, contains-remove}
use identity_rs.Did.Document.{CoreDocument, relation, set_relation, resolve_method}
use identity_rs.Did.Editing.{
  method_not_found, not_generic, attach_method_relationship, detach_method_relationship,
}
use identity_rs.Did.Editing.Keys.{methods-set_relation}
use identity_rs.Did.Method.{
  MethodRelationship, MethodScope, VerificationMethod, MethodRef, ref_key, refer,
}
use identity_rs.Did.Url
use identity_rs.Did.Url.{key_eq}
use identity_rs.Prelude.{
  ◌≡◌, ◌↔◌, ap, refl, true, false, not, ◌&&◌, ◌||◌, none, some, [], ◌∷◌, ◌++◌, HasEq, ◌==◌,
  beq_refl, ok, err, Text, arith, filter,
}

module _ {D T U V P : Type 0} where
  pub relation-set_relation :
      (doc : CoreDocument D T U V P) (r : MethodRelationship) (set : OrderedSet (MethodRef D U))
      → relation (set_relation doc r set) r ≡ set
  relation-set_relation doc MethodRelationship.authentication set = refl
  relation-set_relation doc _ set = refl

  set_relation_twice :
      (doc : CoreDocument D T U V P) (r : MethodRelationship)
      (set set' : OrderedSet (MethodRef D U))
      → set_relation (set_relation doc r set) r set' ≡ set_relation doc r set'
  set_relation_twice doc MethodRelationship.authentication set set' = refl
  set_relation_twice doc _ set set' = refl

  pub set_relation_self :
      (doc : CoreDocument D T U V P) (r : MethodRelationship)
      → set_relation doc r (relation doc r) ≡ doc
  set_relation_self doc MethodRelationship.authentication = refl
  set_relation_self doc _ = refl

module _ {D U : Type 0} ⦃e : HasEq D⦄ where
  filter_absent :
      (set : OrderedSet (MethodRef D U)) (item : MethodRef D U)
      → contains ref_key set (ref_key item) ≡ false
      → filter (λ this. not (ref_key this == ref_key item)) (set ++ item ∷ []) ≡ set
  unfolding contains
  filter_absent [] item h = rw (beq_refl (ref_key item)) refl
  filter_absent (x ∷ set) item h = ground (arith, filter_absent set item)

  -- The removal of a reference that was just appended gives the set as it was.
  remove-append :
      (set : OrderedSet (MethodRef D U)) (item : MethodRef D U)
      → contains ref_key set (ref_key item) ≡ false
      → OrderedSet.remove ref_key (OrderedSet.append ref_key set item).0 (ref_key item)
        ≡ (set, true)
  unfolding OrderedSet.remove OrderedSet.append
  remove-append set item h =
      let present : contains ref_key (set ++ item ∷ []) (ref_key item) ≡ true = ground (
        arith,
        contains-append_list ref_key (ref_key item) set (item ∷ []),
        beq_refl (ref_key item),
        one item,
      ) in
      rw h
        (rw present (ap (λ (s : OrderedSet (MethodRef D U)). (s, true)) (filter_absent set item h)))
    where
      one : (item : MethodRef D U) → contains ref_key (item ∷ []) (ref_key item) ≡ true
      one item = unfold contains in ground (arith, beq_refl (ref_key item))

module _ {D T U V P : Type 0} ⦃e : HasEq D⦄ (as_str : D → Text) (q : Text) (r : MethodRelationship)
    (doc : CoreDocument D T U V P) (method : VerificationMethod D U)
    (found : resolve_method as_str doc q (some MethodScope.verification_method) ≡ some method) where
  attach_found : attach_method_relationship as_str doc q r ≡ (
    set_relation doc r (OrderedSet.append ref_key (relation doc r) (refer method.id)).0,
    ok (OrderedSet.append ref_key (relation doc r) (refer method.id)).1,
  )
  unfolding attach_method_relationship
  attach_found = rw (found, attach_method_relationship) refl

  detach_found : detach_method_relationship as_str doc q r ≡ (
    set_relation doc r (OrderedSet.remove ref_key (relation doc r) (Url.key method.id)).0,
    ok (OrderedSet.remove ref_key (relation doc r) (Url.key method.id)).1,
  )
  unfolding detach_method_relationship
  detach_found = rw (found, detach_method_relationship) refl

module _ {D T U V P : Type 0} ⦃e : HasEq D⦄ (as_str : D → Text) (doc : CoreDocument D T U V P)
    (q : Text) (r : MethodRelationship) where
  -- Where the query finds no general verification method, both operations fail and leave the document
  -- as it is: with the error for embedded methods if the query finds a method at all, else with the
  -- error for a missing method.
  pub not_generic_errors :
      resolve_method as_str doc q (some MethodScope.verification_method) ≡ none
      → (attach_method_relationship as_str doc q r ≡ (doc, err (not_generic as_str doc q)))
        × (detach_method_relationship as_str doc q r ≡ (doc, err (not_generic as_str doc q)))
        × ((not_generic as_str doc q ≡ method_not_found)
            ↔ (resolve_method as_str doc q none ≡ none))
  unfolding attach_method_relationship detach_method_relationship not_generic
  not_generic_errors missing = (
    rw (missing, attach_method_relationship) refl,
    rw (missing, detach_method_relationship) refl,
    ground arith,
  )

  module _ (method : VerificationMethod D U)
      (found : resolve_method as_str doc q (some MethodScope.verification_method)
        ≡ some method) where
    -- Where the query finds a general method, `attach` puts a reference to it under the relationship,
    -- says whether it was new, and changes the presence of no other key there; `detach` removes it,
    -- says whether it was there, and changes the presence of no other key. Neither touches the methods.
    pub attached_or_detached :
        (k : Url.UrlKey D)
        → let after = attach_method_relationship as_str doc q r in
          let after' = detach_method_relationship as_str doc q r in
          (contains ref_key (relation after.0 r) k
            ≡ (contains ref_key (relation doc r) k || Url.key method.id == k))
          × (after.1 ≡ ok (not (contains ref_key (relation doc r) (Url.key method.id))))
          × (after.0.verification_method ≡ doc.verification_method)
          × (contains ref_key (relation after'.0 r) k
              ≡ (contains ref_key (relation doc r) k && not (k == Url.key method.id)))
          × (after'.1 ≡ ok (contains ref_key (relation doc r) (Url.key method.id)))
          × (after'.0.verification_method ≡ doc.verification_method)
    attached_or_detached k =
        let set = relation doc r in
        let added = contains-append ref_key set (refer method.id) k in
        let removed = contains-remove ref_key set (Url.key method.id) k in
        rw (attach_found as_str q r doc method found, detach_found as_str q r doc method found)
          (
            rw relation-set_relation added.0,
            ap ok added.1,
            methods-set_relation doc r _,
            rw relation-set_relation removed.0,
            ap ok removed.1,
            methods-set_relation doc r _,
          )

    -- A reference that `attach` added is removed by `detach`, which gives the document as it was.
    pub detach-attach :
        contains ref_key (relation doc r) (Url.key method.id) ≡ false
        → detach_method_relationship as_str (attach_method_relationship as_str doc q r).0 q r
          ≡ (doc, ok true)
    unfolding resolve_method
    detach-attach absent =
        let set = relation doc r in
        let after = set_relation doc r (OrderedSet.append ref_key set (refer method.id)).0 in
        let found' : resolve_method as_str after q (some MethodScope.verification_method)
            ≡ some method =
          rw (methods-set_relation doc r _) found in
        let undone = remove-append set (refer method.id) absent in
        rw (attach_found as_str q r doc method found, detach_found as_str q r after method found')
          (rw (relation-set_relation, set_relation_twice)
            (rw undone (rw (set_relation_self doc r) refl)))
