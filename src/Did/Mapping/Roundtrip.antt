-- ===== src/Did/Mapping/Roundtrip.antt =====
-- A map of all DIDs of a document that can be undone is undone by `try_map`.
use identity_rs.Core.OrderedSet.{OrderedSet, contains, from_iter}
use identity_rs.Core.OrderedSet.Laws.{IsUnique}
use identity_rs.Core.OrderedSet.Convert.{from_iter_unique}
use identity_rs.Core.OneOrSet.{OneOrSet, one, set, one_or_set, map_items, try_map_items}
use identity_rs.Did.Document.{CoreDocument}
use identity_rs.Did.Editing.Keys.{HasUniqueKeys}
use identity_rs.Did.Method.{
  MethodRef, VerificationMethod, MethodRelationship, refer, embed, method_key, ref_key, map_method,
  map_ref, try_map_method, try_map_ref,
}
use identity_rs.Did.Service.{Service, service_key, map_service, try_map_service}
use identity_rs.Did.Url
use identity_rs.Did.Url.{DidUrl, key_eq}
use identity_rs.Did.Mapping.{
  did_key, try_collect, map_controller, map_document, try_map_controller, try_map_document,
}
use identity_rs.Prelude.{
  ◌≡◌, refl, sym, ap, ◌∙◌, true, false, Option, none, some, List, [], ◌∷◌, map, HasEq, ◌==◌,
  Outcome, ok, traverse, arith, list_eq, nat_eq,
}

-- One set: its items are mapped with `F`, collected, mapped back with `H`, and collected again.
module _ {A B K L E : Type 0} ⦃k_eq : HasEq K⦄ ⦃l_eq : HasEq L⦄ (key : A → K) (key' : B → L)
    (F : A → B) (H : B → Outcome E A) (undo : (a : A) → H (F a) ≡ ok a)
    (reflects : (a b : A) → (key' (F a) == key' (F b)) ≡ true → (key a == key b) ≡ true) where
  contains-map :
      (a : A) (xs : List A)
      → contains key xs (key a) ≡ false
      → contains key' (map F xs) (key' (F a)) ≡ false
  unfolding contains
  contains-map a [] h = refl
  contains-map a (x ∷ xs) h = ground (arith, contains-map a xs, reflects x a)

  map-IsUnique : (xs : List A) → IsUnique key xs → IsUnique key' (map F xs)
  map-IsUnique [] u = tt
  map-IsUnique (x ∷ xs) u = (contains-map x xs u.0, map-IsUnique xs u.1)

  traverse-map : (xs : List A) → traverse H (map F xs) ≡ ok xs
  traverse-map [] = refl
  traverse-map (x ∷ xs) = rw (undo x, traverse-map xs) refl

  try_collect-map :
      (xs : List A) → IsUnique key xs → try_collect key H (from_iter key' (map F xs)) ≡ ok xs
  unfolding try_collect
  try_collect-map xs u =
      rw (from_iter_unique key' (map F xs) (map-IsUnique xs u), traverse-map)
        (rw (from_iter_unique key xs u))

-- The controllers as they are stored: one, or at least two with different DIDs.
abbrev pub IsCanonical : {D : Type 0} ⦃e : HasEq D⦄ → Option (OneOrSet D) → Type 0
IsCanonical none = Unit
IsCanonical (some (one did)) = Unit
IsCanonical (some (set [])) = ⊥
IsCanonical (some (set (did ∷ []))) = ⊥
IsCanonical (some (set (did ∷ did' ∷ dids))) = IsUnique did_key (did ∷ did' ∷ dids)

module _ {D C E : Type 0} ⦃d_eq : HasEq D⦄ ⦃c_eq : HasEq C⦄ (f : D → C) (h : C → Outcome E D)
    (undo : (did : D) → h (f did) ≡ ok did) where
  same_did : (a b : D) → f a ≡ f b → a ≡ b
  same_did a b eq = let eq' : ok a ≡ ok b = sym (undo a) ∙ ap h eq ∙ undo b in ground (arith, eq')

  reflects_did : (a b : D) → (f a == f b) ≡ true → (a == b) ≡ true
  reflects_did a b t = (d_eq.beq_iff a b).1 (same_did a b ((c_eq.beq_iff (f a) (f b)).0 t))

  reflects_url :
      (a b : DidUrl D)
      → (Url.key (Url.map a f) == Url.key (Url.map b f)) ≡ true
      → (Url.key a == Url.key b) ≡ true
  unfolding Url.key Url.map
  reflects_url a b t = ground (arith, reflects_did a.did b.did)

  undo_url : (u : DidUrl D) → Url.try_map (Url.map u f) h ≡ ok u
  unfolding Url.map Url.try_map
  undo_url u = rw (undo u.did) refl

  undo_method : {U : Type 0} (m : VerificationMethod D U) → try_map_method h (map_method f m) ≡ ok m
  unfolding map_method try_map_method
  undo_method m = rw (undo_url m.id, undo m.controller) refl

  undo_ref : {U : Type 0} (r : MethodRef D U) → try_map_ref h (map_ref f r) ≡ ok r
  unfolding map_ref try_map_ref
  undo_ref (embed m) = rw (undo_method m) refl
  undo_ref (refer u) = rw (undo_url u) refl

  reflects_ref :
      {U : Type 0} (a b : MethodRef D U)
      → (ref_key (map_ref f a) == ref_key (map_ref f b)) ≡ true
      → (ref_key a == ref_key b) ≡ true
  unfolding map_ref map_method
  reflects_ref (embed a) (embed b) t = reflects_url a.id b.id t
  reflects_ref (embed a) (refer b) t = reflects_url a.id b t
  reflects_ref (refer a) (embed b) t = reflects_url a b.id t
  reflects_ref (refer a) (refer b) t = reflects_url a b t

  undo_service : {V P : Type 0} (s : Service D V P) → try_map_service h (map_service f s) ≡ ok s
  unfolding map_service try_map_service
  undo_service s = rw (undo_url s.id) refl

  undo_refs :
      {U : Type 0} (refs : OrderedSet (MethodRef D U))
      → IsUnique ref_key refs
      → try_collect ref_key (try_map_ref h) (from_iter ref_key (map (map_ref f) refs)) ≡ ok refs
  undo_refs refs u =
      try_collect-map ref_key ref_key (map_ref f) (try_map_ref h) undo_ref reflects_ref refs u

  controller_again :
      (controller : Option (OneOrSet D))
      → IsCanonical controller
      → try_map_controller h (map_controller f controller) ≡ ok controller
  unfolding map_controller try_map_controller map_items try_map_items one_or_set
  controller_again none c = refl
  controller_again (some (one did)) c = rw (undo did) refl
  controller_again (some (set [])) c = absurd c
  controller_again (some (set (did ∷ []))) c = absurd c
  controller_again (some (set (did ∷ did' ∷ dids))) c =
      let dids' : List D = did ∷ did' ∷ dids in
      rw
        (
          from_iter_unique did_key (map f dids')
              (map-IsUnique did_key did_key f h undo reflects_did dids' c),
          traverse-map did_key did_key f h undo reflects_did dids',
          from_iter_unique did_key dids' c,
        )
        refl

  module _ {T S U V P : Type 0} (g : T → S) (g' : S → Outcome E T)
      (undo_properties : (t : T) → g' (g t) ≡ ok t) where
    -- Where `h` gives back the DID that `f` replaced, and `g'` the properties that `g` replaced,
    -- `try_map` with `h` and `g'` succeeds on the result of `map` with `f` and `g` and gives back the
    -- document, with every set in its order. The methods, references and services of the document
    -- have unique keys, and its controllers are none, one, or at least two that differ.
    pub try_map_document-map_document :
        (doc : CoreDocument D T U V P)
        → HasUniqueKeys doc
        → IsCanonical doc.controller
        → try_map_document h g' (map_document f g doc) ≡ ok doc
    unfolding map_document try_map_document Url.key map_method map_service
    try_map_document-map_document doc unique canonical =
        rw
          (
            undo doc.id,
            controller_again doc.controller canonical,
            try_collect-map method_key method_key (map_method f) (try_map_method h) undo_method
                (λ a b. reflects_url a.id b.id) doc.verification_method unique.methods,
            undo_refs doc.authentication (unique.refs MethodRelationship.authentication),
            undo_refs doc.assertion_method (unique.refs MethodRelationship.assertion_method),
            undo_refs doc.key_agreement (unique.refs MethodRelationship.key_agreement),
            undo_refs doc.capability_delegation
                (unique.refs MethodRelationship.capability_delegation),
            undo_refs doc.capability_invocation
                (unique.refs MethodRelationship.capability_invocation),
            try_collect-map service_key service_key (map_service f) (try_map_service h) undo_service
                (λ a b. reflects_url a.id b.id) doc.service unique.services,
            undo_properties doc.properties,
          )
          refl
