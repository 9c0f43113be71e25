-- ===== src/Did/Builder/Builds.antt =====
-- What the builder of documents builds.
use identity_rs.Core.OneOrSet.{OneOrSet}
use identity_rs.Core.OneOrSet.Laws.{try_from_vec-IsValid}
use identity_rs.Core.OrderedSet.{try_from}
use identity_rs.Core.OrderedSet.Convert.{try_from-IsUnique, try_from_unique}
use identity_rs.Core.OrderedSet.Laws.{IsUnique}
use identity_rs.Did.Builder.{DocumentBuilder, alias_key, try_field, try_controller, from_builder}
use identity_rs.Did.Document.{CoreDocument, relation}
use identity_rs.Did.Editing.Keys.{HasUniqueKeys}
use identity_rs.Did.Mapping.{did_key}
use identity_rs.Did.Method.{MethodRelationship, MethodRef, method_key, ref_key}
use identity_rs.Did.Service.{service_key}
use identity_rs.Did.Url.{key_eq}
use identity_rs.Prelude.{
  ◌≡◌, ◌↔◌, inl, inr, refl, Option, none, some, List, [], ◌∷◌, HasEq, ok, ok_or, bind_parts,
  map_err-ok, ok_or_iff, Text, list_eq, nat_eq, arith,
}

module _ {K A : Type 0} ⦃e : HasEq K⦄ where
  try_field-ok :
      (name : Text) (key : A → K) (items set : List A)
      → try_field name key items ≡ ok set
      → IsUnique key items × (set ≡ items)
  unfolding try_field
  try_field-ok name key items set h = elim (try_from-IsUnique key items) [
    | inl (unique, same) ↦ (unique, ground (arith, same, map_err-ok _ (try_from key items) h))
    | inr (_, failed) ↦ absurd (ground (arith, failed, map_err-ok _ (try_from key items) h))
  ]

  try_field_unique :
      (name : Text) (key : A → K) (items : List A)
      → IsUnique key items
      → try_field name key items ≡ ok items
  unfolding try_field
  try_field_unique name key items unique = rw (try_from_unique key items unique) refl

module _ {D : Type 0} ⦃e : HasEq D⦄ where
  try_controller-ok :
      (items : List D) (controller : Option (OneOrSet D))
      → try_controller items ≡ ok controller
      → IsUnique did_key items
  unfolding try_controller
  try_controller-ok [] controller h = tt
  try_controller-ok (c ∷ cs) controller h = elim (try_from_vec-IsValid did_key (c ∷ cs)) [
    | inl (_, _, _, _, unique, _) ↦ unique
    | inr failed ↦ elim failed [
      | inl (_, failed') ↦ absurd (ground (arith, failed', h))
      | inr (_, failed') ↦ absurd (ground (arith, failed', h))
    ]
  ]

  try_controller_unique :
      (items : List D)
      → IsUnique did_key items
      → (controller : Option (OneOrSet D)) × (try_controller items ≡ ok controller)
  unfolding try_controller
  try_controller_unique [] unique = (none, refl)
  try_controller_unique (c ∷ cs) unique = elim (try_from_vec-IsValid did_key (c ∷ cs)) [
    | inl (s, made, _, _, _, _) ↦ (some s, rw made refl)
    | inr failed ↦ elim failed [
      | inl (empty, _) ↦ absurd (ground (arith, empty))
      | inr (twice, _) ↦ absurd (twice unique)
    ]
  ]

module _ {D T U V P : Type 0} ⦃e : HasEq D⦄ where
  -- the set of a relationship
  abbrev pub refs_of : DocumentBuilder D T U V P → MethodRelationship → List (MethodRef D U)
  refs_of builder MethodRelationship.authentication = builder.authentication
  refs_of builder MethodRelationship.assertion_method = builder.assertion_method
  refs_of builder MethodRelationship.key_agreement = builder.key_agreement
  refs_of builder MethodRelationship.capability_delegation = builder.capability_delegation
  refs_of builder MethodRelationship.capability_invocation = builder.capability_invocation

  -- There is an id, and no part has two entries of one key.
  pub record IsComplete (builder : DocumentBuilder D T U V P) : Type 0 where
    pub id : D
    pub identified : builder.id ≡ some id
    pub controllers : IsUnique did_key builder.controller
    pub aliases : IsUnique alias_key builder.also_known_as
    pub methods : IsUnique method_key builder.verification_method
    pub refs : (r : MethodRelationship) → IsUnique ref_key (refs_of builder r)
    pub services : IsUnique service_key builder.service

  built-IsComplete :
      (builder : DocumentBuilder D T U V P) (doc : CoreDocument D T U V P)
      → from_builder builder ≡ ok doc
      → IsComplete builder
  unfolding from_builder
  built-IsComplete builder doc h =
      let (id, a, h) = bind_parts (ok_or builder.id _) _ h in
      let (controller, b, h) = bind_parts (try_controller builder.controller) _ h in
      let (aliases, c, h) = bind_parts (try_field _ alias_key builder.also_known_as) _ h in
      let (methods, d, h) = bind_parts (try_field _ method_key builder.verification_method) _ h in
      let (authentication, r0, h) = bind_parts (try_field _ ref_key builder.authentication) _ h in
      let (assertion, r1, h) = bind_parts (try_field _ ref_key builder.assertion_method) _ h in
      let (agreement, r2, h) = bind_parts (try_field _ ref_key builder.key_agreement) _ h in
      let (delegation, r3, h) =
        bind_parts (try_field _ ref_key builder.capability_delegation) _ h in
      let (invocation, r4, h) =
        bind_parts (try_field _ ref_key builder.capability_invocation) _ h in
      let (service, s, _) = bind_parts (try_field _ service_key builder.service) _ h in
      record {
        id = id;
        identified = (ok_or_iff _ _ id).0 a;
        controllers = try_controller-ok builder.controller controller b;
        aliases = (try_field-ok _ alias_key builder.also_known_as aliases c).0;
        methods = (try_field-ok _ method_key builder.verification_method methods d).0;
        refs = λ r. elim r as (λ k. IsUnique ref_key (refs_of builder k)) [
          | MethodRelationship.authentication ↦ (try_field-ok _ ref_key _ authentication r0).0
          | MethodRelationship.assertion_method ↦ (try_field-ok _ ref_key _ assertion r1).0
          | MethodRelationship.key_agreement ↦ (try_field-ok _ ref_key _ agreement r2).0
          | MethodRelationship.capability_delegation ↦ (try_field-ok _ ref_key _ delegation r3).0
          | MethodRelationship.capability_invocation ↦ (try_field-ok _ ref_key _ invocation r4).0
        ];
        services = (try_field-ok _ service_key builder.service service s).0;
      }

  -- the document of a complete builder
  abbrev document_of : DocumentBuilder D T U V P → D → Option (OneOrSet D) → CoreDocument D T U V P
  document_of builder id controller = record {
    id = id;
    controller = controller;
    also_known_as = builder.also_known_as;
    verification_method = builder.verification_method;
    authentication = builder.authentication;
    assertion_method = builder.assertion_method;
    key_agreement = builder.key_agreement;
    capability_delegation = builder.capability_delegation;
    capability_invocation = builder.capability_invocation;
    service = builder.service;
    properties = builder.properties;
  }

  complete_builds :
      (builder : DocumentBuilder D T U V P) (complete : IsComplete builder)
      → (controller : Option (OneOrSet D)) × (from_builder builder
          ≡ ok (document_of builder complete.id controller))
  unfolding from_builder
  complete_builds builder complete =
      let (controller, read) = try_controller_unique builder.controller complete.controllers in
      (
        controller,
        rw
            (
              complete.identified,
              read,
              try_field_unique _ alias_key builder.also_known_as complete.aliases,
              try_field_unique _ method_key builder.verification_method complete.methods,
              try_field_unique _ ref_key builder.authentication
                  (complete.refs MethodRelationship.authentication),
              try_field_unique _ ref_key builder.assertion_method
                  (complete.refs MethodRelationship.assertion_method),
              try_field_unique _ ref_key builder.key_agreement
                  (complete.refs MethodRelationship.key_agreement),
              try_field_unique _ ref_key builder.capability_delegation
                  (complete.refs MethodRelationship.capability_delegation),
              try_field_unique _ ref_key builder.capability_invocation
                  (complete.refs MethodRelationship.capability_invocation),
              try_field_unique _ service_key builder.service complete.services,
            )
            refl,
      )

  complete-HasUniqueKeys :
      (builder : DocumentBuilder D T U V P) (complete : IsComplete builder)
      (controller : Option (OneOrSet D))
      → HasUniqueKeys (document_of builder complete.id controller)
  complete-HasUniqueKeys builder complete controller = record {
    methods = complete.methods;
    refs = λ r.
        elim r
          as (λ k. IsUnique ref_key (relation (document_of builder complete.id controller) k)) [
            | MethodRelationship.authentication ↦ complete.refs MethodRelationship.authentication
            | MethodRelationship.assertion_method ↦
                complete.refs MethodRelationship.assertion_method
            | MethodRelationship.key_agreement ↦ complete.refs MethodRelationship.key_agreement
            | MethodRelationship.capability_delegation ↦
                complete.refs MethodRelationship.capability_delegation
            | MethodRelationship.capability_invocation ↦
                complete.refs MethodRelationship.capability_invocation
          ];
    services = complete.services;
  }

  -- A builder builds a document, one in which no set of methods, references or services has two
  -- entries of one key, exactly when an id was set and none of its lists has two entries of one key.
  pub from_builder_iff :
      (builder : DocumentBuilder D T U V P)
      → ((doc : CoreDocument D T U V P) × (from_builder builder ≡ ok doc) × HasUniqueKeys doc)
        ↔ IsComplete builder
  from_builder_iff builder = (
    λ h. built-IsComplete builder h.0 h.1,
    λ complete.
        let (controller, built) = complete_builds builder complete in
        (
          document_of builder complete.id controller,
          built,
          complete-HasUniqueKeys builder complete controller,
        ),
  )
