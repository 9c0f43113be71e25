-- ===== src/Iota/Document/Root.antt =====
-- The first document of a DID: made for a method, and signed with it.
use identity_rs.Chain.Index.{null}
use identity_rs.Core.Proof.{Proof}
use identity_rs.Core.OrderedSet.{try_append_all, append, contains}
use identity_rs.Did.Builder
use identity_rs.Did.Builder.{
  BuilderError, new_document, set_document, from_builder, try_controller, try_field,
}
use identity_rs.Did.Document.{
  CoreDocument, resolve_method, resolve_method_inner, resolve_method_ref, first_ref, query_refs,
}
use identity_rs.Did.Method.{VerificationMethod, embed}
use identity_rs.Did.Query.{query, matches, did_str, did_matches, fragment}
use identity_rs.Did.Signing.Verifies.{Corresponds}
use identity_rs.Did.Url.{DidUrl, get_fragment}
use identity_rs.Iota.Document.{
  IotaDocument, Error, invalid_document, Suite, is_signing_method_type, capability_invocation,
  new_metadata, signable, verifiable, method_id, from_verification_method, sign_self,
  verify_document, verify_root_document,
}
use identity_rs.Iota.Document.Signed.{verify_document-sign_self}
use identity_rs.Prelude.{
  ℕ, ◌≡◌, ◌↔◌, refl, sym, ◌∙◌, subst, true, none, some, List, [], ◌∷◌, HasEq, nat_eq, list_eq,
  Outcome, ok, ◌>>=◌, guard, map_err, guard_iff, check_iff, iff_trans, iff_and, iff_after,
  ok_or_bind_iff, map_err_bind_iff, bind_parts, Text, Lacks, rfind_char-Lacks, arith,
}

ok-injective : {E A : Type 0} {a b : A} → ◌≡◌ {A = Outcome E A} (ok a) (ok b) → a ≡ b
ok-injective h = ground arith

fragment_itself :
    (ch : ℕ) (rest : Text) → Lacks b'#' (ch ∷ rest) → fragment (b'#' ∷ ch ∷ rest) ≡ some (ch ∷ rest)
unfolding fragment
fragment_itself ch rest lacks = ground (arith, rfind_char-Lacks b'#' (ch ∷ rest) lacks)

-- a fragment by itself, as a query
matches_fragment :
    {D : Type 0} (as_str : D → Text) (id : DidUrl D) (ch : ℕ) (rest : Text)
    → get_fragment id.url ≡ some (ch ∷ rest)
    → Lacks b'#' (ch ∷ rest)
    → matches as_str (b'#' ∷ ch ∷ rest) id ≡ true
unfolding matches did_matches did_str
matches_fragment as_str id ch rest has lacks =
    let same = (list_eq.beq_iff (ch ∷ rest) (ch ∷ rest)).1 refl in
    rw (has, fragment_itself ch rest lacks, same) refl

module _ {D T U V P : Type 0} where
  -- the document of the builder: a method for capability invocation, and nothing else
  abbrev pub root_of : T → VerificationMethod D U → CoreDocument D T U V P
  root_of properties method = record {
    id = method.id.did;
    controller = none;
    also_known_as = [];
    verification_method = [];
    authentication = [];
    assertion_method = [];
    key_agreement = [];
    capability_delegation = [];
    capability_invocation = embed method ∷ [];
    service = [];
    properties = properties;
  }

module _ {D T U V P : Type 0} ⦃e : HasEq D⦄ where
  root_built :
      (properties : T) (method : VerificationMethod D U)
      → ◌≡◌ {A = Outcome BuilderError (CoreDocument D T U V P)}
          (from_builder (
            set_document
              (Builder.capability_invocation (embed method))
              (set_document (Builder.id method.id.did) (new_document properties))))
          (ok (root_of properties method))
  unfolding from_builder set_document new_document try_controller try_field try_append_all append
      contains
  root_built properties method = refl

module _ {D T U : Type 0} (V P : Type 0) (as_str : D → Text) where
  root_resolves :
      (properties : T) (method : VerificationMethod D U) (q : Text)
      → matches as_str q method.id ≡ true
      → (resolve_method as_str
            (root_of {V = V} {P = P} properties method)
            q
            (some capability_invocation)
          ≡ some method)
        × (resolve_method as_str (root_of {V = V} {P = P} properties method) q none ≡ some method)
  unfolding resolve_method resolve_method_inner resolve_method_ref first_ref query_refs query
      matches did_matches did_str
  root_resolves properties method q found = (rw found refl, rw found refl)

module _ {D T U V P Time O K E : Type 0} ⦃e : HasEq D⦄ (as_str : D → Text)
    (suite : Suite (IotaDocument D T U V P Time O) K Time E) where
  -- the unsigned document
  abbrev pub root_document : Time → T → O → VerificationMethod D U → IotaDocument D T U V P Time O
  root_document now properties meta method = record {
    document = root_of properties method;
    metadata = new_metadata now meta;
    proof = none;
  }

  root_made :
      (now : Time) (properties : T) (meta : O) (method : VerificationMethod D U)
      (doc : IotaDocument D T U V P Time O)
      → ◌≡◌ {A = Outcome (Error E) (IotaDocument D T U V P Time O)}
          (from_verification_method now properties meta method)
          (ok doc)
      → root_document now properties meta method ≡ doc
  unfolding from_verification_method
  root_made now properties meta method doc h =
      let (_, _, h) = bind_parts (guard (is_signing_method_type method.type_) _) _ h in
      let built = root_built {V = V} {P = P} properties method in
      ok-injective (
        subst
          (λ r.
            ◌≡◌ {A = Outcome (Error E) (IotaDocument D T U V P Time O)}
              (map_err invalid_document r >>= λ document.
                ok (record { document = document; metadata = new_metadata now meta; proof = none }))
              (ok doc))
          built h)

  own_method_id :
      (method : VerificationMethod D U) (fragment : Text)
      → get_fragment method.id.url ≡ some fragment
      → ◌≡◌ {A = Outcome (Error E) Text}
          (method_id as_str method.id.did method)
          (ok (b'#' ∷ fragment))
  unfolding method_id
  own_method_id method fragment has = rw (has, (e.beq_iff method.id.did method.id.did).1 refl) refl

  pub record IsRoot (now : Time) (tag : D → Text) (encode_key : List ℕ → Text)
      (doc : IotaDocument D T U V P Time O) : Type 0 where
    pub first : doc.metadata.previous_message_id ≡ null
    pub proof : Proof Time
    pub signed : doc.proof ≡ some proof
    pub method : VerificationMethod D U
    pub found : resolve_method as_str doc.document proof.method none ≡ some method
    pub public_key : List ℕ
    pub decoded : suite.try_decode method.content ≡ ok public_key
    pub tagged : tag doc.document.id ≡ encode_key public_key
    pub verified : verify_document as_str suite now doc doc ≡ ok tt

  -- A document is a valid root document exactly when it has no previous message, carries a proof whose
  -- method it has, the tag of its DID is the digest of the method's public key, and it accepts itself
  -- as an update.
  pub verify_root_document_iff :
      (now : Time) (tag : D → Text) (encode_key : List ℕ → Text)
      (doc : IotaDocument D T U V P Time O)
      → (verify_root_document as_str suite now tag encode_key doc ≡ ok tt)
        ↔ IsRoot now tag encode_key doc
  unfolding verify_root_document
  verify_root_document_iff now tag encode_key doc =
      iff_trans
        (iff_trans (check_iff _ _) (
          iff_and (iff_trans (guard_iff _ _) (nat_eq.beq_iff doc.metadata.previous_message_id null))
            (iff_trans (ok_or_bind_iff _ _ _ tt) (
              iff_after (λ proof. iff_trans (ok_or_bind_iff _ _ _ tt) (
                iff_after (λ method. iff_trans (map_err_bind_iff _ _ _ tt) (
                  iff_after (λ public_key. iff_trans (check_iff _ _) (
                    iff_and
                      (iff_trans (guard_iff _ _)
                        (list_eq.beq_iff (tag doc.document.id) (encode_key public_key)))
                      (λ v. v, λ v. v)))))))))))
        (
          λ h. record {
            first = h.0;
            proof = h.1.0;
            signed = h.1.1;
            method = h.1.2.0;
            found = h.1.2.1;
            public_key = h.1.2.2.0;
            decoded = h.1.2.2.1;
            tagged = h.1.2.2.2.0;
            verified = h.1.2.2.2.1;
          },
          λ r. (
            r.first,
            (
              r.proof,
              r.signed,
              (r.method, r.found, (r.public_key, r.decoded, (r.tagged, r.verified))),
            ),
          ),
        )

  -- A document that is made for an Ed25519 method, and then signed with this method by its fragment,
  -- is a valid root document of its DID, at every time: if the tag of the DID is the digest of the
  -- method's public key, and the private key belongs to the method.
  pub verify_root_document-sign_self :
      (made now : Time) (properties : T) (meta : O) (method : VerificationMethod D U) (private : K)
      (ch : ℕ) (rest : Text) (doc signed : IotaDocument D T U V P Time O) (tag : D → Text)
      (encode_key : List ℕ → Text)
      (c : Corresponds (signable suite) (verifiable suite) private method)
      → get_fragment method.id.url ≡ some (ch ∷ rest)
      → Lacks b'#' (ch ∷ rest)
      → tag method.id.did ≡ encode_key c.public_key
      → ◌≡◌ {A = Outcome (Error E) (IotaDocument D T U V P Time O)}
          (from_verification_method made properties meta method)
          (ok doc)
      → sign_self as_str suite doc private (b'#' ∷ ch ∷ rest) ≡ ok signed
      → verify_root_document as_str suite now tag encode_key signed ≡ ok tt
  verify_root_document-sign_self made now properties meta method private ch rest doc signed tag
        encode_key c has lacks tagged from h =
      let root = root_document made properties meta method in
      let uri = b'#' ∷ ch ∷ rest in
      let h' : sign_self as_str suite root private uri ≡ ok signed =
        subst (λ d. sign_self as_str suite d private uri ≡ ok signed)
          (sym (root_made made properties meta method doc from)) h in
      let (scoped, resolved) =
        root_resolves V P as_str properties method uri
          (matches_fragment as_str method.id ch rest has lacks) in
      let named = own_method_id method (ch ∷ rest) has in
      let is_uri : (u : Text)
          → ◌≡◌ {A = Outcome (Error E) Text} (method_id as_str method.id.did method) (ok u)
          → uri ≡ u =
        λ u e. ok-injective (sym named ∙ e) in
      let back : (u : Text)
          → ◌≡◌ {A = Outcome (Error E) Text} (method_id as_str method.id.did method) (ok u)
          → resolve_method as_str root.document u (some capability_invocation) ≡ some method =
        λ u e.
          subst
            (λ v. resolve_method as_str root.document v (some capability_invocation) ≡ some method)
            (is_uri u e) scoped in
      let (_, (proof, by, result)) =
        verify_document-sign_self as_str suite now root root signed private uri method scoped back c
          h' in
      let (verified, _) =
        verify_document-sign_self as_str suite now root (record root { proof = some proof }) signed
          private uri method scoped back c h' in
      subst (λ d. verify_root_document as_str suite now tag encode_key d ≡ ok tt) (sym result)
        ((verify_root_document_iff now tag encode_key (record root { proof = some proof })).1
          (record {
            first = refl;
            proof = proof;
            signed = refl;
            method = method;
            found =
                subst (λ v. resolve_method as_str root.document v none ≡ some method)
                  (is_uri proof.method by) resolved;
            public_key = c.public_key;
            decoded = c.decoded;
            tagged = tagged;
            verified =
                subst
                  (λ d.
                    verify_document as_str suite now (record root { proof = some proof }) d ≡ ok tt)
                  result verified;
          }))
