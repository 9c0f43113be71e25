-- ===== src/Iota/Tests.antt =====
-- Runs of the documents of the method: a first document and an update, signed with a number.
use identity_rs.Chain.Integration.{IntegrationChain, push_unchecked, current_message_id, try_push}
use identity_rs.Core.OrderedSet
use identity_rs.Core.OrderedSet.{try_append_all}
use identity_rs.Core.Proof.{Proof, ProofValue}
use identity_rs.Did.Builder
use identity_rs.Did.Builder.{
  BuilderError, new_document, set_document, from_builder, try_controller, try_field,
}
use identity_rs.Did.Builder.Builds.{IsComplete, from_builder_iff}
use identity_rs.Did.Document
use identity_rs.Did.Document.{CoreDocument, resolve_method}
use identity_rs.Did.Editing.Keys.{HasUniqueKeys}
use identity_rs.Did.Query
use identity_rs.Did.Query.{matches, did_str, end_pos, cut, fragment}
use identity_rs.Did.Samples.{as_str, method, owner}
use identity_rs.Did.Signing.{create_signature}
use identity_rs.Did.Signing.Verifies.{Corresponds}
use identity_rs.Did.Url
use identity_rs.Did.Url.{key_eq}
use identity_rs.Did.Verify.{verify_signature, do_verify, signing_method, verify_data, suite_name}
use identity_rs.Iota.Chains.{documents, published, try_push-sign_self}
use identity_rs.Iota.Document.{
  IotaDocument, Error, Suite, signable, verifiable, method_id, resolve_signing_method,
  from_verification_method, sign_self, verify_document, verify_root_document, tag_mismatch,
  previous_message_id_not_null, capability_invocation,
}
use identity_rs.Iota.Document.Root.{
  IsRoot, root_document, verify_root_document_iff, verify_root_document-sign_self,
}
use identity_rs.Iota.Document.Signed.{verify_document-sign_self}
use identity_rs.Prelude.{
  ℕ, ◌≡◌, ◌↔◌, refl, subst, none, some, List, [], ◌∷◌, ◌==◌, ltb, Outcome, ok, err, guard, Text,
  text, nat_eq, list_eq, arith,
}

abbrev Doc : Type 0
Doc = IotaDocument Text ℕ ℕ ℕ ℕ ℕ ℕ

abbrev value_matches : ℕ → ProofValue → List ℕ → Outcome ℕ (Unit {0})
value_matches body (ProofValue.signature value) key = guard (value == body ∷ key) 0
value_matches body ProofValue.none key = err 1
value_matches body (ProofValue.jws _) key = err 1
value_matches body (ProofValue.proof _) key = err 1

-- The signature is the previous message id and the key.
abbrev suite : Suite Doc ℕ ℕ ℕ
suite = record {
  sign = λ this key. ok (this.metadata.previous_message_id ∷ key ∷ []);
  verify = λ this value key. value_matches this.metadata.previous_message_id value key;
  try_decode = λ _. ok (5 ∷ []);
  later = λ a b. ltb b a;
}

abbrev tag : Text → Text
tag did = 5 ∷ []

abbrev encode_key : List ℕ → Text
encode_key key = key

abbrev root : Doc
root = root_document as_str suite 10 0 0 (method (text "sign-0"))

abbrev signed : Doc → Doc
signed doc = record doc {
  proof = some (record {
    type_ = suite_name;
    value = ProofValue.signature (doc.metadata.previous_message_id ∷ 5 ∷ []);
    method = text "#sign-0";
    created = none;
    expires = none;
    challenge = none;
    domain = none;
    purpose = none;
  });
}

abbrev update : Doc
update = record root { metadata = record root.metadata { previous_message_id = 77 } }

abbrev chain : IntegrationChain Doc
chain = record { history = none; current = published (signed root) 77 0 }

program : Unit {0}
unfolding Document.query_methods Document.query_refs Document.resolve_method_ref Document.first_ref
    Document.resolve_method_inner resolve_method cut end_pos did_str fragment matches
    Query.did_matches Query.query Url.get_fragment Url.did_url_to_string create_signature
    verify_signature do_verify signing_method verify_data method_id resolve_signing_method
    from_verification_method sign_self verify_document verify_root_document from_builder
    set_document new_document try_controller try_field try_append_all OrderedSet.append
    OrderedSet.contains current_message_id
program = tt

runs :
    (sign_self as_str suite root 5 (text "#sign-0") ≡ ok (signed root))
    × (verify_root_document as_str suite 20 tag encode_key (signed root) ≡ ok tt)
    × (verify_root_document as_str suite 20 (λ _. 6 ∷ []) encode_key (signed root)
        ≡ err tag_mismatch)
    × (verify_root_document as_str suite 20 tag encode_key update
        ≡ err previous_message_id_not_null)
unfolding program
runs = (refl, refl, refl, refl)

value_checks :
    (body : ℕ) (value : Text)
    → ◌≡◌ {A = Outcome ℕ Text} (ok (body ∷ 5 ∷ [])) (ok value)
    → value_matches body (ProofValue.signature value) (5 ∷ []) ≡ ok tt
value_checks body value h =
    let same : value ≡ body ∷ 5 ∷ [] = ground arith in
    rw ((list_eq.beq_iff value (body ∷ 5 ∷ [])).1 same) refl

corresponds : Corresponds (signable suite) (verifiable suite) 5 (method (text "sign-0"))
corresponds = record {
  same_signature = λ this. refl;
  public_key = 5 ∷ [];
  decoded = refl;
  signed = λ this proof value h. value_checks this.metadata.previous_message_id value h;
}

ok-injective : {E A : Type 0} {a b : A} → ◌≡◌ {A = Outcome E A} (ok a) (ok b) → a ≡ b
ok-injective h = ground arith

leads_back :
    (uri : Text)
    → ◌≡◌ {A = Outcome (Error ℕ) Text} (method_id as_str owner (method (text "sign-0"))) (ok uri)
    → resolve_method as_str root.document uri (some capability_invocation)
      ≡ some (method (text "sign-0"))
unfolding program
leads_back uri named =
    subst
      (λ q.
        resolve_method as_str root.document q (some capability_invocation)
        ≡ some (method (text "sign-0")))
      (ok-injective named) refl

verify_document-sign_self_example :
    (verify_document as_str suite 20 (signed root) (signed update) ≡ ok tt)
    × ((proof : Proof ℕ) × ◌≡◌ {A = Outcome (Error ℕ) Text}
          (method_id as_str owner (method (text "sign-0")))
          (ok proof.method)
        × (signed update ≡ record update { proof = some proof }))
unfolding program
verify_document-sign_self_example =
    verify_document-sign_self as_str suite 20 update (signed root) (signed update) 5
      (text "#sign-0") (method (text "sign-0")) refl leads_back corresponds refl

verify_root_document_iff_example :
    (verify_root_document as_str suite 20 tag encode_key (signed root) ≡ ok tt)
    ↔ IsRoot as_str suite 20 tag encode_key (signed root)
verify_root_document_iff_example =
    verify_root_document_iff as_str suite 20 tag encode_key (signed root)

verify_root_document-sign_self_example :
    verify_root_document as_str suite 20 tag encode_key (signed root) ≡ ok tt
unfolding program corresponds
verify_root_document-sign_self_example =
    verify_root_document-sign_self as_str suite 10 20 0 0 (method (text "sign-0")) 5 b's'
      (text "ign-0") root (signed root) tag encode_key corresponds refl
      (refl, (refl, (refl, (refl, (refl, (refl, tt)))))) refl refl refl

try_push-sign_self_example :
    try_push (documents as_str suite 20 tag encode_key) chain (published (signed update) 78 0)
    ≡ (push_unchecked chain (published (signed update) 78 0), ok tt)
unfolding program
try_push-sign_self_example =
    try_push-sign_self as_str suite 20 tag encode_key chain update (signed update) 78 0 5
      (text "#sign-0") (method (text "sign-0")) refl refl (λ h. ground (arith, h))
      (λ h. ground (arith, h)) refl leads_back corresponds refl

abbrev builder : Builder.DocumentBuilder Text ℕ ℕ ℕ ℕ
builder = record {
  id = some owner;
  controller = [];
  also_known_as = [];
  verification_method = method (text "k1") ∷ [];
  authentication = [];
  assertion_method = [];
  key_agreement = [];
  capability_delegation = [];
  capability_invocation = [];
  service = [];
  properties = 0;
}

from_builder_iff_example :
    ((doc : CoreDocument Text ℕ ℕ ℕ ℕ) × ◌≡◌ {A = Outcome BuilderError (CoreDocument Text ℕ ℕ ℕ ℕ)}
        (from_builder builder)
        (ok doc)
      × HasUniqueKeys doc)
    ↔ IsComplete builder
from_builder_iff_example = from_builder_iff builder
