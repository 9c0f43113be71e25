-- ===== src/Iota/Differences/Tests.antt =====
-- A document adds a controller and an alias by a signed difference.
use mathlib.Core.Option
use native.Mathlib.Decide.{ℕ_discrete}
use identity_rs.Core.OneOrSet.{OneOrSet, one, into_vec}
use identity_rs.Core.OrderedSet.{contains}
use identity_rs.Core.OrderedSet.Laws.{IsUnique}
use identity_rs.Core.Proof.{ProofValue}
use identity_rs.Did.Document
use identity_rs.Did.Document.{CoreDocument, relation, resolve_method}
use identity_rs.Did.Method.{MethodRelationship, embed, ref_key}
use identity_rs.Did.Query
use identity_rs.Did.Query.{matches, did_str, end_pos, cut, fragment}
use identity_rs.Did.Samples.{as_str, empty, method, owner}
use identity_rs.Did.Signing.{method_uri, try_method, create_signature, sign, relative}
use identity_rs.Did.Signing.Verifies.{Corresponds, ok-injective}
use identity_rs.Did.Url
use identity_rs.Did.Url.{key_eq}
use identity_rs.Did.Verify.{suite_name}
use identity_rs.Diff.Documents.{document_diff}
use identity_rs.Chain.Index.{MessageId}
use identity_rs.Diff.Documents.Program.{Delta, IsSound, parts}
use identity_rs.Diff.Documents.Sameness.{document_same}
use identity_rs.Diff.Interface.{same_as_eq, Diff, IsLawful}
use identity_rs.Diff.Parsed.{parsed_diff, parsed_into_diff}
use identity_rs.Diff.Sameness.{IsRef, url_same, method_same, ref_same, service_same}
use identity_rs.Diff.Texts.{primitive, primitive-IsLawful, string_diff, string_into_diff}
use identity_rs.Iota.Metadata.{DiffIotaDocumentMetadata, metadata, metadata-IsLawful}
use identity_rs.Diff.Collections.{one_or_set_diff, ordered_set_diff}
use identity_rs.Diff.Vecs.{change, add, vec_diff, diff_loop, diff_step}
use identity_rs.Iota.Document.Signed.{some-injective}
use identity_rs.Diff.Samples.{
  by_structure, controller_eq, type_eq, data_eq, types_eq, parse_url, libs, libs-AreLawful,
}
use identity_rs.Iota.Differences.{
  DiffIotaDocument, DiffMessage, signable_diff, verifiable_diff, iota_diff, new_message,
  signed_diff, merge_diff,
}
use identity_rs.Iota.Differences.Laws.{merged_document, merge_diff-signed_diff}
use identity_rs.Iota.Document.{
  IotaDocument, IotaDocumentMetadata, Suite, capability_invocation, resolve_signing_method,
  new_metadata,
}
use identity_rs.Prelude.{
  ℕ, All, ◌≡◌, refl, sym, subst, Option, none, some, List, [], ◌∷◌, HasEq, ◌==◌, ltb, Outcome, ok,
  err, guard, Text, text, list_eq, nat_eq,
}

instance abbrev time_eq : HasEq (Option ℕ)
time_eq = by_structure (hlevel ℕ_discrete)

instance abbrev meta_eq : HasEq (IotaDocumentMetadata ℕ ℕ)
meta_eq = by_structure (hlevel ℕ_discrete)

abbrev print_id : MessageId → Text
print_id id = id ∷ []

abbrev parse_id : Text → Outcome ℕ MessageId
parse_id (id ∷ []) = ok id
parse_id _ = err 9

abbrev meta : Diff (IotaDocumentMetadata ℕ ℕ) (DiffIotaDocumentMetadata (Option ℕ) (Option ℕ))
meta = metadata (primitive 0) (primitive 0) 0 print_id parse_id

meta-IsLawful : IsLawful meta
meta-IsLawful =
    metadata-IsLawful (primitive 0) (primitive 0) 0 print_id parse_id (primitive-IsLawful 0)
      (primitive-IsLawful 0) (λ _. refl)

abbrev Doc : Type 0
Doc = IotaDocument Text ℕ ℕ ℕ ℕ ℕ ℕ

abbrev Change : Type 0
Change =
    DiffIotaDocument (Delta (Option ℕ) (Option ℕ) (Option ℕ) ℕ)
      (DiffIotaDocumentMetadata (Option ℕ) (Option ℕ))

abbrev old : Doc
old = record {
  document = record empty {
    controller = some (one owner);
    capability_invocation = embed (method (text "sign-0")) ∷ [];
  };
  metadata = new_metadata 10 0;
  proof = none;
}

abbrev next : Doc
next = record old {
  document = record old.document {
    controller = some (one (text "did:example:9"));
    also_known_as = text "https://example.org" ∷ [];
  };
}

abbrev value_matches : ℕ → ProofValue → List ℕ → Outcome ℕ (Unit {0})
value_matches body (ProofValue.signature value) key = guard (value == body ∷ key) 0
value_matches body ProofValue.none key = err 1
value_matches body (ProofValue.jws _) key = err 1
value_matches body (ProofValue.proof _) key = err 1

abbrev suite : Suite (DiffMessage Text Change ℕ) ℕ ℕ ℕ
suite = record {
  sign = λ this key. ok (this.previous_message_id ∷ key ∷ []);
  verify = λ this value key. value_matches this.previous_message_id value key;
  try_decode = λ _. ok (5 ∷ []);
  later = λ a b. ltb b a;
}

abbrev delta : Change
delta = record {
  document = some (record {
    id = none;
    controller = some (some (change 0 (some (text "did:example:9")) ∷ []));
    also_known_as = some (add (some (text "https://example.org")) ∷ []);
    verification_method = none;
    authentication = none;
    assertion_method = none;
    key_agreement = none;
    capability_delegation = none;
    capability_invocation = none;
    service = none;
    properties = none;
  });
  metadata = none;
}

abbrev signed : DiffMessage Text Change ℕ
signed = record {
  id = owner;
  diff = delta;
  previous_message_id = 77;
  proof = some (record {
    type_ = suite_name;
    value = ProofValue.signature (77 ∷ 5 ∷ []);
    method = text "#sign-0";
    created = none;
    expires = none;
    challenge = none;
    domain = none;
    purpose = none;
  });
  message_id = 0;
}

program : Unit {0}
unfolding Document.query_methods Document.query_refs Document.resolve_method_ref Document.first_ref
    Document.resolve_method_inner resolve_method cut end_pos did_str fragment matches
    Query.did_matches Query.query Url.get_fragment Url.did_url_to_string Url.to_string Url.key
    create_signature sign method_uri try_method resolve_signing_method contains ℕ_discrete
    document_diff iota_diff new_message signed_diff vec_diff diff_loop diff_step one_or_set_diff
    ordered_set_diff into_vec parsed_diff string_diff string_into_diff parsed_into_diff
program = tt

signs : signed_diff (parts libs) meta suite as_str old next 77 5 (text "#sign-0") ≡ ok signed
unfolding program
signs = refl

embeds :
    (r : MethodRelationship)
    → IsUnique ref_key (relation old.document r)
      × All (IsRef as_str parse_url) (relation old.document r)
unfolding program
embeds MethodRelationship.authentication = (tt, tt)
embeds MethodRelationship.assertion_method = (tt, tt)
embeds MethodRelationship.key_agreement = (tt, tt)
embeds MethodRelationship.capability_delegation = (tt, tt)
embeds MethodRelationship.capability_invocation = ((refl, tt), ((refl, refl), tt))

old-IsSound : IsSound libs old.document
old-IsSound = record {
  keys = record { methods = tt; refs = λ r. (embeds r).0; services = tt };
  aliases = tt;
  controller = tt;
  read_aliases = tt;
  methods = tt;
  refs = λ r. (embeds r).1;
  services = tt;
}

next-IsSound : IsSound libs next.document
unfolding program
next-IsSound = record {
  controller = tt;
  methods = tt;
  services = tt;
  keys = record { methods = tt; refs = λ r. (refs r).0; services = tt };
  aliases = (refl, tt);
  read_aliases = (refl, tt);
  refs = λ r. (refs r).1;
}
  where
    refs :
        (r : MethodRelationship)
        → IsUnique ref_key (relation next.document r)
          × All (IsRef as_str parse_url) (relation next.document r)
    refs MethodRelationship.authentication = (tt, tt)
    refs MethodRelationship.assertion_method = (tt, tt)
    refs MethodRelationship.key_agreement = (tt, tt)
    refs MethodRelationship.capability_delegation = (tt, tt)
    refs MethodRelationship.capability_invocation = ((refl, tt), ((refl, refl), tt))

value_checks :
    (body : ℕ) (value : Text)
    → ◌≡◌ {A = Outcome ℕ Text} (ok (body ∷ 5 ∷ [])) (ok value)
    → value_matches body (ProofValue.signature value) (5 ∷ []) ≡ ok tt
value_checks body value h =
    rw ((list_eq.beq_iff value (body ∷ 5 ∷ [])).1 (sym (ok-injective h))) refl

corresponds : Corresponds (signable_diff suite) (verifiable_diff suite) 5 (method (text "sign-0"))
corresponds = record {
  same_signature = λ this. refl;
  public_key = 5 ∷ [];
  decoded = refl;
  signed = λ this proof value h. value_checks this.previous_message_id value h;
}

leads_back :
    (uri : Text)
    → method_uri as_str relative (method (text "sign-0")) ≡ some uri
    → resolve_method as_str old.document uri (some capability_invocation)
      ≡ some (method (text "sign-0"))
unfolding program
leads_back uri named =
    subst
      (λ q.
        resolve_method as_str old.document q (some capability_invocation)
        ≡ some (method (text "sign-0")))
      (some-injective named) refl

merge_diff-signed_diff_example :
    (controller : Option (OneOrSet Text)) × (merge_diff (parts libs) meta suite as_str 20 old signed
      ≡ ok (merged_document next controller))
    × (Option.map into_vec controller ≡ some (text "did:example:9" ∷ []))
unfolding program
merge_diff-signed_diff_example =
    merge_diff-signed_diff libs meta libs-AreLawful meta-IsLawful suite as_str 20 old next 77 5
      (text "#sign-0") (method (text "sign-0")) signed old-IsSound next-IsSound refl leads_back
      corresponds signs
