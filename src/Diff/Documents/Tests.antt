-- ===== src/Diff/Documents/Tests.antt =====
-- The differences of two small documents.
use mathlib.Core.Option
use identity_rs.Core.OneOrSet.{OneOrSet, one, into_vec}
use identity_rs.Did.Document.{CoreDocument, relation}
use identity_rs.Did.Method.{MethodRelationship, ref_key}
use identity_rs.Core.OrderedSet.Laws.{IsUnique}
use identity_rs.Did.Samples.{as_str, owner, empty, sample}
use identity_rs.Did.Url
use identity_rs.Did.Url.{key_eq}
use identity_rs.Core.OrderedSet.{contains}
use identity_rs.Diff.Documents.{
  document_diff, document_merge, document_into_diff, document_from_diff,
}
use identity_rs.Diff.Documents.Whole.{document_from_diff-into_diff}
use identity_rs.Diff.Documents.Laws.{document_merge-diff}
use identity_rs.Diff.Documents.Program.{Delta, IsSound, parts}
use identity_rs.Diff.Sameness.{IsRef, url_same, method_same, ref_same, service_same}
use identity_rs.Diff.Interface.{same_as_eq}
use identity_rs.Diff.Samples.{
  controller_eq, type_eq, data_eq, types_eq, parse_url, libs, libs-AreLawful,
}
use identity_rs.Prelude.{
  ℕ, All, ◌≡◌, refl, Option, none, some, [], ◌∷◌, ok, Text, text, list_eq, nat_eq,
}

abbrev controlled : CoreDocument Text ℕ ℕ ℕ ℕ
controlled = record sample {
  controller = some (one owner);
  also_known_as = text "https://example.org" ∷ [];
}

program : Unit {0}
unfolding contains Url.key Url.get_fragment Url.did_url_to_string Url.to_string into_vec
program = tt

empty-IsSound : IsSound libs empty
unfolding program
empty-IsSound = record {
  keys = record { methods = tt; refs = λ r. (keys r).0; services = tt };
  aliases = tt;
  controller = tt;
  read_aliases = tt;
  methods = tt;
  refs = λ r. (keys r).1;
  services = tt;
}
  where
    keys :
        (r : MethodRelationship)
        → IsUnique ref_key (relation empty r) × All (IsRef as_str parse_url) (relation empty r)
    keys MethodRelationship.authentication = (tt, tt)
    keys MethodRelationship.assertion_method = (tt, tt)
    keys MethodRelationship.key_agreement = (tt, tt)
    keys MethodRelationship.capability_delegation = (tt, tt)
    keys MethodRelationship.capability_invocation = (tt, tt)

controlled-IsSound : IsSound libs controlled
unfolding program
controlled-IsSound = record {
  keys = record { methods = (refl, tt); refs = λ r. (keys r).0; services = tt };
  aliases = (refl, tt);
  controller = tt;
  read_aliases = (refl, tt);
  methods = ((refl, refl), tt);
  refs = λ r. (keys r).1;
  services = tt;
}
  where
    keys :
        (r : MethodRelationship)
        → IsUnique ref_key (relation controlled r)
          × All (IsRef as_str parse_url) (relation controlled r)
    keys MethodRelationship.authentication = ((refl, tt), ((refl, refl), tt))
    keys MethodRelationship.assertion_method = (tt, tt)
    keys MethodRelationship.key_agreement = ((refl, tt), ((refl, refl), tt))
    keys MethodRelationship.capability_delegation = (tt, tt)
    keys MethodRelationship.capability_invocation = (tt, tt)

document_merge-diff_example :
    (delta : Delta (Option ℕ) (Option ℕ) (Option ℕ) ℕ) × (document_diff
        (parts libs)
        empty
        controlled
      ≡ ok delta)
    × (controller : Option (OneOrSet Text)) × (document_merge (parts libs) empty delta
        ≡ ok (record controlled { controller = controller }))
    × (Option.map into_vec controller ≡ none)
document_merge-diff_example =
    document_merge-diff libs libs-AreLawful empty controlled empty-IsSound controlled-IsSound

document_from_diff-into_diff_example :
    (delta : Delta (Option ℕ) (Option ℕ) (Option ℕ) ℕ) × (document_into_diff
        (parts libs)
        0
        controlled
      ≡ ok delta)
    × (controller : Option (OneOrSet Text)) × (document_from_diff (parts libs) 0 delta
        ≡ ok (record controlled { controller = controller }))
    × (Option.map into_vec controller ≡ some (owner ∷ []))
unfolding program
document_from_diff-into_diff_example =
    document_from_diff-into_diff libs libs-AreLawful 0 controlled controlled-IsSound
