-- ===== src/Did/Mapping/Tests.antt =====
-- `map` and `try_map` on a small document: every DID is marked, and the marks are removed.
use identity_rs.Core.OneOrSet.{set}
use identity_rs.Core.OrderedSet.{contains}
use identity_rs.Core.OrderedSet.Laws.{IsUnique}
use identity_rs.Did.Document.{CoreDocument, relation}
use identity_rs.Did.Editing.Keys.{HasUniqueKeys}
use identity_rs.Did.Method.{MethodRelationship, ref_key}
use identity_rs.Did.Mapping.{map_document, try_map_document}
use identity_rs.Did.Mapping.Roundtrip.{try_map_document-map_document}
use identity_rs.Did.Samples.{sample, owner}
use identity_rs.Did.Url.{key_eq}
use identity_rs.Prelude.{
  ◌≡◌, refl, ℕ, zero, suc, some, Text, text, [], ◌∷◌, Outcome, ok, err, list_eq, nat_eq,
}

abbrev marked : Text → Text
marked did = b'!' ∷ did

abbrev unmarked : Text → Outcome Text Text
unmarked [] = err []
unmarked (_ ∷ did) = ok did

abbrev before : ℕ → Outcome Text ℕ
before zero = err []
before (suc n) = ok n

abbrev controlled : CoreDocument Text ℕ ℕ ℕ ℕ
controlled = record sample { controller = some (set (owner ∷ text "did:example:9" ∷ [])) }

controlled-HasUniqueKeys : HasUniqueKeys controlled
unfolding contains
controlled-HasUniqueKeys = record { methods = (refl, tt); refs = λ r. refs r; services = tt }
  where
    refs : (r : MethodRelationship) → IsUnique ref_key (relation controlled r)
    refs MethodRelationship.authentication = (refl, tt)
    refs MethodRelationship.assertion_method = tt
    refs MethodRelationship.key_agreement = (refl, tt)
    refs MethodRelationship.capability_delegation = tt
    refs MethodRelationship.capability_invocation = tt

try_map_document-map_document_example :
    try_map_document unmarked before (map_document marked (λ n. suc n) controlled) ≡ ok controlled
unfolding contains
try_map_document-map_document_example =
    try_map_document-map_document marked unmarked (λ _. refl) (λ n. suc n) before (λ _. refl)
      controlled controlled-HasUniqueKeys (refl, (refl, tt))
