-- ===== src/Stardust/PackingTests.antt =====
-- Runs of the packing. A DID of the method is a number, its core DID the next one, and zero is the
-- placeholder. The JSON is that of the documents with one controller and empty sets: the two DIDs.
use identity_rs.Core.OneOrSet.{OneOrSet, one, set, map_items}
use identity_rs.Core.OrderedSet.{append_all}
use identity_rs.Core.OrderedSet.Laws.{IsUnique}
use identity_rs.Did.Document.{relation}
use identity_rs.Did.Editing.Keys.{HasUniqueKeys}
use identity_rs.Did.Mapping.{map_document, map_controller}
use identity_rs.Did.Method.{MethodRelationship, VerificationMethod, MethodRef, ref_key}
use identity_rs.Did.Service.{Service}
use identity_rs.Did.Url.{key_eq}
use identity_rs.Stardust.Did.{DidError, invalid_method_name}
use identity_rs.Stardust.Metadata.{
  DidConversion, WithMetadata, json, v1, did_marker, add_flags_to_message, to_placeholder,
  from_document, pack_with_encoding, unpack, unpack_document, missing_marker, unsupported_encoding,
  unsupported_version_number, invalid_document, version_try_from, encoding_try_from,
}
use identity_rs.Stardust.Metadata.Packing.{unpack_iff, unpack_document-pack_with_encoding}
use identity_rs.Prelude.{
  ℕ, zero, suc, ◌≡◌, ◌↔◌, refl, sym, some, none, Option, List, [], ◌∷◌, ◌++◌, Text, Outcome, ok,
  err, nat_eq, list_eq, arith, text, Bool, true, false, ◌&&◌, if◌then◌else◌, ◌==◌,
}

abbrev back : ℕ → Outcome DidError ℕ
back zero = err invalid_method_name
back (suc did) = ok did

suc_differs : (did : ℕ) → ((suc did ∷ []) == (0 ∷ [])) ≡ false
suc_differs did = ground arith

abbrev shifted : DidConversion ℕ ℕ
shifted = record {
  as_str = λ did. did ∷ [];
  placeholder = 0;
  into_core = λ did. suc did;
  try_from_core = back;
  again = λ _. refl;
  differs = suc_differs;
}

abbrev Small : Type 0
Small = WithMetadata ℕ ℕ ℕ ℕ ℕ ℕ

abbrev plain :
    ℕ
    → ℕ
    → ℕ
    → Option (OneOrSet ℕ)
    → List Text
    → List (VerificationMethod ℕ ℕ)
    → (auth assertion agreement delegation invocation : List (MethodRef ℕ ℕ)) → List (Service ℕ ℕ ℕ)
    → Small
plain m t id controller a b c d e f g h = record {
  document = record {
    id = id;
    controller = controller;
    also_known_as = a;
    verification_method = b;
    authentication = c;
    assertion_method = d;
    key_agreement = e;
    capability_delegation = f;
    capability_invocation = g;
    service = h;
    properties = t;
  };
  metadata = m;
}

abbrev is_nil : {A : Type 0} → List A → Bool
is_nil [] = true
is_nil (_ ∷ _) = false

abbrev single : Option (OneOrSet ℕ) → Option ℕ
single (some (one did)) = some did
single _ = none

abbrev to_json : Small → Outcome Text (List ℕ)
to_json doc = elim (single doc.document.controller) [
  | none ↦ err []
  | some did ↦
      if (is_nil doc.document.also_known_as
        && (is_nil doc.document.verification_method
            && (is_nil doc.document.authentication
                && (is_nil doc.document.assertion_method
                    && (is_nil doc.document.key_agreement
                        && (is_nil doc.document.capability_delegation
                            && (is_nil doc.document.capability_invocation
                                && is_nil doc.document.service)))))))
      then ok (doc.metadata ∷ doc.document.properties ∷ doc.document.id ∷ did ∷ [])
      else err []
]

abbrev from_json : List ℕ → Outcome Text Small
from_json (m ∷ t ∷ id ∷ did ∷ []) = ok (plain m t id (some (one did)) [] [] [] [] [] [] [] [])
from_json _ = err []

plain_again :
    (m t id : ℕ) (controller : Option (OneOrSet ℕ)) (a : List Text)
    (b : List (VerificationMethod ℕ ℕ)) (c d e f g : List (MethodRef ℕ ℕ))
    (h : List (Service ℕ ℕ ℕ)) (bytes : List ℕ)
    → to_json (plain m t id controller a b c d e f g h) ≡ ok bytes
    → from_json bytes ≡ ok (plain m t id controller a b c d e f g h)
plain_again m t id none a b c d e f g h bytes eq = absurd (ground arith)
plain_again m t id (some (set dids)) a b c d e f g h bytes eq = absurd (ground arith)
plain_again m t id (some (one did)) (_ ∷ _) b c d e f g h bytes eq = absurd (ground arith)
plain_again m t id (some (one did)) [] (_ ∷ _) c d e f g h bytes eq = absurd (ground arith)
plain_again m t id (some (one did)) [] [] (_ ∷ _) d e f g h bytes eq = absurd (ground arith)
plain_again m t id (some (one did)) [] [] [] (_ ∷ _) e f g h bytes eq = absurd (ground arith)
plain_again m t id (some (one did)) [] [] [] [] (_ ∷ _) f g h bytes eq = absurd (ground arith)
plain_again m t id (some (one did)) [] [] [] [] [] (_ ∷ _) g h bytes eq = absurd (ground arith)
plain_again m t id (some (one did)) [] [] [] [] [] [] (_ ∷ _) h bytes eq = absurd (ground arith)
plain_again m t id (some (one did)) [] [] [] [] [] [] [] (_ ∷ _) bytes eq = absurd (ground arith)
plain_again m t id (some (one did)) [] [] [] [] [] [] [] [] bytes eq =
    let same : (m ∷ t ∷ id ∷ did ∷ []) ≡ bytes = ground arith in rw (sym same) refl

json_again : (doc : Small) (bytes : List ℕ) → to_json doc ≡ ok bytes → from_json bytes ≡ ok doc
json_again doc =
    plain_again doc.metadata doc.document.properties doc.document.id doc.document.controller
      doc.document.also_known_as doc.document.verification_method doc.document.authentication
      doc.document.assertion_method doc.document.key_agreement doc.document.capability_delegation
      doc.document.capability_invocation doc.document.service

-- DID 7 with the controller 9
abbrev own : Small
own = plain 1 2 7 (some (one 9)) [] [] [] [] [] [] [] []

own-HasUniqueKeys : HasUniqueKeys own.document
own-HasUniqueKeys = record {
  methods = tt;
  refs = λ r. elim r as (λ r. IsUnique ref_key (relation own.document r)) [
    | MethodRelationship.authentication ↦ tt
    | MethodRelationship.assertion_method ↦ tt
    | MethodRelationship.key_agreement ↦ tt
    | MethodRelationship.capability_delegation ↦ tt
    | MethodRelationship.capability_invocation ↦ tt
  ];
  services = tt;
}

refused :
    (unpack from_json (text "DI") ≡ err (invalid_document 3))
    × (unpack from_json (text "DIX") ≡ err missing_marker)
    × (unpack from_json (text "DID") ≡ err (invalid_document 4))
    × (unpack from_json (text "DID" ++ 2 ∷ []) ≡ err unsupported_version_number)
    × (unpack from_json (text "DID" ++ 1 ∷ []) ≡ err (invalid_document 5))
    × (unpack from_json (text "DID" ++ 1 ∷ 1 ∷ []) ≡ err unsupported_encoding)
unfolding unpack version_try_from encoding_try_from
refused = (refl, refl, refl, refl, refl, refl)

unpack_iff_example : (unpack from_json (did_marker ++ 1 ∷ 0 ∷ 1 ∷ 2 ∷ 7 ∷ 9 ∷ []) ≡ ok own) ↔ (
    (inner : List ℕ) × ((did_marker ++ 1 ∷ 0 ∷ 1 ∷ 2 ∷ 7 ∷ 9 ∷ [] ≡ did_marker ++ 1 ∷ 0 ∷ inner)
      × (from_json inner ≡ ok own)))
unpack_iff_example = unpack_iff from_json (did_marker ++ 1 ∷ 0 ∷ 1 ∷ 2 ∷ 7 ∷ 9 ∷ []) own

unpack_document-pack_with_encoding_example :
    (pack_with_encoding shifted to_json own json
      ≡ ok (add_flags_to_message (1 ∷ 2 ∷ 0 ∷ 10 ∷ []) v1 json))
    × (unpack_document shifted from_json 7 (add_flags_to_message (1 ∷ 2 ∷ 0 ∷ 10 ∷ []) v1 json)
        ≡ ok own)
unfolding from_document to_placeholder map_document map_controller map_items append_all
unpack_document-pack_with_encoding_example =
    unpack_document-pack_with_encoding shifted to_json from_json json_again own
      (1 ∷ 2 ∷ 0 ∷ 10 ∷ []) own-HasUniqueKeys tt refl
