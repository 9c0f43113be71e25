-- ===== src/Did/Samples.antt =====
-- A small document for the tests: a general method `#k1`, referred to for authentication, and a
-- method `#k2` that is embedded for key agreement. DIDs are their texts.
use identity_rs.Did.Document.{CoreDocument}
use identity_rs.Did.Method.{
  VerificationMethod, embed, refer, ed25519_verification_key_2018, public_key_multibase,
}
use identity_rs.Did.Url.{DidUrl}
use identity_rs.Prelude.{ℕ, none, some, [], ◌∷◌, Text, text}

abbrev pub owner : Text
owner = text "did:example:123"

abbrev pub url : Text → DidUrl Text
url fragment = record {
  did = owner;
  url = record { path = none; query = none; fragment = some (b'#' ∷ fragment) };
}

abbrev pub method : Text → VerificationMethod Text ℕ
method fragment = record {
  id = url fragment;
  controller = owner;
  type_ = ed25519_verification_key_2018;
  content = public_key_multibase (text "z6Mk");
  properties = 0;
}

abbrev pub empty : CoreDocument Text ℕ ℕ ℕ ℕ
empty = record {
  id = owner;
  controller = none;
  also_known_as = [];
  verification_method = [];
  authentication = [];
  assertion_method = [];
  key_agreement = [];
  capability_delegation = [];
  capability_invocation = [];
  service = [];
  properties = 0;
}

abbrev pub sample : CoreDocument Text ℕ ℕ ℕ ℕ
sample = record empty {
  verification_method = method (text "k1") ∷ [];
  authentication = refer (url (text "k1")) ∷ [];
  key_agreement = embed (method (text "k2")) ∷ [];
}

abbrev pub as_str : Text → Text
as_str did = did
