-- ===== src/Stardust/Tests.antt =====
-- Runs of the stardust DIDs and documents. The DID is its method and its method id.
use identity_rs.Did.Url.{is_char_method_id}
use identity_rs.Stardust.Did.{
  CoreDid, invalid_method_id, invalid_method_name, invalid_network_name, method_name,
  denormalized_components, network_str, tag, set_method_id, normalize, check_method, check_network,
  check_tag, check_validity, try_from_core, validate_network_name,
}
use identity_rs.Stardust.Did.Normal.{IsNormalOf, try_from_core-IsNormalOf}
use identity_rs.Prelude.{
  ◌≡◌, refl, Bool, true, [], ◌∷◌, Text, text, ok, err, nat_beq, all, Lacks, ◌&&◌, ◌||◌, ◌++◌, leb,
  length, starts_with, arith, ℕ, list_eq, nat_eq,
}

abbrev pair : CoreDid (Text × Text)
pair = record {
  method = λ did. did.0;
  method_id = λ did. did.1;
  put_method_id = λ did value. (did.0, value);
  put_keeps_method = λ did value. refl;
  put_writes = λ did value. refl;
}

-- `0x` and 64 hexadecimal digits
abbrev is_tag_char : ℕ → Bool
is_tag_char c = (leb b'0' c && leb c b'9') || (leb b'a' c && leb c b'f') || nat_beq c b'x'

abbrev decodes : Text → Bool
decodes s = starts_with (text "0x") s && (nat_beq (length s) 66 && all is_tag_char s)

all-Lacks : (s : Text) → all is_tag_char s ≡ true → Lacks b':' s
all-Lacks [] h = tt
all-Lacks (c ∷ s) h = (ground arith, all-Lacks s (ground arith))

decodes-Lacks : (s : Text) → decodes s ≡ true → Lacks b':' s
decodes-Lacks s h = all-Lacks s (ground arith)

abbrev tag_text : Text
tag_text = text "0x8036235b6b5939435a45d68bcea7890eef399209a669c8c263fac7f5089b2ec6"

-- identity_stardust/src/did/stardust_did.rs and network_name.rs: its tests
converted :
    (try_from_core pair decodes (method_name, text "main:" ++ tag_text)
      ≡ ok (method_name, tag_text))
    × (try_from_core pair decodes (method_name, text "dev:" ++ tag_text)
        ≡ ok (method_name, text "dev:" ++ tag_text))
    × (try_from_core pair decodes (text "iota", tag_text) ≡ err invalid_method_name)
    × (try_from_core pair decodes (method_name, text "dev:0x12") ≡ err invalid_method_id)
    × (try_from_core pair decodes (method_name, text "foobar0:" ++ tag_text)
        ≡ err invalid_network_name)
unfolding denormalized_components network_str tag set_method_id normalize check_method check_network
    check_tag check_validity try_from_core validate_network_name is_char_method_id
converted = (refl, refl, refl, refl, refl)

try_from_core-IsNormalOf_example :
    (did' : Text × Text) × ((try_from_core pair decodes (method_name, text "main:" ++ tag_text)
        ≡ ok did')
      × IsNormalOf pair decodes decodes-Lacks (method_name, text "main:" ++ tag_text) did')
unfolding denormalized_components network_str tag check_method check_network check_tag
    check_validity validate_network_name is_char_method_id
try_from_core-IsNormalOf_example =
    try_from_core-IsNormalOf pair decodes decodes-Lacks (method_name, text "main:" ++ tag_text) refl
      refl
