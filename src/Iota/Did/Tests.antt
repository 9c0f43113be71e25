-- ===== src/Iota/Did/Tests.antt =====
-- A DID of the main network in its long form. DIDs are pairs of a method and a method id.
use identity_rs.Did.Url.{is_char_method_id}
use identity_rs.Iota.Did.{
  count, head_of, tail_of, network, tag, validate_network_name, check_method, check_network,
  check_tag, check_segments, check_method_id, check_validity, method_name, try_from_core,
}
use identity_rs.Iota.Did.Normal.{IsNormal, try_from_core-IsNormal}
use identity_rs.Stardust.Did.{CoreDid}
use identity_rs.Prelude.{ℕ, ◌≡◌, refl, List, ◌++◌, ok, Outcome, Text, text, nat_eq, list_eq}

abbrev core : CoreDid (Text × Text)
core = record {
  method = λ did. did.0;
  method_id = λ did. did.1;
  put_method_id = λ did value. (did.0, value);
  put_keeps_method = λ did value. refl;
  put_writes = λ did value. refl;
}

abbrev decode_base58 : Text → Outcome ℕ (List ℕ)
decode_base58 mid = ok mid

abbrev hash : Text
hash = text "abcdefghijklmnopabcdefghijklmnop"

abbrev long_form : Text × Text
long_form = (method_name, text "main:" ++ hash)

try_from_core-IsNormal_example :
    (did' : Text × Text) × (try_from_core core decode_base58 long_form ≡ ok did')
    × (name : Text) × (id : Text) × (network long_form.1 ≡ ok name)
    × (tag long_form.1 ≡ ok id)
    × IsNormal core decode_base58 did' name id
unfolding is_char_method_id count head_of tail_of network tag validate_network_name check_method
    check_network check_tag check_segments check_method_id check_validity
try_from_core-IsNormal_example = try_from_core-IsNormal core decode_base58 long_form refl refl
