-- ===== src/Iota/Did.antt =====
-- identity_iota_core/src: did/segments.rs, did/iota_did.rs and tangle/network.rs. What `CoreDID` offers
-- is the interface of Stardust/Did; the decoding of base58 is an argument. A panic is an error of its
-- own. The texts are ASCII where the source measures them in bytes.
pub mod Segments
pub mod Normal
mod Tests
use identity_rs.Prelude.{
  ℕ, ◌+◌, ◌≡◌, Bool, true, false, not, ◌&&◌, ◌||◌, Option, some, none, List, [], ◌∷◌, ◌++◌, HasEq,
  ◌==◌, nat_eq, list_eq, if◌then◌else◌, leb, ltb, nat_beq, length, take, drop, all, get_last?,
  Outcome, ok, err, ◌>>=◌, guard, map_err, Text, text, find_char, rfind_char,
}
use identity_rs.Stardust.Did.{CoreDid, set_method_id}

pub data Error : Type 0 where
  invalid_method_name invalid_method_id invalid_network_name panic : Error

abbrev pub method_name : Text
method_name = text "iota"

abbrev pub default_network : Text
default_network = text "main"

abbrev with_head : ℕ → List Text → List Text
with_head ch [] = (ch ∷ []) ∷ []
with_head ch (word ∷ words) = (ch ∷ word) ∷ words

-- `str::split`
abbrev pub split : ℕ → Text → List Text
split c [] = [] ∷ []
split c (ch ∷ s) = let rest = split c s in if nat_beq ch c then [] ∷ rest else with_head ch rest

-- `Segments`
unfoldable pub count : Text → ℕ
count segments = length (split b':' segments)

-- the text up to the first colon, and the text behind the last one
unfoldable pub head_of : Text → Outcome Error Text
head_of segments = elim (find_char b':' segments) [
  | none ↦ err panic
  | some i ↦ ok (take i segments)
]

unfoldable pub tail_of : Text → Outcome Error Text
tail_of segments = elim (rfind_char b':' segments) [
  | none ↦ err panic
  | some i ↦ ok (drop (i + 1) segments)
]

unfoldable pub is_default_network : Text → Outcome Error Bool
is_default_network segments =
    if nat_beq (count segments) 1
    then ok true
    else if nat_beq (count segments) 2
    then (head_of segments >>= λ network. ok (network == default_network))
    else err panic

unfoldable pub network : Text → Outcome Error Text
network segments =
    if nat_beq (count segments) 1
    then ok default_network
    else if nat_beq (count segments) 2
    then head_of segments
    else err panic

unfoldable pub tag : Text → Outcome Error Text
tag segments =
    if nat_beq (count segments) 1
    then ok segments
    else if nat_beq (count segments) 2
    then tail_of segments
    else err panic

abbrev is_lower_or_digit : ℕ → Bool
is_lower_or_digit ch = (leb b'a' ch && leb ch b'z') || (leb b'0' ch && leb ch b'9')

-- `NetworkName::MAX_LENGTH`
abbrev pub max_length : ℕ
max_length = 6

unfoldable pub validate_network_name : Text → Outcome Error (Unit {0})
validate_network_name name =
    if nat_beq (length name) 0
    then err invalid_network_name
    else if ltb max_length (length name)
    then err invalid_network_name
    else if not (all is_lower_or_digit name)
    then err invalid_network_name
    else ok tt

pub data Network : Type 0 where
  mainnet devnet : Network
  other : Text → Network

unfoldable pub try_from_name : Text → Outcome Error Network
try_from_name name =
    if name == default_network
    then ok mainnet
    else if name == text "dev"
    then ok devnet
    else (validate_network_name name >>= λ _. ok (other name))

unfoldable pub name_str : Network → Text
name_str mainnet = default_network
name_str devnet = text "dev"
name_str (other name) = name

module _ {E : Type 0} (decode_base58 : Text → Outcome E (List ℕ)) where
  -- the check of the last segment
  unfoldable pub check_tag : Text → Outcome Error (Unit {0})
  check_tag mid = do
    bytes ← map_err (λ _. invalid_method_id) (decode_base58 mid)
    guard (nat_beq (length bytes) 32) invalid_method_id

  unfoldable pub check_segments : List Text → Outcome Error (Unit {0})
  check_segments segments =
      if nat_beq (length segments) 0 || ltb 2 (length segments)
      then err invalid_method_id
      else (elim (get_last? segments) [ none ↦ err panic | some mid ↦ check_tag mid ])

module _ {D : Type 0} (core : CoreDid D) where
  unfoldable pub check_method : D → Outcome Error (Unit {0})
  check_method did = guard (core.method did == method_name) invalid_method_name

  unfoldable pub check_network : D → Outcome Error (Unit {0})
  check_network did = network (core.method_id did) >>= λ name. validate_network_name name

  abbrev pub without_network : D → Outcome Error D
  without_network did = tag (core.method_id did) >>= λ method_id.
      map_err (λ _. panic) (set_method_id core did method_id)

  unfoldable pub normalize : D → Outcome Error D
  normalize did =
      if nat_beq (count (core.method_id did)) 2
      then (network (core.method_id did) >>= λ name.
          if name == default_network then without_network did else ok did)
      else ok did

  -- `IotaDID::network` and `Network::matches_did`
  unfoldable pub network_of : D → Outcome Error Network
  network_of did = network (core.method_id did) >>= try_from_name

  unfoldable pub matches_did : Network → D → Outcome Error Bool
  matches_did this did = network (core.method_id did) >>= λ name. ok (name == name_str this)

  module _ {E : Type 0} (decode_base58 : Text → Outcome E (List ℕ)) where
    unfoldable pub check_method_id : D → Outcome Error (Unit {0})
    check_method_id did = check_segments decode_base58 (split b':' (core.method_id did))

    unfoldable pub check_validity : D → Outcome Error (Unit {0})
    check_validity did = check_method did >>= λ _. check_method_id did >>= λ _. check_network did

    unfoldable pub try_from_core : D → Outcome Error D
    try_from_core did = check_validity did >>= λ _. normalize did

    -- The parse of a DID of any method is the core library's, and so is the digest of a key.
    module _ (core_parse : Text → Outcome Error D) (encode_key : List ℕ → Text) where
      unfoldable pub parse : Text → Outcome Error D
      parse input = core_parse input >>= try_from_core

      -- `IotaDID::new`, and the macro `try_construct_did`
      unfoldable pub new : List ℕ → Outcome Error D
      new public = parse (text "did:iota:" ++ encode_key public)

      unfoldable pub new_with_network : List ℕ → Text → Outcome Error D
      new_with_network public name = do
        _ ← validate_network_name name
        parse (text "did:iota:" ++ name ++ b':' ∷ encode_key public)
