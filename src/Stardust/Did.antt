-- ===== src/Stardust/Did.antt =====
-- identity_stardust/src/did/stardust_did.rs and network/network_name.rs: when a DID is one of the
-- method, and its form without the default network. The texts are ASCII where the source measures
-- them in bytes.
pub mod Normal
use identity_rs.Did.Url.{is_char_method_id}
use identity_rs.Prelude.{
  ℕ, suc, ◌≡◌, Bool, not, ◌&&◌, ◌||◌, some, none, [], ◌∷◌, ◌==◌, nat_eq, list_eq, if◌then◌else◌,
  leb, nat_beq, length, take, drop, all, Outcome, ok, err, ◌>>=◌, Text, text, find_char,
}

-- What `CoreDID` offers; its text is held and cut by the `did_url` crate.
pub record CoreDid (D : Type 0) : Type 0 where
  pub method : D → Text
  pub method_id : D → Text
  pub put_method_id : D → Text → D
  pub put_keeps_method : (did : D) (value : Text) → method (put_method_id did value) ≡ method did
  pub put_writes : (did : D) (value : Text) → method_id (put_method_id did value) ≡ value

-- The last one stands for the panic of `expect`.
pub data DidError : Type 0 where
  invalid_method_name invalid_method_id invalid_network_name normalize_panic : DidError

abbrev pub method_name : Text
method_name = text "stardust"

abbrev pub default_network : Text
default_network = text "main"

abbrev is_lower_or_digit : ℕ → Bool
is_lower_or_digit ch = (leb b'a' ch && leb ch b'z') || (leb b'0' ch && leb ch b'9')

-- the error names the network
unfoldable pub validate_network_name : Text → Outcome Text (Unit {0})
validate_network_name name =
    if not (nat_beq (length name) 0) && (leb (length name) 6 && all is_lower_or_digit name)
    then ok tt
    else err name

-- `foo:bar` is `foo` and `bar`; a text without a colon is a tag on the default network.
unfoldable pub denormalized_components : Text → Text × Text
denormalized_components input = elim (find_char b':' input) [
  | some idx ↦ (take idx input, drop 1 (drop idx input))
  | none ↦ (default_network, input)
]

module _ {D : Type 0} (core : CoreDid D) where
  unfoldable pub network_str : D → Text
  network_str did = (denormalized_components (core.method_id did)).0

  unfoldable pub tag : D → Text
  tag did = (denormalized_components (core.method_id did)).1

  -- `CoreDID::set_method_id`
  unfoldable pub set_method_id : D → Text → Outcome DidError D
  set_method_id did value =
      if all is_char_method_id value
      then ok (core.put_method_id did value)
      else err invalid_method_id

  unfoldable pub normalize : D → Outcome DidError D
  normalize did =
      let (network, tag) = denormalized_components (core.method_id did) in
      if nat_beq (length tag) (length (core.method_id did)) || not (network == default_network)
      then ok did
      else elim (set_method_id did tag) [ ok did' ↦ ok did' | err _ ↦ err normalize_panic ]

  unfoldable pub check_method : D → Outcome DidError (Unit {0})
  check_method did = if core.method did == method_name then ok tt else err invalid_method_name

  unfoldable pub check_network : D → Outcome DidError (Unit {0})
  check_network did = elim (validate_network_name (network_str did)) [
    | ok _ ↦ ok tt
    | err _ ↦ err invalid_network_name
  ]

  -- whether `prefix_hex::decode` reads the text as 32 bytes
  module _ (decodes : Text → Bool) where
    unfoldable pub check_tag : D → Outcome DidError (Unit {0})
    check_tag did = if decodes (tag did) then ok tt else err invalid_method_id

    unfoldable pub check_validity : D → Outcome DidError (Unit {0})
    check_validity did = check_method did >>= λ _. check_tag did >>= λ _. check_network did

    unfoldable pub try_from_core : D → Outcome DidError D
    try_from_core did = check_validity did >>= λ _. normalize did
