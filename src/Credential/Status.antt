-- ===== src/Credential/Status.antt =====
-- identity_credential/src/credential/revocation_bitmap_status.rs: the status of a credential by an
-- index into a revocation bitmap. `u32` is read and written by the standard library.
pub mod Decimal
use identity_rs.Credential.Data.{
  Value, Object, Status, StatusError, string, other, unexpected_type, missing_index, invalid_url,
  index_not_u32, index_not_string,
}
use identity_rs.Credential.Status.Decimal.{
  u32_mod, from_str, to_string, from_str-to_string, from_str-lt,
}
use identity_rs.Prelude.{
  ℕ, ◌<◌, ◌≡◌, refl, subst, arith, Option-cases, inl, inr, Bool, true, false, Option, none, some,
  List, [], ◌∷◌, ◌==◌, if◌then◌else◌, nat_eq, list_eq, Outcome, ok, err, ok_or, Text, text,
}

abbrev pub index_property_name : Text
index_property_name = text "revocationBitmapIndex"

abbrev pub type_name : Text
type_name = text "RevocationBitmap2022"

abbrev pub is_some : {A : Type 0} → Option A → Bool
is_some none = false
is_some (some _) = true

module _ {O : Type 0} where
  -- `Object::get`
  unfoldable pub get_property : Text → Object O → Option (Value O)
  get_property key [] = none
  get_property key ((name, value) ∷ properties) =
      if name == key then some value else get_property key properties

  -- the URL is the text of a DID URL
  unfoldable pub new_status : Text → ℕ → Status O
  new_status id index = record {
    id = id;
    type_ = type_name;
    properties = (index_property_name, string (to_string index)) ∷ [];
  }

  unfoldable pub try_from_status : Status O → Outcome StatusError (Status O)
  try_from_status status =
      if status.type_ == type_name
      then (if is_some (get_property index_property_name status.properties)
          then ok status
          else err missing_index)
      else err unexpected_type

  abbrev pub index_value : Option (Value O) → Outcome StatusError ℕ
  index_value (some (string s)) = ok_or (from_str s) index_not_u32
  index_value (some (other _)) = err index_not_string
  index_value none = err index_not_string

  index_value-lt : (value : Option (Value O)) (j : ℕ) → index_value value ≡ ok j → j < u32_mod
  index_value-lt none j e = cc
  index_value-lt (some (other _)) j e = cc
  index_value-lt (some (string s)) j e = elim (Option-cases (from_str s)) [
    | inl bad ↦ absurd (ground arith)
    | inr (n, read) ↦
        let same : n ≡ j = ground arith in subst (λ k. k < u32_mod) same (from_str-lt s n read)
  ]

  unfoldable pub index : Status O → Outcome StatusError ℕ
  index status = index_value (get_property index_property_name status.properties)

  -- the parse of a DID URL is a library's
  unfoldable pub status_url : (Text → Option Text) → Status O → Outcome StatusError Text
  status_url parse_url status = ok_or (parse_url status.id) invalid_url

  -- A status that is made for an index below 2^32 is accepted as a revocation bitmap status and gives
  -- that index back; and whatever index a status gives is below 2^32.
  pub index-new_status :
      (id : Text) (i : ℕ) (status : Status O)
      → i < u32_mod
      → (try_from_status (new_status id i) ≡ ok (new_status id i))
        × (index (new_status id i) ≡ ok i)
        × ((j : ℕ) → index status ≡ ok j → j < u32_mod)
  unfolding try_from_status new_status index get_property
  index-new_status id i status h = (
    refl,
    rw (from_str-to_string i h) refl,
    λ j e. index_value-lt (get_property index_property_name status.properties) j e,
  )
