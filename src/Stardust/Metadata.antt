-- ===== src/Stardust/Metadata.antt =====
-- identity_stardust/src/state_metadata (document.rs, encoding.rs, version.rs) and the packing of
-- document/stardust_document.rs: a document as the bytes of an alias output's state metadata. JSON
-- and the conversion of DIDs are arguments; a byte is a number.
pub mod Packing
use identity_rs.Did.Document.{CoreDocument}
use identity_rs.Did.Mapping.{map_document, try_map_document}
use identity_rs.Stardust.Did.{DidError}
use identity_rs.Prelude.{
  ℕ, ◌≡◌, Bool, true, false, not, Option, some, none, List, [], ◌∷◌, ◌++◌, HasEq, ◌==◌, nat_eq,
  list_eq, if◌then◌else◌, leb, nat_beq, length, get_elem?, take, drop, ok_or, map_err, Outcome, ok,
  err, ◌>>=◌, Text, text,
}

-- The DIDs of the method and the core DIDs. No DID of the method is written like the placeholder,
-- and the core DID of one converts back to it.
pub record DidConversion (S D : Type 0) : Type 0 where
  pub as_str : D → Text
  pub placeholder : D
  pub into_core : S → D
  pub try_from_core : D → Outcome DidError S
  pub again : (did : S) → try_from_core (into_core did) ≡ ok did
  pub differs : (did : S) → (as_str (into_core did) == as_str placeholder) ≡ false

-- The number is the length that the message asks for; `J` is the error of JSON.
pub data Error (J : Type 0) : Type 0 where
  invalid_document : ℕ → Error J
  missing_marker unsupported_version_number unsupported_version unsupported_encoding : Error J
  serialization_error : J → Error J
  did_syntax_error : DidError → Error J

pub data StateMetadataEncoding : Type 0 where
  json : StateMetadataEncoding

pub data StateMetadataVersion : Type 0 where
  v1 : StateMetadataVersion

abbrev pub current_version : StateMetadataVersion
current_version = v1

abbrev pub is_v1 : StateMetadataVersion → Bool
is_v1 v1 = true

abbrev pub version_byte : StateMetadataVersion → ℕ
version_byte v1 = 1

abbrev pub encoding_byte : StateMetadataEncoding → ℕ
encoding_byte json = 0

abbrev pub did_marker : List ℕ
did_marker = text "DID"

module _ {J : Type 0} where
  unfoldable pub version_try_from : ℕ → Outcome (Error J) StateMetadataVersion
  version_try_from value = if nat_beq value 1 then ok v1 else err unsupported_version_number

  unfoldable pub encoding_try_from : ℕ → Outcome (Error J) StateMetadataEncoding
  encoding_try_from value = if nat_beq value 0 then ok json else err unsupported_encoding

unfoldable pub add_flags_to_message : List ℕ → StateMetadataVersion → StateMetadataEncoding → List ℕ
add_flags_to_message bytes version encoding =
    did_marker ++ (version_byte version ∷ encoding_byte encoding ∷ []) ++ bytes

-- `data.get(0..n)` and `data.get(n..)`
abbrev pub get_to : ℕ → List ℕ → Option (List ℕ)
get_to n bytes = if leb n (length bytes) then some (take n bytes) else none

abbrev pub get_from : ℕ → List ℕ → Option (List ℕ)
get_from n bytes = if leb n (length bytes) then some (drop n bytes) else none

-- Both `StateMetadataDocument` and `StardustDocument`: a document with its metadata.
pub record WithMetadata (D M T U V P : Type 0) : Type 0 where
  pub document : CoreDocument D T U V P
  pub metadata : M

module _ {S D : Type 0} ⦃s_eq : HasEq S⦄ (did : DidConversion S D) where
  unfoldable pub to_placeholder : S → S → D
  to_placeholder id one = if one == id then did.placeholder else did.into_core one

  unfoldable pub from_placeholder : S → D → Outcome DidError S
  from_placeholder original_did one =
      if did.as_str one == did.as_str did.placeholder
      then ok original_did
      else did.try_from_core one

module _ {S D M T U V P : Type 0} ⦃s_eq : HasEq S⦄ ⦃d_eq : HasEq D⦄ (did : DidConversion S D) where
  -- `From<StardustDocument> for StateMetadataDocument`
  unfoldable pub from_document : WithMetadata S M T U V P → WithMetadata D M T U V P
  from_document doc = record {
    document = map_document (to_placeholder did doc.document.id) (λ o. o) doc.document;
    metadata = doc.metadata;
  }

  module _ {J : Type 0} where
    unfoldable pub into_stardust_document :
        WithMetadata D M T U V P → S → Outcome (Error J) (WithMetadata S M T U V P)
    into_stardust_document doc original_did =
        map_err did_syntax_error
          (try_map_document (from_placeholder did original_did) (λ o. ok o) doc.document)
        >>= λ core. ok (record { document = core; metadata = doc.metadata })

module _ {D M T U V P J : Type 0}
    (to_json_vec : WithMetadata D M T U V P → Outcome J (List ℕ)) where
  unfoldable pub pack :
      WithMetadata D M T U V P → StateMetadataEncoding → Outcome (Error J) (List ℕ)
  pack doc json = map_err serialization_error (to_json_vec doc) >>= λ bytes.
      ok (add_flags_to_message bytes current_version json)

module _ {D M T U V P J : Type 0}
    (from_json_slice : List ℕ → Outcome J (WithMetadata D M T U V P)) where
  unfoldable pub unpack : List ℕ → Outcome (Error J) (WithMetadata D M T U V P)
  unpack bytes = ok_or (get_to 3 bytes) (invalid_document 3) >>= λ marker.
      if not (marker == did_marker)
      then err missing_marker
      else (ok_or (get_elem? bytes 3) (invalid_document 4) >>= version_try_from >>= λ version.
          if not (is_v1 version)
          then err unsupported_version
          else (ok_or (get_elem? bytes 4) (invalid_document 5) >>= encoding_try_from >>= λ encoding.
              ok_or (get_from 5 bytes) (invalid_document 6) >>= λ inner. elim encoding [
                | json ↦ map_err serialization_error (from_json_slice inner)
              ]))

-- `StardustDocument::pack_with_encoding` and `StardustDocument::unpack`
module _ {S D M T U V P J : Type 0} ⦃s_eq : HasEq S⦄ ⦃d_eq : HasEq D⦄
    (did : DidConversion S D) where
  unfoldable pub pack_with_encoding :
      (WithMetadata D M T U V P → Outcome J (List ℕ))
      → WithMetadata S M T U V P
      → StateMetadataEncoding
      → Outcome (Error J) (List ℕ)
  pack_with_encoding to_json_vec doc encoding = pack to_json_vec (from_document did doc) encoding

  unfoldable pub unpack_document :
      (List ℕ → Outcome J (WithMetadata D M T U V P))
      → S
      → List ℕ
      → Outcome (Error J) (WithMetadata S M T U V P)
  unpack_document from_json_slice id state_metadata =
      unpack from_json_slice state_metadata >>= λ doc. into_stardust_document did doc id
