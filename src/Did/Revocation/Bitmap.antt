-- ===== src/Did/Revocation/Bitmap.antt =====
-- identity_did/src/revocation/bitmap.rs, with identity_did/src/service/service_endpoint.rs: the
-- revocation bitmap, and its form as a data URL.
use identity_rs.Core.OrderedSet.{OrderedSet}
use identity_rs.Prelude.{
  ℕ, ◌≡◌, refl, Bool, true, false, not, ◌&&◌, ◌||◌, Option, some, List, ◌==◌, nat_beq, nat_eq,
  list_eq, Outcome, ok, err, ◌>>=◌, ok_or, map_err, map_err-ok, guard, bind_parts, subst, Text,
  text, arith,
}

-- the operations of `RoaringBitmap` that are called: a set of numbers
pub record Bitmaps (B : Type 0) : Type 0 where
  pub empty : B
  pub contains : B → ℕ → Bool
  pub insert : B → ℕ → B × Bool
  pub remove : B → ℕ → B × Bool
  pub contains-empty : (index : ℕ) → contains empty index ≡ false
  pub contains-insert :
      (bitmap : B) (index other : ℕ)
      → contains (insert bitmap index).0 other ≡ (nat_beq index other || contains bitmap other)
  pub contains-remove :
      (bitmap : B) (index other : ℕ)
      → contains (remove bitmap index).0 other
        ≡ (not (nat_beq index other) && contains bitmap other)

pub record DataUrl : Type 0 where
  pub media_type : Text
  pub is_base64_encoded : Bool
  pub content : List ℕ

-- The codecs of the libraries: bitmaps, zlib, base64, UTF-8, data URLs and URLs. Each reads what it
-- has written.
pub record Codec (B E : Type 0) : Type 0 where
  pub serialize_into : B → Outcome E (List ℕ)
  pub deserialize_from : List ℕ → Outcome E B
  pub compress_zlib : List ℕ → Outcome E (List ℕ)
  pub decompress_zlib : List ℕ → Outcome E (List ℕ)
  pub encode : List ℕ → Text
  pub decode : Text → Outcome E (List ℕ)
  pub as_bytes : Text → List ℕ
  pub from_utf8 : List ℕ → Option Text
  pub print_data_url : DataUrl → Text
  pub parse_data_url : Text → Option DataUrl
  pub parse_url : Text → Outcome E Text
  pub deserialize_again :
      (bitmap : B) (bytes : List ℕ)
      → serialize_into bitmap ≡ ok bytes
      → deserialize_from bytes ≡ ok bitmap
  pub decompress_again :
      (bytes small : List ℕ) → compress_zlib bytes ≡ ok small → decompress_zlib small ≡ ok bytes
  pub decode_again : (bytes : List ℕ) → decode (encode bytes) ≡ ok bytes
  pub utf8_again : (s : Text) → from_utf8 (as_bytes s) ≡ some s
  pub parse_again :
      (url : DataUrl) (s : Text)
      → parse_url (print_data_url url) ≡ ok s
      → parse_data_url s ≡ some url

pub data ServiceEndpoint : Type 0 where
  one : Text → ServiceEndpoint
  set : OrderedSet Text → ServiceEndpoint
  map : List (Text × OrderedSet Text) → ServiceEndpoint

pub data Error (E : Type 0) : Type 0 where
  service_not_found wrong_type not_a_data_url wrong_media_type : Error E
  invalid_utf8 not_a_single_url : Error E
  library_error : E → Error E

abbrev pub bitmap_type : Text
bitmap_type = text "RevocationBitmap2022"

abbrev pub data_url_media_type : Text
data_url_media_type = text "application/octet-stream"

module _ {B : Type 0} (bitmaps : Bitmaps B) where
  unfoldable pub is_revoked : B → ℕ → Bool
  is_revoked bitmap index = bitmaps.contains bitmap index

  unfoldable pub revoke : B → ℕ → B × Bool
  revoke bitmap index = bitmaps.insert bitmap index

  unfoldable pub unrevoke : B → ℕ → B × Bool
  unrevoke bitmap index = bitmaps.remove bitmap index

module _ {B E : Type 0} (codec : Codec B E) where
  unfoldable pub serialize_compressed_base64 : B → Outcome E Text
  serialize_compressed_base64 bitmap = do
    serialized ← codec.serialize_into bitmap
    small ← codec.compress_zlib serialized
    ok (codec.encode small)

  unfoldable pub deserialize_compressed_base64 : Text → Outcome E B
  deserialize_compressed_base64 s = do
    decoded ← codec.decode s
    decompressed ← codec.decompress_zlib decoded
    codec.deserialize_from decompressed

  unfoldable pub to_endpoint : B → Outcome (Error E) ServiceEndpoint
  to_endpoint bitmap = do
    content ← map_err library_error (serialize_compressed_base64 bitmap)
    url ← map_err library_error (
        codec.parse_url (
          codec.print_data_url (record {
            media_type = data_url_media_type;
            is_base64_encoded = true;
            content = codec.as_bytes content;
          })))
    ok (one url)

  unfoldable pub from_endpoint : ServiceEndpoint → Outcome (Error E) B
  from_endpoint (one url) = do
    data_url ← ok_or (codec.parse_data_url url) not_a_data_url
    _ ←
        guard (data_url.is_base64_encoded && data_url.media_type == data_url_media_type)
          wrong_media_type
    content ← ok_or (codec.from_utf8 data_url.content) invalid_utf8
    map_err library_error (deserialize_compressed_base64 content)
  from_endpoint (set _) = err not_a_single_url
  from_endpoint (map _) = err not_a_single_url

  serialized_again :
      (bitmap : B) (s : Text)
      → serialize_compressed_base64 bitmap ≡ ok s
      → deserialize_compressed_base64 s ≡ ok bitmap
  unfolding serialize_compressed_base64 deserialize_compressed_base64
  serialized_again bitmap s h =
      let (bytes, serialized, h) = bind_parts (codec.serialize_into bitmap) _ h in
      let (small, compressed, h) = bind_parts (codec.compress_zlib bytes) _ h in
      let s' : codec.encode small ≡ s = ground arith in
      subst (λ t. deserialize_compressed_base64 t ≡ ok bitmap) s'
        (rw
          (
            deserialize_compressed_base64,
            codec.decode_again small,
            codec.decompress_again bytes small compressed,
          )
          (codec.deserialize_again bitmap bytes serialized))

  -- What is written into an endpoint is read back.
  pub from_endpoint-to_endpoint :
      (bitmap : B) (endpoint : ServiceEndpoint)
      → to_endpoint bitmap ≡ ok endpoint
      → from_endpoint endpoint ≡ ok bitmap
  unfolding to_endpoint from_endpoint
  from_endpoint-to_endpoint bitmap endpoint h =
      let (content, written, h) =
        bind_parts (map_err library_error (serialize_compressed_base64 bitmap)) _ h in
      let (url, parsed, h) = bind_parts (map_err library_error _) _ h in
      let endpoint' : one url ≡ endpoint = ground arith in
      subst (λ e. from_endpoint e ≡ ok bitmap) endpoint'
        (rw
          (
            codec.parse_again _ url (map_err-ok _ _ parsed),
            codec.utf8_again content,
            serialized_again bitmap content (map_err-ok _ _ written),
          )
          refl)
