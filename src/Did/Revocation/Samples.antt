-- ===== src/Did/Revocation/Samples.antt =====
-- Libraries and a document for the tests of the revocation: a bitmap is the list of its indices, and
-- the codecs write texts as they are.
use identity_rs.Core.OneOrSet
use identity_rs.Did.Document.{CoreDocument}
use identity_rs.Did.Revocation.Bitmap.{
  Bitmaps, Codec, DataUrl, ServiceEndpoint, bitmap_type, data_url_media_type,
}
use identity_rs.Did.Samples.{owner, url, method}
use identity_rs.Did.Service.{Service}
use identity_rs.Prelude.{
  ℕ, ◌≡◌, refl, ap, sym, subst, ◌∙◌, Bool, true, false, not, ◌&&◌, ◌||◌, Option, none, some, List,
  [], ◌∷◌, ◌++◌, length, take, drop, any, filter, nat_beq, nat_eq, Outcome, ok, Text, text, arith,
  Bool-cases, inl, inr, if◌then◌else◌,
}

abbrev pub inserted : List ℕ → ℕ → List ℕ × Bool
inserted bitmap index = (index ∷ bitmap, true)

abbrev pub removed : List ℕ → ℕ → List ℕ × Bool
removed bitmap index = (filter (λ i. not (nat_beq index i)) bitmap, true)

abbrev pub holds : List ℕ → ℕ → Bool
holds bitmap index = any (λ i. nat_beq i index) bitmap

same_number : (m n : ℕ) → nat_beq m n ≡ true → m ≡ n
same_number m n h = (nat_eq.beq_iff m n).0 h

absorbed : (b h : Bool) → (not b && h) ≡ (not b && (b || h))
absorbed true h = refl
absorbed false h = refl

kept : (b b' h : Bool) → (b ≡ true → b' ≡ true → ⊥) → (b' || (not b && h)) ≡ (not b && (b' || h))
kept true true h apart = absurd (apart refl refl)
kept true false h apart = refl
kept false b' h apart = refl

pub holds-removed :
    (bitmap : List ℕ) (index other : ℕ)
    → holds (removed bitmap index).0 other ≡ (not (nat_beq index other) && holds bitmap other)
holds-removed [] index other = ground arith
holds-removed (i ∷ bitmap) index other = elim (Bool-cases (nat_beq index i)) [
  | inl e ↦
      rw (e, holds-removed bitmap index other, sym (same_number index i e))
        (absorbed (nat_beq index other) (holds bitmap other))
  | inr e ↦
      rw (e, holds-removed bitmap index other)
        (kept (nat_beq index other) (nat_beq i other) (holds bitmap other) (λ a b. ground (
          arith,
          e,
          (nat_eq.beq_iff index i).1 ((same_number index other a) ∙ sym (same_number i other b)),
        )))
]

abbrev pub printed : DataUrl → Text
printed url =
    length url.media_type ∷ (if url.is_base64_encoded then 1 else 0) ∷ url.media_type ++ url.content

abbrev pub parsed : Text → Option DataUrl
parsed [] = none
parsed (_ ∷ []) = none
parsed (n ∷ flag ∷ s) =
    some (record { media_type = take n s; is_base64_encoded = nat_beq flag 1; content = drop n s })

take-append : (xs ys : Text) → take (length xs) (xs ++ ys) ≡ xs
take-append [] ys = refl
take-append (x ∷ xs) ys = ap (◌∷◌ x) (take-append xs ys)

drop-append : (xs ys : Text) → drop (length xs) (xs ++ ys) ≡ ys
drop-append [] ys = refl
drop-append (x ∷ xs) ys = drop-append xs ys

flag-lem : (b : Bool) → nat_beq (if b then 1 else 0) 1 ≡ b
flag-lem true = refl
flag-lem false = refl

pub parsed-printed :
    (url : DataUrl) (s : Text)
    → ◌≡◌ {A = Outcome ℕ Text} (ok (printed url)) (ok s)
    → parsed s ≡ some url
parsed-printed url s h =
    let same : printed url ≡ s = ground arith in
    subst (λ t. parsed t ≡ some url) same
      (rw
        (
          take-append url.media_type url.content,
          drop-append url.media_type url.content,
          flag-lem url.is_base64_encoded,
        )
        refl)

pub ok-injective : {E A : Type 0} {a b : A} → ◌≡◌ {A = Outcome E A} (ok a) (ok b) → b ≡ a
ok-injective h = ground arith

abbrev pub bitmaps : Bitmaps (List ℕ)
bitmaps = record {
  empty = [];
  contains = holds;
  insert = inserted;
  remove = removed;
  contains-empty = λ index. refl;
  contains-insert = λ bitmap index other. refl;
  contains-remove = holds-removed;
}

abbrev pub codec : Codec (List ℕ) ℕ
codec = record {
  serialize_into = ok;
  deserialize_from = ok;
  compress_zlib = ok;
  decompress_zlib = ok;
  encode = λ bytes. bytes;
  decode = ok;
  as_bytes = λ s. s;
  from_utf8 = some;
  print_data_url = printed;
  parse_data_url = parsed;
  parse_url = ok;
  deserialize_again = λ bitmap bytes h. ap ok (ok-injective h);
  decompress_again = λ bytes small h. ap ok (ok-injective h);
  decode_again = λ bytes. refl;
  utf8_again = λ s. refl;
  parse_again = parsed-printed;
}

-- the endpoint of the data URL of a bitmap, as the codec of this file writes it
abbrev pub endpoint : List ℕ → ServiceEndpoint
endpoint bitmap = ServiceEndpoint.one (
    printed
      (record { media_type = data_url_media_type; is_base64_encoded = true; content = bitmap }))

abbrev pub service : Service Text ℕ ServiceEndpoint
service = record {
  id = url (text "revocation");
  type_ = OneOrSet.one bitmap_type;
  service_endpoint = endpoint (7 ∷ []);
  properties = 0;
}

-- a document with a method and a service, which holds the revoked index 7
abbrev pub issuer_document : CoreDocument Text ℕ ℕ ℕ ServiceEndpoint
issuer_document = record {
  id = owner;
  controller = none;
  also_known_as = [];
  verification_method = method (text "k1") ∷ [];
  authentication = [];
  assertion_method = [];
  key_agreement = [];
  capability_delegation = [];
  capability_invocation = [];
  service = service ∷ [];
  properties = 0;
}
