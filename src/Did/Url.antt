-- ===== src/Did/Url.antt =====
-- identity_did/src/did/did_url.rs: a DID with a path, a query and a fragment. The type of DIDs is a
-- parameter, as in the source; its text (`DID::as_str`) is given where a URL is printed.
pub mod Validity
pub mod Written
use identity_rs.Prelude.{
  ℕ, ◌≡◌, Bool, true, not, ◌&&◌, ◌||◌, Option, none, some, List, [], ◌∷◌, ◌++◌, HasEq, ◌==◌,
  Outcome, unwrap_or, ok, err, ◌>>=◌, if◌then◌else◌, all, leb, nat_beq, Text, starts_with,
  strip_char, nat_eq, list_eq, list_beq_iff, arith, ◌↔◌,
}

pub data DidError : Type 0 where
  invalid_path invalid_query invalid_fragment : DidError

pub record RelativeDidUrl : Type 0 where
  pub path : Option Text
  pub query : Option Text
  pub fragment : Option Text

-- `Option<&str>::unwrap_or_default`
abbrev pub or_empty : Option Text → Text
or_empty none = []
or_empty (some s) = s

unfoldable pub new : RelativeDidUrl
new = record { path = none; query = none; fragment = none }

abbrev between : ℕ → ℕ → ℕ → Bool
between lo hi ch = leb lo ch && leb ch hi

unfoldable pub is_char_method_id : ℕ → Bool
is_char_method_id ch =
    between b'0' b'9' ch
    || between b'a' b'z' ch
    || between b'A' b'Z' ch
    || nat_beq ch b'.'
    || nat_beq ch b'-'
    || nat_beq ch b'_'
    || nat_beq ch b':'

unfoldable pub is_char_path : ℕ → Bool
is_char_path ch =
    is_char_method_id ch
    || nat_beq ch b'~'
    || nat_beq ch b'!'
    || nat_beq ch b'$'
    || nat_beq ch b'&'
    || nat_beq ch 39
    || nat_beq ch b'('
    || nat_beq ch b')'
    || nat_beq ch b'*'
    || nat_beq ch b'+'
    || nat_beq ch b','
    || nat_beq ch b';'
    || nat_beq ch b'='
    || nat_beq ch b'@'
    || nat_beq ch b'/'

unfoldable pub is_char_query : ℕ → Bool
is_char_query ch = is_char_path ch || nat_beq ch b'?'

unfoldable pub is_char_fragment : ℕ → Bool
is_char_fragment ch = is_char_path ch || nat_beq ch b'?'

unfoldable pub is_empty : RelativeDidUrl → Bool
is_empty url = or_empty url.path == [] && or_empty url.query == [] && or_empty url.fragment == []

-- `self.query()` and `self.fragment()`, without the leading delimiter
unfoldable pub get_query : RelativeDidUrl → Option Text
get_query url = elim url.query [ none ↦ none | some q ↦ strip_char b'?' q ]

unfoldable pub get_fragment : RelativeDidUrl → Option Text
get_fragment url = elim url.fragment [ none ↦ none | some f ↦ strip_char b'#' f ]

-- `set_path`: the closure of `map`, on a value that is not empty
unfoldable pub checked_path : Text → Outcome DidError Text
checked_path s = if starts_with (b'/' ∷ []) s && all is_char_path s then ok s else err invalid_path

-- `set_query` and `set_fragment`: the closure of `map`, with the delimiter `c`
unfoldable pub checked_part : ℕ → (ℕ → Bool) → DidError → Text → Outcome DidError Text
checked_part c is_char error value =
    let s = unwrap_or (strip_char c value) value in
    if s == [] || not (all is_char s) then err error else ok (c ∷ s)

-- `value.filter(|s| !s.is_empty()).map(check).transpose()`
unfoldable pub checked :
    (Text → Outcome DidError Text) → Option Text → Outcome DidError (Option Text)
checked check none = ok none
checked check (some []) = ok none
checked check (some (ch ∷ s)) = check (ch ∷ s) >>= λ t. ok (some t)

unfoldable pub set_path : RelativeDidUrl → Option Text → Outcome DidError RelativeDidUrl
set_path url value = checked checked_path value >>= λ path. ok (record url { path = path })

unfoldable pub set_query : RelativeDidUrl → Option Text → Outcome DidError RelativeDidUrl
set_query url value = checked (checked_part b'?' is_char_query invalid_query) value >>= λ query.
    ok (record url { query = query })

unfoldable pub set_fragment : RelativeDidUrl → Option Text → Outcome DidError RelativeDidUrl
set_fragment url value =
    checked (checked_part b'#' is_char_fragment invalid_fragment) value >>= λ fragment.
    ok (record url { fragment = fragment })

-- `Display`
unfoldable pub to_string : RelativeDidUrl → Text
to_string url = or_empty url.path ++ (or_empty url.query ++ or_empty url.fragment)

-- What `PartialEq` compares.
pub record UrlKey (D : Type 0) : Type 0 where
  pub did : D
  pub path : Text
  pub query : Text
  pub fragment : Text

pub record DidUrl (D : Type 0) : Type 0 where
  pub did : D
  pub url : RelativeDidUrl

module _ {D : Type 0} where
  unfoldable pub key : DidUrl D → UrlKey D
  key u = record {
    did = u.did;
    path = or_empty u.url.path;
    query = or_empty u.url.query;
    fragment = or_empty u.url.fragment;
  }

  unfoldable pub map : {U : Type 0} → DidUrl D → (D → U) → DidUrl U
  map u f = record { did = f u.did; url = u.url }

  unfoldable pub try_map : {U E : Type 0} → DidUrl D → (D → Outcome E U) → Outcome E (DidUrl U)
  try_map u f = f u.did >>= λ did. ok (record { did = did; url = u.url })

  -- `Display`, with the text of a DID
  unfoldable pub did_url_to_string : (D → Text) → DidUrl D → Text
  did_url_to_string as_str u = as_str u.did ++ to_string u.url

  module _ ⦃e : HasEq D⦄ where
    -- `PartialEq` for `DIDUrl` and `RelativeDIDUrl`
    abbrev pub key_beq : UrlKey D → UrlKey D → Bool
    key_beq a b =
        a.did == b.did && a.path == b.path && a.query == b.query && a.fragment == b.fragment

    pub key_beq_iff : (a b : UrlKey D) → (key_beq a b ≡ true) ↔ (a ≡ b)
    key_beq_iff a b = ground (
      arith,
      e.beq_iff a.did b.did,
      list_beq_iff a.path b.path,
      list_beq_iff a.query b.query,
      list_beq_iff a.fragment b.fragment,
    )

    instance abbrev pub key_eq : HasEq (UrlKey D)
    key_eq = record { same? = key_beq; beq_iff = key_beq_iff }
