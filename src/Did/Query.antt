-- ===== src/Did/Query.antt =====
-- identity_did/src/utils/did_url_query.rs: a text that names a service or a method of a document,
-- and queryable.rs: the search of an ordered set for the first entry that it matches.
pub mod Matching
use Prim.Native.Nat.{min}
use identity_rs.Did.Url.{DidUrl, get_fragment, did_url_to_string}
use identity_rs.Prelude.{
  ℕ, suc, ◌≡◌, Bool, true, false, ◌&&◌, Option, none, some, List, [], ◌∷◌, ◌==◌, if◌then◌else◌,
  find, length, take, drop, unwrap_or, Text, starts_with, find_char, rfind_char, list_eq, nat_eq,
}

-- `CoreDID::SCHEME`, of the crate that parses DIDs: "did"
abbrev pub scheme : Text
scheme = b'd' ∷ b'i' ∷ b'd' ∷ []

-- `end_pos = end_pos.min(query.find(c).unwrap_or(end_pos))`
unfoldable pub cut : ℕ → Text → ℕ → ℕ
cut c query end = min end (unwrap_or (find_char c query) end)

unfoldable pub end_pos : Text → ℕ
end_pos query = cut b'#' query (cut b'/' query (cut b'?' query (length query)))

unfoldable pub did_str : Text → Option Text
did_str query = if starts_with scheme query then some (take (end_pos query) query) else none

-- `fragment_maybe.filter(|fragment| !fragment.is_empty())`
abbrev pub not_empty : Option Text → Option Text
not_empty none = none
not_empty (some []) = none
not_empty (some (ch ∷ s)) = some (ch ∷ s)

-- `query.rfind('#').and_then(|index| query.get(index + 1..))`
abbrev pub after_hash : Text → Option Text
after_hash query = elim (rfind_char b'#' query) [
  | none ↦ none
  | some index ↦ some (drop (suc index) query)
]

unfoldable pub fragment : Text → Option Text
fragment query = not_empty (
    if starts_with scheme query
    then after_hash query
    else some (unwrap_or (after_hash query) query))

-- `self.fragment().zip(did_url.fragment())`, compared
abbrev pub same_fragment : Option Text → Option Text → Bool
same_fragment (some a) (some b) = a == b
same_fragment (some a) none = false
same_fragment none _ = false

module _ {D : Type 0} (as_str : D → Text) where
  unfoldable pub did_matches : Option Text → D → Bool
  did_matches none did = true
  did_matches (some did_str) did = did_str == as_str did

  unfoldable pub matches : Text → DidUrl D → Bool
  matches query did_url =
      if did_matches (did_str query) did_url.did
      then same_fragment (fragment query) (get_fragment did_url.url)
      else false

  -- `From<&DIDUrl<T>> for DIDUrlQuery`
  unfoldable pub from_did_url : DidUrl D → Text
  from_did_url did_url = did_url_to_string as_str did_url

  -- `Queryable::query` of a set whose entries have the URLs `url`
  unfoldable pub query : {T : Type 0} → (T → DidUrl D) → List T → Text → Option T
  query url set q = find (λ entry. matches q (url entry)) set
