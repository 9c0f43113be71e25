-- ===== src/Did/Query/Matching.antt =====
-- What a query that is made from a DID URL matches.
use identity_rs.Did.Url.{
  DidUrl, get_fragment, did_url_to_string, or_empty, is_char_query, is_char_fragment, to_string,
}
use identity_rs.Did.Url.Validity.{IsValid, IsPart, IsPath, all-Lacks_hash}
use identity_rs.Did.Query.{
  scheme, cut, end_pos, did_str, after_hash, fragment, did_matches, matches, from_did_url,
  same_fragment,
}
use mathlib.Core.List.{append_assoc}
use identity_rs.Prelude.{
  ℕ, suc, ◌≤◌, ◌≡◌, ◌∙◌, sym, ap, subst, refl, true, ◌&&◌, Option, none, some, [], ◌∷◌, ◌++◌, ◌==◌,
  length, take, drop, Text, starts_with, find_char, list_eq, nat_eq, arith, length-append, Lacks,
  find_char-append_here, find_char-append_after, starts_with-append, rfind_char-append,
  Option-cases, inl, inr,
}

-- The text of a DID: it begins with the scheme and has none of the delimiters of a URL.
pub record IsDidText (s : Text) : Type 0 where
  pub starts : starts_with scheme s ≡ true
  pub no_query : Lacks b'?' s
  pub no_path : Lacks b'/' s
  pub no_fragment : Lacks b'#' s

-- The rest of a URL that has a fragment: it begins with a delimiter.
data Delimited : Text → Type 0 where
  by_path : (t : Text) → Delimited (b'/' ∷ t)
  by_query : (t : Text) → Delimited (b'?' ∷ t)
  by_fragment : (t : Text) → Delimited (b'#' ∷ t)

take-append_length : (s t : Text) → take (length s) (s ++ t) ≡ s
take-append_length [] t = refl
take-append_length (c ∷ s) t = rw (take-append_length s t)

drop-append_length : (s t : Text) (c : ℕ) → drop (suc (length s)) (s ++ c ∷ t) ≡ t
drop-append_length [] t c = refl
drop-append_length (d ∷ s) t c = drop-append_length s t c

cut-le : (c : ℕ) (q : Text) (end : ℕ) → cut c q end ≤ end
unfolding cut
cut-le c q end = omega arith

cut-ge : (c : ℕ) (s t : Text) (end : ℕ) → Lacks c s → length s ≤ end → length s ≤ cut c (s ++ t) end
unfolding cut
cut-ge c s t end lacks le = elim (Option-cases (find_char c (s ++ t))) [
  | inl miss ↦ rw miss (omega arith)
  | inr (i, hit) ↦ let past = find_char-append_after c i s t lacks hit in rw hit (omega arith)
]

cut-here :
    (c : ℕ) (s t : Text) (end : ℕ) → Lacks c s → length s ≤ end → cut c (s ++ c ∷ t) end ≡ length s
unfolding cut
cut-here c s t end lacks le = rw (find_char-append_here c s t lacks) (omega arith)

module _ (s : Text) (v : IsDidText s) where
  open v use {no_query, no_path, no_fragment}

  first_ge : (t : Text) → length s ≤ cut b'?' (s ++ t) (length (s ++ t))
  first_ge t = cut-ge b'?' s t (length (s ++ t)) no_query (omega (arith, length-append s t))

  second_ge : (t : Text) → length s ≤ cut b'/' (s ++ t) (cut b'?' (s ++ t) (length (s ++ t)))
  second_ge t = cut-ge b'/' s t (cut b'?' (s ++ t) (length (s ++ t))) no_path (first_ge t)

  -- The DID of a URL's text ends where its first delimiter stands.
  end_pos-did : (t : Text) → Delimited t → end_pos (s ++ t) ≡ length s
  unfolding end_pos
  end_pos-did _ (by_fragment t) = cut-here b'#' s t _ no_fragment (second_ge (b'#' ∷ t))
  end_pos-did _ (by_path t) =
      let first = cut b'?' (s ++ b'/' ∷ t) (length (s ++ b'/' ∷ t)) in
      omega (
        arith,
        cut-here b'/' s t first no_path (first_ge (b'/' ∷ t)),
        cut-le b'#' (s ++ b'/' ∷ t) (cut b'/' (s ++ b'/' ∷ t) first),
        cut-ge b'#' s (b'/' ∷ t) (cut b'/' (s ++ b'/' ∷ t) first) no_fragment
            (second_ge (b'/' ∷ t)),
      )
  end_pos-did _ (by_query t) =
      let first = cut b'?' (s ++ b'?' ∷ t) (length (s ++ b'?' ∷ t)) in
      omega (
        arith,
        cut-here b'?' s t (length (s ++ b'?' ∷ t)) no_query
            (omega (arith, length-append s (b'?' ∷ t))),
        cut-le b'/' (s ++ b'?' ∷ t) first,
        cut-le b'#' (s ++ b'?' ∷ t) (cut b'/' (s ++ b'?' ∷ t) first),
        cut-ge b'#' s (b'?' ∷ t) (cut b'/' (s ++ b'?' ∷ t) first) no_fragment
            (second_ge (b'?' ∷ t)),
      )

after_hash-append : (s t : Text) → Lacks b'#' t → after_hash (s ++ b'#' ∷ t) ≡ some t
after_hash-append s t lacks =
    rw (rfind_char-append b'#' s t lacks, after_hash) (ap some (drop-append_length s t b'#'))

rest-Delimited :
    (path query : Option Text) (t : Text)
    → IsPath path
    → IsPart b'?' is_char_query query
    → Delimited (or_empty path ++ (or_empty query ++ b'#' ∷ t))
rest-Delimited none none t p q = by_fragment t
rest-Delimited none (some (d ∷ ch ∷ s)) t p q =
    subst (λ c. Delimited (c ∷ ch ∷ s ++ b'#' ∷ t)) (sym q.0) (by_query _)
rest-Delimited none (some (d ∷ [])) t p q = absurd q
rest-Delimited none (some []) t p q = absurd q
rest-Delimited (some []) query t p q = absurd p
rest-Delimited (some (d ∷ s)) query t p q =
    subst (λ c. Delimited (c ∷ (s ++ (or_empty query ++ b'#' ∷ t)))) (sym p.0) (by_path _)

module _ {D : Type 0} (as_str : D → Text) (u : DidUrl D) (ch : ℕ) (f : Text)
    (did_text : IsDidText (as_str u.did)) (valid : IsValid u.url)
    (frag : u.url.fragment ≡ some (b'#' ∷ ch ∷ f)) where
  abbrev rest : Text
  rest = or_empty u.url.path ++ (or_empty u.url.query ++ b'#' ∷ ch ∷ f)

  text_eq : from_did_url as_str u ≡ as_str u.did ++ rest
  unfolding from_did_url did_url_to_string to_string
  text_eq = rw frag refl

  text_starts : starts_with scheme (as_str u.did ++ rest) ≡ true
  text_starts = starts_with-append scheme (as_str u.did) rest did_text.starts

  did_str-from_did_url : did_str (from_did_url as_str u) ≡ some (as_str u.did)
  unfolding did_str
  did_str-from_did_url =
      let delim = rest-Delimited u.url.path u.url.query (ch ∷ f) valid.path valid.query in
      rw (text_eq, text_starts)
        (rw (end_pos-did (as_str u.did) did_text rest delim)
          (ap some (take-append_length (as_str u.did) rest)))

  fragment_Lacks : Lacks b'#' (ch ∷ f)
  fragment_Lacks =
      all-Lacks_hash (ch ∷ f) (subst (IsPart b'#' is_char_fragment) frag valid.fragment).1

  fragment-from_did_url : fragment (from_did_url as_str u) ≡ some (ch ∷ f)
  unfolding fragment
  fragment-from_did_url =
      let before = as_str u.did ++ (or_empty u.url.path ++ or_empty u.url.query) in
      let split : as_str u.did ++ rest ≡ before ++ b'#' ∷ ch ∷ f =
        ap (λ t. as_str u.did ++ t)
          (sym (append_assoc (or_empty u.url.path) (or_empty u.url.query) _))
        ∙ sym (append_assoc (as_str u.did) (or_empty u.url.path ++ or_empty u.url.query) _) in
      rw (text_eq, text_starts) (rw (split, after_hash-append before (ch ∷ f) fragment_Lacks) refl)

  -- A query made from a well-formed DID URL with a fragment matches exactly the URLs with the same
  -- DID and the same fragment, whatever their paths and queries.
  pub matches-from_did_url :
      (v : DidUrl D)
      → matches as_str (from_did_url as_str u) v
        ≡ (as_str u.did == as_str v.did && same_fragment (some (ch ∷ f)) (get_fragment v.url))
  unfolding matches did_matches
  matches-from_did_url v = rw (did_str-from_did_url, fragment-from_did_url) (ground arith)
