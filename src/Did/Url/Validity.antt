-- ===== src/Did/Url/Validity.antt =====
-- The setters of `RelativeDIDUrl` keep its parts well formed: each part is absent or begins with its
-- delimiter, has more than the delimiter where that is asked, and holds allowed characters only.
use identity_rs.Did.Url.{
  RelativeDidUrl, DidError, invalid_query, invalid_fragment, is_char_method_id, is_char_path,
  is_char_query, is_char_fragment, checked_path, checked_part, checked, set_path, set_query,
  set_fragment, get_fragment, new,
}
use identity_rs.Prelude.{
  ℕ, ◌≡◌, refl, Bool, true, false, Option, none, some, [], ◌∷◌, ok, all, arith, Text, Lacks,
  nat_beq, inl, inr, Outcome-cases, subst, list_eq, nat_eq,
}

-- A stored part with delimiter `c`: the delimiter, then allowed characters, at least one.
abbrev pub IsPart : ℕ → (ℕ → Bool) → Option Text → Type 0
IsPart c is_char none = Unit
IsPart c is_char (some []) = ⊥
IsPart c is_char (some (d ∷ [])) = ⊥
IsPart c is_char (some (d ∷ ch ∷ s)) = (d ≡ c) × (all is_char (ch ∷ s) ≡ true)

-- A stored path: a slash, and allowed characters.
abbrev pub IsPath : Option Text → Type 0
IsPath none = Unit
IsPath (some []) = ⊥
IsPath (some (d ∷ s)) = (d ≡ b'/') × (all is_char_path (d ∷ s) ≡ true)

pub record IsValid (url : RelativeDidUrl) : Type 0 where
  pub path : IsPath url.path
  pub query : IsPart b'?' is_char_query url.query
  pub fragment : IsPart b'#' is_char_fragment url.fragment

pub new-IsValid : IsValid new
unfolding new
new-IsValid = record { path = tt; query = tt; fragment = tt }

checked_path-IsPath :
    (value path : Option Text) → checked checked_path value ≡ ok path → IsPath path
unfolding checked checked_path
checked_path-IsPath none none h = tt
checked_path-IsPath (some []) none h = tt
checked_path-IsPath (some (ch ∷ s)) (some []) h = absurd (ground arith)
checked_path-IsPath (some (ch ∷ s)) (some (d ∷ t)) h = ground arith
checked_path-IsPath _ _ h = absurd (ground arith)

module _ (c : ℕ) (is_char : ℕ → Bool) (error : DidError) where
  checked_part-IsPart :
      (value part : Option Text)
      → checked (checked_part c is_char error) value ≡ ok part
      → IsPart c is_char part
  unfolding checked checked_part
  checked_part-IsPart none none h = tt
  checked_part-IsPart (some []) none h = tt
  checked_part-IsPart (some (ch ∷ s)) (some []) h = absurd (ground arith)
  checked_part-IsPart (some (ch ∷ s)) (some (d ∷ [])) h = absurd (ground arith)
  checked_part-IsPart (some (ch ∷ s)) (some (d ∷ t)) h = ground arith
  checked_part-IsPart _ _ h = absurd (ground arith)

-- Whatever text is given, a setter that succeeds keeps a well-formed URL well formed.
pub set_path-IsValid :
    (url url' : RelativeDidUrl) (value : Option Text)
    → IsValid url
    → set_path url value ≡ ok url'
    → IsValid url'
unfolding set_path
set_path-IsValid url url' value v h = elim (Outcome-cases (checked checked_path value)) [
  | inl (path, q) ↦
      let same : record url { path = path } ≡ url' = ground arith in
      subst IsValid same
        (record { path = checked_path-IsPath value path q; query = v.query; fragment = v.fragment })
  | inr (e, q) ↦ absurd (ground arith)
]

pub set_query-IsValid :
    (url url' : RelativeDidUrl) (value : Option Text)
    → IsValid url
    → set_query url value ≡ ok url'
    → IsValid url'
unfolding set_query
set_query-IsValid url url' value v h =
    elim (Outcome-cases (checked (checked_part b'?' is_char_query invalid_query) value)) [
      | inl (query, q) ↦
          let same : record url { query = query } ≡ url' = ground arith in
          subst IsValid same (record {
            path = v.path;
            query = checked_part-IsPart b'?' is_char_query invalid_query value query q;
            fragment = v.fragment;
          })
      | inr (e, q) ↦ absurd (ground arith)
    ]

pub set_fragment-IsValid :
    (url url' : RelativeDidUrl) (value : Option Text)
    → IsValid url
    → set_fragment url value ≡ ok url'
    → IsValid url'
unfolding set_fragment
set_fragment-IsValid url url' value v h =
    elim (Outcome-cases (checked (checked_part b'#' is_char_fragment invalid_fragment) value)) [
      | inl (fragment, q) ↦
          let same : record url { fragment = fragment } ≡ url' = ground arith in
          subst IsValid same (record {
            path = v.path;
            query = v.query;
            fragment = checked_part-IsPart b'#' is_char_fragment invalid_fragment value fragment q;
          })
      | inr (e, q) ↦ absurd (ground arith)
    ]

-- The delimiters are not allowed in a fragment or path, and `?` only after a query began.
fragment_char-ne-hash : (ch : ℕ) → is_char_fragment ch ≡ true → nat_beq ch b'#' ≡ false
unfolding is_char_fragment is_char_path is_char_method_id
fragment_char-ne-hash ch h = ground arith

pub all-Lacks_hash : (s : Text) → all is_char_fragment s ≡ true → Lacks b'#' s
all-Lacks_hash [] h = tt
all-Lacks_hash (ch ∷ s) h =
    (fragment_char-ne-hash ch (ground arith), all-Lacks_hash s (ground arith))

-- A non-empty text of allowed characters, with or without the leading `#`, is stored as a fragment
-- and read back without it; the other parts stay.
pub get_fragment-set_fragment :
    (url : RelativeDidUrl) (ch : ℕ) (f : Text)
    → all is_char_fragment (ch ∷ f) ≡ true
    → (set_fragment url (some (ch ∷ f)) ≡ ok (record url { fragment = some (b'#' ∷ ch ∷ f) }))
      × (set_fragment url (some (b'#' ∷ ch ∷ f))
          ≡ ok (record url { fragment = some (b'#' ∷ ch ∷ f) }))
      × (get_fragment (record url { fragment = some (b'#' ∷ ch ∷ f) }) ≡ some (ch ∷ f))
unfolding set_fragment checked checked_part get_fragment
get_fragment-set_fragment url ch f h =
    let plain : nat_beq ch b'#' ≡ false = fragment_char-ne-hash ch (ground arith) in
    (rw (plain, h) refl, rw h refl, refl)
