-- ===== src/Stardust/Did/Normal.antt =====
-- The normal form of a DID: the default network is left out, and nothing else changes.
use identity_rs.Did.Url.{is_char_method_id}
use identity_rs.Stardust.Did.{
  CoreDid, default_network, validate_network_name, denormalized_components, network_str, tag,
  set_method_id, normalize, check_method, check_network, check_tag, check_validity, try_from_core,
}
use identity_rs.Prelude.{
  ℕ, zero, suc, ◌≡◌, ◌⊎◌, inl, inr, refl, ◌<◌, Bool, ◌||◌, if◌then◌else◌, true, false, some, none,
  List, [], ◌∷◌, ◌==◌, nat_eq, list_eq, list_beq_iff, sym, ◌∙◌, length, drop, all, ok, Text,
  find_char, Lacks, Lacks-find_char, Bool-cases, Option-cases, arith, nat_beq,
}

find_char-Lacks : (c : ℕ) (s : Text) → Lacks c s → find_char c s ≡ none
find_char-Lacks c [] h = refl
find_char-Lacks c (d ∷ s) h = rw (h.0, find_char-Lacks c s h.1) refl

all-drop :
    {A : Type 0} (p : A → Bool) (n : ℕ) (s : List A) → all p s ≡ true → all p (drop n s) ≡ true
all-drop p zero s h = h
all-drop p (suc n) [] h = refl
all-drop p (suc n) (x ∷ s) h = all-drop p n s (ground arith)

drop_shorter : (c i : ℕ) (s : Text) → find_char c s ≡ some i → length (drop 1 (drop i s)) < length s
drop_shorter c i [] h = absurd (ground arith)
drop_shorter c zero (d ∷ s) h = omega arith
drop_shorter c (suc i) (d ∷ s) h = ground (arith, drop_shorter c i s)

components_whole : (s : Text) → Lacks b':' s → denormalized_components s ≡ (default_network, s)
unfolding denormalized_components
components_whole s lacks = rw (denormalized_components, find_char-Lacks b':' s lacks) refl

components_valid :
    (s : Text)
    → all is_char_method_id s ≡ true
    → all is_char_method_id (denormalized_components s).1 ≡ true
unfolding denormalized_components
components_valid s v = elim (Option-cases (find_char b':' s)) [
  | inl h ↦ rw (denormalized_components, h) v
  | inr (i, h) ↦
      rw (denormalized_components, h)
        (all-drop is_char_method_id 1 (drop i s) (all-drop is_char_method_id i s v))
]

components-cases :
    (s : Text) → Lacks b':' s ⊎ (nat_beq (length (denormalized_components s).1) (length s) ≡ false)
unfolding denormalized_components
components-cases s = elim (Option-cases (find_char b':' s)) [
  | inl h ↦ inl (Lacks-find_char b':' s h)
  | inr (i, h) ↦ inr (rw (denormalized_components, h) (ground (arith, drop_shorter b':' i s h)))
]

same_length : (s : Text) → nat_beq (length s) (length s) ≡ true
same_length s = ground arith

keep_right : {A : Type 0} (a b : A) (t : Bool) → (if t || true then a else b) ≡ a
keep_right a b true = refl
keep_right a b false = refl

module _ {D : Type 0} (core : CoreDid D) (decodes : Text → Bool)
    (decodes-Lacks : (s : Text) → decodes s ≡ true → Lacks b':' s) where
  normalize_whole : (did : D) → Lacks b':' (core.method_id did) → normalize core did ≡ ok did
  unfolding normalize
  normalize_whole did lacks =
      rw (normalize, components_whole (core.method_id did) lacks)
        (rw (same_length (core.method_id did)) refl)

  normalize_other :
      (did : D) → (network_str core did == default_network) ≡ false → normalize core did ≡ ok did
  unfolding normalize network_str tag
  normalize_other did other =
      rw (normalize, other)
        (keep_right _ _ (nat_beq (length (tag core did)) (length (core.method_id did))))

  normalize_default :
      (did : D)
      → all is_char_method_id (core.method_id did) ≡ true
      → nat_beq (length (tag core did)) (length (core.method_id did)) ≡ false
      → (network_str core did == default_network) ≡ true
      → normalize core did ≡ ok (core.put_method_id did (tag core did))
  unfolding normalize network_str tag set_method_id
  normalize_default did valid shorter is_default =
      rw
        (normalize, shorter, is_default, set_method_id, components_valid (core.method_id did) valid)
        refl

  check_validity_parts :
      (did : D)
      → check_validity core decodes did ≡ ok tt
      → (check_method core did ≡ ok tt) × (decodes (tag core did) ≡ true)
  unfolding check_validity check_method check_tag
  check_validity_parts did h = ground arith

  put_components :
      (did : D) (value : Text)
      → decodes value ≡ true
      → denormalized_components (core.method_id (core.put_method_id did value))
        ≡ (default_network, value)
  put_components did value d =
      rw (core.put_writes did value) (components_whole value (decodes-Lacks value d))

  put_tag :
      (did : D) (value : Text)
      → decodes value ≡ true
      → tag core (core.put_method_id did value) ≡ value
  unfolding tag
  put_tag did value d = rw (tag, put_components did value d) refl

  put_network :
      (did : D) (value : Text)
      → decodes value ≡ true
      → network_str core (core.put_method_id did value) ≡ default_network
  unfolding network_str
  put_network did value d = rw (network_str, put_components did value d) refl

  put_valid :
      (did : D) (value : Text)
      → check_method core did ≡ ok tt
      → decodes value ≡ true
      → check_validity core decodes (core.put_method_id did value) ≡ ok tt
  unfolding check_validity check_method check_tag check_network network_str tag
      validate_network_name
  put_valid did value m d =
      rw
        (
          check_validity,
          check_method,
          core.put_keeps_method did value,
          m,
          check_tag,
          tag,
          put_components did value d,
          d,
          check_network,
          network_str,
        )
        refl

  pub record IsNormalOf (did did' : D) : Type 0 where
    pub same_method : core.method did' ≡ core.method did
    pub same_network : network_str core did' ≡ network_str core did
    pub same_tag : tag core did' ≡ tag core did
    pub again : try_from_core core decodes did' ≡ ok did'
    pub shortest : network_str core did' ≡ default_network → core.method_id did' ≡ tag core did'

  whole-IsNormalOf :
      (did : D)
      → check_validity core decodes did ≡ ok tt
      → Lacks b':' (core.method_id did)
      → IsNormalOf did did
  unfolding try_from_core tag
  whole-IsNormalOf did valid lacks = record {
    same_method = refl;
    same_network = refl;
    same_tag = refl;
    again = rw (valid, normalize_whole did lacks) refl;
    shortest = λ _. rw (tag, components_whole (core.method_id did) lacks) refl;
  }

  other-IsNormalOf :
      (did : D)
      → check_validity core decodes did ≡ ok tt
      → (network_str core did == default_network) ≡ false
      → IsNormalOf did did
  unfolding try_from_core
  other-IsNormalOf did valid other = record {
    same_method = refl;
    same_network = refl;
    same_tag = refl;
    again = rw (valid, normalize_other did other) refl;
    shortest = λ eq. absurd (ground (arith, list_beq_iff (network_str core did) default_network));
  }

  default-IsNormalOf :
      (did : D)
      → check_validity core decodes did ≡ ok tt
      → (network_str core did == default_network) ≡ true
      → IsNormalOf did (core.put_method_id did (tag core did))
  unfolding try_from_core
  default-IsNormalOf did valid is_default =
      let (m, d) = check_validity_parts did valid in
      let value : Text = tag core did in
      let lacks : Lacks b':' (core.method_id (core.put_method_id did value)) =
        rw (core.put_writes did value) (decodes-Lacks value d) in
      record {
        same_method = core.put_keeps_method did value;
        same_network =
            put_network did value d
            ∙ sym ((list_eq.beq_iff (network_str core did) default_network).0 is_default);
        same_tag = put_tag did value d;
        again =
            rw (put_valid did value m d, normalize_whole (core.put_method_id did value) lacks) refl;
        shortest = λ _. core.put_writes did value ∙ sym (put_tag did value d);
      }

  -- A core DID whose method id has only the characters that are allowed and that is valid under the
  -- method is accepted, so that the normalization never panics. The DID that results has the same
  -- method, network and tag, is given back unchanged when it is converted again, and names its
  -- network only if it is not the default one. A text that decodes as a tag has no colon.
  pub try_from_core-IsNormalOf :
      (did : D)
      → all is_char_method_id (core.method_id did) ≡ true
      → check_validity core decodes did ≡ ok tt
      → (did' : D) × ((try_from_core core decodes did ≡ ok did') × IsNormalOf did did')
  unfolding try_from_core tag
  try_from_core-IsNormalOf did chars valid = elim (components-cases (core.method_id did)) [
    | inl lacks ↦
        (did, (rw (valid, normalize_whole did lacks) refl, whole-IsNormalOf did valid lacks))
    | inr shorter ↦ elim (Bool-cases (network_str core did == default_network)) [
      | inr other ↦
          (did, (rw (valid, normalize_other did other) refl, other-IsNormalOf did valid other))
      | inl is_default ↦ (
        core.put_method_id did (tag core did),
        (
          rw (valid, normalize_default did chars shorter is_default) refl,
          default-IsNormalOf did valid is_default,
        ),
      )
    ]
  ]
