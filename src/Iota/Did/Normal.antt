-- ===== src/Iota/Did/Normal.antt =====
-- The normal form of a DID of the method: the default network is left out, and nothing else changes.
use identity_rs.Did.Url.{is_char_method_id}
use identity_rs.Iota.Did.{
  Error, default_network, method_name, split, count, network, tag, validate_network_name,
  check_method, check_network, normalize, check_segments, check_method_id, Network, mainnet, devnet,
  other, try_from_name, name_str, network_of, check_validity, try_from_core,
}
use identity_rs.Stardust.Did.{CoreDid, set_method_id}
use identity_rs.Prelude.{
  ℕ, ◌≡◌, inl, inr, refl, ap, sym, ◌∙◌, subst, Bool, true, false, List, [], ◌∷◌, ◌++◌, ◌==◌, nat_eq,
  list_eq, if◌then◌else◌, ltb, length, all, Outcome, ok, ◌>>=◌, guard, guard_iff, bind_parts, Text,
  text, Lacks, Bool-cases, arith,
}
use identity_rs.Iota.Did.Segments.{
  split-Lacks, split-append, split-cases, network_one, tag_one, count_two, network_two, tag_two,
}

main_network : validate_network_name default_network ≡ ok tt
unfolding validate_network_name
main_network = refl

try_from_name-valid :
    (name : Text)
    → validate_network_name name ≡ ok tt
    → (w : Network) × (try_from_name name ≡ ok w) × (name_str w ≡ name)
unfolding try_from_name name_str
try_from_name-valid name valid = elim (Bool-cases (name == default_network)) [
  | inl main ↦ (mainnet, rw main refl, sym ((list_eq.beq_iff name default_network).0 main))
  | inr not_main ↦ elim (Bool-cases (name == text "dev")) [
    | inl dev ↦ (devnet, rw (not_main, dev) refl, sym ((list_eq.beq_iff name (text "dev")).0 dev))
    | inr not_dev ↦ (other name, rw (not_main, not_dev, valid) refl, refl)
  ]
]

-- the method id of a normal form
abbrev pub normal_id : Text → Text → Text
normal_id name id = if name == default_network then id else name ++ b':' ∷ id

module _ {D E : Type 0} (core : CoreDid D) (decode_base58 : Text → Outcome E (List ℕ)) where
  -- A DID is normal, with its network and tag.
  pub record IsNormal (did : D) (name id : Text) : Type 0 where
    pub is_iota : core.method did ≡ method_name
    pub networked : network (core.method_id did) ≡ ok name
    pub tagged : tag (core.method_id did) ≡ ok id
    pub written : core.method_id did ≡ normal_id name id
    pub known : (w : Network) × (network_of core did ≡ ok w) × (name_str w ≡ name)
    pub kept : try_from_core core decode_base58 did ≡ ok did

  checks :
      (did : D)
      → check_validity core decode_base58 did ≡ ok tt
      → (core.method did ≡ method_name)
        × (check_method_id core decode_base58 did ≡ ok tt)
        × (check_network core did ≡ ok tt)
  unfolding check_validity check_method
  checks did h =
      let (_, a, h) = bind_parts (guard (core.method did == method_name) _) _ h in
      let (_, b, h) = bind_parts (check_method_id core decode_base58 did) _ h in
      ((list_eq.beq_iff (core.method did) method_name).0 ((guard_iff _ _).0 a), b, h)

  from_checks :
      (did : D)
      → core.method did ≡ method_name
      → check_method_id core decode_base58 did ≡ ok tt
      → check_network core did ≡ ok tt
      → check_validity core decode_base58 did ≡ ok tt
  unfolding check_validity check_method
  from_checks did m i n = rw ((list_eq.beq_iff (core.method did) method_name).1 m) (rw i n)

  network_known :
      (did : D) (name : Text)
      → network (core.method_id did) ≡ ok name
      → check_validity core decode_base58 did ≡ ok tt
      → (w : Network) × (network_of core did ≡ ok w) × (name_str w ≡ name)
  unfolding network_of check_network
  network_known did name found valid =
      let checked : validate_network_name name ≡ ok tt =
        subst (λ (r : Outcome Error Text). (r >>= λ name'. validate_network_name name') ≡ ok tt)
          found (checks did valid).2 in
      let (w, made, same) = try_from_name-valid name checked in (w, rw (found, made) refl, same)

  IsNormal-one :
      (did : D)
      → Lacks b':' (core.method_id did)
      → check_validity core decode_base58 did ≡ ok tt
      → IsNormal did default_network (core.method_id did)
  unfolding try_from_core normalize count
  IsNormal-one did lacks valid = record {
    is_iota = (checks did valid).0;
    networked = network_one (core.method_id did) lacks;
    tagged = tag_one (core.method_id did) lacks;
    written = refl;
    known = network_known did default_network (network_one (core.method_id did) lacks) valid;
    kept = rw valid (rw (split-Lacks b':' (core.method_id did) lacks) refl);
  }

  IsNormal-two :
      (did : D) (a b : Text)
      → Lacks b':' a
      → Lacks b':' b
      → core.method_id did ≡ a ++ b':' ∷ b
      → (a == default_network) ≡ false
      → check_validity core decode_base58 did ≡ ok tt
      → IsNormal did a b
  unfolding try_from_core normalize
  IsNormal-two did a b ha hb e apart valid = record {
    is_iota = (checks did valid).0;
    networked = rw e (network_two a b ha hb);
    tagged = rw e (tag_two a b ha hb);
    written = rw (e, apart) refl;
    known = network_known did a (rw e (network_two a b ha hb)) valid;
    kept = rw valid (rw (e, count_two a b ha hb, network_two a b ha hb, apart) refl);
  }

  -- What the shorter method id must be for the checks and the setter: allowed as it was before.
  tag_valid :
      (a b : Text)
      → Lacks b':' a
      → Lacks b':' b
      → check_segments decode_base58 (split b':' (a ++ b':' ∷ b)) ≡ ok tt
      → check_segments decode_base58 (split b':' b) ≡ ok tt
  unfolding check_segments
  tag_valid a b ha hb h = rw (split-Lacks b':' b hb) (
      subst (λ w. check_segments decode_base58 w ≡ ok tt)
        (split-append b':' a b ha ∙ ap (λ w. a ∷ w) (split-Lacks b':' b hb)) h)

  all-tail : (p : ℕ → Bool) (a t : Text) (c : ℕ) → all p (a ++ c ∷ t) ≡ true → all p t ≡ true
  all-tail p [] t c h = ground arith
  all-tail p (x ∷ a) t c h = all-tail p a t c (ground arith)

  shortened :
      (did : D) (a b : Text)
      → Lacks b':' a
      → Lacks b':' b
      → core.method_id did ≡ a ++ b':' ∷ b
      → (a == default_network) ≡ true
      → all is_char_method_id (core.method_id did) ≡ true
      → check_validity core decode_base58 did ≡ ok tt
      → (try_from_core core decode_base58 did ≡ ok (core.put_method_id did b))
        × IsNormal (core.put_method_id did b) default_network b
  unfolding try_from_core normalize set_method_id check_method_id check_network
  shortened did a b ha hb e default chars valid =
      let (m, i, n) = checks did valid in
      let allowed : all is_char_method_id b ≡ true =
        all-tail is_char_method_id a b b':' (subst (λ s. all is_char_method_id s ≡ true) e chars) in
      let written = core.put_writes did b in
      let i' : check_method_id core decode_base58 (core.put_method_id did b) ≡ ok tt = rw written (
        tag_valid a b ha hb
          (subst (λ s. check_segments decode_base58 (split b':' s) ≡ ok tt) e i)) in
      let n' : check_network core (core.put_method_id did b) ≡ ok tt =
        rw (written, network_one b hb) main_network in
      let valid' = from_checks (core.put_method_id did b) (core.put_keeps_method did b ∙ m) i' n' in
      (
        rw valid (
            rw (e, count_two a b ha hb, network_two a b ha hb, default, tag_two a b ha hb, allowed)
              refl),
        subst (λ s. IsNormal (core.put_method_id did b) default_network s) written
            (IsNormal-one (core.put_method_id did b) (rw written hb) valid'),
      )

  three_fail :
      (words : List Text)
      → ltb 2 (length words) ≡ true
      → check_segments decode_base58 words ≡ ok tt
      → ⊥
  unfolding check_segments
  three_fail words many h = ground arith

  -- A DID of the core library that passes the checks, and whose method id has the allowed characters
  -- only, is turned into a DID of the method without a panic: one with the same network and tag, whose
  -- method id is the tag on the default network, and the network, a colon and the tag on others; that is
  -- a DID of the method again, of a network with that name, which the conversion does not change.
  pub try_from_core-IsNormal :
      (did : D)
      → check_validity core decode_base58 did ≡ ok tt
      → all is_char_method_id (core.method_id did) ≡ true
      → (did' : D) × (try_from_core core decode_base58 did ≡ ok did')
        × (name : Text) × (id : Text) × (network (core.method_id did) ≡ ok name)
        × (tag (core.method_id did) ≡ ok id)
        × IsNormal did' name id
  unfolding check_method_id
  try_from_core-IsNormal did valid chars = elim (split-cases (core.method_id did)) [
    | inl lacks ↦
        let normal = IsNormal-one did lacks valid in
        (
          did,
          normal.kept,
          default_network,
          core.method_id did,
          normal.networked,
          normal.tagged,
          normal,
        )
    | inr (inl (a, b, ha, hb, e)) ↦
        let networked : network (core.method_id did) ≡ ok a = rw e (network_two a b ha hb) in
        let tagged : tag (core.method_id did) ≡ ok b = rw e (tag_two a b ha hb) in
        elim (Bool-cases (a == default_network)) [
          | inl default ↦
              let (made, normal) = shortened did a b ha hb e default chars valid in
              let same = (list_eq.beq_iff a default_network).0 default in
              (
                core.put_method_id did b,
                made,
                default_network,
                b,
                networked ∙ ap ok same,
                tagged,
                normal,
              )
          | inr apart ↦
              let normal = IsNormal-two did a b ha hb e apart valid in
              (did, normal.kept, a, b, networked, tagged, normal)
        ]
    | inr (inr many) ↦
        absurd (three_fail (split b':' (core.method_id did)) many (checks did valid).1)
  ]
