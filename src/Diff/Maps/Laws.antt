-- ===== src/Diff/Maps/Laws.antt =====
-- `HashMap`: when a difference merges to the new map, and when it does not.
use identity_rs.Diff.Interface.{Diff, Carries, Returns}
use identity_rs.Diff.Maps.{
  InnerValue, change, add, wrap, flatten, changed, changed_round, added, added_round, removed,
  removed_round, merge_entries, merge_value, hash_map_diff, hash_map_merge,
}
use identity_rs.Diff.Maps.Changes.{Makes, merge_entries-append}
use identity_rs.Prelude.{
  HashMap, get, insert, remove_key, get-insert, get-remove_key, HasDistinctKeys, ◌≡◌, ◌∙◌, refl,
  false, Option, none, some, List, [], ◌∷◌, ◌++◌, HasEq, ◌==◌, ok, if◌then◌else◌, arith,
  Option-cases, Bool-cases, inl, inr, beq_refl,
}

pub flatten-wrap {ℓ} : {A : Type ℓ} (cs : List A) → flatten (wrap cs) ≡ cs
unfolding flatten wrap
flatten-wrap [] = refl
flatten-wrap (c ∷ cs) = refl

-- Entries after the loops: of a key's old and new value, and what `new` had before.
module _ {ℓ} {V : Type ℓ} ⦃v_eq : HasEq V⦄ where
  abbrev after_changed : Option V → Option V → Option V → Option V
  after_changed none other before = before
  after_changed (some old) none before = before
  after_changed (some old) (some new) before = if old == new then before else some new

  abbrev after_added : Option V → Option V → Option V → Option V
  after_added this none before = before
  after_added none (some new) before = some new
  after_added (some old) (some new) before = before

  abbrev after_removed : Option V → Option V → Option V → Option V
  after_removed none other before = before
  after_removed (some old) none before = none
  after_removed (some old) (some new) before = before

  after_all :
      (this other : Option V)
      → after_removed this other (after_added this other (after_changed this other this)) ≡ other
  after_all none none = refl
  after_all none (some new) = refl
  after_all (some old) none = refl
  after_all (some old) (some new) = ground (arith, v_eq.beq_iff old new)

module _ {ℓ κ μ} {K : Type ℓ} {V : Type κ} {D : Type μ} ⦃k_eq : HasEq K⦄ ⦃v_eq : HasEq V⦄
    (inner : Diff V D) (carries : (a b : V) → (a == b) ≡ false → Carries inner a b)
    (returns : (a : V) → Returns inner a) where
  removed-Makes :
      (this other new : HashMap K V)
      → HasDistinctKeys this
      → Makes inner new
          (removed inner this other)
          (λ j. after_removed (get this j) (get other j) (get new j))
  unfolding removed removed_round merge_entries get
  removed-Makes [] other new u = (new, refl, λ j. refl)
  removed-Makes ((k, v) ∷ this) other new u = elim (Option-cases (get other k)) [
    | inl gone ↦
        let (new', made, entry) = removed-Makes this other (remove_key new k) u.1 in
        (new', rw gone made, λ j. ground (arith, entry j, get-remove_key new k j, k_eq.beq_iff k j))
    | inr (w, there) ↦
        let (new', made, entry) = removed-Makes this other new u.1 in
        (new', rw there made, λ j. ground (arith, entry j, k_eq.beq_iff k j))
  ]

  added-Makes :
      (this other new : HashMap K V)
      → HasDistinctKeys other
      → (cs : List (InnerValue K D)) × (added inner this other ≡ ok cs)
        × Makes inner new cs (λ j. after_added (get this j) (get other j) (get new j))
  unfolding added added_round merge_entries get
  added-Makes this [] new u = ([], refl, (new, refl, λ j. ground arith))
  added-Makes this ((k, w) ∷ other) new u = elim (Option-cases (get this k)) [
    | inl fresh ↦
        let (d, made, back) = returns w in
        let (cs, found, (new', merged, entry)) = added-Makes this other (insert new k w) u.1 in
        (
          add k d ∷ cs,
          rw (fresh, made, found),
          (
            new',
            rw back merged,
            λ j. ground (arith, entry j, get-insert new k j w, k_eq.beq_iff k j),
          ),
        )
    | inr (v, there) ↦
        let (cs, found, (new', merged, entry)) = added-Makes this other new u.1 in
        (cs, rw there found, (new', merged, λ j. ground (arith, entry j, k_eq.beq_iff k j)))
  ]

  present :
      (k : K) (v : V) (this new : HashMap K V)
      → ((j : K) → get new j ≡ none → get ((k, v) ∷ this) j ≡ none)
      → (x : V) × (get new k ≡ some x)
  unfolding get
  present k v this new has = elim (Option-cases (get new k)) [
    | inl gone ↦ absurd (ground (arith, has k gone, beq_refl k))
    | inr found ↦ found
  ]

  changed-Makes :
      (this other new : HashMap K V)
      → HasDistinctKeys this
      → ((j : K) → get new j ≡ none → get this j ≡ none)
      → (cs : List (InnerValue K D)) × (changed inner this other ≡ ok cs)
        × Makes inner new cs (λ j. after_changed (get this j) (get other j) (get new j))
  unfolding changed changed_round merge_entries merge_value get
  changed-Makes [] other new u has = ([], refl, (new, refl, λ j. refl))
  changed-Makes ((k, v) ∷ this) other new u has = elim (Option-cases (get other k)) [
    | inl gone ↦
        let (cs, found, (new', merged, entry)) =
          changed-Makes this other new u.1 (λ j h. ground (arith, has j, u.0, k_eq.beq_iff k j)) in
        (cs, rw gone found, (new', merged, λ j. ground (arith, entry j, k_eq.beq_iff k j)))
    | inr (w, there) ↦ elim (Bool-cases (v == w)) [
      | inl same ↦
          let (cs, found, (new', merged, entry)) =
            changed-Makes this other new u.1
              (λ j h. ground (arith, has j, u.0, k_eq.beq_iff k j)) in
          (
            cs,
            rw (there, same) found,
            (new', merged, λ j. ground (arith, entry j, k_eq.beq_iff k j)),
          )
      | inr differ ↦
          let (x, at) = present k v this new has in
          let (d, made, back) = carries v w differ in
          let (cs, found, (new', merged, entry)) =
            changed-Makes this other (insert new k w) u.1
              (λ j h. ground (arith, has j, u.0, get-insert new k j w, k_eq.beq_iff k j)) in
          (
            change k d ∷ cs,
            rw (there, differ, made, found),
            (
              new',
              rw (at, back) merged,
              λ j. ground (arith, entry j, get-insert new k j w, k_eq.beq_iff k j),
            ),
          )
    ]
  ]

  -- Where the difference of two values that are not equal is read as the whole second value, and every
  -- value that is turned into a difference is read back, the difference of two maps with distinct keys,
  -- however their entries are ordered, succeeds and merges into the first to a map with the entries of
  -- the second.
  pub hash_map_merge-diff :
      (this other : HashMap K V)
      → HasDistinctKeys this
      → HasDistinctKeys other
      → (delta : Option (List (InnerValue K D))) × (hash_map_diff inner this other ≡ ok delta)
        × (merged : HashMap K V) × (hash_map_merge inner this delta ≡ ok merged)
        × ((j : K) → get merged j ≡ get other j)
  unfolding hash_map_diff hash_map_merge
  hash_map_merge-diff this other u u' =
      let (cs, c_found, (m1, c_merged, c_entry)) = changed-Makes this other this u (λ j h. h) in
      let (ads, a_found, (m2, a_merged, a_entry)) = added-Makes this other m1 u' in
      let (m3, r_merged, r_entry) = removed-Makes this other m2 u in
      (
        wrap (cs ++ (ads ++ removed inner this other)),
        rw (c_found, a_found) refl,
        m3,
        rw (flatten-wrap, merge_entries-append, c_merged)
            (rw (merge_entries-append, a_merged) r_merged),
        λ j. r_entry j ∙ rw (a_entry j, c_entry j) (after_all (get this j) (get other j)),
      )
