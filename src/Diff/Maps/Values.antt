-- ===== src/Diff/Maps/Values.antt =====
-- `HashMap`: a whole map as a difference, and a value whose differences are partial.
use identity_rs.Diff.Interface.{same_as_eq, Diff, Carries, Returns}
use identity_rs.Diff.Maps
use identity_rs.Diff.Maps.{
  InnerValue, add, changed, changed_round, added, added_round, removed, removed_round,
  merge_entries, merge_value, hash_map_diff, hash_map_merge, from_entries, hash_map_from_diff,
  into_entries, hash_map_into_diff, wrap, flatten,
}
use identity_rs.Diff.Maps.Laws.{flatten-wrap}
use identity_rs.Diff.Vecs
use identity_rs.Diff.Vecs.{vec, vec_diff, diff_loop, diff_step, vec_from_diff, from_changes}
use identity_rs.Prelude.{
  HashMap, get, insert, get-insert, HasDistinctKeys, ◌≡◌, refl, false, Option, none, some, List, [],
  ◌∷◌, HasEq, ◌==◌, ok, arith, beq_refl, list_eq,
}

abbrev or_else {ℓ} : {V : Type ℓ} → Option V → Option V → Option V
or_else (some v) w = some v
or_else none w = w

module _ {ℓ κ μ} {K : Type ℓ} {V : Type κ} {D : Type μ} ⦃k_eq : HasEq K⦄ ⦃v_eq : HasEq V⦄
    (inner : Diff V D) where
  returning :
      (m map : HashMap K V)
      → ((a : V) → Returns inner a)
      → HasDistinctKeys m
      → (cs : List (InnerValue K D)) × (into_entries inner m ≡ ok cs)
        × (map' : HashMap K V) × (from_entries inner map cs ≡ ok map')
        × ((j : K) → get map' j ≡ or_else (get m j) (get map j))
  unfolding into_entries from_entries get
  returning [] map returns u = ([], refl, map, refl, λ j. refl)
  returning ((k, v) ∷ m) map returns u =
      let (d, made, back) = returns v in
      let (cs, found, map', read, entry) = returning m (insert map k v) returns u.1 in
      (
        add k d ∷ cs,
        rw (made, found) refl,
        map',
        rw back read,
        λ j. ground (arith, entry j, get-insert map k j v, k_eq.beq_iff k j),
      )

  -- A map whose values survive the way into a difference and back is turned into a difference, which
  -- is read back as a map with the same entries.
  pub hash_map_from_diff-into_diff :
      (m : HashMap K V)
      → ((a : V) → Returns inner a)
      → HasDistinctKeys m
      → (delta : Option (List (InnerValue K D))) × (hash_map_into_diff inner m ≡ ok delta)
        × (map' : HashMap K V) × (hash_map_from_diff inner delta ≡ ok map')
        × ((j : K) → get map' j ≡ get m j)
  unfolding hash_map_into_diff hash_map_from_diff get
  hash_map_from_diff-into_diff m returns u =
      let (cs, found, map', read, entry) = returning m [] returns u in
      (wrap cs, rw found refl, map', rw flatten-wrap read, λ j. ground (arith, entry j))

module _ {ℓ κ μ} {K : Type ℓ} {T : Type κ} {D : Type μ} ⦃k_eq : HasEq K⦄ ⦃t_eq : HasEq T⦄
    (item : Diff T D) where
  -- In a map of vectors, a vector of two items of which only the second changes is replaced by the
  -- vector of the new second item alone: the difference of the two maps does not merge to the second.
  pub hash_map_merge_partial :
      (k : K) (p x y : T)
      → (x == y) ≡ false
      → Carries item x y
      → (delta : Option (List (InnerValue K (List (Vecs.InnerVec D))))) × (hash_map_diff
            (vec item)
            ((k, p ∷ x ∷ []) ∷ [])
            ((k, p ∷ y ∷ []) ∷ [])
          ≡ ok delta)
        × (hash_map_merge (vec item) ((k, p ∷ x ∷ []) ∷ []) delta ≡ ok ((k, y ∷ []) ∷ []))
  unfolding hash_map_diff hash_map_merge changed changed_round added added_round removed
      removed_round merge_entries merge_value get insert wrap flatten vec_diff diff_loop diff_step
      vec_from_diff from_changes
  hash_map_merge_partial k p x y differ (d, made, back) = (
    some (Maps.change k (Vecs.change 1 d ∷ []) ∷ []),
    rw (beq_refl k, beq_refl p, differ, made) refl,
    rw (beq_refl k, back) (rw (beq_refl k)),
  )
