-- ===== src/Diff/Maps/Changes.antt =====
-- Entries of a `HashMap` after the merge of a list of changes.
use identity_rs.Diff.Interface.{Diff}
use identity_rs.Diff.Maps.{InnerValue, change, add, remove, merge_entries, merge_value}
use identity_rs.Prelude.{
  HashMap, get, insert, remove_key, ◌≡◌, refl, Option, List, [], ◌∷◌, ◌++◌, HasEq, ok, ◌>>=◌,
  Outcome-cases, inl, inr,
}

module _ {ℓ κ μ} {K : Type ℓ} {V : Type κ} {D : Type μ} ⦃k_eq : HasEq K⦄ ⦃v_eq : HasEq V⦄
    (inner : Diff V D) where
  -- The changes succeed on the map, and the entries of the result are as described.
  abbrev pub Makes : HashMap K V → List (InnerValue K D) → (K → Option V) → Type (ℓ ⊔ κ)
  Makes new changes entry =
      (new' : HashMap K V) × (merge_entries inner new changes ≡ ok new')
      × ((j : K) → get new' j ≡ entry j)

  pub merge_entries-append :
      (cs ds : List (InnerValue K D)) (new : HashMap K V)
      → merge_entries inner new (cs ++ ds)
        ≡ (merge_entries inner new cs >>= λ new'. merge_entries inner new' ds)
  unfolding merge_entries
  merge_entries-append [] ds new = refl
  merge_entries-append (add k d ∷ cs) ds new = elim (Outcome-cases (inner.from_diff d)) [
    | inl (x, q) ↦ rw q (merge_entries-append cs ds (insert new k x))
    | inr (er, q) ↦ rw q
  ]
  merge_entries-append (change k d ∷ cs) ds new =
      elim (Outcome-cases (merge_value inner new k d (get new k))) [
        | inl (x, q) ↦ rw q (merge_entries-append cs ds x)
        | inr (er, q) ↦ rw q
      ]
  merge_entries-append (remove k ∷ cs) ds new = merge_entries-append cs ds (remove_key new k)
