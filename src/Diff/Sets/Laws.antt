-- ===== src/Diff/Sets/Laws.antt =====
-- `HashSet`: a difference merges to the new set.
use identity_rs.Diff.Interface.{Diff, Returns}
use identity_rs.Diff.Maps.{flatten}
use identity_rs.Diff.Sets.{
  InnerValue, add, remove, HashSet, contains, insert, remove_item, set_beq, difference,
  hash_set_diff, merge_values, hash_set_merge,
}
use identity_rs.Prelude.{
  suc, ◌≡◌, ◌∙◌, refl, ap, true, false, not, ◌&&◌, ◌||◌, Option, none, some, List, [], ◌∷◌, ◌++◌,
  HasEq, ◌==◌, ok, ◌>>=◌, arith, all, length, Bool-cases, inl, inr, Outcome-cases, any-append,
}

module _ {ℓ} {T : Type ℓ} ⦃e : HasEq T⦄ where
  contains-insert : (s : HashSet T) (x j : T) → contains (insert s x) j ≡ (contains s j || x == j)
  unfolding contains insert
  contains-insert s x j = elim (Bool-cases (contains s x)) [
    | inl old ↦ ground (arith, old, e.beq_iff x j)
    | inr new ↦ rw new (any-append (λ y. y == j) s (x ∷ []) ∙ ground arith)
  ]

  contains-remove_item :
      (s : HashSet T) (x j : T) → contains (remove_item s x) j ≡ (contains s j && not (x == j))
  unfolding contains remove_item
  contains-remove_item [] x j = refl
  contains-remove_item (y ∷ s) x j =
      ground (arith, contains-remove_item s x j, e.beq_iff y x, e.beq_iff y j, e.beq_iff x j)

  -- No item occurs twice.
  abbrev pub IsDistinct : HashSet T → Type ℓ
  IsDistinct [] = Unit
  IsDistinct (x ∷ s) = (contains s x ≡ false) × IsDistinct s

  remove_item_absent : (s : HashSet T) (x : T) → contains s x ≡ false → remove_item s x ≡ s
  unfolding contains remove_item
  remove_item_absent [] x h = refl
  remove_item_absent (y ∷ s) x h = ground (arith, remove_item_absent s x)

  remove_item-IsDistinct : (s : HashSet T) (x : T) → IsDistinct s → IsDistinct (remove_item s x)
  unfolding remove_item
  remove_item-IsDistinct [] x u = tt
  remove_item-IsDistinct (y ∷ s) x u = elim (Bool-cases (y == x)) [
    | inl same ↦ rw same (remove_item-IsDistinct s x u.1)
    | inr differ ↦
        rw differ (ground (arith, contains-remove_item s x y, u.0), remove_item-IsDistinct s x u.1)
  ]

  length-remove_item :
      (s : HashSet T) (x : T)
      → IsDistinct s
      → contains s x ≡ true
      → length s ≡ suc (length (remove_item s x))
  unfolding contains remove_item
  length-remove_item [] x u h = absurd (ground arith)
  length-remove_item (y ∷ s) x u h = elim (Bool-cases (y == x)) [
    | inl same ↦
        let eq : y ≡ x = (e.beq_iff y x).0 same in
        let kept : remove_item s x ≡ s = remove_item_absent s x (rw (← eq) u.0) in rw same (rw kept)
    | inr differ ↦ rw differ (ap suc (length-remove_item s x u.1 (ground arith)))
  ]

  all-remove_item :
      (s other : HashSet T) (x : T)
      → contains s x ≡ false
      → all (contains other) s ≡ true
      → all (contains (remove_item other x)) s ≡ true
  unfolding contains
  all-remove_item [] other x h a = refl
  all-remove_item (y ∷ s) other x h a = ground (
    arith,
    all-remove_item s other x,
    contains-remove_item other x y,
    e.beq_iff x y,
    e.beq_iff y x,
  )

  -- Sets of one size, of which one is in the other, have the same items.
  same_items :
      (s other : HashSet T)
      → IsDistinct s
      → IsDistinct other
      → length s ≡ length other
      → all (contains other) s ≡ true
      → (j : T) → contains s j ≡ contains other j
  unfolding contains
  same_items [] [] u u' len a j = refl
  same_items [] (y ∷ other) u u' len a j = absurd (omega arith)
  same_items (x ∷ s) other u u' len a j =
      let here : contains other x ≡ true = ground arith in
      let shorter = length-remove_item other x u' here in
      let rest =
        same_items s (remove_item other x) u.1 (remove_item-IsDistinct other x u') (omega arith)
          (all-remove_item s other x u.0 (ground arith)) j in
      ground (arith, rest, contains-remove_item other x j, e.beq_iff x j)

module _ {ℓ κ} {T : Type ℓ} {D : Type κ} ⦃e : HasEq T⦄ (inner : Diff T D)
    (returns : (a : T) → Returns inner a) where
  merge_values-append :
      (cs ds : List (InnerValue D)) (new : HashSet T)
      → merge_values inner new (cs ++ ds)
        ≡ (merge_values inner new cs >>= λ new'. merge_values inner new' ds)
  unfolding merge_values
  merge_values-append [] ds new = refl
  merge_values-append (add d ∷ cs) ds new = elim (Outcome-cases (inner.from_diff d)) [
    | inl (x, q) ↦ rw q (merge_values-append cs ds (insert new x))
    | inr (er, q) ↦ rw q
  ]
  merge_values-append (remove d ∷ cs) ds new = elim (Outcome-cases (inner.from_diff d)) [
    | inl (x, q) ↦ rw q (merge_values-append cs ds (remove_item new x))
    | inr (er, q) ↦ rw q
  ]

  adding :
      (this other new : HashSet T)
      → (cs : List (InnerValue D)) × (difference inner add this other ≡ ok cs)
        × (new' : HashSet T) × (merge_values inner new cs ≡ ok new')
        × ((j : T)
            → contains new' j ≡ (contains new j || (contains this j && not (contains other j))))
  unfolding difference merge_values contains
  adding [] other new = ([], refl, new, refl, λ j. ground arith)
  adding (x ∷ this) other new = elim (Bool-cases (contains other x)) [
    | inl old ↦
        let (cs, found, new', merged, items) = adding this other new in
        (cs, rw old found, new', merged, λ j. ground (arith, items j, e.beq_iff x j))
    | inr fresh ↦
        let (d, made, back) = returns x in
        let (cs, found, new', merged, items) = adding this other (insert new x) in
        (
          add d ∷ cs,
          rw (fresh, made, found) refl,
          new',
          rw back merged,
          λ j. ground (arith, items j, contains-insert new x j, e.beq_iff x j),
        )
  ]

  removing :
      (this other new : HashSet T)
      → (cs : List (InnerValue D)) × (difference inner remove this other ≡ ok cs)
        × (new' : HashSet T) × (merge_values inner new cs ≡ ok new')
        × ((j : T)
            → contains new' j ≡ (contains new j && not (contains this j && not (contains other j))))
  unfolding difference merge_values contains
  removing [] other new = ([], refl, new, refl, λ j. ground arith)
  removing (x ∷ this) other new = elim (Bool-cases (contains other x)) [
    | inl old ↦
        let (cs, found, new', merged, items) = removing this other new in
        (cs, rw old found, new', merged, λ j. ground (arith, items j, e.beq_iff x j))
    | inr fresh ↦
        let (d, made, back) = returns x in
        let (cs, found, new', merged, items) = removing this other (remove_item new x) in
        (
          remove d ∷ cs,
          rw (fresh, made, found) refl,
          new',
          rw back merged,
          λ j. ground (arith, items j, contains-remove_item new x j, e.beq_iff x j),
        )
  ]

  -- A difference of two sets, however their items are ordered, succeeds and merges into the first to
  -- a set with the items of the second.
  pub hash_set_merge-diff :
      (this other : HashSet T)
      → IsDistinct this
      → IsDistinct other
      → (delta : Option (List (InnerValue D))) × (hash_set_diff inner this other ≡ ok delta)
        × (merged : HashSet T) × (hash_set_merge inner this delta ≡ ok merged)
        × ((j : T) → contains merged j ≡ contains other j)
  unfolding hash_set_diff hash_set_merge set_beq flatten merge_values
  hash_set_merge-diff this other u u' = elim (Bool-cases (set_beq this other)) [
    | inl same ↦
        (none, rw same, this, refl, same_items this other u u' (ground arith) (ground arith))
    | inr differ ↦
        let (ads, a_found, m1, a_merged, a_items) = adding other this this in
        let (rms, r_found, m2, r_merged, r_items) = removing this other m1 in
        (
          some (ads ++ rms),
          rw (differ, a_found, r_found) refl,
          m2,
          rw (merge_values-append, a_merged) r_merged,
          λ j. ground (arith, r_items j, a_items j),
        )
  ]
