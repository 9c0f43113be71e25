-- ===== src/Core/OrderedSet/Convert.antt =====
-- `TryFrom<Vec<T>>` and `FromIterator`.
use identity_rs.Core.OrderedSet.{
  OrderedSet, ordered_set_duplicate, contains, append, append_all, from_iter, try_append_all,
  try_from,
}
use identity_rs.Core.OrderedSet.Laws.{
  IsUnique, append_list-IsUnique, append-IsUnique, contains-append_list, contains-append,
}
use identity_rs.Prelude.{
  ◌≡◌, ◌⊎◌, ◌∙◌, subst, refl, false, ◌||◌, [], ◌∷◌, ◌++◌, HasEq, arith, List, ok, err, Bool-cases,
  inl, inr,
}
use mathlib.Core.List.{append-nil, append_assoc}

module _ {ℓ} {T K : Type ℓ} ⦃e : HasEq K⦄ (key : T → K) where
  append_all-IsUnique :
      (items : List T) (this : OrderedSet T)
      → IsUnique key this
      → IsUnique key (append_all key this items)
  unfolding append_all
  append_all-IsUnique [] this u = u
  append_all-IsUnique (x ∷ items) this u =
      append_all-IsUnique items (append key this x).0 (append-IsUnique key this x u)

  contains-append_all :
      (items : List T) (this : OrderedSet T) (k : K)
      → contains key (append_all key this items) k ≡ (contains key this k || contains key items k)
  unfolding append_all contains
  contains-append_all [] this k = ground arith
  contains-append_all (x ∷ items) this k =
      ground
        (arith, contains-append_all items (append key this x).0 k, (contains-append key this x k).0)

  -- Collecting an iterator gives unique keys, and exactly the keys of the items.
  pub from_iter_keys :
      (items : List T) (k : K)
      → IsUnique key (from_iter key items)
        × (contains key (from_iter key items) k ≡ contains key items k)
  unfolding contains
  from_iter_keys items k = (append_all-IsUnique items [] tt, contains-append_all items [] k)

  unique_append :
      (xs : OrderedSet T) (y : T) (ys : List T)
      → IsUnique key (xs ++ y ∷ ys)
      → contains key xs (key y) ≡ false
  unfolding contains
  unique_append [] y ys u = refl
  unique_append (x ∷ xs) y ys u = ground (
    arith,
    contains-append_list key (key x) xs (y ∷ ys),
    unique_append xs y ys,
    e.beq_iff (key x) (key y),
    e.beq_iff (key y) (key x),
  )

  append_all_unique :
      (items : List T) (this : OrderedSet T)
      → IsUnique key (this ++ items)
      → append_all key this items ≡ this ++ items
  unfolding append_all append
  append_all_unique [] this u = rw append-nil
  append_all_unique (x ∷ items) this u =
      let assoc = append_assoc this (x ∷ []) items in
      rw (unique_append this x items u)
        (rw (append_all_unique items (this ++ x ∷ []) (rw assoc u)) (rw assoc))

  -- A collected list whose keys are unique is kept as it is.
  pub from_iter_unique : (items : List T) → IsUnique key items → from_iter key items ≡ items
  from_iter_unique items = append_all_unique items []

  try_append_all_unique :
      (items : List T) (this : OrderedSet T)
      → IsUnique key (this ++ items)
      → try_append_all key this items ≡ ok (this ++ items)
  unfolding try_append_all append
  try_append_all_unique [] this u = rw append-nil
  try_append_all_unique (x ∷ items) this u =
      let assoc = append_assoc this (x ∷ []) items in
      rw (unique_append this x items u)
        (rw (try_append_all_unique items (this ++ x ∷ []) (rw assoc u)) (rw assoc))

  pub try_append_all_ok :
      (items : List T) (this result : OrderedSet T)
      → IsUnique key this
      → try_append_all key this items ≡ ok result
      → (result ≡ this ++ items) × IsUnique key result
  unfolding try_append_all append
  try_append_all_ok [] this result u h =
      let same : this ≡ result = ground arith in
      (rw append-nil (ground arith), subst (λ s. IsUnique key s) same u)
  try_append_all_ok (x ∷ items) this result u h = elim (Bool-cases (contains key this (key x))) [
    | inl dup ↦ absurd (ground arith)
    | inr new ↦
        let (same, unique) =
          try_append_all_ok items (this ++ x ∷ []) result (append_list-IsUnique key this x u new)
            (ground arith) in
        (same ∙ append_assoc this (x ∷ []) items, unique)
  ]

  try_append_all-cases :
      (items : List T) (this : OrderedSet T)
      → (try_append_all key this items ≡ err ordered_set_duplicate)
        ⊎ ((result : OrderedSet T) × (try_append_all key this items ≡ ok result))
  unfolding try_append_all append
  try_append_all-cases [] this = inr (this, refl)
  try_append_all-cases (x ∷ items) this = elim (Bool-cases (contains key this (key x))) [
    | inl dup ↦ rw dup (inl refl)
    | inr new ↦ rw new (try_append_all-cases items (this ++ x ∷ []))
  ]

  pub try_from_unique : (items : List T) → IsUnique key items → try_from key items ≡ ok items
  try_from_unique items = try_append_all_unique items []

  -- `try_from` keeps the items as they are exactly when no two have the same key, and is otherwise
  -- the error for duplicates.
  pub try_from-IsUnique :
      (items : List T)
      → (IsUnique key items × (try_from key items ≡ ok items))
        ⊎ (¬ IsUnique key items × (try_from key items ≡ err ordered_set_duplicate))
  try_from-IsUnique items = elim (try_append_all-cases items []) [
    | inl failed ↦
        inr (λ unique. let kept = try_from_unique items unique in absurd (ground arith), failed)
    | inr (result, found) ↦
        let (same, unique) = try_append_all_ok items [] result tt found in
        let unique' = subst (λ s. IsUnique key s) same unique in
        inl (unique', try_from_unique items unique')
  ]
