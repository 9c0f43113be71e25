-- ===== src/Core/OrderedSet/Laws.antt =====
-- Key uniqueness, and what `append`, `prepend` and `remove` do to membership.
use identity_rs.Core.OrderedSet.{OrderedSet, contains, append, prepend, remove}
use identity_rs.Prelude.{
  ◌≡◌, refl, Bool, false, not, ◌||◌, ◌&&◌, [], ◌∷◌, ◌++◌, HasEq, ◌==◌, beq_sym, arith, filter,
  Bool-cases, inl, inr,
}

module _ {ℓ} {T K : Type ℓ} ⦃e : HasEq K⦄ (key : T → K) where
  -- No two items have the same key.
  abbrev pub IsUnique : OrderedSet T → Type ℓ
  IsUnique [] = Unit
  IsUnique (item ∷ set) = (contains key set (key item) ≡ false) × IsUnique set

  pub contains-append_list :
      (k : K) (xs ys : OrderedSet T)
      → contains key (xs ++ ys) k ≡ (contains key xs k || contains key ys k)
  unfolding contains
  contains-append_list k [] ys = refl
  contains-append_list k (x ∷ xs) ys = ground (arith, contains-append_list k xs ys)

  pub append_list-IsUnique :
      (xs : OrderedSet T) (x : T)
      → IsUnique xs
      → contains key xs (key x) ≡ false
      → IsUnique (xs ++ x ∷ [])
  unfolding contains
  append_list-IsUnique [] x u h = (refl, tt)
  append_list-IsUnique (y ∷ xs) x u h = (
    ground (arith, contains-append_list (key y) xs (x ∷ []), beq_sym (key x) (key y)),
    append_list-IsUnique xs x u.1 (ground arith),
  )

  pub contains-filter_ne :
      (k j : K) (xs : OrderedSet T)
      → contains key (filter (λ this. not (key this == k)) xs) j
        ≡ (contains key xs j && not (j == k))
  unfolding contains
  contains-filter_ne k j [] = refl
  contains-filter_ne k j (x ∷ xs) =
      ground
        (arith, contains-filter_ne k j xs, e.beq_iff (key x) k, e.beq_iff (key x) j, e.beq_iff j k)

  pub contains-filter-false :
      (p : T → Bool) (j : K) (xs : OrderedSet T)
      → contains key xs j ≡ false
      → contains key (filter p xs) j ≡ false
  unfolding contains
  contains-filter-false p j [] h = refl
  contains-filter-false p j (x ∷ xs) h = ground (arith, contains-filter-false p j xs)

  pub filter-IsUnique : (p : T → Bool) (xs : OrderedSet T) → IsUnique xs → IsUnique (filter p xs)
  filter-IsUnique p [] u = tt
  filter-IsUnique p (x ∷ xs) u = elim (Bool-cases (p x)) [
    | inl kept ↦ rw kept (contains-filter-false p (key x) xs u.0, filter-IsUnique p xs u.1)
    | inr dropped ↦ rw dropped (filter-IsUnique p xs u.1)
  ]

  pub append-IsUnique : (xs : OrderedSet T) (x : T) → IsUnique xs → IsUnique (append key xs x).0
  unfolding append
  append-IsUnique xs x u = elim (Bool-cases (contains key xs (key x))) [
    | inl old ↦ rw old u
    | inr new ↦ rw new (append_list-IsUnique xs x u new)
  ]

  pub prepend-IsUnique : (xs : OrderedSet T) (x : T) → IsUnique xs → IsUnique (prepend key xs x).0
  unfolding prepend
  prepend-IsUnique xs x u = elim (Bool-cases (contains key xs (key x))) [
    | inl old ↦ rw old u
    | inr new ↦ rw new (new, u)
  ]

  pub remove-IsUnique : (xs : OrderedSet T) (k : K) → IsUnique xs → IsUnique (remove key xs k).0
  unfolding remove
  remove-IsUnique xs k u = elim (Bool-cases (contains key xs k)) [
    | inl old ↦ rw old (filter-IsUnique _ xs u)
    | inr new ↦ rw new u
  ]

  -- After `append` the item's key is present, and the presence of every other key is as before; the
  -- result says whether the key was absent.
  pub contains-append :
      (xs : OrderedSet T) (x : T) (k : K)
      → (contains key (append key xs x).0 k ≡ (contains key xs k || key x == k))
        × ((append key xs x).1 ≡ not (contains key xs (key x)))
  unfolding append contains
  contains-append xs x k = ground (arith, contains-append_list k xs (x ∷ []), e.beq_iff (key x) k)

  -- After `remove` the key is absent and the presence of every other key is as before; the result
  -- says whether the key was present.
  pub contains-remove :
      (xs : OrderedSet T) (k j : K)
      → (contains key (remove key xs k).0 j ≡ (contains key xs j && not (j == k)))
        × ((remove key xs k).1 ≡ contains key xs k)
  unfolding remove
  contains-remove xs k j = ground (arith, contains-filter_ne k j xs, e.beq_iff j k)
