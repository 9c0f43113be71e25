-- ===== src/Core/OneOrSet/Laws.antt =====
-- `OneOrSet` behaves as the ordered set of its items, and is never empty.
use identity_rs.Core.OrderedSet
use identity_rs.Core.OrderedSet.{
  OrderedSet, Error, one_or_set_empty, ordered_set_duplicate, contains, from_iter, append_all,
  try_from, try_append_all,
}
use identity_rs.Core.OrderedSet.Laws.{IsUnique, append_list-IsUnique}
use identity_rs.Core.OrderedSet.Convert.{try_from_unique, try_from-IsUnique}
use identity_rs.Core.OneOrSet.{
  OneOrSet, one, set, one_or_set, new_set, len, get, into_vec, contains_key, append, try_from_vec,
  to_ordered_set,
}
use identity_rs.Prelude.{
  ℕ, zero, suc, ◌≡◌, ◌≢◌, ◌⊎◌, refl, false, List, [], ◌∷◌, HasEq, ◌==◌, length, get_elem?, ok, err,
  arith, beq_sym, Bool-cases, inl, inr,
}

module _ {T K : Type 0} ⦃e : HasEq K⦄ (key : T → K) where
  -- At least one item, and no two with one key.
  abbrev pub IsValid : OneOrSet T → Type 0
  IsValid (one item) = Unit
  IsValid (set []) = ⊥
  IsValid (set (item ∷ items)) = IsUnique key (item ∷ items)

  one_or_set-IsValid :
      (x : T) (xs : OrderedSet T) → IsUnique key (x ∷ xs) → IsValid (one_or_set (x ∷ xs))
  unfolding one_or_set
  one_or_set-IsValid x [] u = tt
  one_or_set-IsValid x (y ∷ xs) u = u

  pub into_vec-one_or_set : (xs : OrderedSet T) → into_vec (one_or_set xs) ≡ xs
  unfolding one_or_set into_vec
  into_vec-one_or_set [] = refl
  into_vec-one_or_set (x ∷ []) = refl
  into_vec-one_or_set (x ∷ y ∷ xs) = refl

  into_vec-append :
      (s : OneOrSet T) (item : T)
      → into_vec (append key s item).0 ≡ (OrderedSet.append key (into_vec s) item).0
  unfolding append into_vec OrderedSet.append append_all contains
  into_vec-append (one inner) item = ground arith
  into_vec-append (set inner) item = refl

  -- Read as the ordered set of its items, `append` is the set's `append`, with the same result, and
  -- `len`, `get`, `contains` and the conversion read that set.
  pub refines_ordered_set :
      (s : OneOrSet T) (item : T) (k : K) (i : ℕ)
      → (into_vec (append key s item).0 ≡ (OrderedSet.append key (into_vec s) item).0)
        × ((append key s item).1 ≡ (OrderedSet.append key (into_vec s) item).1)
        × (contains_key key s k ≡ contains key (into_vec s) k)
        × (len s ≡ length (into_vec s))
        × (get s i ≡ get_elem? (into_vec s) i)
        × (to_ordered_set key s ≡ into_vec s)
  unfolding append into_vec OrderedSet.append contains_key contains len get to_ordered_set
      append_all
  refines_ordered_set (one inner) item k zero =
      (into_vec-append (one inner) item, ground arith, ground arith, refl, refl, refl)
  refines_ordered_set (one inner) item k (suc i) =
      (into_vec-append (one inner) item, ground arith, ground arith, refl, ground arith, refl)
  refines_ordered_set (set inner) item k i = (refl, refl, refl, refl, refl, refl)

  from_iter_pair :
      (inner item : T)
      → (key inner == key item) ≡ false
      → from_iter key (inner ∷ item ∷ []) ≡ inner ∷ item ∷ []
  unfolding append_all OrderedSet.append contains
  from_iter_pair inner item differ = ground arith

  -- A valid value stays valid, whether or not the item is new.
  pub append-IsValid : (s : OneOrSet T) (item : T) → IsValid s → IsValid (append key s item).0
  unfolding append OrderedSet.append
  append-IsValid (one inner) item v = elim (Bool-cases (key inner == key item)) [
    | inl same ↦ rw same tt
    | inr differ ↦
        rw (differ, from_iter_pair inner item differ)
          (unfold contains in (ground (arith, beq_sym (key inner) (key item)), (refl, tt)))
  ]
  append-IsValid (set []) item v = absurd v
  append-IsValid (set (x ∷ xs)) item v = elim (Bool-cases (contains key (x ∷ xs) (key item))) [
    | inl old ↦ rw old v
    | inr new ↦ rw new (append_list-IsUnique key (x ∷ xs) item v new)
  ]

  pub try_from_vec_unique :
      (items : List T)
      → IsUnique key items
      → items ≢ []
      → (s : OneOrSet T) × (try_from_vec key items ≡ ok s) × IsValid s × (into_vec s ≡ items)
  unfolding try_from_vec new_set
  try_from_vec_unique [] u ne = absurd (ne refl)
  try_from_vec_unique (x ∷ xs) u ne = (
    one_or_set (x ∷ xs),
    rw (try_from_unique key (x ∷ xs) u) refl,
    one_or_set-IsValid x xs u,
    into_vec-one_or_set (x ∷ xs),
  )

  -- The conversion of a vector succeeds exactly when the vector is not empty and its keys are unique;
  -- the result is valid and has the items of the vector in their order. An empty vector and a vector
  -- with a key twice are refused, each with its own error.
  pub try_from_vec-IsValid :
      (items : List T)
      → ((s : OneOrSet T) × (try_from_vec key items ≡ ok s)
          × IsValid s
          × (into_vec s ≡ items)
          × IsUnique key items
          × (items ≢ []))
        ⊎ (((items ≡ []) × (try_from_vec key items ≡ err one_or_set_empty))
            ⊎ (¬ IsUnique key items × (try_from_vec key items ≡ err ordered_set_duplicate)))
  unfolding try_from_vec new_set try_append_all
  try_from_vec-IsValid [] = inr (inl (refl, refl))
  try_from_vec-IsValid (x ∷ xs) = elim (try_from-IsUnique key (x ∷ xs)) [
    | inl (unique, kept) ↦
        let nonempty : (x ∷ xs) ≢ [] = λ q. absurd (ground arith) in
        let (s, found, valid, same) = try_from_vec_unique (x ∷ xs) unique nonempty in
        inl (s, found, valid, same, unique, nonempty)
    | inr (twice, failed) ↦ inr (inr (twice, rw failed refl))
  ]
