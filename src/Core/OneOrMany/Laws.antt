-- ===== src/Core/OneOrMany/Laws.antt =====
-- A collection that holds one or many items is its list of items.
use identity_rs.Core.OneOrMany.{
  OneOrMany, one, many, into_vec, len, is_empty, get, push, from_vec, push_all, first, from_iter,
  contains,
}
use identity_rs.Prelude.{
  ℕ, zero, suc, ◌≡◌, ◌↔◌, ◌∙◌, refl, sym, true, Option, none, some, List, [], ◌∷◌, ◌++◌, HasEq,
  ◌==◌, length, get_elem?, any, arith,
}
use mathlib.Core.List.{append-nil, append_assoc}

module _ {ℓ} {T : Type ℓ} where
  pub into_vec-push :
      (this : OneOrMany T) (value : T) → into_vec (push this value) ≡ into_vec this ++ value ∷ []
  unfolding into_vec push
  into_vec-push (one inner) value = refl
  into_vec-push (many []) value = refl
  into_vec-push (many (item ∷ items)) value = refl

  into_vec-push_all :
      (this : OneOrMany T) (iter : List T) → into_vec (push_all this iter) ≡ into_vec this ++ iter
  unfolding push_all
  into_vec-push_all this [] = sym (append-nil _)
  into_vec-push_all this (next ∷ iter) =
      into_vec-push_all (push this next) iter
      ∙ rw (into_vec-push this next) (append_assoc (into_vec this) (next ∷ []) iter)

  pub into_vec-from_vec : (items : List T) → into_vec (from_vec items) ≡ items
  unfolding into_vec from_vec
  into_vec-from_vec [] = refl
  into_vec-from_vec (item ∷ []) = refl
  into_vec-from_vec (item ∷ item' ∷ items) = refl

  into_vec-first : (iter : List T) → into_vec (push_all (first iter).0 (first iter).1) ≡ iter
  unfolding first into_vec
  into_vec-first [] = into_vec-push_all (many []) []
  into_vec-first (next ∷ iter) = into_vec-push_all (one next) iter

  into_vec-from_iter : (hint : ℕ × Option ℕ) (iter : List T) → into_vec (from_iter hint iter) ≡ iter
  unfolding from_iter
  into_vec-from_iter (lower, none) iter = into_vec-from_vec iter
  into_vec-from_iter (lower, some upper) iter =
      ground (arith, into_vec-first iter, into_vec-from_vec iter)

  pub len-eq-length : (this : OneOrMany T) → len this ≡ length (into_vec this)
  unfolding len into_vec
  len-eq-length (one inner) = refl
  len-eq-length (many inner) = refl

  get-eq-get_elem? :
      (this : OneOrMany T) (index : ℕ) → get this index ≡ get_elem? (into_vec this) index
  unfolding get into_vec
  get-eq-get_elem? (one inner) zero = refl
  get-eq-get_elem? (one inner) (suc index) = ground arith
  get-eq-get_elem? (many inner) index = refl

  pub is_empty_iff : (this : OneOrMany T) → (is_empty this ≡ true) ↔ (into_vec this ≡ [])
  unfolding is_empty into_vec
  is_empty_iff (one inner) = ground arith
  is_empty_iff (many []) = ground arith
  is_empty_iff (many (item ∷ items)) = ground arith

module _ {ℓ} {T : Type ℓ} ⦃e : HasEq T⦄ where
  contains-eq-any :
      (this : OneOrMany T) (value : T)
      → contains this value ≡ any (λ item. item == value) (into_vec this)
  unfolding contains into_vec
  contains-eq-any (one inner) value = ground arith
  contains-eq-any (many inner) value = refl

  -- The operations are those of the list of the items: `push` adds at the end, the conversion from
  -- a vector and the collection of an iterator keep the items and their order, whatever the size
  -- hint of the iterator says, and `len`, `is_empty`, `get` and `contains` read the list.
  pub refines_list :
      (this : OneOrMany T) (value : T) (index : ℕ) (items : List T) (hint : ℕ × Option ℕ)
      → (into_vec (push this value) ≡ into_vec this ++ value ∷ [])
        × (into_vec (from_vec items) ≡ items)
        × (into_vec (from_iter hint items) ≡ items)
        × (len this ≡ length (into_vec this))
        × ((is_empty this ≡ true) ↔ (into_vec this ≡ []))
        × (get this index ≡ get_elem? (into_vec this) index)
        × (contains this value ≡ any (λ item. item == value) (into_vec this))
  refines_list this value index items hint = (
    into_vec-push this value,
    into_vec-from_vec items,
    into_vec-from_iter hint items,
    len-eq-length this,
    is_empty_iff this,
    get-eq-get_elem? this index,
    contains-eq-any this value,
  )
