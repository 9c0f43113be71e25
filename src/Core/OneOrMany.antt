-- ===== src/Core/OneOrMany.antt =====
-- identity_core/src/common/one_or_many.rs: one item, or a vector of any length.
pub mod Laws
use identity_rs.Prelude.{
  ℕ, zero, suc, ◌+◌, Bool, true, false, ◌||◌, ◌&&◌, Option, none, some, List, [], ◌∷◌, ◌++◌, HasEq,
  ◌==◌, if◌then◌else◌, length, get_elem?, any, nat_beq,
}

pub data OneOrMany {ℓ} (T : Type ℓ) : Type ℓ where
  one : T → OneOrMany T
  many : List T → OneOrMany T

module _ {ℓ} {T : Type ℓ} where
  -- `into_vec`, and the slices and iterators, which read the same items
  unfoldable pub into_vec : OneOrMany T → List T
  into_vec (one inner) = inner ∷ []
  into_vec (many inner) = inner

  unfoldable pub len : OneOrMany T → ℕ
  len (one _) = 1
  len (many inner) = length inner

  unfoldable pub is_empty : OneOrMany T → Bool
  is_empty (one _) = false
  is_empty (many []) = true
  is_empty (many (_ ∷ _)) = false

  unfoldable pub get : OneOrMany T → ℕ → Option T
  get (one inner) index = if nat_beq index 0 then some inner else none
  get (many inner) index = get_elem? inner index

  unfoldable pub push : OneOrMany T → T → OneOrMany T
  push (one inner) value = many (inner ∷ value ∷ [])
  push (many []) value = one value
  push (many (item ∷ items)) value = many (item ∷ items ++ value ∷ [])

  -- `From<Vec<T>>`
  unfoldable pub from_vec : List T → OneOrMany T
  from_vec (item ∷ []) = one item
  from_vec other = many other

  -- the rest of an iterator
  unfoldable pub push_all : OneOrMany T → List T → OneOrMany T
  push_all this [] = this
  push_all this (next ∷ iter) = push_all (push this next) iter

  -- `iter.next().map(Self::One).unwrap_or_else(|| Self::Many(Vec::new()))`, with what is left
  unfoldable pub first : List T → OneOrMany T × List T
  first [] = (many [], [])
  first (next ∷ iter) = (one next, iter)

  -- The first argument is the size hint; its upper bound may be missing, or wrong.
  unfoldable pub from_iter : ℕ × Option ℕ → List T → OneOrMany T
  from_iter (lower, none) iter = from_vec iter
  from_iter (lower, some upper) iter =
      -- `(1, Some(1)) >= size_hint`
      if nat_beq lower 0 || (nat_beq lower 1 && (nat_beq upper 0 || nat_beq upper 1))
      then (let (this, rest) = first iter in push_all this rest)
      else from_vec iter

module _ {ℓ} {T : Type ℓ} ⦃e : HasEq T⦄ where
  unfoldable pub contains : OneOrMany T → T → Bool
  contains (one inner) value = inner == value
  contains (many inner) value = any (λ item. item == value) inner
