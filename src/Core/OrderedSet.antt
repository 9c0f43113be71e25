-- ===== src/Core/OrderedSet.antt =====
-- identity_core/src/common/ordered_set.rs: `OrderedSet<T>`, a newtype of `Vec<T>`. An item that is
-- compared by its key only (`U: KeyComparable<Key = T::Key>`) is given as that key.
pub mod Laws
pub mod Change
pub mod Convert
pub mod Reached
use identity_rs.Prelude.{
  ℕ, ◌+◌, ◌≡◌, Bool, true, false, not, ◌||◌, Option, none, some, List, [], ◌∷◌, ◌++◌, HasEq, ◌==◌,
  if◌then◌else◌, any, filter, position, take, drop, insert_at, Outcome, ok, err, ◌>>=◌,
}

pub data Error : Type 0 where
  ordered_set_duplicate : Error
  one_or_set_empty : Error

abbrev pub OrderedSet {ℓ} : Type ℓ → Type ℓ
OrderedSet T = List T

-- `change` with the test `f`, that has the updated value as its second argument
unfoldable pub change {ℓ} : {T : Type ℓ} → OrderedSet T → T → (T → T → Bool) → OrderedSet T × Bool
change set value f = elim (position (λ item. f item value) set) [
  | none ↦ (set, false)
  | some index ↦
      let keep = filter (λ item. not (f item value)) (drop index set) in
      (insert_at index value (take index set ++ keep), true)
]

module _ {ℓ} {T : Type ℓ} where
  unfoldable pub clear : OrderedSet T → OrderedSet T
  clear set = []

  -- What is written through `iter_mut_unchecked`, `head_mut` and `tail_mut`; keys are not compared.
  unfoldable pub write_each : OrderedSet T → (T → T) → OrderedSet T
  write_each [] f = []
  write_each (item ∷ items) f = f item ∷ write_each items f

  unfoldable pub write_head : OrderedSet T → (T → T) → OrderedSet T
  write_head [] f = []
  write_head (item ∷ items) f = f item ∷ items

  unfoldable pub write_tail : OrderedSet T → (T → T) → OrderedSet T
  write_tail [] f = []
  write_tail (item ∷ []) f = f item ∷ []
  write_tail (item ∷ next ∷ items) f = item ∷ write_tail (next ∷ items) f

module _ {ℓ} {T K : Type ℓ} ⦃e : HasEq K⦄ (key : T → K) where
  unfoldable pub contains : OrderedSet T → K → Bool
  contains set item = any (λ other. key other == item) set

  unfoldable pub append : OrderedSet T → T → OrderedSet T × Bool
  append set item = if contains set (key item) then (set, false) else (set ++ item ∷ [], true)

  unfoldable pub prepend : OrderedSet T → T → OrderedSet T × Bool
  prepend set item = if contains set (key item) then (set, false) else (item ∷ set, true)

  unfoldable pub replace : OrderedSet T → K → T → OrderedSet T × Bool
  replace set current update =
      change set update (λ item new. key item == current || key item == key new)

  unfoldable pub update : OrderedSet T → T → OrderedSet T × Bool
  update set new = change set new (λ item upd. key item == key upd)

  unfoldable pub remove : OrderedSet T → K → OrderedSet T × Bool
  remove set item =
      if contains set item
      then (filter (λ this. not (key this == item)) set, true)
      else (set, false)

  -- the loop of `FromIterator`
  unfoldable pub append_all : OrderedSet T → List T → OrderedSet T
  append_all this [] = this
  append_all this (item ∷ items) = append_all (append this item).0 items

  abbrev pub from_iter : List T → OrderedSet T
  from_iter items = append_all [] items

  -- the loop of `TryFrom<Vec<T>>`
  unfoldable pub try_append_all : OrderedSet T → List T → Outcome Error (OrderedSet T)
  try_append_all this [] = ok this
  try_append_all this (item ∷ items) =
      let (this', added) = append this item in
      let rest = try_append_all this' items in if added then rest else err ordered_set_duplicate

  abbrev pub try_from : List T → Outcome Error (OrderedSet T)
  try_from items = try_append_all [] items
