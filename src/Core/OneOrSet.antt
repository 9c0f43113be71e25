-- ===== src/Core/OneOrSet.antt =====
-- identity_core/src/common/one_or_set.rs: one item, or a set of unique items that is not empty.
pub mod Laws
use identity_rs.Core.OrderedSet
use identity_rs.Core.OrderedSet.{OrderedSet, Error, one_or_set_empty, contains, from_iter, try_from}
use identity_rs.Prelude.{
  ℕ, zero, suc, ◌≡◌, Bool, true, false, Option, none, some, List, [], ◌∷◌, HasEq, ◌==◌,
  if◌then◌else◌, length, get_elem?, get_last?, map, Outcome, ok, err, ◌>>=◌, traverse, nat_beq,
}

pub data OneOrSet {ℓ} (T : Type ℓ) : Type ℓ where
  one : T → OneOrSet T
  set : OrderedSet T → OneOrSet T

module _ {ℓ} {T : Type ℓ} where
  unfoldable pub new_one : T → OneOrSet T
  new_one item = one item

  -- `set.into_vec().pop()` where the set has one item, else the set
  unfoldable pub one_or_set : OrderedSet T → OneOrSet T
  one_or_set (item ∷ []) = one item
  one_or_set items = set items

  unfoldable pub new_set : OrderedSet T → Outcome Error (OneOrSet T)
  new_set [] = err one_or_set_empty
  new_set (item ∷ items) = ok (one_or_set (item ∷ items))

  unfoldable pub len : OneOrSet T → ℕ
  len (one item) = 1
  len (set inner) = length inner

  unfoldable pub get : OneOrSet T → ℕ → Option T
  get (one inner) index = if nat_beq index 0 then some inner else none
  get (set inner) index = get_elem? inner index

  unfoldable pub into_vec : OneOrSet T → List T
  into_vec (one inner) = inner ∷ []
  into_vec (set inner) = inner

module _ {ℓ} {T K : Type ℓ} ⦃e : HasEq K⦄ (key : T → K) where
  unfoldable pub contains_key : OneOrSet T → K → Bool
  contains_key (one inner) item = key inner == item
  contains_key (set inner) item = contains key inner item

  unfoldable pub append : OneOrSet T → T → OneOrSet T × Bool
  append (one inner) item =
      if key inner == key item
      then (one inner, false)
      else (set (from_iter key (inner ∷ item ∷ [])), true)
  append (set inner) item =
      let (inner', added) = OrderedSet.append key inner item in (set inner', added)

  -- `TryFrom<Vec<T>>`
  unfoldable pub try_from_vec : List T → Outcome Error (OneOrSet T)
  try_from_vec other = try_from key other >>= new_set

  -- `From<OneOrSet<T>> for OrderedSet<T>`
  unfoldable pub to_ordered_set : OneOrSet T → OrderedSet T
  to_ordered_set (one item) = from_iter key (item ∷ [])
  to_ordered_set (set inner) = inner

-- The keys of the new items may differ from those of the old ones.
module _ {ℓ} {T S K : Type ℓ} ⦃e : HasEq K⦄ (key : S → K) where
  unfoldable pub map_items : OneOrSet T → (T → S) → OneOrSet S
  map_items (one item) f = one (f item)
  map_items (set items) f = one_or_set (from_iter key (map f items))

  unfoldable pub try_map_items :
      {E : Type 0} → OneOrSet T → (T → Outcome E S) → Outcome E (OneOrSet S)
  try_map_items (one item) f = f item >>= λ s. ok (one s)
  try_map_items (set items) f = traverse f items >>= λ ss. ok (one_or_set (from_iter key ss))
