-- ===== src/Chain/Index.antt =====
-- identity_iota_client/src/tangle/message/message_index.rs. A message id is the number that its 32
-- bytes write, which has their order; the null id is zero.
pub mod Order
pub mod Sorted
use identity_rs.Prelude.{
  ℕ, zero, suc, ◌+◌, Bool, Option, none, some, List, [], ◌∷◌, if◌then◌else◌, length, position,
  insert_at, get_elem?, map, ltb, HashMap, get, insert, remove_key, nat_eq,
}

abbrev pub MessageId : Type 0
MessageId = ℕ

abbrev pub null : MessageId
null = 0

abbrev pub MessageIndex : Type 0 → Type 0
MessageIndex T = HashMap MessageId (List T)

-- The two ids of the trait `TangleRef`.
pub record TangleRef (T : Type 0) : Type 0 where
  pub message_id : T → MessageId
  pub previous_message_id : T → MessageId

module _ {T : Type 0} where
  unfoldable pub new : MessageIndex T
  new = []

  unfoldable pub size : MessageIndex T → ℕ
  size [] = 0
  size ((key, list) ∷ index) = length list + size index

  -- `Vec::remove`
  abbrev pub remove_at : List T → ℕ → List T
  remove_at [] index = []
  remove_at (x ∷ xs) zero = xs
  remove_at (x ∷ xs) (suc index) = x ∷ remove_at xs index

  -- the arm `Some(list)` of `remove_where`: the element at the index, and the list without it
  unfoldable pub take_at : List T → Option ℕ → List T × Option T
  take_at list none = (list, none)
  take_at list (some index) = (remove_at list index, get_elem? list index)

  unfoldable pub remove_where : MessageIndex T → MessageId → (T → Bool) → MessageIndex T × Option T
  remove_where index key f = elim (get index key) [
    | none ↦ (index, none)
    | some list ↦
        let (list', found) = take_at list (position f list) in (insert index key list', found)
  ]

  unfoldable pub drain_keys : MessageIndex T → MessageIndex T × List MessageId
  drain_keys index = ([], map (λ entry. entry.0) index)

module _ {T : Type 0} (tangle : TangleRef T) where
  -- `binary_search_by` of a list that is sorted by message id, as its result or its error: where the
  -- first element stands that is not below the id
  unfoldable pub search : List T → MessageId → ℕ
  search [] message_id = 0
  search (elem ∷ scope) message_id =
      if ltb (tangle.message_id elem) message_id then suc (search scope message_id) else 0

  -- `scope.insert(index, element)` at the index that the search gives
  unfoldable pub insert_sorted : List T → T → List T
  insert_sorted scope element = insert_at (search scope (tangle.message_id element)) element scope

  unfoldable pub insert_message : MessageIndex T → T → MessageIndex T
  insert_message index element = elim (get index (tangle.previous_message_id element)) [
    | some scope ↦ insert index (tangle.previous_message_id element) (insert_sorted scope element)
    | none ↦ insert index (tangle.previous_message_id element) (element ∷ [])
  ]

  unfoldable pub extend : MessageIndex T → List T → MessageIndex T
  extend index [] = index
  extend index (element ∷ iter) = extend (insert_message index element) iter

  unfoldable pub from_iter : List T → MessageIndex T
  from_iter iter = extend new iter
