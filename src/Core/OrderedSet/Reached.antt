-- ===== src/Core/OrderedSet/Reached.antt =====
-- The sets that the public operations of `OrderedSet` build.
use identity_rs.Core.OrderedSet
use identity_rs.Core.OrderedSet.Laws.{IsUnique, append-IsUnique, prepend-IsUnique, remove-IsUnique}
use identity_rs.Core.OrderedSet.Change.{replace-IsUnique, update-IsUnique}
use identity_rs.Core.OrderedSet.Convert.{from_iter_keys}
use identity_rs.Prelude.{◌≡◌, refl, List, [], ◌∷◌, HasEq, ok}
use identity_rs.Core.OrderedSet.Convert.{try_append_all_ok}

module _ {ℓ} {T K : Type ℓ} ⦃e : HasEq K⦄ (key : T → K) where
  pub data Reached : OrderedSet.OrderedSet T → Type ℓ where
    new : Reached []
    collected : (items : List T) → Reached (OrderedSet.from_iter key items)
    converted :
        (items : List T) (set : OrderedSet.OrderedSet T)
        → OrderedSet.try_from key items ≡ ok set
        → Reached set
    appended :
        (set : OrderedSet.OrderedSet T) (item : T)
        → Reached set
        → Reached (OrderedSet.append key set item).0
    prepended :
        (set : OrderedSet.OrderedSet T) (item : T)
        → Reached set
        → Reached (OrderedSet.prepend key set item).0
    replaced :
        (set : OrderedSet.OrderedSet T) (current : K) (item : T)
        → Reached set
        → Reached (OrderedSet.replace key set current item).0
    updated :
        (set : OrderedSet.OrderedSet T) (item : T)
        → Reached set
        → Reached (OrderedSet.update key set item).0
    removed :
        (set : OrderedSet.OrderedSet T) (k : K)
        → Reached set
        → Reached (OrderedSet.remove key set k).0
    cleared : (set : OrderedSet.OrderedSet T) → Reached set → Reached (OrderedSet.clear set)
    -- what is written through a reference keeps the keys
    written :
        (set : OrderedSet.OrderedSet T) (f : T → T)
        → ((item : T) → key (f item) ≡ key item)
        → Reached set
        → Reached (OrderedSet.write_each set f)

  contains-write_each :
      (set : OrderedSet.OrderedSet T) (f : T → T) (k : K)
      → ((item : T) → key (f item) ≡ key item)
      → OrderedSet.contains key (OrderedSet.write_each set f) k ≡ OrderedSet.contains key set k
  unfolding OrderedSet.contains OrderedSet.write_each
  contains-write_each [] f k keeps = refl
  contains-write_each (item ∷ items) f k keeps =
      rw (keeps item, contains-write_each items f k keeps) refl

  write_each-IsUnique :
      (set : OrderedSet.OrderedSet T) (f : T → T)
      → ((item : T) → key (f item) ≡ key item)
      → IsUnique key set
      → IsUnique key (OrderedSet.write_each set f)
  unfolding OrderedSet.write_each
  write_each-IsUnique [] f keeps u = tt
  write_each-IsUnique (item ∷ items) f keeps u = (
    rw (keeps item, contains-write_each items f (key item) keeps) u.0,
    write_each-IsUnique items f keeps u.1,
  )

  -- No sequence of the operations that append, prepend, replace, update, remove and clear, and of writes
  -- to all items that keep their keys, builds a set in which two items have the same key, when it
  -- starts from an empty set, a collected iterator or a converted vector.
  pub Reached-IsUnique : (set : OrderedSet.OrderedSet T) → Reached set → IsUnique key set
  unfolding OrderedSet.append_all OrderedSet.clear
  Reached-IsUnique _ new = tt
  Reached-IsUnique _ (collected []) = tt
  Reached-IsUnique _ (collected (item ∷ items)) = (from_iter_keys key (item ∷ items) (key item)).0
  Reached-IsUnique _ (converted items set found) = (try_append_all_ok key items [] set tt found).1
  Reached-IsUnique _ (appended set item r) = append-IsUnique key set item (Reached-IsUnique set r)
  Reached-IsUnique _ (prepended set item r) = prepend-IsUnique key set item (Reached-IsUnique set r)
  Reached-IsUnique _ (replaced set current item r) =
      replace-IsUnique key set current item (Reached-IsUnique set r)
  Reached-IsUnique _ (updated set item r) = update-IsUnique key set item (Reached-IsUnique set r)
  Reached-IsUnique _ (removed set k r) = remove-IsUnique key set k (Reached-IsUnique set r)
  Reached-IsUnique _ (cleared set r) = tt
  Reached-IsUnique _ (written set f keeps r) =
      write_each-IsUnique set f keeps (Reached-IsUnique set r)
