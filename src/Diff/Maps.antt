-- ===== src/Diff/Maps.antt =====
-- identity_diff/src/hashmap.rs. A `HashMap` is the list of its entries in the order in which it is
-- iterated, which Rust leaves open: what is proved holds for each such order.
pub mod Changes
pub mod Laws
pub mod Values
use identity_rs.Diff.Interface.{Res, Diff, panic}
use identity_rs.Prelude.{
  HashMap, get, insert, remove_key, Bool, Option, none, some, List, [], ◌∷◌, ◌++◌, HasEq, ◌==◌, ok,
  err, ◌>>=◌, if◌then◌else◌,
}

pub data InnerValue {ℓ κ} (K : Type ℓ) (D : Type κ) : Type (ℓ ⊔ κ) where
  change : K → D → InnerValue K D
  add : K → D → InnerValue K D
  remove : K → InnerValue K D

abbrev pub DiffHashMap {ℓ κ} : Type ℓ → Type κ → Type (ℓ ⊔ κ)
DiffHashMap K D = Option (List (InnerValue K D))

-- `DiffHashMap(if changes.is_empty() { None } else { Some(changes) })`
unfoldable pub wrap {ℓ} : {A : Type ℓ} → List A → Option (List A)
wrap [] = none
wrap (c ∷ cs) = some (c ∷ cs)

-- `diff.0.into_iter().flatten()`
unfoldable pub flatten {ℓ} : {A : Type ℓ} → Option (List A) → List A
flatten none = []
flatten (some cs) = cs

module _ {ℓ κ μ} {K : Type ℓ} {V : Type κ} {D : Type μ} ⦃k_eq : HasEq K⦄ ⦃v_eq : HasEq V⦄
    (inner : Diff V D) where
  -- one round of the loop over `changed_keys`: `new` is `other[key]`, if it has the key
  unfoldable pub changed_round :
      K → V → Option V → Res (List (InnerValue K D)) → Res (List (InnerValue K D))
  changed_round key old none rest = rest
  changed_round key old (some new) rest =
      if old == new
      then rest
      else inner.diff old new >>= λ value. rest >>= λ changes. ok (change key value ∷ changes)

  unfoldable pub changed : HashMap K V → HashMap K V → Res (List (InnerValue K D))
  changed [] other = ok []
  changed ((key, old) ∷ this) other = changed_round key old (get other key) (changed this other)

  -- the loop over `added_keys`
  unfoldable pub added_round :
      K → V → Option V → Res (List (InnerValue K D)) → Res (List (InnerValue K D))
  added_round key new (some old) rest = rest
  added_round key new none rest =
      inner.into_diff new >>= λ value. rest >>= λ changes. ok (add key value ∷ changes)

  unfoldable pub added : HashMap K V → HashMap K V → Res (List (InnerValue K D))
  added this [] = ok []
  added this ((key, new) ∷ other) = added_round key new (get this key) (added this other)

  -- the loop over `removed_keys`
  unfoldable pub removed_round : K → Option V → List (InnerValue K D) → List (InnerValue K D)
  removed_round key (some new) rest = rest
  removed_round key none rest = remove key ∷ rest

  unfoldable pub removed : HashMap K V → HashMap K V → List (InnerValue K D)
  removed [] other = []
  removed ((key, old) ∷ this) other = removed_round key (get other key) (removed this other)

  unfoldable pub hash_map_diff : HashMap K V → HashMap K V → Res (DiffHashMap K D)
  hash_map_diff this other = changed this other >>= λ changes.
      added this other >>= λ additions. ok (wrap (changes ++ (additions ++ removed this other)))

  -- the arm `InnerValue::Change` of the loop in `merge`
  unfoldable pub merge_value : HashMap K V → K → D → Option V → Res (HashMap K V)
  merge_value new key value none = err panic
  merge_value new key value (some fake) = inner.from_diff value >>= λ v. ok (insert new key v)

  -- the loop of `merge`
  unfoldable pub merge_entries : HashMap K V → List (InnerValue K D) → Res (HashMap K V)
  merge_entries new [] = ok new
  merge_entries new (change key value ∷ changes) =
      merge_value new key value (get new key) >>= λ new'. merge_entries new' changes
  merge_entries new (add key value ∷ changes) =
      inner.from_diff value >>= λ v. merge_entries (insert new key v) changes
  merge_entries new (remove key ∷ changes) = merge_entries (remove_key new key) changes

  unfoldable pub hash_map_merge : HashMap K V → DiffHashMap K D → Res (HashMap K V)
  hash_map_merge this diff = merge_entries this (flatten diff)

  -- the loop of `from_diff`
  unfoldable pub from_entries : HashMap K V → List (InnerValue K D) → Res (HashMap K V)
  from_entries map [] = ok map
  from_entries map (add key value ∷ changes) =
      inner.from_diff value >>= λ v. from_entries (insert map key v) changes
  from_entries map (change key value ∷ changes) = err panic
  from_entries map (remove key ∷ changes) = err panic

  unfoldable pub hash_map_from_diff : DiffHashMap K D → Res (HashMap K V)
  hash_map_from_diff diff = from_entries [] (flatten diff)

  -- the loop of `into_diff`
  unfoldable pub into_entries : HashMap K V → Res (List (InnerValue K D))
  into_entries [] = ok []
  into_entries ((key, val) ∷ entries) = inner.into_diff val >>= λ value.
      into_entries entries >>= λ changes. ok (add key value ∷ changes)

  unfoldable pub hash_map_into_diff : HashMap K V → Res (DiffHashMap K D)
  hash_map_into_diff map = into_entries map >>= λ changes. ok (wrap changes)
