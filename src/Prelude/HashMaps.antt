-- ===== src/Prelude/HashMaps.antt =====
-- `HashMap` of the standard library: the list of its entries in the order in which it is iterated,
-- which Rust leaves open.
use Prim.Native.Nat.{◌<◌, ◌≤◌}
use mathlib.Core.Path.{◌≡◌, refl}
use mathlib.Core.List.{List, [], ◌∷◌}
use mathlib.Core.Option.{Option, none, some}
use native.Mathlib.Omega.{arith}
use identity_rs.Prelude.Tests.{if◌then◌else◌}
use identity_rs.Prelude.Lists.{length}
use identity_rs.Prelude.Eq.{HasEq, ◌==◌}

abbrev pub HashMap {ℓ κ} : Type ℓ → Type κ → Type (ℓ ⊔ κ)
HashMap K V = List (K × V)

module _ {ℓ κ} {K : Type ℓ} {V : Type κ} ⦃k_eq : HasEq K⦄ where
  unfoldable pub get : HashMap K V → K → Option V
  get [] key = none
  get ((k, v) ∷ entries) key = if k == key then some v else get entries key

  unfoldable pub insert : HashMap K V → K → V → HashMap K V
  insert [] key val = (key, val) ∷ []
  insert ((k, v) ∷ entries) key val =
      if k == key then (key, val) ∷ entries else (k, v) ∷ insert entries key val

  unfoldable pub remove_key : HashMap K V → K → HashMap K V
  remove_key [] key = []
  remove_key ((k, v) ∷ entries) key =
      if k == key then remove_key entries key else (k, v) ∷ remove_key entries key

module _ {ℓ κ} {K : Type ℓ} {V : Type κ} ⦃e : HasEq K⦄ where
  pub get-insert :
      (m : HashMap K V) (k j : K) (v : V)
      → get (insert m k v) j ≡ (if k == j then some v else get m j)
  unfolding get insert
  get-insert [] k j v = refl
  get-insert ((key, val) ∷ m) k j v =
      ground (arith, get-insert m k j v, e.beq_iff key k, e.beq_iff key j, e.beq_iff k j)

  pub get-remove_key :
      (m : HashMap K V) (k j : K) → get (remove_key m k) j ≡ (if k == j then none else get m j)
  unfolding get remove_key
  get-remove_key [] k j = ground arith
  get-remove_key ((key, val) ∷ m) k j =
      ground (arith, get-remove_key m k j, e.beq_iff key k, e.beq_iff key j, e.beq_iff k j)

  -- No two entries have the same key.
  abbrev pub HasDistinctKeys : HashMap K V → Type (ℓ ⊔ κ)
  HasDistinctKeys [] = Unit
  HasDistinctKeys ((k, v) ∷ m) = (get m k ≡ none) × HasDistinctKeys m

module _ {ℓ κ} {K : Type ℓ} {V : Type κ} ⦃e : HasEq K⦄ where
  pub length-remove_key_le : (m : HashMap K V) (k : K) → length (remove_key m k) ≤ length m
  unfolding remove_key
  length-remove_key_le [] k = omega arith
  length-remove_key_le ((key, val) ∷ m) k = ground (arith, length-remove_key_le m k)

  -- The removal of a key that is there makes the map smaller.
  pub length-remove_key :
      (m : HashMap K V) (k : K) (v : V) → get m k ≡ some v → length (remove_key m k) < length m
  unfolding remove_key get
  length-remove_key [] k v h = absurd (ground arith)
  length-remove_key ((key, val) ∷ m) k v h =
      ground (arith, length-remove_key m k v, length-remove_key_le m k)
