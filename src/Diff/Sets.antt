-- ===== src/Diff/Sets.antt =====
-- identity_diff/src/hashset.rs. A `HashSet` is the list of its items in the order in which it is
-- iterated, which Rust leaves open: what is proved holds for each such order.
pub mod Laws
use identity_rs.Diff.Interface.{Res, Diff}
use identity_rs.Diff.Maps.{flatten}
use identity_rs.Prelude.{
  Bool, not, ◌&&◌, Option, none, some, List, [], ◌∷◌, ◌++◌, HasEq, ◌==◌, ok, ◌>>=◌, if◌then◌else◌,
  any, all, filter, length, nat_beq,
}

pub data InnerValue {ℓ} (D : Type ℓ) : Type ℓ where
  add : D → InnerValue D
  remove : D → InnerValue D

abbrev pub HashSet {ℓ} : Type ℓ → Type ℓ
HashSet T = List T

module _ {ℓ} {T : Type ℓ} ⦃e : HasEq T⦄ where
  unfoldable pub contains : HashSet T → T → Bool
  contains set item = any (λ x. x == item) set

  unfoldable pub insert : HashSet T → T → HashSet T
  insert set item = if contains set item then set else set ++ item ∷ []

  unfoldable pub remove_item : HashSet T → T → HashSet T
  remove_item set item = filter (λ x. not (x == item)) set

  -- `PartialEq` of the standard library
  unfoldable pub set_beq : HashSet T → HashSet T → Bool
  set_beq this other = nat_beq (length this) (length other) && all (contains other) this

module _ {ℓ κ} {T : Type ℓ} {D : Type κ} ⦃e : HasEq T⦄ (inner : Diff T D) where
  -- the loops of `diff`: the items of the first set that the second lacks, as changes
  unfoldable pub difference : (D → InnerValue D) → HashSet T → HashSet T → Res (List (InnerValue D))
  difference wrap [] other = ok []
  difference wrap (item ∷ this) other =
      let rest = difference wrap this other in
      if contains other item
      then rest
      else inner.into_diff item >>= λ d. rest >>= λ changes. ok (wrap d ∷ changes)

  unfoldable pub hash_set_diff : HashSet T → HashSet T → Res (Option (List (InnerValue D)))
  hash_set_diff this other =
      if set_beq this other
      then ok none
      else difference add other this >>= λ added.
          difference remove this other >>= λ removed. ok (some (added ++ removed))

  -- the loops of `merge` and `from_diff`
  unfoldable pub merge_values : HashSet T → List (InnerValue D) → Res (HashSet T)
  merge_values new [] = ok new
  merge_values new (add val ∷ diffs) =
      inner.from_diff val >>= λ x. merge_values (insert new x) diffs
  merge_values new (remove val ∷ diffs) =
      inner.from_diff val >>= λ x. merge_values (remove_item new x) diffs

  unfoldable pub hash_set_merge : HashSet T → Option (List (InnerValue D)) → Res (HashSet T)
  hash_set_merge this diff = merge_values this (flatten diff)

  unfoldable pub hash_set_from_diff : Option (List (InnerValue D)) → Res (HashSet T)
  hash_set_from_diff diff = merge_values [] (flatten diff)

  -- the loop of `into_diff`
  unfoldable pub into_values : HashSet T → Res (List (InnerValue D))
  into_values [] = ok []
  into_values (val ∷ set) =
      inner.into_diff val >>= λ d. into_values set >>= λ diffs. ok (add d ∷ diffs)

  unfoldable pub hash_set_into_diff : HashSet T → Res (Option (List (InnerValue D)))
  hash_set_into_diff [] = ok none
  hash_set_into_diff (val ∷ set) = into_values (val ∷ set) >>= λ diffs. ok (some diffs)
