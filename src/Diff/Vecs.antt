-- ===== src/Diff/Vecs.antt =====
-- identity_diff/src/vec.rs
pub mod Merging
pub mod Laws
use Prim.Native.Nat.{max}
use identity_rs.Diff.Interface.{Res, Diff, PartialEq, ◌=~◌, merge_error, panic}
use identity_rs.Prelude.{
  ℕ, zero, suc, ◌+◌, ◌≡◌, Option, none, some, List, [], ◌∷◌, ◌++◌, ok, err, ◌>>=◌, if◌then◌else◌,
  length, get_elem?, set, pop, ltb,
}

pub data InnerVec {ℓ} (D : Type ℓ) : Type ℓ where
  change : ℕ → D → InnerVec D
  remove : ℕ → InnerVec D
  add : D → InnerVec D

module _ {ℓ} {D : Type ℓ} where
  -- the arm `(Some(_), None)` of the loop in `diff`
  unfoldable pub push_remove : List (InnerVec D) → List (InnerVec D)
  push_remove [] = remove 1 ∷ []
  push_remove (remove count ∷ []) = remove (count + 1) ∷ []
  push_remove (c ∷ []) = c ∷ remove 1 ∷ []
  push_remove (c ∷ c' ∷ cs) = c ∷ push_remove (c' ∷ cs)

module _ {ℓ} {T : Type ℓ} where
  -- `for _ in 0..count { vec.pop().ok_or(MergeError)?; }`
  unfoldable pub pop_times : ℕ → List T → Res (List T)
  pop_times zero vec = ok vec
  pop_times (suc count) vec = elim (pop vec) [
    | none ↦ err merge_error
    | some rest ↦ pop_times count rest
  ]

module _ {ℓ κ} {T : Type ℓ} {D : Type κ} ⦃p : PartialEq T⦄ (inner : Diff T D) where
  -- the `match` of the loop in `diff`, and the changes after it
  unfoldable pub diff_step : ℕ → Option T → Option T → List (InnerVec D) → Res (List (InnerVec D))
  diff_step index none none changes = err panic
  diff_step index (some x) (some y) changes =
      if x =~ y
      then ok changes
      else inner.diff x y >>= λ item. ok (changes ++ change index item ∷ [])
  diff_step index none (some x) changes =
      inner.into_diff x >>= λ item. ok (changes ++ add item ∷ [])
  diff_step index (some x) none changes = ok (push_remove changes)

  -- `for index in 0..max`, by the rounds that are left
  unfoldable pub diff_loop : ℕ → ℕ → List T → List T → List (InnerVec D) → Res (List (InnerVec D))
  diff_loop zero index this other changes = ok changes
  diff_loop (suc rounds) index this other changes =
      diff_step index (get_elem? this index) (get_elem? other index) changes
      >>= diff_loop rounds (index + 1) this other

  unfoldable pub vec_diff : List T → List T → Res (List (InnerVec D))
  vec_diff this other = diff_loop (max (length this) (length other)) 0 this other []

  -- `vec[index] = self[index].merge(item)?`
  unfoldable pub merge_change : List T → List T → ℕ → D → Res (List T)
  merge_change this vec index item = elim (get_elem? this index) [
    | none ↦ err panic
    | some x ↦ inner.merge x item >>= λ y.
        if ltb index (length vec) then ok (set vec index y) else err panic
  ]

  -- the loop of `merge`, `vec` being built from a clone of `this`
  unfoldable pub merge_changes : List T → List T → List (InnerVec D) → Res (List T)
  merge_changes this vec [] = ok vec
  merge_changes this vec (add d ∷ changes) =
      inner.from_diff d >>= λ x. merge_changes this (vec ++ x ∷ []) changes
  merge_changes this vec (change index item ∷ changes) =
      merge_change this vec index item >>= λ vec'. merge_changes this vec' changes
  merge_changes this vec (remove count ∷ changes) =
      pop_times count vec >>= λ vec'. merge_changes this vec' changes

  unfoldable pub vec_merge : List T → List (InnerVec D) → Res (List T)
  vec_merge this changes = merge_changes this this changes

  -- the loop of `from_diff`
  unfoldable pub from_changes : List T → List (InnerVec D) → Res (List T)
  from_changes vec [] = ok vec
  from_changes vec (add d ∷ changes) =
      inner.from_diff d >>= λ x. from_changes (vec ++ x ∷ []) changes
  from_changes vec (change index item ∷ changes) =
      inner.from_diff item >>= λ x. from_changes (vec ++ x ∷ []) changes
  from_changes vec (remove count ∷ changes) = from_changes vec changes

  unfoldable pub vec_from_diff : List (InnerVec D) → Res (List T)
  vec_from_diff changes = from_changes [] changes

  -- the loop of `into_diff`
  unfoldable pub into_changes : List (InnerVec D) → List T → Res (List (InnerVec D))
  into_changes changes [] = ok changes
  into_changes changes (x ∷ xs) = inner.into_diff x >>= λ d. into_changes (changes ++ add d ∷ []) xs

  unfoldable pub vec_into_diff : List T → Res (List (InnerVec D))
  vec_into_diff xs = into_changes [] xs

  abbrev pub vec : Diff (List T) (List (InnerVec D))
  vec = record {
    diff = vec_diff;
    merge = vec_merge;
    from_diff = vec_from_diff;
    into_diff = vec_into_diff;
  }
