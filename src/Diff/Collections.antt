-- ===== src/Diff/Collections.antt =====
-- The `Diff` implementations of identity_core/src/common/ordered_set.rs and one_or_set.rs, which go
-- through the vector of the items.
use identity_rs.Core.OrderedSet
use identity_rs.Core.OrderedSet.{OrderedSet, try_from}
use identity_rs.Core.OrderedSet.Laws.{IsUnique}
use identity_rs.Core.OrderedSet.Convert.{try_from_unique}
use identity_rs.Core.OneOrSet.{OneOrSet, one, set, into_vec, try_from_vec}
use identity_rs.Core.OneOrSet.Laws.{IsValid, try_from_vec_unique}
use identity_rs.Diff.Interface.{
  Res, Diff, merge_error, conversion_error, IsLawful, IsLawfulOn, PartialEq, same_as_eq, Separates,
}
use identity_rs.Diff.Vecs.{InnerVec, vec_diff, vec_merge, vec_from_diff, vec_into_diff}
use identity_rs.Diff.Vecs.Laws.{vec-IsLawful, vec-IsLawfulOn}
use identity_rs.Prelude.{All, ◌≡◌, ◌≢◌, refl, List, [], ◌∷◌, HasEq, Outcome, ok, err, ◌>>=◌, arith}

-- `Result::map_err`
abbrev map_err {ℓ κ μ} : {A : Type ℓ} {E : Type κ} {F : Type μ} → F → Outcome E A → Outcome F A
map_err f (ok a) = ok a
map_err f (err e) = err f

module _ {T D K : Type 0} ⦃p : PartialEq T⦄ ⦃k_eq : HasEq K⦄ (key : T → K) (item : Diff T D) where
  unfoldable pub ordered_set_diff : OrderedSet T → OrderedSet T → Res (List (InnerVec D))
  ordered_set_diff this other = vec_diff item this other

  unfoldable pub ordered_set_merge : OrderedSet T → List (InnerVec D) → Res (OrderedSet T)
  ordered_set_merge this diff =
      vec_merge item this diff >>= λ merged. map_err merge_error (try_from key merged)

  unfoldable pub ordered_set_from_diff : List (InnerVec D) → Res (OrderedSet T)
  ordered_set_from_diff diff =
      vec_from_diff item diff >>= λ this. map_err conversion_error (try_from key this)

  unfoldable pub ordered_set_into_diff : OrderedSet T → Res (List (InnerVec D))
  ordered_set_into_diff this = vec_into_diff item this

  unfoldable pub one_or_set_diff : OneOrSet T → OneOrSet T → Res (List (InnerVec D))
  one_or_set_diff this other = vec_diff item (into_vec this) (into_vec other)

  unfoldable pub one_or_set_merge : OneOrSet T → List (InnerVec D) → Res (OneOrSet T)
  one_or_set_merge this diff = vec_merge item (into_vec this) diff >>= λ merged.
      map_err merge_error (try_from_vec key merged)

  unfoldable pub one_or_set_from_diff : List (InnerVec D) → Res (OneOrSet T)
  one_or_set_from_diff diff =
      vec_from_diff item diff >>= λ this. map_err conversion_error (try_from_vec key this)

  unfoldable pub one_or_set_into_diff : OneOrSet T → Res (List (InnerVec D))
  one_or_set_into_diff this = vec_into_diff item (into_vec this)

  -- A difference of two ordered sets succeeds and merges into the first to the second, and an ordered
  -- set turned into a difference is read back, if the items are values for which the differences are
  -- lawful and the keys of the set that is to come out are unique.
  pub ordered_set_merge-diff :
      (P : T → Type 0) (this other : OrderedSet T)
      → Separates p P
      → IsLawfulOn item P
      → All P this
      → All P other
      → IsUnique key other
      → ((delta : List (InnerVec D)) × (ordered_set_diff this other ≡ ok delta)
          × (ordered_set_merge this delta ≡ ok other))
        × ((delta : List (InnerVec D)) × (ordered_set_into_diff other ≡ ok delta)
            × (ordered_set_from_diff delta ≡ ok other))
  unfolding ordered_set_diff ordered_set_merge ordered_set_into_diff ordered_set_from_diff
  ordered_set_merge-diff P this other separates lawful valid valid' u =
      let laws = vec-IsLawfulOn item P separates lawful in
      let converted = try_from_unique key other u in
      let (delta, made, merged) = laws.merges this other valid valid' in
      let (whole, made', back) = laws.returns other valid' in
      ((delta, made, rw (merged, converted) refl), (whole, made', rw (back, converted) refl))

module _ {T D K : Type 0} ⦃t_eq : HasEq T⦄ ⦃k_eq : HasEq K⦄ (key : T → K) (item : Diff T D) where
  pub into_vec-IsUnique :
      (s : OneOrSet T) → IsValid key s → IsUnique key (into_vec s) × (into_vec s ≢ [])
  unfolding into_vec OrderedSet.contains
  into_vec-IsUnique (one x) v = ((refl, tt), λ q. absurd (ground arith))
  into_vec-IsUnique (set []) v = absurd v
  into_vec-IsUnique (set (x ∷ xs)) v = (v, λ q. absurd (ground arith))

  -- A difference of two values of `OneOrSet` succeeds and merges into the first to a valid value with
  -- the items of the second, and likewise a value turned into a difference is read back.
  pub one_or_set_merge-diff :
      (this other : OneOrSet T)
      → IsLawful item
      → IsValid key other
      → ((delta : List (InnerVec D)) × (one_or_set_diff key item this other ≡ ok delta)
          × (merged : OneOrSet T) × (one_or_set_merge key item this delta ≡ ok merged)
          × IsValid key merged
          × (into_vec merged ≡ into_vec other))
        × ((delta : List (InnerVec D)) × (one_or_set_into_diff key item other ≡ ok delta)
            × (back : OneOrSet T) × (one_or_set_from_diff key item delta ≡ ok back)
            × IsValid key back
            × (into_vec back ≡ into_vec other))
  unfolding one_or_set_diff one_or_set_merge one_or_set_into_diff one_or_set_from_diff
  one_or_set_merge-diff this other lawful v =
      let laws = vec-IsLawful item lawful in
      let (u, some_item) = into_vec-IsUnique other v in
      let (result, converted, valid, same) = try_from_vec_unique key (into_vec other) u some_item in
      let (delta, made, merged) = laws.merges (into_vec this) (into_vec other) in
      let (whole, made', back) = laws.returns (into_vec other) in
      (
        (delta, made, result, rw (merged, converted) refl, valid, same),
        (whole, made', result, rw (back, converted) refl, valid, same),
      )
