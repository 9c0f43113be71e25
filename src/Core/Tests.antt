-- ===== src/Core/Tests.antt =====
-- Runs of the collections on small inputs. The key of a number is its last digit.
use identity_rs.Core.OrderedSet.{contains, append, update}
use identity_rs.Core.OrderedSet.Laws.{IsUnique}
use identity_rs.Core.OrderedSet.Reached.{Reached-IsUnique, new, appended, updated}
use identity_rs.Core.OneOrMany
use identity_rs.Core.OneOrMany.{OneOrMany}
use identity_rs.Core.OneOrMany.Laws.{refines_list}
use identity_rs.Core.OneOrSet
use identity_rs.Core.OneOrSet.{
  one, set, into_vec, contains_key, len, get, to_ordered_set, try_from_vec, new_set, one_or_set,
}
use identity_rs.Core.OneOrSet.Laws.{refines_ordered_set}
use identity_rs.Prelude.{ℕ, ◌%◌, ◌≡◌, ◌↔◌, true, false, none, some, [], ◌∷◌, nat_eq, List}

abbrev digit : ℕ → ℕ
digit n = n % 10

Reached-IsUnique_example :
    IsUnique digit (update digit (append digit (append digit [] 1).0 12).0 21).0
Reached-IsUnique_example =
    Reached-IsUnique digit (update digit (append digit (append digit [] 1).0 12).0 21).0 (
      updated (append digit (append digit [] 1).0 12).0 21
        (appended (append digit [] 1).0 12 (appended [] 1 new)))

refines_ordered_set_example :
    (into_vec (OneOrSet.append digit (one 1) 12).0 ≡ (append digit (1 ∷ []) 12).0)
    × ((OneOrSet.append digit (one 1) 12).1 ≡ (append digit (1 ∷ []) 12).1)
    × (contains_key digit (one 1) 1 ≡ contains digit (1 ∷ []) 1)
    × (len {T = ℕ} (one 1) ≡ 1)
    × (get {T = ℕ} (one 1) 0 ≡ some 1)
    × (to_ordered_set digit (one 1) ≡ 1 ∷ [])
unfolding into_vec
refines_ordered_set_example = refines_ordered_set digit (one 1) 12 1 0

refines_list_example :
    (OneOrMany.into_vec {T = ℕ} (OneOrMany.push (OneOrMany.one 1) 2) ≡ 1 ∷ 2 ∷ [])
    × (OneOrMany.into_vec {T = ℕ} (OneOrMany.from_vec (5 ∷ [])) ≡ 5 ∷ [])
    × (OneOrMany.into_vec {T = ℕ} (OneOrMany.from_iter (0, some 1) (5 ∷ [])) ≡ 5 ∷ [])
    × (OneOrMany.len {T = ℕ} (OneOrMany.one 1) ≡ 1)
    × ((OneOrMany.is_empty {T = ℕ} (OneOrMany.one 1) ≡ true) ↔ ◌≡◌ {A = List ℕ} (1 ∷ []) [])
    × (OneOrMany.get {T = ℕ} (OneOrMany.one 1) 3 ≡ none)
    × (OneOrMany.contains {T = ℕ} (OneOrMany.one 1) 2 ≡ false)
unfolding OneOrMany.into_vec
refines_list_example = refines_list (OneOrMany.one 1) 2 3 (5 ∷ []) (0, some 1)
