-- ===== src/Diff/Tests.antt =====
-- Runs of the differences on small inputs.
use identity_rs.Diff.Interface.{same_as_eq}
use identity_rs.Diff.Interface.{IsLawful}
use identity_rs.Diff.Texts.{string, string-IsLawful, string-Carries}
use identity_rs.Diff.Vecs.{vec}
use identity_rs.Diff.Vecs.Laws.{vec-IsLawful}
use identity_rs.Diff.Maps
use identity_rs.Diff.Maps.{hash_map_diff, hash_map_merge, hash_map_into_diff, hash_map_from_diff}
use identity_rs.Diff.Maps.Laws.{hash_map_merge-diff}
use identity_rs.Diff.Maps.Values.{hash_map_merge_partial}
use identity_rs.Diff.Vecs.{InnerVec}
use identity_rs.Prelude.{
  HashMap, get, ℕ, ◌≡◌, refl, Option, List, [], ◌∷◌, ok, Text, text, list_eq, nat_eq,
}

vec-IsLawful_example : IsLawful (vec (string {Text = Text}))
vec-IsLawful_example = vec-IsLawful string string-IsLawful

abbrev old : HashMap ℕ Text
old = (1, text "a") ∷ (2, text "b") ∷ (3, text "c") ∷ []

abbrev new : HashMap ℕ Text
new = (3, text "c") ∷ (2, text "d") ∷ (4, text "e") ∷ []

hash_map_merge-diff_example :
    (delta : Option (List (Maps.InnerValue ℕ (Option Text)))) × (hash_map_diff string old new
      ≡ ok delta)
    × (merged : HashMap ℕ Text) × (hash_map_merge string old delta ≡ ok merged)
    × ((j : ℕ) → get merged j ≡ get new j)
unfolding get
hash_map_merge-diff_example =
    hash_map_merge-diff string string-Carries string-IsLawful.returns old new
      (refl, (refl, (refl, tt))) (refl, (refl, (refl, tt)))

hash_map_merge_partial_example :
    (delta : Option (List (Maps.InnerValue ℕ (List (InnerVec (Option Text)))))) × (hash_map_diff
        (vec string)
        ((1, text "p" ∷ text "x" ∷ []) ∷ [])
        ((1, text "p" ∷ text "y" ∷ []) ∷ [])
      ≡ ok delta)
    × (hash_map_merge (vec string) ((1, text "p" ∷ text "x" ∷ []) ∷ []) delta
        ≡ ok ((1, text "y" ∷ []) ∷ []))
hash_map_merge_partial_example =
    hash_map_merge_partial string 1 (text "p") (text "x") (text "y") refl
      (string-Carries (text "x") (text "y") refl)

abbrev whole : Text → Text
whole t = t
