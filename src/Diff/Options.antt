-- ===== src/Diff/Options.antt =====
-- identity_diff/src/option.rs
use identity_rs.Diff.Interface.{Res, Diff, Merges, Returns, IsLawful}
use identity_rs.Prelude.{refl, Option, none, some, ok, ◌>>=◌}

pub data DiffOption {ℓ} (D : Type ℓ) : Type ℓ where
  some_diff : D → DiffOption D
  none_diff : DiffOption D

module _ {ℓ κ} {T : Type ℓ} {D : Type κ} (inner : Diff T D) where
  unfoldable pub option_diff : Option T → Option T → Res (DiffOption D)
  option_diff (some x) (some y) = inner.diff x y >>= λ d. ok (some_diff d)
  option_diff none (some y) = inner.into_diff y >>= λ d. ok (some_diff d)
  option_diff _ none = ok none_diff

  unfoldable pub option_merge : Option T → DiffOption D → Res (Option T)
  option_merge none none_diff = ok none
  option_merge (some t) none_diff = ok none
  option_merge none (some_diff d) = inner.from_diff d >>= λ t. ok (some t)
  option_merge (some t) (some_diff d) = inner.merge t d >>= λ u. ok (some u)

  unfoldable pub option_from_diff : DiffOption D → Res (Option T)
  option_from_diff none_diff = ok none
  option_from_diff (some_diff d) = inner.from_diff d >>= λ t. ok (some t)

  unfoldable pub option_into_diff : Option T → Res (DiffOption D)
  option_into_diff none = ok none_diff
  option_into_diff (some t) = inner.into_diff t >>= λ d. ok (some_diff d)

  abbrev pub option : Diff (Option T) (DiffOption D)
  option = record {
    diff = option_diff;
    merge = option_merge;
    from_diff = option_from_diff;
    into_diff = option_into_diff;
  }

  module _ (lawful : IsLawful inner) where
    option-Merges : (a b : Option T) → Merges option a b
    unfolding option_diff option_merge
    option-Merges (some x) (some y) =
        let (d, made, merged) = lawful.merges x y in (some_diff d, rw made, rw merged)
    option-Merges none (some y) =
        let (d, made, back) = lawful.returns y in (some_diff d, rw made, rw back)
    option-Merges none none = (none_diff, refl, refl)
    option-Merges (some x) none = (none_diff, refl, refl)

    option-Returns : (a : Option T) → Returns option a
    unfolding option_into_diff option_from_diff
    option-Returns none = (none_diff, refl, refl)
    option-Returns (some t) =
        let (d, made, back) = lawful.returns t in (some_diff d, rw made, rw back)

    -- An option of a type with lawful differences has lawful differences: a difference of any two
    -- options succeeds and merges to the second, and an option turned into a difference is read back.
    pub option-IsLawful : IsLawful option
    option-IsLawful = record { merges = option-Merges; returns = option-Returns }
