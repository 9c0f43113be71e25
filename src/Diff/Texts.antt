-- ===== src/Diff/Texts.antt =====
-- identity_diff/src/string.rs and macros.rs: `String`, and the types of the macro for primitives.
use identity_rs.Diff.Interface.{Res, Diff, conversion_error, IsLawful, Carries}
use identity_rs.Prelude.{
  ◌≡◌, refl, false, Option, none, some, HasEq, ◌==◌, ok, err, if◌then◌else◌, Bool-cases, inl, inr,
  arith,
}

module _ {ℓ} {Text : Type ℓ} ⦃e : HasEq Text⦄ where
  unfoldable pub string_into_diff : Text → Res (Option Text)
  string_into_diff s = ok (some s)

  unfoldable pub string_diff : Text → Text → Res (Option Text)
  string_diff s other = if s == other then ok none else string_into_diff other

  unfoldable pub string_from_diff : Option Text → Res Text
  string_from_diff (some s) = ok s
  string_from_diff none = err conversion_error

  unfoldable pub string_merge : Text → Option Text → Res Text
  string_merge s none = ok s
  string_merge s (some t) = string_from_diff (some t)

  abbrev pub string : Diff Text (Option Text)
  string = record {
    diff = string_diff;
    merge = string_merge;
    from_diff = string_from_diff;
    into_diff = string_into_diff;
  }

  pub string-IsLawful : IsLawful string
  unfolding string_diff string_into_diff string_from_diff string_merge
  string-IsLawful = record {
    merges = λ s other. elim (Bool-cases (s == other)) [
      | inl same ↦ (none, rw same, ground (arith, e.beq_iff s other))
      | inr differ ↦ (some other, rw differ, refl)
    ];
    returns = λ s. (some s, refl, refl);
  }

  pub string-Carries : (s other : Text) → (s == other) ≡ false → Carries string s other
  unfolding string_diff string_into_diff string_from_diff
  string-Carries s other h = (some other, rw h, refl)

-- The macro's types: a difference is always the whole new value, and its absence the default.
module _ {ℓ} {A : Type ℓ} (default : A) where
  unfoldable pub primitive_into_diff : A → Res (Option A)
  primitive_into_diff a = ok (some a)

  unfoldable pub primitive_diff : A → A → Res (Option A)
  primitive_diff a other = primitive_into_diff other

  unfoldable pub primitive_from_diff : Option A → Res A
  primitive_from_diff (some a) = ok a
  primitive_from_diff none = ok default

  unfoldable pub primitive_merge : A → Option A → Res A
  primitive_merge a delta = primitive_from_diff delta

  abbrev pub primitive : Diff A (Option A)
  primitive = record {
    diff = primitive_diff;
    merge = primitive_merge;
    from_diff = primitive_from_diff;
    into_diff = primitive_into_diff;
  }

  pub primitive-IsLawful : IsLawful primitive
  unfolding primitive_diff primitive_into_diff primitive_from_diff primitive_merge
  primitive-IsLawful = record {
    merges = λ a other. (some other, refl, refl);
    returns = λ a. (some a, refl, refl);
  }
