-- ===== src/Diff/Documents/Fields.antt =====
-- identity_did/src/diff/diff_document.rs, diff_method.rs: what the implementations do with one field,
-- and that the two ways into a difference and out of it lead to the new value.
use identity_rs.Diff.Interface.{PartialEq, ◌=~◌, same_as_eq, Res, conversion_error}
use identity_rs.Prelude.{
  ◌≡◌, refl, true, Option, none, some, HasEq, ◌==◌, if◌then◌else◌, ok, err, ◌>>=◌, Bool-cases, inl,
  inr,
}

module _ {A B : Type 0} where
  -- `if self.field() == other.field() { None } else { Some(self.field().diff(other.field())?) }`
  abbrev pub field_diff : ⦃p : PartialEq A⦄ → (A → A → Res B) → A → A → Res (Option B)
  field_diff diff this other =
      if this =~ other then ok none else (diff this other >>= λ delta. ok (some delta))

  -- `.map(|value| self.field().merge(value)).transpose()?.unwrap_or_else(|| self.field().clone())`
  abbrev pub field_merge : (A → B → Res A) → A → Option B → Res A
  field_merge merge this none = ok this
  field_merge merge this (some delta) = merge this delta

  -- `.map(Diff::from_diff).transpose()?.ok_or_else(…)`
  abbrev pub field_from_diff : (B → Res A) → Option B → Res A
  field_from_diff from_diff none = err conversion_error
  field_from_diff from_diff (some delta) = from_diff delta

  abbrev pub field_into_diff : (A → Res B) → A → Res (Option B)
  field_into_diff into_diff this = into_diff this >>= λ delta. ok (some delta)

  -- the properties: the default value is left out
  abbrev pub default_from_diff : A → (B → Res A) → Option B → Res A
  default_from_diff default from_diff none = ok default
  default_from_diff default from_diff (some delta) = from_diff delta

  abbrev pub default_into_diff : ⦃p : PartialEq A⦄ → A → (A → Res B) → A → Res (Option B)
  default_into_diff default into_diff this =
      if this =~ default then ok none else field_into_diff into_diff this

module _ {A B : Type 0} ⦃p : PartialEq A⦄ (diff : A → A → Res B) (merge : A → B → Res A) where
  abbrev pub FieldMerges : A → A → Type 0
  FieldMerges this other =
      (delta : Option B) × (field_diff diff this other ≡ ok delta)
      × (field_merge merge this delta ≡ ok other)

  pub field-Merges :
      (this other : A)
      → ((this =~ other) ≡ true → this ≡ other)
      → (delta : B) × (diff this other ≡ ok delta) × (merge this delta ≡ ok other)
      → FieldMerges this other
  field-Merges this other equal (delta, made, merged) = elim (Bool-cases (this =~ other)) [
    | inl same ↦ (none, rw same refl, rw (equal same) refl)
    | inr changed ↦ (some delta, rw (changed, made) refl, merged)
  ]

module _ {A B : Type 0} (into_diff : A → Res B) (from_diff : B → Res A) where
  abbrev pub FieldReturns : A → Type 0
  FieldReturns this =
      (delta : Option B) × (field_into_diff into_diff this ≡ ok delta)
      × (field_from_diff from_diff delta ≡ ok this)

  pub field-Returns :
      (this : A)
      → (delta : B) × (into_diff this ≡ ok delta) × (from_diff delta ≡ ok this)
      → FieldReturns this
  field-Returns this (delta, made, back) = (some delta, rw made refl, back)

  pub default-Returns :
      ⦃e : HasEq A⦄ (default this : A)
      → (delta : B) × (into_diff this ≡ ok delta) × (from_diff delta ≡ ok this)
      → (delta : Option B) × (default_into_diff default into_diff this ≡ ok delta)
        × (default_from_diff default from_diff delta ≡ ok this)
  default-Returns ⦃e⦄ default this (delta, made, back) = elim (Bool-cases (this == default)) [
    | inl same ↦ (none, rw same refl, rw ((e.beq_iff this default).0 same) refl)
    | inr changed ↦ (some delta, rw (changed, made) refl, back)
  ]
