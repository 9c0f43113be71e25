-- ===== src/Diff/Interface.antt =====
-- identity_diff/src/traits.rs and error.rs: the trait `Diff`, over a type and its type of
-- differences, and the laws that make it useful: a difference merges to the new value, and a whole
-- value survives the way into a difference and back.
use identity_rs.Prelude.{◌≡◌, Bool, true, false, ◌&&◌, List, [], ◌∷◌, HasEq, Outcome, ok}

-- `panic` stands for a Rust panic (an index out of bounds, `expect` on `None`, `panic!`).
pub data Error : Type 0 where
  diff_error conversion_error merge_error panic : Error

abbrev pub Res {ℓ} : Type ℓ → Type ℓ
Res A = Outcome Error A

-- `PartialEq`, which need not be equality.
pub record PartialEq {ℓ} (A : Type ℓ) : Type ℓ where
  pub same? : A → A → Bool

infix 50 ◌=~◌
abbrev pub ◌=~◌ {ℓ} : {A : Type ℓ} → ⦃p : PartialEq A⦄ → (x y : A) → Bool
◌=~◌ ⦃p⦄ x y = p.same? x y

instance abbrev pub same_as_eq {ℓ} : {A : Type ℓ} → ⦃e : HasEq A⦄ → PartialEq A
same_as_eq ⦃e⦄ = record { same? = e.same? }

-- `PartialEq for Vec<A>`
abbrev pub list_same {ℓ} : {A : Type ℓ} → PartialEq A → List A → List A → Bool
list_same p [] [] = true
list_same p (x ∷ xs) (y ∷ ys) = p.same? x y && list_same p xs ys
list_same p _ _ = false

abbrev pub vec_same {ℓ} : {A : Type ℓ} → PartialEq A → PartialEq (List A)
vec_same p = record { same? = list_same p }

-- Two values of `P` that are the same are equal.
abbrev pub Separates {ℓ} : {A : Type ℓ} → PartialEq A → (A → Type 0) → Type ℓ
Separates {A = A} p P = (a b : A) → P a → P b → p.same? a b ≡ true → a ≡ b

pub record Diff {ℓ κ} (T : Type ℓ) (D : Type κ) : Type (ℓ ⊔ κ) where
  pub diff : T → T → Res D
  pub merge : T → D → Res T
  pub from_diff : D → Res T
  pub into_diff : T → Res D

module _ {ℓ κ} {T : Type ℓ} {D : Type κ} (d : Diff T D) where
  -- `a.diff(&b)` succeeds, and merging it into `a` gives `b`.
  abbrev pub Merges : T → T → Type (ℓ ⊔ κ)
  Merges a b = (delta : D) × (d.diff a b ≡ ok delta) × (d.merge a delta ≡ ok b)

  -- `a.into_diff()` succeeds, and `from_diff` gives `a` back.
  abbrev pub Returns : T → Type (ℓ ⊔ κ)
  Returns a = (delta : D) × (d.into_diff a ≡ ok delta) × (d.from_diff delta ≡ ok a)

  -- A difference to a changed value carries the whole new value.
  abbrev pub Carries : T → T → Type (ℓ ⊔ κ)
  Carries a b = (delta : D) × (d.diff a b ≡ ok delta) × (d.from_diff delta ≡ ok b)

  pub record IsLawful : Type (ℓ ⊔ κ) where
    pub merges : (a b : T) → Merges a b
    pub returns : (a : T) → Returns a

  -- The laws for the values of `P`.
  pub record IsLawfulOn (P : T → Type 0) : Type (ℓ ⊔ κ) where
    pub merges : (a b : T) → P a → P b → Merges a b
    pub returns : (a : T) → P a → Returns a
