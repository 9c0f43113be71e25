-- ===== src/Prelude/Results.antt =====
-- Rust's `Result<T, E>`, and its early return as a bind.
use mathlib.Core.Path.{◌≡◌, refl, sym, subst}
use mathlib.Core.Logic.{◌⊎◌, ◌↔◌, inl, inr}
use native.Mathlib.Omega.{arith}
use mathlib.Core.List.{List, [], ◌∷◌}
use mathlib.Core.Bool.{Bool, true, false}
use mathlib.Core.Option.{Option, none, some}

pub data Outcome {ℓ κ} (E : Type κ) (A : Type ℓ) : Type (ℓ ⊔ κ) where
  ok : A → Outcome E A
  err : E → Outcome E A

infixl 5 ◌>>=◌
abbrev pub ◌>>=◌ {ℓ κ μ} :
    {E : Type μ} {A : Type ℓ} {B : Type κ} → Outcome E A → (A → Outcome E B) → Outcome E B
ok a >>= f = f a
err e >>= f = err e

pub Outcome-cases {ℓ κ} :
    {E : Type κ} {A : Type ℓ} (r : Outcome E A) → ((a : A) × (r ≡ ok a)) ⊎ ((e : E) × (r ≡ err e))
Outcome-cases (ok a) = inl (a, refl)
Outcome-cases (err e) = inr (e, refl)

module _ {ℓ κ} {E : Type κ} {A : Type ℓ} where
  pub bind_ok : (m : Outcome E A) → (m >>= ok) ≡ m
  bind_ok (ok a) = refl
  bind_ok (err e) = refl

pub bind_assoc {ℓ κ μ ν} :
    {E : Type κ} {A : Type ℓ} {B : Type μ} {C : Type ν} (m : Outcome E A) (f : A → Outcome E B)
    (g : B → Outcome E C)
    → (m >>= f >>= g) ≡ (m >>= λ a. f a >>= g)
bind_assoc (ok a) f g = refl
bind_assoc (err e) f g = refl

-- `iter.map(f).collect::<Result<Vec<_>, E>>()`
abbrev pub traverse {ℓ κ μ} :
    {E : Type κ} {A : Type ℓ} {B : Type μ} → (A → Outcome E B) → List A → Outcome E (List B)
traverse f [] = ok []
traverse f (x ∷ xs) = f x >>= λ y. traverse f xs >>= λ ys. ok (y ∷ ys)

-- `if !test { return Err(e); }`
abbrev pub guard {κ} : {E : Type κ} → Bool → E → Outcome E (Unit {0})
guard true e = ok tt
guard false e = err e

-- `Option::ok_or` and `Result::map_err`
abbrev pub ok_or {ℓ κ} : {E : Type κ} {A : Type ℓ} → Option A → E → Outcome E A
ok_or none e = err e
ok_or (some a) e = ok a

abbrev pub map_err {ℓ κ μ} :
    {E : Type κ} {F : Type μ} {A : Type ℓ} → (E → F) → Outcome E A → Outcome F A
map_err f (ok a) = ok a
map_err f (err e) = err (f e)

pub map_err-ok {ℓ κ μ} :
    {E : Type κ} {F : Type μ} {A : Type ℓ} (f : E → F) (r : Outcome E A) {a : A}
    → map_err f r ≡ ok a
    → r ≡ ok a
map_err-ok f (ok x) h = ground arith
map_err-ok f (err e) h = cc

-- A check passes when its steps pass.
pub guard_iff {κ} : {E : Type κ} (b : Bool) (e : E) → (guard b e ≡ ok tt) ↔ (b ≡ true)
guard_iff true e = (λ h. refl, λ h. refl)
guard_iff false e = (λ h. cc, λ h. cc)

pub check_iff {κ} :
    {E : Type κ} (m : Outcome E (Unit {0})) (n : Outcome E (Unit {0}))
    → ((m >>= λ _. n) ≡ ok tt) ↔ ((m ≡ ok tt) × (n ≡ ok tt))
check_iff (ok tt) n = (λ h. (refl, h), λ h. h.1)
check_iff (err e) n = (λ h. cc, λ h. cc)

pub iff_trans {ℓ κ μ} : {A : Type ℓ} {B : Type κ} {C : Type μ} → A ↔ B → B ↔ C → A ↔ C
iff_trans f g = (λ a. g.0 (f.0 a), λ c. f.1 (g.1 c))

pub iff_and {ℓ κ μ ν} :
    {A : Type ℓ} {B : Type κ} {C : Type μ} {D : Type ν} → A ↔ C → B ↔ D → (A × B) ↔ (C × D)
iff_and f g = (λ h. (f.0 h.0, g.0 h.1), λ h. (f.1 h.0, g.1 h.1))

pub bind_iff {ℓ κ μ} :
    {E : Type μ} {A : Type ℓ} {B : Type κ} (m : Outcome E A) (f : A → Outcome E B) (b : B)
    → ((m >>= f) ≡ ok b) ↔ ((a : A) × (m ≡ ok a) × (f a ≡ ok b))
bind_iff (ok a) f b = (
  λ h. (a, refl, h),
  λ h. let same : a ≡ h.0 = ground (arith, h.1) in subst (λ x. f x ≡ ok b) (sym same) h.2,
)
bind_iff (err e) f b = (λ h. cc, λ h. absurd (ground (arith, h.1)))

-- both steps of a success
pub bind_parts {ℓ κ μ} :
    {F : Type μ} {S : Type ℓ} {R : Type κ} (step : Outcome F S) (next : S → Outcome F R)
    {result : R}
    → (step >>= next) ≡ ok result
    → (s : S) × (step ≡ ok s) × (next s ≡ ok result)
bind_parts step next = (bind_iff step next _).0

pub map_err_iff {ℓ κ μ} :
    {E : Type κ} {F : Type μ} {A : Type ℓ} (f : E → F) (r : Outcome E A) (a : A)
    → (map_err f r ≡ ok a) ↔ (r ≡ ok a)
map_err_iff f (ok x) a = (λ h. ground arith, λ h. ground arith)
map_err_iff f (err e) a = (λ h. cc, λ h. cc)

pub ok_or_iff {ℓ κ} :
    {E : Type κ} {A : Type ℓ} (o : Option A) (e : E) (a : A) → (ok_or o e ≡ ok a) ↔ (o ≡ some a)
ok_or_iff none e a = (λ h. cc, λ h. cc)
ok_or_iff (some x) e a = (λ h. ground arith, λ h. ground arith)

pub map_err_bind_iff {ℓ κ μ ν} :
    {E : Type μ} {F : Type ν} {A : Type ℓ} {B : Type κ} (g : F → E) (m : Outcome F A)
    (f : A → Outcome E B) (b : B)
    → ((map_err g m >>= f) ≡ ok b) ↔ ((a : A) × (m ≡ ok a) × (f a ≡ ok b))
map_err_bind_iff g m f b =
    iff_trans (bind_iff (map_err g m) f b)
      (λ h. (h.0, (map_err_iff g m h.0).0 h.1, h.2), λ h. (h.0, (map_err_iff g m h.0).1 h.1, h.2))

-- the equivalence of what follows a step
pub iff_after {ℓ κ μ ν} :
    {A : Type ℓ} {R : A → Type κ} {P : A → Type μ} {Q : A → Type ν}
    → ((a : A) → P a ↔ Q a)
    → ((a : A) × R a × P a) ↔ ((a : A) × R a × Q a)
iff_after e = (λ h. (h.0, h.1, (e h.0).0 h.2), λ h. (h.0, h.1, (e h.0).1 h.2))

pub ok_or_bind_iff {ℓ κ μ} :
    {E : Type μ} {A : Type ℓ} {B : Type κ} (o : Option A) (e : E) (f : A → Outcome E B) (b : B)
    → ((ok_or o e >>= f) ≡ ok b) ↔ ((a : A) × (o ≡ some a) × (f a ≡ ok b))
ok_or_bind_iff o e f b =
    iff_trans (bind_iff (ok_or o e) f b)
      (λ h. (h.0, (ok_or_iff o e h.0).0 h.1, h.2), λ h. (h.0, (ok_or_iff o e h.0).1 h.1, h.2))
