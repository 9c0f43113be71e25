-- ===== src/Stardust/Conversion.antt =====
-- The conversion between core DIDs and those of the method that the documents ask for, from
-- identity_stardust/src/did/stardust_did.rs. `StardustDID` is a core DID that `try_from_core` gives
-- back unchanged.
use identity_rs.Stardust.Did.{
  CoreDid, DidError, normalize_panic, method_name, check_method, check_validity, try_from_core,
}
use identity_rs.Stardust.Metadata.{DidConversion}
use identity_rs.Prelude.{
  ◌≡◌, refl, Bool, true, false, HasEq, ◌==◌, nat_eq, list_eq, Outcome, ok, err, Text, arith, ap,
  sym, ◌∙◌, ◌↔◌, Bool-cases, inl, inr,
}
use mathlib.Core.Bool.{Bool-set}
use mathlib.Core.HLevel.{Σ_prop_path}

module _ {D : Type 0} ⦃d_eq : HasEq D⦄ (core : CoreDid D) (decodes : Text → Bool) where
  abbrev gives : Outcome DidError D → D → Bool
  gives (ok did') did = did' == did
  gives (err _) did = false

  abbrev pub StardustDid : Type 0
  StardustDid = (inner : D) × (gives (try_from_core core decodes inner) inner ≡ true)

  -- A result that is not normal would be a panic.
  abbrev marked :
      (did : D) (b : Bool)
      → gives (try_from_core core decodes did) did ≡ b
      → Outcome DidError StardustDid
  marked did true h = ok (did, h)
  marked did false h = err normalize_panic

  abbrev pub as_stardust : Outcome DidError D → Outcome DidError StardustDid
  as_stardust (ok did) = marked did (gives (try_from_core core decodes did) did) refl
  as_stardust (err e) = err e

  same_inner : (a b : StardustDid) → a.0 ≡ b.0 → a ≡ b
  same_inner a b eq =
      Σ_prop_path (λ did. Bool-set (gives (try_from_core core decodes did) did) true) eq

  marked_normal :
      (did : StardustDid) (b : Bool) (h : gives (try_from_core core decodes did.0) did.0 ≡ b)
      → b ≡ true
      → marked did.0 b h ≡ ok did
  marked_normal did true h t = ap ok (same_inner (did.0, h) did refl)
  marked_normal did false h t = absurd (ground arith)

  gives_ok : (r : Outcome DidError D) (did : D) → gives r did ≡ true → r ≡ ok did
  gives_ok (ok did') did h = ap ok ((d_eq.beq_iff did' did).0 h)
  gives_ok (err e) did h = absurd (ground arith)

  pub as_stardust_normal :
      (did : StardustDid) → as_stardust (try_from_core core decodes did.0) ≡ ok did
  as_stardust_normal did =
      ap as_stardust (gives_ok (try_from_core core decodes did.0) did.0 did.1)
      ∙ marked_normal did (gives (try_from_core core decodes did.0) did.0) refl did.1

  pub same_iff : (a b : StardustDid) → ((a.0 == b.0) ≡ true) ↔ (a ≡ b)
  same_iff a b = (
    λ h. same_inner a b ((d_eq.beq_iff a.0 b.0).0 h),
    λ eq. (d_eq.beq_iff a.0 b.0).1 (ap (λ did. did.0) eq),
  )

  instance abbrev pub stardust_eq : HasEq StardustDid
  stardust_eq = record { same? = λ a b. a.0 == b.0; beq_iff = same_iff }

  method_checked : (did : StardustDid) → core.method did.0 ≡ method_name
  unfolding try_from_core check_validity check_method
  method_checked did =
      let normal : try_from_core core decodes did.0 ≡ ok did.0 =
        gives_ok (try_from_core core decodes did.0) did.0 did.1 in
      (list_eq.beq_iff (core.method did.0) method_name).0 (ground arith)

  -- The placeholder is of another method, and the text of a DID tells its method.
  module _ (as_str : D → Text) (placeholder : D)
      (placeholder_method : (core.method placeholder == method_name) ≡ false)
      (as_str_method : (a b : D) → as_str a ≡ as_str b → core.method a ≡ core.method b) where
    pub placeholder_differs : (did : StardustDid) → (as_str did.0 == as_str placeholder) ≡ false
    placeholder_differs did = elim (Bool-cases (as_str did.0 == as_str placeholder)) [
      | inr other ↦ other
      | inl same ↦
          let eq : core.method placeholder ≡ method_name =
            sym (
              as_str_method did.0 placeholder
                ((list_eq.beq_iff (as_str did.0) (as_str placeholder)).0 same))
            ∙ method_checked did in
          absurd (ground (arith, (list_eq.beq_iff (core.method placeholder) method_name).1 eq))
    ]

    abbrev pub conversion : DidConversion StardustDid D
    conversion = record {
      as_str = as_str;
      placeholder = placeholder;
      into_core = λ did. did.0;
      try_from_core = λ did. as_stardust (try_from_core core decodes did);
      again = as_stardust_normal;
      differs = placeholder_differs;
    }
