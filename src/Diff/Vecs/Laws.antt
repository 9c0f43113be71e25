-- ===== src/Diff/Vecs/Laws.antt =====
-- `Vec`: a difference merges to the new vector, and a whole vector survives.
use Prim.Native.Nat.{max}
use mathlib.Core.List.{append-nil, append_assoc}
use identity_rs.Diff.Interface.{
  Diff, Merges, Returns, IsLawful, IsLawfulOn, PartialEq, ◌=~◌, same_as_eq, Separates,
}
use identity_rs.Diff.Vecs.{
  InnerVec, change, add, remove, push_remove, diff_step, diff_loop, vec_diff, merge_changes,
  vec_merge, from_changes, vec_from_diff, into_changes, vec_into_diff, vec,
}
use identity_rs.Diff.Vecs.Merging.{Yields, Yields-add, Yields-push_remove, Yields-change, pop-kept}
use identity_rs.Prelude.{
  All, ℕ, zero, suc, ◌+◌, ◌≤◌, ◌≡◌, ◌∙◌, ap, sym, refl, subst, some, List, [], ◌∷◌, ◌++◌, HasEq, ok,
  ◌>>=◌, length, get_elem?, take, arith, Bool-cases, inl, inr, Outcome-cases,
  get_elem?-append_length, get_elem?_of_length-le, get_elem?_of_lt, length-append, length-take_le,
}

module _ {ℓ κ} {T : Type ℓ} {D : Type κ} ⦃p : PartialEq T⦄ (inner : Diff T D) (P : T → Type 0)
    (separates : Separates p P) (lawful : IsLawfulOn inner P) where
  -- The rounds that are left succeed, and all changes together yield the other vector.
  abbrev Steps : List T → List T → ℕ → ℕ → List (InnerVec D) → Type (ℓ ⊔ κ)
  Steps this other rounds index changes =
      (changes' : List (InnerVec D)) × (diff_loop inner rounds index this other changes
        ≡ ok changes')
      × Yields inner this changes' other

  Steps-next :
      (this other : List T) (rounds index : ℕ) (changes changes' : List (InnerVec D))
      → diff_step inner index (get_elem? this index) (get_elem? other index) changes ≡ ok changes'
      → Steps this other rounds (index + 1) changes'
      → Steps this other (suc rounds) index changes
  unfolding diff_loop
  Steps-next this other rounds index changes changes' step (final, loop, yields) =
      (final, rw step loop, yields)

  removing :
      (rounds index : ℕ) (this other v : List T) (changes : List (InnerVec D))
      → length v ≡ rounds
      → length other ≤ index
      → index + rounds ≡ length this
      → Yields inner this changes (other ++ v)
      → Steps this other rounds index changes
  unfolding diff_loop diff_step
  removing zero index this other [] changes len past left h = (changes, refl, h ∙ rw append-nil)
  removing zero index this other (z ∷ v) changes len past left h = absurd (omega arith)
  removing (suc rounds) index this other [] changes len past left h = absurd (omega arith)
  removing (suc rounds) index this other (z ∷ v) changes len past left h =
      let (x, at) = get_elem?_of_lt this index (omega arith) in
      Steps-next this other rounds index changes (push_remove changes)
        (rw (at, get_elem?_of_length-le other index past))
        (removing rounds (index + 1) this other (take (length v) (z ∷ v)) (push_remove changes)
          (length-take_le (length v) (z ∷ v) (omega arith) ∙ omega arith) (omega arith)
          (omega arith)
          (Yields-push_remove inner this changes (other ++ z ∷ v) (other ++ take (length v) (z ∷ v))
            h (pop-kept other z v)))

  adding :
      (rounds index : ℕ) (this other pb ys : List T) (changes : List (InnerVec D))
      → other ≡ pb ++ ys
      → All P ys
      → length ys ≡ rounds
      → length this ≤ index
      → index ≡ length pb
      → Yields inner this changes pb
      → Steps this other rounds index changes
  unfolding diff_loop diff_step
  adding zero index this other pb [] changes split valid len past at h =
      (changes, refl, h ∙ rw (split, append-nil))
  adding zero index this other pb (y ∷ ys) changes split valid len past at h = absurd (omega arith)
  adding (suc rounds) index this other pb [] changes split valid len past at h =
      absurd (omega arith)
  adding (suc rounds) index this other pb (y ∷ ys) changes split valid len past at h =
      let (d, made, back) = lawful.returns y valid.0 in
      Steps-next this other rounds index changes (changes ++ add d ∷ [])
        (rw (get_elem?_of_length-le this index past, at, split, get_elem?-append_length pb y ys)
          (rw made))
        (adding rounds (index + 1) this other (pb ++ y ∷ []) ys (changes ++ add d ∷ [])
          (split ∙ sym (append_assoc pb (y ∷ []) ys)) valid.1 (omega arith) (omega arith)
          (omega (arith, length-append pb (y ∷ []))) (Yields-add inner this changes pb d y h back))

  diff_step-some :
      (index : ℕ) (x y : T) (pa pb xs : List T) (changes : List (InnerVec D))
      → P x
      → P y
      → length pa ≡ length pb
      → index ≡ length pa
      → Yields inner (pa ++ x ∷ xs) changes (pb ++ x ∷ xs)
      → (changes' : List (InnerVec D)) × (diff_step inner index (some x) (some y) changes
          ≡ ok changes')
        × Yields inner (pa ++ x ∷ xs) changes' (pb ++ y ∷ xs)
  unfolding diff_step
  diff_step-some index x y pa pb xs changes vx vy len at h = elim (Bool-cases (x =~ y)) [
    | inl same ↦ let eq : x ≡ y = separates x y vx vy same in (changes, rw same, rw (← eq) h)
    | inr differ ↦
        let (d, made, merged) = lawful.merges x y vx vy in
        (
          changes ++ change index d ∷ [],
          rw (differ, made),
          rw at (Yields-change inner pa pb xs changes x y d len h merged),
        )
  ]

  comparing :
      (rounds index : ℕ) (this other pa pb xs ys : List T) (changes : List (InnerVec D))
      → this ≡ pa ++ xs
      → other ≡ pb ++ ys
      → All P xs
      → All P ys
      → length pa ≡ length pb
      → index ≡ length pa
      → rounds ≡ max (length xs) (length ys)
      → Yields inner this changes (pb ++ xs)
      → Steps this other rounds index changes
  unfolding diff_loop
  comparing rounds index this other pa pb [] [] changes sa sb vxs vys len at left h =
      adding rounds index this other pb [] changes sb vys (omega arith)
        (rw sa (omega (arith, length-append pa []))) (omega arith) (h ∙ rw append-nil)
  comparing rounds index this other pa pb [] (y ∷ ys) changes sa sb vxs vys len at left h =
      adding rounds index this other pb (y ∷ ys) changes sb vys (omega arith)
        (rw sa (omega (arith, length-append pa []))) (omega arith) (h ∙ rw append-nil)
  comparing rounds index this other pa pb (x ∷ xs) [] changes sa sb vxs vys len at left h =
      removing rounds index this other (x ∷ xs) changes (omega arith)
        (rw sb (omega (arith, length-append pb [])))
        (rw sa (omega (arith, length-append pa (x ∷ xs)))) (rw sb (rw append-nil h))
  comparing zero index this other pa pb (x ∷ xs) (y ∷ ys) changes sa sb vxs vys len at left h =
      absurd (omega arith)
  comparing (suc rounds) index this other pa pb (x ∷ xs) (y ∷ ys) changes sa sb vxs vys len at left
        h =
      let (changes', step, yields) =
        diff_step-some index x y pa pb xs changes vxs.0 vys.0 len at
          (subst (λ t. Yields inner t changes (pb ++ x ∷ xs)) sa h) in
      Steps-next this other rounds index changes changes'
        (rw (sa, sb, at)
          (rw (get_elem?-append_length pa x xs, len, get_elem?-append_length pb y ys)
            (subst (λ i. diff_step inner i (some x) (some y) changes ≡ ok changes') (at ∙ len)
              step)))
        (comparing rounds (index + 1) this other (pa ++ x ∷ []) (pb ++ y ∷ []) xs ys changes'
          (sa ∙ sym (append_assoc pa (x ∷ []) xs)) (sb ∙ sym (append_assoc pb (y ∷ []) ys)) vxs.1
          vys.1 (omega (arith, length-append pa (x ∷ []), length-append pb (y ∷ [])))
          (omega (arith, length-append pa (x ∷ []))) (omega arith)
          (subst (λ t. Yields inner t changes' ((pb ++ y ∷ []) ++ xs)) (sym sa)
            (rw append_assoc yields)))

  vec-Merges : (this other : List T) → All P this → All P other → Merges (vec inner) this other
  unfolding vec_diff vec_merge merge_changes
  vec-Merges this other valid valid' =
      comparing (max (length this) (length other)) 0 this other [] [] this other [] refl refl valid
        valid' refl refl refl refl

  from_changes-append :
      (cs ds : List (InnerVec D)) (v : List T)
      → from_changes inner v (cs ++ ds) ≡ (from_changes inner v cs >>= λ w. from_changes inner w ds)
  unfolding from_changes
  from_changes-append [] ds v = refl
  from_changes-append (add d ∷ cs) ds v = elim (Outcome-cases (inner.from_diff d)) [
    | inl (x, q) ↦ rw q (from_changes-append cs ds (v ++ x ∷ []))
    | inr (er, q) ↦ rw q
  ]
  from_changes-append (change i d ∷ cs) ds v = elim (Outcome-cases (inner.from_diff d)) [
    | inl (x, q) ↦ rw q (from_changes-append cs ds (v ++ x ∷ []))
    | inr (er, q) ↦ rw q
  ]
  from_changes-append (remove n ∷ cs) ds v = from_changes-append cs ds v

  returning :
      (xs p : List T) (changes : List (InnerVec D))
      → All P xs
      → from_changes inner [] changes ≡ ok p
      → (final : List (InnerVec D)) × (into_changes inner changes xs ≡ ok final)
        × (from_changes inner [] final ≡ ok (p ++ xs))
  unfolding into_changes from_changes
  returning [] p changes valid h = (changes, refl, h ∙ rw append-nil)
  returning (x ∷ xs) p changes valid h =
      let (d, made, back) = lawful.returns x valid.0 in
      let (final, loop, from) =
        returning xs (p ++ x ∷ []) (changes ++ add d ∷ []) valid.1
          (from_changes-append changes (add d ∷ []) [] ∙ rw (h, back) refl) in
      (final, rw made loop, from ∙ ap ok (append_assoc p (x ∷ []) xs))

  vec-Returns : (this : List T) → All P this → Returns (vec inner) this
  unfolding vec_into_diff vec_from_diff from_changes
  vec-Returns this valid = returning this [] [] valid refl

  -- The laws for the vectors of values of `P`.
  pub vec-IsLawfulOn : IsLawfulOn (vec inner) (All P)
  vec-IsLawfulOn = record { merges = vec-Merges; returns = vec-Returns }

pub All-any {ℓ} : {A : Type ℓ} {P : A → Type 0} → ((a : A) → P a) → (xs : List A) → All P xs
All-any every [] = tt
All-any every (x ∷ xs) = (every x, All-any every xs)

abbrev pub Any {ℓ} : {A : Type ℓ} → A → Type 0
Any _ = Unit

module _ {ℓ κ} {T : Type ℓ} {D : Type κ} ⦃e : HasEq T⦄ (inner : Diff T D)
    (lawful : IsLawful inner) where
  vec-IsLawfulOn-Any : IsLawfulOn (vec inner) (All Any)
  vec-IsLawfulOn-Any =
      vec-IsLawfulOn inner Any (λ a b _ _ h. (e.beq_iff a b).0 h)
        (record { merges = λ a b _ _. lawful.merges a b; returns = λ a _. lawful.returns a })

  -- A vector of values whose differences are lawful has lawful differences: a difference of any two
  -- vectors succeeds and merges to the second, and a vector turned into a difference is read back.
  pub vec-IsLawful : IsLawful (vec inner)
  vec-IsLawful = record {
    merges = λ a b. vec-IsLawfulOn-Any.merges a b (All-any (λ _. tt) a) (All-any (λ _. tt) b);
    returns = λ a. vec-IsLawfulOn-Any.returns a (All-any (λ _. tt) a);
  }
