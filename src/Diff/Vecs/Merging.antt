-- ===== src/Diff/Vecs/Merging.antt =====
-- What the changes of a `Vec` do when they are merged, one change at a time.
use identity_rs.Diff.Interface.{Diff, PartialEq}
use identity_rs.Diff.Vecs.{
  InnerVec, change, remove, add, push_remove, pop_times, merge_change, merge_changes,
}
use identity_rs.Prelude.{
  ℕ, zero, suc, ◌+◌, ◌≡◌, ◌∙◌, ap, sym, refl, true, some, List, [], ◌∷◌, ◌++◌, ok, ◌>>=◌,
  Outcome-cases, length, get_elem?, pop, take, ltb, arith, inl, inr, bind_ok, bind_assoc, fun_ext,
  Option-cases, get_elem?-append_length, set-append_length, length-append,
}

add_suc_one : (n : ℕ) → suc n + 1 ≡ suc (n + 1)
add_suc_one n = omega arith

module _ {ℓ} {T : Type ℓ} where
  pop_times-succ : (n : ℕ) (v : List T) → pop_times (n + 1) v ≡ (pop_times n v >>= pop_times 1)
  unfolding pop_times
  pop_times-succ zero v = refl
  pop_times-succ (suc n) v = elim (Option-cases (pop v)) [
    | inl q ↦ rw (add_suc_one n) (rw (q, pop_times))
    | inr (w, q) ↦ rw (add_suc_one n) (rw (q, pop_times) (pop_times-succ n w))
  ]

  pop_times_one : (v w : List T) → pop v ≡ some w → pop_times 1 v ≡ ok w
  unfolding pop_times
  pop_times_one v w q = rw (q, pop_times)

  pub pop-kept :
      (b : List T) (x : T) (xs : List T) → pop (b ++ x ∷ xs) ≡ some (b ++ take (length xs) (x ∷ xs))
  pop-kept [] x [] = refl
  pop-kept [] x (y ∷ ys) = rw (pop-kept [] y ys) refl
  pop-kept (z ∷ []) x xs = rw (pop-kept [] x xs) refl
  pop-kept (z ∷ w ∷ b) x xs = rw (pop-kept (w ∷ b) x xs) refl

module _ {ℓ κ} {T : Type ℓ} {D : Type κ} ⦃p : PartialEq T⦄ (inner : Diff T D) where
  merge_changes-append :
      (this : List T) (cs ds : List (InnerVec D)) (v : List T)
      → merge_changes inner this v (cs ++ ds)
        ≡ (merge_changes inner this v cs >>= λ w. merge_changes inner this w ds)
  unfolding merge_changes
  merge_changes-append this [] ds v = refl
  merge_changes-append this (add d ∷ cs) ds v = elim (Outcome-cases (inner.from_diff d)) [
    | inl (x, q) ↦ rw q (merge_changes-append this cs ds (v ++ x ∷ []))
    | inr (er, q) ↦ rw q
  ]
  merge_changes-append this (change i d ∷ cs) ds v =
      elim (Outcome-cases (merge_change inner this v i d)) [
        | inl (x, q) ↦ rw q (merge_changes-append this cs ds x)
        | inr (er, q) ↦ rw q
      ]
  merge_changes-append this (remove n ∷ cs) ds v = elim (Outcome-cases (pop_times n v)) [
    | inl (x, q) ↦ rw q (merge_changes-append this cs ds x)
    | inr (er, q) ↦ rw q
  ]

  merge-remove :
      (this : List T) (n : ℕ) (v : List T)
      → merge_changes inner this v (remove n ∷ []) ≡ pop_times n v
  unfolding merge_changes
  merge-remove this n v = bind_ok (pop_times n v)

  merge-then_remove :
      (this : List T) (cs : List (InnerVec D)) (v : List T)
      → merge_changes inner this v (cs ++ remove 1 ∷ [])
        ≡ (merge_changes inner this v cs >>= pop_times 1)
  merge-then_remove this cs v =
      merge_changes-append this cs (remove 1 ∷ []) v
      ∙ ap (λ f. merge_changes inner this v cs >>= f) (fun_ext (merge-remove this 1))

  -- One more removal pops one more item.
  merge-push_remove :
      (this : List T) (cs : List (InnerVec D)) (v : List T)
      → merge_changes inner this v (push_remove cs)
        ≡ (merge_changes inner this v cs >>= pop_times 1)
  unfolding push_remove
  merge-push_remove this [] v = merge-then_remove this [] v
  merge-push_remove this (remove n ∷ []) v =
      rw (merge-remove this (n + 1) v, merge-remove this n v) (pop_times-succ n v)
  merge-push_remove this (add d ∷ []) v = merge-then_remove this (add d ∷ []) v
  merge-push_remove this (change i d ∷ []) v = merge-then_remove this (change i d ∷ []) v
  merge-push_remove this (c ∷ c' ∷ cs) v =
      merge_changes-append this (c ∷ []) (push_remove (c' ∷ cs)) v
      ∙ ap (λ f. merge_changes inner this v (c ∷ []) >>= f)
          (fun_ext (merge-push_remove this (c' ∷ cs)))
      ∙ sym (bind_assoc (merge_changes inner this v (c ∷ [])) _ _)
      ∙ ap (λ r. r >>= pop_times 1) (sym (merge_changes-append this (c ∷ []) (c' ∷ cs) v))

  -- `changes`, merged into `this`, give `v`.
  abbrev pub Yields : List T → List (InnerVec D) → List T → Type ℓ
  Yields this changes v = merge_changes inner this this changes ≡ ok v

  pub Yields-add :
      (this : List T) (changes : List (InnerVec D)) (v : List T) (d : D) (x : T)
      → Yields this changes v
      → inner.from_diff d ≡ ok x
      → Yields this (changes ++ add d ∷ []) (v ++ x ∷ [])
  unfolding merge_changes
  Yields-add this changes v d x h q =
      merge_changes-append this changes (add d ∷ []) this ∙ rw (h, q) refl

  pub Yields-push_remove :
      (this : List T) (changes : List (InnerVec D)) (v w : List T)
      → Yields this changes v
      → pop v ≡ some w
      → Yields this (push_remove changes) w
  Yields-push_remove this changes v w h q =
      merge-push_remove this changes this ∙ rw h (pop_times_one v w q)

  merge-change :
      (this : List T) (v : List T) (i : ℕ) (d : D)
      → merge_changes inner this v (change i d ∷ []) ≡ merge_change inner this v i d
  unfolding merge_changes
  merge-change this v i d = bind_ok (merge_change inner this v i d)

  merge_change_inside :
      (this pb xs : List T) (i : ℕ) (x y : T) (d : D)
      → get_elem? this i ≡ some x
      → inner.merge x d ≡ ok y
      → i ≡ length pb
      → merge_change inner this (pb ++ x ∷ xs) i d ≡ ok (pb ++ y ∷ xs)
  unfolding merge_change
  merge_change_inside this pb xs i x y d at q len =
      let inside : ltb (length pb) (length (pb ++ x ∷ xs)) ≡ true =
        ground (arith, length-append pb (x ∷ xs)) in
      rw (at, merge_change) (rw (q, len) (rw (inside, set-append_length pb x y xs)))

  pub Yields-change :
      (pa pb xs : List T) (changes : List (InnerVec D)) (x y : T) (d : D)
      → length pa ≡ length pb
      → Yields (pa ++ x ∷ xs) changes (pb ++ x ∷ xs)
      → inner.merge x d ≡ ok y
      → Yields (pa ++ x ∷ xs) (changes ++ change (length pa) d ∷ []) (pb ++ y ∷ xs)
  Yields-change pa pb xs changes x y d len h q =
      merge_changes-append (pa ++ x ∷ xs) changes (change (length pa) d ∷ []) (pa ++ x ∷ xs)
      ∙ rw (h, merge-change)
          (merge_change_inside (pa ++ x ∷ xs) pb xs (length pa) x y d
            (get_elem?-append_length pa x xs) q len)
