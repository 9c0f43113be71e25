-- ===== src/Core/OrderedSet/Change.antt =====
-- `change`, and with it `replace` and `update`: the index arithmetic of the source against a plain
-- recursion, and key uniqueness.
use identity_rs.Core.OrderedSet.{OrderedSet, change, contains, replace, update}
use identity_rs.Core.OrderedSet.Laws.{IsUnique, contains-filter-false, filter-IsUnique}
use identity_rs.Prelude.{
  ℕ, suc, ◌≡◌, refl, ap, ◌∙◌, Bool, true, false, not, ◌||◌, ◌&&◌, none, some, [], ◌∷◌, ◌++◌, HasEq,
  ◌==◌, beq_sym, arith, any, filter, position, take, drop, insert_at, if◌then◌else◌, Bool-cases,
  inl, inr,
}

module _ {ℓ} {T : Type ℓ} where
  -- The first item that matches gives way to the new one, and the later matches are dropped.
  abbrev pub replace_first : (T → Bool) → T → OrderedSet T → OrderedSet T
  replace_first p new [] = []
  replace_first p new (x ∷ xs) =
      if p x then new ∷ filter (λ y. not (p y)) xs else x ∷ replace_first p new xs

  position-any : (p : T → Bool) (xs : OrderedSet T) → any p xs ≡ false → position p xs ≡ none
  position-any p [] h = refl
  position-any p (x ∷ xs) h = ground (arith, position-any p xs)

  found_at :
      (p : T → Bool) (new : T) (xs : OrderedSet T)
      → any p xs ≡ true
      → (i : ℕ) × (position p xs ≡ some i)
        × (insert_at i new (take i xs ++ filter (λ y. not (p y)) (drop i xs))
            ≡ replace_first p new xs)
  found_at p new [] h = absurd (ground arith)
  found_at p new (x ∷ xs) h = elim (Bool-cases (p x)) [
    | inl here ↦ (0, rw here, rw here)
    | inr there ↦
        let (i, at, eq) = found_at p new xs (ground arith) in
        (suc i, rw (there, at), rw there (ap (◌∷◌ x) eq))
  ]

  -- `change` is the plain recursion, and says whether anything matched.
  pub change-replace_first :
      (xs : OrderedSet T) (new : T) (f : T → T → Bool)
      → change xs new f ≡ (
          if any (λ x. f x new) xs
          then (replace_first (λ x. f x new) new xs, true)
          else (xs, false))
  unfolding change
  change-replace_first xs new f = elim (Bool-cases (any (λ x. f x new) xs)) [
    | inl hit ↦
        let (i, at, eq) = found_at (λ x. f x new) new xs hit in
        rw (hit, at, change) (ap (λ (s : OrderedSet T). (s, true)) eq)
    | inr miss ↦ rw (miss, position-any (λ x. f x new) xs miss, change)
  ]

module _ {ℓ} {T K : Type ℓ} ⦃e : HasEq K⦄ (key : T → K) where
  contains-replace_first-false :
      (p : T → Bool) (new : T) (j : K) (xs : OrderedSet T)
      → contains key xs j ≡ false
      → (key new == j) ≡ false
      → contains key (replace_first p new xs) j ≡ false
  unfolding contains
  contains-replace_first-false p new j [] h n = refl
  contains-replace_first-false p new j (x ∷ xs) h n = ground (
    arith,
    contains-replace_first-false p new j xs,
    contains-filter-false key (λ y. not (p y)) j xs,
  )

  module _ (p : T → Bool) (new : T)
      (covers : (y : T) → (key y == key new) ≡ true → p y ≡ true) where
    not-contains-filter :
        (xs : OrderedSet T) → contains key (filter (λ y. not (p y)) xs) (key new) ≡ false
    unfolding contains
    not-contains-filter [] = refl
    not-contains-filter (x ∷ xs) = ground (arith, covers x, not-contains-filter xs)

    replace_first-IsUnique :
        (xs : OrderedSet T) → IsUnique key xs → IsUnique key (replace_first p new xs)
    replace_first-IsUnique [] u = tt
    replace_first-IsUnique (x ∷ xs) u = elim (Bool-cases (p x)) [
      | inl here ↦ rw here (not-contains-filter xs, filter-IsUnique key (λ y. not (p y)) xs u.1)
      | inr there ↦ rw there (
        contains-replace_first-false p new (key x) xs u.0
            (ground (arith, covers x, beq_sym (key x) (key new))),
        replace_first-IsUnique xs u.1,
      )
    ]

  pub change-IsUnique :
      (xs : OrderedSet T) (new : T) (f : T → T → Bool)
      → ((y : T) → (key y == key new) ≡ true → f y new ≡ true)
      → IsUnique key xs
      → IsUnique key (change xs new f).0
  change-IsUnique xs new f covers u =
      rw change-replace_first (elim (Bool-cases (any (λ x. f x new) xs)) [
        | inl hit ↦ rw hit (replace_first-IsUnique (λ x. f x new) new covers xs u)
        | inr miss ↦ rw miss u
      ])

  pub replace-IsUnique :
      (xs : OrderedSet T) (current : K) (new : T)
      → IsUnique key xs
      → IsUnique key (replace key xs current new).0
  unfolding replace
  replace-IsUnique xs current new u =
      change-IsUnique xs new (λ item upd. key item == current || key item == key upd)
        (λ y h. ground arith) u

  pub update-IsUnique :
      (xs : OrderedSet T) (new : T) → IsUnique key xs → IsUnique key (update key xs new).0
  unfolding update
  update-IsUnique xs new u = change-IsUnique xs new (λ item upd. key item == key upd) (λ y h. h) u

  replaces : K → T → T → Bool
  replaces current new item = key item == current || key item == key new

  contains-kept :
      (current : K) (new : T) (j : K) (xs : OrderedSet T)
      → contains key (filter (λ y. not (replaces current new y)) xs) j
        ≡ (contains key xs j && not (j == current) && not (j == key new))
  unfolding contains replaces
  contains-kept current new j [] = refl
  contains-kept current new j (x ∷ xs) = ground (
    arith,
    contains-kept current new j xs,
    e.beq_iff (key x) j,
    e.beq_iff (key x) current,
    e.beq_iff (key x) (key new),
    e.beq_iff j current,
    e.beq_iff j (key new),
  )

  contains-replace_first :
      (current : K) (new : T) (j : K) (xs : OrderedSet T)
      → any (replaces current new) xs ≡ true
      → contains key (replace_first (replaces current new) new xs) j
        ≡ (key new == j || (contains key xs j && not (j == current)))
  unfolding contains replaces
  contains-replace_first current new j [] h = absurd (ground arith)
  contains-replace_first current new j (x ∷ xs) h = ground (
    arith,
    contains-replace_first current new j xs,
    contains-kept current new j xs,
    e.beq_iff (key x) j,
    e.beq_iff (key x) current,
    e.beq_iff (key x) (key new),
    e.beq_iff j current,
    e.beq_iff (key new) j,
    e.beq_iff j (key new),
  )

  any-replaces :
      (current : K) (new : T) (xs : OrderedSet T)
      → any (replaces current new) xs ≡ (contains key xs current || contains key xs (key new))
  unfolding contains replaces
  any-replaces current new [] = refl
  any-replaces current new (x ∷ xs) = ground (arith, any-replaces current new xs)

  -- A `replace` that finds the current or the new key leaves the new key present, the replaced key
  -- absent unless it is the new one, and the presence of every other key as before; one that finds
  -- neither changes nothing. The result says which of the two happened.
  pub contains-replace :
      (xs : OrderedSet T) (current : K) (new : T) (j : K)
      → (contains key (replace key xs current new).0 j ≡ (
          if contains key xs current || contains key xs (key new)
          then key new == j || (contains key xs j && not (j == current))
          else contains key xs j))
        × ((replace key xs current new).1 ≡ (contains key xs current || contains key xs (key new)))
  unfolding replace replaces
  contains-replace xs current new j =
      let found = any-replaces current new xs in
      rw (change-replace_first, found)
        (elim (Bool-cases (contains key xs current || contains key xs (key new))) [
          | inl hit ↦ rw hit (contains-replace_first current new j xs (found ∙ hit), refl)
          | inr miss ↦ rw miss (refl, refl)
        ])
