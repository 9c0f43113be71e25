-- ===== src/Chain/Index/Order.antt =====
-- The lists of the index: each holds the messages of its key in the order of their ids, so that the
-- index does not depend on the order in which the messages are received.
use mathlib.Core.List.{Permᴰ}
use identity_rs.Chain.Index.{
  MessageId, MessageIndex, TangleRef, search, insert_sorted, insert_message, extend, from_iter, new,
}
use identity_rs.Prelude.{
  ◌≡◌, ◌≢◌, ◌∙◌, sym, subst, refl, ap, Option, none, some, List, [], ◌∷◌, ◌==◌, if◌then◌else◌, ltb,
  get, get-insert, nat_eq, nat_beq, arith, Bool-cases, Option-cases, inl, inr, All,
}

-- Two indices with the same lists.
abbrev pub Same : {T : Type 0} → MessageIndex T → MessageIndex T → Type 0
Same index index' = (key : MessageId) → get index key ≡ get index' key

module _ {ℓ} {A : Type ℓ} where
  All-map {κ μ} :
      {P : A → Type κ} {Q : A → Type μ}
      → ((x : A) → P x → Q x)
      → (xs : List A) → All P xs
      → All Q xs
  All-map f [] h = tt
  All-map f (x ∷ xs) h = (f x h.0, All-map f xs h.1)

  All-perm {κ} : (P : A → Type κ) {xs ys : List A} → Permᴰ xs ys → All P xs → All P ys
  All-perm P Permᴰ.nil h = tt
  All-perm P (Permᴰ.cons eq p) h = (subst P eq h.0, All-perm P p h.1)
  All-perm P (Permᴰ.swap eq eq') h = (subst P eq' h.1.0, (subst P eq h.0, h.1.1))
  All-perm P (Permᴰ.trans p q) h = All-perm P q (All-perm P p h)

module _ {T : Type 0} (tangle : TangleRef T) where
  open tangle use {message_id, previous_message_id}

  insert_sorted-cons :
      (y x : T) (scope : List T)
      → insert_sorted tangle (y ∷ scope) x ≡ (
          if ltb (message_id y) (message_id x)
          then y ∷ insert_sorted tangle scope x
          else x ∷ y ∷ scope)
  unfolding insert_sorted search
  insert_sorted-cons y x scope = ground arith

  insert_sorted_swap :
      (x y : T) (scope : List T)
      → message_id x ≢ message_id y
      → insert_sorted tangle (insert_sorted tangle scope x) y
        ≡ insert_sorted tangle (insert_sorted tangle scope y) x
  unfolding insert_sorted search
  insert_sorted_swap x y [] ne = ground arith
  insert_sorted_swap x y (z ∷ scope) ne = ground (
    arith,
    insert_sorted-cons z x scope,
    insert_sorted-cons z y scope,
    insert_sorted-cons x y (z ∷ scope),
    insert_sorted-cons y x (z ∷ scope),
    insert_sorted-cons z y (insert_sorted tangle scope x),
    insert_sorted-cons z x (insert_sorted tangle scope y),
    insert_sorted_swap x y scope ne,
  )

  -- The list of a key after the insertion of a message with that key.
  abbrev placed : T → Option (List T) → List T
  placed element none = element ∷ []
  placed element (some scope) = insert_sorted tangle scope element

  get-insert_message :
      (index : MessageIndex T) (element : T) (key : MessageId)
      → get (insert_message tangle index element) key ≡ (
          if previous_message_id element == key
          then some (placed element (get index key))
          else get index key)
  unfolding insert_message
  get-insert_message index element key =
      elim (Option-cases (get index (previous_message_id element))) [
        | inl absent ↦
            rw (absent, insert_message)
              (get-insert index (previous_message_id element) key (element ∷ [])
                ∙ ground (arith, absent))
        | inr (scope, found) ↦
            rw (found, insert_message)
              (get-insert index (previous_message_id element) key
                  (insert_sorted tangle scope element)
                ∙ ground (arith, found))
      ]

  insert_message-Same :
      (index index' : MessageIndex T) (element : T)
      → Same index index'
      → Same (insert_message tangle index element) (insert_message tangle index' element)
  insert_message-Same index index' element same key =
      rw (get-insert_message, same key) (sym (get-insert_message index' element key))

  insert_message_swap :
      (index : MessageIndex T) (x y : T)
      → message_id x ≢ message_id y
      → Same
          (insert_message tangle (insert_message tangle index x) y)
          (insert_message tangle (insert_message tangle index y) x)
  unfolding insert_sorted search
  insert_message_swap index x y ne key =
      rw (get-insert_message, get-insert_message, get-insert_message, get-insert_message)
        (elim (Option-cases (get index key)) [
          | inl absent ↦ rw absent (ground arith)
          | inr (scope, found) ↦ rw found (ground (arith, insert_sorted_swap x y scope ne))
        ])

  -- The ids of these messages tell them apart, as the hashes of their contents do.
  abbrev pub IdsIdentify : List T → Type 0
  IdsIdentify messages = All (λ x. All (λ y. message_id x ≡ message_id y → x ≡ y) messages) messages

  IdsIdentify-tail : (x : T) (xs : List T) → IdsIdentify (x ∷ xs) → IdsIdentify xs
  IdsIdentify-tail x xs h = All-map (λ y q. q.1) xs h.1

  IdsIdentify-perm : {xs ys : List T} → Permᴰ xs ys → IdsIdentify xs → IdsIdentify ys
  IdsIdentify-perm {xs} {ys} p h =
      All-perm (λ x. All (λ y. message_id x ≡ message_id y → x ≡ y) ys) p
        (All-map (λ x. All-perm (λ y. message_id x ≡ message_id y → x ≡ y) p) xs h)

  extend_list-Same :
      (xs : List T) (index index' : MessageIndex T)
      → Same index index'
      → Same (extend tangle index xs) (extend tangle index' xs)
  unfolding extend
  extend_list-Same [] index index' same = same
  extend_list-Same (x ∷ xs) index index' same =
      extend_list-Same xs (insert_message tangle index x) (insert_message tangle index' x)
        (insert_message-Same index index' x same)

  insert_two :
      (index : MessageIndex T) (x y : T)
      → (message_id x ≡ message_id y → x ≡ y)
      → Same
          (insert_message tangle (insert_message tangle index x) y)
          (insert_message tangle (insert_message tangle index y) x)
  insert_two index x y identify key = elim (Bool-cases (nat_beq (message_id x) (message_id y))) [
    | inl same ↦
        let eq : x ≡ y = identify (ground arith) in
        subst
          (λ z.
            get (insert_message tangle (insert_message tangle index x) z) key
            ≡ get (insert_message tangle (insert_message tangle index z) x) key)
          eq refl
    | inr differ ↦ insert_message_swap index x y (λ q. absurd (ground arith)) key
  ]

  extend-Same :
      {xs ys : List T}
      → Permᴰ xs ys
      → IdsIdentify xs
      → (index index' : MessageIndex T) → Same index index'
      → Same (extend tangle index xs) (extend tangle index' ys)
  unfolding extend
  extend-Same Permᴰ.nil identify index index' same = same
  extend-Same (Permᴰ.cons {a} {b} {l₁} eq p) identify index index' same =
      extend-Same p (IdsIdentify-tail a l₁ identify) (insert_message tangle index a)
        (insert_message tangle index' b)
        (λ key.
          insert_message-Same index index' a same key
          ∙ ap (λ z. get (insert_message tangle index' z) key) eq)
  extend-Same (Permᴰ.swap {a} {b} {a'} {b'} {l} eq eq') identify index index' same =
      extend_list-Same l (insert_message tangle (insert_message tangle index a) b)
        (insert_message tangle (insert_message tangle index' a') b')
        (λ key.
          insert_two index a b identify.0.1.0 key
          ∙ insert_message-Same (insert_message tangle index b) (insert_message tangle index' b) a
              (insert_message-Same index index' b same) key
          ∙ λ i. get (insert_message tangle (insert_message tangle index' (eq' i)) (eq i)) key)
  extend-Same (Permᴰ.trans p q) identify index index' same = λ key.
      extend-Same p identify index index (λ k. refl) key
      ∙ extend-Same q (IdsIdentify-perm p identify) index index' same key

  -- The index of the messages has the same list under each key, in whatever order they are received,
  -- if their ids tell them apart.
  pub from_iter-Same :
      (xs ys : List T)
      → IdsIdentify xs
      → Permᴰ xs ys
      → (key : MessageId) → get (from_iter tangle xs) key ≡ get (from_iter tangle ys) key
  unfolding from_iter
  from_iter-Same xs ys identify p = extend-Same p identify new new (λ key. refl)
