-- ===== src/Chain/Index/Sorted.antt =====
-- The well-formedness of the index: what `search` relies on, and every operation keeps.
use identity_rs.Chain.Index.{
  MessageId, MessageIndex, TangleRef, search, insert_sorted, insert_message, new, remove_at,
  take_at, remove_where,
}
use identity_rs.Prelude.{
  ℕ, zero, suc, ◌≤◌, ◌≡◌, refl, subst, Bool, Option, none, some, List, [], ◌∷◌, position, get,
  insert, remove_key, get-insert, get-remove_key, nat_eq, nat_beq, arith, Bool-cases, Option-cases,
  inl, inr,
}

module _ {T : Type 0} (tangle : TangleRef T) where
  open tangle use {message_id, previous_message_id}

  -- The list holds messages with this key, in the order of their ids.
  abbrev pub IsScope : MessageId → List T → Type 0
  IsScope key [] = Unit
  IsScope key (x ∷ []) = previous_message_id x ≡ key
  IsScope key (x ∷ y ∷ scope) =
      (previous_message_id x ≡ key) × (message_id x ≤ message_id y) × IsScope key (y ∷ scope)

  abbrev pub IsIndex : MessageIndex T → Type 0
  IsIndex index =
      (key : MessageId) (scope : List T) → get index key ≡ some scope → IsScope key scope

  insert_sorted-IsScope :
      (key : MessageId) (element : T) (scope : List T)
      → previous_message_id element ≡ key
      → IsScope key scope
      → IsScope key (insert_sorted tangle scope element)
  unfolding insert_sorted search
  insert_sorted-IsScope key element [] at v = at
  insert_sorted-IsScope key element (x ∷ []) at v = ground arith
  insert_sorted-IsScope key element (x ∷ y ∷ scope) at v =
      ground (arith, insert_sorted-IsScope key element (y ∷ scope) at)

  IsScope-tail :
      (key : MessageId) (x : T) (scope : List T) → IsScope key (x ∷ scope) → IsScope key scope
  IsScope-tail key x [] v = tt
  IsScope-tail key x (y ∷ scope) v = v.2

  remove_at-IsScope :
      (key : MessageId) (scope : List T) (i : ℕ)
      → IsScope key scope
      → IsScope key (remove_at scope i)
  remove_at-IsScope key [] i v = tt
  remove_at-IsScope key (x ∷ scope) zero v = IsScope-tail key x scope v
  remove_at-IsScope key (x ∷ []) (suc i) v = v
  remove_at-IsScope key (x ∷ y ∷ []) (suc zero) v = v.0
  remove_at-IsScope key (x ∷ y ∷ z ∷ scope) (suc zero) v = (v.0, omega (arith, v.1, v.2.1), v.2.2)
  remove_at-IsScope key (x ∷ y ∷ scope) (suc (suc i)) v =
      (v.0, v.1, remove_at-IsScope key (y ∷ scope) (suc i) v.2)

  insert-IsIndex :
      (index : MessageIndex T) (key : MessageId) (scope : List T)
      → IsIndex index
      → IsScope key scope
      → IsIndex (insert index key scope)
  insert-IsIndex index key scope v s j found h = elim (Bool-cases (nat_beq key j)) [
    | inl same ↦
        let eq : key ≡ j = ground arith in
        let eq' : scope ≡ found = ground (arith, get-insert index key j scope) in
        subst (λ k. IsScope k found) eq (subst (λ l. IsScope key l) eq' s)
    | inr differ ↦ v j found (ground (arith, get-insert index key j scope))
  ]

  insert_message-IsIndex :
      (index : MessageIndex T) (element : T)
      → IsIndex index
      → IsIndex (insert_message tangle index element)
  unfolding insert_message
  insert_message-IsIndex index element v =
      elim (Option-cases (get index (previous_message_id element))) [
        | inl absent ↦
            rw (absent, insert_message)
              (insert-IsIndex index (previous_message_id element) (element ∷ []) v refl)
        | inr (scope, found) ↦
            rw (found, insert_message)
              (insert-IsIndex index (previous_message_id element)
                (insert_sorted tangle scope element) v
                (insert_sorted-IsScope (previous_message_id element) element scope refl
                  (v (previous_message_id element) scope found)))
      ]

  remove_key-IsIndex :
      (index : MessageIndex T) (key : MessageId) → IsIndex index → IsIndex (remove_key index key)
  remove_key-IsIndex index key v j found h = v j found (ground (arith, get-remove_key index key j))

  take_at-IsScope :
      (key : MessageId) (scope : List T) (i : Option ℕ)
      → IsScope key scope
      → IsScope key (take_at scope i).0
  unfolding take_at
  take_at-IsScope key scope none v = v
  take_at-IsScope key scope (some i) v = remove_at-IsScope key scope i v

  remove_where-IsIndex :
      (index : MessageIndex T) (key : MessageId) (f : T → Bool)
      → IsIndex index
      → IsIndex (remove_where index key f).0
  unfolding remove_where
  remove_where-IsIndex index key f v = elim (Option-cases (get index key)) [
    | inl absent ↦ rw (absent, remove_where) v
    | inr (scope, found) ↦
        rw (found, remove_where)
          (insert-IsIndex index key (take_at scope (position f scope)).0 v
            (take_at-IsScope key scope (position f scope) (v key scope found)))
  ]

  -- The indices that the operations build; `removed` is the removal of a key, which the chains use.
  pub data Built : MessageIndex T → Type 0 where
    empty : Built new
    inserted :
        (index : MessageIndex T) (element : T)
        → Built index
        → Built (insert_message tangle index element)
    removed :
        (index : MessageIndex T) (key : MessageId) → Built index → Built (remove_key index key)
    removed_where :
        (index : MessageIndex T) (key : MessageId) (f : T → Bool)
        → Built index
        → Built (remove_where index key f).0

  Built-IsIndex : (index : MessageIndex T) → Built index → IsIndex index
  unfolding new get
  Built-IsIndex _ empty = λ key scope h. absurd (ground arith)
  Built-IsIndex _ (inserted index element b) =
      insert_message-IsIndex index element (Built-IsIndex index b)
  Built-IsIndex _ (removed index key b) = remove_key-IsIndex index key (Built-IsIndex index b)
  Built-IsIndex _ (removed_where index key f b) =
      remove_where-IsIndex index key f (Built-IsIndex index b)

  -- In an index that the operations build from the empty one, each list holds messages that refer to
  -- its key as the previous message, in the order of their ids.
  pub Built-IsScope :
      (index : MessageIndex T)
      → Built index
      → (key : MessageId) (scope : List T) → get index key ≡ some scope
      → IsScope key scope
  Built-IsScope index b = Built-IsIndex index b
