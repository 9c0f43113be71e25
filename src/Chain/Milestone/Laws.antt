-- ===== src/Chain/Milestone/Laws.antt =====
-- The order by milestones: it is sorted and loses no confirmed message, and what holds of all messages
-- holds of those that come out.
use mathlib.Core.List.{Perm}
use mathlib.Core.List.Perm
use identity_rs.Chain.Index.{MessageId, TangleRef}
use identity_rs.Chain.Milestone.{
  Error, confirmed, precedes, sort_in, sorted_by, messages_of, sort_by_milestone_index,
  with_milestone, sort_by_milestone,
}
use identity_rs.Prelude.{
  ℕ, ◌≡◌, subst, true, false, Option, none, some, List, [], ◌∷◌, Outcome, ok, traverse, All, arith,
  Bool-cases, Outcome-cases, inl, inr,
}

module _ {T : Type 0} (tangle : TangleRef T) where
  -- No later message precedes an earlier one.
  abbrev pub IsSorted : List (ℕ × T) → Type 0
  IsSorted [] = Unit
  IsSorted (a ∷ []) = Unit
  IsSorted (a ∷ b ∷ sorted) = (precedes tangle b a ≡ false) × IsSorted (b ∷ sorted)

  precedes_asym : (a b : ℕ × T) → precedes tangle a b ≡ true → precedes tangle b a ≡ false
  unfolding precedes
  precedes_asym a b h = ground arith

  sort_in-IsSorted :
      (a : ℕ × T) (sorted : List (ℕ × T)) → IsSorted sorted → IsSorted (sort_in tangle a sorted)
  unfolding sort_in
  sort_in-IsSorted a [] v = tt
  sort_in-IsSorted a (b ∷ []) v = ground (arith, precedes_asym b a)
  sort_in-IsSorted a (b ∷ c ∷ sorted) v =
      ground (arith, precedes_asym b a, sort_in-IsSorted a (c ∷ sorted))

  sort_in-perm : (a : ℕ × T) (sorted : List (ℕ × T)) → Perm (sort_in tangle a sorted) (a ∷ sorted)
  unfolding sort_in
  sort_in-perm a [] = Perm.rfl
  sort_in-perm a (b ∷ sorted) = elim (Bool-cases (precedes tangle b a)) [
    | inl before ↦
        rw before (Perm.trans (Perm.cons b (sort_in-perm a sorted)) (Perm.swap a b sorted))
    | inr after ↦ rw after Perm.rfl
  ]

  -- The messages that a milestone confirms are sorted by the index of the milestone and then by their
  -- ids, and none is lost or added.
  pub sorted_by-IsSorted :
      (messages : List (ℕ × T))
      → IsSorted (sorted_by tangle messages) × Perm (sorted_by tangle messages) messages
  unfolding sorted_by
  sorted_by-IsSorted [] = (tt, Perm.rfl)
  sorted_by-IsSorted (a ∷ messages) =
      let (ordered, same) = sorted_by-IsSorted messages in
      (
        sort_in-IsSorted a (sorted_by tangle messages) ordered,
        Perm.trans (sort_in-perm a (sorted_by tangle messages)) (Perm.cons a same),
      )

  module _ (P : T → Type 0) where
    confirmed-All :
        (messages : List (Option ℕ × T))
        → All (λ m. P m.1) messages
        → All (λ m. P m.1) (confirmed tangle messages)
    unfolding confirmed
    confirmed-All [] v = tt
    confirmed-All ((none, message) ∷ messages) v = confirmed-All messages v.1
    confirmed-All ((some index, message) ∷ messages) v = (v.0, confirmed-All messages v.1)

    sort_in-All :
        (a : ℕ × T) (sorted : List (ℕ × T))
        → P a.1
        → All (λ m. P m.1) sorted
        → All (λ m. P m.1) (sort_in tangle a sorted)
    unfolding sort_in
    sort_in-All a [] p v = (p, tt)
    sort_in-All a (b ∷ sorted) p v = elim (Bool-cases (precedes tangle b a)) [
      | inl before ↦ rw before (v.0, sort_in-All a sorted p v.1)
      | inr after ↦ rw after (p, v)
    ]

    sorted_by-All :
        (messages : List (ℕ × T))
        → All (λ m. P m.1) messages
        → All (λ m. P m.1) (sorted_by tangle messages)
    unfolding sorted_by
    sorted_by-All [] v = tt
    sorted_by-All (a ∷ messages) v =
        sort_in-All a (sorted_by tangle messages) v.0 (sorted_by-All messages v.1)

    messages_of-All :
        (sorted : List (ℕ × T)) → All (λ m. P m.1) sorted → All P (messages_of tangle sorted)
    unfolding messages_of
    messages_of-All [] v = tt
    messages_of-All ((index, message) ∷ sorted) v = (v.0, messages_of-All sorted v.1)

    module _ (milestone : MessageId → Outcome Error (Option ℕ)) where
      traverse-All :
          (messages : List T) (milestones : List (Option ℕ × T))
          → traverse (with_milestone tangle milestone) messages ≡ ok milestones
          → All P messages
          → All (λ m. P m.1) milestones
      unfolding with_milestone
      traverse-All [] milestones h v =
          let eq : [] ≡ milestones = ground arith in subst (All (λ m. P m.1)) eq tt
      traverse-All (message ∷ messages) milestones h v =
          elim (Outcome-cases (milestone (tangle.message_id message))) [
            | inr (e, failed) ↦ absurd (ground arith)
            | inl (index, found) ↦
                elim (Outcome-cases (traverse (with_milestone tangle milestone) messages)) [
                  | inr (e, failed) ↦ absurd (ground arith)
                  | inl (rest, fetched) ↦
                      let eq : (index, message) ∷ rest ≡ milestones = ground arith in
                      subst (All (λ m. P m.1)) eq (v.0, traverse-All messages rest fetched v.1)
                ]
          ]

      pub sort_by_milestone-All :
          (messages sorted : List T)
          → sort_by_milestone tangle milestone messages ≡ ok sorted
          → All P messages
          → All P sorted
      unfolding sort_by_milestone sort_by_milestone_index
      sort_by_milestone-All [] sorted h v =
          let eq : [] ≡ sorted = ground arith in subst (All P) eq tt
      sort_by_milestone-All (message ∷ []) sorted h v =
          let eq : message ∷ [] ≡ sorted = ground arith in subst (All P) eq v
      sort_by_milestone-All (message ∷ message' ∷ messages) sorted h v =
          elim (Outcome-cases
            (traverse (with_milestone tangle milestone) (message ∷ message' ∷ messages))) [
              | inr (e, failed) ↦ absurd (ground arith)
              | inl (milestones, fetched) ↦
                  let eq : sort_by_milestone_index tangle milestones ≡ sorted = ground arith in
                  let all = traverse-All (message ∷ message' ∷ messages) milestones fetched v in
                  subst (All P) eq (
                    messages_of-All (sorted_by tangle (confirmed tangle milestones))
                      (sorted_by-All (confirmed tangle milestones) (confirmed-All milestones all)))
            ]
