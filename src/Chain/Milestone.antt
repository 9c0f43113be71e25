-- ===== src/Chain/Milestone.antt =====
-- identity_iota_client/src/chain/milestone.rs. The node that is asked for the milestone of a message
-- is a parameter: the index of the milestone, nothing if there is none, or an error.
pub mod Laws
use identity_rs.Chain.Index.{MessageId, TangleRef}
use identity_rs.Prelude.{
  ℕ, Bool, ◌||◌, ◌&&◌, Option, none, some, List, [], ◌∷◌, if◌then◌else◌, ltb, nat_beq, Outcome, ok,
  err, ◌>>=◌, traverse,
}

pub data Error : Type 0 where
  did_not_found : Error
  invalid_root_document invalid_message_id : Error
  invalid_did missing_message_id missing_previous_message_id : Error
  invalid_previous_message_id invalid_signature : Error
  invalid_diff cannot_alter_signing_methods : Error
  client_error : Error

module _ {T : Type 0} (tangle : TangleRef T) where
  -- `milestone_index.map(|index| (index, message))`
  unfoldable pub confirmed : List (Option ℕ × T) → List (ℕ × T)
  confirmed [] = []
  confirmed ((none, message) ∷ messages) = confirmed messages
  confirmed ((some index, message) ∷ messages) = (index, message) ∷ confirmed messages

  -- the order of `sorted_unstable_by`, strictly
  unfoldable pub precedes : ℕ × T → ℕ × T → Bool
  precedes (a_milestone, a_message) (b_milestone, b_message) =
      if nat_beq a_milestone b_milestone
      then ltb (tangle.message_id a_message) (tangle.message_id b_message)
      else ltb a_milestone b_milestone

  -- `sorted_unstable_by`, as a sort by insertion
  unfoldable pub sort_in : ℕ × T → List (ℕ × T) → List (ℕ × T)
  sort_in a [] = a ∷ []
  sort_in a (b ∷ sorted) = if precedes b a then b ∷ sort_in a sorted else a ∷ b ∷ sorted

  unfoldable pub sorted_by : List (ℕ × T) → List (ℕ × T)
  sorted_by [] = []
  sorted_by (a ∷ messages) = sort_in a (sorted_by messages)

  -- `.map(|(_, message)| message)`
  unfoldable pub messages_of : List (ℕ × T) → List T
  messages_of [] = []
  messages_of ((index, message) ∷ sorted) = message ∷ messages_of sorted

  unfoldable pub sort_by_milestone_index : List (Option ℕ × T) → List T
  sort_by_milestone_index messages = messages_of (sorted_by (confirmed messages))

  module _ (milestone : MessageId → Outcome Error (Option ℕ)) where
    unfoldable pub with_milestone : T → Outcome Error (Option ℕ × T)
    with_milestone message = milestone (tangle.message_id message) >>= λ index. ok (index, message)

    -- A list of at most one message is returned as it is.
    unfoldable pub sort_by_milestone : List T → Outcome Error (List T)
    sort_by_milestone [] = ok []
    sort_by_milestone (message ∷ []) = ok (message ∷ [])
    sort_by_milestone (message ∷ message' ∷ messages) =
        traverse with_milestone (message ∷ message' ∷ messages) >>= λ milestones.
        ok (sort_by_milestone_index milestones)
