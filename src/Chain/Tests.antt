-- ===== src/Chain/Tests.antt =====
-- Runs of the chains on a few messages. A document is the pair of its DID and of its previous message
-- id; a difference is the pair of its own id and of its previous one.
use mathlib.Core.List.{Permᴰ}
use identity_rs.Chain.Index.{MessageId, MessageIndex, TangleRef, from_iter}
use identity_rs.Chain.Milestone.{Error}
use identity_rs.Chain.Documents.{Documents, ResolvedIotaDocument, resolved_tangle}
use identity_rs.Chain.Integration.{
  IntegrationChain, try_from_index, try_from_messages, into_documents, try_push, is_ok,
  extract_documents,
}
use identity_rs.Chain.Integration
use identity_rs.Chain.Integration.Links.{IsChain}
use identity_rs.Chain.Integration.Loop.{try_from_index-IsChain}
use identity_rs.Chain.Integration.Arrival.{try_from_messages_perm}
use identity_rs.Chain.Differences.{DiffMessages}
use identity_rs.Chain.History.{new_history, current, fold, try_push_diff}
use identity_rs.Chain.History.Folding.{Grown-fold, from_integration, pushed_diff}
use identity_rs.Prelude.{
  ℕ, ◌≡◌, ◌⊎◌, refl, true, Option, some, none, [], ◌∷◌, Outcome, ok, err, nat_eq, list_eq, HasEq,
  ◌&&◌, nat_beq, arith,
}

instance abbrev pair_eq : HasEq (ℕ × ℕ)
pair_eq = record {
  same? = λ a b. nat_beq a.0 b.0 && nat_beq a.1 b.1;
  beq_iff = λ a b. ground arith;
}

abbrev ids : TangleRef (ℕ × ℕ)
ids = record { message_id = λ m. m.0; previous_message_id = λ m. m.1 }

-- every signature is good
abbrev docs : Documents ℕ (ℕ × ℕ)
docs = record {
  id = λ d. d.0;
  previous_message_id = λ d. d.1;
  is_self_certified = λ d. true;
  verify_document = λ a b. true;
}

abbrev resolved : ℕ → ℕ → ResolvedIotaDocument (ℕ × ℕ)
resolved id previous = record {
  document = (42, previous);
  integration_message_id = id;
  diff_message_id = 0;
}

abbrev first : IntegrationChain (ℕ × ℕ)
first = record { history = none; current = resolved 1 0 }

abbrev no_milestone : MessageId → Outcome Error (Option ℕ)
no_milestone id = ok none

try_from_index-IsChain_example :
    ((error : Error) × (try_from_index docs no_milestone
          (from_iter (resolved_tangle docs) (resolved 2 1 ∷ resolved 1 0 ∷ []))
        ≡ some (err error)))
    ⊎ ((chain : IntegrationChain (ℕ × ℕ)) × (try_from_index docs no_milestone
            (from_iter (resolved_tangle docs) (resolved 2 1 ∷ resolved 1 0 ∷ []))
          ≡ some (ok chain))
        × IsChain docs (into_documents chain))
try_from_index-IsChain_example =
    try_from_index-IsChain docs no_milestone
      (from_iter (resolved_tangle docs) (resolved 2 1 ∷ resolved 1 0 ∷ []))

try_from_messages_perm_example :
    try_from_messages docs no_milestone (λ m. some m) (resolved 2 1 ∷ resolved 1 0 ∷ [])
    ≡ try_from_messages docs no_milestone (λ m. some m) (resolved 1 0 ∷ resolved 2 1 ∷ [])
unfolding extract_documents Integration.extracted
try_from_messages_perm_example =
    try_from_messages_perm docs no_milestone (λ m. some m) (resolved 2 1 ∷ resolved 1 0 ∷ [])
      (resolved 1 0 ∷ resolved 2 1 ∷ [])
      (
        (λ q. refl, (λ q. absurd (omega arith), tt)),
        ((λ q. absurd (omega arith), (λ q. refl, tt)), tt),
      )
      (Permᴰ.swap refl refl)

-- a difference is merged by writing nothing
abbrev diffs : DiffMessages ℕ (ℕ × ℕ) (ℕ × ℕ) ℕ
diffs = record {
  tangle = ids;
  diff_id = λ m. 42;
  verify_diff = λ d m. true;
  merge = λ d m. ok d;
  extract_signing_keys = λ d. 0;
}

abbrev diff_index : MessageIndex (ℕ × ℕ)
diff_index = from_iter ids ((4, 3) ∷ (3, 1) ∷ [])

Grown-fold_example :
    fold docs diffs (try_push_diff docs diffs (new_history first) (3, 1)).0
    ≡ ok (current (try_push_diff docs diffs (new_history first) (3, 1)).0)
Grown-fold_example =
    Grown-fold docs diffs (try_push_diff docs diffs (new_history first) (3, 1)).0
      (pushed_diff (new_history first) (3, 1) (from_integration first))
