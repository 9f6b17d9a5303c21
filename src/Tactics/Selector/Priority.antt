-- ===== src/Tactics/Selector/Priority.antt =====
-- What the selector returns without a reason to stop is of the best priority.
use hsl.Prelude.{
  ℕ, ◌≤◌, Bool, true, false, not, ◌||◌, ◌≡◌, none, some, List, All, IsIn, string_eq, nat_eq,
}
use hsl.Prelude.Outcome.{Outcome}
use hsl.Match.Enums.{role_eq}
use hsl.Tactics.Proposals.{guard_eq, TacticalSnapshot}
use hsl.Tactics.Guards.{priority}
use hsl.Tactics.Selector.{CandidateEvaluation}
use hsl.Tactics.Selector.Choice.{SelectionResult, find_proposal, rank_of, is_eligible, eligible}

-- An applicable candidate has a priority.
abbrev is_ranked : CandidateEvaluation → Bool
is_ranked e = not e.applicable || elim e.priority [ none ↦ false | some rank ↦ true ]

-- The result `r` selects the proposal of an applicable candidate that moves, with the candidate's own
-- priority and utility; the priority is not behind that of any other.
pub record IsBest (s : TacticalSnapshot) (es : List CandidateEvaluation) (r : SelectionResult)
    (e : CandidateEvaluation) : Type 0 where
  pub good : is_eligible e ≡ true
  pub judged : IsIn e es
  pub own : find_proposal e.stable_key s.proposals ≡ some r.selected
  pub ranked : (rank : ℕ) × (r.priority ≡ some rank) × (e.priority ≡ some rank)
  pub valued : r.utility ≡ e.utility
  pub first : All (λ x. rank_of e ≤ rank_of x) (eligible es)
