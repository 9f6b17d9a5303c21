-- ===== src/Tactics/Selector/Choice.antt =====
-- hsl_core/hsl_core/tactics/fsm.py: `TacticalSelector.select`, the order of the candidates and the
-- constructor. A text is ordered by its code points.
use hsl.Prelude.{
  ℕ, ◌+◌, String, Bool, true, false, not, ◌&&◌, ◌||◌, Option, none, some, List, [], ◌∷◌,
  if◌then◌else◌, leb, ltb, is_empty, str_le, nat_eqb, ◌==◌, string_eq, nat_eq,
}
use hsl.Prelude.Int.{ℤ, pos, ltb_ℤ}
use hsl.Prelude.Outcome.{Outcome, ok, refuse, ◌>>◌}
use hsl.Match.Enums.{role_eq}
use hsl.Options.{kind_int, OptionGoal, OptionRegistry, is_hold_safe}
use hsl.Tactics.Utility.{UtilityProfile, UtilityResult, unit_utility}
use hsl.Tactics.Proposals.{OptionProposal}
use hsl.Tactics.Selector.{CandidateEvaluation}

pub record TacticalSelector : Type 0 where
  pub utility_profile : UtilityProfile
  pub registry : OptionRegistry
  pub hysteresis_delta_u : ℕ
  pub minimum_dwell_ns : ℕ
  pub max_proposals : ℕ
  pub last_now_ns : ℕ

-- The constructor of `TacticalSelector`
unfoldable pub new : UtilityProfile → OptionRegistry → ℕ → ℕ → ℕ → Outcome TacticalSelector
new profile registry hysteresis dwell max_proposals = do
  refuse (not (leb hysteresis (unit_utility + unit_utility)))
      "hysteresis_delta_u must be finite and within [0, 2]"
  refuse (nat_eqb max_proposals 0 || not (leb max_proposals 256))
      "max_proposals must be an integer in [1, 256]"
  ok (record {
    utility_profile = profile;
    registry = registry;
    hysteresis_delta_u = hysteresis;
    minimum_dwell_ns = dwell;
    max_proposals = max_proposals;
    last_now_ns = 0;
  })

-- The option that the caller runs, as it names it: a key, an instance and a start.
pub record CurrentOption : Type 0 where
  pub stable_key : String
  pub option_instance_id : String
  pub started_at_ns : Option ℕ

pub record SelectionResult : Type 0 where
  pub selected : OptionProposal
  pub priority : Option ℕ
  pub utility : Option UtilityResult
  pub reason : String
  pub changed : Bool
  pub alternatives : List CandidateEvaluation
  pub utility_profile_id : String

-- `_validate_current`
unfoldable pub validate_current : ℕ → CurrentOption → Outcome (Unit {0})
validate_current now current =
    let named = not (is_empty current.stable_key) in
    let instanced = not (is_empty current.option_instance_id) in
    elim current.started_at_ns [
      | none ↦
          refuse (named || instanced)
            "current option key, instance ID and start time must be supplied together"
      | some started ↦ (do
        refuse (not (named && instanced))
            "current option key, instance ID and start time must be supplied together"
        refuse (not (leb started now)) "current_started_at_ns must be within [0, now_ns]")
    ]

-- `sorted` by the stable key.
unfoldable pub insert_evaluation :
    CandidateEvaluation → List CandidateEvaluation → List CandidateEvaluation
insert_evaluation e [] = e ∷ []
insert_evaluation e (x ∷ xs) =
    let rest = insert_evaluation e xs in
    if str_le e.stable_key x.stable_key then e ∷ x ∷ xs else x ∷ rest

unfoldable pub sorted_evaluations : List CandidateEvaluation → List CandidateEvaluation
unfolding insert_evaluation
sorted_evaluations [] = []
sorted_evaluations (e ∷ es) = insert_evaluation e (sorted_evaluations es)

-- The two dictionaries by stable key.
unfoldable pub find_proposal : String → List OptionProposal → Option OptionProposal
find_proposal key [] = none
find_proposal key (p ∷ ps) =
    let rest = find_proposal key ps in if p.stable_key == key then some p else rest

unfoldable pub find_evaluation : String → List CandidateEvaluation → Option CandidateEvaluation
find_evaluation key [] = none
find_evaluation key (e ∷ es) =
    let rest = find_evaluation key es in if e.stable_key == key then some e else rest

-- `_urgency_rank`
abbrev pub urgency_rank : Option OptionProposal → ℕ
urgency_rank none = 0
urgency_rank (some p) = elim p.urgency_rank [ none ↦ 0 | some rank ↦ rank ]

-- An applicable candidate that moves has a priority and a utility.
abbrev pub rank_of : CandidateEvaluation → ℕ
rank_of e = elim e.priority [ none ↦ 0 | some rank ↦ rank ]

abbrev pub value_of : CandidateEvaluation → ℤ
value_of e = elim e.utility [ none ↦ pos 0 | some utility ↦ utility.value ]

-- `_target_order`
abbrev pub target_rank : OptionGoal → ℕ
target_rank g = if g.has_target_node then 0 else elim g.target_pose [ none ↦ 2 | some pose ↦ 1 ]

abbrev pub target_numbers : OptionGoal → List ℤ
target_numbers g =
    if g.has_target_node
    then pos g.target_node_id ∷ []
    else elim g.target_pose [ none ↦ [] | some pose ↦ pose.0 ∷ pose.1 ∷ pose.2 ∷ [] ]

-- One component of a comparison of tuples: by `less` and `more`, or by what follows.
abbrev pub by_then : Bool → Bool → Bool → Bool
by_then less more rest = less || (not more && rest)

abbrev numbers_before : List ℤ → List ℤ → Bool → Bool
numbers_before [] [] rest = rest
numbers_before [] (y ∷ ys) rest = true
numbers_before (x ∷ xs) [] rest = false
numbers_before (x ∷ xs) (y ∷ ys) rest =
    let others = numbers_before xs ys rest in by_then (ltb_ℤ x y) (ltb_ℤ y x) others

abbrev text_before : String → String → Bool → Bool
text_before a b rest = by_then (not (str_le b a)) (not (str_le a b)) rest

abbrev target_before : Option OptionProposal → Option OptionProposal → Bool → Bool
target_before (some p) (some q) rest =
    by_then (ltb (target_rank p.goal) (target_rank q.goal))
      (ltb (target_rank q.goal) (target_rank p.goal))
      (numbers_before (target_numbers p.goal) (target_numbers q.goal)
        (text_before p.goal.goal_zone_id q.goal.goal_zone_id rest))
target_before _ _ rest = rest

-- `a` stands before `b` in the order of the key of `min`.
unfoldable pub is_before : List OptionProposal → CandidateEvaluation → CandidateEvaluation → Bool
unfolding find_proposal
is_before ps a b =
    let p = find_proposal a.stable_key ps in
    let q = find_proposal b.stable_key ps in
    by_then (ltb (rank_of a) (rank_of b)) (ltb (rank_of b) (rank_of a)) (
      by_then (ltb (urgency_rank q) (urgency_rank p)) (ltb (urgency_rank p) (urgency_rank q)) (
        by_then (ltb_ℤ (value_of b) (value_of a)) (ltb_ℤ (value_of a) (value_of b)) (
          by_then (ltb (kind_int a.kind) (kind_int b.kind))
            (ltb (kind_int b.kind) (kind_int a.kind))
            (target_before p q (text_before a.stable_key b.stable_key false)))))

abbrev pub better_of :
    List OptionProposal → CandidateEvaluation → Option CandidateEvaluation → CandidateEvaluation
better_of ps e none = e
better_of ps e (some b) = if is_before ps b e then b else e

-- `min`, which takes the first of the least.
unfoldable pub best_of : List OptionProposal → List CandidateEvaluation → Option CandidateEvaluation
unfolding is_before
best_of ps [] = none
best_of ps (e ∷ es) = some (better_of ps e (best_of ps es))

abbrev pub is_eligible : CandidateEvaluation → Bool
is_eligible e = e.applicable && not (is_hold_safe e.kind)

unfoldable pub eligible : List CandidateEvaluation → List CandidateEvaluation
eligible [] = []
eligible (e ∷ es) = let rest = eligible es in if is_eligible e then e ∷ rest else rest
