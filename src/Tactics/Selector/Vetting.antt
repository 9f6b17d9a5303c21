-- ===== src/Tactics/Selector/Vetting.antt =====
-- What an option has that the selector returns for motion.
use hsl.Prelude.{
  ℕ, Bool, true, false, not, ◌≡◌, refl, if◌then◌else◌, inl, inr, Option, none, some, List, arith,
  is_subset, same_set, Bool-cases, string_eq,
}
use hsl.Prelude.Outcome.{Outcome, ok, raised}
use hsl.Match.Enums.{Role, role_eq, role_beq_iff}
use hsl.Options.{OptionContext, OptionRegistry, PredicateDecision, check_initiation, is_hold_safe}
use hsl.Tactics.Utility.{UtilityProfile, UtilityResult, score, names_of, role_features}
use hsl.Tactics.Proposals.{TacticalGuard, guard_eq, OptionProposal, TacticalSnapshot}
use hsl.Tactics.Guards.{required_guards, guard_facts_valid, priority}
use hsl.Tactics.Selector.{
  CandidateEvaluation, evaluate, evaluate_motion, evaluate_guards, evaluate_utility,
  evaluate_priority,
}

-- A proposal that may be selected for motion by a selector of this registry.
pub record IsVetted (registry : OptionRegistry) (s : TacticalSnapshot) (p : OptionProposal)
    : Type 0 where
  pub feasible : p.feasible ≡ true
  pub own_role : p.goal.role ≡ s.context.role
  pub initiated : (check_initiation registry p.goal s.context).accepted ≡ true
  pub facts_apply : guard_facts_valid p ≡ true
  pub required :
      (guards : List TacticalGuard) × (required_guards s.context.role p.goal.kind p.guard_facts
        ≡ some guards)
      × (is_subset guards p.guard_facts ≡ true)

evaluate_priority-key :
    (p : OptionProposal) (u : UtilityResult) (rank : Option ℕ)
    → (evaluate_priority p u rank).stable_key ≡ p.stable_key
evaluate_priority-key p u none = refl
evaluate_priority-key p u (some rank) = refl

evaluate_utility-key :
    (role : Role) (p : OptionProposal) (u : Outcome UtilityResult)
    → (evaluate_utility role p u).stable_key ≡ p.stable_key
evaluate_utility-key role p (raised e) = refl
evaluate_utility-key role p (ok u) =
    evaluate_priority-key p u (priority role p.goal.kind p.guard_facts)

branch-key :
    (b : Bool) (p : OptionProposal) (x y : CandidateEvaluation)
    → x.stable_key ≡ p.stable_key
    → y.stable_key ≡ p.stable_key
    → (if b then x else y).stable_key ≡ p.stable_key
branch-key true p x y first second = first
branch-key false p x y first second = second

evaluate_guards-key :
    (profile : UtilityProfile) (role : Role) (p : OptionProposal)
    (required : Option (List TacticalGuard))
    → (evaluate_guards profile role p required).stable_key ≡ p.stable_key
unfolding evaluate_guards
evaluate_guards-key profile role p none = refl
evaluate_guards-key profile role p (some guards) =
    branch-key (not (is_subset guards p.guard_facts)) p _ _ refl (
      branch-key (not (same_set (names_of p.features) (role_features role))) p _ _ refl
        (evaluate_utility-key role p (score p.features profile)))

evaluate_motion-key :
    (profile : UtilityProfile) (d : PredicateDecision) (p : OptionProposal) (role : Role)
    → (evaluate_motion profile d p role).stable_key ≡ p.stable_key
unfolding evaluate_motion
evaluate_motion-key profile d p role =
    let inner =
      evaluate_guards-key profile role p (required_guards role p.goal.kind p.guard_facts) in
    ground (arith, inner)

pub evaluate-key :
    (registry : OptionRegistry) (profile : UtilityProfile) (p : OptionProposal) (c : OptionContext)
    (role : Role)
    → (evaluate registry profile p c role).stable_key ≡ p.stable_key
unfolding evaluate
evaluate-key registry profile p c role =
    let inner = evaluate_motion-key profile (check_initiation registry p.goal c) p role in
    ground (arith, inner)

evaluate_guards-required :
    (profile : UtilityProfile) (role : Role) (p : OptionProposal)
    (required : Option (List TacticalGuard))
    → (evaluate_guards profile role p required).applicable ≡ true
    → (guards : List TacticalGuard) × (required ≡ some guards)
      × (is_subset guards p.guard_facts ≡ true)
unfolding evaluate_guards
evaluate_guards-required profile role p none h = absurd (ground (arith, h))
evaluate_guards-required profile role p (some guards) h =
    elim (Bool-cases (is_subset guards p.guard_facts)) [
      | inl all ↦ (guards, refl, all)
      | inr missing ↦ ground (arith, h, missing)
    ]

evaluate_motion-required :
    (profile : UtilityProfile) (d : PredicateDecision) (p : OptionProposal) (role : Role)
    → (evaluate_motion profile d p role).applicable ≡ true
    → (p.feasible ≡ true)
      × (p.goal.role ≡ role)
      × (d.accepted ≡ true)
      × (guard_facts_valid p ≡ true)
      × ((evaluate_guards profile role p
            (required_guards role p.goal.kind p.guard_facts)).applicable
          ≡ true)
unfolding evaluate_motion
evaluate_motion-required profile d p role h = ground (arith, h, role_beq_iff p.goal.role role)

pub eligible-IsVetted :
    (registry : OptionRegistry) (profile : UtilityProfile) (s : TacticalSnapshot)
    (p : OptionProposal)
    → is_hold_safe p.goal.kind ≡ false
    → (evaluate registry profile p s.context s.context.role).applicable ≡ true
    → IsVetted registry s p
unfolding evaluate
eligible-IsVetted registry profile s p moves applicable =
    let role = s.context.role in
    let d = check_initiation registry p.goal s.context in
    let judged : (evaluate_motion profile d p role).applicable ≡ true =
      ground (arith, moves, applicable) in
    let f = evaluate_motion-required profile d p role judged in
    record {
      feasible = f.0;
      own_role = f.1;
      initiated = f.2;
      facts_apply = f.3;
      required =
          evaluate_guards-required profile role p (required_guards role p.goal.kind p.guard_facts)
            f.4;
    }
