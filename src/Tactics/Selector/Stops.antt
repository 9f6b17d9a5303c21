-- ===== src/Tactics/Selector/Stops.antt =====
-- With a reason to stop the selector returns the safe option.
use hsl.Prelude.{
  Bool, true, false, ◌≡◌, refl, ap, ◌∙◌, if◌then◌else◌, ◌⊎◌, inl, inr, List, [], ◌∷◌, arith,
  is_empty, IsIn, string_eq, nat_eq,
}
use hsl.Prelude.Outcome.{ok, Outcome-cases}
use hsl.Match.Enums.{Role, role_eq}
use hsl.Options.{OptionContext, OptionRegistry, PredicateDecision, check_initiation, is_hold_safe}
use hsl.Tactics.Proposals.{OptionProposal, TacticalSnapshot}
use hsl.Tactics.Selector.{hard_stop_reason, hold_proposals, check_fallback, fallback_in, fallback}
use hsl.Tactics.Selector.Choice.{TacticalSelector, CurrentOption, SelectionResult}
use hsl.Tactics.Selector.Selecting.{select_among, selection}

-- The safe proposals of a list stand in it.
kept-IsIn :
    (b : Bool) (q p : OptionProposal) (ps : List OptionProposal)
    → is_hold_safe q.goal.kind ≡ b
    → ((is_hold_safe p.goal.kind ≡ true) × IsIn p ps) ⊎ ((b ≡ true) × (p ≡ q))
    → (is_hold_safe p.goal.kind ≡ true) × IsIn p (q ∷ ps)
kept-IsIn b q p ps kind (inl (holds, later)) = (holds, inr later)
kept-IsIn b q p ps kind (inr (holds, same)) =
    (ap (λ x. is_hold_safe x.goal.kind) same ∙ (kind ∙ holds), inl same)

split-IsIn :
    (b : Bool) (q p : OptionProposal) (rest : List OptionProposal)
    → IsIn p (if b then q ∷ rest else rest)
    → IsIn p rest ⊎ ((b ≡ true) × (p ≡ q))
split-IsIn true q p rest (inl same) = inr (refl, same)
split-IsIn true q p rest (inr later) = inl later
split-IsIn false q p rest h = inl h

hold_proposals-IsIn :
    (ps : List OptionProposal) (p : OptionProposal)
    → IsIn p (hold_proposals ps)
    → (is_hold_safe p.goal.kind ≡ true) × IsIn p ps
hold_proposals-IsIn [] p h = absurd h
hold_proposals-IsIn (q ∷ ps) p h =
    kept-IsIn (is_hold_safe q.goal.kind) q p ps refl
      (elim (split-IsIn (is_hold_safe q.goal.kind) q p (hold_proposals ps) h) [
        | inl later ↦ inl (hold_proposals-IsIn ps p later)
        | inr here ↦ inr here
      ])

check_fallback-same :
    (d : PredicateDecision) (role : Role) (p q : OptionProposal)
    → check_fallback d role p ≡ ok q
    → q ≡ p
unfolding check_fallback
check_fallback-same d role p q h = ground (arith, h)

fallback_in-IsIn :
    (registry : OptionRegistry) (c : OptionContext) (role : Role) (ps : List OptionProposal)
    (p : OptionProposal)
    → fallback_in registry c role ps ≡ ok p
    → IsIn p ps
fallback_in-IsIn registry c role (q ∷ []) p h =
    inl (check_fallback-same (check_initiation registry q.goal c) role q p h)
fallback_in-IsIn registry c role [] p h = absurd (ground (arith, h))
fallback_in-IsIn registry c role (q ∷ q' ∷ ps) p h = absurd (ground (arith, h))

pub fallback-held :
    (registry : OptionRegistry) (s : TacticalSnapshot) (role : Role) (p : OptionProposal)
    → fallback registry s role ≡ ok p
    → (is_hold_safe p.goal.kind ≡ true) × IsIn p s.proposals
unfolding fallback
fallback-held registry s role p h =
    hold_proposals-IsIn s.proposals p
      (fallback_in-IsIn registry s.context role (hold_proposals s.proposals) p h)

-- With a reason to stop, whatever the candidates, the selector returns the safe option, which never
-- moves, with the reason.
pub selection-stopped :
    (m : TacticalSelector) (s : TacticalSnapshot) (current : CurrentOption) (r : SelectionResult)
    → is_empty (hard_stop_reason s) ≡ false
    → selection m s current ≡ ok r
    → (is_hold_safe r.selected.goal.kind ≡ true)
      × (r.reason ≡ hard_stop_reason s)
      × IsIn r.selected s.proposals
unfolding selection select_among
selection-stopped m s current r stop h =
    elim (Outcome-cases (fallback m.registry s s.context.role)) [
      | inl (e, fault) ↦ ground (arith, h, fault)
      | inr (safe, found) ↦
          let same : (r.selected ≡ safe) × (r.reason ≡ hard_stop_reason s) =
            ground (arith, h, stop, found) in
          let held = fallback-held m.registry s s.context.role safe found in
          (rw (same.0) held.0, same.1, rw (same.0) held.1)
    ]
