-- ===== src/Tactics/Guards.antt =====
-- hsl_core/hsl_core/tactics/fsm.py: which facts an option requires and admits, and its priority.
use hsl.Prelude.{
  ℕ, Bool, false, not, ◌&&◌, ◌||◌, Option, none, some, List, [], ◌∷◌, ◌++◌, if◌then◌else◌, contains,
  is_subset, ◌==◌,
}
use hsl.Match.Enums.{Role, role_eq}
use hsl.Options.{OptionKind, option_kind_eq}
use hsl.Tactics.Proposals.{TacticalGuard, guard_eq, OptionProposal, is_given}

-- The facts that each kind requires of each role, but for a contested interception.
abbrev pub role_guards : Role → OptionKind → Option (List TacticalGuard)
role_guards Role.guardian OptionKind.approach_capture =
    some (TacticalGuard.robust_capture_opportunity ∷ [])
role_guards Role.guardian OptionKind.fallback_defend_base =
    some (TacticalGuard.credible_imminent_base_threat ∷ [])
role_guards Role.guardian OptionKind.intercept_portal =
    some (TacticalGuard.supported_intercept ∷ [])
role_guards Role.guardian OptionKind.recover_view = some (TacticalGuard.recent_occlusion ∷ [])
role_guards Role.guardian OptionKind.pressure_route = some (TacticalGuard.useful_rival ∷ [])
role_guards Role.guardian OptionKind.search_portal =
    some (TacticalGuard.graph_search_viewpoint ∷ [])
role_guards Role.guardian _ = none
role_guards Role.explorer OptionKind.keep_escape_route =
    some (TacticalGuard.immediate_trap_risk ∷ TacticalGuard.verified_escape_route ∷ [])
role_guards Role.explorer OptionKind.break_los =
    some (TacticalGuard.immediate_trap_risk ∷ TacticalGuard.break_los_feasible ∷ [])
role_guards Role.explorer OptionKind.take_alternate_portal =
    some (TacticalGuard.contested_route ∷ TacticalGuard.alternate_route_available ∷ [])
role_guards Role.explorer OptionKind.advance_base =
    some (TacticalGuard.accepted_goal ∷ TacticalGuard.goal_threat_acceptable ∷ [])
role_guards Role.explorer OptionKind.advance_known_route =
    some (TacticalGuard.versioned_open_route ∷ [])
role_guards Role.explorer OptionKind.observe_safe =
    some (TacticalGuard.informative_safe_observation ∷ [])
role_guards Role.explorer _ = none

abbrev is_contested : Role → OptionKind → List TacticalGuard → Bool
is_contested role kind facts =
    role == Role.guardian
    && kind == OptionKind.intercept_portal
    && contains TacticalGuard.credible_imminent_base_threat facts

abbrev with_contest : Bool → Option (List TacticalGuard) → Option (List TacticalGuard)
with_contest contested none = none
with_contest contested (some guards) =
    if contested
    then some (
        guards
        ++ (TacticalGuard.credible_imminent_base_threat
            ∷ TacticalGuard.intercept_dominates_base_defense ∷ []))
    else some guards

-- `_required_guards`
unfoldable pub required_guards :
    Role → OptionKind → List TacticalGuard → Option (List TacticalGuard)
required_guards role kind facts =
    with_contest (is_contested role kind facts) (role_guards role kind)

abbrev allows : List TacticalGuard → Option (List TacticalGuard) → Bool
allows facts none = false
allows facts (some required) = is_subset facts required

abbrev interception_guards : List TacticalGuard
interception_guards =
    TacticalGuard.supported_intercept ∷ TacticalGuard.credible_imminent_base_threat
    ∷ TacticalGuard.intercept_dominates_base_defense ∷ []

-- `_guard_facts_valid`
unfoldable pub guard_facts_valid : OptionProposal → Bool
unfolding required_guards
guard_facts_valid p =
    let dominates = contains TacticalGuard.intercept_dominates_base_defense p.guard_facts in
    let threat = contains TacticalGuard.credible_imminent_base_threat p.guard_facts in
    if p.goal.role == Role.guardian && p.goal.kind == OptionKind.intercept_portal
    then (if dominates && (not threat || not (is_given p.interception_timing))
        then false
        else if is_given p.interception_timing && not dominates
        then false
        else is_subset p.guard_facts interception_guards)
    else if is_given p.interception_timing
    then false
    else allows p.guard_facts (required_guards p.goal.role p.goal.kind [])

-- `_priority`
unfoldable pub priority : Role → OptionKind → List TacticalGuard → Option ℕ
priority Role.guardian OptionKind.approach_capture facts = some 0
priority Role.guardian OptionKind.fallback_defend_base facts = some 1
priority Role.guardian OptionKind.intercept_portal facts =
    if contains TacticalGuard.credible_imminent_base_threat facts
      && contains TacticalGuard.intercept_dominates_base_defense facts
    then some 1
    else some 2
priority Role.guardian OptionKind.recover_view facts = some 3
priority Role.guardian OptionKind.pressure_route facts = some 4
priority Role.guardian OptionKind.search_portal facts = some 5
priority Role.guardian _ facts = none
priority Role.explorer OptionKind.keep_escape_route facts = some 0
priority Role.explorer OptionKind.break_los facts = some 0
priority Role.explorer OptionKind.take_alternate_portal facts = some 1
priority Role.explorer OptionKind.advance_base facts = some 2
priority Role.explorer OptionKind.advance_known_route facts = some 2
priority Role.explorer OptionKind.observe_safe facts = some 3
priority Role.explorer _ facts = none
