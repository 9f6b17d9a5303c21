-- ===== src/Options/Admission.antt =====
-- What an admitted goal has, and that the predicates of the registry agree on it.
use hsl.Prelude.{
  ◌≤◌, ◌<◌, Bool, true, false, not, ◌&&◌, Option, ◌≡◌, ◌⊎◌, inl, inr, ◌!=◌, arith, is_empty,
  contains, string_eq,
}
use hsl.Match.Enums.{StagePhase, role_eq}
use hsl.Options.{
  OptionGoal, OptionContext, OptionRegistry, OptionDefinition, is_hold_safe, check_hold_safe,
  check_target, check_motion, check_initiation, check_running, check_invariant, check_termination,
}

-- What the context grants an option that moves.
pub record IsGranted (registry : OptionRegistry) (g : OptionGoal) (c : OptionContext) : Type 0 where
  pub allowed : contains g.role (registry g.kind).allowed_roles ≡ true
  pub role : g.role ≡ c.role
  pub is_active : c.stage_phase ≡ StagePhase.active
  pub leased : c.lease_valid ≡ true
  pub authorized : c.motion_authorized ≡ true
  pub unstopped : c.safety_stop ≡ false
  pub before_deadline : c.now_ns < g.deadline_ns
  pub within_stage : g.deadline_ns ≤ c.stage_ends_at_ns
  pub same_map : g.map_version ≡ c.map_version
  pub same_topology : g.topology_version ≡ c.topology_version

-- A goal that moves is admitted only to a role that the registry allows and the context has, in an
-- active stage with a valid lease and the authority to move, with no safety stop, on the context's
-- versions of map and topology, before a deadline within the stage.
pub check_initiation-IsGranted :
    (registry : OptionRegistry) (g : OptionGoal) (c : OptionContext)
    → is_hold_safe g.kind ≡ false
    → (check_initiation registry g c).accepted ≡ true
    → IsGranted registry g c
unfolding check_initiation check_motion
check_initiation-IsGranted registry g c moves a = ground arith

check_target-zone :
    (d : OptionDefinition) (g : OptionGoal) (c : OptionContext)
    → (check_target d g c).accepted ≡ true
    → not (is_empty g.goal_zone_id) && not (contains g.goal_zone_id c.accepted_goal_zone_ids)
      ≡ false
unfolding check_target
check_target-zone d g c a = ground arith

check_running-initiated :
    (d : OptionDefinition) (g : OptionGoal) (c : OptionContext) (executing : Bool)
    → (check_motion d g c).accepted ≡ true
    → executing && not c.path_valid ≡ false
    → c.feasibility_lost ≡ false
    → (check_running g c executing).accepted ≡ true
unfolding check_motion check_running
check_running-initiated d g c executing a p f = ground (arith, check_target-zone d g c)

check_motion-role :
    (d : OptionDefinition) (g : OptionGoal) (c : OptionContext)
    → (check_motion d g c).accepted ≡ true
    → g.role ≡ c.role
unfolding check_motion
check_motion-role d g c a = ground arith

check_hold_safe-role :
    (g : OptionGoal) (c : OptionContext) → (check_hold_safe g c).accepted ≡ true → g.role ≡ c.role
unfolding check_hold_safe
check_hold_safe-role g c a = ground arith

-- The goal is for the stage and the epochs of the context.
abbrev HasContext : OptionGoal → OptionContext → Type 0
HasContext g c =
    (g.stage_id != c.stage_id ≡ false)
    × (g.clock_epoch != c.clock_epoch ≡ false)
    × (g.localization_epoch != c.localization_epoch ≡ false)

check_initiation-parts :
    (registry : OptionRegistry) (g : OptionGoal) (c : OptionContext)
    → (check_initiation registry g c).accepted ≡ true
    → (contains g.role (registry g.kind).allowed_roles ≡ true)
      × HasContext g c
      × (((is_hold_safe g.kind ≡ true) × ((check_hold_safe g c).accepted ≡ true))
          ⊎ ((is_hold_safe g.kind ≡ false)
              × ((check_motion (registry g.kind) g c).accepted ≡ true)))
unfolding check_initiation
check_initiation-parts registry g c a = ground arith

check_invariant-accepted :
    (registry : OptionRegistry) (g : OptionGoal) (c : OptionContext) (executing : Bool)
    → HasContext g c
    → g.role ≡ c.role
    → contains g.role (registry g.kind).allowed_roles ≡ true
    → (is_hold_safe g.kind ≡ true) ⊎ ((check_running g c executing).accepted ≡ true)
    → (check_invariant registry g c executing).accepted ≡ true
unfolding check_invariant
check_invariant-accepted registry g c executing same role allowed rest = ground arith

-- A goal that is admitted holds its invariants in the same context, whether it executes or not, if a
-- path is valid when it executes and the feasibility is not lost.
pub check_invariant-initiated :
    (registry : OptionRegistry) (g : OptionGoal) (c : OptionContext) (executing : Bool)
    → (check_initiation registry g c).accepted ≡ true
    → executing && not c.path_valid ≡ false
    → c.feasibility_lost ≡ false
    → (check_invariant registry g c executing).accepted ≡ true
check_invariant-initiated registry g c executing a p f =
    let (allowed, same, rest) = check_initiation-parts registry g c a in
    elim rest [
      | inl (holds, ok) ↦
          check_invariant-accepted registry g c executing same (check_hold_safe-role g c ok) allowed
            (inl holds)
      | inr (_, ok) ↦
          check_invariant-accepted registry g c executing same
            (check_motion-role (registry g.kind) g c ok) allowed
            (inr (check_running-initiated (registry g.kind) g c executing ok p f))
    ]

-- An option that moves is not terminated while its invariants hold, unless its effect is satisfied
-- while it executes.
pub check_termination-running :
    (registry : OptionRegistry) (g : OptionGoal) (c : OptionContext) (executing : Bool)
    → is_hold_safe g.kind ≡ false
    → (check_invariant registry g c executing).accepted ≡ true
    → executing && c.effect_satisfied ≡ false
    → check_termination g c executing ≡ (Option.none, "running")
unfolding check_invariant check_running check_termination
check_termination-running registry g c executing moves a e = ground arith
