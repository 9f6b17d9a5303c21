-- ===== src/Options.antt =====
-- hsl_core/hsl_core/tactics/options.py: the goal of an option, the context that it is judged in, and
-- the predicates of `OptionRegistry`. A registry that its constructor accepts defines each kind once:
-- it is a function from the kinds. A length or an angle is a number of micrometres or microradians.
use hsl.Prelude.{
  ℕ, String, Bool, true, false, not, ◌&&◌, ◌||◌, Option, some, List, [], ◌∷◌, if◌then◌else◌, leb,
  is_empty, is_blank, contains, nat_eqb, Eq, arith, ◌≡◌, ◌↔◌, ◌==◌, ◌!=◌, string_eq, nat_eq,
}
use hsl.Prelude.Int.{ℤ}
use hsl.Match.Enums.{Role, StagePhase, role_eq, phase_eq}
pub mod Admission
pub mod Checks
pub mod Authority

pub data OptionKind : Type 0 where
  hold_safe search_portal intercept_portal pressure_route approach_capture recover_view : OptionKind
  fallback_defend_base advance_base break_los take_alternate_portal : OptionKind
  keep_escape_route observe_safe advance_known_route : OptionKind

pub data OptionOutcome : Type 0 where
  success canceled timeout precondition_failed feasibility_lost : OptionOutcome
  safety_stop stage_ended internal_error : OptionOutcome

abbrev pub kind_int : OptionKind → ℕ
kind_int OptionKind.hold_safe = 0
kind_int OptionKind.search_portal = 1
kind_int OptionKind.intercept_portal = 2
kind_int OptionKind.pressure_route = 3
kind_int OptionKind.approach_capture = 4
kind_int OptionKind.recover_view = 5
kind_int OptionKind.fallback_defend_base = 6
kind_int OptionKind.advance_base = 7
kind_int OptionKind.break_los = 8
kind_int OptionKind.take_alternate_portal = 9
kind_int OptionKind.keep_escape_route = 10
kind_int OptionKind.observe_safe = 11
kind_int OptionKind.advance_known_route = 12

abbrev pub option_kind_beq : OptionKind → OptionKind → Bool
option_kind_beq a b = nat_eqb (kind_int a) (kind_int b)

pub option_kind_beq_iff : (a b : OptionKind) → (option_kind_beq a b ≡ true) ↔ (a ≡ b)
option_kind_beq_iff a b = ground arith

instance abbrev pub option_kind_eq : Eq OptionKind
option_kind_eq = record { beq = option_kind_beq; beq_iff = option_kind_beq_iff }

abbrev pub is_hold_safe : OptionKind → Bool
is_hold_safe OptionKind.hold_safe = true
is_hold_safe _ = false

pub record OptionGoal : Type 0 where
  pub option_instance_id : String
  pub kind : OptionKind
  pub role : Role
  pub stage_id : String
  pub clock_epoch : String
  pub localization_epoch : String
  pub deadline_ns : ℕ
  pub map_version : ℕ
  pub topology_version : ℕ
  pub parameters_id : String
  pub schema_version : ℕ
  pub has_target_node : Bool
  pub target_node_id : ℕ
  pub target_pose : Option (ℤ × ℤ × ℤ)
  pub target_yaw_required : Bool
  pub position_tolerance_um : ℕ
  pub yaw_tolerance_urad : ℕ
  pub goal_zone_id : String

abbrev pub is_some : Option (ℤ × ℤ × ℤ) → Bool
is_some Option.none = false
is_some (some pose) = true

abbrev pub has_target : OptionGoal → Bool
has_target g = g.has_target_node || is_some g.target_pose

pub record OptionContext : Type 0 where
  pub now_ns : ℕ
  pub stage_id : String
  pub stage_phase : StagePhase
  pub stage_ends_at_ns : ℕ
  pub role : Role
  pub clock_epoch : String
  pub localization_epoch : String
  pub map_version : ℕ
  pub topology_version : ℕ
  pub motion_authorized : Bool
  pub lease_valid : Bool
  pub safety_stop : Bool
  pub accepted_goal_zone_ids : List String
  pub path_valid : Bool
  pub effect_satisfied : Bool
  pub effect_instance_id : String
  pub effect_evidence_id : String
  pub feasibility_lost : Bool

pub record PredicateDecision : Type 0 where
  pub accepted : Bool
  pub reason : String

abbrev decline : String → PredicateDecision
decline reason = record { accepted = false; reason = reason }

abbrev admit_as : String → PredicateDecision
admit_as reason = record { accepted = true; reason = reason }

pub record OptionDefinition : Type 0 where
  pub allowed_roles : List Role
  pub target_required : Bool
  pub target_forbidden : Bool
  pub goal_zone_required : Bool

abbrev pub OptionRegistry : Type 0
OptionRegistry = OptionKind → OptionDefinition

abbrev defines : List Role → Bool → Bool → Bool → OptionDefinition
defines roles required forbidden zone = record {
  allowed_roles = roles;
  target_required = required;
  target_forbidden = forbidden;
  goal_zone_required = zone;
}

abbrev guardian_only : List Role
guardian_only = Role.guardian ∷ []

abbrev explorer_only : List Role
explorer_only = Role.explorer ∷ []

unfoldable pub default_definitions : OptionRegistry
default_definitions OptionKind.hold_safe =
    defines (Role.explorer ∷ Role.guardian ∷ []) false true false
default_definitions OptionKind.search_portal = defines guardian_only true false false
default_definitions OptionKind.intercept_portal = defines guardian_only true false false
default_definitions OptionKind.pressure_route = defines guardian_only true false false
default_definitions OptionKind.approach_capture = defines guardian_only true false false
default_definitions OptionKind.recover_view = defines guardian_only true false false
default_definitions OptionKind.fallback_defend_base = defines guardian_only true false true
default_definitions OptionKind.advance_base = defines explorer_only true false true
default_definitions OptionKind.break_los = defines explorer_only true false false
default_definitions OptionKind.take_alternate_portal = defines explorer_only true false false
default_definitions OptionKind.keep_escape_route = defines explorer_only true false false
default_definitions OptionKind.observe_safe = defines explorer_only false false false
default_definitions OptionKind.advance_known_route = defines explorer_only true false false

unfoldable pub check_hold_safe : OptionGoal → OptionContext → PredicateDecision
check_hold_safe g c =
    if g.role != c.role
    then decline "role_mismatch"
    else if has_target g
        || not (is_empty g.goal_zone_id)
        || g.target_yaw_required
        || g.position_tolerance_um != 0
        || g.yaw_tolerance_urad != 0
    then decline "hold_safe_must_not_have_target"
    else admit_as "admissible_hold_safe"

unfoldable pub check_target : OptionDefinition → OptionGoal → OptionContext → PredicateDecision
check_target d g c =
    if is_blank g.parameters_id
    then decline "parameters_id_missing"
    else if g.position_tolerance_um == 0 || g.yaw_tolerance_urad == 0
    then decline "target_tolerance_invalid"
    else if d.target_required && not (has_target g)
    then decline "target_required"
    else if d.target_forbidden && has_target g
    then decline "target_forbidden"
    else if d.goal_zone_required && is_empty g.goal_zone_id
    then decline "goal_zone_required"
    else if not (is_empty g.goal_zone_id) && not (contains g.goal_zone_id c.accepted_goal_zone_ids)
    then decline "goal_zone_unresolved"
    else admit_as "admissible"

-- The tests of time and authority on an option that moves, then those of its target.
unfoldable pub check_motion : OptionDefinition → OptionGoal → OptionContext → PredicateDecision
unfolding check_target
check_motion d g c =
    if leb g.deadline_ns c.now_ns
    then decline "goal_deadline_expired"
    else if leb c.stage_ends_at_ns c.now_ns
    then decline "stage_deadline_expired"
    else if not (leb g.deadline_ns c.stage_ends_at_ns)
    then decline "goal_deadline_exceeds_stage"
    else if g.role != c.role
    then decline "role_mismatch"
    else if c.stage_phase != StagePhase.active
    then decline "stage_not_active"
    else if not c.lease_valid || not c.motion_authorized
    then decline "motion_authority_unavailable"
    else if c.safety_stop
    then decline "safety_stop_active"
    else if g.map_version != c.map_version
    then decline "map_version_mismatch"
    else if g.topology_version != c.topology_version
    then decline "topology_version_mismatch"
    else check_target d g c

unfoldable pub check_initiation : OptionRegistry → OptionGoal → OptionContext → PredicateDecision
check_initiation registry g c =
    if not (contains g.role (registry g.kind).allowed_roles)
    then decline "role_not_allowed"
    else if g.stage_id != c.stage_id
    then decline "stage_mismatch"
    else if g.clock_epoch != c.clock_epoch
    then decline "clock_epoch_mismatch"
    else if g.localization_epoch != c.localization_epoch
    then decline "localization_epoch_mismatch"
    else if is_hold_safe g.kind
    then check_hold_safe g c
    else check_motion (registry g.kind) g c

-- The tests of `check_invariant` on an option that moves.
unfoldable pub check_running : OptionGoal → OptionContext → Bool → PredicateDecision
check_running g c executing =
    if c.stage_phase != StagePhase.active
    then decline "stage_not_active"
    else if leb g.deadline_ns c.now_ns || leb c.stage_ends_at_ns c.now_ns
    then decline "deadline_reached"
    else if not c.lease_valid || not c.motion_authorized
    then decline "motion_authority_unavailable"
    else if c.safety_stop
    then decline "safety_stop_active"
    else if g.map_version != c.map_version
    then decline "map_version_mismatch"
    else if g.topology_version != c.topology_version
    then decline "topology_version_mismatch"
    else if not (is_empty g.goal_zone_id) && not (contains g.goal_zone_id c.accepted_goal_zone_ids)
    then decline "goal_zone_unresolved"
    else if executing && not c.path_valid
    then decline "path_invalid"
    else if c.feasibility_lost
    then decline "feasibility_lost"
    else admit_as "invariants_hold"

unfoldable pub check_invariant :
    OptionRegistry → OptionGoal → OptionContext → Bool → PredicateDecision
check_invariant registry g c executing =
    if g.stage_id != c.stage_id
    then decline "stage_mismatch"
    else if g.clock_epoch != c.clock_epoch
    then decline "clock_epoch_mismatch"
    else if g.localization_epoch != c.localization_epoch
    then decline "localization_epoch_mismatch"
    else if g.role != c.role || not (contains g.role (registry g.kind).allowed_roles)
    then decline "role_mismatch"
    else if is_hold_safe g.kind
    then admit_as "hold_safe_invariant"
    else check_running g c executing

unfoldable pub check_termination : OptionGoal → OptionContext → Bool → Option OptionOutcome × String
check_termination g c executing =
    if g.stage_id != c.stage_id
      || c.stage_phase == StagePhase.init
      || c.stage_phase == StagePhase.terminal
    then (some OptionOutcome.stage_ended, "stage_ended")
    else if is_hold_safe g.kind
    then (Option.none, "running")
    else if leb g.deadline_ns c.now_ns || leb c.stage_ends_at_ns c.now_ns
    then (some OptionOutcome.timeout, "deadline_reached")
    else if c.safety_stop
    then (some OptionOutcome.safety_stop, "safety_stop_active")
    else if c.feasibility_lost
    then (some OptionOutcome.feasibility_lost, "feasibility_lost")
    else if executing && c.effect_satisfied && c.effect_instance_id == g.option_instance_id
    then (some OptionOutcome.success, "effect_satisfied")
    else (Option.none, "running")
