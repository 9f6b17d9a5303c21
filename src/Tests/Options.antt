-- ===== src/Tests/Options.antt =====
-- The option registry at concrete inputs.
use hsl.Prelude.{true, false, Option, [], ◌∷◌, ◌≡◌, refl, is_blank}
use hsl.Match.Enums.{Role, StagePhase}
use hsl.Options.{
  OptionKind, OptionGoal, OptionContext, default_definitions, check_initiation, check_motion,
  check_target, check_invariant,
}
use hsl.Options.Admission.{IsGranted, check_initiation-IsGranted, check_invariant-initiated}

abbrev pub goal : OptionGoal
goal = record {
  option_instance_id = "go";
  kind = OptionKind.advance_base;
  role = Role.explorer;
  stage_id = "stage";
  clock_epoch = "clock";
  localization_epoch = "map";
  deadline_ns = 1090;
  map_version = 1;
  topology_version = 2;
  parameters_id = "parameters";
  schema_version = 2;
  has_target_node = true;
  target_node_id = 4;
  target_pose = Option.none;
  target_yaw_required = false;
  position_tolerance_um = 50000;
  yaw_tolerance_urad = 100000;
  goal_zone_id = "base";
}

abbrev pub context : OptionContext
context = record {
  now_ns = 1050;
  stage_id = "stage";
  stage_phase = StagePhase.active;
  stage_ends_at_ns = 1100;
  role = Role.explorer;
  clock_epoch = "clock";
  localization_epoch = "map";
  map_version = 1;
  topology_version = 2;
  motion_authorized = true;
  lease_valid = true;
  safety_stop = false;
  accepted_goal_zone_ids = "base" ∷ [];
  path_valid = true;
  effect_satisfied = false;
  effect_instance_id = "";
  effect_evidence_id = "";
  feasibility_lost = false;
}

admissible : (check_initiation default_definitions goal context).accepted ≡ true
unfolding check_initiation check_motion check_target default_definitions is_blank
admissible = refl

check_initiation-IsGranted_example : IsGranted default_definitions goal context
check_initiation-IsGranted_example =
    check_initiation-IsGranted default_definitions goal context refl admissible

check_invariant-initiated_example :
    (check_invariant default_definitions goal context true).accepted ≡ true
check_invariant-initiated_example =
    check_invariant-initiated default_definitions goal context true admissible refl refl
