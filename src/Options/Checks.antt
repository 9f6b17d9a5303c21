-- ===== src/Options/Checks.antt =====
-- hsl_core/hsl_core/tactics/options.py: the validations that the constructors of `OptionGoal`,
-- `OptionContext` and `OptionRegistry` run, and the equality of two goals.
use hsl.Prelude.{
  Bool, true, false, not, ◌&&◌, ◌||◌, Option, some, bool_eq, any, is_blank, is_empty, is_unique,
  ◌==◌, ◌!=◌, nat_eq, string_eq,
}
use hsl.Prelude.Int.{ℤ, int_eq}
use hsl.Prelude.Outcome.{Outcome, refuse, ◌>>◌}
use hsl.Match.Enums.{role_eq}
use hsl.Options.{option_kind_eq, OptionGoal, OptionContext, is_some}

-- `OptionGoal.__post_init__`
unfoldable pub check_goal : OptionGoal → Outcome (Unit {0})
check_goal g = do
  refuse (is_blank g.option_instance_id) "option_instance_id must be a non-empty string"
  refuse (is_blank g.stage_id) "stage_id must be a non-empty string"
  refuse (is_blank g.clock_epoch) "clock_epoch must be a non-empty string"
  refuse (is_blank g.localization_epoch) "localization_epoch must be a non-empty string"
  refuse (g.schema_version == 0) "schema_version must be an integer >= 1"
  refuse (g.schema_version != 2) "unsupported option schema_version"
  refuse (g.deadline_ns == 0) "deadline_ns must be an integer >= 1"
  refuse (g.has_target_node && is_some g.target_pose)
      "goal must not specify both a target node and target pose"
  refuse (not g.has_target_node && g.target_node_id != 0)
      "target_node_id must be zero when has_target_node is false"

-- `OptionContext.__post_init__`
unfoldable pub check_context : OptionContext → Outcome (Unit {0})
check_context c = do
  refuse (is_blank c.stage_id) "stage_id must be a non-empty string"
  refuse (is_blank c.clock_epoch) "clock_epoch must be a non-empty string"
  refuse (is_blank c.localization_epoch) "localization_epoch must be a non-empty string"
  refuse (c.effect_satisfied && (is_blank c.effect_instance_id || is_blank c.effect_evidence_id))
      "satisfied effects require an instance and evidence ID"
  refuse
      (not c.effect_satisfied
        && not (is_empty c.effect_instance_id && is_empty c.effect_evidence_id))
      "effect identity fields require effect_satisfied"
  refuse (any is_blank c.accepted_goal_zone_ids) "accepted_goal_zone_ids must contain non-empty IDs"
  refuse (not (is_unique c.accepted_goal_zone_ids)) "accepted_goal_zone_ids must be unique"

abbrev pose_beq : Option (ℤ × ℤ × ℤ) → Option (ℤ × ℤ × ℤ) → Bool
pose_beq Option.none Option.none = true
pose_beq (some (x, y, t)) (some (x', y', t')) = x == x' && y == y' && t == t'
pose_beq _ _ = false

-- `prior.goal == goal`
unfoldable pub goal_beq : OptionGoal → OptionGoal → Bool
goal_beq a b =
    a.option_instance_id == b.option_instance_id
    && a.kind == b.kind
    && a.role == b.role
    && a.stage_id == b.stage_id
    && a.clock_epoch == b.clock_epoch
    && a.localization_epoch == b.localization_epoch
    && a.deadline_ns == b.deadline_ns
    && a.map_version == b.map_version
    && a.topology_version == b.topology_version
    && a.parameters_id == b.parameters_id
    && a.schema_version == b.schema_version
    && a.has_target_node == b.has_target_node
    && a.target_node_id == b.target_node_id
    && pose_beq a.target_pose b.target_pose
    && a.target_yaw_required == b.target_yaw_required
    && a.position_tolerance_um == b.position_tolerance_um
    && a.yaw_tolerance_urad == b.yaw_tolerance_urad
    && a.goal_zone_id == b.goal_zone_id
