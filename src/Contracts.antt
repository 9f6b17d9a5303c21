-- ===== src/Contracts.antt =====
-- hsl_core/hsl_core/contracts.py: the header of a leased record, and its two validations.
-- A non-negative `int` is ℕ, so the type and sign checks of the source are the types.
pub mod Polygon
use hsl.Prelude.{
  ℕ, ◌+◌, String, Bool, true, false, not, ◌&&◌, ◌||◌, Option, none, some, leb, ltb, nat_eqb,
  is_empty, ◌!=◌, ◌==◌, string_eq, nat_eq,
}
use hsl.Prelude.Outcome.{Outcome, ok, raised, refuse, ◌>>=◌, ◌>>◌}

pub record ContractHeader : Type 0 where
  pub schema_version : ℕ
  pub source_id : String
  pub source_session : String
  pub seq : ℕ
  pub stage_id : String
  pub clock_epoch : String
  pub localization_epoch : String
  pub frame_id : String
  pub observation_stamp_ns : ℕ
  pub state_stamp_ns : ℕ
  pub publication_stamp_ns : ℕ
  pub valid_until_ns : ℕ
  pub map_version : ℕ
  pub topology_version : ℕ
  pub validity : ℕ

-- `ContractHeader.__post_init__`
unfoldable pub check_header : ContractHeader → Outcome (Unit {0})
check_header h = do
  refuse (h.schema_version != 2) "schema_version must be 2"
  refuse (is_empty h.source_id) "source_id must not be empty"
  refuse (is_empty h.source_session) "source_session must not be empty"
  refuse (is_empty h.clock_epoch) "clock_epoch must not be empty"
  refuse (is_empty h.localization_epoch) "localization_epoch must not be empty"
  refuse (not (h.validity == 0 || h.validity == 1 || h.validity == 2))
      "validity must be INVALID, VALID, or DEGRADED"
  refuse (ltb h.publication_stamp_ns h.observation_stamp_ns)
      "observation_stamp_ns cannot exceed publication_stamp_ns"
  refuse (ltb h.publication_stamp_ns h.state_stamp_ns)
      "state_stamp_ns cannot exceed publication_stamp_ns"
  refuse (leb h.valid_until_ns h.publication_stamp_ns)
      "valid_until_ns must be after publication_stamp_ns"
  ok tt

-- The keyword arguments of `validate_header`.
pub record Expected : Type 0 where
  pub now_ns : ℕ
  pub clock_epoch : String
  pub localization_epoch : String
  pub stage_id : Option String
  pub require_frame : Bool
  pub require_stage : Bool
  pub allowed_future_ns : ℕ

abbrev stage_mismatch : Option String → String → Bool
stage_mismatch none stage_id = false
stage_mismatch (some wanted) stage_id = stage_id != wanted

unfoldable pub validate_header : ContractHeader → Expected → Outcome (Unit {0})
validate_header h x = do
  refuse (h.clock_epoch != x.clock_epoch) "clock_epoch mismatch"
  refuse (h.localization_epoch != x.localization_epoch) "localization_epoch mismatch"
  refuse (stage_mismatch x.stage_id h.stage_id) "stage_id mismatch"
  refuse (x.require_stage && is_empty h.stage_id) "stage_id is required for authority records"
  refuse (x.require_frame && is_empty h.frame_id) "frame_id is required for geometric records"
  refuse (h.validity == 0) "record validity is INVALID"
  refuse (ltb (x.now_ns + x.allowed_future_ns) h.publication_stamp_ns)
      "publication_stamp_ns is in the future"
  refuse (leb h.valid_until_ns x.now_ns) "record lease has expired"
  ok tt
