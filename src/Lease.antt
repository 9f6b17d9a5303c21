-- ===== src/Lease.antt =====
-- hsl_core/hsl_core/planning/execution.py: `ExecutionLease`, and the candidates of types.py that it
-- admits. Each method holds the lock, so a call is one step. A time is an integer of nanoseconds, a
-- velocity one of micrometres or microradians a second; non-finite ones have no counterpart.
use hsl.Prelude.{
  ℕ, ◌+◌, String, Bool, true, false, not, ◌&&◌, ◌||◌, Option, some, List, [], ◌∷◌, if◌then◌else◌,
  is_empty, is_blank, contains, ltb, nat_eqb, ◌==◌, ◌!=◌, string_eq, nat_eq,
}
use hsl.Prelude.Int.{ℤ, pos, ltb_ℤ, leb_ℤ, is_negative, int_eq}
use hsl.Prelude.Outcome.{Outcome, ok, raised, refuse, ◌>>◌}
pub mod Authority

pub record MotionCandidate : Type 0 where
  pub linear_velocity : ℤ
  pub angular_velocity : ℤ
  pub observation_time : ℤ
  pub valid_until : ℤ
  pub horizon : ℤ
  pub source_id : String
  pub map_version : ℤ
  pub localization_epoch : String
  pub topology_version : ℤ
  pub lease_generation : ℤ

unfoldable pub check_candidate : MotionCandidate → Outcome (Unit {0})
check_candidate c = do
  refuse (ltb_ℤ c.valid_until c.observation_time)
      "valid_until_s must not precede observation_time_s"
  refuse (is_negative c.horizon) "horizon_s must be non-negative"
  refuse (is_negative c.map_version) "map_version must be a non-negative integer"
  refuse (is_negative c.topology_version) "topology_version must be a non-negative integer"
  refuse (is_negative c.lease_generation) "lease_generation must be a non-negative integer"
  refuse (c.lease_generation == pos 0) "lease_generation must be positive"
  refuse (is_empty c.source_id) "source_id must not be empty"
  refuse (is_empty c.localization_epoch) "localization_epoch must not be empty"
  ok tt

-- What `admit` reads of a `PlannedPath`.
pub record PathVersions : Type 0 where
  pub map_version : ℤ
  pub topology_version : ℤ
  pub localization_epoch : String

pub record CandidateEnvelope : Type 0 where
  pub candidate : MotionCandidate
  pub path : PathVersions
  pub option_instance_id : String

pub record ExecutionLease : Type 0 where
  pub generation : ℕ
  pub cancelled : List String
  pub active_option_instance_id : String
  pub candidate_authorized : Bool
  pub expected_map_version : Option ℤ
  pub expected_topology_version : Option ℤ
  pub expected_localization_epoch : Option String

abbrev pub new : ExecutionLease
new = record {
  generation = 0;
  cancelled = [];
  active_option_instance_id = "";
  candidate_authorized = false;
  expected_map_version = Option.none;
  expected_topology_version = Option.none;
  expected_localization_epoch = Option.none;
}

-- The expected versions are given together and valid, or not at all.
abbrev pub are_valid_versions : Option ℤ → Option ℤ → Option String → Bool
are_valid_versions Option.none Option.none Option.none = true
are_valid_versions (some v) (some w) (some epoch) =
    not (is_negative v || is_negative w || is_blank epoch)
are_valid_versions _ _ _ = false

abbrev pub Method : Type 0 → Type 0
Method A = ExecutionLease → Outcome A × ExecutionLease

unfoldable pub activation_fault :
    String → Option ℤ → Option ℤ → Option String → ExecutionLease → Outcome (Unit {0})
activation_fault id v w epoch m = do
  refuse (is_empty id) "option_instance_id must not be empty"
  refuse (not (are_valid_versions v w epoch))
      "expected path versions must be supplied together and valid"
  refuse (not (is_empty m.active_option_instance_id) && m.active_option_instance_id == id)
      "option instance already owns the active lease"
  refuse
      (not (is_empty m.active_option_instance_id)
        && not (contains m.active_option_instance_id m.cancelled))
      "active option instance must be cancelled before replacement"
  refuse (contains id m.cancelled) "cancelled option instance IDs must not be reused"

unfoldable pub activate : String → Bool → Option ℤ → Option ℤ → Option String → Method ℕ
unfolding activation_fault
activate id authorized v w epoch m = elim (activation_fault id v w epoch m) [
  | raised reason ↦ (raised reason, m)
  | ok _ ↦ (
    ok (m.generation + 1),
    record m {
      generation = m.generation + 1;
      active_option_instance_id = id;
      candidate_authorized = authorized;
      expected_map_version = v;
      expected_topology_version = w;
      expected_localization_epoch = epoch;
    },
  )
]

unfoldable pub cancel : String → ExecutionLease → ExecutionLease
cancel id m =
    let m' = record m {
      cancelled = if contains id m.cancelled then m.cancelled else id ∷ m.cancelled;
    } in
    if is_empty id
    then m
    else if id == m.active_option_instance_id
    then record m' { candidate_authorized = false }
    else m'

-- The tests of the owner that the two following methods share.
unfoldable pub owner_fault : String → ℕ → ExecutionLease → Outcome (Unit {0})
owner_fault id generation m = do
  refuse (generation != m.generation) "candidate belongs to an inactive lease generation"
  refuse (id != m.active_option_instance_id) "option instance does not own the active lease"

unfoldable pub set_candidate_authorized : String → ℕ → Bool → Method (Unit {0})
unfolding owner_fault
set_candidate_authorized id generation authorized m =
    elim (do
      refuse (is_empty id) "option_instance_id must not be empty"
      owner_fault id generation m
      refuse (contains id m.cancelled && authorized)
          "cancelled option instance cannot regain authority") [
            | raised reason ↦ (raised reason, m)
            | ok _ ↦ (ok tt, record m { candidate_authorized = authorized })
          ]

unfoldable pub advance_generation : String → ℕ → Method ℕ
unfolding owner_fault
advance_generation id generation m =
    elim (do
      owner_fault id generation m
      refuse (contains id m.cancelled) "cancelled option instance cannot regain authority"
      refuse m.candidate_authorized
          "candidate authority must be revoked before generation advance") [
            | raised reason ↦ (raised reason, m)
            | ok _ ↦ (ok (m.generation + 1), record m { generation = m.generation + 1 })
          ]

-- `expected is not None and value != expected`
abbrev pub differs : ℤ → Option ℤ → Bool
differs value Option.none = false
differs value (some expected) = value != expected

abbrev pub differs_epoch : String → Option String → Bool
differs_epoch value Option.none = false
differs_epoch value (some expected) = value != expected

-- The tests of `admit` on the lease, then those on the candidate and its path.
unfoldable pub lease_fault : CandidateEnvelope → ℕ → ExecutionLease → Outcome (Unit {0})
lease_fault e generation m = do
  refuse (generation != m.generation) "candidate belongs to an inactive lease generation"
  refuse (contains e.option_instance_id m.cancelled) "candidate option instance was cancelled"
  refuse (e.option_instance_id != m.active_option_instance_id)
      "candidate option instance does not own the active lease"
  refuse (not m.candidate_authorized) "candidate authority is revoked"

unfoldable pub candidate_fault : CandidateEnvelope → ℤ → ℕ → Outcome (Unit {0})
candidate_fault e now generation = do
  let c = e.candidate
  refuse (c.source_id != e.option_instance_id) "candidate source does not match option instance"
  refuse (c.lease_generation != pos generation)
      "candidate lease generation does not match active generation"
  refuse (leb_ℤ c.valid_until now) "candidate lease has expired"
  refuse (c.map_version != e.path.map_version) "candidate map version does not match path"
  refuse (c.topology_version != e.path.topology_version)
      "candidate topology version does not match path"
  refuse (e.path.localization_epoch != c.localization_epoch)
      "candidate localization epoch does not match path"

unfoldable pub version_fault : MotionCandidate → ExecutionLease → Outcome (Unit {0})
version_fault c m = do
  refuse (differs c.map_version m.expected_map_version)
      "candidate map version does not match active option"
  refuse (differs c.topology_version m.expected_topology_version)
      "candidate topology version does not match active option"
  refuse (differs_epoch c.localization_epoch m.expected_localization_epoch)
      "candidate localization epoch does not match active option"

-- `admit` reads the lease and leaves it as it is.
unfoldable pub admit : CandidateEnvelope → ℤ → ℕ → ExecutionLease → Outcome MotionCandidate
unfolding lease_fault candidate_fault version_fault
admit e now generation m = do
  lease_fault e generation m
  candidate_fault e now generation
  version_fault e.candidate m
  ok e.candidate
