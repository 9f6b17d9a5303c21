-- ===== src/Options/Authority/Invariant.antt =====
-- What holds of an option authority between two calls, and the parts of a method that keep it.
use hsl.Prelude.{
  ◌≤◌, String, true, false, ◌||◌, ◌≡◌, ◌⊎◌, Option, some, arith, is_empty, contains, eq_iff, nat_eq,
  string_eq, ◌==◌,
}
use hsl.Prelude.Dict
use hsl.Lease.{cancel}
use hsl.Options.{OptionOutcome, OptionContext}
use hsl.Options.Authority.{
  OptionPhase, option_phase_eq, OptionInstance, ActionRecord, OptionAuthority, record_event,
  is_still, announce, close_record, finish,
}

-- The authority has an active option: the instance, its open record, the lease and the published
-- state agree.
pub record IsRunning (i : OptionInstance) (r : ActionRecord) (m : OptionAuthority) : Type 0 where
  pub named : is_empty m.active_action_id ≡ false
  pub own_action : i.action_id ≡ m.active_action_id
  pub recorded : Dict.get m.active_action_id m.records ≡ some r
  pub current : r.current ≡ some i
  pub unfinished : r.outcome ≡ Option.none
  pub owner : m.lease.active_option_instance_id ≡ i.goal.option_instance_id
  pub identified : is_empty i.goal.option_instance_id ≡ false
  pub generation : i.lease_generation ≡ m.lease.generation
  pub begun : i.started_at_ns ≤ m.last_now_ns
  pub live :
      contains i.goal.option_instance_id m.lease.cancelled ≡ (i.phase == OptionPhase.canceling)
  pub authority : m.lease.candidate_authorized ≡ m.state.candidate_authorized
  pub own_state : m.state.active_option_instance_id ≡ i.goal.option_instance_id
  pub own_phase : m.state.phase ≡ i.phase
  pub executing : m.state.candidate_authorized ≡ true → i.phase ≡ OptionPhase.executing
  pub moving : m.state.candidate_authorized ≡ true → is_still i.goal.kind ≡ false

-- No option is active: nothing has authority, and the lease is free for another instance.
pub record IsIdle (m : OptionAuthority) : Type 0 where
  pub unnamed : m.active_action_id ≡ ""
  pub revoked : m.lease.candidate_authorized ≡ false
  pub unauthorized : m.state.candidate_authorized ≡ false
  pub free :
      (is_empty m.lease.active_option_instance_id
        || contains m.lease.active_option_instance_id m.lease.cancelled)
      ≡ true

-- What the lease names is an instance that the authority has used.
pub record IsTidy (m : OptionAuthority) : Type 0 where
  pub gone :
      (id : String) → contains id m.lease.cancelled ≡ true → contains id m.used_instance_ids ≡ true
  pub owned :
      is_empty m.lease.active_option_instance_id ≡ false
      → contains m.lease.active_option_instance_id m.used_instance_ids ≡ true
  pub unrecorded : Dict.get "" m.records ≡ Option.none

abbrev pub IsCoherent : OptionAuthority → Type 0
IsCoherent m = IsTidy m × (IsIdle m ⊎ ((i : OptionInstance) × (r : ActionRecord) × IsRunning i r m))

pub finish-running :
    (i : OptionInstance) (r : ActionRecord) (m : OptionAuthority) (outcome : OptionOutcome)
    (reason : String) (c : OptionContext)
    → IsRunning i r m
    → m.last_now_ns ≤ c.now_ns
    → finish i outcome reason c m
      ≡ close_record i outcome reason c r
          (record m { lease = cancel i.goal.option_instance_id m.lease })
unfolding finish
finish-running i r m outcome reason c h late =
    ground (arith, h.own_action, h.recorded, h.unfinished, h.begun)

pub close_record-IsIdle :
    (i : OptionInstance) (r : ActionRecord) (m : OptionAuthority) (outcome : OptionOutcome)
    (reason : String) (c : OptionContext)
    → IsRunning i r m
    → IsIdle
        (close_record i outcome reason c r
          (record m { lease = cancel i.goal.option_instance_id m.lease })).1
unfolding close_record announce record_event cancel
close_record-IsIdle i r m outcome reason c h = ground (
  arith,
  h.own_action,
  h.owner,
  h.identified,
  eq_iff i.action_id m.active_action_id,
  eq_iff m.active_action_id i.action_id,
  eq_iff i.goal.option_instance_id m.lease.active_option_instance_id,
  eq_iff i.goal.option_instance_id i.goal.option_instance_id,
)
