-- ===== src/Lease/Authority.antt =====
-- The lease over its calls: what an admitted candidate has, and what revokes it for good.
use hsl.Prelude.{
  ℕ, ◌≤◌, ◌<◌, String, Bool, true, false, Option, List, [], ◌∷◌, ◌≡◌, ◌≢◌, arith, is_empty,
  contains, string_eq, nat_eq, eq_iff,
}
use hsl.Prelude.Int.{ℤ, pos, ltb_ℤ, int_eq}
use hsl.Prelude.Outcome.{ok}
use hsl.Lease.{
  MotionCandidate, CandidateEnvelope, ExecutionLease, new, activation_fault, activate, cancel,
  owner_fault, set_candidate_authorized, advance_generation, lease_fault, candidate_fault, differs,
  differs_epoch, version_fault, admit,
}

pub data Call : Type 0 where
  start : (id : String) (authorized : Bool) (v w : Option ℤ) (epoch : Option String) → Call
  stop : (id : String) → Call
  authorize : (id : String) (generation : ℕ) (authorized : Bool) → Call
  replan : (id : String) (generation : ℕ) → Call

-- The lease that a call leaves, whether it returns or raises.
unfoldable pub perform : Call → ExecutionLease → ExecutionLease
perform (start id authorized v w epoch) m = (activate id authorized v w epoch m).1
perform (stop id) m = cancel id m
perform (authorize id generation authorized) m =
    (set_candidate_authorized id generation authorized m).1
perform (replan id generation) m = (advance_generation id generation m).1

unfoldable pub perform_all : List Call → ExecutionLease → ExecutionLease
perform_all [] m = m
perform_all (c ∷ cs) m = perform_all cs (perform c m)

-- A candidate that the lease `m` lets through at the time `now`.
pub record IsAdmissible (e : CandidateEnvelope) (now : ℤ) (m : ExecutionLease) : Type 0 where
  pub owner : e.option_instance_id ≡ m.active_option_instance_id
  pub live : contains e.option_instance_id m.cancelled ≡ false
  pub authorized : m.candidate_authorized ≡ true
  pub own_source : e.candidate.source_id ≡ e.option_instance_id
  pub own_generation : e.candidate.lease_generation ≡ pos m.generation
  pub unexpired : ltb_ℤ now e.candidate.valid_until ≡ true
  pub own_map : e.candidate.map_version ≡ e.path.map_version
  pub own_topology : e.candidate.topology_version ≡ e.path.topology_version
  pub own_epoch : e.candidate.localization_epoch ≡ e.path.localization_epoch
  pub expected_map : differs e.candidate.map_version m.expected_map_version ≡ false
  pub expected_topology : differs e.candidate.topology_version m.expected_topology_version ≡ false
  pub expected_epoch :
      differs_epoch e.candidate.localization_epoch m.expected_localization_epoch ≡ false

-- A candidate is admitted unchanged, and only under the current generation, for the option instance
-- that owns the lease, is not cancelled and has the authority, before its expiry, with the versions
-- of its own path and of the active option.
pub admit-IsAdmissible :
    (e : CandidateEnvelope) (now : ℤ) (generation : ℕ) (m : ExecutionLease) (c : MotionCandidate)
    → admit e now generation m ≡ ok c
    → (c ≡ e.candidate) × (generation ≡ m.generation) × IsAdmissible e now m
unfolding admit lease_fault candidate_fault version_fault
admit-IsAdmissible e now generation m c h = ground (
  arith,
  eq_iff e.option_instance_id m.active_option_instance_id,
  eq_iff e.candidate.source_id e.option_instance_id,
  eq_iff e.path.localization_epoch e.candidate.localization_epoch,
)

perform-generation : (c : Call) (m : ExecutionLease) → (m.generation ≤ (perform c m).generation)
unfolding perform
perform-generation (start id a v w epoch) m = unfold activate in ground arith
perform-generation (stop id) m = unfold cancel in ground arith
perform-generation (authorize id g a) m = unfold set_candidate_authorized in ground arith
perform-generation (replan id g) m = unfold advance_generation in ground arith

perform_all-generation :
    (cs : List Call) (m : ExecutionLease) → m.generation ≤ (perform_all cs m).generation
unfolding perform_all
perform_all-generation [] m = omega arith
perform_all-generation (c ∷ cs) m =
    omega (arith, perform-generation c m, perform_all-generation cs (perform c m))

-- Once a replan of the active option has returned a new generation, no call makes the lease admit a
-- candidate that is offered under an earlier one.
pub replanned :
    (id : String) (generation g g' : ℕ) (m : ExecutionLease) (cs : List Call)
    (e : CandidateEnvelope) (now : ℤ) (c : MotionCandidate)
    → (advance_generation id generation m).0 ≡ ok g
    → g' < g
    → admit e now g' (perform_all cs (advance_generation id generation m).1) ≢ ok c
replanned id generation g g' m cs e now c r old h =
    let grown = perform_all-generation cs (advance_generation id generation m).1 in
    let a =
      admit-IsAdmissible e now g' (perform_all cs (advance_generation id generation m).1) c h in
    unfold advance_generation in ground (arith, a.1, grown)

perform-cancelled :
    (id : String) (c : Call) (m : ExecutionLease)
    → contains id m.cancelled ≡ true
    → contains id (perform c m).cancelled ≡ true
unfolding perform
perform-cancelled id (start i a v w epoch) m h = unfold activate in ground arith
perform-cancelled id (stop i) m h = unfold cancel in ground arith
perform-cancelled id (authorize i g a) m h = unfold set_candidate_authorized in ground arith
perform-cancelled id (replan i g) m h = unfold advance_generation in ground arith

perform_all-cancelled :
    (id : String) (cs : List Call) (m : ExecutionLease)
    → contains id m.cancelled ≡ true
    → contains id (perform_all cs m).cancelled ≡ true
unfolding perform_all
perform_all-cancelled id [] m h = h
perform_all-cancelled id (c ∷ cs) m h =
    perform_all-cancelled id cs (perform c m) (perform-cancelled id c m h)

cancel-cancelled :
    (id : String) (m : ExecutionLease)
    → is_empty id ≡ false
    → contains id (cancel id m).cancelled ≡ true
unfolding cancel
cancel-cancelled id m h = ground (arith, eq_iff id id)

-- A cancelled option instance is out for good: whatever calls follow, no candidate of it is admitted.
pub cancelled_for_good :
    (id : String) (m : ExecutionLease) (cs : List Call) (e : CandidateEnvelope) (now : ℤ)
    (generation : ℕ) (c : MotionCandidate)
    → is_empty id ≡ false
    → e.option_instance_id ≡ id
    → admit e now generation (perform_all cs (cancel id m)) ≢ ok c
cancelled_for_good id m cs e now generation c named same h =
    let gone = perform_all-cancelled id cs (cancel id m) (cancel-cancelled id m named) in
    let a = (admit-IsAdmissible e now generation (perform_all cs (cancel id m)) c h).2 in
    ground (arith, gone, a.live, same)

-- What holds of a lease between two calls.
pub record IsWellFormed (m : ExecutionLease) : Type 0 where
  pub owned : m.candidate_authorized ≡ true → is_empty m.active_option_instance_id ≡ false
  pub live :
      m.candidate_authorized ≡ true → contains m.active_option_instance_id m.cancelled ≡ false
  pub begun : is_empty m.active_option_instance_id ≡ false → 0 < m.generation

perform-IsWellFormed : (c : Call) (m : ExecutionLease) → IsWellFormed m → IsWellFormed (perform c m)
unfolding perform
perform-IsWellFormed (start id a v w epoch) m h = unfold activate activation_fault in ground arith
perform-IsWellFormed (stop id) m h =
    unfold cancel in ground (arith, eq_iff id m.active_option_instance_id)
perform-IsWellFormed (authorize id g a) m h =
    unfold set_candidate_authorized owner_fault in
    ground (arith, eq_iff id m.active_option_instance_id)
perform-IsWellFormed (replan id g) m h = unfold advance_generation in ground arith

perform_all-IsWellFormed :
    (cs : List Call) (m : ExecutionLease) → IsWellFormed m → IsWellFormed (perform_all cs m)
unfolding perform_all
perform_all-IsWellFormed [] m h = h
perform_all-IsWellFormed (c ∷ cs) m h =
    perform_all-IsWellFormed cs (perform c m) (perform-IsWellFormed c m h)

-- Whatever the calls on a new lease, authority is with an instance that owns the lease and is not
-- cancelled, and the lease has a generation once it is owned.
pub lease-IsWellFormed : (cs : List Call) → IsWellFormed (perform_all cs new)
lease-IsWellFormed cs = perform_all-IsWellFormed cs new (ground arith)
