-- ===== src/Options/Authority/Acceptance.antt =====
-- What `submit` makes of an idle option authority: an option in planning, or nothing new.
use hsl.Prelude.{
  ◌+◌, String, true, false, ◌≡◌, refl, some, ◌∷◌, arith, if◌then◌else◌, contains, is_empty, eq_iff,
  nat_eq, string_eq,
}
use hsl.Prelude.Int.{pos}
use hsl.Prelude.Outcome.{Outcome, ok, raised}
use hsl.Prelude.Dict
use hsl.Lease.{ExecutionLease, activate, activation_fault}
use hsl.Options.{OptionGoal, OptionContext}
use hsl.Options.Authority.{
  option_phase_eq, ActionAdmission, ActionRecord, OptionAuthority, record_event, announce,
}
use hsl.Options.Authority.Methods.{planned, with_admission, remember_accepted, accept}
use hsl.Options.Authority.Invariant.{IsRunning}
use hsl.Options.Authority.Advance.{publish-other}

abbrev pub fault_of : OptionGoal → OptionAuthority → Outcome (Unit {0})
fault_of g m =
    activation_fault g.option_instance_id (some (pos g.map_version)) (some (pos g.topology_version))
      (some g.localization_epoch) m.lease

-- The lease that an accepted goal starts, and the authority that publishes it.
abbrev activated : OptionGoal → ExecutionLease → ExecutionLease
activated g m = record m {
  generation = m.generation + 1;
  active_option_instance_id = g.option_instance_id;
  candidate_authorized = false;
  expected_map_version = some (pos g.map_version);
  expected_topology_version = some (pos g.topology_version);
  expected_localization_epoch = some g.localization_epoch;
}

abbrev taken : String → OptionGoal → OptionAuthority → OptionAuthority
taken action_id g m = record m {
  lease = activated g m.lease;
  used_instance_ids =
      if contains g.option_instance_id m.used_instance_ids
      then m.used_instance_ids
      else g.option_instance_id ∷ m.used_instance_ids;
  active_action_id = action_id;
}

abbrev published : String → OptionGoal → OptionContext → OptionAuthority → OptionAuthority
published action_id g c m =
    announce "state_transition" (planned action_id g c (m.lease.generation + 1)) false c
      "goal_accepted" (taken action_id g m)

abbrev admission_of : String → OptionGoal → OptionContext → OptionAuthority → ActionAdmission
admission_of action_id g c m = record {
  accepted = true;
  reason = "accepted";
  execution_state = (published action_id g c m).state;
}

abbrev pub record_of : String → OptionGoal → OptionContext → OptionAuthority → ActionRecord
record_of action_id g c m =
    with_admission (admission_of action_id g c m) g
      (some (planned action_id g c (m.lease.generation + 1)))

abbrev pub accepted : String → OptionGoal → OptionContext → OptionAuthority → OptionAuthority
accepted action_id g c m = record (published action_id g c m) {
  records = Dict.put action_id (record_of action_id g c m) (published action_id g c m).records;
}

pub accept-raised :
    (action_id : String) (g : OptionGoal) (c : OptionContext) (m : OptionAuthority) (e : String)
    → fault_of g m ≡ raised e
    → accept action_id g c m ≡ (raised e, m)
unfolding accept activate
accept-raised action_id g c m e fault = ground (arith, fault)

pub accept-ok :
    (action_id : String) (g : OptionGoal) (c : OptionContext) (m : OptionAuthority)
    → fault_of g m ≡ ok tt
    → accept action_id g c m ≡ (ok (admission_of action_id g c m), accepted action_id g c m)
unfolding accept activate remember_accepted
accept-ok action_id g c m fault = ground (
  arith,
  fault,
  publish-other (planned action_id g c (m.lease.generation + 1)) c "goal_accepted"
      (taken action_id g m) refl,
)

pub accepted-IsRunning :
    (action_id : String) (g : OptionGoal) (c : OptionContext) (m : OptionAuthority)
    → is_empty action_id ≡ false
    → fault_of g m ≡ ok tt
    → m.last_now_ns ≡ c.now_ns
    → IsRunning
        (planned action_id g c (m.lease.generation + 1))
        (record_of action_id g c m)
        (accepted action_id g c m)
unfolding announce record_event activation_fault
accepted-IsRunning action_id g c m named fault at = record {
  named = named;
  own_action = refl;
  recorded = ground (
    arith,
    eq_iff action_id action_id,
    Dict.get-put action_id action_id (record_of action_id g c m) m.records,
  );
  current = refl;
  unfinished = refl;
  owner = refl;
  identified = ground (arith, fault);
  generation = refl;
  begun = omega (arith, at);
  live = ground (arith, fault);
  authority = refl;
  own_state = refl;
  own_phase = refl;
  executing = ground arith;
  moving = ground arith;
}
