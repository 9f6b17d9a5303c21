-- ===== src/Tests/Safety.antt =====
-- The watchdog, the mux and the lease, at concrete inputs.
use hsl.Prelude.{
  true, false, List, [], ◌∷◌, Option, some, ◌≡◌, ◌≢◌, ◌⊎◌, refl, arith, All, is_empty,
}
use hsl.Prelude.Int.{pos, ◌-ℤ◌}
use hsl.Prelude.Outcome.{ok}
use hsl.Prelude.Dict
use hsl.Watchdog.{
  WatchdogState, HeartbeatObservation, WatchdogMachine, WatchdogOutput, output, observe_heartbeat,
  tick, rearm,
}
use hsl.Watchdog as Watchdog
use hsl.Watchdog.Run.{
  Step, beat, clock, recover, is_recover, step, run, IsPermit, tick-IsPermit, run-new-IsWellFormed,
  latched-stops, rearm-stops,
}
use hsl.Watchdog.Run as Run
use hsl.Mux.{MuxInput, MuxDecision, DeterministicMux, idle, selection, is_fresh, receive, decide}
use hsl.Mux as Mux
use hsl.Mux.Arbitration.{IsSelected, decide-IsSelected, receive_all, stop_is_zero}
use hsl.Lease.{
  MotionCandidate, PathVersions, CandidateEnvelope, ExecutionLease, cancel, advance_generation,
  admit,
}
use hsl.Lease as Lease
use hsl.Lease.Authority.{
  Call, perform_all, IsAdmissible, admit-IsAdmissible, replanned, cancelled_for_good,
  lease-IsWellFormed,
}
use hsl.Lease.Authority as Authority

abbrev heartbeat : HeartbeatObservation
heartbeat = record {
  decision_seq = pos 7;
  stage_id = "stage";
  config_hash = "config";
  received_steady_ns = pos 1000;
  permit_motion = true;
}

abbrev fresh_watchdog : WatchdogMachine
fresh_watchdog = record {
  config_hash = "config";
  heartbeat_lease_ns = pos 150;
  state = WatchdogState.disarmed;
  last = Option.none;
  stage_id = "";
  fault_reason = "STARTUP_DISARMED";
}

abbrev watchdog : WatchdogMachine
watchdog = record fresh_watchdog {
  state = WatchdogState.ready;
  last = some heartbeat;
  stage_id = "stage";
  fault_reason = "";
}

abbrev faulted : WatchdogMachine
faulted = record watchdog { state = WatchdogState.fault_latched; fault_reason = "STALE_HEARTBEAT" }

abbrev released : WatchdogOutput
released = output false true (record watchdog { state = WatchdogState.active })

released_at : (tick (pos 1100) true true watchdog).0 ≡ ok released
unfolding tick
released_at = refl

abbrev beats : List Step
beats = beat heartbeat ∷ clock (pos 1100) true true ∷ []

abbrev stopped : WatchdogOutput
stopped = output true false (record faulted { fault_reason = "HEARTBEAT_NOT_PROGRESSING" })

stopped_at : (tick (pos 1100) true true (run beats faulted)).0 ≡ ok stopped
unfolding tick run step observe_heartbeat
stopped_at = refl

abbrev silent : WatchdogOutput
silent =
    output true false
      (record faulted { state = WatchdogState.ready; fault_reason = ""; last = Option.none })

rearmed : (rearm "stage" "config" "organizer" true true faulted).0 ≡ true
unfolding rearm
rearmed = refl

-- A tick and a second recovery, which is not granted, without a heartbeat.
abbrev silence : List Step
silence = clock (pos 1050) true true ∷ recover "stage" "config" "organizer" true true ∷ []

silent_at :
    (tick
      (pos 1100)
      true
      true
      (run silence (rearm "stage" "config" "organizer" true true faulted).1)).0
    ≡ ok silent
unfolding tick rearm run step
silent_at = refl

is_watchdog : Watchdog.new "config" (pos 150) ≡ ok fresh_watchdog
unfolding Watchdog.new
is_watchdog = refl

tick-IsPermit_example :
    (watchdog.state ≢ WatchdogState.fault_latched)
    × (true ≡ true)
    × (true ≡ true)
    × (h : HeartbeatObservation) × (watchdog.last ≡ some h)
    × IsPermit (pos 1100) watchdog h
tick-IsPermit_example = tick-IsPermit (pos 1100) true true watchdog released released_at refl

latched-stops_example : (stopped.stop_asserted ≡ true) × (stopped.healthy ≡ false)
latched-stops_example =
    latched-stops beats faulted (pos 1100) true true stopped refl refl stopped_at

rearm-stops_example :
    (faulted.state ≡ WatchdogState.fault_latched)
    × (is_empty "organizer" ≡ false)
    × ("config" ≡ faulted.config_hash)
    × ("stage" ≡ faulted.stage_id)
    × (true ≡ true)
    × (true ≡ true)
    × (silent.stop_asserted ≡ true)
rearm-stops_example =
    rearm-stops "stage" "config" "organizer" true true faulted silence (pos 1100) true true silent
      refl rearmed silent_at

run-new-IsWellFormed_example : Run.IsWellFormed (run beats fresh_watchdog)
run-new-IsWellFormed_example =
    run-new-IsWellFormed "config" (pos 150) fresh_watchdog beats is_watchdog

abbrev stop_command : MuxInput
stop_command = record {
  name = "watchdog_stop";
  priority = pos 200;
  received_steady_ns = pos 1000;
  timeout_ns = pos 100;
  linear_x = pos 0;
  angular_z = pos 0;
}

abbrev drive_command : MuxInput
drive_command = record {
  name = "autonomous_supervisor";
  priority = pos 50;
  received_steady_ns = pos 1000;
  timeout_ns = pos 150;
  linear_x = pos 300;
  angular_z = pos 0;
}

abbrev mux : DeterministicMux
mux = record { physical_output = "/commands/velocity"; inputs = [] }

is_mux : Mux.new "/commands/velocity" ≡ ok mux
unfolding Mux.new
is_mux = refl

abbrev commands : List MuxInput
commands = drive_command ∷ stop_command ∷ []

stop_decided : decide (pos 1050) (receive_all commands mux) ≡ ok (selection stop_command)
unfolding decide receive_all receive ◌-ℤ◌
stop_decided = refl

decide-IsSelected_example :
    ((decide (pos 1050) (receive_all commands mux) ≡ ok idle)
      × All (λ c. is_fresh (pos 1050) c ≡ false) (Dict.values (receive_all commands mux).inputs))
    ⊎ ((c : MuxInput) × (decide (pos 1050) (receive_all commands mux) ≡ ok (selection c))
        × IsSelected (pos 1050) (Dict.values (receive_all commands mux).inputs) c)
decide-IsSelected_example = decide-IsSelected (pos 1050) (receive_all commands mux) refl

stop_is_zero_example :
    ((selection stop_command).linear_x ≡ pos 0) × ((selection stop_command).angular_z ≡ pos 0)
stop_is_zero_example =
    stop_is_zero "/commands/velocity" mux commands (pos 1050) (selection stop_command) is_mux
      stop_decided refl

abbrev pub path_candidate : MotionCandidate
path_candidate = record {
  linear_velocity = pos 100;
  angular_velocity = pos 0;
  observation_time = pos 0;
  valid_until = pos 500;
  horizon = pos 1;
  source_id = "go";
  map_version = pos 1;
  localization_epoch = "map";
  topology_version = pos 2;
  lease_generation = pos 1;
}

abbrev pub envelope : CandidateEnvelope
envelope = record {
  candidate = path_candidate;
  path = record { map_version = pos 1; topology_version = pos 2; localization_epoch = "map" };
  option_instance_id = "go";
}

abbrev leased : ExecutionLease
leased = record Lease.new {
  generation = 1;
  active_option_instance_id = "go";
  candidate_authorized = true;
  expected_map_version = some (pos 1);
  expected_topology_version = some (pos 2);
  expected_localization_epoch = some "map";
}

abbrev revoked : ExecutionLease
revoked = record leased { candidate_authorized = false }

admitted : admit envelope (pos 100) 1 leased ≡ ok path_candidate
unfolding admit
admitted = refl

replan : (advance_generation "go" 1 revoked).0 ≡ ok 2
unfolding advance_generation
replan = refl

abbrev renewals : List Call
renewals =
    Authority.start "next" true Option.none Option.none Option.none
    ∷ Authority.authorize "go" 2 true
    ∷ []

admit-IsAdmissible_example :
    (path_candidate ≡ envelope.candidate)
    × (1 ≡ leased.generation)
    × IsAdmissible envelope (pos 100) leased
admit-IsAdmissible_example = admit-IsAdmissible envelope (pos 100) 1 leased path_candidate admitted

replanned_example :
    admit envelope (pos 100) 1 (perform_all renewals (advance_generation "go" 1 revoked).1)
    ≢ ok path_candidate
replanned_example =
    replanned "go" 1 2 1 revoked renewals envelope (pos 100) path_candidate replan (omega arith)

cancelled_for_good_example :
    admit envelope (pos 100) 1 (perform_all renewals (cancel "go" leased)) ≢ ok path_candidate
cancelled_for_good_example =
    cancelled_for_good "go" leased renewals envelope (pos 100) 1 path_candidate refl refl

lease-IsWellFormed_example : Authority.IsWellFormed (perform_all renewals Lease.new)
lease-IsWellFormed_example = lease-IsWellFormed renewals
