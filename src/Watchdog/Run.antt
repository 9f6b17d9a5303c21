-- ===== src/Watchdog/Run.antt =====
-- The watchdog over its calls: when it releases the stop, and that a fault stays latched.
use hsl.Prelude.{
  String, Bool, true, false, Option, some, is_empty, Option-cases, ◌≡◌, ◌≢◌, arith, string_eq,
  eq_iff, any, List, [], ◌∷◌, inl, inr,
}
use hsl.Prelude.Int.{ℤ, pos, ◌-ℤ◌, ◌≤ℤ◌, is_negative}
use hsl.Prelude.Outcome.{ok}
use hsl.Watchdog.{
  WatchdogState, state_eq, HeartbeatObservation, WatchdogOutput, WatchdogMachine, new,
  heartbeat_fault, accept_heartbeat, observe_heartbeat, tick_on, tick, rearm,
}

pub data Step : Type 0 where
  beat : (h : HeartbeatObservation) → Step
  clock : (now : ℤ) (stage_authorized supervisor_healthy : Bool) → Step
  recover :
      (stage_id config_hash authorization_ref : String) (near_zero dwell_satisfied : Bool) → Step

unfoldable pub step : Step → WatchdogMachine → WatchdogMachine
step (beat h) m = observe_heartbeat h m
step (clock now a s) m = (tick now a s m).1
step (recover s c r z d) m = (rearm s c r z d m).1

unfoldable pub run : List Step → WatchdogMachine → WatchdogMachine
run [] m = m
run (s ∷ ss) m = run ss (step s m)

-- A heartbeat that lets the watchdog release the stop at the time `now`.
pub record IsPermit (now : ℤ) (m : WatchdogMachine) (h : HeartbeatObservation) : Type 0 where
  pub permits : h.permit_motion ≡ true
  pub not_ahead : h.received_steady_ns ≤ℤ now
  pub in_lease : (now -ℤ h.received_steady_ns) ≤ℤ m.heartbeat_lease_ns

sub-is_negative : (a b : ℤ) → is_negative (a -ℤ b) ≡ false → b ≤ℤ a
unfolding ◌-ℤ◌
sub-is_negative a b h = ground arith

tick_on-IsPermit :
    (h : HeartbeatObservation) (now : ℤ) (a s : Bool) (m : WatchdogMachine) (o : WatchdogOutput)
    → (tick_on h now a s m).0 ≡ ok o
    → o.stop_asserted ≡ false
    → (a ≡ true) × (s ≡ true) × IsPermit now m h
unfolding tick_on
tick_on-IsPermit h now a s m o e r = ground (arith, sub-is_negative now h.received_steady_ns)

-- A tick that does not assert the stop: no fault is latched, the supervisor is healthy, the stage is
-- authorized, and the last heartbeat permits motion and is within its lease.
pub tick-IsPermit :
    (now : ℤ) (stage_authorized supervisor_healthy : Bool) (m : WatchdogMachine)
    (o : WatchdogOutput)
    → (tick now stage_authorized supervisor_healthy m).0 ≡ ok o
    → o.stop_asserted ≡ false
    → (m.state ≢ WatchdogState.fault_latched)
      × (stage_authorized ≡ true)
      × (supervisor_healthy ≡ true)
      × (h : HeartbeatObservation) × (m.last ≡ some h)
      × IsPermit now m h
unfolding tick
tick-IsPermit now a s m o e r = elim (Option-cases m.last) [
  | inl lost ↦ absurd (ground (arith, lost))
  | inr (h, got) ↦
      let p = tick_on-IsPermit h now a s m o (ground (arith, got)) r in
      (ground arith, p.0, p.1, h, got, p.2)
]

-- What holds of the watchdog between two calls.
pub record IsWellFormed (m : WatchdogMachine) : Type 0 where
  pub configured : is_empty m.config_hash ≡ false
  pub leased : pos 1 ≤ℤ m.heartbeat_lease_ns
  pub unobserved : m.state ≡ WatchdogState.disarmed → m.last ≡ Option.none
  pub observed : m.state ≡ WatchdogState.active → m.last ≢ Option.none
  pub identified :
      (h : HeartbeatObservation)
      → m.last ≡ some h
      → (h.stage_id ≡ m.stage_id)
        × (h.config_hash ≡ m.config_hash)
        × (is_empty m.stage_id ≡ false)
        × (is_negative h.decision_seq ≡ false)

step-IsWellFormed : (s : Step) (m : WatchdogMachine) → IsWellFormed m → IsWellFormed (step s m)
unfolding step
step-IsWellFormed (beat h) m w =
    unfold observe_heartbeat heartbeat_fault accept_heartbeat in
    ground (arith, eq_iff h.config_hash m.config_hash, eq_iff h.stage_id m.stage_id)
step-IsWellFormed (clock now a s) m w = unfold tick tick_on in ground arith
step-IsWellFormed (recover s c r z d) m w = unfold rearm in ground arith

pub run-IsWellFormed :
    (ss : List Step) (m : WatchdogMachine) → IsWellFormed m → IsWellFormed (run ss m)
unfolding run
run-IsWellFormed [] m w = w
run-IsWellFormed (s ∷ ss) m w = run-IsWellFormed ss (step s m) (step-IsWellFormed s m w)

new-IsWellFormed :
    (config_hash : String) (lease : ℤ) (m : WatchdogMachine)
    → new config_hash lease ≡ ok m
    → IsWellFormed m
unfolding new
new-IsWellFormed c l m h = ground arith

-- Whatever the calls, a machine that was constructed is well-formed: its last heartbeat bears its
-- configuration and its stage, it is never active without one, and disarmed only before the first.
pub run-new-IsWellFormed :
    (config_hash : String) (lease : ℤ) (m : WatchdogMachine) (ss : List Step)
    → new config_hash lease ≡ ok m
    → IsWellFormed (run ss m)
run-new-IsWellFormed c l m ss h = run-IsWellFormed ss m (new-IsWellFormed c l m h)

-- A step that is no recovery.
abbrev pub is_recover : Step → Bool
is_recover (recover s c r z d) = true
is_recover _ = false

step-latched :
    (s : Step) (m : WatchdogMachine)
    → is_recover s ≡ false
    → m.state ≡ WatchdogState.fault_latched
    → (step s m).state ≡ WatchdogState.fault_latched
unfolding step
step-latched (beat h) m n f =
    unfold observe_heartbeat heartbeat_fault accept_heartbeat in
    ground (arith, eq_iff h.config_hash m.config_hash)
step-latched (clock now a s) m n f = unfold tick in ground arith
step-latched (recover s c r z d) m n f = ground arith

run-latched :
    (ss : List Step) (m : WatchdogMachine)
    → any is_recover ss ≡ false
    → m.state ≡ WatchdogState.fault_latched
    → (run ss m).state ≡ WatchdogState.fault_latched
unfolding run
run-latched [] m n f = f
run-latched (s ∷ ss) m n f =
    run-latched ss (step s m) (ground arith) (step-latched s m (ground arith) f)

-- A fault stays latched, whatever heartbeats and ticks follow, until a recovery: every later tick
-- asserts the stop and reports an unhealthy watchdog.
pub latched-stops :
    (ss : List Step) (m : WatchdogMachine) (now : ℤ) (stage_authorized supervisor_healthy : Bool)
    (o : WatchdogOutput)
    → any is_recover ss ≡ false
    → m.state ≡ WatchdogState.fault_latched
    → (tick now stage_authorized supervisor_healthy (run ss m)).0 ≡ ok o
    → (o.stop_asserted ≡ true) × (o.healthy ≡ false)
unfolding tick
latched-stops ss m now a s o n f e = let l = run-latched ss m n f in ground (arith, l)

-- A step that observes a heartbeat.
abbrev pub is_beat : Step → Bool
is_beat (beat h) = true
is_beat _ = false

step-unobserved :
    (s : Step) (m : WatchdogMachine)
    → is_beat s ≡ false
    → m.last ≡ Option.none
    → (step s m).last ≡ Option.none
unfolding step
step-unobserved (beat h) m n f = ground arith
step-unobserved (clock now a s) m n f = unfold tick in ground arith
step-unobserved (recover s c r z d) m n f = unfold rearm in ground arith

run-unobserved :
    (ss : List Step) (m : WatchdogMachine)
    → any is_beat ss ≡ false
    → m.last ≡ Option.none
    → (run ss m).last ≡ Option.none
unfolding run
run-unobserved [] m n f = f
run-unobserved (s ∷ ss) m n f =
    run-unobserved ss (step s m) (ground arith) (step-unobserved s m (ground arith) f)

tick-unobserved :
    (now : ℤ) (stage_authorized supervisor_healthy : Bool) (m : WatchdogMachine)
    (o : WatchdogOutput)
    → m.last ≡ Option.none
    → (tick now stage_authorized supervisor_healthy m).0 ≡ ok o
    → o.stop_asserted ≡ true
unfolding tick
tick-unobserved now a s m o none e = ground (arith, none)

-- A recovery is granted only from a latched fault, with an authorization, the configuration and
-- stage of the machine, a base near zero and the dwell. Behind it every tick asserts the stop,
-- whatever ticks and recoveries come between, as long as no heartbeat is observed.
pub rearm-stops :
    (stage_id config_hash authorization_ref : String) (near_zero dwell_satisfied : Bool)
    (m : WatchdogMachine) (ss : List Step) (now : ℤ) (stage_authorized supervisor_healthy : Bool)
    (o : WatchdogOutput)
    → any is_beat ss ≡ false
    → (rearm stage_id config_hash authorization_ref near_zero dwell_satisfied m).0 ≡ true
    → (tick now stage_authorized supervisor_healthy
        (run ss (rearm stage_id config_hash authorization_ref near_zero dwell_satisfied m).1)).0
      ≡ ok o
    → (m.state ≡ WatchdogState.fault_latched)
      × (is_empty authorization_ref ≡ false)
      × (config_hash ≡ m.config_hash)
      × (stage_id ≡ m.stage_id)
      × (near_zero ≡ true)
      × (dwell_satisfied ≡ true)
      × (o.stop_asserted ≡ true)
unfolding rearm
rearm-stops s c r z d m ss now a h o n g e =
    let m' = (rearm s c r z d m).1 in
    let unobserved = run-unobserved ss m' n (ground (arith, g)) in
    (
      ground arith,
      ground arith,
      ground (arith, eq_iff c m.config_hash),
      ground (arith, eq_iff s m.stage_id),
      ground arith,
      ground arith,
      tick-unobserved now a h (run ss m') o unobserved e,
    )
