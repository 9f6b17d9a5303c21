-- ===== src/Mux.antt =====
-- ros_ws/src/hsl_safety/hsl_safety/mux_contract.py: `DeterministicMux`, the arbitration of velocity
-- commands. A velocity is an integer of micrometres or microradians a second; non-finite ones, which
-- `receive` refuses, have no counterpart.
use hsl.Prelude.{
  ℕ, String, Bool, true, false, not, ◌&&◌, ◌||◌, Option, some, List, [], ◌∷◌, if◌then◌else◌,
  is_empty, ◌==◌, ◌!=◌, string_eq,
}
use hsl.Prelude.Int.{ℤ, pos, ◌-ℤ◌, ltb_ℤ, leb_ℤ, is_negative, int_eq}
use hsl.Prelude.Outcome.{Outcome, ok, raised}
use hsl.Prelude.Dict
use hsl.Prelude.Dict.{Dict}
pub mod Arbitration

pub record MuxInput : Type 0 where
  pub name : String
  pub priority : ℤ
  pub received_steady_ns : ℤ
  pub timeout_ns : ℤ
  pub linear_x : ℤ
  pub angular_z : ℤ

pub record MuxDecision : Type 0 where
  pub source : String
  pub linear_x : ℤ
  pub angular_z : ℤ
  pub stop_asserted : Bool

pub record DeterministicMux : Type 0 where
  pub physical_output : String
  pub inputs : Dict String MuxInput

unfoldable pub new : String → Outcome DeterministicMux
new physical_output =
    if is_empty physical_output
    then raised "physical_output must be non-empty"
    else ok (record { physical_output = physical_output; inputs = [] })

unfoldable pub input_fault : MuxInput → Option String
input_fault c =
    if is_empty c.name
      || is_negative c.priority
      || is_negative c.received_steady_ns
      || leb_ℤ c.timeout_ns (pos 0)
    then some "invalid mux input contract"
    else if c.name == "watchdog_stop" && (c.linear_x != pos 0 || c.angular_z != pos 0)
    then some "watchdog_stop must be zero-only"
    else Option.none

unfoldable pub receive : MuxInput → DeterministicMux → Outcome (Unit {0}) × DeterministicMux
unfolding input_fault Dict.put
receive c m = elim (input_fault c) [
  | some reason ↦ (raised reason, m)
  | Option.none ↦ (ok tt, record m { inputs = Dict.put c.name c m.inputs })
]

abbrev pub is_fresh : ℤ → MuxInput → Bool
is_fresh now c =
    let age = now -ℤ c.received_steady_ns in leb_ℤ (pos 0) age && leb_ℤ age c.timeout_ns

unfoldable pub fresh_inputs : ℤ → List MuxInput → List MuxInput
fresh_inputs now [] = []
fresh_inputs now (c ∷ cs) =
    let rest = fresh_inputs now cs in if is_fresh now c then c ∷ rest else rest

-- `max` by the priority, which keeps the first of equal ones.
unfoldable pub higher : MuxInput → MuxInput → MuxInput
higher best c = if ltb_ℤ best.priority c.priority then c else best

unfoldable pub highest : MuxInput → List MuxInput → MuxInput
unfolding higher
highest best [] = best
highest best (c ∷ cs) = highest (higher best c) cs

abbrev pub idle : MuxDecision
idle = record { source = "idle"; linear_x = pos 0; angular_z = pos 0; stop_asserted = true }

abbrev pub selection : MuxInput → MuxDecision
selection c = record {
  source = c.name;
  linear_x = c.linear_x;
  angular_z = c.angular_z;
  stop_asserted = c.name == "watchdog_stop";
}

unfoldable pub select : List MuxInput → MuxDecision
unfolding highest
select [] = idle
select (c ∷ cs) = selection (highest c cs)

unfoldable pub decide : ℤ → DeterministicMux → Outcome MuxDecision
unfolding fresh_inputs select Dict.values
decide now m =
    if is_negative now
    then raised "now_steady_ns must be non-negative"
    else ok (select (fresh_inputs now (Dict.values m.inputs)))

-- `MUX_INPUT_CONTRACT`: name, topic, priority and timeout.
abbrev pub mux_input_contract : List (String × String × ℕ × ℕ)
mux_input_contract =
    ("watchdog_stop", "/hsl/cmd_vel_stop", 200, 100000000)
    ∷ ("emergency_teleop", "/teleop/cmd_vel", 100, 200000000)
    ∷ ("autonomous_supervisor", "/hsl/cmd_vel_final", 50, 150000000)
    ∷ []

abbrev names_of : List (String × String × ℕ × ℕ) → List String
names_of [] = []
names_of (item ∷ items) = item.0 ∷ names_of items

abbrev pub configured_mux_names : List String
configured_mux_names = names_of mux_input_contract
