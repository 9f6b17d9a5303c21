-- ===== src/Lib.antt =====
-- HSL26: the match authority of the robot, the safety boundary around its motion, and the lease under
-- which planned motion is offered.
--
-- The parts, and how they interact. The stage manager (hsl_core/hsl_core/match.py) owns the stage: its
-- phase, its times, the accepted events and the result. It publishes a `MatchState` with a header of
-- hsl_core/hsl_core/contracts.py, which its readers validate. Planned motion is offered under an
-- execution lease (hsl_core/hsl_core/planning/execution.py), which an option instance holds until it is
-- cancelled or replanned. The tactical selector (hsl_core/hsl_core/tactics/fsm.py) chooses the next
-- option among proposals, and the option authority (options.py beside it) admits it, leads it through
-- its phases and alone changes the lease. The stop watchdog
-- (ros_ws/src/hsl_safety/hsl_safety/watchdog.py) releases its stop only under fresh heartbeats of the
-- supervisor, and the mux (mux_contract.py beside it) lets the fresh command of the highest priority
-- through to the base.
--
-- Which file models which part:
--   Prelude           Python's tests on texts, lists as sets, `dict` in insertion order, integers, and
--                     the outcome of a call: a value or the message of a `ValueError`.
--   Contracts         `ContractHeader`, its `__post_init__` (check_header) and `validate_header`;
--                     Contracts/Polygon: `validate_polygon` and `_segments_intersect`.
--   Match             match.py. Enums and Types: its enumerations and records. Checks: the
--                     `__post_init__` of the profile, the zone and the event. Manager: the state of
--                     `StageManager`, `_record`, `_advance_time` and `_set_timeout`. Requests: `_cached`
--                     and `_remember` with the frame of the methods that answer requests. Lifecycle:
--                     `start_stage` and `set_goal_zone`. Events: `_terminalize_official_events`.
--                     Adjudication: `resolve_event`. Resolution: `resolve_estimate`. Reset:
--                     `reset_stage`, the acknowledgements and the epoch changes. Snapshot: `snapshot`
--                     and the checks of `MatchState`. Calls: any sequence of these calls.
--   Match/Invariant   the invariant of the manager, and that each method keeps it; the files below
--                     Events, Lifecycle, Requests, Reset, Snapshot and Calls hold theorems too.
--   Watchdog, Mux     `WatchdogMachine` and `DeterministicMux`, with Watchdog/Run and Mux/Arbitration.
--   Lease             `ExecutionLease`, and of hsl_core/hsl_core/types.py the `MotionCandidate`;
--                     Lease/Authority: its calls.
--   Options           hsl_core/hsl_core/tactics/options.py. The predicates of `OptionRegistry`, on whose
--                     verdict option instances start, go on and end; Checks: the validations of goals
--                     and contexts. Authority and Authority/Methods: `OptionAuthority`, which admits one
--                     option at a time, leads it through its phases and holds the lease for it; Calls:
--                     any sequence of its calls; the other files of Authority hold theorems.
--   Tactics           hsl_core/hsl_core/tactics. Utility: utility.py; of fsm.py Proposals: the proposals
--                     and the snapshot, Guards: the facts that an option requires and its priority,
--                     Selector: `_evaluate`, `_fallback` and `_hard_stop_reason`, Selector/Choice: the
--                     order of the candidates, Selector/Selecting: `select`; the rest are theorems.
--   Worker            hsl_core/hsl_core/perception/bounded_worker.py: `BoundedWorker`, over the futures of
--                     the executor as the calls read them.
--   Tests             the theorems at concrete inputs.
--
-- How the code is read. A method that changes state is a function from the state to its outcome and the
-- next state, and what it raises is a value. Each method of the manager and of the lease holds its lock
-- throughout, so that a call is one step and an interleaving is an order of calls. An `int` that the
-- source checks to be non-negative is ℕ, one that it compares with zero is ℤ; the type checks
-- (`isinstance`) are the types. Stamps have the bound of the source, 2 ^ 63 - 1, where it tests it. A
-- coordinate, a velocity, a time, a weight or a utility that is a float in the source is an integer of a
-- small unit, fine enough for the tolerances of the code, so that rounding and non-finite values are
-- outside of the model. What the stage ID factory returns is an
-- argument of the call. A test that is a chain of early returns is a function to the reason of the
-- refusal. All recursion is structural, so that no fuel is needed.
--
-- Not modelled: the ROS nodes, which only pass messages on; `validate_covariance`, kinematics, geometry
-- of the rules, perception and learning, which compute on floats; the maps and the search for paths;
-- the simulation, the tools, and the vendored Kobuki workspace. Of the tactics, the constructor of
-- `OptionRegistry` over definitions of the caller's.
pub mod Prelude
pub mod Contracts
pub mod Match
pub mod Watchdog
pub mod Mux
pub mod Lease
pub mod Options
pub mod Tactics
pub mod Worker
pub mod Tests
