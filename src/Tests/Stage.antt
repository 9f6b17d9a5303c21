-- ===== src/Tests/Stage.antt =====
-- The stage: its invariant, what it publishes, its starts, zones and requests, at concrete inputs.
use hsl.Prelude.{
  true, false, List, [], ◌∷◌, some, ◌≡◌, ◌≢◌, refl, sym, ap, arith, is_blank, is_sha256,
}
use hsl.Prelude.Int.{pos}
use hsl.Prelude.Outcome.{ok}
use hsl.Prelude.Dict
use hsl.Contracts.{Expected, validate_header}
use hsl.Match.Enums.{StagePhase, Role, TerminalKind}
use hsl.Match.Types.{MatchState}
use hsl.Match.Checks.{check_profile, check_identity, check_durations, check_approvals}
use hsl.Match.Manager.{StageManager, new, advance}
use hsl.Match.Snapshot.{snapshot, state_of, header_of}
use hsl.Match.Snapshot.Valid.{snapshot-succeeds, snapshot-validates, published}
use hsl.Match.Snapshot.Authority.{IsLive, authority-IsLive, deadline_ends_stage}
use hsl.Match.Calls.{Call, perform_all}
use hsl.Match.Calls as Calls
use hsl.Match.Calls.Reachable.{reachable-IsWellFormed}
use hsl.Match.Invariant.{IsWellFormed}
use hsl.Tests.Data.{profile, manager}

valid_profile : check_profile profile ≡ ok tt
unfolding check_profile check_identity is_blank is_sha256 check_durations check_approvals
valid_profile = refl

is_new : new profile "stage" 1 Role.explorer ≡ ok manager
unfolding new is_blank
is_new = refl

abbrev calls : List Call
calls = Calls.start "r" "stage" (pos 1000) "organizer" 1000 ∷ Calls.snap 1050 1 1 ∷ []

reachable-IsWellFormed_example : IsWellFormed (perform_all calls manager)
reachable-IsWellFormed_example =
    reachable-IsWellFormed profile "stage" 1 Role.explorer manager calls valid_profile is_new

abbrev running : StageManager
running = record manager {
  phase = StagePhase.active;
  stage_started_at_ns = 1000;
  freeze_ends_at_ns = 1010;
  stage_ends_at_ns = 1100;
  last_now_ns = 1050;
}

stage_named : is_blank "stage" ≡ false
unfolding is_blank
stage_named = refl

running-IsWellFormed : IsWellFormed running
unfolding Dict.values
running-IsWellFormed = ground (arith, valid_profile, stage_named)

abbrev state_1060 : MatchState
state_1060 = published 1060 1 2 (advance 1060 running)

moves : state_1060.motion_authorized ≡ true
unfolding state_of advance
moves = refl

abbrev reader : Expected
reader = record {
  now_ns = 1063;
  clock_epoch = "clock";
  localization_epoch = "map";
  stage_id = some "stage";
  require_frame = true;
  require_stage = true;
  allowed_future_ns = 0;
}

published_id : state_1060.meta.stage_id ≡ "stage"
unfolding state_of header_of advance
published_id = refl

snapshot_1060 : (snapshot 1060 1 2 running).0 ≡ ok state_1060
snapshot_1060 = snapshot-succeeds 1060 1 2 running running-IsWellFormed (omega arith) (omega arith)

snapshot-succeeds_example :
    (snapshot 1060 1 2 running).0 ≡ ok (published 1060 1 2 (advance 1060 running))
snapshot-succeeds_example =
    snapshot-succeeds 1060 1 2 running running-IsWellFormed (omega arith) (omega arith)

authority-IsLive_example : IsLive 1060 running state_1060
authority-IsLive_example =
    authority-IsLive 1060 1 2 running state_1060 running-IsWellFormed (omega arith) (omega arith)
      snapshot_1060 moves

deadline_ends_stage_example :
    (s : MatchState) × ((snapshot 1100 1 2 running).0 ≡ ok s)
    × (s.phase ≡ StagePhase.terminal)
    × (s.terminal_kind ≢ TerminalKind.none)
    × (s.motion_authorized ≡ false)
deadline_ends_stage_example =
    deadline_ends_stage 1100 1 2 running running-IsWellFormed (ground arith) (omega arith)
      (omega arith) (omega arith)

snapshot-validates_example : validate_header state_1060.meta reader ≡ ok tt
snapshot-validates_example =
    snapshot-validates 1060 1 2 running state_1060 reader running-IsWellFormed (omega arith)
      (omega arith) snapshot_1060 refl refl (ap some (sym published_id)) (omega arith) (omega arith)
