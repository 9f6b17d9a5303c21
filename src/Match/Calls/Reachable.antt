-- ===== src/Match/Calls/Reachable.antt =====
-- Every manager that the calls reach is well-formed.
use hsl.Prelude.{ℕ, String, ◌≡◌, refl, true, List, [], ◌∷◌, arith, Bool-cases, inl, inr}
use hsl.Prelude.Outcome.{Outcome, ok, raised}
use hsl.Prelude.Dict
use hsl.Match.Enums.{Role}
use hsl.Match.Types.{StageProfile}
use hsl.Match.Checks.{check_profile, check_event}
use hsl.Match.Manager.{StageManager, new}
use hsl.Match.Invariant.{IsWellFormed}
use hsl.Match.Invariant.Decisions.{check_event-kind}
use hsl.Match.Invariant.Steps.{
  start_stage-IsWellFormed, set_goal_zone-IsWellFormed, resolve_event-IsWellFormed,
  resolve_estimate-IsWellFormed, reset_stage-IsWellFormed, acknowledge_reset-IsWellFormed,
  acknowledge_localization_epoch-IsWellFormed, change_localization_epoch-IsWellFormed,
  change_clock_epoch-IsWellFormed, snapshot-IsWellFormed,
}
use hsl.Match.Calls.{
  Call, start, zone, event, resolve, reset, ack_reset, ack_epoch, localization_epoch, clock_epoch,
  snap, passes, perform, perform_all,
}

passes-ok : (o : Outcome (Unit {0})) → passes o ≡ true → o ≡ ok tt
passes-ok (ok _) h = refl
passes-ok (raised e) h = cc

perform-IsWellFormed : (c : Call) (m : StageManager) → IsWellFormed m → IsWellFormed (perform c m)
unfolding perform
perform-IsWellFormed (start i x o r now) m h = start_stage-IsWellFormed i x o r now m h
perform-IsWellFormed (zone i x z r now) m h =
    ground (arith, set_goal_zone-IsWellFormed i x z r now m h)
perform-IsWellFormed (event e now) m h = elim (Bool-cases (passes (check_event e))) [
  | inl valid ↦
      rw valid (
        resolve_event-IsWellFormed e now m (check_event-kind e (passes-ok (check_event e) valid)) h)
  | inr bad ↦ rw bad h
]
perform-IsWellFormed (resolve i x e d k r now) m h =
    resolve_estimate-IsWellFormed i x e d k r now m h
perform-IsWellFormed (reset g i x n o p r now) m h = reset_stage-IsWellFormed g i x n o p r now m h
perform-IsWellFormed (ack_reset s a) m h = acknowledge_reset-IsWellFormed s a m h
perform-IsWellFormed (ack_epoch s a) m h = acknowledge_localization_epoch-IsWellFormed s a m h
perform-IsWellFormed (localization_epoch e) m h = change_localization_epoch-IsWellFormed e m h
perform-IsWellFormed (clock_epoch g e now) m h = change_clock_epoch-IsWellFormed g e now m h
perform-IsWellFormed (snap now v w) m h = snapshot-IsWellFormed now v w m h

-- Any calls, in any order, keep a well-formed manager well-formed.
pub perform_all-IsWellFormed :
    (cs : List Call) (m : StageManager) → IsWellFormed m → IsWellFormed (perform_all cs m)
unfolding perform_all
perform_all-IsWellFormed [] m h = h
perform_all-IsWellFormed (c ∷ cs) m h =
    perform_all-IsWellFormed cs (perform c m) (perform-IsWellFormed c m h)

-- A new manager over a valid profile is well-formed.
pub new-IsWellFormed :
    (p : StageProfile) (stage_id : String) (stage_number : ℕ) (role : Role) (m : StageManager)
    → check_profile p ≡ ok tt
    → new p stage_id stage_number role ≡ ok m
    → IsWellFormed m
unfolding new Dict.values
new-IsWellFormed p stage_id stage_number role m v h = ground arith

-- Every manager that is constructed over a valid profile and then called, in any way and order, is
-- well-formed.
pub reachable-IsWellFormed :
    (p : StageProfile) (stage_id : String) (stage_number : ℕ) (role : Role) (m : StageManager)
    (cs : List Call)
    → check_profile p ≡ ok tt
    → new p stage_id stage_number role ≡ ok m
    → IsWellFormed (perform_all cs m)
reachable-IsWellFormed p stage_id stage_number role m cs v h =
    perform_all-IsWellFormed cs m (new-IsWellFormed p stage_id stage_number role m v h)
