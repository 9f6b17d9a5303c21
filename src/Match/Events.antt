-- ===== src/Match/Events.antt =====
-- hsl_core/hsl_core/match.py: the adjudication of events, `resolve_event`, `_resolve_event_checked`
-- and `_terminalize_official_events`.
pub mod Loops
pub mod Verdict
use hsl.Prelude.{
  Bool, true, false, not, ◌&&◌, ◌||◌, Option, some, List, [], ◌∷◌, ◌++◌, leb, ltb, if◌then◌else◌,
  str_le, ◌==◌, ◌!=◌, string_eq, nat_eq,
}
use hsl.Prelude.Dict
use hsl.Prelude.Dict.{Dict}
use hsl.Match.Enums.{
  StagePhase, TerminalKind, EventEvidence, evidence_int, phase_eq, kind_eq, evidence_eq,
  predicate_eq, purpose_eq, status_eq,
}
use hsl.Match.Types.{RuleEvent, event_eq}
use hsl.Match.Manager.{StageManager}

-- The sort key `(event_time_lower_ns, event_time_upper_ns, event_id)`.
unfoldable pub key_le : RuleEvent → RuleEvent → Bool
key_le a b =
    ltb a.event_time_lower_ns b.event_time_lower_ns
    || (a.event_time_lower_ns == b.event_time_lower_ns
        && (ltb a.event_time_upper_ns b.event_time_upper_ns
            || (a.event_time_upper_ns == b.event_time_upper_ns && str_le a.event_id b.event_id)))

unfoldable pub insert_event : RuleEvent → List RuleEvent → List RuleEvent
insert_event e [] = e ∷ []
insert_event e (x ∷ xs) = if key_le e x then e ∷ x ∷ xs else x ∷ insert_event e xs

-- `sorted`, which is stable.
unfoldable pub sorted_events : List RuleEvent → List RuleEvent
unfolding insert_event
sorted_events [] = []
sorted_events (e ∷ es) = insert_event e (sorted_events es)

abbrev pub conflicts_with : RuleEvent → RuleEvent → Bool
conflicts_with first second =
    first.kind != second.kind && leb second.event_time_lower_ns first.event_time_upper_ns

unfoldable pub find_event : (RuleEvent → Bool) → List RuleEvent → Option RuleEvent
find_event p [] = Option.none
find_event p (e ∷ es) = elim (p e) [ true ↦ some e | false ↦ find_event p es ]

-- The pair on which the nested loops over the sorted events stop.
unfoldable pub first_conflict : List RuleEvent → Option (RuleEvent × RuleEvent)
unfolding find_event
first_conflict [] = Option.none
first_conflict (first ∷ rest) =
    let later = first_conflict rest in
    elim (find_event (conflicts_with first) rest) [
      | Option.none ↦ later
      | some second ↦ some (first, second)
    ]

-- `max(…, key=int)` over the evidence of two events, and of a list of events.
abbrev pub max_evidence : EventEvidence → EventEvidence → EventEvidence
max_evidence a b = if ltb (evidence_int a) (evidence_int b) then b else a

unfoldable pub strongest : EventEvidence → List RuleEvent → EventEvidence
strongest best [] = best
strongest best (e ∷ es) = strongest (max_evidence best e.evidence) es

-- The sole item of a list, if it has one item.
abbrev pub only : List RuleEvent → Option RuleEvent
only [] = Option.none
only (e ∷ []) = some e
only (e ∷ f ∷ es) = Option.none

abbrev pub is_nil : List RuleEvent → Bool
is_nil [] = true
is_nil (e ∷ es) = false

unfoldable pub on_conflict : List RuleEvent → RuleEvent → RuleEvent → StageManager → StageManager
on_conflict [] first second m =
    let m' =
      if m.phase == StagePhase.active
      then record m { event_hold = true; terminal_kind = TerminalKind.none }
      else m in
    record m' { held_event = Option.none }
on_conflict (e ∷ es) first second m = record m {
  phase = StagePhase.terminal;
  event_hold = true;
  terminal_kind = TerminalKind.ambiguous;
  terminal_evidence = max_evidence first.evidence second.evidence;
  held_event = Option.none;
}

unfoldable pub on_agreement : List RuleEvent → StageManager → StageManager
unfolding Dict.values strongest
on_agreement [] m =
    if m.phase != StagePhase.terminal
    then record m {
      event_hold = not (is_nil (Dict.values m.pending_estimates));
      held_event = only (Dict.values m.pending_estimates);
      terminal_kind = TerminalKind.none;
    }
    else m
on_agreement (earliest ∷ rest) m = record m {
  phase = StagePhase.terminal;
  event_hold = false;
  held_event = Option.none;
  terminal_kind = earliest.kind;
  terminal_evidence = strongest earliest.evidence rest;
}

unfoldable pub comparisons : StageManager → List RuleEvent
unfolding sorted_events Dict.values
comparisons m = sorted_events (m.official_events ++ Dict.values m.pending_estimates)

-- `_terminalize_official_events`
unfoldable pub terminalize : StageManager → StageManager
unfolding comparisons first_conflict on_conflict on_agreement
terminalize m = elim (first_conflict (comparisons m)) [
  | Option.none ↦ on_agreement (sorted_events m.official_events) m
  | some (first, second) ↦ on_conflict (sorted_events m.official_events) first second m
]
