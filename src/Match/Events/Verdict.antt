-- ===== src/Match/Events/Verdict.antt =====
-- What the adjudication decides, told without the sort and the nested loops.
use hsl.Prelude.{
  ◌≤◌, ◌<◌, true, false, ◌⊎◌, inl, inr, Option, some, List, [], ◌∷◌, ◌++◌, ◌≡◌, ◌≢◌, refl, sym,
  arith, All, IsIn, IsIn-append-left, All-IsIn, All-of-IsIn, List-cases, Option-cases, Bool-cases,
  leb, ◌==◌,
}
use mathlib.Core.Path.{subst}
use hsl.Prelude.Dict
use hsl.Match.Enums.{StagePhase, TerminalKind, kind_eq}
use hsl.Match.Types.{RuleEvent}
use hsl.Match.Manager.{StageManager}
use hsl.Match.Events.{
  sorted_events, first_conflict, on_conflict, on_agreement, comparisons, terminalize,
}
use hsl.Match.Events.Loops.{
  Clashes, IsInterval, IsOrdered, sorted_events_sound, sorted_events_complete,
  sorted_events-IsOrdered, first_conflict-some, first_conflict-none,
}
use hsl.Match.Invariant.Terminalize.{All-sorted_events, All-append}

-- The events on which the adjudication looks: the official ones and the pending estimates.
abbrev pub considered : StageManager → List RuleEvent
considered m = m.official_events ++ Dict.values m.pending_estimates

terminalize-clash :
    (m : StageManager) (x y : RuleEvent)
    → first_conflict (comparisons m) ≡ some (x, y)
    → terminalize m ≡ on_conflict (sorted_events m.official_events) x y m
unfolding terminalize
terminalize-clash m x y found = rw (terminalize, found) refl

terminalize-peace :
    (m : StageManager)
    → first_conflict (comparisons m) ≡ Option.none
    → terminalize m ≡ on_agreement (sorted_events m.official_events) m
unfolding terminalize
terminalize-peace m none = rw (terminalize, none) refl

sorted_events-empty : (es : List RuleEvent) → es ≢ [] → sorted_events es ≢ []
sorted_events-empty es some' empty = elim (List-cases es) [
  | inl none ↦ some' none
  | inr (x, rest, split) ↦
      subst (IsIn x) empty (sorted_events_complete x es (subst (IsIn x) (sym split) (inl refl)))
]

first_apart :
    (e x : RuleEvent)
    → IsInterval x
    → e.event_time_lower_ns ≤ x.event_time_lower_ns
    → (Clashes e x → ⊥)
    → (e.kind ≡ x.kind) ⊎ (e.event_time_upper_ns < x.event_time_lower_ns)
first_apart e x v le peace = elim (Bool-cases (leb x.event_time_lower_ns e.event_time_upper_ns)) [
  | inl meets ↦ elim (Bool-cases (e.kind == x.kind)) [
    | inl same ↦ inl (ground (arith, same))
    | inr other ↦ absurd (
        peace (record {
          kinds = ground (arith, other);
          starts = ground (arith, le, v);
          ends = ground (arith, meets);
        }))
  ]
  | inr before ↦ inr (ground (arith, before))
]

settled :
    (m : StageManager)
    → All IsInterval m.official_events
    → All IsInterval (Dict.values m.pending_estimates)
    → ((a b : RuleEvent) → IsIn a (considered m) → IsIn b (considered m) → Clashes a b → ⊥)
    → first_conflict (comparisons m) ≡ Option.none
unfolding comparisons
settled m v w peace = elim (Option-cases (first_conflict (sorted_events (considered m)))) [
  | inl none ↦ none
  | inr ((x, y), found) ↦
      let sound = All-append IsInterval m.official_events (Dict.values m.pending_estimates) v w in
      let c =
        first_conflict-some (sorted_events (considered m)) x y
          (sorted_events-IsOrdered (considered m))
          (All-sorted_events IsInterval (considered m) sound) found in
      absurd (
        peace x y (sorted_events_sound x (considered m) c.0)
          (sorted_events_sound y (considered m) c.1) c.2)
]

-- The head of the sorted events is one of them, and none of them starts before it.
sorted_events-head :
    (es : List RuleEvent) (e : RuleEvent) (rest : List RuleEvent)
    → sorted_events es ≡ e ∷ rest
    → IsIn e es × ((x : RuleEvent) → IsIn x es → e.event_time_lower_ns ≤ x.event_time_lower_ns)
sorted_events-head es e rest split =
    let ordered : IsOrdered (e ∷ rest) = subst IsOrdered split (sorted_events-IsOrdered es) in
    (
      sorted_events_sound e es (subst (IsIn e) (sym split) (inl refl)),
      λ x i. elim (subst (IsIn x) split (sorted_events_complete x es i)) [
        | inl same ↦ rw same (omega arith)
        | inr later ↦
            All-IsIn (λ w. e.event_time_lower_ns ≤ w.event_time_lower_ns) x rest ordered.0 later
      ],
    )

-- With an official event and a clash among the considered events, no order is invented: the stage is
-- over as AMBIGUOUS, with the hold.
pub terminalize-ambiguous :
    (m : StageManager) (a b : RuleEvent)
    → m.official_events ≢ []
    → IsIn a (considered m)
    → IsIn b (considered m)
    → Clashes a b
    → ((terminalize m).phase ≡ StagePhase.terminal)
      × ((terminalize m).terminal_kind ≡ TerminalKind.ambiguous)
      × ((terminalize m).event_hold ≡ true)
terminalize-ambiguous m a b some' i j c = elim (List-cases (sorted_events m.official_events)) [
  | inl empty ↦ absurd (sorted_events-empty m.official_events some' empty)
  | inr (e, es, split) ↦ elim (Option-cases (first_conflict (comparisons m))) [
    | inl none ↦ absurd (
        first_conflict-none (comparisons m) a b none
          (unfold comparisons in sorted_events_complete a (considered m) i)
          (unfold comparisons in sorted_events_complete b (considered m) j) c)
    | inr ((x, y), found) ↦
        rw (terminalize-clash m x y found, split) (unfold on_conflict in (refl, refl, refl))
  ]
]

-- With official events, intervals that do not end before they start, and no clash among the
-- considered events, the stage is over by one of the official events: one that ended before each
-- official event of another kind started.
pub terminalize-verdict :
    (m : StageManager)
    → m.official_events ≢ []
    → All IsInterval m.official_events
    → All IsInterval (Dict.values m.pending_estimates)
    → ((a b : RuleEvent) → IsIn a (considered m) → IsIn b (considered m) → Clashes a b → ⊥)
    → ((terminalize m).phase ≡ StagePhase.terminal)
      × ((terminalize m).event_hold ≡ false)
      × (e : RuleEvent) × IsIn e m.official_events
      × ((terminalize m).terminal_kind ≡ e.kind)
      × All
          (λ x. (e.kind ≡ x.kind) ⊎ (e.event_time_upper_ns < x.event_time_lower_ns))
          m.official_events
terminalize-verdict m some' v w peace = elim (List-cases (sorted_events m.official_events)) [
  | inl empty ↦ absurd (sorted_events-empty m.official_events some' empty)
  | inr (e, es, split) ↦
      let head = sorted_events-head m.official_events e es split in
      let pending = Dict.values m.pending_estimates in
      let inside = λ (x : RuleEvent) (i : IsIn x m.official_events).
        IsIn-append-left x m.official_events pending i in
      rw (terminalize-peace m (settled m v w peace), split)
        (unfold on_agreement in
          (
            refl,
            refl,
            e,
            head.0,
            refl,
            All-of-IsIn (λ x. (e.kind ≡ x.kind) ⊎ (e.event_time_upper_ns < x.event_time_lower_ns))
                m.official_events
                (λ x i.
                  first_apart e x (All-IsIn IsInterval x m.official_events v i) (head.1 x i)
                    (peace e x (inside e head.0) (inside x i))),
          ))
]
