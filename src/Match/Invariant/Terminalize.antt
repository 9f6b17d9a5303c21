-- ===== src/Match/Invariant/Terminalize.antt =====
-- `_terminalize_official_events` keeps a started stage consistent.
use hsl.Prelude.{
  ℕ, ◌≤◌, ◌≡◌, ◌≢◌, Option, some, List, [], ◌∷◌, ◌++◌, All, arith, Bool-cases, inl, inr,
}
use hsl.Match.Enums.{StagePhase}
use hsl.Match.Types.{RuleEvent}
use hsl.Match.Manager.{StageManager}
use hsl.Match.Events.{
  key_le, insert_event, sorted_events, comparisons, first_conflict, on_conflict, on_agreement,
  terminalize,
}
use hsl.Match.Invariant.{IsEventKind, IsConsistent}

module _ (P : RuleEvent → Type 0) where
  pub All-insert_event :
      (e : RuleEvent) (es : List RuleEvent) → P e → All P es → All P (insert_event e es)
  unfolding insert_event
  All-insert_event e [] p ps = (p, tt)
  All-insert_event e (x ∷ xs) p ps = elim (Bool-cases (key_le e x)) [
    | inl le ↦ rw le (p, ps)
    | inr gt ↦ rw gt (ps.0, All-insert_event e xs p ps.1)
  ]

  pub All-sorted_events : (es : List RuleEvent) → All P es → All P (sorted_events es)
  unfolding sorted_events
  All-sorted_events [] ps = tt
  All-sorted_events (e ∷ es) ps =
      All-insert_event e (sorted_events es) ps.0 (All-sorted_events es ps.1)

  pub All-append : (xs ys : List RuleEvent) → All P xs → All P ys → All P (xs ++ ys)
  All-append [] ys hx hy = hy
  All-append (x ∷ xs) ys hx hy = (hx.0, All-append xs ys hx.1 hy)

-- The stage has started, and its freeze is over or its end has come.
abbrev pub IsUnderWay : ℕ → StageManager → Type 0
IsUnderWay now m =
    (m.phase ≢ StagePhase.init) × (m.phase ≡ StagePhase.freeze → m.stage_ends_at_ns ≤ now)

on_conflict-IsConsistent :
    {now : ℕ} {m : StageManager} (es : List RuleEvent) (first second : RuleEvent)
    → IsUnderWay now m
    → IsConsistent now m
    → IsConsistent now (on_conflict es first second m)
unfolding on_conflict
on_conflict-IsConsistent [] first second u h = ground arith
on_conflict-IsConsistent (e ∷ es) first second u h = ground arith

on_agreement-IsConsistent :
    {now : ℕ} {m : StageManager} (es : List RuleEvent)
    → All IsEventKind es
    → IsUnderWay now m
    → IsConsistent now m
    → IsConsistent now (on_agreement es m)
unfolding on_agreement
on_agreement-IsConsistent [] k u h = ground arith
on_agreement-IsConsistent (e ∷ es) k u h = ground arith

pub terminalize-IsConsistent :
    {now : ℕ} {m : StageManager}
    → IsUnderWay now m
    → IsConsistent now m
    → IsConsistent now (terminalize m)
unfolding terminalize
terminalize-IsConsistent {now} {m} u h =
    let kinds = All-sorted_events IsEventKind m.official_events h.official_kinds in
    split (first_conflict (comparisons m)) kinds
  where
    split :
        (c : Option (RuleEvent × RuleEvent))
        → All IsEventKind (sorted_events m.official_events)
        → IsConsistent now (elim c [
          | Option.none ↦ on_agreement (sorted_events m.official_events) m
          | some (first, second) ↦ on_conflict (sorted_events m.official_events) first second m
        ])
    split Option.none k = on_agreement-IsConsistent (sorted_events m.official_events) k u h
    split (some (first, second)) k =
        on_conflict-IsConsistent (sorted_events m.official_events) first second u h
