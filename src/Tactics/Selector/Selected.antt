-- ===== src/Tactics/Selector/Selected.antt =====
-- What the selector returns for motion is a vetted proposal.
use hsl.Prelude.{
  ℕ, String, true, false, ◌≡◌, refl, sym, ap, ◌∙◌, ◌⊎◌, inl, inr, Option, none, some, List, map,
  arith, is_unique, is_empty, IsIn, Bool-cases, Option-cases, string_eq,
}
use hsl.Prelude.Outcome.{ok, Outcome-cases}
use hsl.Match.Enums.{role_eq}
use hsl.Options.{is_hold_safe}
use hsl.Tactics.Proposals.{guard_eq, OptionProposal, TacticalSnapshot, check_snapshot}
use hsl.Tactics.Selector.{CandidateEvaluation, evaluate, hard_stop_reason, fallback}
use hsl.Tactics.Selector.Choice.{
  TacticalSelector, CurrentOption, SelectionResult, find_proposal, best_of, is_eligible, eligible,
}
use hsl.Tactics.Selector.Selecting.{
  current_candidate, choose_by_utility, choose, select_best, select_among, select_choice,
  evaluations, selection,
}
use hsl.Tactics.Selector.Origin.{
  sorted-IsIn, mapped-Comes, find_proposal-IsIn, eligible-IsIn, best_of-IsIn,
  current_candidate-IsIn,
}
use hsl.Tactics.Selector.Stops.{fallback-held, selection-stopped}
use hsl.Tactics.Selector.Vetting.{IsVetted, evaluate-key, eligible-IsVetted}

-- A choice is one of its two candidates.
abbrev IsEither : CandidateEvaluation → CandidateEvaluation → CandidateEvaluation × String → Type 0
IsEither best held choice = (choice.0 ≡ best) ⊎ (choice.0 ≡ held)

choose_by_utility-IsEither :
    (m : TacticalSelector) (ps : List OptionProposal) (now : ℕ) (current : CurrentOption)
    (best held : CandidateEvaluation)
    → IsEither best held (choose_by_utility m ps now current best held)
unfolding choose_by_utility
choose_by_utility-IsEither m ps now current best held = ground arith

choose-IsEither :
    (m : TacticalSelector) (ps : List OptionProposal) (now : ℕ) (current : CurrentOption)
    (best held : CandidateEvaluation)
    → IsEither best held (choose m ps now current best (some held))
unfolding choose
choose-IsEither m ps now current best held =
    ground (arith, choose_by_utility-IsEither m ps now current best held)

-- The choice comes from an applicable candidate that moves.
pub chosen-IsIn :
    (m : TacticalSelector) (s : TacticalSnapshot) (current : CurrentOption)
    (es : List CandidateEvaluation) (best : CandidateEvaluation) (held : Option CandidateEvaluation)
    → IsIn best (eligible es)
    → current_candidate s.proposals es current ≡ held
    → (is_eligible (choose m s.proposals s.context.now_ns current best held).0 ≡ true)
      × IsIn (choose m s.proposals s.context.now_ns current best held).0 es
unfolding choose
chosen-IsIn m s current es best none there h = eligible-IsIn best es there
chosen-IsIn m s current es best (some held) there h =
    elim (choose-IsEither m s.proposals s.context.now_ns current best held) [
      | inl same ↦ rw (same) (eligible-IsIn best es there)
      | inr same ↦ rw (same) (current_candidate-IsIn s.proposals es current held h)
    ]

pub select_choice-found :
    (m : TacticalSelector) (current : CurrentOption) (es : List CandidateEvaluation)
    (chosen : CandidateEvaluation) (reason : String) (p : Option OptionProposal)
    (r : SelectionResult)
    → select_choice m current es chosen reason p ≡ ok r
    → p ≡ some r.selected
select_choice-found m current es chosen reason none r h = absurd (ground (arith, h))
select_choice-found m current es chosen reason (some p) r h = ground (arith, h)

select_best-safe :
    (m : TacticalSelector) (s : TacticalSnapshot) (current : CurrentOption)
    (es : List CandidateEvaluation) (safe : OptionProposal) (r : SelectionResult)
    → select_best m s current es safe none ≡ ok r
    → r.selected ≡ safe
unfolding select_best
select_best-safe m s current es safe r h = ground (arith, h)

select_best-found :
    (m : TacticalSelector) (s : TacticalSnapshot) (current : CurrentOption)
    (es : List CandidateEvaluation) (safe : OptionProposal) (best : CandidateEvaluation)
    (r : SelectionResult)
    → IsIn best (eligible es)
    → select_best m s current es safe (some best) ≡ ok r
    → (e : CandidateEvaluation) × (is_eligible e ≡ true)
      × IsIn e es
      × (find_proposal e.stable_key s.proposals ≡ some r.selected)
unfolding select_best
select_best-found m s current es safe best r there h =
    let held = current_candidate s.proposals es current in
    let choice = choose m s.proposals s.context.now_ns current best held in
    let from = chosen-IsIn m s current es best held there refl in
    (choice.0, from.0, from.1, select_choice-found m current es choice.0 choice.1 _ r h)

origin-IsVetted :
    (m : TacticalSelector) (s : TacticalSnapshot) (e : CandidateEvaluation) (p q : OptionProposal)
    → is_unique (map (λ x. x.stable_key) s.proposals) ≡ true
    → is_hold_safe p.goal.kind ≡ false
    → is_eligible e ≡ true
    → IsIn q s.proposals
    → e ≡ evaluate m.registry m.utility_profile q s.context s.context.role
    → find_proposal e.stable_key s.proposals ≡ some p
    → IsIn p s.proposals × IsVetted m.registry s p
origin-IsVetted m s e p q unique moves good there from found =
    let judge : OptionProposal → CandidateEvaluation =
      λ x. evaluate m.registry m.utility_profile x s.context s.context.role in
    let key : e.stable_key ≡ q.stable_key =
      ap (λ x. x.stable_key) from
      ∙ evaluate-key m.registry m.utility_profile q s.context s.context.role in
    let own = find_proposal-IsIn q s.proposals unique there in
    let both : some q ≡ some p =
      sym own ∙ (sym (ap (λ k. find_proposal k s.proposals) key) ∙ found) in
    let same : p ≡ q = ground (arith, both) in
    let applicable : e.applicable ≡ true = ground (arith, good) in
    (
      ground (arith, there, same),
      eligible-IsVetted m.registry m.utility_profile s p moves
          (ap (λ x. (judge x).applicable) same ∙ (sym (ap (λ x. x.applicable) from) ∙ applicable)),
    )

found-IsVetted :
    (m : TacticalSelector) (s : TacticalSnapshot) (e : CandidateEvaluation) (p : OptionProposal)
    → is_unique (map (λ q. q.stable_key) s.proposals) ≡ true
    → is_hold_safe p.goal.kind ≡ false
    → is_eligible e ≡ true
    → IsIn e (evaluations m s)
    → find_proposal e.stable_key s.proposals ≡ some p
    → IsIn p s.proposals × IsVetted m.registry s p
unfolding evaluations
found-IsVetted m s e p unique moves good there found =
    let origin = mapped-Comes m s e s.proposals (sorted-IsIn e _ there) in
    origin-IsVetted m s e p origin.0 unique moves good origin.1 origin.2 found

select_among-found :
    (m : TacticalSelector) (s : TacticalSnapshot) (current : CurrentOption)
    (es : List CandidateEvaluation) (safe : OptionProposal) (r : SelectionResult)
    → is_empty (hard_stop_reason s) ≡ true
    → select_among m s current es safe ≡ ok r
    → (r.selected ≡ safe)
      ⊎ ((e : CandidateEvaluation) × (is_eligible e ≡ true)
          × IsIn e es
          × (find_proposal e.stable_key s.proposals ≡ some r.selected))
unfolding select_among
select_among-found m s current es safe r calm h =
    elim (Option-cases (best_of s.proposals (eligible es))) [
      | inl alone ↦
          let chosen : select_best m s current es safe none ≡ ok r =
            ground (arith, h, calm, alone) in
          inl (select_best-safe m s current es safe r chosen)
      | inr (best, found) ↦
          let chosen : select_best m s current es safe (some best) ≡ ok r =
            ground (arith, h, calm, found) in
          inr (
            select_best-found m s current es safe best r
              (best_of-IsIn s.proposals (eligible es) best found) chosen)
    ]

snapshot_unique :
    (s : TacticalSnapshot)
    → check_snapshot s ≡ ok tt
    → is_unique (map (λ p. p.stable_key) s.proposals) ≡ true
unfolding check_snapshot
snapshot_unique s valid = ground (arith, valid)

pub selection-among :
    (m : TacticalSelector) (s : TacticalSnapshot) (current : CurrentOption) (r : SelectionResult)
    → selection m s current ≡ ok r
    → (safe : OptionProposal) × (is_hold_safe safe.goal.kind ≡ true)
      × (select_among m s current (evaluations m s) safe ≡ ok r)
unfolding selection
selection-among m s current r h = elim (Outcome-cases (fallback m.registry s s.context.role)) [
  | inl (e, fault) ↦ absurd (ground (arith, h, fault))
  | inr (safe, found) ↦
      (safe, (fallback-held m.registry s s.context.role safe found).0, ground (arith, h, found))
]

-- In a snapshot that its constructor accepts, an option that the selector returns and that moves is one
-- of the proposals and is vetted: it is feasible, has the role of the snapshot, is admitted by the
-- registry, claims only facts that apply to it and has all that its kind requires; and there is no
-- reason to stop.
pub selection-IsVetted :
    (m : TacticalSelector) (s : TacticalSnapshot) (current : CurrentOption) (r : SelectionResult)
    → check_snapshot s ≡ ok tt
    → selection m s current ≡ ok r
    → is_hold_safe r.selected.goal.kind ≡ false
    → (is_empty (hard_stop_reason s) ≡ true)
      × IsIn r.selected s.proposals
      × IsVetted m.registry s r.selected
selection-IsVetted m s current r valid h moves = elim (Bool-cases (is_empty (hard_stop_reason s))) [
  | inr stop ↦
      let held = (selection-stopped m s current r stop h).0 in absurd (ground (arith, held, moves))
  | inl calm ↦
      let among = selection-among m s current r h in
      elim (select_among-found m s current (evaluations m s) among.0 r calm among.2) [
        | inl same ↦
            let safe = ap (λ p. is_hold_safe p.goal.kind) same ∙ among.1 in
            absurd (ground (arith, safe, moves))
        | inr (e, good, there, found) ↦
            let vetted =
              found-IsVetted m s e r.selected (snapshot_unique s valid) moves good there found in
            (calm, vetted.0, vetted.1)
      ]
]
