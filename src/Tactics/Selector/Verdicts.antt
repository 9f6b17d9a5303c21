-- ===== src/Tactics/Selector/Verdicts.antt =====
-- What the selector prefers: the highest priority, and among equals a reason to leave the current
-- option.
use hsl.Prelude.{
  ℕ, ◌≤◌, ◌<◌, Bool, true, false, ◌≡◌, ap, ◌⊎◌, inl, inr, Option, none, some, List, [], ◌∷◌, arith,
  ltb, All, Bool-cases, Option-cases, ◌==◌, string_eq, nat_eq, eq_iff,
}
use hsl.Prelude.Int.{pos, ltb_ℤ, ◌+ℤ◌}
use hsl.Match.Enums.{role_eq}
use hsl.Tactics.Proposals.{OptionProposal}
use hsl.Tactics.Selector.{CandidateEvaluation}
use hsl.Tactics.Selector.Choice.{
  TacticalSelector, CurrentOption, find_proposal, urgency_rank, rank_of, value_of, is_before,
  best_of, better_of, by_then,
}
use hsl.Tactics.Selector.Selecting.{choose_by_utility, choose, dwelt}

-- Why an option of the caller's is left for another.
abbrev pub IsPreempted :
    TacticalSelector
    → List OptionProposal
    → ℕ
    → CurrentOption
    → CandidateEvaluation
    → CandidateEvaluation
    → Type 0
IsPreempted m ps now current best held =
    let best_urgency = urgency_rank (find_proposal best.stable_key ps) in
    let held_urgency = urgency_rank (find_proposal held.stable_key ps) in
    (rank_of best < rank_of held)
    ⊎ ((rank_of best ≡ rank_of held)
        × ((held_urgency < best_urgency)
            ⊎ ((held_urgency ≡ best_urgency)
                × (ltb_ℤ (value_of held +ℤ pos m.hysteresis_delta_u) (value_of best) ≡ true)
                × (m.minimum_dwell_ns ≤ dwelt m now current))))

-- When the choice between the best candidate and a valid current option leaves the current option, the
-- best one has the higher priority, or the same priority and the higher urgency, or the same of both,
-- a utility that is higher by more than the hysteresis, and the current option has run for the minimum
-- dwell.
pub choose-switched :
    (m : TacticalSelector) (ps : List OptionProposal) (now : ℕ) (current : CurrentOption)
    (best held : CandidateEvaluation)
    → ((choose m ps now current best (some held)).0.stable_key == held.stable_key) ≡ false
    → IsPreempted m ps now current best held
unfolding choose choose_by_utility
choose-switched m ps now current best held left =
    ground (arith, left, eq_iff held.stable_key held.stable_key)

pub choose-rank :
    (m : TacticalSelector) (ps : List OptionProposal) (now : ℕ) (current : CurrentOption)
    (best : CandidateEvaluation) (held : Option CandidateEvaluation)
    → rank_of (choose m ps now current best held).0 ≤ rank_of best
unfolding choose choose_by_utility
choose-rank m ps now current best none = omega arith
choose-rank m ps now current best (some held) = ground arith

-- `min` takes a candidate of the least rank.
by_then-le : (x y : ℕ) (rest : Bool) → by_then (ltb x y) (ltb y x) rest ≡ true → x ≤ y
by_then-le x y rest h = ground (arith, h)

by_then-ge : (x y : ℕ) (rest : Bool) → by_then (ltb x y) (ltb y x) rest ≡ false → y ≤ x
by_then-ge x y rest h = ground (arith, h)

better_of-rank :
    (ps : List OptionProposal) (e b : CandidateEvaluation)
    → (rank_of (better_of ps e (some b)) ≤ rank_of e)
      × (rank_of (better_of ps e (some b)) ≤ rank_of b)
unfolding is_before
better_of-rank ps e b = elim (Bool-cases (is_before ps b e)) [
  | inl before ↦ rw (before) (by_then-le (rank_of b) (rank_of e) _ before, omega arith)
  | inr after ↦ rw (after) (omega arith, by_then-ge (rank_of b) (rank_of e) _ after)
]

pub best_of-none :
    (P : CandidateEvaluation → Type 0) (ps : List OptionProposal) (es : List CandidateEvaluation)
    → best_of ps es ≡ none
    → All P es
unfolding best_of
best_of-none P ps [] h = tt
best_of-none P ps (e ∷ es) h = absurd (ground (arith, h))

pub lower :
    (a b : ℕ) (es : List CandidateEvaluation)
    → a ≤ b
    → All (λ e. b ≤ rank_of e) es
    → All (λ e. a ≤ rank_of e) es
lower a b [] le h = tt
lower a b (e ∷ es) le h = (omega (arith, le, h.0), lower a b es le h.1)

pub best_of-rank :
    (ps : List OptionProposal) (es : List CandidateEvaluation) (best : CandidateEvaluation)
    → best_of ps es ≡ some best
    → All (λ e. rank_of best ≤ rank_of e) es
unfolding best_of
best_of-rank ps [] best h = tt
best_of-rank ps (e ∷ es) best h = elim (Option-cases (best_of ps es)) [
  | inl alone ↦
      let same : best ≡ e = ground (arith, h, alone) in
      (rw (same) (omega arith), best_of-none (λ x. rank_of best ≤ rank_of x) ps es alone)
  | inr (b, found) ↦
      let same : best ≡ better_of ps e (some b) = ground (arith, h, found) in
      let both = better_of-rank ps e b in
      let rank = ap rank_of same in
      (
        omega (arith, both.0, rank),
        lower (rank_of best) (rank_of b) es (omega (arith, both.1, rank))
            (best_of-rank ps es b found),
      )
]
