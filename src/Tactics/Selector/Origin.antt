-- ===== src/Tactics/Selector/Origin.antt =====
-- Where the candidates of a selection come from.
use hsl.Prelude.{
  String, Bool, true, false, ◌≡◌, refl, ap, ◌∙◌, if◌then◌else◌, ◌⊎◌, inl, inr, Option, none, some,
  List, [], ◌∷◌, map, arith, contains, is_unique, is_empty, IsIn, Bool-cases, Option-cases, str_le,
  ◌==◌, string_eq, eq_iff,
}
use hsl.Match.Enums.{role_eq}
use hsl.Tactics.Proposals.{guard_eq, OptionProposal, TacticalSnapshot}
use hsl.Tactics.Selector.{CandidateEvaluation, evaluate}
use hsl.Tactics.Selector.Choice.{
  TacticalSelector, CurrentOption, find_proposal, find_evaluation, best_of, is_before, is_eligible,
  eligible, sorted_evaluations, insert_evaluation,
}
use hsl.Tactics.Selector.Selecting.{current_candidate, valid_current}

-- Where an evaluation of a list comes from.
abbrev pub Comes :
    TacticalSelector → TacticalSnapshot → CandidateEvaluation → List OptionProposal → Type 0
Comes m s e ps =
    (p : OptionProposal) × IsIn p ps
    × (e ≡ evaluate m.registry m.utility_profile p s.context s.context.role)

inserted-IsIn :
    (b : Bool) (x y e : CandidateEvaluation) (es later : List CandidateEvaluation)
    → IsIn e (if b then x ∷ y ∷ es else y ∷ later)
    → (IsIn e later → (e ≡ x) ⊎ IsIn e es)
    → (e ≡ x) ⊎ IsIn e (y ∷ es)
inserted-IsIn true x y e es later h rest = h
inserted-IsIn false x y e es later (inl same) rest = inr (inl same)
inserted-IsIn false x y e es later (inr there) rest = elim (rest there) [
  | inl same ↦ inl same
  | inr old ↦ inr (inr old)
]

insert-IsIn :
    (x e : CandidateEvaluation) (es : List CandidateEvaluation)
    → IsIn e (insert_evaluation x es)
    → (e ≡ x) ⊎ IsIn e es
unfolding insert_evaluation
insert-IsIn x e [] h = h
insert-IsIn x e (y ∷ es) h =
    inserted-IsIn (str_le x.stable_key y.stable_key) x y e es (insert_evaluation x es) h
      (insert-IsIn x e es)

pub sorted-IsIn :
    (e : CandidateEvaluation) (es : List CandidateEvaluation)
    → IsIn e (sorted_evaluations es)
    → IsIn e es
unfolding sorted_evaluations
sorted-IsIn e [] h = h
sorted-IsIn e (x ∷ es) h = elim (insert-IsIn x e (sorted_evaluations es) h) [
  | inl same ↦ inl same
  | inr later ↦ inr (sorted-IsIn e es later)
]

pub mapped-Comes :
    (m : TacticalSelector) (s : TacticalSnapshot) (e : CandidateEvaluation)
    (ps : List OptionProposal)
    → IsIn e (map (λ p. evaluate m.registry m.utility_profile p s.context s.context.role) ps)
    → Comes m s e ps
mapped-Comes m s e [] h = absurd h
mapped-Comes m s e (p ∷ ps) (inl same) = (p, inl refl, same)
mapped-Comes m s e (p ∷ ps) (inr later) =
    let rest = mapped-Comes m s e ps later in (rest.0, inr rest.1, rest.2)

-- Under unique keys a proposal is found by its own.
find_proposal-key :
    (key : String) (ps : List OptionProposal) (p : OptionProposal)
    → find_proposal key ps ≡ some p
    → contains key (map (λ q. q.stable_key) ps) ≡ true
unfolding find_proposal
find_proposal-key key [] p h = ground (arith, h)
find_proposal-key key (q ∷ ps) p h = ground (arith, h, find_proposal-key key ps p)

IsIn-key :
    (p : OptionProposal) (ps : List OptionProposal)
    → IsIn p ps
    → contains p.stable_key (map (λ q. q.stable_key) ps) ≡ true
IsIn-key p [] h = absurd h
IsIn-key p (q ∷ ps) (inl same) =
    let key = ap (λ x. x.stable_key) same in ground (arith, key, eq_iff q.stable_key p.stable_key)
IsIn-key p (q ∷ ps) (inr later) = ground (arith, IsIn-key p ps later)

pub find_proposal-IsIn :
    (p : OptionProposal) (ps : List OptionProposal)
    → is_unique (map (λ q. q.stable_key) ps) ≡ true
    → IsIn p ps
    → find_proposal p.stable_key ps ≡ some p
unfolding find_proposal
find_proposal-IsIn p [] unique h = absurd h
find_proposal-IsIn p (q ∷ ps) unique (inl same) =
    let key = ap (λ x. x.stable_key) same in
    ground (arith, same, key, eq_iff q.stable_key p.stable_key)
find_proposal-IsIn p (q ∷ ps) unique (inr later) =
    let there = IsIn-key p ps later in
    let rest = find_proposal-IsIn p ps (ground (arith, unique)) later in
    ground (arith, unique, there, rest, eq_iff q.stable_key p.stable_key)

eligible-step :
    (b : Bool) (x e : CandidateEvaluation) (es : List CandidateEvaluation)
    → is_eligible x ≡ b
    → IsIn e (if b then x ∷ eligible es else eligible es)
    → (IsIn e (eligible es) → (is_eligible e ≡ true) × IsIn e es)
    → (is_eligible e ≡ true) × IsIn e (x ∷ es)
eligible-step true x e es good (inl same) rest = (ap is_eligible same ∙ good, inl same)
eligible-step true x e es good (inr later) rest = ((rest later).0, inr (rest later).1)
eligible-step false x e es good h rest = ((rest h).0, inr (rest h).1)

pub eligible-IsIn :
    (e : CandidateEvaluation) (es : List CandidateEvaluation)
    → IsIn e (eligible es)
    → (is_eligible e ≡ true) × IsIn e es
unfolding eligible
eligible-IsIn e [] h = absurd h
eligible-IsIn e (x ∷ es) h = eligible-step (is_eligible x) x e es refl h (eligible-IsIn e es)

pub best_of-IsIn :
    (ps : List OptionProposal) (es : List CandidateEvaluation) (best : CandidateEvaluation)
    → best_of ps es ≡ some best
    → IsIn best es
unfolding best_of
best_of-IsIn ps [] best h = absurd (ground (arith, h))
best_of-IsIn ps (e ∷ es) best h = elim (Option-cases (best_of ps es)) [
  | inl alone ↦ inl (ground (arith, h, alone))
  | inr (b, found) ↦ elim (Bool-cases (is_before ps b e)) [
    | inl before ↦ inr (best_of-IsIn ps es best (ground (arith, h, found, before)))
    | inr after ↦ inl (ground (arith, h, found, after))
  ]
]

find_evaluation-IsIn :
    (key : String) (es : List CandidateEvaluation) (e : CandidateEvaluation)
    → find_evaluation key es ≡ some e
    → IsIn e es
unfolding find_evaluation
find_evaluation-IsIn key [] e h = absurd (ground (arith, h))
find_evaluation-IsIn key (x ∷ es) e h = elim (Bool-cases (x.stable_key == key)) [
  | inl here ↦ inl (ground (arith, h, here))
  | inr other ↦ inr (find_evaluation-IsIn key es e (ground (arith, h, other)))
]

valid_current-IsIn :
    (current : CurrentOption) (o : Option CandidateEvaluation) (p : Option OptionProposal)
    (held : CandidateEvaluation)
    → valid_current current o p ≡ some held
    → (is_eligible held ≡ true) × (o ≡ some held)
valid_current-IsIn current (some e) (some p) held h = ground (arith, h)
valid_current-IsIn current none p held h = absurd (ground (arith, h))
valid_current-IsIn current (some e) none held h = absurd (ground (arith, h))

pub current_candidate-IsIn :
    (ps : List OptionProposal) (es : List CandidateEvaluation) (current : CurrentOption)
    (held : CandidateEvaluation)
    → current_candidate ps es current ≡ some held
    → (is_eligible held ≡ true) × IsIn held es
unfolding current_candidate
current_candidate-IsIn ps es current held h = elim (Bool-cases (is_empty current.stable_key)) [
  | inl unnamed ↦ absurd (ground (arith, h, unnamed))
  | inr named ↦
      let f =
        valid_current-IsIn current (find_evaluation current.stable_key es)
          (find_proposal current.stable_key ps) held (ground (arith, h, named)) in
      (f.0, find_evaluation-IsIn current.stable_key es held f.1)
]
