-- ===== src/Match/Events/Loops.antt =====
-- The sort of the events and the nested loops over them, told without either.
use hsl.Prelude.{
  ◌≤◌, ◌<◌, Bool, true, false, ◌⊎◌, inl, inr, Option, some, List, [], ◌∷◌, ◌≡◌, ◌≢◌, sym, ◌∙◌, ap,
  arith, All, IsIn, All-IsIn, All-map, Option-cases, Bool-cases,
}
use mathlib.Core.Path.{subst}
use hsl.Match.Enums.{kind_eq}
use hsl.Match.Types.{RuleEvent}
use hsl.Match.Invariant.Terminalize.{All-insert_event}
use hsl.Match.Events.{
  key_le, insert_event, sorted_events, conflicts_with, find_event, first_conflict,
}

-- Two events of different kinds whose intervals meet, so that neither came first.
pub record Clashes (a b : RuleEvent) : Type 0 where
  pub kinds : a.kind ≢ b.kind
  pub starts : a.event_time_lower_ns ≤ b.event_time_upper_ns
  pub ends : b.event_time_lower_ns ≤ a.event_time_upper_ns

abbrev pub IsInterval : RuleEvent → Type 0
IsInterval e = e.event_time_lower_ns ≤ e.event_time_upper_ns

-- Each event starts no later than those behind it.
abbrev pub IsOrdered : List RuleEvent → Type 0
IsOrdered [] = Unit
IsOrdered (e ∷ es) = All (λ x. e.event_time_lower_ns ≤ x.event_time_lower_ns) es × IsOrdered es

module _ (p : RuleEvent → Bool) where
  find_event-some :
      (es : List RuleEvent) (e : RuleEvent) → find_event p es ≡ some e → IsIn e es × (p e ≡ true)
  unfolding find_event
  find_event-some [] e h = ground arith
  find_event-some (x ∷ xs) e h = elim (Bool-cases (p x)) [
    | inl hit ↦ let same : e ≡ x = ground (arith, hit) in (inl same, ap p same ∙ hit)
    | inr miss ↦ let r = find_event-some xs e (ground (arith, miss)) in (inr r.0, r.1)
  ]

  find_event-none :
      (es : List RuleEvent) (e : RuleEvent)
      → find_event p es ≡ Option.none
      → IsIn e es
      → p e ≡ false
  unfolding find_event
  find_event-none [] e h i = absurd i
  find_event-none (x ∷ xs) e h (inl same) = rw same (ground arith)
  find_event-none (x ∷ xs) e h (inr later) = find_event-none xs e (ground arith) later

-- Sorting keeps the events, and orders them.
key_le-true : (a b : RuleEvent) → key_le a b ≡ true → a.event_time_lower_ns ≤ b.event_time_lower_ns
unfolding key_le
key_le-true a b h = ground arith

key_le-false :
    (a b : RuleEvent) → key_le a b ≡ false → b.event_time_lower_ns ≤ a.event_time_lower_ns
unfolding key_le
key_le-false a b h = ground arith

IsIn-insert_event :
    (a e : RuleEvent) (es : List RuleEvent)
    → (IsIn a (insert_event e es) → (a ≡ e) ⊎ IsIn a es)
      × ((a ≡ e) ⊎ IsIn a es → IsIn a (insert_event e es))
unfolding insert_event
IsIn-insert_event a e [] = (λ h. h, λ h. h)
IsIn-insert_event a e (x ∷ xs) = elim (Bool-cases (key_le e x)) [
  | inl le ↦ rw le (λ h. h, λ h. h)
  | inr gt ↦
      let r = IsIn-insert_event a e xs in
      rw gt (
        λ h. elim h [
          | inl b ↦ inr (inl b)
          | inr t ↦ elim (r.0 t) [ inl b ↦ inl b | inr u ↦ inr (inr u) ]
        ],
        λ h. elim h [
          | inl b ↦ inr (r.1 (inl b))
          | inr t ↦ elim t [ inl b ↦ inl b | inr u ↦ inr (r.1 (inr u)) ]
        ],
      )
]

pub sorted_events_sound :
    (a : RuleEvent) (es : List RuleEvent) → IsIn a (sorted_events es) → IsIn a es
unfolding sorted_events
sorted_events_sound a [] h = h
sorted_events_sound a (e ∷ es) h = elim ((IsIn-insert_event a e (sorted_events es)).0 h) [
  | inl same ↦ inl same
  | inr later ↦ inr (sorted_events_sound a es later)
]

pub sorted_events_complete :
    (a : RuleEvent) (es : List RuleEvent) → IsIn a es → IsIn a (sorted_events es)
unfolding sorted_events
sorted_events_complete a [] h = h
sorted_events_complete a (e ∷ es) (inl same) =
    (IsIn-insert_event a e (sorted_events es)).1 (inl same)
sorted_events_complete a (e ∷ es) (inr later) =
    (IsIn-insert_event a e (sorted_events es)).1 (inr (sorted_events_complete a es later))

insert_event-IsOrdered :
    (e : RuleEvent) (es : List RuleEvent) → IsOrdered es → IsOrdered (insert_event e es)
unfolding insert_event
insert_event-IsOrdered e [] o = (tt, tt)
insert_event-IsOrdered e (x ∷ xs) o = elim (Bool-cases (key_le e x)) [
  | inl le ↦
      let first = key_le-true e x le in
      let later =
        All-map (λ y. x.event_time_lower_ns ≤ y.event_time_lower_ns)
          (λ y. e.event_time_lower_ns ≤ y.event_time_lower_ns) (λ y h. omega (arith, first, h)) xs
          o.0 in
      rw le ((first, later), o)
  | inr gt ↦ rw gt (
    All-insert_event (λ y. x.event_time_lower_ns ≤ y.event_time_lower_ns) e xs (key_le-false e x gt)
        o.0,
    insert_event-IsOrdered e xs o.1,
  )
]

pub sorted_events-IsOrdered : (es : List RuleEvent) → IsOrdered (sorted_events es)
unfolding sorted_events
sorted_events-IsOrdered [] = tt
sorted_events-IsOrdered (e ∷ es) =
    insert_event-IsOrdered e (sorted_events es) (sorted_events-IsOrdered es)

-- The loops stop on a pair of the list that clashes, and on none only if no pair clashes.
pub first_conflict-some :
    (es : List RuleEvent) (x y : RuleEvent)
    → IsOrdered es
    → All IsInterval es
    → first_conflict es ≡ some (x, y)
    → IsIn x es × IsIn y es × Clashes x y
unfolding first_conflict
first_conflict-some [] x y o v h = ground arith
first_conflict-some (e ∷ es) x y o v h = elim (Option-cases (find_event (conflicts_with e) es)) [
  | inl none ↦
      let r = first_conflict-some es x y o.1 v.1 (ground (arith, none)) in (inr r.0, inr r.1, r.2)
  | inr (z, found) ↦
      let f = find_event-some (conflicts_with e) es z found in
      let le = All-IsIn (λ w. e.event_time_lower_ns ≤ w.event_time_lower_ns) z es o.0 f.0 in
      let wide = All-IsIn IsInterval z es v.1 f.0 in
      let pair : (x ≡ e) × (y ≡ z) = ground (arith, found) in
      (
        inl pair.0,
        inr (subst (λ w. IsIn w es) (sym pair.1) f.0),
        subst (λ w. Clashes w y) (sym pair.0)
            (subst (λ w. Clashes e w) (sym pair.1) (clash e z f.1 le wide)),
      )
]
  where
    clash :
        (a b : RuleEvent)
        → conflicts_with a b ≡ true
        → a.event_time_lower_ns ≤ b.event_time_lower_ns
        → IsInterval b
        → Clashes a b
    clash a b c le wide = ground arith

pub first_conflict-none :
    (es : List RuleEvent) (a b : RuleEvent)
    → first_conflict es ≡ Option.none
    → IsIn a es
    → IsIn b es
    → Clashes a b
    → ⊥
unfolding first_conflict
first_conflict-none [] a b h i j c = absurd i
first_conflict-none (e ∷ es) a b h i j c = elim (Option-cases (find_event (conflicts_with e) es)) [
  | inl none ↦ apart (λ k l. first_conflict-none es a b (ground (arith, none)) k l c) none i j
  | inr (z, found) ↦ absurd (ground (arith, found))
]
  where
    quiet :
        (x : RuleEvent)
        → find_event (conflicts_with e) es ≡ Option.none
        → IsIn x es
        → (e.kind ≡ x.kind) ⊎ (e.event_time_upper_ns < x.event_time_lower_ns)
    quiet x n k = let q = find_event-none (conflicts_with e) es x n k in ground (arith, q)

    apart :
        (IsIn a es → IsIn b es → ⊥)
        → find_event (conflicts_with e) es ≡ Option.none
        → (a ≡ e) ⊎ IsIn a es
        → (b ≡ e) ⊎ IsIn b es
        → ⊥
    apart r n (inl x) (inl y) = c.kinds (ap (λ (w : RuleEvent). w.kind) (x ∙ sym y))
    apart r n (inl x) (inr k) = let q = quiet b n k in ground (arith, q, x, c.kinds, c.ends)
    apart r n (inr k) (inl y) = let q = quiet a n k in ground (arith, q, y, c.kinds, c.starts)
    apart r n (inr k) (inr l) = r k l
