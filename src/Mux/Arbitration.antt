-- ===== src/Mux/Arbitration.antt =====
-- What the mux decides: a fresh input of the highest priority, or zero; and the stop has no motion.
use hsl.Prelude.{
  if◌then◌else◌, String, Bool, true, false, ◌⊎◌, inl, inr, Option, List, [], ◌∷◌, ◌≡◌, refl, sym,
  ◌∙◌, ap, arith, All, Option-cases, IsIn, All-IsIn, All-of-IsIn, List-cases, ◌==◌, string_eq,
  Bool-cases,
}
use hsl.Prelude.Int.{ℤ, pos, ◌≤ℤ◌, ltb_ℤ, is_negative, int_beq_iff}
use hsl.Prelude.Outcome.{ok}
use mathlib.Core.Path.{subst}
use hsl.Prelude.Dict
use hsl.Prelude.Dict.{Dict}
use hsl.Mux.{
  MuxInput, MuxDecision, DeterministicMux, new, input_fault, receive, is_fresh, fresh_inputs,
  higher, highest, idle, selection, select, decide,
}

-- `c` is the item of `cs` by which the mux decides at the time `now`.
pub record IsSelected (now : ℤ) (cs : List MuxInput) (c : MuxInput) : Type 0 where
  pub received : IsIn c cs
  pub fresh : is_fresh now c ≡ true
  pub tops : All (λ d. (is_fresh now d ≡ false) ⊎ (d.priority ≤ℤ c.priority)) cs

IsIn-if :
    (keep : Bool) (c d : MuxInput) (rest : List MuxInput)
    → IsIn c (if keep then d ∷ rest else rest)
    → ((c ≡ d) × (keep ≡ true)) ⊎ IsIn c rest
IsIn-if true c d rest (inl same) = inl (same, refl)
IsIn-if true c d rest (inr later) = inr later
IsIn-if false c d rest later = inr later

fresh_inputs_sound :
    (now : ℤ) (c : MuxInput) (cs : List MuxInput)
    → IsIn c (fresh_inputs now cs)
    → IsIn c cs × (is_fresh now c ≡ true)
unfolding fresh_inputs
fresh_inputs_sound now c [] h = absurd h
fresh_inputs_sound now c (d ∷ ds) h = elim (IsIn-if (is_fresh now d) c d (fresh_inputs now ds) h) [
  | inl (same, young) ↦ (inl same, ap (is_fresh now) same ∙ young)
  | inr later ↦ let r = fresh_inputs_sound now c ds later in (inr r.0, r.1)
]

fresh_inputs_complete :
    (now : ℤ) (c : MuxInput) (cs : List MuxInput)
    → IsIn c cs
    → is_fresh now c ≡ true
    → IsIn c (fresh_inputs now cs)
unfolding fresh_inputs
fresh_inputs_complete now c [] h f = absurd h
fresh_inputs_complete now c (d ∷ ds) (inl same) f = rw (sym (ap (is_fresh now) same) ∙ f) (inl same)
fresh_inputs_complete now c (d ∷ ds) (inr later) f =
    let rest = fresh_inputs_complete now c ds later f in
    elim (Bool-cases (is_fresh now d)) [ inl y ↦ rw y (inr rest) | inr o ↦ rw o rest ]

higher-cases :
    (b c : MuxInput)
    → ((higher b c ≡ c) × (b.priority ≤ℤ c.priority))
      ⊎ ((higher b c ≡ b) × (c.priority ≤ℤ b.priority))
unfolding higher
higher-cases b c = elim (Bool-cases (ltb_ℤ b.priority c.priority)) [
  | inl lt ↦ inl (rw lt refl, ground (arith, lt))
  | inr ge ↦ inr (rw ge refl, ground (arith, ge))
]

≤ℤ_trans : (a b c : ℤ) → a ≤ℤ b → b ≤ℤ c → a ≤ℤ c
≤ℤ_trans a b c h k = omega arith

-- The choice is one of the inputs, and no input exceeds it.
highest-IsIn : (best : MuxInput) (cs : List MuxInput) → IsIn (highest best cs) (best ∷ cs)
unfolding highest
highest-IsIn best [] = inl refl
highest-IsIn best (c ∷ cs) = elim (highest-IsIn (higher best c) cs) [
  | inl top ↦ elim (higher-cases best c) [
    | inl (new', _) ↦ inr (inl (top ∙ new'))
    | inr (old, _) ↦ inl (top ∙ old)
  ]
  | inr later ↦ inr (inr later)
]

highest-grows : (best : MuxInput) (cs : List MuxInput) → best.priority ≤ℤ (highest best cs).priority
unfolding highest
highest-grows best [] = omega arith
highest-grows best (c ∷ cs) =
    let rest = highest-grows (higher best c) cs in
    elim (higher-cases best c) [
      | inl (e, le) ↦
          ≤ℤ_trans best.priority c.priority (highest (higher best c) cs).priority le
            (subst (λ x. x.priority ≤ℤ (highest (higher best c) cs).priority) e rest)
      | inr (e, _) ↦ subst (λ x. x.priority ≤ℤ (highest (higher best c) cs).priority) e rest
    ]

highest-tops :
    (best : MuxInput) (cs : List MuxInput) (d : MuxInput)
    → IsIn d cs
    → d.priority ≤ℤ (highest best cs).priority
unfolding highest
highest-tops best [] d h = absurd h
highest-tops best (c ∷ cs) d (inl same) =
    let top = highest-grows (higher best c) cs in
    rw same (elim (higher-cases best c) [
      | inl (e, _) ↦ subst (λ x. x.priority ≤ℤ (highest (higher best c) cs).priority) e top
      | inr (e, le) ↦
          ≤ℤ_trans c.priority best.priority (highest (higher best c) cs).priority le
            (subst (λ x. x.priority ≤ℤ (highest (higher best c) cs).priority) e top)
    ])
highest-tops best (c ∷ cs) d (inr later) = highest-tops (higher best c) cs d later

IsSelected-highest :
    (now : ℤ) (cs : List MuxInput) (c : MuxInput) (rest : List MuxInput)
    → fresh_inputs now cs ≡ c ∷ rest
    → IsSelected now cs (highest c rest)
IsSelected-highest now cs c rest e =
    let found : IsIn (highest c rest) (fresh_inputs now cs) = rw e (highest-IsIn c rest) in
    let sound = fresh_inputs_sound now (highest c rest) cs found in
    record {
      received = sound.0;
      fresh = sound.1;
      tops =
          All-of-IsIn (λ d. (is_fresh now d ≡ false) ⊎ (d.priority ≤ℤ (highest c rest).priority)) cs
            (λ d i. elim (Bool-cases (is_fresh now d)) [
              | inl young ↦ elim (subst (IsIn d) e (fresh_inputs_complete now d cs i young)) [
                | inl same ↦ inr (rw same (highest-grows c rest))
                | inr later ↦ inr (highest-tops c rest d later)
              ]
              | inr old ↦ inl old
            ]);
    }

-- At a time that is not negative the mux decides: for zero with the stop, when no input is fresh, or
-- for the command of a fresh input whose priority no fresh input exceeds.
pub decide-IsSelected :
    (now : ℤ) (m : DeterministicMux)
    → is_negative now ≡ false
    → ((decide now m ≡ ok idle) × All (λ c. is_fresh now c ≡ false) (Dict.values m.inputs))
      ⊎ ((c : MuxInput) × (decide now m ≡ ok (selection c))
          × IsSelected now (Dict.values m.inputs) c)
unfolding decide
decide-IsSelected now m n = elim (List-cases (fresh_inputs now (Dict.values m.inputs))) [
  | inl none ↦ inl (
    rw (n, none) (unfold select in refl),
    All-of-IsIn (λ c. is_fresh now c ≡ false) (Dict.values m.inputs)
        (λ c i. elim (Bool-cases (is_fresh now c)) [
          | inl young ↦
              absurd
                (subst (IsIn c) none (fresh_inputs_complete now c (Dict.values m.inputs) i young))
          | inr old ↦ old
        ]),
  )
  | inr (c, rest, e) ↦ inr (
    highest c rest,
    rw (n, e) (unfold select in refl),
    IsSelected-highest now (Dict.values m.inputs) c rest e,
  )
]

-- Every input that the mux holds was checked.
abbrev pub IsWellFormed : DeterministicMux → Type 0
IsWellFormed m = All (λ c. input_fault c ≡ Option.none) (Dict.values m.inputs)

unfoldable pub receive_all : List MuxInput → DeterministicMux → DeterministicMux
receive_all [] m = m
receive_all (c ∷ cs) m = receive_all cs (receive c m).1

put-checked :
    (c : MuxInput) (d : Dict String MuxInput)
    → input_fault c ≡ Option.none
    → All (λ c'. input_fault c' ≡ Option.none) (Dict.values d)
    → All (λ c'. input_fault c' ≡ Option.none) (Dict.values (Dict.put c.name c d))
unfolding Dict.values Dict.put
put-checked c [] h a = (h, tt)
put-checked c ((k, v) ∷ d) h a = elim (Bool-cases (k == c.name)) [
  | inl same ↦ rw same (h, a.1)
  | inr other ↦ rw other (a.0, put-checked c d h a.1)
]

receive-IsWellFormed :
    (c : MuxInput) (m : DeterministicMux) → IsWellFormed m → IsWellFormed (receive c m).1
unfolding receive
receive-IsWellFormed c m w = elim (Option-cases (input_fault c)) [
  | inl sound ↦ rw (receive, sound) (put-checked c m.inputs sound w)
  | inr (reason, bad) ↦ rw (receive, bad) w
]

receive_all-IsWellFormed :
    (cs : List MuxInput) (m : DeterministicMux) → IsWellFormed m → IsWellFormed (receive_all cs m)
unfolding receive_all
receive_all-IsWellFormed [] m w = w
receive_all-IsWellFormed (c ∷ cs) m w =
    receive_all-IsWellFormed cs (receive c m).1 (receive-IsWellFormed c m w)

zero_only :
    (c : MuxInput)
    → input_fault c ≡ Option.none
    → (c.name == "watchdog_stop") ≡ true
    → (c.linear_x ≡ pos 0) × (c.angular_z ≡ pos 0)
unfolding input_fault
zero_only c h n = ground (arith, int_beq_iff c.linear_x (pos 0), int_beq_iff c.angular_z (pos 0))

new-IsWellFormed : (output : String) (m : DeterministicMux) → new output ≡ ok m → IsWellFormed m
unfolding new Dict.values
new-IsWellFormed output m h = ground arith

stopped :
    (now : ℤ) (m : DeterministicMux) (d : MuxDecision)
    → IsWellFormed m
    → decide now m ≡ ok d
    → d.stop_asserted ≡ true
    → (d.linear_x ≡ pos 0) × (d.angular_z ≡ pos 0)
stopped now m d w e stop = elim (Bool-cases (is_negative now)) [
  | inl back ↦ absurd (unfold decide in ground (arith, back))
  | inr on ↦ elim (decide-IsSelected now m on) [
    | inl (still, _) ↦ ground (arith, still)
    | inr (c, chosen, s) ↦
        let z =
          zero_only c
            (All-IsIn (λ c'. input_fault c' ≡ Option.none) c (Dict.values m.inputs) w s.received) in
        ground (arith, chosen, z)
  ]
]

-- Whatever a new mux receives, a decision that asserts the stop carries no velocity.
pub stop_is_zero :
    (output : String) (m : DeterministicMux) (cs : List MuxInput) (now : ℤ) (d : MuxDecision)
    → new output ≡ ok m
    → decide now (receive_all cs m) ≡ ok d
    → d.stop_asserted ≡ true
    → (d.linear_x ≡ pos 0) × (d.angular_z ≡ pos 0)
stop_is_zero output m cs now d fresh e stop =
    let w = receive_all-IsWellFormed cs m (new-IsWellFormed output m fresh) in
    stopped now (receive_all cs m) d w e stop
