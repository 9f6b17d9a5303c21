-- ===== src/Options/Authority/Keeping.antt =====
-- How the parts that the methods of an option authority begin with keep its state coherent: the
-- checks of the arguments, the clock and the choice of the active option.
use hsl.Prelude.{
  if◌then◌else◌, ℕ, ◌≤◌, String, Bool, true, false, ◌≡◌, ◌⊎◌, inl, inr, refl, ◌∙◌, arith, eq_iff,
  nat_eq, string_eq, ◌==◌, ltb, ap, Bool-cases,
}
use hsl.Prelude.Outcome.{Outcome, ok, raised}
use hsl.Prelude.Stateful.{◌>>=◌, ◌>>◌}
use hsl.Prelude.Dict
use hsl.Options.{OptionContext}
use hsl.Options.Authority.{
  option_phase_eq, OptionInstance, ActionRecord, OptionAuthority, Method, observe_time,
  require_active,
}
use hsl.Options.Authority.Invariant.{IsRunning, IsTidy, IsCoherent}

-- A method whose every run keeps a coherent authority coherent.
abbrev pub Keeps : {A : Type 0} → OptionContext → Method A → Type 0
Keeps c method =
    (m : OptionAuthority) → IsCoherent m → m.last_now_ns ≡ c.now_ns → IsCoherent (method m).1

pub branch-IsCoherent :
    {A : Type 0} (b : Bool) (x y : Outcome A × OptionAuthority)
    → IsCoherent x.1
    → IsCoherent y.1
    → IsCoherent (if b then x else y).1
branch-IsCoherent true x y kept other = kept
branch-IsCoherent false x y kept other = other

pub observed-IsRunning :
    (now : ℕ) (i : OptionInstance) (r : ActionRecord) (m : OptionAuthority)
    → IsRunning i r m
    → m.last_now_ns ≤ now
    → IsRunning i r (record m { last_now_ns = now })
observed-IsRunning now i r m h later = record {
  named = h.named;
  own_action = h.own_action;
  recorded = h.recorded;
  current = h.current;
  unfinished = h.unfinished;
  owner = h.owner;
  identified = h.identified;
  generation = h.generation;
  begun = omega (arith, h.begun, later);
  live = h.live;
  authority = h.authority;
  own_state = h.own_state;
  own_phase = h.own_phase;
  executing = h.executing;
  moving = h.moving;
}

pub observed-IsCoherent :
    (now : ℕ) (m : OptionAuthority)
    → IsCoherent m
    → m.last_now_ns ≤ now
    → IsCoherent (record m { last_now_ns = now })
observed-IsCoherent now m (t, inl h) later = (
  record { gone = t.gone; owned = t.owned; unrecorded = t.unrecorded },
  inl (record {
    unnamed = h.unnamed;
    revoked = h.revoked;
    unauthorized = h.unauthorized;
    free = h.free;
  }),
)
observed-IsCoherent now m (t, inr (i, r, h)) later = (
  record { gone = t.gone; owned = t.owned; unrecorded = t.unrecorded },
  inr (i, r, observed-IsRunning now i r m h later),
)

pub observe_time-cases :
    (now : ℕ) (m : OptionAuthority)
    → ((e : String) × (observe_time now m ≡ (raised e, m)))
      ⊎ ((m.last_now_ns ≤ now) × (observe_time now m ≡ (ok tt, record m { last_now_ns = now })))
unfolding observe_time
observe_time-cases now m = elim (Bool-cases (ltb now m.last_now_ns)) [
  | inl early ↦ inl ("option authority time must be monotonic", ground (arith, early))
  | inr later ↦ inr (ground (arith, later), ground (arith, later))
]

pub observe-Keeps :
    {A : Type 0} (c : OptionContext) (method : Method A) (m : OptionAuthority)
    → Keeps c method
    → IsCoherent m
    → IsCoherent ((observe_time c.now_ns >> method) m).1
observe-Keeps c method m keeps h = elim (observe_time-cases c.now_ns m) [
  | inl (e, early) ↦ rw (early) h
  | inr (later, on_time) ↦
      rw (on_time)
        (keeps (record m { last_now_ns = c.now_ns }) (observed-IsCoherent c.now_ns m h later) refl)
]

pub require_active-cases :
    (action_id : String) (m : OptionAuthority)
    → IsCoherent m
    → ((e : String) × (require_active action_id m ≡ (raised e, m)))
      ⊎ ((i : OptionInstance) × (r : ActionRecord) × IsRunning i r m
          × (action_id ≡ m.active_action_id)
          × (require_active action_id m ≡ (ok i, m)))
unfolding require_active
require_active-cases action_id m (t, inl h) = elim (Bool-cases (action_id == m.active_action_id)) [
  | inr other ↦ inl ("action is not the active option", ground (arith, other))
  | inl same ↦
      let unnamed = (eq_iff action_id m.active_action_id).0 same ∙ h.unnamed in
      let missing = ap (λ id. Dict.get id m.records) unnamed ∙ t.unrecorded in
      inl ("active option record is missing", ground (arith, same, missing))
]
require_active-cases action_id m (t, inr (i, r, h)) =
    elim (Bool-cases (action_id == m.active_action_id)) [
      | inr other ↦ inl ("action is not the active option", ground (arith, other))
      | inl same ↦ inr (
        i,
        r,
        h,
        (eq_iff action_id m.active_action_id).0 same,
        ground (arith, same, h.recorded, h.current, eq_iff action_id m.active_action_id),
      )
    ]

-- A method that goes on with the active option.
pub active-Keeps :
    {A : Type 0} (c : OptionContext) (action_id : String) (use_it : OptionInstance → Method A)
    → ((i : OptionInstance) (r : ActionRecord) (m : OptionAuthority)
        → IsRunning i r m
        → IsTidy m
        → m.last_now_ns ≡ c.now_ns
        → IsCoherent (use_it i m).1)
    → Keeps c (require_active action_id >>= use_it)
active-Keeps c action_id use_it keeps m h at = elim (require_active-cases action_id m h) [
  | inl (e, refused) ↦ rw (refused) h
  | inr (i, r, running, same, found) ↦ rw (found) (keeps i r m running h.0 at)
]
