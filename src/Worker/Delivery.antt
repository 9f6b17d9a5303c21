-- ===== src/Worker/Delivery.antt =====
-- A bounded worker delivers each request at most once.
use mathlib.Core.Path.{subst}
use hsl.Prelude.{
  ℕ, ◌≤◌, ◌<◌, ◌+◌, ◌≡◌, Option, none, some, List, [], ◌∷◌, ◌++◌, arith, sym, inl, inr, ◌⊎◌,
  Bool-cases, nat_eq, string_eq, Option-cases,
}
use hsl.Prelude.Int.{ℤ, int_eq}
use hsl.Prelude.Outcome.{Outcome, ok}
use hsl.Worker.Calls.{Call, submitting, invalidating, polling, closing, perform}
use hsl.Worker.{
  Versions, Status, WorkerResult, WorkItem, BoundedWorker, submit, invalidate, poll, poll_item,
  close, new, are_invalid,
}

-- The requests that a call delivers as completed.
abbrev pub delivered_by : {R : Type 0} → Outcome (Option (WorkerResult R)) → List ℕ
delivered_by (ok (some r)) = elim r.status [ Status.completed ↦ r.request_id ∷ [] | _ ↦ [] ]
delivered_by _ = []

unfoldable pub deliveries : {R : Type 0} → List (Call R) → BoundedWorker → List ℕ
deliveries [] m = []
deliveries (polling v now future ∷ calls) m =
    delivered_by (poll v now future m).0 ++ deliveries calls (perform (polling v now future) m)
deliveries (call ∷ calls) m = deliveries calls (perform call m)

-- Each number is above the one before it, and all are at least `low`.
unfoldable pub IsAscending : ℕ → List ℕ → Type 0
IsAscending low [] = Unit
IsAscending low (n ∷ ns) = (low ≤ n) × IsAscending (n + 1) ns

-- The item's request is at least `low` and below the next one.
abbrev FitsItem : ℕ → ℕ → Option WorkItem → Type 0
FitsItem low next none = Unit
FitsItem low next (some item) = (low ≤ item.request_id) × (item.request_id < next)

abbrev HasRoom : ℕ → BoundedWorker → Type 0
HasRoom low m = (low ≤ m.next_id) × FitsItem low m.next_id m.item

submit-HasRoom :
    {R : Type 0} (low : ℕ) (v : Versions) (now : ℤ) (future : Option (Outcome R))
    (m : BoundedWorker)
    → HasRoom low m
    → HasRoom low (submit v now future m).1
unfolding submit
submit-HasRoom low v now future m h = ground (arith, h)

poll_item-HasRoom :
    {R : Type 0} (low : ℕ) (v : Versions) (now : ℤ) (future : Option (Outcome R)) (item : WorkItem)
    (m : BoundedWorker)
    → HasRoom low m
    → m.item ≡ some item
    → ((delivered_by (poll_item item v now future m).0 ≡ [])
        × HasRoom low (poll_item item v now future m).1)
      ⊎ ((delivered_by (poll_item item v now future m).0 ≡ item.request_id ∷ [])
          × HasRoom (item.request_id + 1) (poll_item item v now future m).1)
unfolding poll_item
poll_item-HasRoom low v now future item m h there = ground (arith, h, there)

poll-HasRoom :
    {R : Type 0} (low : ℕ) (v : Versions) (now : ℤ) (future : Option (Outcome R))
    (m : BoundedWorker)
    → HasRoom low m
    → ((delivered_by (poll v now future m).0 ≡ []) × HasRoom low (poll v now future m).1)
      ⊎ ((n : ℕ) × (low ≤ n)
          × (delivered_by (poll v now future m).0 ≡ n ∷ [])
          × HasRoom (n + 1) (poll v now future m).1)
unfolding poll
poll-HasRoom low v now future m h = elim (Bool-cases (are_invalid v)) [
  | inl invalid ↦ inl (ground (arith, invalid), ground (arith, h, invalid))
  | inr checked ↦ elim (Option-cases m.item) [
    | inl free ↦ inl (ground (arith, checked, free), ground (arith, h, checked, free))
    | inr (item, there) ↦
        let same : (poll v now future m) ≡ poll_item item v now future m =
          ground (arith, checked, there) in
        rw (same) (elim (poll_item-HasRoom low v now future item m h there) [
          | inl kept ↦ inl kept
          | inr f ↦ inr (item.request_id, ground (arith, h, there), f.0, f.1)
        ])
  ]
]

-- Without a delivery, and behind one, the rest is in order.
IsAscending-append :
    (low : ℕ) (first rest : List ℕ) (a : BoundedWorker)
    → ((first ≡ []) × HasRoom low a) ⊎ ((n : ℕ) × (low ≤ n) × (first ≡ n ∷ []) × HasRoom (n + 1) a)
    → ((k : ℕ) → HasRoom k a → IsAscending k rest)
    → IsAscending low (first ++ rest)
unfolding IsAscending
IsAscending-append low first rest a (inl (empty, room)) ordered =
    subst (λ ns. IsAscending low (ns ++ rest)) (sym empty) (ordered low room)
IsAscending-append low first rest a (inr (n, le, one, room)) ordered =
    subst (λ ns. IsAscending low (ns ++ rest)) (sym one) (le, ordered (n + 1) room)

deliveries-IsAscending :
    {R : Type 0} (low : ℕ) (calls : List (Call R)) (m : BoundedWorker)
    → HasRoom low m
    → IsAscending low (deliveries calls m)
unfolding deliveries perform
deliveries-IsAscending low [] m h = unfold IsAscending in tt
deliveries-IsAscending low (submitting v now future ∷ calls) m h =
    deliveries-IsAscending low calls (submit v now future m).1 (submit-HasRoom low v now future m h)
deliveries-IsAscending low (invalidating ∷ calls) m h =
    deliveries-IsAscending low calls (invalidate m) (unfold invalidate in h)
deliveries-IsAscending low (polling v now future ∷ calls) m h =
    IsAscending-append low (delivered_by (poll v now future m).0)
      (deliveries calls (poll v now future m).1) (poll v now future m).1
      (poll-HasRoom low v now future m h)
      (λ k room. deliveries-IsAscending k calls (poll v now future m).1 room)
deliveries-IsAscending low (closing ∷ calls) m h =
    deliveries-IsAscending low calls (close m) (unfold close in h)

-- Whatever the calls on a new worker and whatever its futures do, the requests that it delivers as
-- completed are in ascending order: each is delivered at most once, and none out of turn.
pub worker-IsAscending :
    {R : Type 0} (timeout_s : ℤ) (m : BoundedWorker) (calls : List (Call R))
    → new timeout_s ≡ ok m
    → IsAscending 1 (deliveries calls m)
unfolding new
worker-IsAscending timeout_s m calls made = deliveries-IsAscending 1 calls m (ground (arith, made))
