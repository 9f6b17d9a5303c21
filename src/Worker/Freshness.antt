-- ===== src/Worker/Freshness.antt =====
-- The value that a bounded worker delivers is fresh.
use hsl.Prelude.{
  ℕ, ◌<◌, ◌≤◌, ◌+◌, Bool, List, [], ◌∷◌, any, true, false, ◌≡◌, Option, none, some, arith, refl,
  sym, ap, ◌∙◌, inl, inr, ◌||◌, ◌!=◌, Bool-cases, nat_eq, string_eq, Option-cases,
}
use hsl.Prelude.Int.{◌+ℤ◌, ℤ, ltb_ℤ, leb_ℤ, int_eq}
use hsl.Prelude.Outcome.{Outcome, ok, raised}
use hsl.Worker.Calls.{Call, submitting, invalidating, polling, closing, perform, perform_all}
use hsl.Worker.{
  Versions, Status, WorkerResult, WorkItem, BoundedWorker, submit, invalidate, poll, poll_item,
  close, differ, are_invalid,
}

-- The value of a completed result fits the item that it belongs to.
record FitsItem {R : Type 0} (r : WorkerResult R) (v : Versions) (now : ℤ)
    (future : Option (Outcome R)) (item : WorkItem) (m : BoundedWorker) : Type 0 where
  own_request : r.request_id ≡ item.request_id
  own_start : r.started_at ≡ item.started_at
  own_context : r.expected_versions ≡ item.expected_versions
  own_time : r.completed_at ≡ now
  own_versions : differ v item.expected_versions ≡ false
  own_generation : item.generation ≡ m.generation
  in_time : ltb_ℤ now item.deadline ≡ true
  computed : (value : R) × (future ≡ some (ok value)) × (r.value ≡ some value)

poll_item-FitsItem :
    {R : Type 0} (r : WorkerResult R) (v : Versions) (now : ℤ) (future : Option (Outcome R))
    (item : WorkItem) (m : BoundedWorker)
    → (poll_item item v now future m).0 ≡ ok (some r)
    → r.status ≡ Status.completed
    → FitsItem r v now future item m × ((poll_item item v now future m).1.item ≡ none)
unfolding poll_item
poll_item-FitsItem r v now none item m h done = ground (arith, h, done)
poll_item-FitsItem r v now (some (raised e)) item m h done = ground (arith, h, done)
poll_item-FitsItem r v now (some (ok value)) item m h done =
    elim (Bool-cases (differ v item.expected_versions || item.generation != m.generation)) [
      | inl stale ↦ absurd (ground (arith, h, done, stale))
      | inr fits ↦ elim (Bool-cases (leb_ℤ item.deadline now)) [
        | inl late ↦ absurd (ground (arith, h, done, fits, late))
        | inr early ↦ (
          record {
            own_request = ground (arith, h, fits, early);
            own_start = ground (arith, h, fits, early);
            own_context = ground (arith, h, fits, early);
            own_time = ground (arith, h, fits, early);
            own_versions = ground (arith, fits);
            own_generation = ground (arith, fits);
            in_time = ground (arith, early);
            computed = (value, refl, ground (arith, h, fits, early));
          },
          ground (arith, fits, early),
        )
      ]
    ]

poll-item :
    {R : Type 0} (r : WorkerResult R) (v : Versions) (now : ℤ) (future : Option (Outcome R))
    (m : BoundedWorker)
    → (poll v now future m).0 ≡ ok (some r)
    → r.status ≡ Status.completed
    → (item : WorkItem) × (m.item ≡ some item)
      × FitsItem r v now future item m
      × ((poll v now future m).1.item ≡ none)
unfolding poll
poll-item r v now future m h done = elim (Bool-cases (are_invalid v)) [
  | inl invalid ↦ absurd (ground (arith, h, invalid))
  | inr checked ↦ elim (Option-cases m.item) [
    | inl free ↦ absurd (ground (arith, h, checked, free))
    | inr (item, there) ↦
        let same : (poll v now future m) ≡ poll_item item v now future m =
          ground (arith, checked, there) in
        let f = poll_item-FitsItem r v now future item m (sym (ap (λ p. p.0) same) ∙ h) done in
        (item, there, f.0, ap (λ p. p.1.item) same ∙ f.1)
  ]
]

-- A call that invalidates the worker's work.
abbrev pub is_invalidating : {R : Type 0} → Call R → Bool
is_invalidating invalidating = true
is_invalidating _ = false

-- What the worker knows of the request `n` that was submitted as `item`: nothing but the item.
abbrev IsOwn : ℕ → WorkItem → Option WorkItem → Type 0
IsOwn n item none = Unit
IsOwn n item (some other) = other.request_id ≡ n → other ≡ item

record Tracks (n : ℕ) (item : WorkItem) (m : BoundedWorker) : Type 0 where
  used : n < m.next_id
  own : IsOwn n item m.item

perform-Tracks :
    {R : Type 0} (n : ℕ) (item : WorkItem) (c : Call R) (m : BoundedWorker)
    → Tracks n item m
    → Tracks n item (perform c m)
unfolding perform
perform-Tracks n item (submitting v now future) m t = unfold submit in ground (arith, t.used, t.own)
perform-Tracks n item invalidating m t = unfold invalidate in ground (arith, t.used, t.own)
perform-Tracks n item (polling v now future) m t =
    unfold poll poll_item in ground (arith, t.used, t.own)
perform-Tracks n item closing m t = unfold close in ground (arith, t.used, t.own)

perform_all-Tracks :
    {R : Type 0} (n : ℕ) (item : WorkItem) (cs : List (Call R)) (m : BoundedWorker)
    → Tracks n item m
    → Tracks n item (perform_all cs m)
unfolding perform_all
perform_all-Tracks n item [] m t = t
perform_all-Tracks n item (c ∷ cs) m t =
    perform_all-Tracks n item cs (perform c m) (perform-Tracks n item c m t)

-- The generation only grows, and does so with each `invalidate`.
perform-generation :
    {R : Type 0} (c : Call R) (m : BoundedWorker)
    → (m.generation ≤ (perform c m).generation)
      × (is_invalidating c ≡ true → m.generation < (perform c m).generation)
unfolding perform
perform-generation (submitting v now future) m = unfold submit in ground arith
perform-generation invalidating m = unfold invalidate in ground arith
perform-generation (polling v now future) m = unfold poll poll_item in ground arith
perform-generation closing m = unfold close in ground arith

perform_all-generation :
    {R : Type 0} (cs : List (Call R)) (m : BoundedWorker)
    → (m.generation ≤ (perform_all cs m).generation)
      × (any is_invalidating cs ≡ true → m.generation < (perform_all cs m).generation)
unfolding perform_all
perform_all-generation [] m = ground arith
perform_all-generation (c ∷ cs) m =
    let first = perform-generation c m in
    let rest = perform_all-generation cs (perform c m) in ground (arith, first, rest)

-- The item of an accepted submission.
abbrev pub item_of : Versions → ℤ → BoundedWorker → WorkItem
item_of v now m = record {
  request_id = m.next_id;
  deadline = now +ℤ m.timeout_s;
  started_at = now;
  expected_versions = v;
  generation = m.generation;
}

submit-accepted :
    {R : Type 0} (v : Versions) (now : ℤ) (future : Option (Outcome R)) (m : BoundedWorker) (n : ℕ)
    → (submit v now future m).0 ≡ ok n
    → (n ≡ m.next_id)
      × ((submit v now future m).1.item ≡ some (item_of v now m))
      × ((submit v now future m).1.next_id ≡ m.next_id + 1)
      × ((submit v now future m).1.generation ≡ m.generation)
unfolding submit
submit-accepted v now future m n h = ground (arith, h)

own-item :
    (n : ℕ) (item i : WorkItem) (o : Option WorkItem)
    → IsOwn n item o
    → o ≡ some i
    → i.request_id ≡ n
    → i ≡ item
own-item n item i none own there same = absurd (ground (arith, there))
own-item n item i (some other) own there same = ground (arith, own, there, same)

submit-Tracks :
    {R : Type 0} (v : Versions) (now : ℤ) (future : Option (Outcome R)) (m : BoundedWorker) (n : ℕ)
    → (submit v now future m).0 ≡ ok n
    → Tracks n (item_of v now m) (submit v now future m).1
submit-Tracks v now future m n h =
    let s = submit-accepted v now future m n h in
    record { used = omega (arith, s.0, s.2); own = rw (s.1) (λ same. refl) }

-- A request that is submitted and, behind any calls, returned as completed by `poll`: the caller's
-- versions are those of its submission, none of the calls between invalidated the worker's work, the
-- timeout has not passed since its submission, the value is that of its future, the result bears the
-- times and versions of its submission, and the worker is free again.
pub poll-IsFresh :
    {R : Type 0} (v w : Versions) (start now : ℤ) (before future : Option (Outcome R)) (n : ℕ)
    (m : BoundedWorker) (calls : List (Call R)) (r : WorkerResult R)
    → (submit v start before m).0 ≡ ok n
    → (poll w now future (perform_all calls (submit v start before m).1)).0 ≡ ok (some r)
    → r.status ≡ Status.completed
    → r.request_id ≡ n
    → (differ w v ≡ false)
      × (any is_invalidating calls ≡ false)
      × (ltb_ℤ now (start +ℤ m.timeout_s) ≡ true)
      × ((value : R) × (future ≡ some (ok value)) × (r.value ≡ some value))
      × ((r.started_at ≡ start) × (r.completed_at ≡ now) × (r.expected_versions ≡ v))
      × ((poll w now future (perform_all calls (submit v start before m).1)).1.item ≡ none)
poll-IsFresh v w start now before future n m calls r accepted h done same =
    let submitted = (submit v start before m).1 in
    let facts = submit-accepted v start before m n accepted in
    let grown = perform_all-generation calls submitted in
    let (item, there, fits, gone) = poll-item r w now future (perform_all calls submitted) h done in
    let tracked =
      perform_all-Tracks n (item_of v start m) calls submitted
        (submit-Tracks v start before m n accepted) in
    let first : item ≡ item_of v start m =
      own-item n (item_of v start m) item (perform_all calls submitted).item tracked.own there
        (sym fits.own_request ∙ same) in
    let versions = ap (λ i. i.expected_versions) first in
    let started = ap (λ i. i.started_at) first in
    let deadline = ap (λ i. i.deadline) first in
    let generation = ap (λ i. i.generation) first in
    (
      ap (differ w) (sym versions) ∙ fits.own_versions,
      ground (arith, grown, facts, generation, fits.own_generation),
      ap (ltb_ℤ now) (sym deadline) ∙ fits.in_time,
      fits.computed,
      (fits.own_start ∙ started, fits.own_time, fits.own_context ∙ versions),
      gone,
    )
