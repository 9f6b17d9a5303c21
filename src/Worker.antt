-- ===== src/Worker.antt =====
-- hsl_core/hsl_core/perception/bounded_worker.py: `BoundedWorker`. A time is an integer of a small unit.
-- What a call reads of the executor's future, and what the clock returns, are arguments of the call: a
-- future that is not done is `none`, one that is done has a value or the text of an exception.
use hsl.Prelude.{
  ℕ, ◌+◌, String, Bool, true, false, not, ◌&&◌, ◌||◌, Option, none, some, if◌then◌else◌, is_empty,
  nat_eqb, ◌==◌, ◌!=◌, string_eq, nat_eq,
}
use hsl.Prelude.Int.{ℤ, pos, ◌+ℤ◌, leb_ℤ, is_negative, int_eq}
use hsl.Prelude.Outcome.{Outcome, ok, raised}
use hsl.Prelude.Stateful.{Stateful, continue, ◌>>=◌, ◌>>◌, require}
pub mod Calls
pub mod Freshness
pub mod Delivery

pub record Versions : Type 0 where
  pub map_version : ℤ
  pub topology_version : ℤ
  pub localization_epoch : String

pub data Status : Type 0 where
  discarded timeout failed completed : Status

pub record WorkerResult (R : Type 0) : Type 0 where
  pub request_id : ℕ
  pub status : Status
  pub value : Option R
  pub reason : String
  pub started_at : ℤ
  pub completed_at : ℤ
  pub expected_versions : Versions

pub record WorkItem : Type 0 where
  pub request_id : ℕ
  pub deadline : ℤ
  pub started_at : ℤ
  pub expected_versions : Versions
  pub generation : ℕ

pub record BoundedWorker : Type 0 where
  pub timeout_s : ℤ
  pub item : Option WorkItem
  pub next_id : ℕ
  pub generation : ℕ
  pub closed : Bool

unfoldable pub new : ℤ → Outcome BoundedWorker
new timeout_s =
    if leb_ℤ timeout_s (pos 0)
    then raised "timeout_s must be positive and finite"
    else ok
        (record { timeout_s = timeout_s; item = none; next_id = 1; generation = 0; closed = false })

abbrev pub are_invalid : Versions → Bool
are_invalid v =
    is_negative v.map_version || is_negative v.topology_version || is_empty v.localization_epoch

-- `versions != item.expected_versions`
abbrev pub differ : Versions → Versions → Bool
differ v w =
    v.map_version != w.map_version
    || v.topology_version != w.topology_version
    || v.localization_epoch != w.localization_epoch

abbrev pub is_done : {R : Type 0} → Option (Outcome R) → Bool
is_done none = false
is_done (some result) = true

abbrev pub Method : Type 0 → Type 0
Method A = Stateful BoundedWorker A

abbrev is_busy : {R : Type 0} → Option WorkItem → Option (Outcome R) → Bool
is_busy none future = false
is_busy (some item) future = not (is_done future)

abbrev pub enqueue : Versions → ℤ → Method ℕ
enqueue v now m = (
  ok m.next_id,
  record m {
    item = some (record {
      request_id = m.next_id;
      deadline = now +ℤ m.timeout_s;
      started_at = now;
      expected_versions = v;
      generation = m.generation;
    });
    next_id = m.next_id + 1;
  },
)

-- `submit`, where `future` is that of the item that is there.
unfoldable pub submit : {R : Type 0} → Versions → ℤ → Option (Outcome R) → Method ℕ
submit v now future m =
    if are_invalid v
    then (raised "worker version context is invalid", m)
    else if m.closed
    then (raised "worker is closed", m)
    else if is_busy m.item future
    then (raised "single worker is still processing a task", m)
    else enqueue v now m

unfoldable pub invalidate : BoundedWorker → BoundedWorker
invalidate m = record m { generation = m.generation + 1 }

-- The result of an item without a value.
abbrev pub dropping : {R : Type 0} → WorkItem → Status → String → ℤ → WorkerResult R
dropping item status reason now = record {
  request_id = item.request_id;
  status = status;
  value = none;
  reason = reason;
  started_at = item.started_at;
  completed_at = now;
  expected_versions = item.expected_versions;
}

abbrev pub finishing : {R : Type 0} → WorkItem → Outcome R → ℤ → WorkerResult R
finishing item (raised e) now = dropping item Status.failed e now
finishing item (ok value) now = record {
  request_id = item.request_id;
  status = Status.completed;
  value = some value;
  reason = "OK";
  started_at = item.started_at;
  completed_at = now;
  expected_versions = item.expected_versions;
}

-- `if item.future.done(): self._item = None`
abbrev pub forget_done : {R : Type 0} → Option (Outcome R) → BoundedWorker → BoundedWorker
forget_done future m = if is_done future then record m { item = none } else m

abbrev pub collect :
    {R : Type 0} → WorkItem → ℤ → Option (Outcome R) → Method (Option (WorkerResult R))
collect item now none m = (ok none, m)
collect item now (some result) m = (ok (some (finishing item result now)), record m { item = none })

-- The part of `poll` on an item.
unfoldable pub poll_item :
    {R : Type 0} → WorkItem → Versions → ℤ → Option (Outcome R) → Method (Option (WorkerResult R))
poll_item item v now future m =
    if differ v item.expected_versions || item.generation != m.generation
    then (
      ok (some (dropping item Status.discarded "VERSION_OR_GENERATION_MISMATCH" now)),
      forget_done future m,
    )
    else if leb_ℤ item.deadline now
    then (ok (some (dropping item Status.timeout "DEADLINE_EXCEEDED" now)), forget_done future m)
    else collect item now future m

abbrev pub poll_at :
    {R : Type 0}
    → Option WorkItem
    → Versions
    → ℤ
    → Option (Outcome R)
    → Method (Option (WorkerResult R))
poll_at none v now future m = (ok none, m)
poll_at (some item) v now future m = poll_item item v now future m

unfoldable pub poll :
    {R : Type 0} → Versions → ℤ → Option (Outcome R) → Method (Option (WorkerResult R))
unfolding poll_item
poll v now future m =
    if are_invalid v
    then (raised "current version context is invalid", m)
    else poll_at m.item v now future m

-- `close`: a future that it cancels is the executor's.
unfoldable pub close : BoundedWorker → BoundedWorker
close m = record m { closed = true }
