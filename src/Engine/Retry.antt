-- ===== src/Engine/Retry.antt =====
-- crates/engine/src/runtime/handlers: what becomes of a persisted queue's item when its job ends
-- (worker/completion.rs, and worker/lifecycle.rs for a job lost in a restart), and the retry timer
-- (timer.rs).
pub mod Verdict
pub mod Firing
pub mod Cycle
pub mod Redelivery
use Prim.Native.Char.{Char, code}
use oddjobs.Prelude.{
  ◌++◌, ℕ, String, Option, none, some, List, [], ◌∷◌, Bool, false, ◌&&◌, ◌==◌, eqb, ltb,
  if◌then◌else◌, unwrap_or, strip_prefix,
}
use oddjobs.Prelude.Map
use oddjobs.Prelude.Map.{Map}
use oddjobs.Core.Event.{Event}
use oddjobs.Core.Names.{scoped_name, split_scoped_name}
use oddjobs.Core.Timer.{queue_retry}
use oddjobs.Storage.State.{MaterializedState, QueueItem}
use oddjobs.Storage.Apply.{apply_event}
use oddjobs.Storage.Apply.Queues.{has_id}
use oddjobs.Engine.Duration.{parse_duration, or_zero}

-- crates/runbook/src/queue.rs
pub record RetryConfig : Type 0 where
  pub attempts : ℕ
  pub cooldown : String

-- `iter().find(|i| i.id == *item_id)`
unfoldable pub find_in : String → List QueueItem → Option QueueItem
find_in item_id [] = none
find_in item_id (i ∷ items) =
    let rest = find_in item_id items in if has_id item_id i then some i else rest

unfoldable pub find_in_queue : String → Option (List QueueItem) → Option QueueItem
find_in_queue item_id none = none
find_in_queue item_id (some items) = find_in item_id items

unfoldable pub find_item : String → String → MaterializedState → Option QueueItem
find_item scoped_queue item_id s = find_in_queue item_id (Map.get scoped_queue s.queue_items)

unfoldable pub count_of : Option QueueItem → ℕ
count_of none = 0
count_of (some i) = i.failure_count

-- The state after the emitted events are applied, those events, and the timer that is set.
pub record Settled : Type 0 where
  pub after : MaterializedState
  pub emitted : List Event
  pub timer : Option (String × ℕ)

unfoldable pub max_attempts_of : Option RetryConfig → ℕ
max_attempts_of none = 0
max_attempts_of (some r) = r.attempts

unfoldable pub cooldown_of : Option RetryConfig → String
cooldown_of none = "0s"
cooldown_of (some r) = r.cooldown

-- The test of both handlers, on the count that the failure has raised.
unfoldable pub may_retry : Option RetryConfig → ℕ → Bool
may_retry retry_config failure_count =
    let max_attempts = max_attempts_of retry_config in
    ltb 0 max_attempts && ltb failure_count max_attempts

-- The id and the duration of the retry timer.
unfoldable pub retry_timer : String → String → Option RetryConfig → String × ℕ
retry_timer scoped_queue item_id retry_config =
    (queue_retry scoped_queue item_id, or_zero (parse_duration (cooldown_of retry_config)))

-- Schedule a retry after the cooldown, or mark the item as dead.
unfoldable pub retry_or_dead :
    ℕ → String → String → String → Option RetryConfig → MaterializedState → Settled
retry_or_dead now queue_name item_id namespace retry_config s =
    let scoped_queue = scoped_name namespace queue_name in
    let dead = Event.queue_item_dead queue_name item_id namespace in
    if may_retry retry_config (count_of (find_item scoped_queue item_id s))
    then record {
      after = s;
      emitted = [];
      timer = some (retry_timer scoped_queue item_id retry_config);
    }
    else record { after = apply_event now dead s; emitted = dead ∷ []; timer = none }

-- Emit `QueueFailed`, then apply the retry-or-dead logic.
unfoldable pub fail_item :
    ℕ → String → String → String → String → Option RetryConfig → MaterializedState → Settled
fail_item now queue_name item_id error namespace retry_config s =
    let failed = Event.queue_failed queue_name item_id error namespace in
    let r =
      retry_or_dead now queue_name item_id namespace retry_config (apply_event now failed s) in
    record r { emitted = failed ∷ r.emitted }

-- What the end of the job on `terminal_step` does to its item.
unfoldable pub settle_item :
    ℕ → String → String → String → String → Option RetryConfig → MaterializedState → Settled
settle_item now terminal_step queue_name item_id namespace retry_config s =
    let completed = Event.queue_completed queue_name item_id namespace in
    if terminal_step == "done"
    then record { after = apply_event now completed s; emitted = completed ∷ []; timer = none }
    else fail_item now queue_name item_id ("job reached '" ++ terminal_step ++ "'") namespace
        retry_config s

-- Rust's `rsplit_once` at a character.
or_split_here : ℕ → Char → String → Option (String × String) → Option (String × String)
or_split_here sep c s none = if eqb (code c) sep then some (String.[], s) else none
or_split_here sep c s (some (a, b)) = some (String.◌∷◌ c a, b)

unfoldable pub rsplit_once : ℕ → String → Option (String × String)
unfolding or_split_here
rsplit_once sep String.[] = none
rsplit_once sep (String.◌∷◌ c s) = or_split_here sep c s (rsplit_once sep s)

-- The fields of the runtime's own worker state that the timer reads.
pub record WorkerState : Type 0 where
  pub queue_name : String
  pub namespace : String

-- The name of the worker without its namespace.
unfoldable pub bare_name : String → String → String
bare_name namespace worker_name =
    if namespace == ""
    then worker_name
    else unwrap_or (strip_prefix (namespace ++ "/") worker_name) worker_name

-- Wake the workers attached to the queue.
unfoldable pub wakes : String → String → Map WorkerState → List Event
wakes queue_name namespace [] = []
wakes queue_name namespace ((name, w) ∷ workers) =
    let rest = wakes queue_name namespace workers in
    if w.queue_name == queue_name && (w.namespace == namespace)
    then Event.worker_wake (bare_name namespace name) namespace ∷ rest
    else rest

unfoldable pub retry_item :
    ℕ
    → String × String
    → String
    → Map WorkerState
    → MaterializedState
    → MaterializedState × List Event
retry_item now (namespace, queue_name) item_id workers s =
    let retry = Event.queue_item_retry queue_name item_id namespace in
    (apply_event now retry s, retry ∷ wakes queue_name namespace workers)

unfoldable pub on_retry_timer :
    ℕ
    → Option (String × String)
    → Map WorkerState
    → MaterializedState
    → MaterializedState × List Event
on_retry_timer now none workers s = (s, [])
on_retry_timer now (some (scoped_queue, item_id)) workers s =
    retry_item now (split_scoped_name scoped_queue) item_id workers s

-- The new state, and the events that are emitted.
unfoldable pub handle_queue_retry_timer :
    ℕ → String → Map WorkerState → MaterializedState → MaterializedState × List Event
handle_queue_retry_timer now rest workers s = on_retry_timer now (rsplit_once b':' rest) workers s
