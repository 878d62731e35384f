-- ===== src/Engine/Retry/Cycle.antt =====
-- Failures and retries of one item in turn.
use mathlib.Core.Option
use oddjobs.Prelude.{
  ℕ, zero, suc, ◌<◌, String, Option, none, some, true, false, ◌≡◌, refl, ◌∙◌, ap, arith,
  if◌then◌else◌, strip_prefix,
}
use oddjobs.Prelude.Map.{Map}
use oddjobs.Core.Event.{Event}
use oddjobs.Core.Names.{scoped_name}
use oddjobs.Core.Names.Laws.{has_char}
use oddjobs.Storage.State.{MaterializedState, QueueItem, QueueItemStatus}
use oddjobs.Storage.Apply.{apply_event}
use oddjobs.Storage.Apply.Queues.{take, fail, retry}
use oddjobs.Engine.Retry.{
  RetryConfig, find_item, max_attempts_of, may_retry, retry_timer, fail_item, WorkerState,
  retry_item,
}
use oddjobs.Engine.Retry.Verdict.{find_item-on_item, fail_item-after}
use oddjobs.Engine.Retry.Firing.{progress, fire_retry, fire_retry-queue_retry}

-- The state after the timer, if one was set, has fired.
unfoldable pub fire_set :
    ℕ → Option (String × ℕ) → Map WorkerState → MaterializedState → MaterializedState
fire_set now none workers s = s
fire_set now (some (timer_id, duration)) workers s =
    (fire_retry now (strip_prefix "queue-retry:" timer_id) workers s).0

-- A worker takes the item, its job fails, and the retry timer fires, if one was set.
unfoldable pub round :
    ℕ
    → String
    → String
    → String
    → String
    → String
    → Option RetryConfig
    → Map WorkerState
    → MaterializedState
    → MaterializedState
round now q id worker error ns config workers s =
    let taken = apply_event now (Event.queue_taken q id worker ns) s in
    let r = fail_item now q id error ns config taken in fire_set now r.timer workers r.after

unfoldable pub rounds :
    ℕ
    → ℕ
    → String
    → String
    → String
    → String
    → String
    → Option RetryConfig
    → Map WorkerState
    → MaterializedState
    → MaterializedState
rounds zero now q id worker error ns config workers s = s
rounds (suc n) now q id worker error ns config workers s =
    rounds n now q id worker error ns config workers
      (round now q id worker error ns config workers s)

module _ (now : ℕ) (q id worker error ns : String) (config : Option RetryConfig)
    (workers : Map WorkerState) where
  first_failure :
      (i : QueueItem)
      → 1 < max_attempts_of config
      → i.failure_count ≡ 0
      → may_retry config (fail (take worker i)).failure_count ≡ true
  unfolding may_retry fail take
  first_failure i a z = ground arith

  module _ (plain_id : has_char b':' id ≡ false) (plain_ns : has_char b'/' ns ≡ false)
      (plain_q : ns ≡ "" → has_char b'/' q ≡ false) (several : 1 < max_attempts_of config) where
    round_retries :
        (s : MaterializedState) (i : QueueItem)
        → i.failure_count ≡ 0
        → find_item (scoped_name ns q) id s ≡ some i
        → find_item (scoped_name ns q) id (round now q id worker error ns config workers s)
          ≡ some (retry i)
    unfolding round fire_set retry_timer
    round_retries s i z h =
        let taken = apply_event now (Event.queue_taken q id worker ns) s in
        let found : find_item (scoped_name ns q) id taken ≡ some (take worker i) =
          unfold apply_event in
          find_item-on_item id (take worker) (λ j. unfold take in refl) q ns s
          ∙ ap (Option.map (take worker)) h in
        let r = fail_item now q id error ns config taken in
        let again = first_failure i several z in
        let (stays, timer) = fail_item-after now q id error ns config taken (take worker i) found in
        let failed : find_item (scoped_name ns q) id r.after ≡ some (fail (take worker i)) =
          stays ∙ (rw again refl) in
        let retried : find_item (scoped_name ns q) id (retry_item now (ns, q) id workers r.after).0
            ≡ some (retry i) =
          unfold retry_item apply_event fail take retry in
          find_item-on_item id retry (λ j. refl) q ns r.after ∙ ap (Option.map retry) failed in
        ap (λ u. find_item (scoped_name ns q) id (fire_set now u workers r.after))
          (timer
            ∙ ap (λ b. if b then some (retry_timer (scoped_name ns q) id config) else none) again)
        ∙ ap (λ p. find_item (scoped_name ns q) id p.0)
            (fire_retry-queue_retry now q id ns workers r.after plain_id plain_ns plain_q)
        ∙ retried

    -- Every round ends with the item as its retry leaves it.
    rounds_retries :
        (n : ℕ) (s : MaterializedState) (i : QueueItem)
        → i.failure_count ≡ 0
        → find_item (scoped_name ns q) id s ≡ some i
        → find_item (scoped_name ns q) id (rounds (suc n) now q id worker error ns config workers s)
          ≡ some (retry i)
    unfolding rounds retry
    rounds_retries zero s i z h = round_retries s i z h
    rounds_retries (suc n) s i z h =
        rounds_retries n (round now q id worker error ns config workers s) (retry i) refl
          (round_retries s i z h)

    -- With two attempts or more, an item that has no failure counted is pending after every positive
    -- number of rounds, each a failure and the retry timer that it sets, with no failure counted and
    -- no worker.
    pub rounds-pending :
        (n : ℕ) (s : MaterializedState) (i : QueueItem)
        → i.failure_count ≡ 0
        → find_item (scoped_name ns q) id s ≡ some i
        → Option.map progress (
            find_item
              (scoped_name ns q)
              id
              (rounds (suc n) now q id worker error ns config workers s))
          ≡ some (QueueItemStatus.pending, 0, none)
    rounds-pending n s i z h =
        ap (Option.map progress) (rounds_retries n s i z h) ∙ unfold retry in refl
