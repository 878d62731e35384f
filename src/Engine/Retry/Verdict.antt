-- ===== src/Engine/Retry/Verdict.antt =====
-- How the failure of an item is settled: a timer for another try, or the end of it.
use mathlib.Core.Option
use oddjobs.Prelude.{
  ◌++◌, ℕ, ◌+◌, ◌%◌, ◌^◌, ◌<◌, ◌≤◌, String, Option, none, some, List, [], ◌∷◌, ◌≡◌, refl, ◌∙◌, ap,
  arith, if◌then◌else◌, Bool-cases, inl, inr, modify_first,
}
use oddjobs.Prelude.Map
use oddjobs.Prelude.Map.Laws.{get-modify_self}
use oddjobs.Core.Names.{scoped_name}
use oddjobs.Core.Event.{Event}
use oddjobs.Core.Tracker.{inc_u32}
use oddjobs.Engine.Duration.{parse_duration, or_zero}
use oddjobs.Storage.State.{MaterializedState, QueueItem, QueueItemStatus}
use oddjobs.Storage.Apply.{apply_event}
use oddjobs.Storage.Apply.Queues.{has_id, is_failed_item, on_item, fail, bury}
use oddjobs.Engine.Retry.{
  RetryConfig, find_in, find_in_queue, find_item, count_of, may_retry, retry_timer, retry_or_dead,
  fail_item,
}

-- The failures that are counted after one more of an item in this status.
abbrev pub failures_after : QueueItemStatus → ℕ → ℕ
failures_after QueueItemStatus.failed n = n
failures_after QueueItemStatus.pending n = (n + 1) % 2 ^ 32
failures_after QueueItemStatus.active n = (n + 1) % 2 ^ 32
failures_after QueueItemStatus.completed n = (n + 1) % 2 ^ 32
failures_after QueueItemStatus.dead n = (n + 1) % 2 ^ 32

-- What becomes of an item after so many failures: its status, the timer, and the further events.
pub data IsVerdict (q id ns : String) (failures : ℕ)
    : Option RetryConfig → QueueItemStatus → Option (String × ℕ) → List Event → Type 0 where
  again :
      (r : RetryConfig)
      → failures < r.attempts
      → IsVerdict q id ns failures
          (some r)
          QueueItemStatus.failed
          (some
            ("queue-retry:" ++ scoped_name ns q ++ ":" ++ id, or_zero (parse_duration r.cooldown)))
          []
  spent :
      (r : RetryConfig)
      → r.attempts ≤ failures
      → IsVerdict q id ns failures
          (some r)
          QueueItemStatus.dead
          none
          (Event.queue_item_dead q id ns ∷ [])
  unset :
      IsVerdict q id ns failures none QueueItemStatus.dead none (Event.queue_item_dead q id ns ∷ [])

-- The failure of the item `i` is settled: by the state after it, the events and the timer.
pub record IsSettled (q id error ns : String) (config : Option RetryConfig) (i : QueueItem)
    (after : MaterializedState) (es : List Event) (timer : Option (String × ℕ)) : Type 0 where
  pub item : QueueItem
  pub found : find_item (scoped_name ns q) id after ≡ some item
  pub counted : item.failure_count ≡ failures_after i.status i.failure_count
  pub more : List Event
  pub emitted : es ≡ Event.queue_failed q id error ns ∷ more
  pub verdict : IsVerdict q id ns item.failure_count config item.status timer more

count_cases :
    (t : QueueItemStatus) (n : ℕ) → (if is_failed_item t then n else inc_u32 n) ≡ failures_after t n
unfolding is_failed_item
count_cases QueueItemStatus.failed n = refl
count_cases QueueItemStatus.pending n = refl
count_cases QueueItemStatus.active n = refl
count_cases QueueItemStatus.completed n = refl
count_cases QueueItemStatus.dead n = refl

pub fail-failure_count :
    (i : QueueItem) → (fail i).failure_count ≡ failures_after i.status i.failure_count
unfolding fail
fail-failure_count i = count_cases i.status i.failure_count

module _ (id : String) (f : QueueItem → QueueItem) (keeps : (i : QueueItem) → (f i).id ≡ i.id) where
  find_in-modify_first :
      (items : List QueueItem)
      → find_in id (modify_first (has_id id) f items) ≡ Option.map f (find_in id items)
  unfolding find_in modify_first has_id
  find_in-modify_first [] = refl
  find_in-modify_first (i ∷ items) = ground (arith, keeps i, find_in-modify_first items)

  find_in_queue-map :
      (o : Option (List QueueItem))
      → find_in_queue id (Option.map (modify_first (has_id id) f) o)
        ≡ Option.map f (find_in_queue id o)
  unfolding find_in_queue
  find_in_queue-map none = refl
  find_in_queue-map (some items) = find_in-modify_first items

  -- An update of an item is an update of the item that is found.
  pub find_item-on_item :
      (q ns : String) (s : MaterializedState)
      → find_item (scoped_name ns q) id (on_item q id f ns s)
        ≡ Option.map f (find_item (scoped_name ns q) id s)
  unfolding find_item on_item
  find_item-on_item q ns s =
      ap (find_in_queue id)
        (get-modify_self (scoped_name ns q) (modify_first (has_id id) f) s.queue_items)
      ∙ find_in_queue-map (Map.get (scoped_name ns q) s.queue_items)

module _ (now : ℕ) (q id error ns : String) (config : Option RetryConfig)
    (s : MaterializedState) where
  pub find-failed :
      (i : QueueItem)
      → find_item (scoped_name ns q) id s ≡ some i
      → find_item (scoped_name ns q) id (on_item q id fail ns s) ≡ some (fail i)
  find-failed i h =
      find_item-on_item id fail (λ j. unfold fail in refl) q ns s ∙ ap (Option.map fail) h

  pub find-buried :
      (i : QueueItem)
      → find_item (scoped_name ns q) id s ≡ some i
      → find_item (scoped_name ns q) id (on_item q id bury ns (on_item q id fail ns s))
        ≡ some (bury (fail i))
  find-buried i h =
      find_item-on_item id bury (λ j. unfold bury in refl) q ns (on_item q id fail ns s)
      ∙ ap (Option.map bury) (find-failed i h)

  -- The item and the timer, in the words of the code.
  pub fail_item-after :
      (i : QueueItem)
      → find_item (scoped_name ns q) id s ≡ some i
      → let again = may_retry config (fail i).failure_count in
        let r = fail_item now q id error ns config s in
        (find_item (scoped_name ns q) id r.after ≡ some (if again then fail i else bury (fail i)))
        × (r.timer ≡ (if again then some (retry_timer (scoped_name ns q) id config) else none))
  unfolding fail_item retry_or_dead apply_event count_of
  fail_item-after i h = elim (Bool-cases (may_retry config (fail i).failure_count)) [
    | inl e ↦ rw (find-failed i h, e) (rw (find-failed i h), refl)
    | inr e ↦ rw (find-failed i h, e) (rw (find-buried i h), refl)
  ]
