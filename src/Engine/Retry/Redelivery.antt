-- ===== src/Engine/Retry/Redelivery.antt =====
-- The emitted events come back from the log (crates/daemon/src/lifecycle/mod.rs, `process_event`)
-- and are applied a second time.
use mathlib.Core.Option
use oddjobs.Prelude.{ℕ, String, Option, some, false, ◌≡◌, refl, ◌∙◌, ap}
use oddjobs.Core.Names.{scoped_name}
use oddjobs.Core.Tracker.{inc_u32}
use oddjobs.Storage.State.{MaterializedState, QueueItem, QueueItemStatus}
use oddjobs.Storage.Apply.{apply_event}
use oddjobs.Storage.Apply.Queues.{on_item, fail, bury, is_failed_item}
use oddjobs.Storage.Replay.{replay, stamped}
use oddjobs.Engine.Retry.{RetryConfig, find_item, count_of, may_retry, retry_or_dead, fail_item}
use oddjobs.Engine.Retry.Verdict.{find-failed, find-buried}

-- The status of an item, and how often it has failed.
abbrev pub standing : QueueItem → QueueItemStatus × ℕ
standing i = (i.status, i.failure_count)

dead_standing :
    (i : QueueItem) (n : ℕ)
    → (bury i).failure_count ≡ n
    → standing (bury i) ≡ (QueueItemStatus.dead, n)
unfolding bury
dead_standing i n h = ap (λ m. (QueueItemStatus.dead, m)) h

counted :
    (i : QueueItem)
    → is_failed_item i.status ≡ false
    → (bury (fail i)).failure_count ≡ inc_u32 i.failure_count
unfolding bury fail
counted i h = rw h refl

module _ (now : ℕ) (q id error ns : String) (config : Option RetryConfig)
    (s : MaterializedState) where
  -- When a failure of an item that is not failed already leaves no try, the item is dead with the
  -- failure counted once. When the failure's events then come back from the log, it is dead with the
  -- failure counted twice.
  pub fail_item_redelivered :
      (i : QueueItem)
      → find_item (scoped_name ns q) id s ≡ some i
      → is_failed_item i.status ≡ false
      → may_retry config (fail i).failure_count ≡ false
      → let r = fail_item now q id error ns config s in
        (Option.map standing (find_item (scoped_name ns q) id r.after)
          ≡ some (QueueItemStatus.dead, inc_u32 i.failure_count))
        × (Option.map standing
              (find_item (scoped_name ns q) id (replay (stamped now r.emitted) r.after))
            ≡ some (QueueItemStatus.dead, inc_u32 (inc_u32 i.failure_count)))
  unfolding fail_item retry_or_dead replay stamped apply_event count_of is_failed_item
  fail_item_redelivered i h active no_try =
      let dead = on_item q id bury ns (on_item q id fail ns s) in
      let buried = find-buried now q id error ns config s i h in
      let again = find-buried now q id error ns config dead (bury (fail i)) buried in
      let once = counted i active in
      let twice = counted (bury (fail i)) (unfold bury is_failed_item in refl) in
      rw (find-failed now q id error ns config s i h, no_try)
        (
          ap (Option.map standing) buried ∙ ap some (dead_standing (fail i) _ once),
          ap (Option.map standing) again
              ∙ ap some (dead_standing (fail (bury (fail i))) _ (twice ∙ ap inc_u32 once)),
        )
