-- ===== src/Storage/Apply/Queues.antt =====
-- state.rs, `apply_event`: the items of persisted queues.
use oddjobs.Prelude.{
  ℕ, String, none, some, List, [], Bool, true, false, not, ◌==◌, if◌then◌else◌, any, push, retain,
  modify_first,
}
use oddjobs.Prelude.Map
use oddjobs.Prelude.Map.{Map}
use oddjobs.Core.Names.{scoped_name}
use oddjobs.Core.Tracker.{inc_u32}
use oddjobs.Storage.State.{QueueItem, QueueItemStatus, MaterializedState}

unfoldable pub has_id : String → QueueItem → Bool
has_id item_id i = i.id == item_id

unfoldable pub new_item : String → String → Map String → ℕ → QueueItem
new_item queue_name item_id item_data pushed_at_epoch_ms = record {
  id = item_id;
  queue_name = queue_name;
  item_data = item_data;
  status = QueueItemStatus.pending;
  worker_name = none;
  pushed_at_epoch_ms = pushed_at_epoch_ms;
  failure_count = 0;
}

-- Skip an item whose id is there already.
unfoldable pub push_item : QueueItem → List QueueItem → List QueueItem
push_item item items = if any (has_id item.id) items then items else push items item

-- `entry(key).or_default()`, then the push.
unfoldable pub queue_pushed :
    String → String → Map String → ℕ → String → MaterializedState → MaterializedState
queue_pushed queue_name item_id item_data pushed_at_epoch_ms namespace s =
    let key = scoped_name namespace queue_name in
    record s {
      queue_items =
          Map.modify key (push_item (new_item queue_name item_id item_data pushed_at_epoch_ms))
            (Map.or_insert key [] s.queue_items);
    }

-- `if let Some(items) = get_mut(key) { if let Some(item) = items.iter_mut().find(id) { … } }`
unfoldable pub on_item :
    String → String → (QueueItem → QueueItem) → String → MaterializedState → MaterializedState
on_item queue_name item_id f namespace s = record s {
  queue_items =
      Map.modify (scoped_name namespace queue_name) (modify_first (has_id item_id) f) s.queue_items;
}

unfoldable pub take : String → QueueItem → QueueItem
take worker_name i = record i { status = QueueItemStatus.active; worker_name = some worker_name }

unfoldable pub complete : QueueItem → QueueItem
complete i = record i { status = QueueItemStatus.completed }

unfoldable pub is_failed_item : QueueItemStatus → Bool
is_failed_item QueueItemStatus.failed = true
is_failed_item _ = false

-- Count a failure only when the status changes.
unfoldable pub fail : QueueItem → QueueItem
fail i = record i {
  failure_count = if is_failed_item i.status then i.failure_count else inc_u32 i.failure_count;
  status = QueueItemStatus.failed;
}

unfoldable pub retry : QueueItem → QueueItem
retry i = record i { status = QueueItemStatus.pending; failure_count = 0; worker_name = none }

unfoldable pub bury : QueueItem → QueueItem
bury i = record i { status = QueueItemStatus.dead }

unfoldable pub queue_dropped : String → String → String → MaterializedState → MaterializedState
queue_dropped queue_name item_id namespace s = record s {
  queue_items =
      Map.modify (scoped_name namespace queue_name) (retain (λ i. not (has_id item_id i)))
        s.queue_items;
}
