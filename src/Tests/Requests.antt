-- ===== src/Tests/Requests.antt =====
-- Requests about queue items at concrete inputs.
use oddjobs.Prelude.{none, [], ◌∷◌, false}
use oddjobs.Core.Event.{Event}
use oddjobs.Storage.State.{MaterializedState, empty_state}
use oddjobs.Storage.Replay.{replay}
use oddjobs.Engine.Worker.{QueueType}
use oddjobs.Daemon.Queues.{LoadedQueue, items_of}
use oddjobs.Daemon.Queues.Retrying.{handle_queue_retry}
use oddjobs.Daemon.Queues.Retry.{OnlyRetries, handle_queue_retry-OnlyRetries}

-- One item is dead, one is pending.
abbrev two_items : MaterializedState
two_items =
    replay
      ((1, Event.queue_pushed "bugs" "item-1" [] 10 "")
        ∷ (2, Event.queue_pushed "bugs" "item-2" [] 20 "")
        ∷ (3, Event.queue_item_dead "bugs" "item-1" "")
        ∷ [])
      empty_state

handle_queue_retry-OnlyRetries_example : OnlyRetries "" "bugs" (items_of "" "bugs" two_items) (
    handle_queue_retry
      (LoadedQueue.found QueueType.persisted)
      ""
      "bugs"
      ("item-1" ∷ "item-2" ∷ "x" ∷ [])
      false
      none
      two_items)
handle_queue_retry-OnlyRetries_example =
    handle_queue_retry-OnlyRetries (LoadedQueue.found QueueType.persisted) "" "bugs"
      ("item-1" ∷ "item-2" ∷ "x" ∷ []) false none two_items
