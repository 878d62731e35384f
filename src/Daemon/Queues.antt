-- ===== src/Daemon/Queues.antt =====
-- crates/daemon/src/listener/queues.rs: the requests about items of a queue, and the drop of one.
pub mod Retrying
pub mod Resolving
pub mod Retry
use Prim.Native.Char.{Char, char, code}
use oddjobs.Prelude.{
  ◌++◌, ℕ, ◌+◌, String, Option, none, some, List, [], ◌∷◌, Bool, true, false, not, ◌&&◌, ◌||◌, ◌==◌,
  starts_with, decimal, eqb, leb, if◌then◌else◌, length, push,
}
use oddjobs.Prelude.Map
use oddjobs.Core.Event.{Event}
use oddjobs.Core.Names.{scoped_name}
use oddjobs.Storage.State.{MaterializedState, QueueItem, QueueItemStatus}
use oddjobs.Storage.Apply.Queues.{has_id}
use oddjobs.Engine.Retry.{find_in}
use oddjobs.Engine.Worker.{QueueType}

-- The variants of crates/daemon/src/protocol.rs that these handlers answer with.
pub data Response : Type 0 where
  error : (message : String) → Response
  queue_dropped : (queue_name item_id : String) → Response
  queue_retried : (queue_name item_id : String) → Response
  queue_items_retried :
      (queue_name : String) → (item_ids already_retried not_found : List String) → Response

-- What loading the runbook gives: a response, or the type of the queue, if it has the queue.
pub data LoadedQueue : Type 0 where
  failed : (response : Response) → LoadedQueue
  unknown : LoadedQueue
  found : (queue_type : QueueType) → LoadedQueue

-- The response, the events that are emitted, and whether the queue's workers are woken.
pub record Answer : Type 0 where
  pub response : Response
  pub emitted : List Event
  pub wakes : Bool

unfoldable pub refuse : Response → Answer
refuse r = record { response = r; emitted = []; wakes = false }

unfoldable pub items_of : String → String → MaterializedState → List QueueItem
items_of namespace queue_name s = elim (Map.get (scoped_name namespace queue_name) s.queue_items) [
  | none ↦ []
  | some items ↦ items
]

unfoldable pub with_prefix : String → List QueueItem → List QueueItem
with_prefix item_id [] = []
with_prefix item_id (i ∷ items) =
    let rest = with_prefix item_id items in if starts_with i.id item_id then i ∷ rest else rest

-- `Result<String, Response>`
pub data Resolved : Type 0 where
  ok : (item_id : String) → Resolved
  err : (response : Response) → Resolved

unfoldable pub only_match : String → String → List QueueItem → Resolved
only_match item_id queue_name [] =
    Resolved.err
      (Response.error ("item '" ++ (item_id ++ ("' not found in queue '" ++ (queue_name ++ "'")))))
only_match item_id queue_name (i ∷ []) = Resolved.ok i.id
only_match item_id queue_name (i ∷ j ∷ items) = Resolved.err (
    Response.error (
      "ambiguous item ID '"
      ++ (item_id
          ++ ("': "
              ++ (decimal (length (i ∷ j ∷ items))
                  ++ (" matches in queue '" ++ (queue_name ++ "'")))))))

-- An exact match, or else the only match of a prefix.
unfoldable pub resolve_queue_item_id : String → String → List QueueItem → Resolved
resolve_queue_item_id queue_name item_id items = elim (find_in item_id items) [
  | some i ↦ Resolved.ok i.id
  | none ↦ only_match item_id queue_name (with_prefix item_id items)
]

unfoldable pub not_persisted : String → Answer
not_persisted queue_name =
    refuse (Response.error ("queue '" ++ (queue_name ++ "' is not a persisted queue")))

-- The checks that both handlers start with.
unfoldable pub with_persisted : String → LoadedQueue → Answer → Answer
with_persisted queue_name (LoadedQueue.failed r) answer = refuse r
with_persisted queue_name LoadedQueue.unknown answer =
    refuse (Response.error ("unknown queue: " ++ queue_name))
with_persisted queue_name (LoadedQueue.found QueueType.external) answer = not_persisted queue_name
with_persisted queue_name (LoadedQueue.found QueueType.persisted) answer = answer

unfoldable pub drop_resolved : String → String → Resolved → Answer
drop_resolved namespace queue_name (Resolved.err r) = refuse r
drop_resolved namespace queue_name (Resolved.ok id) = record {
  response = Response.queue_dropped queue_name id;
  emitted = Event.queue_dropped queue_name id namespace ∷ [];
  wakes = false;
}

unfoldable pub handle_queue_drop :
    LoadedQueue → String → String → String → MaterializedState → Answer
handle_queue_drop loaded namespace queue_name item_id s = with_persisted queue_name loaded (
    drop_resolved namespace queue_name
      (resolve_queue_item_id queue_name item_id (items_of namespace queue_name s)))

unfoldable pub is_dead : QueueItemStatus → Bool
is_dead status = elim status [ QueueItemStatus.dead ↦ true | _ ↦ false ]

unfoldable pub is_failed : QueueItemStatus → Bool
is_failed status = elim status [ QueueItemStatus.failed ↦ true | _ ↦ false ]
