-- ===== src/Daemon/Queues/Retrying.antt =====
-- crates/daemon/src/listener/queues.rs, `handle_queue_retry`.
use Prim.Native.Char.{code}
use oddjobs.Prelude.{
  ◌++◌, ◌+◌, String, Option, none, some, List, [], ◌∷◌, Bool, true, false, not, ◌&&◌, ◌||◌, eqb,
  leb, if◌then◌else◌, length, push,
}
use oddjobs.Core.Event.{Event}
use oddjobs.Storage.State.{MaterializedState, QueueItem, QueueItemStatus}
use oddjobs.Engine.Retry.{find_in}
use oddjobs.Daemon.Queues.{
  Response, LoadedQueue, Answer, refuse, items_of, Resolved, resolve_queue_item_id, with_persisted,
  is_dead, is_failed,
}

-- `{:?}` of a status.
unfoldable pub status_debug : QueueItemStatus → String
status_debug QueueItemStatus.pending = "Pending"
status_debug QueueItemStatus.active = "Active"
status_debug QueueItemStatus.completed = "Completed"
status_debug QueueItemStatus.failed = "Failed"
status_debug QueueItemStatus.dead = "Dead"

-- `to_lowercase`, exact for comparisons with "dead" and "failed": no other character becomes a letter of these.
unfoldable pub equals_lowercase : String → String → Bool
equals_lowercase String.[] String.[] = true
equals_lowercase (String.◌∷◌ c s) (String.◌∷◌ d t) =
    (eqb (code c) (code d) || (leb 65 (code c) && leb (code c) 90 && eqb (code c + 32) (code d)))
    && equals_lowercase s t
equals_lowercase _ _ = false

unfoldable pub passes_filter : Bool → Option String → QueueItem → Bool
passes_filter true status_filter i = is_dead i.status
passes_filter false none i = false
passes_filter false (some f) i =
    if equals_lowercase f "dead"
    then is_dead i.status
    else if equals_lowercase f "failed"
    then is_failed i.status
    else false

unfoldable pub filtered_ids : Bool → Option String → List QueueItem → List String
filtered_ids all_dead status_filter [] = []
filtered_ids all_dead status_filter (i ∷ items) =
    let rest = filtered_ids all_dead status_filter items in
    if passes_filter all_dead status_filter i then i.id ∷ rest else rest

unfoldable pub retry_event : String → String → String → Event
retry_event namespace queue_name id = Event.queue_item_retry queue_name id namespace

-- The single item of a request without filters, as it is found under its full id.
unfoldable pub retry_found : String → String → String → Option QueueItem → Answer
retry_found namespace queue_name id none = record {
  response = Response.queue_retried queue_name id;
  emitted = retry_event namespace queue_name id ∷ [];
  wakes = true;
}
retry_found namespace queue_name id (some i) =
    if not (is_dead i.status) && not (is_failed i.status)
    then refuse (
        Response.error (
          "item '"
          ++ (id
              ++ ("' is "
                  ++ (status_debug i.status ++ ", only dead or failed items can be retried")))))
    else record {
      response = Response.queue_retried queue_name id;
      emitted = retry_event namespace queue_name id ∷ [];
      wakes = true;
    }

unfoldable pub retry_single : String → String → List QueueItem → Resolved → Answer
retry_single namespace queue_name items (Resolved.err r) = refuse r
retry_single namespace queue_name items (Resolved.ok id) =
    retry_found namespace queue_name id (find_in id items)

-- What the loop over several items has collected.
pub record Bulk : Type 0 where
  pub retried : List String
  pub already_retried : List String
  pub not_found : List String
  pub emitted : List Event

unfoldable pub sort_found : String → String → String → String → Option QueueItem → Bulk → Bulk
sort_found namespace queue_name item_id id none b = record b {
  not_found = push b.not_found item_id;
}
sort_found namespace queue_name item_id id (some i) b =
    if is_dead i.status || is_failed i.status
    then record b {
      retried = push b.retried id;
      emitted = push b.emitted (retry_event namespace queue_name id);
    }
    else record b { already_retried = push b.already_retried id }

unfoldable pub sort_item : String → String → List QueueItem → String → Resolved → Bulk → Bulk
sort_item namespace queue_name items item_id (Resolved.err r) b = record b {
  not_found = push b.not_found item_id;
}
sort_item namespace queue_name items item_id (Resolved.ok id) b =
    sort_found namespace queue_name item_id id (find_in id items) b

unfoldable pub retry_loop : String → String → List QueueItem → List String → Bulk → Bulk
retry_loop namespace queue_name items [] b = b
retry_loop namespace queue_name items (item_id ∷ ids) b =
    retry_loop namespace queue_name items ids (
      sort_item namespace queue_name items item_id (resolve_queue_item_id queue_name item_id items)
        b)

unfoldable pub empty_bulk : Bulk
empty_bulk = record { retried = []; already_retried = []; not_found = []; emitted = [] }

unfoldable pub answer_bulk : String → Bulk → Answer
answer_bulk queue_name b = record {
  response = Response.queue_items_retried queue_name b.retried b.already_retried b.not_found;
  emitted = b.emitted;
  wakes = not (eqb (length b.retried) 0);
}

-- The request for explicit ids: one alone is answered in its own way.
unfoldable pub retry_ids : String → String → List QueueItem → List String → Answer
retry_ids namespace queue_name items (item_id ∷ []) =
    retry_single namespace queue_name items (resolve_queue_item_id queue_name item_id items)
retry_ids namespace queue_name items ids =
    answer_bulk queue_name (retry_loop namespace queue_name items ids empty_bulk)

unfoldable pub is_filtering : Bool → Option String → Bool
is_filtering all_dead none = all_dead
is_filtering all_dead (some f) = true

unfoldable pub handle_queue_retry :
    LoadedQueue → String → String → List String → Bool → Option String → MaterializedState → Answer
handle_queue_retry loaded namespace queue_name item_ids all_dead status_filter s =
    let items = items_of namespace queue_name s in
    let ids = filtered_ids all_dead status_filter items in
    with_persisted queue_name loaded (
      if is_filtering all_dead status_filter
      then answer_bulk queue_name (retry_loop namespace queue_name items ids empty_bulk)
      else retry_ids namespace queue_name items item_ids)
