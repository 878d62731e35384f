-- ===== src/Engine/Worker.antt =====
-- crates/engine/src/runtime/handlers/worker: the state of a worker, and how it takes items from its
-- queue. The functions are about one worker, found under its name; for a name without a worker the
-- code does nothing. The reload of the runbook that starts each handler is left out.
pub mod Slots
pub mod Runs
pub mod Distinct
use oddjobs.Prelude.{
  ◌++◌, ℕ, zero, suc, ◌+◌, ◌-◌, ◌%◌, ◌^◌, String, Option, none, some, List, [], ◌∷◌, Bool, true,
  false, not, ◌&&◌, ◌||◌, ◌==◌, eqb, ltb, if◌then◌else◌, unwrap_or, any, length, push, retain,
}
use oddjobs.Prelude.Map
use oddjobs.Prelude.Map.{Map}
use oddjobs.Core.Event.{Event}
use oddjobs.Core.Names.{scoped_name}
use oddjobs.Storage.State.{MaterializedState, QueueItem, QueueItemStatus}
use oddjobs.Storage.Apply.{apply_event}
use oddjobs.Engine.Retry.{find_item}

-- crates/runbook/src/queue.rs
pub data QueueType : Type 0 where
  external persisted : QueueType

pub data WorkerStatus : Type 0 where
  running stopped : WorkerStatus

pub record WorkerState : Type 0 where
  pub project_root : String
  pub runbook_hash : String
  pub queue_name : String
  pub job_kind : String
  pub concurrency : ℕ
  pub active_jobs : List String
  pub status : WorkerStatus
  pub queue_type : QueueType
  pub item_job_map : Map String
  pub namespace : String
  pub poll_interval : Option String
  pub pending_takes : ℕ
  pub inflight_items : List String

unfoldable pub is_stopped : WorkerStatus → Bool
is_stopped WorkerStatus.running = false
is_stopped WorkerStatus.stopped = true

-- A `HashSet<String>` is the list of its members.
unfoldable pub contains : String → List String → Bool
contains x xs = any (λ y. y == x) xs

unfoldable pub insert_member : String → List String → List String
insert_member x xs = if contains x xs then xs else push xs x

unfoldable pub remove_member : String → List String → List String
remove_member x xs = retain (λ y. not (y == x)) xs

-- `active_jobs.len() as u32 + pending_takes`
unfoldable pub active_slots : WorkerState → ℕ
active_slots w = (length w.active_jobs % 2 ^ 32 + w.pending_takes) % 2 ^ 32

-- Reserve a slot and mark the item as in flight.
unfoldable pub reserve : String → WorkerState → WorkerState
reserve item_id w = record w {
  pending_takes = (w.pending_takes + 1) % 2 ^ 32;
  inflight_items = insert_member item_id w.inflight_items;
}

-- Track the job and its item.
unfoldable pub track : String → String → WorkerState → WorkerState
track job_id item_id w = record w {
  active_jobs = insert_member job_id w.active_jobs;
  item_job_map = Map.insert job_id item_id w.item_job_map;
}

-- What a handler leaves: the worker, the state, the items whose take commands are fired, with their
-- ids, and whether it ended without an error.
pub record Outcome : Type 0 where
  pub worker : WorkerState
  pub state : MaterializedState
  pub takes : List (String × String)
  pub is_ok : Bool

unfoldable pub unchanged : WorkerState → MaterializedState → Outcome
unchanged w s = record { worker = w; state = s; takes = []; is_ok = true }

unfoldable pub is_pending_item : Option QueueItem → Bool
is_pending_item none = false
is_pending_item (some i) = elim i.status [ QueueItemStatus.pending ↦ true | _ ↦ false ]

-- `json_id` reads the text under "id" of an item, and `create` is `create_and_start_job` for an item,
-- with the new job's id, or none for an error, and the state after it.
module _ (json_id : String → Option String)
    (create : String → MaterializedState → Option String × MaterializedState) where
  unfoldable pub item_id_of : String → String
  item_id_of item = unwrap_or (json_id item) "unknown"

  -- The loop over the items of an external queue.
  unfoldable pub take_external :
      ℕ → List String → WorkerState → WorkerState × List (String × String)
  take_external slots [] w = (w, [])
  take_external zero (item ∷ items) w = (w, [])
  take_external (suc slots) (item ∷ items) w =
      let item_id = item_id_of item in
      let skipped = take_external (suc slots) items w in
      let (v, takes) = take_external slots items (reserve item_id w) in
      if contains item_id w.inflight_items then skipped else (v, (item_id, item) ∷ takes)

  -- The state is that after `create`, also when there is an error.
  unfoldable pub dispatched :
      ℕ → String → String → WorkerState → Option String × MaterializedState → Outcome
  dispatched now worker_name item_id w (none, t) = record {
    worker = w;
    state = t;
    takes = [];
    is_ok = false;
  }
  dispatched now worker_name item_id w (some job_id, t) = record {
    worker = track job_id item_id w;
    state = apply_event now (Event.worker_item_dispatched worker_name item_id job_id w.namespace) t;
    takes = [];
    is_ok = true;
  }

  unfoldable pub dispatch_queue_item :
      ℕ → String → String → WorkerState → MaterializedState → Outcome
  dispatch_queue_item now worker_name item w s =
      if is_stopped w.status
      then unchanged w s
      else dispatched now worker_name (item_id_of item) w (create item s)

  unfoldable pub still_pending : String → WorkerState → MaterializedState → Bool
  still_pending item_id w s =
      is_pending_item (find_item (scoped_name w.namespace w.queue_name) item_id s)

  -- An item is marked as taken, and its job is created.
  unfoldable pub take_item : ℕ → String → String → WorkerState → MaterializedState → Outcome
  take_item now worker_name item w s =
      let taken = Event.queue_taken w.queue_name (item_id_of item) worker_name w.namespace in
      dispatch_queue_item now worker_name item w (apply_event now taken s)

  -- The loop over the items of a persisted queue.
  unfoldable pub take_persisted :
      ℕ → String → ℕ → List String → WorkerState → MaterializedState → Outcome
  take_persisted now worker_name slots [] w s = unchanged w s
  take_persisted now worker_name zero (item ∷ items) w s = unchanged w s
  take_persisted now worker_name (suc slots) (item ∷ items) w s =
      let skipped = take_persisted now worker_name (suc slots) items w s in
      let o = take_item now worker_name item w s in
      let rest = take_persisted now worker_name slots items o.worker o.state in
      if still_pending (item_id_of item) w s then (if o.is_ok then rest else o) else skipped

  unfoldable pub take_from :
      ℕ → String → QueueType → ℕ → List String → WorkerState → MaterializedState → Outcome
  take_from now worker_name QueueType.external slots items w s =
      let (v, takes) = take_external slots items w in
      record { worker = v; state = s; takes = takes; is_ok = true }
  take_from now worker_name QueueType.persisted slots items w s =
      take_persisted now worker_name slots items w s

  -- `queue_found`: whether the runbook has the worker's queue.
  unfoldable pub handle_worker_poll_complete :
      ℕ → String → Bool → List String → WorkerState → MaterializedState → Outcome
  handle_worker_poll_complete now worker_name queue_found items w s =
      let available = w.concurrency - active_slots w in
      let awake = record w { status = WorkerStatus.running } in
      if is_stopped w.status
      then unchanged w s
      else if eqb available 0 || eqb (length items) 0
      then unchanged awake s
      else if queue_found
      then take_from now worker_name w.queue_type available items awake s
      else record { worker = w; state = s; takes = []; is_ok = false }

  unfoldable pub handle_worker_take_complete :
      ℕ → String → String → String → Bool → WorkerState → MaterializedState → Outcome
  handle_worker_take_complete now worker_name item_id item succeeded w s =
      let released = record w { pending_takes = w.pending_takes - 1 } in
      if succeeded
      then dispatch_queue_item now worker_name item released s
      else unchanged (record released { inflight_items = remove_member item_id w.inflight_items }) s

unfoldable pub forget_item : Option String → List String → List String
forget_item none inflight = inflight
forget_item (some item_id) inflight = remove_member item_id inflight

-- What `check_worker_job_complete` does to the worker that runs the job.
unfoldable pub release_job : String → WorkerState → WorkerState
release_job job_id w =
    if contains job_id w.active_jobs
    then record w {
      active_jobs = remove_member job_id w.active_jobs;
      item_job_map = Map.remove job_id w.item_job_map;
      inflight_items = forget_item (Map.get job_id w.item_job_map) w.inflight_items;
    }
    else w

-- Whether it polls the queue again.
unfoldable pub should_poll : WorkerState → Bool
should_poll w = not (is_stopped w.status) && ltb (length w.active_jobs % 2 ^ 32) w.concurrency

unfoldable pub handle_worker_stopped : WorkerState → WorkerState
handle_worker_stopped w = record w {
  status = WorkerStatus.stopped;
  pending_takes = 0;
  inflight_items = [];
}

-- The worker, and whether it is woken: just when it gets its first free slot.
unfoldable pub handle_worker_resized : ℕ → WorkerState → WorkerState × Bool
handle_worker_resized new_concurrency w =
    let active = active_slots w in
    let had_capacity = ltb active w.concurrency in
    let has_capacity = ltb active new_concurrency in
    if is_stopped w.status
    then (w, false)
    else (record w { concurrency = new_concurrency }, not had_capacity && has_capacity)
