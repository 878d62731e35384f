-- ===== src/Engine/Runtime/Completion.antt =====
-- crates/engine/src/runtime/handlers/worker/completion.rs: what the end of a job does to the worker
-- that runs it and to its item.
use oddjobs.Prelude.{
  ◌++◌, String, Option, none, some, List, [], ◌∷◌, ◌==◌, if◌then◌else◌, unwrap_or,
}
use oddjobs.Prelude.Map
use oddjobs.Prelude.Map.{Map}
use oddjobs.Core.Effect.{Effect}
use oddjobs.Core.Event.{Event, Value}
use oddjobs.Core.Names.{scoped_name}
use oddjobs.Storage.State.{QueueItem}
use oddjobs.Engine.Retry.{RetryConfig, count_of, find_item, may_retry, retry_timer}
use oddjobs.Engine.Worker.{
  WorkerState, QueueType, contains, release_job, should_poll, is_pending_item,
}
use oddjobs.Engine.Runtime.{Run, ◌>>◌, give, quietly, Services, cached_runbook}
use oddjobs.Engine.Runtime.Reload.{refresh_worker_runbook}
use oddjobs.Engine.Runtime.Executor.{execute, execute_all}
use oddjobs.Runbook.{QueueDef}

-- The first worker whose active jobs have the job, with its name.
unfoldable pub owning_worker : String → Map WorkerState → Option (String × WorkerState)
owning_worker job_id [] = none
owning_worker job_id ((name, state) ∷ workers) =
    let rest = owning_worker job_id workers in
    if contains job_id state.active_jobs then some (name, state) else rest

unfoldable pub retry_of : Option QueueDef → Option RetryConfig
retry_of none = none
retry_of (some q) = q.retry

-- With the retry configuration, and the item as the failure left it.
unfoldable pub retry_or_bury : Services → WorkerState → String → Option RetryConfig → Run
retry_or_bury v state item_id retry_config w =
    let scoped_queue = scoped_name state.namespace state.queue_name in
    let (timer, duration) = retry_timer scoped_queue item_id retry_config in
    let dead = Event.queue_item_dead state.queue_name item_id state.namespace in
    (if may_retry retry_config (count_of (find_item scoped_queue item_id w.state))
        then quietly (execute v (Effect.set_timer timer duration))
        else execute_all v (Effect.emit dead ∷ []))
      w

-- After the failure is applied: schedule a retry, or mark the item as dead.
unfoldable pub retry_or_dead : Services → WorkerState → String → String → Run
retry_or_dead v state hash item_id =
    cached_runbook v hash
      λ runbook. retry_or_bury v state item_id (retry_of (Map.get state.queue_name runbook.queues))

unfoldable pub settle_item :
    Services → String → WorkerState → String → QueueType → Option String → Run
settle_item v terminal_step state hash QueueType.persisted (some item_id) =
    let completed = Event.queue_completed state.queue_name item_id state.namespace in
    let error = "job reached '" ++ terminal_step ++ "'" in
    let failed = Event.queue_failed state.queue_name item_id error state.namespace in
    if terminal_step == "done"
    then execute_all v (Effect.emit completed ∷ [])
    else execute_all v (Effect.emit failed ∷ []) >> retry_or_dead v state hash item_id
settle_item v terminal_step state hash _ _ = give []

unfoldable pub list_command_of : QueueDef → String
list_command_of q = unwrap_or q.list_command ""

unfoldable pub poll_external : Services → String → WorkerState → Option QueueDef → Run
poll_external v name state none = give []
poll_external v name state (some q) =
    execute_all v (Effect.poll_queue name (list_command_of q) state.project_root ∷ [])

unfoldable pub pending_values : (QueueItem → Value) → List QueueItem → List Value
pending_values item_json [] = []
pending_values item_json (i ∷ items) =
    let rest = pending_values item_json items in
    if is_pending_item (some i) then item_json i ∷ rest else rest

-- The event that starts the same dispatch as a poll of an external queue; nothing is executed.
unfoldable pub poll_persisted_queue : Services → String → String → String → Run
poll_persisted_queue v name queue_name namespace w =
    let items = unwrap_or (Map.get (scoped_name namespace queue_name) w.state.queue_items) [] in
    give (Event.worker_poll_complete name (pending_values v.item_json items) ∷ []) w

unfoldable pub poll : Services → String → WorkerState → String → QueueType → Run
unfolding poll_external
poll v name state hash QueueType.external =
    cached_runbook v hash
      λ runbook. poll_external v name state (Map.get state.queue_name runbook.queues)
poll v name state hash QueueType.persisted =
    poll_persisted_queue v name state.queue_name state.namespace

-- The test on the worker as it is by then.
unfoldable pub poll_worker : Services → String → WorkerState → String → Option WorkerState → Run
poll_worker v name state hash none = give []
poll_worker v name state hash (some now) =
    if should_poll now then poll v name state hash state.queue_type else give []

unfoldable pub poll_if_free : Services → String → WorkerState → String → Run
unfolding poll_worker
poll_if_free v name state hash w = poll_worker v name state hash (Map.get name w.worker_states) w

-- `workers.get(&worker_name).map(|s| s.runbook_hash.clone()).unwrap_or(old)`
unfoldable pub hash_of : Option WorkerState → String → String
hash_of none old = old
hash_of (some state) old = state.runbook_hash

unfoldable pub after_refresh : Services → String → String → String → WorkerState → Run
after_refresh v job_id terminal_step name state w =
    let hash = hash_of (Map.get name w.worker_states) state.runbook_hash in
    let item_id = Map.get job_id state.item_job_map in
    (settle_item v terminal_step state hash state.queue_type item_id
        >> poll_if_free v name state hash)
      w

unfoldable pub after_release : Services → String → String → String → WorkerState → Run
after_release v job_id terminal_step name state =
    refresh_worker_runbook v name >> after_refresh v job_id terminal_step name state

-- `state` is the worker before the job leaves it; nothing later reads the fields that change then.
unfoldable pub release_from : Services → String → String → Option (String × WorkerState) → Run
release_from v job_id terminal_step none w = give [] w
release_from v job_id terminal_step (some (name, state)) w =
    after_release v job_id terminal_step name state
      (record w { worker_states = Map.insert name (release_job job_id state) w.worker_states })

unfoldable pub check_worker_job_complete : Services → String → String → Run
unfolding release_from
check_worker_job_complete v job_id terminal_step w =
    release_from v job_id terminal_step (owning_worker job_id w.worker_states) w
