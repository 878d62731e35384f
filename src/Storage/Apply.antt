-- ===== src/Storage/Apply.antt =====
-- crates/storage/src/state.rs, `MaterializedState::apply_event`. Each child has the handlers of one
-- family of events. `now` is what `epoch_ms_now()` answers while the event is applied.
pub mod Agents
pub mod Jobs
pub mod Sessions
pub mod Workers
pub mod Queues
pub mod Crons
pub mod Decisions
pub mod Runs
use oddjobs.Prelude.{ℕ, Option, none, some}
use oddjobs.Core.Event.{Event}
use oddjobs.Core.Workspace.{WorkspaceStatus}
use oddjobs.Storage.State.{MaterializedState}
use Agents.{
  agent_working, agent_waiting, agent_exited, agent_failed, agent_gone, agent_signal, store_signal,
}
use Jobs.{
  shell_exited, job_created, job_advanced, end_job, step_started, step_waiting, step_completed,
  step_failed, job_cancelling, job_deleted, job_updated,
}
use Sessions.{
  runbook_loaded, session_created, session_deleted, workspace_created, set_workspace_status,
  workspace_deleted,
}
use Workers.{
  worker_started, worker_item_dispatched, worker_stopped, worker_resized, worker_deleted,
  command_run,
}
use Queues.{queue_pushed, queue_dropped, on_item, take, complete, fail, retry, bury}
use Crons.{cron_started, cron_stopped, cron_fired, cron_deleted}
use Decisions.{decision_created, decision_resolved}
use Runs.{
  new_run, agent_run_created, agent_run_started, agent_run_status_changed, agent_run_deleted,
}

-- The last clause is the list of events that do not affect the persisted state.
unfoldable pub apply_event : ℕ → Event → MaterializedState → MaterializedState
unfolding agent_working agent_waiting agent_exited agent_failed agent_gone agent_signal store_signal
    shell_exited job_created job_advanced end_job step_started step_waiting step_completed
    step_failed job_cancelling job_deleted job_updated runbook_loaded session_created
    session_deleted workspace_created set_workspace_status workspace_deleted worker_started
    worker_item_dispatched worker_stopped worker_resized worker_deleted command_run queue_pushed
    queue_dropped on_item cron_started cron_stopped cron_fired cron_deleted decision_created
    decision_resolved agent_run_created agent_run_started agent_run_status_changed agent_run_deleted
apply_event now (Event.agent_working agent_id owner) s = agent_working now agent_id owner s
apply_event now (Event.agent_waiting agent_id owner) s = agent_waiting now agent_id s
apply_event now (Event.agent_exited agent_id code owner) s = agent_exited now agent_id code owner s
apply_event now (Event.agent_failed agent_id error owner) s =
    agent_failed now agent_id error owner s
apply_event now (Event.agent_gone agent_id owner) s = agent_gone now agent_id owner s
apply_event now (Event.shell_exited job_id step code stdout stderr) s =
    shell_exited now job_id code s
apply_event now (Event.job_created id kind name hash cwd vars step at namespace cron) s =
    job_created
      (record {
        id = id;
        name = name;
        kind = kind;
        vars = vars;
        runbook_hash = hash;
        cwd = cwd;
        initial_step = step;
        namespace = namespace;
        cron_name = cron;
      })
      at s
apply_event now (Event.runbook_loaded hash version runbook) s =
    runbook_loaded hash version runbook s
apply_event now (Event.job_advanced id step) s = job_advanced now id step s
apply_event now (Event.step_started job_id step agent_id agent_name) s =
    step_started now job_id agent_id agent_name s
apply_event now (Event.step_waiting job_id step reason decision_id) s =
    step_waiting job_id reason decision_id s
apply_event now (Event.step_completed job_id step) s = step_completed now job_id s
apply_event now (Event.step_failed job_id step error) s = step_failed now job_id error s
apply_event now (Event.job_cancelling id) s = job_cancelling id s
apply_event now (Event.job_deleted id) s = job_deleted id s
apply_event now (Event.session_created id owner) s = session_created id owner s
apply_event now (Event.session_deleted id) s = session_deleted id s
apply_event now (Event.workspace_created id path branch owner type) s =
    workspace_created now id path branch owner type s
apply_event now (Event.workspace_ready id) s = set_workspace_status id WorkspaceStatus.ready s
apply_event now (Event.workspace_failed id reason) s =
    set_workspace_status id (WorkspaceStatus.failed reason) s
apply_event now (Event.workspace_deleted id) s = workspace_deleted id s
apply_event now (Event.job_updated id vars) s = job_updated id vars s
apply_event now (Event.agent_signal agent_id kind message) s = agent_signal agent_id kind message s
apply_event now (Event.worker_started worker root hash queue concurrency namespace) s =
    worker_started worker root hash queue concurrency namespace s
apply_event now (Event.worker_item_dispatched worker item_id job_id namespace) s =
    worker_item_dispatched worker job_id namespace s
apply_event now (Event.worker_stopped worker namespace) s = worker_stopped worker namespace s
apply_event now (Event.worker_resized worker concurrency namespace) s =
    worker_resized worker concurrency namespace s
apply_event now (Event.worker_deleted worker namespace) s = worker_deleted worker namespace s
apply_event now (Event.queue_pushed queue item_id fields at namespace) s =
    queue_pushed queue item_id fields at namespace s
apply_event now (Event.queue_taken queue item_id worker namespace) s =
    on_item queue item_id (take worker) namespace s
apply_event now (Event.queue_completed queue item_id namespace) s =
    on_item queue item_id complete namespace s
apply_event now (Event.queue_failed queue item_id error namespace) s =
    on_item queue item_id fail namespace s
apply_event now (Event.queue_dropped queue item_id namespace) s =
    queue_dropped queue item_id namespace s
apply_event now (Event.queue_item_retry queue item_id namespace) s =
    on_item queue item_id retry namespace s
apply_event now (Event.queue_item_dead queue item_id namespace) s =
    on_item queue item_id bury namespace s
apply_event now (Event.cron_started cron root hash interval target namespace) s =
    cron_started now cron root hash interval target namespace s
apply_event now (Event.cron_stopped cron namespace) s = cron_stopped cron namespace s
apply_event now (Event.cron_fired cron job_id agent_run_id namespace) s =
    cron_fired now cron namespace s
apply_event now (Event.cron_deleted cron namespace) s = cron_deleted cron namespace s
apply_event now (Event.decision_created id job agent owner source context options at namespace) s =
    decision_created
      (record {
        id = id;
        job_id = job;
        agent_id = agent;
        owner = owner;
        source = source;
        context = context;
        options = options;
        chosen = none;
        message = none;
        created_at_ms = at;
        resolved_at_ms = none;
        superseded_by = none;
        namespace = namespace;
      })
      s
apply_event now (Event.decision_resolved id chosen message at namespace) s =
    decision_resolved id chosen message at s
apply_event now (Event.agent_run_created id agent command namespace cwd hash vars at) s =
    agent_run_created (new_run id agent command namespace cwd hash vars at) s
apply_event now (Event.agent_run_started id agent_id) s = agent_run_started now id agent_id s
apply_event now (Event.agent_run_status_changed id status reason) s =
    agent_run_status_changed now id status reason s
apply_event now (Event.agent_run_deleted id) s = agent_run_deleted id s
apply_event now (Event.command_run job name root dir namespace command args) s =
    command_run namespace root s
apply_event now _ s = s
