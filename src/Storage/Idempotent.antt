-- ===== src/Storage/Idempotent.antt =====
-- Applying an event twice is applying it once, as state.rs asks of every handler. The children have
-- the handlers of Storage/Apply one by one.
mod Jobs
mod Advance
mod Steps
mod Agents
mod Entities
mod Queues
use oddjobs.Prelude.{ℕ, Bool, true, false, ◌≡◌, refl, sym, arith, ◌⊎◌, inl, inr}
use oddjobs.Core.Event.{Event}
use oddjobs.Core.Workspace.{WorkspaceStatus}
use oddjobs.Storage.State.{MaterializedState}
use oddjobs.Storage.Apply.{apply_event}
use Advance.{job_advanced_absorb}
use Steps.{
  shell_exited_absorb, step_completed_absorb, step_failed_absorb, job_created_absorb,
  step_started_absorb, step_waiting_idem, job_cancelling_idem, job_deleted_idem, job_updated_idem,
}
use Agents.{
  agent_working_idem, agent_exited_idem, agent_failed_idem, agent_gone_idem, agent_waiting_idem,
  agent_signal_idem,
}
use Entities.{
  runbook_loaded_idem, session_created_idem, session_deleted_idem, workspace_created_idem,
  set_workspace_status_idem, workspace_deleted_idem, worker_started_idem,
  worker_item_dispatched_idem, worker_stopped_idem, worker_resized_idem, worker_deleted_idem,
  command_run_idem, cron_started_idem, cron_stopped_idem, cron_fired_idem, cron_deleted_idem,
}
use Queues.{
  queue_pushed_idem, queue_taken_idem, queue_completed_idem, queue_failed_idem,
  queue_item_retry_idem, queue_item_dead_idem, queue_dropped_idem, decision_created_idem,
  decision_resolved_idem, agent_run_created_idem, agent_run_started_idem,
  agent_run_status_changed_idem, agent_run_deleted_idem,
}

-- The events whose handler writes the clock over a time that is there already.
abbrev pub restamps : Event → Bool
restamps (Event.agent_working _ _) = true
restamps (Event.agent_waiting _ _) = true
restamps (Event.agent_failed _ _ _) = true
restamps (Event.agent_exited _ _ _) = true
restamps (Event.agent_gone _ _) = true
restamps (Event.workspace_created _ _ _ _ _) = true
restamps (Event.cron_started _ _ _ _ _ _) = true
restamps (Event.cron_fired _ _ _ _) = true
restamps (Event.agent_run_started _ _) = true
restamps (Event.agent_run_status_changed _ _ _) = true
restamps _ = false

same_reading : {t t' : ℕ} → (true ≡ false) ⊎ (t ≡ t') → t' ≡ t
same_reading (inl h) = cc
same_reading (inr e) = sym e

-- Applying an event that has just been applied changes nothing, whatever the clock says by then, for
-- every event whose handler overwrites no time; for the others, if the clock reads the same.
pub apply_event_twice :
    (t t' : ℕ) (e : Event) (s : MaterializedState)
    → (restamps e ≡ false) ⊎ (t ≡ t')
    → apply_event t' e (apply_event t e s) ≡ apply_event t e s
unfolding apply_event
apply_event_twice t t' (Event.agent_working agent_id owner) s h =
    rw (same_reading h) (agent_working_idem t agent_id owner s)
apply_event_twice t t' (Event.agent_waiting agent_id _) s h =
    rw (same_reading h) (agent_waiting_idem t agent_id s)
apply_event_twice t t' (Event.agent_exited agent_id code owner) s h =
    rw (same_reading h) (agent_exited_idem t agent_id owner s code)
apply_event_twice t t' (Event.agent_failed agent_id error owner) s h =
    rw (same_reading h) (agent_failed_idem t agent_id owner s error)
apply_event_twice t t' (Event.agent_gone agent_id owner) s h =
    rw (same_reading h) (agent_gone_idem t agent_id owner s)
apply_event_twice t t' (Event.shell_exited job_id _ code _ _) s h =
    shell_exited_absorb t t' job_id code s
apply_event_twice t t' (Event.job_created _ _ _ _ _ _ _ at _ _) s h = job_created_absorb _ at s
apply_event_twice t t' (Event.runbook_loaded hash version runbook) s h =
    runbook_loaded_idem s hash version runbook
apply_event_twice t t' (Event.job_advanced id step) s h = job_advanced_absorb t t' id step s
apply_event_twice t t' (Event.step_started job_id _ agent_id agent_name) s h =
    step_started_absorb t t' job_id agent_id agent_name s
apply_event_twice t t' (Event.step_waiting job_id _ reason decision_id) s h =
    step_waiting_idem job_id reason decision_id s
apply_event_twice t t' (Event.step_completed job_id _) s h = step_completed_absorb t t' job_id s
apply_event_twice t t' (Event.step_failed job_id _ error) s h =
    step_failed_absorb t t' job_id error s
apply_event_twice t t' (Event.job_cancelling id) s h = job_cancelling_idem id s
apply_event_twice t t' (Event.job_deleted id) s h = job_deleted_idem id s
apply_event_twice t t' (Event.session_created id owner) s h = session_created_idem s id owner
apply_event_twice t t' (Event.session_deleted id) s h = session_deleted_idem s id
apply_event_twice t t' (Event.workspace_created id path branch owner type) s h =
    rw (same_reading h) (workspace_created_idem s t id path branch owner type)
apply_event_twice t t' (Event.workspace_ready id) s h = set_workspace_status_idem s id _
apply_event_twice t t' (Event.workspace_failed id _) s h = set_workspace_status_idem s id _
apply_event_twice t t' (Event.workspace_deleted id) s h = workspace_deleted_idem s id
apply_event_twice t t' (Event.job_updated id vars) s h = job_updated_idem id vars s
apply_event_twice t t' (Event.agent_signal agent_id kind message) s h =
    agent_signal_idem agent_id kind message s
apply_event_twice t t' (Event.worker_started worker root hash queue concurrency namespace) s h =
    worker_started_idem s worker root hash queue concurrency namespace
apply_event_twice t t' (Event.worker_item_dispatched worker _ job_id namespace) s h =
    worker_item_dispatched_idem s worker job_id namespace
apply_event_twice t t' (Event.worker_stopped worker namespace) s h =
    worker_stopped_idem s worker namespace
apply_event_twice t t' (Event.worker_resized worker concurrency namespace) s h =
    worker_resized_idem s worker concurrency namespace
apply_event_twice t t' (Event.worker_deleted worker namespace) s h =
    worker_deleted_idem s worker namespace
apply_event_twice t t' (Event.queue_pushed queue item_id fields at namespace) s h =
    queue_pushed_idem s queue item_id fields at namespace
apply_event_twice t t' (Event.queue_taken queue item_id worker namespace) s h =
    queue_taken_idem s queue item_id namespace worker
apply_event_twice t t' (Event.queue_completed queue item_id namespace) s h =
    queue_completed_idem s queue item_id namespace
apply_event_twice t t' (Event.queue_failed queue item_id _ namespace) s h =
    queue_failed_idem s queue item_id namespace
apply_event_twice t t' (Event.queue_dropped queue item_id namespace) s h =
    queue_dropped_idem s queue item_id namespace
apply_event_twice t t' (Event.queue_item_retry queue item_id namespace) s h =
    queue_item_retry_idem s queue item_id namespace
apply_event_twice t t' (Event.queue_item_dead queue item_id namespace) s h =
    queue_item_dead_idem s queue item_id namespace
apply_event_twice t t' (Event.cron_started cron root hash interval target namespace) s h =
    rw (same_reading h) (cron_started_idem s t cron root hash interval target namespace)
apply_event_twice t t' (Event.cron_stopped cron namespace) s h = cron_stopped_idem s cron namespace
apply_event_twice t t' (Event.cron_fired cron _ _ namespace) s h =
    rw (same_reading h) (cron_fired_idem s t cron namespace)
apply_event_twice t t' (Event.cron_deleted cron namespace) s h = cron_deleted_idem s cron namespace
apply_event_twice t t' (Event.decision_created _ _ _ _ _ _ _ _ _) s h = decision_created_idem s _
apply_event_twice t t' (Event.decision_resolved id chosen message at _) s h =
    decision_resolved_idem s id chosen message at
apply_event_twice t t' (Event.agent_run_created _ _ _ _ _ _ _ _) s h = agent_run_created_idem s _
apply_event_twice t t' (Event.agent_run_started id agent_id) s h =
    rw (same_reading h) (agent_run_started_idem s t id agent_id)
apply_event_twice t t' (Event.agent_run_status_changed id status reason) s h =
    rw (same_reading h) (agent_run_status_changed_idem s t id status reason)
apply_event_twice t t' (Event.agent_run_deleted id) s h = agent_run_deleted_idem s id
apply_event_twice t t' (Event.command_run _ _ root _ namespace _ _) s h =
    command_run_idem s namespace root
apply_event_twice t t' _ s h = refl
