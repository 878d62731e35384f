-- ===== src/Storage/Apply/Jobs.antt =====
-- state.rs, `apply_event`: jobs and their steps.
use oddjobs.Prelude.{
  ◌++◌, ℕ, String, Option, none, some, Bool, true, false, not, ◌&&◌, ◌||◌, ◌==◌, if◌then◌else◌,
  is_some, unwrap_or, retain,
}
use oddjobs.Prelude.Map
use oddjobs.Prelude.Map.{Map}
use oddjobs.Core.Agent.{ℤ, AgentRecord, AgentRecordStatus}
use oddjobs.Core.Decision.{Decision, is_resolved}
use oddjobs.Core.Job.{
  Job, JobConfig, StepStatus, StepOutcome, is_failed, new_with_epoch_ms, finalize_current_step,
  update_current_step_outcome, set_current_step_agent_id, set_current_step_agent_name, push_step,
  is_terminal, is_terminal_step, reset_action_attempts, clear_agent_signal, record_step_visit,
}
use oddjobs.Core.Owner.{OwnerId, owner_eq}
use oddjobs.Storage.State.{WorkerRecord, MaterializedState}
use oddjobs.Storage.Apply.Agents.{fail_job, is_exit_zero, int_display}

unfoldable pub complete_step : ℕ → Job → Job
complete_step now j =
    finalize_current_step StepOutcome.completed now
      (record j { step_status = StepStatus.completed })

unfoldable pub fail_step : String → ℕ → Job → Job
fail_step error now j = finalize_current_step (StepOutcome.failed error) now (fail_job error j)

unfoldable pub exit_shell : ℤ → ℕ → Job → Job
exit_shell exit_code now j =
    if is_exit_zero (some exit_code)
    then complete_step now j
    else fail_step ("shell exit code: " ++ int_display exit_code) now j

unfoldable pub shell_exited : ℕ → String → ℤ → MaterializedState → MaterializedState
shell_exited now job_id exit_code s = record s {
  jobs = Map.modify job_id (exit_shell exit_code now) s.jobs;
}

unfoldable pub job_created : JobConfig → ℕ → MaterializedState → MaterializedState
job_created config epoch_ms s = record s {
  jobs = Map.insert config.id (new_with_epoch_ms config epoch_ms) s.jobs;
}

-- The early return: already on this step, and not recovering from a failure.
unfoldable pub skips : String → Option Job → Bool
skips step none = false
skips step (some j) = j.step == step && not (is_failed j.step_status)

-- Forget a stale error and session when a terminal job goes on.
unfoldable pub revive : String → Job → Job
revive step j =
    if is_terminal j && not (is_terminal_step step)
    then record j { error = none; session_id = none }
    else j

unfoldable pub closing_outcome : String → Option String → StepOutcome
closing_outcome step error =
    if step == "failed" || step == "cancelled"
    then StepOutcome.failed (unwrap_or error "")
    else StepOutcome.completed

unfoldable pub status_on : String → StepStatus
status_on step =
    if step == "failed" || step == "cancelled"
    then StepStatus.failed
    else if step == "done"
    then StepStatus.completed
    else StepStatus.pending

-- Attempts survive a transition from a failed step, so that they bound a whole `on_fail` cycle.
unfoldable pub keep_or_reset : Bool → Job → Job
keep_or_reset from_failure j = if from_failure then j else reset_action_attempts j

unfoldable pub enter_step : String → ℕ → Job → Job
enter_step step now j =
    if is_terminal_step step then j else push_step step now (record_step_visit step j)

-- Close the step that the job is on, and set the new one.
unfoldable pub leave_step : String → ℕ → Job → Job
leave_step step now j =
    let revived = revive step j in
    let closed = finalize_current_step (closing_outcome step revived.error) now revived in
    let moved = record closed { step = step; step_status = status_on step } in
    clear_agent_signal (keep_or_reset (is_failed j.step_status) moved)

unfoldable pub advance : String → ℕ → Job → Job
unfolding leave_step
advance step now j = enter_step step now (leave_step step now j)

unfoldable pub drop_active : String → WorkerRecord → WorkerRecord
drop_active job_id w = record w {
  active_job_ids = retain (λ pid. not (pid == job_id)) w.active_job_ids;
}

-- `d.job_id != pid || d.is_resolved()`
unfoldable pub survives : String → Decision → Bool
survives job_id d = not (d.job_id == job_id) || is_resolved d

-- Free the workers' slots and drop the open decisions of a job that ended.
unfoldable pub end_job : String → MaterializedState → MaterializedState
end_job id s = record s {
  workers = Map.map_values (drop_active id) s.workers;
  decisions = Map.retain (survives id) s.decisions;
}

unfoldable pub job_advanced : ℕ → String → String → MaterializedState → MaterializedState
job_advanced now id step s =
    let moved = record s { jobs = Map.modify id (advance step now) s.jobs } in
    if skips step (Map.get id s.jobs)
    then s
    else if is_terminal_step step
    then end_job id moved
    else moved

-- `if let Some(x) = opt { … }`
unfoldable pub when_some : (String → Job → Job) → Option String → Job → Job
when_some f none j = j
when_some f (some t) j = f t j

unfoldable pub start_step : Option String → Option String → Job → Job
start_step agent_id agent_name j = update_current_step_outcome StepOutcome.running (
    when_some set_current_step_agent_name agent_name (
      when_some set_current_step_agent_id agent_id (record j { step_status = StepStatus.running })))

unfoldable pub embedded_agent : ℕ → String → String → Option String → Job → AgentRecord
embedded_agent now job_id agent_id agent_name j = record {
  agent_id = agent_id;
  agent_name = unwrap_or agent_name "";
  owner = OwnerId.job job_id;
  namespace = j.namespace;
  workspace_path = unwrap_or j.workspace_path j.cwd;
  session_id = none;
  status = AgentRecordStatus.starting;
  created_at_ms = now;
  updated_at_ms = now;
}

unfoldable pub index_agent :
    ℕ → String → Option String → Option String → Option Job → Map AgentRecord → Map AgentRecord
index_agent now job_id (some aid) agent_name (some j) agents =
    Map.or_insert aid (embedded_agent now job_id aid agent_name j) agents
index_agent now job_id (some aid) agent_name none agents = agents
index_agent now job_id none agent_name job agents = agents

unfoldable pub step_started :
    ℕ → String → Option String → Option String → MaterializedState → MaterializedState
step_started now job_id agent_id agent_name s = record s {
  jobs = Map.modify job_id (start_step agent_id agent_name) s.jobs;
  agents = index_agent now job_id agent_id agent_name (Map.get job_id s.jobs) s.agents;
}

unfoldable pub wait_step : Option String → Option String → Job → Job
wait_step reason decision_id j =
    update_current_step_outcome (StepOutcome.waiting (unwrap_or reason "")) (record j {
      step_status = StepStatus.waiting decision_id;
      error = if is_some reason then reason else j.error;
    })

unfoldable pub step_waiting :
    String → Option String → Option String → MaterializedState → MaterializedState
step_waiting job_id reason decision_id s = record s {
  jobs = Map.modify job_id (wait_step reason decision_id) s.jobs;
}

unfoldable pub step_completed : ℕ → String → MaterializedState → MaterializedState
step_completed now job_id s = record s { jobs = Map.modify job_id (complete_step now) s.jobs }

unfoldable pub step_failed : ℕ → String → String → MaterializedState → MaterializedState
step_failed now job_id error s = record s { jobs = Map.modify job_id (fail_step error now) s.jobs }

unfoldable pub job_cancelling : String → MaterializedState → MaterializedState
job_cancelling id s = record s { jobs = Map.modify id (λ j. record j { cancelling = true }) s.jobs }

unfoldable pub job_deleted : String → MaterializedState → MaterializedState
job_deleted id s = record s {
  jobs = Map.remove id s.jobs;
  decisions = Map.retain (λ d. not (d.job_id == id)) s.decisions;
  agents = Map.retain (λ r. not (owner_eq r.owner (OwnerId.job id))) s.agents;
}

-- The loop over the event's variables.
unfoldable pub job_updated : String → Map String → MaterializedState → MaterializedState
job_updated id vars s = record s {
  jobs = Map.modify id (λ j. record j { vars = Map.insert_all vars j.vars }) s.jobs;
}
