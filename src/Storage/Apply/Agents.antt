-- ===== src/Storage/Apply/Agents.antt =====
-- state.rs, `apply_event`: what agents report, and signals.
use oddjobs.Prelude.{
  ◌++◌, ℕ, zero, suc, String, Option, none, some, Bool, true, false, ◌==◌, if◌then◌else◌, last?,
  decimal,
}
use oddjobs.Prelude.Map
use oddjobs.Prelude.Map.{Map}
use oddjobs.Core.Agent.{ℤ, AgentRecordStatus, AgentRecord, AgentError, agent_error_text}
use oddjobs.Core.AgentRun.{AgentRun}
use oddjobs.Core.Job.{Job, StepStatus, StepRecord, is_terminal}
use oddjobs.Core.Owner.{OwnerId}
use oddjobs.Core.Tracker.{ActionTracker, AgentSignal, AgentSignalKind}
use oddjobs.Storage.State.{MaterializedState}

-- `if let OwnerId::Job(job_id) = owner { if let Some(job) = self.jobs.get_mut(job_id) { … } }`
unfoldable pub route_job : OwnerId → (Job → Job) → Map Job → Map Job
route_job (OwnerId.job job_id) f jobs = Map.modify job_id f jobs
route_job (OwnerId.agent_run _) f jobs = jobs

-- Update the unified agent record.
unfoldable pub touch_agent : String → AgentRecordStatus → ℕ → Map AgentRecord → Map AgentRecord
touch_agent agent_id status now =
    Map.modify agent_id λ r. record r { status = status; updated_at_ms = now }

unfoldable pub agent_working : ℕ → String → OwnerId → MaterializedState → MaterializedState
agent_working now agent_id owner s = record s {
  jobs = route_job owner (λ j. record j { step_status = StepStatus.running }) s.jobs;
  agents = touch_agent agent_id AgentRecordStatus.running now s.agents;
}

unfoldable pub agent_waiting : ℕ → String → MaterializedState → MaterializedState
agent_waiting now agent_id s = record s {
  agents = touch_agent agent_id AgentRecordStatus.idle now s.agents;
}

-- `{:?}` of an `Option<i32>`.
int_text : ℤ → String
int_text (ℤ.pos n) = decimal n
int_text (ℤ.negsuc n) = "-" ++ decimal (suc n)

exit_code_text : Option ℤ → String
unfolding int_text
exit_code_text none = "None"
exit_code_text (some c) = "Some(" ++ int_text c ++ ")"

unfoldable pub int_display : ℤ → String
unfolding int_text
int_display = int_text

-- `*exit_code == Some(0)`
unfoldable pub is_exit_zero : Option ℤ → Bool
is_exit_zero (some (ℤ.pos zero)) = true
is_exit_zero _ = false

unfoldable pub fail_job : String → Job → Job
fail_job error j = record j { step_status = StepStatus.failed; error = some error }

-- Skip a job that is on a terminal step.
unfoldable pub unless_terminal : (Job → Job) → Job → Job
unless_terminal f j = if is_terminal j then j else f j

unfoldable pub exit_job : Option ℤ → Job → Job
unfolding exit_code_text
exit_job exit_code j =
    if is_exit_zero exit_code
    then record j { step_status = StepStatus.completed }
    else fail_job ("exit code: " ++ exit_code_text exit_code) j

unfoldable pub agent_exited :
    ℕ → String → Option ℤ → OwnerId → MaterializedState → MaterializedState
agent_exited now agent_id exit_code owner s = record s {
  jobs = route_job owner (unless_terminal (exit_job exit_code)) s.jobs;
  agents = touch_agent agent_id AgentRecordStatus.exited now s.agents;
}

unfoldable pub agent_failed :
    ℕ → String → AgentError → OwnerId → MaterializedState → MaterializedState
agent_failed now agent_id error owner s = record s {
  jobs = route_job owner (unless_terminal (fail_job (agent_error_text error))) s.jobs;
  agents = touch_agent agent_id AgentRecordStatus.exited now s.agents;
}

unfoldable pub agent_gone : ℕ → String → OwnerId → MaterializedState → MaterializedState
agent_gone now agent_id owner s = record s {
  jobs = route_job owner (unless_terminal (fail_job "session terminated unexpectedly")) s.jobs;
  agents = touch_agent agent_id AgentRecordStatus.gone now s.agents;
}

-- `opt.as_deref() == Some(text)`
unfoldable pub opt_is : String → Option String → Bool
opt_is t none = false
opt_is t (some u) = u == t

unfoldable pub run_has_agent : String → AgentRun → Bool
run_has_agent agent_id r = opt_is agent_id r.agent_id

record_has_agent : String → Option StepRecord → Bool
record_has_agent agent_id none = false
record_has_agent agent_id (some r) = opt_is agent_id r.agent_id

-- The test of `find_job_by_agent_id`.
unfoldable pub job_has_agent : String → Job → Bool
unfolding record_has_agent
job_has_agent agent_id j = record_has_agent agent_id (last? j.step_history)

unfoldable pub set_signal : AgentSignal → ActionTracker → ActionTracker
set_signal sig t = record t { agent_signal = some sig }

unfoldable pub signal_run : AgentSignal → AgentRun → AgentRun
signal_run sig r = record r { action_tracker = set_signal sig r.action_tracker }

unfoldable pub signal_job : AgentSignal → Job → Job
signal_job sig j = record j { action_tracker = set_signal sig j.action_tracker }

-- Standalone agent runs first, then the job whose current step has the agent.
unfoldable pub store_signal : String → AgentSignal → MaterializedState → MaterializedState
store_signal agent_id sig s =
    if Map.any_value (run_has_agent agent_id) s.agent_runs
    then record s {
      agent_runs = Map.modify_first (run_has_agent agent_id) (signal_run sig) s.agent_runs;
    }
    else record s { jobs = Map.modify_first (job_has_agent agent_id) (signal_job sig) s.jobs }

-- `Continue` is an acknowledgement and is not stored.
unfoldable pub agent_signal :
    String → AgentSignalKind → Option String → MaterializedState → MaterializedState
agent_signal agent_id AgentSignalKind.continue message s = s
agent_signal agent_id kind message s =
    store_signal agent_id (record { kind = kind; message = message }) s
