-- ===== src/Storage/Idempotent/Agents.antt =====
-- The handlers of agents and signals, made twice.
use oddjobs.Prelude.{ℕ, String, Option, ◌≡◌, refl, arith}
use oddjobs.Prelude.Map.{Map}
use oddjobs.Prelude.Map.Laws.{modify_absorb, modify_first_absorb, any_value-modify_first}
use oddjobs.Core.Agent.{ℤ, agent_error_text, AgentError, AgentRecordStatus, AgentRecord}
use oddjobs.Core.Job.{Job, StepStatus, is_terminal}
use oddjobs.Core.Owner.{OwnerId}
use oddjobs.Core.Tracker.{AgentSignal, AgentSignalKind}
use oddjobs.Storage.State.{MaterializedState}
use oddjobs.Storage.Apply.Agents.{
  route_job, touch_agent, agent_working, agent_waiting, agent_exited, agent_failed, agent_gone,
  unless_terminal, exit_job, fail_job, signal_run, signal_job, set_signal, store_signal,
  agent_signal, run_has_agent, job_has_agent,
}

module _ (t : ℕ) (agent_id : String) where
  touch_agent_idem :
      (st : AgentRecordStatus) (m : Map AgentRecord)
      → touch_agent agent_id st t (touch_agent agent_id st t m) ≡ touch_agent agent_id st t m
  unfolding touch_agent
  touch_agent_idem st m = modify_absorb agent_id _ _ m (λ r. refl)

pub route_job_absorb :
    (o : OwnerId) (f : Job → Job) (m : Map Job)
    → ((j : Job) → f (f j) ≡ f j)
    → route_job o f (route_job o f m) ≡ route_job o f m
unfolding route_job
route_job_absorb (OwnerId.job id) f m h = modify_absorb id f f m h
route_job_absorb (OwnerId.agent_run id) f m h = refl

fail_unless_terminal_idem :
    (e : String) (j : Job)
    → unless_terminal (fail_job e) (unless_terminal (fail_job e) j) ≡ unless_terminal (fail_job e) j
unfolding unless_terminal fail_job is_terminal
fail_unless_terminal_idem e j = ground arith

exit_unless_terminal_idem :
    (c : Option ℤ) (j : Job)
    → unless_terminal (exit_job c) (unless_terminal (exit_job c) j) ≡ unless_terminal (exit_job c) j
unfolding unless_terminal exit_job fail_job is_terminal
exit_unless_terminal_idem c j = ground arith

module _ (t : ℕ) (agent_id : String) (o : OwnerId) (s : MaterializedState) where
  pub agent_working_idem :
      agent_working t agent_id o (agent_working t agent_id o s) ≡ agent_working t agent_id o s
  unfolding agent_working
  agent_working_idem = ground (
    arith,
    route_job_absorb o (λ j. record j { step_status = StepStatus.running }) s.jobs (λ j. refl),
    touch_agent_idem t agent_id AgentRecordStatus.running s.agents,
  )

  pub agent_exited_idem :
      (c : Option ℤ)
      → agent_exited t agent_id c o (agent_exited t agent_id c o s) ≡ agent_exited t agent_id c o s
  unfolding agent_exited
  agent_exited_idem c = ground (
    arith,
    route_job_absorb o (unless_terminal (exit_job c)) s.jobs (exit_unless_terminal_idem c),
    touch_agent_idem t agent_id AgentRecordStatus.exited s.agents,
  )

  pub agent_failed_idem :
      (e : AgentError)
      → agent_failed t agent_id e o (agent_failed t agent_id e o s) ≡ agent_failed t agent_id e o s
  unfolding agent_failed
  agent_failed_idem e = ground (
    arith,
    route_job_absorb o (unless_terminal (fail_job (agent_error_text e))) s.jobs
        (fail_unless_terminal_idem (agent_error_text e)),
    touch_agent_idem t agent_id AgentRecordStatus.exited s.agents,
  )

  pub agent_gone_idem :
      agent_gone t agent_id o (agent_gone t agent_id o s) ≡ agent_gone t agent_id o s
  unfolding agent_gone
  agent_gone_idem = ground (
    arith,
    route_job_absorb o (unless_terminal (fail_job "session terminated unexpectedly")) s.jobs
        (fail_unless_terminal_idem "session terminated unexpectedly"),
    touch_agent_idem t agent_id AgentRecordStatus.gone s.agents,
  )

pub agent_waiting_idem :
    (t : ℕ) (agent_id : String) (s : MaterializedState)
    → agent_waiting t agent_id (agent_waiting t agent_id s) ≡ agent_waiting t agent_id s
unfolding agent_waiting
agent_waiting_idem t agent_id s =
    ground (arith, touch_agent_idem t agent_id AgentRecordStatus.idle s.agents)

store_signal_idem :
    (agent_id : String) (g : AgentSignal) (s : MaterializedState)
    → store_signal agent_id g (store_signal agent_id g s) ≡ store_signal agent_id g s
unfolding store_signal
store_signal_idem agent_id g s = ground (
  arith,
  any_value-modify_first (run_has_agent agent_id) (signal_run g) s.agent_runs
      (λ v. unfold run_has_agent signal_run in refl),
  modify_first_absorb (run_has_agent agent_id) (signal_run g) (signal_run g) s.agent_runs
      (λ v. unfold signal_run set_signal in refl) (λ v. unfold run_has_agent signal_run in refl),
  modify_first_absorb (job_has_agent agent_id) (signal_job g) (signal_job g) s.jobs
      (λ v. unfold signal_job set_signal in refl) (λ v. unfold job_has_agent signal_job in refl),
)

pub agent_signal_idem :
    (agent_id : String) (k : AgentSignalKind) (m : Option String) (s : MaterializedState)
    → agent_signal agent_id k m (agent_signal agent_id k m s) ≡ agent_signal agent_id k m s
unfolding agent_signal
agent_signal_idem agent_id AgentSignalKind.continue m s = refl
agent_signal_idem agent_id _ m s = store_signal_idem agent_id _ s
