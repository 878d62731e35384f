-- ===== src/Storage/Idempotent/Steps.antt =====
-- The other handlers of jobs and steps, made twice.
use oddjobs.Prelude.{
  ℕ, String, Option, none, some, true, ◌≡◌, refl, arith, unwrap_or, modify_last_absorb,
  modify_last_fuse, modify_last,
}
use oddjobs.Prelude.Map
use mathlib.Core.Option
use oddjobs.Prelude.Map.{Map}
use oddjobs.Prelude.Map.Laws.{
  modify_absorb, get-modify_self, retain_idem, insert_absorb, or_insert_absorb, remove_idem,
}
use oddjobs.Prelude.Map.Bulk.{insert_all_idem}
use oddjobs.Core.Agent.{ℤ, AgentRecord}
use oddjobs.Core.Job.{
  Job, JobConfig, StepStatus, StepRecord, StepOutcome, if_open, update_last_open,
  update_current_step_outcome, set_current_step_agent_id, set_current_step_agent_name,
}
use oddjobs.Storage.State.{MaterializedState}
use oddjobs.Storage.Apply.Jobs.{
  shell_exited, job_created, step_started, step_waiting, step_completed, step_failed,
  job_cancelling, job_deleted, job_updated, start_step, when_some, index_agent, wait_step,
  embedded_agent, exit_shell, complete_step, fail_step,
}
use oddjobs.Storage.Idempotent.Jobs.{complete_step_absorb, fail_step_absorb, exit_shell_absorb}

pub shell_exited_absorb :
    (t t' : ℕ) (id : String) (c : ℤ) (s : MaterializedState)
    → shell_exited t' id c (shell_exited t id c s) ≡ shell_exited t id c s
unfolding shell_exited
shell_exited_absorb t t' id c s =
    ground
      (arith, modify_absorb id (exit_shell c t) (exit_shell c t') s.jobs (exit_shell_absorb c t t'))

pub step_completed_absorb :
    (t t' : ℕ) (id : String) (s : MaterializedState)
    → step_completed t' id (step_completed t id s) ≡ step_completed t id s
unfolding step_completed
step_completed_absorb t t' id s = ground (
  arith,
  modify_absorb id (complete_step t) (complete_step t') s.jobs (complete_step_absorb t t'),
)

pub step_failed_absorb :
    (t t' : ℕ) (id e : String) (s : MaterializedState)
    → step_failed t' id e (step_failed t id e s) ≡ step_failed t id e s
unfolding step_failed
step_failed_absorb t t' id e s =
    ground
      (arith, modify_absorb id (fail_step e t) (fail_step e t') s.jobs (fail_step_absorb e t t'))

pub job_created_absorb :
    (c : JobConfig) (t : ℕ) (s : MaterializedState)
    → job_created c t (job_created c t s) ≡ job_created c t s
unfolding job_created
job_created_absorb c t s = simp insert_absorb

-- What `start_step` does to the last record.
name_record : (String → StepRecord → StepRecord) → Option String → StepRecord → StepRecord
name_record f none r = r
name_record f (some t) r = if_open (f t) r

start_record : Option String → Option String → StepRecord → StepRecord
unfolding name_record
start_record a n r =
    if_open (λ q. record q { outcome = StepOutcome.running })
      (name_record (λ t q. record q { agent_name = some t }) n
        (name_record (λ t q. record q { agent_id = some t }) a r))

start_record_idem :
    (a n : Option String) (r : StepRecord)
    → start_record a n (start_record a n r) ≡ start_record a n r
unfolding start_record if_open
start_record_idem a n r = ground arith

start_step_lem :
    (a n : Option String) (j : Job)
    → start_step a n j ≡ record j {
      step_status = StepStatus.running;
      step_history = modify_last (start_record a n) j.step_history;
    }
unfolding start_step when_some update_last_open update_current_step_outcome
    set_current_step_agent_id set_current_step_agent_name start_record
start_step_lem none none j = refl
start_step_lem none (some n) j = simp modify_last_fuse
start_step_lem (some a) none j = simp modify_last_fuse
start_step_lem (some a) (some n) j = simp modify_last_fuse

start_step_absorb :
    (a n : Option String) (j : Job) → start_step a n (start_step a n j) ≡ start_step a n j
start_step_absorb a n j =
    rw
      (
        start_step_lem a n (start_step a n j),
        start_step_lem a n j,
        modify_last_absorb (start_record a n) (start_record a n) j.step_history
            (start_record_idem a n),
      )
      refl

wait_history :
    (o : StepOutcome) (j : Job)
    → modify_last
        (if_open (λ r. record r { outcome = o }))
        (modify_last (if_open (λ r. record r { outcome = o })) j.step_history)
      ≡ modify_last (if_open (λ r. record r { outcome = o })) j.step_history
unfolding if_open
wait_history o j = modify_last_absorb _ _ j.step_history (λ r. ground arith)

wait_step_absorb :
    (r d : Option String) (j : Job) → wait_step r d (wait_step r d j) ≡ wait_step r d j
unfolding wait_step update_last_open update_current_step_outcome
wait_step_absorb r d j = ground (arith, wait_history (StepOutcome.waiting (unwrap_or r "")) j)

index_agent_absorb :
    (t t' : ℕ) (id : String) (a n : Option String) (o : Option Job) (m : Map AgentRecord)
    → index_agent t' id a n (Option.map (start_step a n) o) (index_agent t id a n o m)
      ≡ index_agent t id a n o m
unfolding index_agent
index_agent_absorb t t' id none n none m = refl
index_agent_absorb t t' id none n (some j) m = refl
index_agent_absorb t t' id (some a) n none m = refl
index_agent_absorb t t' id (some a) n (some j) m =
    or_insert_absorb a (embedded_agent t id a n j)
      (embedded_agent t' id a n (start_step (some a) n j)) m

pub step_started_absorb :
    (t t' : ℕ) (id : String) (a n : Option String) (s : MaterializedState)
    → step_started t' id a n (step_started t id a n s) ≡ step_started t id a n s
unfolding step_started
step_started_absorb t t' id a n s = ground (
  arith,
  modify_absorb id (start_step a n) (start_step a n) s.jobs (start_step_absorb a n),
  get-modify_self id (start_step a n) s.jobs,
  index_agent_absorb t t' id a n (Map.get id s.jobs) s.agents,
)

pub step_waiting_idem :
    (id : String) (r d : Option String) (s : MaterializedState)
    → step_waiting id r d (step_waiting id r d s) ≡ step_waiting id r d s
unfolding step_waiting
step_waiting_idem id r d s =
    ground (arith, modify_absorb id (wait_step r d) (wait_step r d) s.jobs (wait_step_absorb r d))

pub job_cancelling_idem :
    (id : String) (s : MaterializedState)
    → job_cancelling id (job_cancelling id s) ≡ job_cancelling id s
unfolding job_cancelling
job_cancelling_idem id s = ground (
  arith,
  modify_absorb id (λ (j : Job). record j { cancelling = true })
      (λ j. record j { cancelling = true }) s.jobs (λ j. refl),
)

pub job_deleted_idem :
    (id : String) (s : MaterializedState) → job_deleted id (job_deleted id s) ≡ job_deleted id s
unfolding job_deleted
job_deleted_idem id s = simp (remove_idem, retain_idem)

pub job_updated_idem :
    (id : String) (vars : Map String) (s : MaterializedState)
    → job_updated id vars (job_updated id vars s) ≡ job_updated id vars s
unfolding job_updated
job_updated_idem id vars s = ground (
  arith,
  modify_absorb id (λ (j : Job). record j { vars = Map.insert_all vars j.vars })
      (λ j. record j { vars = Map.insert_all vars j.vars }) s.jobs
      (λ j. ground (arith, insert_all_idem vars j.vars)),
)
