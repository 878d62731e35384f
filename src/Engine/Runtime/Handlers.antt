-- ===== src/Engine/Runtime/Handlers.antt =====
-- crates/engine/src/runtime/handlers/lifecycle.rs: the events that are about one job, and
-- crates/daemon/src/lifecycle/mod.rs, `process_event`, for one of them.
use oddjobs.Prelude.{
  ◌++◌, String, Option, none, some, List, [], ◌∷◌, Bool, true, false, not, ◌==◌, if◌then◌else◌,
  is_some,
}
use oddjobs.Prelude.Map
use oddjobs.Prelude.Map.{Map}
use oddjobs.Core.Agent.{ℤ}
use oddjobs.Core.Effect.{Effect}
use oddjobs.Core.Event.{Event}
use oddjobs.Core.Job.{Job, StepRecord, StepOutcome}
use oddjobs.Storage.Lookup.{get_job}
use oddjobs.Storage.Apply.{apply_event}
use oddjobs.Storage.Apply.Agents.{is_exit_zero, int_display}
use oddjobs.Engine.Runtime.{
  Run, RuntimeError, ◌>>◌, quietly, best_effort, give, raise, Services, cached_runbook, require_job,
  execution_dir, deregister_agent,
}
use oddjobs.Engine.Runtime.Executor.{execute}
use oddjobs.Engine.Runtime.Jobs.{start_step, workspace_cleanup_effects}
use oddjobs.Engine.Runtime.Transitions.{advance_job, fail_job, cancel_job}
use oddjobs.Runbook.{RunDirective, StepDef, JobDef, get_step}

unfoldable pub handle_job_cancel : Services → String → Run
handle_job_cancel v job_id = require_job job_id (cancel_job v)

unfoldable pub handle_workspace_drop : Services → String → Run
handle_workspace_drop v workspace_id = quietly (execute v (Effect.delete_workspace workspace_id))

unfoldable pub exited : Services → String → ℤ → Job → Run
exited v step exit_code job =
    if not (job.step == step)
    then give []
    else if is_exit_zero (some exit_code)
    then advance_job v job
    else fail_job v job ("shell exit code: " ++ int_display exit_code)

unfoldable pub handle_shell_exited : Services → String → String → ℤ → Run
handle_shell_exited v job_id step exit_code = require_job job_id (exited v step exit_code)

-- `if let Some(session_id) = &job.session_id { let _ = … }`
unfoldable pub kill_session : Services → Option String → Run
kill_session v none = give []
kill_session v (some session_id) = best_effort (execute v (Effect.kill_session session_id))

unfoldable pub handle_shell_resume : Services → Job → String → Run
handle_shell_resume v job step =
    kill_session v job.session_id >> start_step v job.id step job.vars (execution_dir job)

unfoldable pub is_failure : StepOutcome → Bool
is_failure (StepOutcome.failed _) = true
is_failure _ = false

-- `step_history.iter().rev().find(|r| matches!(r.outcome, StepOutcome::Failed(_)))`, its name.
unfoldable pub last_failed : List StepRecord → Option String
last_failed [] = none
last_failed (r ∷ rs) =
    let rest = last_failed rs in
    if is_some rest then rest else (if is_failure r.outcome then some r.name else none)

unfoldable pub step_to_resume : Job → Option String
step_to_resume job = if job.step == "failed" then last_failed job.step_history else some job.step

-- For an agent step, the message; an error when a running job has none.
pub data Message : Type 0 where
  needless missing : Message
  text : String → Message

resolve_message : RunDirective → Option String → Bool → Message
resolve_message (RunDirective.agent _) (some msg) is_failed = Message.text msg
resolve_message (RunDirective.agent _) none is_failed =
    if is_failed then Message.text "Retrying" else Message.missing
resolve_message _ message is_failed = Message.needless

-- The variables are applied, and the event is dropped.
unfoldable pub update_vars : Services → Job → Map String → Run
update_vars v job [] = give []
update_vars v job (x ∷ vars) =
    quietly (execute v (Effect.emit (Event.job_updated job.id (x ∷ vars))))

unfoldable pub reset_failed : Services → String → Job → String → Run
reset_failed v job_id job step =
    if job.step == "failed"
    then execute v (Effect.emit (Event.job_advanced job_id step))
    else give []

resume_with : Services → String → Job → String → Map String → Bool → RunDirective → Message → Run
resume_with v job_id job step vars kill (RunDirective.agent agent) (Message.text msg) =
    reset_failed v job_id job step
    >> update_vars v job vars
    >> v.resume_agent job step agent msg (Map.insert_all vars job.vars) kill
resume_with v job_id job step vars kill (RunDirective.shell command) _ =
    reset_failed v job_id job step >> update_vars v job vars >> handle_shell_resume v job step
resume_with v job_id job step vars kill (RunDirective.job name) _ =
    reset_failed v job_id job step
    >> update_vars v job vars
    >> raise (RuntimeError.invalid_request step)
resume_with v job_id job step vars kill (RunDirective.agent agent) _ =
    raise (RuntimeError.invalid_request job.id)

resume_step :
    Services → String → Job → String → Option String → Map String → Bool → Option StepDef → Run
resume_step v job_id job step message vars kill none = raise (RuntimeError.step_not_found step)
resume_step v job_id job step message vars kill (some s) =
    resume_with v job_id job step vars kill s.run
      (resolve_message s.run message (job.step == "failed"))

resume_in :
    Services → String → Job → String → Option String → Map String → Bool → Option JobDef → Run
resume_in v job_id job step message vars kill none = raise (RuntimeError.job_def_not_found job.kind)
resume_in v job_id job step message vars kill (some p) =
    resume_step v job_id job step message vars kill (get_step step p)

resume_from : Services → String → Job → Option String → Map String → Bool → Option String → Run
resume_from v job_id job message vars kill none =
    raise (RuntimeError.invalid_request "no failed step found in history")
resume_from v job_id job message vars kill (some step) =
    cached_runbook v job.runbook_hash
      λ runbook. resume_in v job_id job step message vars kill (Map.get job.kind runbook.jobs)

unfoldable pub handle_job_resume : Services → String → Option String → Map String → Bool → Run
unfolding resume_from resume_in resume_step resume_with resolve_message
handle_job_resume v job_id message vars kill =
    require_job job_id λ job. resume_from v job_id job message vars kill (step_to_resume job)

-- The agents that the job's steps name.
unfoldable pub agents_of : List StepRecord → List String
agents_of [] = []
agents_of (r ∷ rs) = elim r.agent_id [
  | some agent_id ↦ agent_id ∷ agents_of rs
  | none ↦ agents_of rs
]

unfoldable pub deregister_all : List String → Run
deregister_all [] = give []
deregister_all (a ∷ agents) = deregister_agent (some a) >> deregister_all agents

unfoldable pub kill_all : Services → List String → Run
kill_all v [] = give []
kill_all v (a ∷ agents) = best_effort (execute v (Effect.kill_agent a)) >> kill_all v agents

unfoldable pub drop_session : Services → Option String → Run
drop_session v none = give []
drop_session v (some id) =
    best_effort (execute v (Effect.kill_session id))
    >> best_effort (execute v (Effect.emit (Event.session_deleted id)))

unfoldable pub try_all : Services → List Effect → Run
try_all v [] = give []
try_all v (e ∷ effects) = best_effort (execute v e) >> try_all v effects

-- The cleanup after the timers of the job are cancelled, which changes nothing else.
unfoldable pub clean_up_job : Services → Option Job → Run
clean_up_job v none = give []
clean_up_job v (some job) =
    deregister_all (agents_of job.step_history)
    >> kill_all v (agents_of job.step_history)
    >> drop_session v job.session_id
    >> λ w. try_all v (workspace_cleanup_effects job w.state) w

unfoldable pub handle_job_deleted : Services → String → Run
handle_job_deleted v job_id w = clean_up_job v (get_job job_id w.state) w

-- `process_event` for `JobDeleted`: the event is applied before its handler runs.
unfoldable pub process_job_deleted : Services → String → Run
process_job_deleted v job_id w =
    handle_job_deleted v job_id
      (record w { state = apply_event v.now (Event.job_deleted job_id) w.state })
