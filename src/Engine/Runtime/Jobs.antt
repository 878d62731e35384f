-- ===== src/Engine/Runtime/Jobs.antt =====
-- crates/engine/src/runtime/job.rs: starting a step, and advancing, failing, completing and cancelling
-- a job.
use oddjobs.Prelude.{
  String, Option, none, some, List, [], ◌∷◌, Bool, false, ◌==◌, if◌then◌else◌, is_some,
}
use oddjobs.Prelude.Map
use oddjobs.Prelude.Map.{Map}
use oddjobs.Core.Effect.{Effect}
use oddjobs.Core.Job.{Job, StepRecord, get_step_visits}
use oddjobs.Core.Owner.{OwnerId, owner_eq}
use oddjobs.Core.Timer.{liveness, exit_deferred}
use oddjobs.Storage.State.{MaterializedState, Workspace}
use oddjobs.Engine.Breaker.{trips, breaker_error}
use oddjobs.Engine.Steps.{step_start_effects, session_effects, failure_effects}
use oddjobs.Engine.Vars.{namespace_vars}
use oddjobs.Engine.Runtime.{
  Run, RuntimeError, ◌>>◌, quietly, give, raise, Services, match_runbook, cached_runbook,
  require_job, deregister_agent,
}
use oddjobs.Engine.Runtime.Executor.{execute, execute_all}
use oddjobs.Runbook.{RunDirective, StepDef, JobDef, get_step, is_agent}

unfoldable pub with_error : Option String → Map String → Map String
with_error none vars = vars
with_error (some err) vars = Map.insert "error" err vars

unfoldable pub notify_vars : Job → Map String
notify_vars job =
    with_error job.error
      (Map.insert "name" job.name (Map.insert "job_id" job.id (namespace_vars job.vars)))

-- The message is a template; there may be none.
unfoldable pub emit_notify : Services → Job → Option String → Run
emit_notify v job none = give []
emit_notify v job (some template) =
    execute v (Effect.notify job.name (v.interpolate template (notify_vars job)))

-- `step_visits` was raised when the job advanced to the step.
unfoldable pub break_circuit : Services → Job → JobDef → String → Run
break_circuit v job job_def step_name =
    let error = breaker_error step_name (get_step_visits step_name job) in
    execute_all v (failure_effects job error) >> emit_notify v job job_def.notify.on_fail

unfoldable pub shell_vars : String → Job → Map String → String → Map String
shell_vars job_id job input workspace_path =
    Map.insert "workspace" workspace_path
      (Map.insert "name" job.name (Map.insert "job_id" job_id (namespace_vars input)))

-- `for (key, value) in user_env { shell_env.entry(key).or_insert(value); }`
unfoldable pub or_insert_all : List (String × String) → Map String → Map String
or_insert_all [] env = env
or_insert_all ((k, x) ∷ user_env) env = or_insert_all user_env (Map.or_insert k x env)

unfoldable pub shell_env : Services → Job → Map String
shell_env v job =
    or_insert_all (v.merged_env job.namespace)
      (if job.namespace == "" then [] else ("OJ_NAMESPACE", job.namespace) ∷ [])

-- The dispatch on the run directive.
unfoldable pub run_step :
    Services → String → String → Job → Map String → String → RunDirective → Run
run_step v job_id step_name job input workspace_path (RunDirective.shell cmd) =
    let command = v.interpolate_shell cmd (shell_vars job_id job input workspace_path) in
    let owner = some (OwnerId.job job_id) in
    execute_all v (Effect.shell owner step_name command workspace_path (shell_env v job) ∷ [])
run_step v job_id step_name job input workspace_path (RunDirective.agent agent) =
    v.spawn_agent job_id agent input
run_step v job_id step_name job input workspace_path (RunDirective.job name) =
    raise (RuntimeError.invalid_run_directive step_name name)

unfoldable pub enter_step :
    Services → String → String → Job → Map String → String → Option StepDef → Run
enter_step v job_id step_name job input workspace_path none =
    raise (RuntimeError.job_not_found step_name)
enter_step v job_id step_name job input workspace_path (some step_def) =
    execute_all v (step_start_effects job_id step_name)
    >> run_step v job_id step_name job input workspace_path step_def.run

unfoldable pub start_defined :
    Services → String → String → Job → Map String → String → Option JobDef → Run
start_defined v job_id step_name job input workspace_path none =
    raise (RuntimeError.job_def_not_found job.kind)
start_defined v job_id step_name job input workspace_path (some job_def) =
    if trips step_name job
    then break_circuit v job job_def step_name
    else enter_step v job_id step_name job input workspace_path (get_step step_name job_def)

unfoldable pub start_step : Services → String → String → Map String → String → Run
start_step v job_id step_name input workspace_path = require_job job_id λ job.
    cached_runbook v job.runbook_hash λ runbook.
      start_defined v job_id step_name job input workspace_path (Map.get job.kind runbook.jobs)

-- `step_history.iter().rfind(|r| r.name == job.step)`
unfoldable pub last_record : String → List StepRecord → Option StepRecord
last_record step [] = none
last_record step (r ∷ rs) =
    let rest = last_record step rs in
    if is_some rest then rest else (if r.name == step then some r else none)

unfoldable pub agent_of : Option StepRecord → Option String
agent_of none = none
agent_of (some r) = r.agent_id

-- Cancel the timers, forget the agent and kill its session; the events are not returned.
unfoldable pub leave_agent : Services → Job → Run
leave_agent v job =
    quietly (execute v (Effect.cancel_timer (liveness job.id)))
    >> quietly (execute v (Effect.cancel_timer (exit_deferred job.id)))
    >> deregister_agent (agent_of (last_record job.step job.step_history))
    >> quietly (execute_all v (session_effects job.session_id))

unfoldable pub leave_step : Services → Option StepDef → Job → Run
leave_step v none job = give []
leave_step v (some s) job = if is_agent s.run then leave_agent v job else give []

-- `job_def.and_then(|p| p.get_step(name))`
unfoldable pub step_of : String → Option JobDef → Option StepDef
step_of name none = none
step_of name (some p) = get_step name p

unfoldable pub is_owned_by : String → Workspace → Bool
is_owned_by job_id ws = elim ws.owner [
  | none ↦ false
  | some owner ↦ owner_eq owner (OwnerId.job job_id)
]

unfoldable pub first_owned : String → Map Workspace → Option String
first_owned job_id [] = none
first_owned job_id ((k, ws) ∷ workspaces) =
    let rest = first_owned job_id workspaces in if is_owned_by job_id ws then some ws.id else rest

-- The job's workspace, or else one that the job owns.
unfoldable pub workspace_of : Job → MaterializedState → Option String
workspace_of job s = elim job.workspace_id [
  | some ws_id ↦ some ws_id
  | none ↦ first_owned job.id s.workspaces
]

unfoldable pub delete_if_there : Option String → MaterializedState → List Effect
delete_if_there none s = []
delete_if_there (some ws_id) s =
    if Map.contains_key ws_id s.workspaces then Effect.delete_workspace ws_id ∷ [] else []

unfoldable pub workspace_cleanup_effects : Job → MaterializedState → List Effect
workspace_cleanup_effects job s = delete_if_there (workspace_of job s) s

unfoldable pub on_done_of : Option JobDef → Option String
on_done_of none = none
on_done_of (some p) = p.notify.on_done

-- The notification only if the runbook is found.
unfoldable pub notify_done : Services → Job → Run
notify_done v job =
    match_runbook v job.runbook_hash (λ e. give [])
      λ runbook. emit_notify v job (on_done_of (Map.get job.kind runbook.jobs))
