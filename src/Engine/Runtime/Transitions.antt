-- ===== src/Engine/Runtime/Transitions.antt =====
-- crates/engine/src/runtime/job.rs: how a job goes on when a step is done, fails or is cancelled.
use oddjobs.Prelude.{String, Option, none, some, List, [], ◌&&◌, ◌||◌, ◌==◌, if◌then◌else◌, is_none}
use oddjobs.Prelude.Map
use oddjobs.Core.Effect.{Effect}
use oddjobs.Core.Event.{Event}
use oddjobs.Core.Job.{Job, is_terminal}
use oddjobs.Engine.Steps.{
  step_transition_effects, failure_transition_effects, failure_effects, cancellation_effects,
  cancellation_transition_effects, completion_effects, append_effects,
}
use oddjobs.Engine.Runtime.{Run, ◌>>◌, quietly, give, Services, cached_runbook, execution_dir}
use oddjobs.Engine.Runtime.Executor.{execute, execute_all}
use oddjobs.Engine.Runtime.Completion.{check_worker_job_complete}
use oddjobs.Engine.Runtime.Jobs.{
  start_step, leave_step, step_of, workspace_cleanup_effects, notify_done, emit_notify,
}
use oddjobs.Runbook.{StepDef, JobDef}

-- The effects that end the job and those that clean up its workspace.
unfoldable pub execute_with_cleanup : Services → Job → List Effect → Run
execute_with_cleanup v job effects w =
    execute_all v (append_effects effects (workspace_cleanup_effects job w.state)) w

unfoldable pub complete_job : Services → Job → Run
complete_job v job =
    execute_with_cleanup v job (completion_effects job)
    >> check_worker_job_complete v job.id "done"
    >> notify_done v job

unfoldable pub start_next : Services → Job → String → Run
start_next v job step = start_step v job.id step job.vars (execution_dir job)

-- The job has no handler that stays: it is cancelled for good.
unfoldable pub end_cancelled : Services → Job → Run
end_cancelled v job =
    execute_with_cleanup v job (cancellation_effects job)
    >> check_worker_job_complete v job.id "cancelled"

unfoldable pub end_done : Services → Job → Run
end_done v job = execute_all v (step_transition_effects job "done") >> complete_job v job

unfoldable pub job_on_done : Option JobDef → Option String
job_on_done none = none
job_on_done (some p) = p.on_done

unfoldable pub job_on_fail : Option JobDef → Option String
job_on_fail none = none
job_on_fail (some p) = p.on_fail

unfoldable pub job_on_cancel : Option JobDef → Option String
job_on_cancel none = none
job_on_cancel (some p) = p.on_cancel

unfoldable pub step_on_done : Option StepDef → Option String
step_on_done none = none
step_on_done (some s) = s.on_done

unfoldable pub step_on_fail : Option StepDef → Option String
step_on_fail none = none
step_on_fail (some s) = s.on_fail

unfoldable pub step_on_cancel : Option StepDef → Option String
step_on_cancel none = none
step_on_cancel (some s) = s.on_cancel

unfoldable pub advance_to : Services → Job → Option JobDef → String → Run
advance_to v job job_def next_step =
    let completes =
      is_none (step_of next_step job_def) && (next_step == "done" || next_step == "failed") in
    execute_all v (step_transition_effects job next_step)
    >> (if completes then complete_job v job else start_next v job next_step)

-- The job's own `on_done`, unless the job is on that step.
unfoldable pub advance_finally : Services → Job → Option String → Run
advance_finally v job none = if job.cancelling then end_cancelled v job else end_done v job
advance_finally v job (some on_done_step) =
    if job.step == on_done_step
    then end_done v job
    else execute_all v (step_transition_effects job on_done_step) >> start_next v job on_done_step

unfoldable pub advance_by : Services → Job → Option JobDef → Option String → Run
advance_by v job job_def (some next_step) = advance_to v job job_def next_step
advance_by v job job_def none = advance_finally v job (job_on_done job_def)

unfoldable pub advance_in : Services → Job → Option JobDef → Run
advance_in v job job_def =
    leave_step v (step_of job.step job_def) job
    >> quietly (execute v (Effect.emit (Event.step_completed job.id job.step)))
    >> advance_by v job job_def (step_on_done (step_of job.step job_def))

unfoldable pub advance_job : Services → Job → Run
advance_job v job =
    if is_terminal job
    then complete_job v job
    else cached_runbook v job.runbook_hash
        λ runbook. advance_in v job (Map.get job.kind runbook.jobs)

unfoldable pub end_failed : Services → Job → String → Run
end_failed v job error =
    execute_all v (failure_effects job error) >> check_worker_job_complete v job.id "failed"

unfoldable pub fail_to : Services → Job → String → String → Run
fail_to v job on_fail_step error =
    execute_all v (failure_transition_effects job on_fail_step error)
    >> start_next v job on_fail_step

unfoldable pub notify_fail : Services → Job → Option JobDef → Run
notify_fail v job none = give []
notify_fail v job (some p) = emit_notify v job p.notify.on_fail

-- The job's own `on_fail`, unless the job is on that step. Only a job without one is notified.
unfoldable pub fail_finally : Services → Job → Option JobDef → String → Option String → Run
fail_finally v job job_def error none = end_failed v job error >> notify_fail v job job_def
fail_finally v job job_def error (some on_fail_step) =
    if job.step == on_fail_step then end_failed v job error else fail_to v job on_fail_step error

unfoldable pub fail_by : Services → Job → Option JobDef → String → Option String → Run
fail_by v job job_def error (some on_fail_step) = fail_to v job on_fail_step error
fail_by v job job_def error none = fail_finally v job job_def error (job_on_fail job_def)

unfoldable pub fail_in : Services → Job → String → Option JobDef → Run
fail_in v job error job_def =
    leave_step v (step_of job.step job_def) job
    >> fail_by v job job_def error (step_on_fail (step_of job.step job_def))

unfoldable pub fail_job : Services → Job → String → Run
fail_job v job error =
    cached_runbook v job.runbook_hash λ runbook. fail_in v job error (Map.get job.kind runbook.jobs)

unfoldable pub cancel_to : Services → Job → String → Run
cancel_to v job target =
    execute v (Effect.emit (Event.job_cancelling job.id))
    >> execute_all v (cancellation_transition_effects job target)
    >> start_next v job target

-- The job's own `on_cancel`, unless the job is on that step.
unfoldable pub cancel_finally : Services → Job → Option String → Run
cancel_finally v job none = end_cancelled v job
cancel_finally v job (some target) =
    if job.step == target then end_cancelled v job else cancel_to v job target

unfoldable pub cancel_by : Services → Job → Option JobDef → Option String → Run
cancel_by v job job_def (some target) = cancel_to v job target
cancel_by v job job_def none = cancel_finally v job (job_on_cancel job_def)

unfoldable pub cancel_in : Services → Job → Option JobDef → Run
cancel_in v job job_def =
    leave_step v (step_of job.step job_def) job
    >> cancel_by v job job_def (step_on_cancel (step_of job.step job_def))

unfoldable pub cancel_job : Services → Job → Run
cancel_job v job =
    if is_terminal job || job.cancelling
    then give []
    else cached_runbook v job.runbook_hash
        λ runbook. cancel_in v job (Map.get job.kind runbook.jobs)
