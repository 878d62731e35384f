-- ===== src/Engine/Runtime/Starting.antt =====
-- A step that is done starts the next one.
use oddjobs.Prelude.{String, Option, none, some, List, [], ◌∷◌, false, ◌≡◌, refl, sym, ap, ◌∙◌, ltb}
use mathlib.Core.Option
use mathlib.Core.Path.{subst}
use oddjobs.Prelude.Map
use oddjobs.Prelude.Map.{Map}
use oddjobs.Engine.Vars.{namespace_vars}
use oddjobs.Prelude.Map.Laws.{get-modify_self}
use oddjobs.Core.Effect.{Effect}
use oddjobs.Core.Event.{Event}
use oddjobs.Core.Owner.{OwnerId}
use oddjobs.Core.Job.{
  Job, StepStatus, is_terminal, is_terminal_step, get_step_visits, update_last_open,
  update_current_step_outcome, max_step_visits,
}
use oddjobs.Storage.Apply.{apply_event}
use oddjobs.Storage.Apply.Jobs.{start_step, when_some}
use oddjobs.Engine.Runtime.{
  World, Answer, Services, ◌>>◌, continue_with, prepend, give, quietly, without_events,
  cached_runbook, execution_dir,
}
use oddjobs.Engine.Runtime.Executor.{
  execute, execute_all, execute_inner, emit_event, note_effect, note,
}
use oddjobs.Engine.Runtime.Jobs
use oddjobs.Engine.Runtime.Jobs.{start_defined, run_step, shell_vars, step_of}
use oddjobs.Engine.Runtime.Transitions.{
  start_next, advance_job, advance_in, advance_by, advance_to, step_on_done,
}
use oddjobs.Engine.Runtime.Lost.{cached_runbook-found}
use oddjobs.Engine.Runtime.Stopping.{require_job-found}
use oddjobs.Runbook.{RunDirective, StepDef, JobDef, Runbook, get_step, is_agent}
use oddjobs.Engine.Breaker.{trips}
use oddjobs.Engine.Steps.{step_start_effects, step_transition_effects}
use oddjobs.Engine.Runtime.Arriving.{HasArrived, visits_after, arrives}

-- The last shell command that was started: its owner, its step, its text and its directory.
unfoldable pub last_command : List Effect → Option (Option OwnerId × String × String × String)
last_command [] = none
last_command (Effect.shell owner step command cwd _ ∷ _) = some (owner, step, command, cwd)
last_command (_ ∷ _) = none

-- What a command's template is filled in with: the job's variables under their scope, its id, its
-- name and its directory.
abbrev pub variables_of : Job → Map String
variables_of job =
    Map.insert "workspace" (execution_dir job)
      (Map.insert "name" job.name (Map.insert "job_id" job.id (namespace_vars job.vars)))

-- The run has started the step for the job: the events that it returns, the job in the state, and the
-- command that it started last.
pub record HasStarted (v : Services) (next template : String) (job : Job) (x : World × Answer)
    : Type 0 where
  pub answered :
      x.1
      ≡ Answer.ok (Event.job_advanced job.id next ∷ Event.step_started job.id next none none ∷ [])
  pub started : Job
  pub held : Map.get job.id x.0.state.jobs ≡ some started
  pub on_step : started.step ≡ next
  pub is_running : started.step_status ≡ StepStatus.running
  pub visited : get_step_visits next started ≡ visits_after next job
  pub commanded :
      last_command x.0.performed
      ≡ some (
        some (OwnerId.job job.id),
        next,
        v.interpolate_shell template (variables_of job),
        execution_dir job,
      )

prepend-nil : (x : World × Answer) → prepend [] x ≡ x
unfolding prepend
prepend-nil (w, Answer.ok es) = refl
prepend-nil (w, Answer.err e) = refl

module _ (v : Services) (job : Job) (next : String) (runbook : Runbook) (def : JobDef)
    (found_def : Map.get job.kind runbook.jobs ≡ some def) (there : StepDef) (command : String)
    (found_there : get_step next def ≡ some there)
    (runs : there.run ≡ RunDirective.shell command) where
  -- The effects of the start, on the job that has arrived.
  started-HasStarted :
      (w : World) (effect : Effect)
      → HasArrived next job w.state
      → ((rest : List Effect)
          → last_command (effect ∷ rest)
            ≡ some (
              some (OwnerId.job job.id),
              next,
              v.interpolate_shell command (variables_of job),
              execution_dir job,
            ))
      → HasStarted v next command job (
        note effect (
            note (Effect.emit (Event.step_started job.id next none none)) (record w {
              state = apply_event v.now (Event.step_started job.id next none none) w.state;
            })),
        Answer.ok (Event.job_advanced job.id next ∷ Event.step_started job.id next none none ∷ []),
      )
  unfolding note apply_event
  started-HasStarted w effect a h = record {
    answered = refl;
    started = start_step none none a.arrived;
    held =
        get-modify_self job.id (start_step none none) w.state.jobs
        ∙ ap (Option.map (start_step none none)) a.held;
    on_step = unfold start_step when_some update_current_step_outcome update_last_open in a.on_step;
    is_running = unfold start_step when_some update_current_step_outcome update_last_open in refl;
    visited =
        unfold start_step when_some update_current_step_outcome update_last_open get_step_visits in
        a.visited;
    commanded = h _;
  }

  start_defined-HasStarted :
      (w : World) (a : HasArrived next job w.state)
      → ltb max_step_visits (visits_after next job) ≡ false
      → HasStarted v next command job (
          prepend
            (Event.job_advanced job.id next ∷ [])
            (start_defined v job.id next a.arrived job.vars (execution_dir job) (some def) w))
  unfolding start_defined Jobs.enter_step run_step shell_vars step_start_effects execute_all execute
      execute_inner emit_event note_effect ◌>>◌ continue_with prepend give trips
  start_defined-HasStarted w a calm =
      let calm' : ltb max_step_visits (get_step_visits next a.arrived) ≡ false =
        subst (λ n. ltb max_step_visits n ≡ false) (sym a.visited) calm in
      rw (calm', found_there, runs, a.same_name)
        (started-HasStarted w _ a λ rest. unfold last_command in refl)

  -- The transition is returned, and then the start.
  start_next-HasStarted :
      (w : World)
      → HasArrived next job w.state
      → Map.get job.runbook_hash w.runbook_cache ≡ some runbook
      → ltb max_step_visits (visits_after next job) ≡ false
      → HasStarted v next command job
          (prepend (Event.job_advanced job.id next ∷ []) (start_next v job next w))
  unfolding start_next Jobs.start_step
  start_next-HasStarted w a cache calm =
      let j = a.arrived in
      let start = λ (k : Job).
        cached_runbook v k.runbook_hash λ rb.
          start_defined v job.id next k job.vars (execution_dir job) (Map.get k.kind rb.jobs) in
      rw
        (
          require_job-found job.id start w j a.held,
          cached_runbook-found v j.runbook_hash
              (λ rb.
                start_defined v job.id next j job.vars (execution_dir job) (Map.get j.kind rb.jobs))
              w runbook (ap (λ h. Map.get h w.runbook_cache) a.same_hash ∙ cache),
        )
        (rw (ap (λ k. Map.get k runbook.jobs) a.same_kind ∙ found_def)
          (start_defined-HasStarted w a calm))

  -- The transition to the next step, and its start.
  advance_by-HasStarted :
      (w : World)
      → HasArrived next job (apply_event v.now (Event.job_advanced job.id next) w.state)
      → Map.get job.runbook_hash w.runbook_cache ≡ some runbook
      → ltb max_step_visits (visits_after next job) ≡ false
      → HasStarted v next command job (advance_by v job (some def) (some next) w)
  unfolding advance_by advance_to step_transition_effects execute_all execute execute_inner
      emit_event note_effect note ◌>>◌ continue_with prepend give step_of
  advance_by-HasStarted w a cache calm = rw found_there (
      start_next-HasStarted
        (note (Effect.emit (Event.job_advanced job.id next))
          (record w { state = apply_event v.now (Event.job_advanced job.id next) w.state }))
        a cache calm)

  -- The step that is left is completed.
  advance_in-HasStarted :
      (w : World) (here : StepDef)
      → get_step job.step def ≡ some here
      → is_agent here.run ≡ false
      → here.on_done ≡ some next
      → HasArrived next job (
          apply_event v.now
            (Event.job_advanced job.id next)
            (apply_event v.now (Event.step_completed job.id job.step) w.state))
      → Map.get job.runbook_hash w.runbook_cache ≡ some runbook
      → ltb max_step_visits (visits_after next job) ≡ false
      → HasStarted v next command job (advance_in v job (some def) w)
  unfolding advance_in Jobs.leave_step execute execute_inner emit_event note_effect note ◌>>◌
      continue_with prepend give step_of quietly without_events step_on_done
  advance_in-HasStarted w here found plain goes a cache calm =
      rw (found, plain, goes)
        (subst (HasStarted v next command job) (sym (prepend-nil _)) (
          advance_by-HasStarted
            (note (Effect.emit (Event.step_completed job.id job.step)) (record w {
              state = apply_event v.now (Event.step_completed job.id job.step) w.state;
            }))
            a cache calm))

  -- A live job that the state has under its id leaves a step that runs no agent for the step that
  -- it names as the next one, which the cached runbook has with a shell command: unless the next
  -- step is beyond its limit of visits, advancing the job succeeds and starts that step. The job is
  -- running on it, with one visit more unless it was on it already, and the command that is started
  -- last is that of the step, filled in with the job's variables, in the job's directory.
  pub advance_job-HasStarted :
      (w : World) (here : StepDef)
      → Map.get job.id w.state.jobs ≡ some job
      → Map.get job.runbook_hash w.runbook_cache ≡ some runbook
      → is_terminal job ≡ false
      → is_terminal_step next ≡ false
      → get_step job.step def ≡ some here
      → is_agent here.run ≡ false
      → here.on_done ≡ some next
      → ltb max_step_visits (visits_after next job) ≡ false
      → HasStarted v next command job (advance_job v job w)
  unfolding advance_job
  advance_job-HasStarted w here held cache live moves found plain goes calm =
      rw
        (
          live,
          cached_runbook-found v job.runbook_hash
              (λ rb. advance_in v job (Map.get job.kind rb.jobs)) w runbook cache,
          found_def,
        )
        (advance_in-HasStarted w here found plain goes (arrives v.now next job w.state held moves)
          cache calm)
