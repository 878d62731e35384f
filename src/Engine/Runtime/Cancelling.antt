-- ===== src/Engine/Runtime/Cancelling.antt =====
-- A job that is cancelled stays so.
use oddjobs.Prelude.{String, Option, none, some, ◌∙◌, if_intro}
use oddjobs.Prelude.Map
use oddjobs.Prelude.Map.{Map}
use oddjobs.Core.Effect.{Effect}
use oddjobs.Core.Event.{Event}
use oddjobs.Core.Job.{Job}
use oddjobs.Storage.Apply.{apply_event}
use oddjobs.Storage.Apply.Jobs.{start_step}
use oddjobs.Storage.Lookup.{get_job}
use oddjobs.Engine.Breaker.{trips}
use oddjobs.Engine.Steps.{step_start_effects, failure_effects, cancellation_transition_effects}
use oddjobs.Engine.Runtime.{Run, Services, cached_runbook, with_job, require_job}
use oddjobs.Engine.Runtime.Executor.{execute, execute_all}
use oddjobs.Engine.Runtime.Jobs
use oddjobs.Engine.Runtime.Jobs.{emit_notify, break_circuit, run_step, start_defined}
use oddjobs.Engine.Runtime.Transitions.{start_next}
use oddjobs.Engine.Runtime.Related.{IsRelated, cached_runbook-Rel}
use oddjobs.Engine.Runtime.Keeping
use oddjobs.Engine.Runtime.Keeping.{
  Keeps, jobs-Keeps, then-Keeps, give-Keeps, quietly-Keeps, emit-Keeps, execute_all-Keeps,
  kill_session-Keeps, cancel_timer-Keeps, step_failed-Keeps, session_effects-Keep, shell-Keeps,
  raise-Keeps,
}
use oddjobs.Engine.Runtime.Passing.{
  modified-HasJob, cancelling-IsStable, start-cancelling, advanced-cancelling,
}
use oddjobs.Runbook.{RunDirective, StepDef, JobDef, get_step}

-- The part that is a parameter: the start of an agent keeps the flag.
pub record LeaveJobs (v : Services) : Type 0 where
  pub spawned :
      (id job_id agent : String) (input : Map String)
      → IsRelated (Keeps id λ j. j.cancelling) (v.spawn_agent job_id agent input)

module _ (v : Services) (f : LeaveJobs v) (id : String) where
  abbrev KeepsFlag : Run → Type 0
  KeepsFlag = IsRelated (Keeps id λ j. j.cancelling)

  advanced-Keeps :
      (k step : String) → KeepsFlag (execute v (Effect.emit (Event.job_advanced k step)))
  advanced-Keeps k step =
      emit-Keeps v id (λ j. j.cancelling) _ λ s p. advanced-cancelling v.now id k step s p

  started-Keeps : (k step : String) → KeepsFlag (execute_all v (step_start_effects k step))
  unfolding step_start_effects
  started-Keeps k step =
      execute_all-Keeps v id (λ j. j.cancelling) _
        (
          emit-Keeps v id (λ j. j.cancelling) _
              (λ s p.
                unfold apply_event in
                modified-HasJob id k (λ j. j.cancelling) (start_step none none) s.jobs
                  (λ j h. start-cancelling none none j ∙ h) p),
          tt,
        )

  failure_effects-Keeps :
      (job : Job) (error : String) → KeepsFlag (execute_all v (failure_effects job error))
  unfolding failure_effects
  failure_effects-Keeps job error =
      execute_all-Keeps v id (λ j. j.cancelling) _
        (
          cancel_timer-Keeps v id (λ j. j.cancelling) _,
          (
            cancel_timer-Keeps v id (λ j. j.cancelling) _,
            (
              advanced-Keeps job.id "failed",
              (
                step_failed-Keeps v id (λ j. j.cancelling) cancelling-IsStable _ _ _,
                session_effects-Keep v id (λ j. j.cancelling) cancelling-IsStable job.session_id,
              ),
            ),
          ),
        )

  notify-Keeps : (job : Job) (o : Option String) → KeepsFlag (emit_notify v job o)
  unfolding emit_notify
  notify-Keeps job none = give-Keeps v id λ j. j.cancelling
  notify-Keeps job (some t) = Keeping.notify-Keeps v id (λ j. j.cancelling) _ _

  run_step-Keeps :
      (job_id step : String) (job : Job) (input : Map String) (path : String) (run : RunDirective)
      → KeepsFlag (run_step v job_id step job input path run)
  unfolding run_step
  run_step-Keeps job_id step job input path (RunDirective.shell cmd) =
      execute_all-Keeps v id (λ j. j.cancelling) _
        (shell-Keeps v id (λ j. j.cancelling) _ _ _ _ _, tt)
  run_step-Keeps job_id step job input path (RunDirective.agent agent) =
      f.spawned id job_id agent input
  run_step-Keeps job_id step job input path (RunDirective.job name) =
      raise-Keeps v id (λ j. j.cancelling) _

  enter_step-Keeps :
      (job_id step : String) (job : Job) (input : Map String) (path : String) (o : Option StepDef)
      → KeepsFlag (Jobs.enter_step v job_id step job input path o)
  unfolding Jobs.enter_step
  enter_step-Keeps job_id step job input path none = raise-Keeps v id (λ j. j.cancelling) _
  enter_step-Keeps job_id step job input path (some s) =
      then-Keeps v id (λ j. j.cancelling) _ _ (started-Keeps job_id step)
        (run_step-Keeps job_id step job input path s.run)

  start_defined-Keeps :
      (job_id step : String) (job : Job) (input : Map String) (path : String) (o : Option JobDef)
      → KeepsFlag (start_defined v job_id step job input path o)
  unfolding start_defined break_circuit
  start_defined-Keeps job_id step job input path none = raise-Keeps v id (λ j. j.cancelling) _
  start_defined-Keeps job_id step job input path (some def) =
      if_intro KeepsFlag (trips step job) _ _
        (then-Keeps v id (λ j. j.cancelling) _ _ (failure_effects-Keeps job _)
          (notify-Keeps job def.notify.on_fail))
        (enter_step-Keeps job_id step job input path (get_step step def))

  with_job-Keeps :
      (job_id step : String) (input : Map String) (path : String) (o : Option Job)
      → KeepsFlag (
          with_job job_id
            (λ job.
              cached_runbook v job.runbook_hash λ runbook.
                start_defined v job_id step job input path (Map.get job.kind runbook.jobs))
            o)
  unfolding with_job
  with_job-Keeps job_id step input path none w = tt
  with_job-Keeps job_id step input path (some job) w =
      cached_runbook-Rel (Keeps id λ j. j.cancelling) (λ s p. p) (λ es fs s t u a b p. b (a p)) v
        job.runbook_hash _ (λ runbook. start_defined-Keeps job_id step job input path _) w

  pub cancel_rest-Keeps :
      (job : Job) (target : String)
      → KeepsFlag (execute_all v (cancellation_transition_effects job target))
  unfolding cancellation_transition_effects
  cancel_rest-Keeps job target =
      execute_all-Keeps v id (λ j. j.cancelling) _
        (
          step_failed-Keeps v id (λ j. j.cancelling) cancelling-IsStable _ _ _,
          (advanced-Keeps job.id target, tt),
        )

  pub start_next-Keeps : (job : Job) (step : String) → KeepsFlag (start_next v job step)
  unfolding start_next Jobs.start_step require_job
  start_next-Keeps job step w = with_job-Keeps job.id step job.vars _ (get_job job.id w.state) w
