-- ===== src/Engine/Runtime/Durable.antt =====
-- What the log keeps of the transitions of a job.
use oddjobs.Prelude.{
  String, Option, none, some, List, [], ◌∷◌, refl, inl, inr, ◌==◌, ◌&&◌, ◌||◌, is_none, if_intro,
}
use oddjobs.Prelude.Map
use oddjobs.Prelude.Map.{Map}
use oddjobs.Core.Event.{Event, Value}
use oddjobs.Core.Job.{Job}
use oddjobs.Storage.State.{MaterializedState}
use oddjobs.Storage.Lookup.{get_job}
use oddjobs.Storage.Apply.{apply_event}
use oddjobs.Engine.Breaker.{trips}
use oddjobs.Engine.Steps.{
  step_start_effects, step_transition_effects, failure_transition_effects,
  cancellation_transition_effects,
}
use oddjobs.Engine.Runtime.{Services, cached_runbook, require_job, with_job}
use oddjobs.Engine.Runtime.Completion.{check_worker_job_complete}
use oddjobs.Engine.Runtime.Jobs.{
  break_circuit, run_step, enter_step, start_defined, start_step, notify_done, step_of,
}
use oddjobs.Engine.Runtime.Transitions.{
  complete_job, start_next, end_cancelled, end_failed, end_done, fail_to, cancel_to, advance_by,
  advance_to, advance_finally, notify_fail, fail_by, fail_finally, cancel_finally, cancel_by,
  job_on_done, job_on_fail, job_on_cancel,
}
use oddjobs.Engine.Runtime.Applied.{Accounts, ReturnsAll, then-ReturnsAll, give-ReturnsAll}
use oddjobs.Engine.Runtime.Executed.{lost_by, execute-ReturnsAll, execute_all-ReturnsAll}
use oddjobs.Engine.Runtime.Logged.{
  IsLoggedBy, IsLoad, append-IsLoggedBy, refresh_worker_runbook-OnOk,
}
use oddjobs.Engine.Runtime.Related.{check-Rel}
use oddjobs.Engine.Runtime.Returned.{
  poll_queue-ReturnsAll, emit-ReturnsAll, raise-ReturnsAll, set_timer-ReturnsAll,
  match_runbook-ReturnsAll, cached_runbook-ReturnsAll, emit_notify-ReturnsAll,
  failure_effects-AllHandled, cancellation_effects-AllHandled, completion_effects-AllHandled,
  execute_with_cleanup-ReturnsAll,
}
use oddjobs.Runbook.{RunDirective, StepDef, JobDef, get_step}

-- The part that is a parameter, the start of an agent, returns what it applies.
pub record AreFaithful (v : Services) : Type 0 where
  pub spawned :
      (job_id agent : String) (input : Map String) → ReturnsAll (v.spawn_agent job_id agent input)

-- The event of a poll does not change the state.
polled-IsLoggedBy :
    (v : Services) (name : String) (items : List Value) (s : MaterializedState)
    → IsLoggedBy (Event.worker_poll_complete name items ∷ []) s s
unfolding apply_event
polled-IsLoggedBy v name items s = inl (v.now, refl)

module _ (v : Services) (f : AreFaithful v) where
  check-ReturnsAll :
      (job_id terminal_step : String)
      → ReturnsAll (check_worker_job_complete v job_id terminal_step)
  check-ReturnsAll =
      check-Rel IsLoggedBy (λ s. refl) append-IsLoggedBy v (λ e k. emit-ReturnsAll v e)
        (set_timer-ReturnsAll v) (poll_queue-ReturnsAll v) (polled-IsLoggedBy v)
        λ name w.
          refresh_worker_runbook-OnOk (Accounts [] w.state) v name w refl
            λ hash json. inr (IsLoad.loaded hash 1 json, refl)

  run_step-ReturnsAll :
      (job_id step_name : String) (job : Job) (input : Map String) (path : String)
      (run : RunDirective)
      → ReturnsAll (run_step v job_id step_name job input path run)
  unfolding run_step lost_by
  run_step-ReturnsAll job_id step_name job input path (RunDirective.shell cmd) =
      execute_all-ReturnsAll v _ (refl, tt)
  run_step-ReturnsAll job_id step_name job input path (RunDirective.agent agent) =
      f.spawned job_id agent input
  run_step-ReturnsAll job_id step_name job input path (RunDirective.job name) = raise-ReturnsAll _

  enter_step-ReturnsAll :
      (job_id step_name : String) (job : Job) (input : Map String) (path : String)
      (s : Option StepDef)
      → ReturnsAll (enter_step v job_id step_name job input path s)
  unfolding enter_step step_start_effects
  enter_step-ReturnsAll job_id step_name job input path none = raise-ReturnsAll _
  enter_step-ReturnsAll job_id step_name job input path (some s) =
      then-ReturnsAll _ _ (emit-ReturnsAll v _)
        (run_step-ReturnsAll job_id step_name job input path s.run)

  start_defined-ReturnsAll :
      (job_id step_name : String) (job : Job) (input : Map String) (path : String)
      (def : Option JobDef)
      → ReturnsAll (start_defined v job_id step_name job input path def)
  unfolding start_defined break_circuit
  start_defined-ReturnsAll job_id step_name job input path none = raise-ReturnsAll _
  start_defined-ReturnsAll job_id step_name job input path (some def) =
      if_intro ReturnsAll (trips step_name job) _ _
        (then-ReturnsAll _ _ (execute_all-ReturnsAll v _ (failure_effects-AllHandled job _))
          (emit_notify-ReturnsAll v job def.notify.on_fail))
        (enter_step-ReturnsAll job_id step_name job input path (get_step step_name def))

  started-ReturnsAll :
      (job_id step_name : String) (input : Map String) (path : String) (o : Option Job)
      → ReturnsAll (
          with_job job_id
            (λ job. cached_runbook v job.runbook_hash λ runbook.
              start_defined v job_id step_name job input path (Map.get job.kind runbook.jobs))
            o)
  unfolding with_job
  started-ReturnsAll job_id step_name input path none w = tt
  started-ReturnsAll job_id step_name input path (some job) w =
      cached_runbook-ReturnsAll v job.runbook_hash _
        (λ runbook. start_defined-ReturnsAll job_id step_name job input path _) w

  pub start_next-ReturnsAll : (job : Job) (step : String) → ReturnsAll (start_next v job step)
  unfolding start_next start_step require_job
  start_next-ReturnsAll job step w =
      started-ReturnsAll job.id step job.vars _ (get_job job.id w.state) w

  pub complete_job-ReturnsAll : (job : Job) → ReturnsAll (complete_job v job)
  unfolding complete_job notify_done
  complete_job-ReturnsAll job =
      then-ReturnsAll _ _
        (then-ReturnsAll _ _
          (execute_with_cleanup-ReturnsAll v job _ (completion_effects-AllHandled job))
          (check-ReturnsAll job.id "done"))
        (match_runbook-ReturnsAll v job.runbook_hash _ _ (λ e. give-ReturnsAll)
          λ runbook. emit_notify-ReturnsAll v job _)

  end_cancelled-ReturnsAll : (job : Job) → ReturnsAll (end_cancelled v job)
  unfolding end_cancelled
  end_cancelled-ReturnsAll job =
      then-ReturnsAll _ _
        (execute_with_cleanup-ReturnsAll v job _ (cancellation_effects-AllHandled job))
        (check-ReturnsAll job.id "cancelled")

  end_failed-ReturnsAll : (job : Job) (error : String) → ReturnsAll (end_failed v job error)
  unfolding end_failed
  end_failed-ReturnsAll job error =
      then-ReturnsAll _ _ (execute_all-ReturnsAll v _ (failure_effects-AllHandled job error))
        (check-ReturnsAll job.id "failed")

  end_done-ReturnsAll : (job : Job) → ReturnsAll (end_done v job)
  unfolding end_done step_transition_effects
  end_done-ReturnsAll job = then-ReturnsAll _ _ (emit-ReturnsAll v _) (complete_job-ReturnsAll job)

  fail_to-ReturnsAll : (job : Job) (step error : String) → ReturnsAll (fail_to v job step error)
  unfolding fail_to failure_transition_effects lost_by
  fail_to-ReturnsAll job step error =
      then-ReturnsAll _ _ (execute_all-ReturnsAll v _ (refl, (refl, tt)))
        (start_next-ReturnsAll job step)

  cancel_to-ReturnsAll : (job : Job) (target : String) → ReturnsAll (cancel_to v job target)
  unfolding cancel_to cancellation_transition_effects lost_by
  cancel_to-ReturnsAll job target =
      then-ReturnsAll _ _
        (then-ReturnsAll _ _ (execute-ReturnsAll v _ refl)
          (execute_all-ReturnsAll v _ (refl, (refl, tt))))
        (start_next-ReturnsAll job target)

  advance_finally-ReturnsAll :
      (job : Job) (o : Option String) → ReturnsAll (advance_finally v job o)
  unfolding advance_finally step_transition_effects
  advance_finally-ReturnsAll job none =
      if_intro ReturnsAll job.cancelling _ _ (end_cancelled-ReturnsAll job)
        (end_done-ReturnsAll job)
  advance_finally-ReturnsAll job (some step) =
      if_intro ReturnsAll (job.step == step) _ _ (end_done-ReturnsAll job)
        (then-ReturnsAll _ _ (emit-ReturnsAll v _) (start_next-ReturnsAll job step))

  pub advance_by-ReturnsAll :
      (job : Job) (def : Option JobDef) (o : Option String) → ReturnsAll (advance_by v job def o)
  unfolding advance_by advance_to step_transition_effects
  advance_by-ReturnsAll job def (some next_step) = then-ReturnsAll _ _ (emit-ReturnsAll v _) (
      if_intro ReturnsAll
        (is_none (step_of next_step def) && (next_step == "done" || next_step == "failed")) _ _
        (complete_job-ReturnsAll job) (start_next-ReturnsAll job next_step))
  advance_by-ReturnsAll job def none = advance_finally-ReturnsAll job (job_on_done def)

  notify_fail-ReturnsAll : (job : Job) (def : Option JobDef) → ReturnsAll (notify_fail v job def)
  unfolding notify_fail
  notify_fail-ReturnsAll job none = give-ReturnsAll
  notify_fail-ReturnsAll job (some p) = emit_notify-ReturnsAll v job p.notify.on_fail

  fail_finally-ReturnsAll :
      (job : Job) (def : Option JobDef) (error : String) (o : Option String)
      → ReturnsAll (fail_finally v job def error o)
  unfolding fail_finally
  fail_finally-ReturnsAll job def error none =
      then-ReturnsAll _ _ (end_failed-ReturnsAll job error) (notify_fail-ReturnsAll job def)
  fail_finally-ReturnsAll job def error (some step) =
      if_intro ReturnsAll (job.step == step) _ _ (end_failed-ReturnsAll job error)
        (fail_to-ReturnsAll job step error)

  pub fail_by-ReturnsAll :
      (job : Job) (def : Option JobDef) (error : String) (o : Option String)
      → ReturnsAll (fail_by v job def error o)
  unfolding fail_by
  fail_by-ReturnsAll job def error (some step) = fail_to-ReturnsAll job step error
  fail_by-ReturnsAll job def error none = fail_finally-ReturnsAll job def error (job_on_fail def)

  cancel_finally-ReturnsAll : (job : Job) (o : Option String) → ReturnsAll (cancel_finally v job o)
  unfolding cancel_finally
  cancel_finally-ReturnsAll job none = end_cancelled-ReturnsAll job
  cancel_finally-ReturnsAll job (some target) =
      if_intro ReturnsAll (job.step == target) _ _ (end_cancelled-ReturnsAll job)
        (cancel_to-ReturnsAll job target)

  pub cancel_by-ReturnsAll :
      (job : Job) (def : Option JobDef) (o : Option String) → ReturnsAll (cancel_by v job def o)
  unfolding cancel_by
  cancel_by-ReturnsAll job def (some target) = cancel_to-ReturnsAll job target
  cancel_by-ReturnsAll job def none = cancel_finally-ReturnsAll job (job_on_cancel def)
