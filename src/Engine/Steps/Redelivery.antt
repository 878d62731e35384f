-- ===== src/Engine/Steps/Redelivery.antt =====
-- The events of a failure that goes to another step (crates/engine/src/runtime/job.rs, `fail_job`)
-- come back from the log (crates/daemon/src/lifecycle/mod.rs, `process_event`).
use mathlib.Core.Option
use oddjobs.Prelude.{
  ℕ, String, Option, none, some, List, false, ◌≡◌, ◌∙◌, ap, arith, eq_refl, unwrap_or,
}
use oddjobs.Prelude.Map
use oddjobs.Prelude.Map.Laws.{get-modify_self, get-insert}
use oddjobs.Core.Event.{Event}
use oddjobs.Core.Effect.{Effect}
use oddjobs.Core.Job.{
  Job, is_failed, is_terminal_step, get_step_visits, record_step_visit, push_step,
  finalize_current_step, update_last_open, update_current_step_outcome, reset_action_attempts,
  clear_agent_signal,
}
use oddjobs.Core.Tracker.{inc_u32}
use oddjobs.Storage.State.{MaterializedState}
use oddjobs.Storage.Apply.{apply_event}
use oddjobs.Storage.Apply.Agents.{fail_job}
use oddjobs.Storage.Apply.Jobs.{
  skips, advance, leave_step, enter_step, revive, keep_or_reset, fail_step, start_step, when_some,
}
use oddjobs.Storage.Replay.{replay, stamped}
use oddjobs.Engine.Steps.{failure_transition_effects, step_start_effects, append_effects, emitted}
use oddjobs.Engine.Steps.Ends.{after_effects, get-job_advanced, get-step_failed}

-- What `fail_job` emits: the transition, and then the start of the step, when the circuit breaker
-- lets it start.
unfoldable pub fail_over : Job → String → String → List Effect
fail_over job on_fail error =
    append_effects (failure_transition_effects job on_fail error)
      (step_start_effects job.id on_fail)

-- The count of a job's visits of a step, when there is the job.
abbrev pub visits_of : String → String → MaterializedState → Option ℕ
visits_of step id s = Option.map (get_step_visits step) (Map.get id s.jobs)

module _ (now : ℕ) (on_fail error : String) (live : is_terminal_step on_fail ≡ false) where
  failed_over : Job → Job
  failed_over k = start_step none none (advance on_fail now (fail_step error now k))

  skips-fail_step : (k : Job) → skips on_fail (some (fail_step error now k)) ≡ false
  unfolding skips fail_step fail_job finalize_current_step update_last_open is_failed
  skips-fail_step k = ground arith

  visits-advance :
      (k : Job)
      → get_step_visits on_fail (advance on_fail now k) ≡ inc_u32 (get_step_visits on_fail k)
  unfolding advance enter_step leave_step clear_agent_signal keep_or_reset reset_action_attempts
      finalize_current_step update_last_open revive record_step_visit push_step get_step_visits
  visits-advance k = ground (
    arith,
    live,
    eq_refl on_fail,
    get-insert on_fail on_fail (inc_u32 (unwrap_or (Map.get on_fail k.step_visits) 0))
        k.step_visits,
  )

  visits-failed_over :
      (k : Job) → get_step_visits on_fail (failed_over k) ≡ inc_u32 (get_step_visits on_fail k)
  unfolding failed_over
  visits-failed_over k =
      unfold start_step when_some update_current_step_outcome update_last_open fail_step fail_job
        finalize_current_step get_step_visits in
      visits-advance (fail_step error now k)

  module _ (j : Job) (s : MaterializedState) (k : Job) (h : Map.get j.id s.jobs ≡ some k) where
    get-fail_over :
        Map.get j.id (after_effects now (fail_over j on_fail error) s).jobs ≡ some (failed_over k)
    unfolding after_effects fail_over append_effects failure_transition_effects step_start_effects
        emitted stamped replay failed_over
    get-fail_over =
        let s1 = apply_event now (Event.step_failed j.id j.step error) s in
        let s2 = apply_event now (Event.job_advanced j.id on_fail) s1 in
        let failed = get-step_failed now j.id s k h j.step error in
        let moved =
          get-job_advanced now j.id s1 (fail_step error now k) failed on_fail (skips-fail_step k) in
        unfold apply_event in
        get-modify_self j.id (start_step none none) s2.jobs
        ∙ ap (Option.map (start_step none none)) moved

  -- When a job fails over to a live step, the step is visited once more; when the events of that come
  -- back from the log and are applied again, the visit is counted again.
  pub fail_over_redelivered :
      (s : MaterializedState) (j : Job)
      → Map.get j.id s.jobs ≡ some j
      → let s' = after_effects now (fail_over j on_fail error) s in
        (visits_of on_fail j.id s' ≡ some (inc_u32 (get_step_visits on_fail j)))
        × (visits_of on_fail j.id (after_effects now (fail_over j on_fail error) s')
            ≡ some (inc_u32 (inc_u32 (get_step_visits on_fail j))))
  fail_over_redelivered s j h =
      let s' = after_effects now (fail_over j on_fail error) s in
      let once = get-fail_over j s j h in
      let twice = get-fail_over j s' (failed_over j) once in
      (
        ap (Option.map (get_step_visits on_fail)) once ∙ ap some (visits-failed_over j),
        ap (Option.map (get_step_visits on_fail)) twice
            ∙ ap some (visits-failed_over (failed_over j))
            ∙ ap (λ n. some (inc_u32 n)) (visits-failed_over j),
      )
