-- ===== src/Engine/Steps/Ends.antt =====
-- The state after the effects that end a job.
use mathlib.Core.Option
use oddjobs.Prelude.{
  unwrap_or, List, modify_last_absorb, inl, inr, ℕ, String, Option, none, some, List, true, false,
  ◌≡◌, refl, ◌∙◌, ap, arith, eq_iff, eq_refl, Bool-cases, unwrap_or,
}
use oddjobs.Prelude.Map
use oddjobs.Prelude.Map.Laws.{get-modify_self, get-map_values}
use oddjobs.Core.Event.{Event}
use oddjobs.Core.Effect.{Effect}
use oddjobs.Core.Job.{
  StepRecord, StepOutcome, if_open, Job, StepStatus, is_terminal, is_terminal_step,
  finalize_current_step, update_last_open, reset_action_attempts, clear_agent_signal,
}
use oddjobs.Storage.State.{MaterializedState}
use oddjobs.Storage.Apply.{apply_event}
use oddjobs.Storage.Apply.Agents.{fail_job, opt_is}
use oddjobs.Storage.Apply.Sessions.{without}
use oddjobs.Storage.Apply.Jobs.{
  skips, advance, leave_step, enter_step, revive, keep_or_reset, status_on, closing_outcome,
  fail_step, complete_step,
}
use oddjobs.Storage.Replay.{replay, stamped}
use oddjobs.Engine.Steps.{
  failure_effects, cancellation_effects, completion_effects, advance_unless_terminal,
  session_effects, emitted,
}

-- The state after the events among the effects are applied.
unfoldable pub after_effects : ℕ → List Effect → MaterializedState → MaterializedState
after_effects now effects s = replay (stamped now (emitted effects)) s

-- The job is on the step with the status, the error and the history, and has no session.
pub record HasEnded (id step : String) (status : StepStatus) (error : Option String)
    (history : List StepRecord) (s : MaterializedState) : Type 0 where
  pub job : Job
  pub found : Map.get id s.jobs ≡ some job
  pub on_step : job.step ≡ step
  pub has_status : job.step_status ≡ status
  pub has_error : job.error ≡ error
  pub has_history : job.step_history ≡ history
  pub sessionless : job.session_id ≡ none

module _ (now : ℕ) (id : String) (s : MaterializedState) (j : Job)
    (h : Map.get id s.jobs ≡ some j) where
  pub get-job_advanced :
      (step : String)
      → skips step (some j) ≡ false
      → Map.get id (apply_event now (Event.job_advanced id step) s).jobs ≡ some (advance step now j)
  unfolding apply_event
  get-job_advanced step k =
      rw (h, k)
        (elim (Bool-cases (is_terminal_step step)) [
          | inl e ↦
              rw e (
                get-modify_self id (advance step now) s.jobs ∙ ap (Option.map (advance step now)) h)
          | inr e ↦
              rw e (
                get-modify_self id (advance step now) s.jobs ∙ ap (Option.map (advance step now)) h)
        ])

  pub get-step_failed :
      (step error : String)
      → Map.get id (apply_event now (Event.step_failed id step error) s).jobs
        ≡ some (fail_step error now j)
  unfolding apply_event
  get-step_failed step error =
      get-modify_self id (fail_step error now) s.jobs ∙ ap (Option.map (fail_step error now)) h

  pub get-step_completed :
      (step : String)
      → Map.get id (apply_event now (Event.step_completed id step) s).jobs
        ≡ some (complete_step now j)
  unfolding apply_event
  get-step_completed step =
      get-modify_self id (complete_step now) s.jobs ∙ ap (Option.map (complete_step now)) h

-- The session's events leave the job without a session.
end_session :
    (now : ℕ) (id step : String) (status : StepStatus) (error session : Option String)
    (history : List StepRecord) (s : MaterializedState) (k : Job)
    → Map.get id s.jobs ≡ some k
    → k.step ≡ step
    → k.step_status ≡ status
    → k.error ≡ error
    → k.step_history ≡ history
    → k.session_id ≡ session
    → HasEnded id step status error history (after_effects now (session_effects session) s)
unfolding after_effects replay stamped emitted session_effects
end_session now id step status error none history s k h a b c e d = record {
  job = k;
  found = h;
  on_step = a;
  has_status = b;
  has_error = c;
  has_history = e;
  sessionless = d;
}
end_session now id step status error (some session) history s k h a b c e d = record {
  job = record k { session_id = without session k.session_id };
  found =
      unfold apply_event in
      get-map_values id (λ j. record j { session_id = without session j.session_id }) s.jobs
      ∙ ap (Option.map {A = Job} (λ j. record j { session_id = without session j.session_id })) h;
  on_step = a;
  has_status = b;
  has_error = c;
  has_history = e;
  sessionless = unfold without opt_is in rw (d, eq_refl session) refl;
}

-- The history of the job when its open record is closed with the outcome.
unfoldable pub closed_history : StepOutcome → ℕ → Job → List StepRecord
closed_history outcome now j = (finalize_current_step outcome now j).step_history

-- A closed history is not changed by closing it again.
finalize-closed_history :
    (outcome again : StepOutcome) (now : ℕ) (k j : Job)
    → k.step_history ≡ closed_history outcome now j
    → (finalize_current_step again now k).step_history ≡ closed_history outcome now j
unfolding finalize_current_step update_last_open closed_history if_open
finalize-closed_history outcome again now k j h =
    rw
      (
        h,
        modify_last_absorb (if_open λ r. record r { finished_at_ms = some now; outcome = outcome })
            (if_open λ r. record r { finished_at_ms = some now; outcome = again }) j.step_history
            (λ r. ground arith),
      )
      refl

-- What leaving a step for a terminal one does to the fields that `HasEnded` reads.
module _ (now : ℕ) (step : String) (j : Job) (t : is_terminal_step step ≡ true) where
  advance-error : (advance step now j).error ≡ j.error
  unfolding advance enter_step leave_step clear_agent_signal keep_or_reset reset_action_attempts
      finalize_current_step update_last_open revive
  advance-error = ground arith

  advance-session_id : (advance step now j).session_id ≡ j.session_id
  unfolding advance enter_step leave_step clear_agent_signal keep_or_reset reset_action_attempts
      finalize_current_step update_last_open revive
  advance-session_id = ground arith

  pub advance-step : (advance step now j).step ≡ step
  unfolding advance enter_step leave_step clear_agent_signal keep_or_reset reset_action_attempts
  advance-step = ground arith

  -- The history of a job whose open record is closed with the outcome.
  advance-step_history :
      (advance step now j).step_history ≡ closed_history (closing_outcome step j.error) now j
  unfolding advance enter_step leave_step clear_agent_signal keep_or_reset reset_action_attempts
      finalize_current_step update_last_open revive closed_history
  advance-step_history = ground arith

  skips_live : is_terminal j ≡ false → skips step (some j) ≡ false
  unfolding skips is_terminal
  skips_live live = ground (arith, eq_iff j.step step)

module _ (now : ℕ) (s : MaterializedState) (j : Job) (h : Map.get j.id s.jobs ≡ some j)
    (live : is_terminal j ≡ false) where
  -- The part that failing and cancelling share.
  ends_failed :
      (step error : String)
      → is_terminal_step step ≡ true
      → status_on step ≡ StepStatus.failed
      → HasEnded j.id step StepStatus.failed
          (some error)
          (closed_history (closing_outcome step j.error) now j)
          (after_effects now (session_effects j.session_id) (
            apply_event now
              (Event.step_failed j.id j.step error)
              (apply_event now (Event.job_advanced j.id step) s)))
  ends_failed step error t f =
      let moved = get-job_advanced now j.id s j h step (skips_live now step j t live) in
      let s' = apply_event now (Event.job_advanced j.id step) s in
      end_session now j.id step StepStatus.failed (some error) j.session_id _ _
        (fail_step error now (advance step now j))
        (get-step_failed now j.id s' (advance step now j) moved j.step error)
        (unfold fail_step fail_job finalize_current_step update_last_open in
          advance-step now step j t)
        (unfold fail_step fail_job finalize_current_step update_last_open in refl)
        (unfold fail_step fail_job finalize_current_step update_last_open in refl)
        (unfold fail_step in
          finalize-closed_history (closing_outcome step j.error) (StepOutcome.failed error) now
            (fail_job error (advance step now j)) j
            (unfold fail_job in advance-step_history now step j t))
        (unfold fail_step fail_job finalize_current_step update_last_open in
          advance-session_id now step j t)

  -- After the effects that fail a running job with an error, it is on the failed step with that error
  -- and without a session; its open record is closed as failed with the error that the job had
  -- before, or the empty text.
  failure_effects-HasEnded :
      (error : String)
      → HasEnded j.id "failed" StepStatus.failed
          (some error)
          (closed_history (StepOutcome.failed (unwrap_or j.error "")) now j)
          (after_effects now (failure_effects j error) s)
  unfolding after_effects failure_effects emitted stamped replay is_terminal_step status_on
      closing_outcome
  failure_effects-HasEnded error = ends_failed "failed" error refl refl

  -- After the effects that cancel a running job, it is on the cancelled step, failed with the error
  -- "cancelled" and without a session; its open record is closed as failed with the error that the
  -- job had before, or the empty text.
  cancellation_effects-HasEnded :
      HasEnded j.id "cancelled" StepStatus.failed
        (some "cancelled")
        (closed_history (StepOutcome.failed (unwrap_or j.error "")) now j)
        (after_effects now (cancellation_effects j) s)
  unfolding after_effects cancellation_effects advance_unless_terminal emitted stamped replay
      is_terminal_step status_on closing_outcome
  cancellation_effects-HasEnded = rw live (ends_failed "cancelled" "cancelled" refl refl)

  -- After the effects that complete a running job, it is on the step "done" as completed, with the
  -- error it had and without a session; its open record is closed as completed.
  completion_effects-HasEnded :
      HasEnded j.id "done" StepStatus.completed j.error
        (closed_history StepOutcome.completed now j)
        (after_effects now (completion_effects j) s)
  unfolding after_effects completion_effects advance_unless_terminal emitted stamped replay
      is_terminal_step closing_outcome
  completion_effects-HasEnded =
      let moved = get-job_advanced now j.id s j h "done" (skips_live now "done" j refl live) in
      let s' = apply_event now (Event.job_advanced j.id "done") s in
      rw live (
        end_session now j.id "done" StepStatus.completed j.error j.session_id _ _
          (complete_step now (advance "done" now j))
          (get-step_completed now j.id s' (advance "done" now j) moved j.step)
          (unfold complete_step finalize_current_step update_last_open in
            advance-step now "done" j refl)
          (unfold complete_step finalize_current_step update_last_open in refl)
          (unfold complete_step finalize_current_step update_last_open in
            advance-error now "done" j refl)
          (unfold complete_step in
            finalize-closed_history StepOutcome.completed StepOutcome.completed now
              (record (advance "done" now j) { step_status = StepStatus.completed }) j
              (advance-step_history now "done" j refl))
          (unfold complete_step finalize_current_step update_last_open in
            advance-session_id now "done" j refl))

  -- After the effects that fail a running job with an error, it is on the failed step with that
  -- error; after those that cancel it, on the cancelled step with the error "cancelled"; in both its
  -- open record is closed as failed with the error that the job had before, or the empty text. After
  -- those that complete it, it is on the step "done" as completed, with the error it had, and its open
  -- record is closed as completed. In each case it has no session.
  pub effects-HasEnded :
      (error : String)
      → let was_failed = closed_history (StepOutcome.failed (unwrap_or j.error "")) now j in
        HasEnded j.id "failed" StepStatus.failed
          (some error)
          was_failed
          (after_effects now (failure_effects j error) s)
        × HasEnded j.id "cancelled" StepStatus.failed
            (some "cancelled")
            was_failed
            (after_effects now (cancellation_effects j) s)
        × HasEnded j.id "done" StepStatus.completed j.error
            (closed_history StepOutcome.completed now j)
            (after_effects now (completion_effects j) s)
  effects-HasEnded error =
      (failure_effects-HasEnded error, cancellation_effects-HasEnded, completion_effects-HasEnded)
