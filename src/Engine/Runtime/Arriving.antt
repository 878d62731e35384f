-- ===== src/Engine/Runtime/Arriving.antt =====
-- A step is completed, and the job moves on: job.rs and the fold of its events.
use oddjobs.Prelude.{
  ℕ, String, some, true, false, ◌==◌, ◌≡◌, refl, sym, ◌∙◌, arith, eq_iff, eq_refl, Bool-cases, inl,
  inr, if◌then◌else◌,
}
use mathlib.Core.Path.{subst}
use oddjobs.Prelude.Map
use oddjobs.Prelude.Map.Laws.{get-insert}
use oddjobs.Core.Event.{Event}
use oddjobs.Core.Tracker.{inc_u32}
use oddjobs.Core.Job.{
  Job, is_failed, is_terminal_step, get_step_visits, record_step_visit, push_step,
  finalize_current_step, update_last_open, reset_action_attempts, clear_agent_signal,
}
use oddjobs.Storage.State.{MaterializedState}
use oddjobs.Storage.Apply.{apply_event}
use oddjobs.Storage.Apply.Jobs.{
  skips, advance, leave_step, enter_step, revive, keep_or_reset, complete_step,
}
use oddjobs.Engine.Steps.Ends.{get-job_advanced, get-step_completed}

-- The visits that the next step has after the transition.
abbrev pub visits_after : String → Job → ℕ
visits_after next job =
    let visits = get_step_visits next job in if job.step == next then visits else inc_u32 visits

-- What the start of the step reads of the job that arrived on it.
pub record HasArrived (next : String) (job : Job) (s : MaterializedState) : Type 0 where
  pub arrived : Job
  pub held : Map.get job.id s.jobs ≡ some arrived
  pub on_step : arrived.step ≡ next
  pub same_hash : arrived.runbook_hash ≡ job.runbook_hash
  pub same_kind : arrived.kind ≡ job.kind
  pub same_name : arrived.name ≡ job.name
  pub visited : get_step_visits next arrived ≡ visits_after next job

module _ (now : ℕ) (next : String) (live : is_terminal_step next ≡ false) (j : Job) where
  advance-step : (advance next now j).step ≡ next
  unfolding advance enter_step leave_step clear_agent_signal keep_or_reset reset_action_attempts
      push_step record_step_visit
  advance-step = ground (arith, live)

  advance-runbook_hash : (advance next now j).runbook_hash ≡ j.runbook_hash
  unfolding advance enter_step leave_step clear_agent_signal keep_or_reset reset_action_attempts
      push_step record_step_visit finalize_current_step update_last_open revive
  advance-runbook_hash = ground (arith, live)

  advance-kind : (advance next now j).kind ≡ j.kind
  unfolding advance enter_step leave_step clear_agent_signal keep_or_reset reset_action_attempts
      push_step record_step_visit finalize_current_step update_last_open revive
  advance-kind = ground (arith, live)

  advance-name : (advance next now j).name ≡ j.name
  unfolding advance enter_step leave_step clear_agent_signal keep_or_reset reset_action_attempts
      push_step record_step_visit finalize_current_step update_last_open revive
  advance-name = ground (arith, live)

  left-step_visits : (leave_step next now j).step_visits ≡ j.step_visits
  unfolding leave_step clear_agent_signal keep_or_reset reset_action_attempts finalize_current_step
      update_last_open revive
  left-step_visits = ground arith

  advance-get_step_visits :
      get_step_visits next (advance next now j) ≡ inc_u32 (get_step_visits next j)
  unfolding advance enter_step push_step record_step_visit get_step_visits
  advance-get_step_visits = rw (live, left-step_visits, get-insert next next, eq_refl next) refl

-- A job that is on the step already, and has not failed, stays.
job_advanced-skips :
    (now : ℕ) (id next : String) (s : MaterializedState) (j : Job)
    → Map.get id s.jobs ≡ some j
    → skips next (some j) ≡ true
    → apply_event now (Event.job_advanced id next) s ≡ s
unfolding apply_event
job_advanced-skips now id next s j h k = rw (h, k) refl

completed-skips :
    (now : ℕ) (next : String) (job : Job)
    → skips next (some (complete_step now job)) ≡ (job.step == next)
unfolding skips is_failed complete_step finalize_current_step update_last_open
completed-skips now next job = ground arith

-- The step is completed, and the job moves to the next one, or stays when it is the same.
pub arrives :
    (now : ℕ) (next : String) (job : Job) (s : MaterializedState)
    → Map.get job.id s.jobs ≡ some job
    → is_terminal_step next ≡ false
    → HasArrived next job (
        apply_event now
          (Event.job_advanced job.id next)
          (apply_event now (Event.step_completed job.id job.step) s))
unfolding complete_step finalize_current_step update_last_open
arrives now next job s found live =
    let done = complete_step now job in
    let s1 = apply_event now (Event.step_completed job.id job.step) s in
    let held1 = get-step_completed now job.id s job found job.step in
    let skipping = completed-skips now next job in
    elim (Bool-cases (job.step == next)) [
      | inl e ↦
          subst (HasArrived next job)
            (sym (job_advanced-skips now job.id next s1 done held1 (skipping ∙ e)))
            (record {
              arrived = done;
              held = held1;
              on_step = (eq_iff job.step next).0 e;
              same_hash = refl;
              same_kind = refl;
              same_name = refl;
              visited = unfold get_step_visits in rw e refl;
            })
      | inr e ↦ record {
        arrived = advance next now done;
        held = get-job_advanced now job.id s1 done held1 next (skipping ∙ e);
        on_step = advance-step now next live done;
        same_hash = advance-runbook_hash now next live done;
        same_kind = advance-kind now next live done;
        same_name = advance-name now next live done;
        visited = advance-get_step_visits now next live done ∙ unfold get_step_visits in rw e refl;
      }
    ]
