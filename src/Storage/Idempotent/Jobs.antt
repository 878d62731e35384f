-- ===== src/Storage/Idempotent/Jobs.antt =====
-- The handlers of jobs and steps, made twice. The second reading of the clock may differ.
use oddjobs.Prelude.{
  ℕ, String, none, some, true, false, not, ◌≡◌, arith, eq_refl, Bool-cases, inl, inr, modify_last,
  modify_last_absorb,
}
use oddjobs.Core.Agent.{ℤ}
use oddjobs.Core.Job.{
  Job, StepOutcome, if_open, update_last_open, finalize_current_step, is_failed, is_terminal,
  is_terminal_step, clear_agent_signal, reset_action_attempts, push_step, record_step_visit,
}
use oddjobs.Core.Tracker
use oddjobs.Storage.Apply.Agents.{fail_job, is_exit_zero}
use oddjobs.Storage.Apply.Jobs.{
  complete_step, fail_step, exit_shell, skips, revive, closing_outcome, status_on, keep_or_reset,
  enter_step, advance,
}

finalize_history :
    (o o' : StepOutcome) (t t' : ℕ) (j : Job)
    → modify_last (if_open (λ r. record r { finished_at_ms = some t'; outcome = o' })) (
        modify_last
          (if_open (λ r. record r { finished_at_ms = some t; outcome = o }))
          j.step_history)
      ≡ modify_last
          (if_open (λ r. record r { finished_at_ms = some t; outcome = o }))
          j.step_history
unfolding if_open
finalize_history o o' t t' j = modify_last_absorb _ _ j.step_history (λ r. ground arith)

pub complete_step_absorb :
    (t t' : ℕ) (j : Job) → complete_step t' (complete_step t j) ≡ complete_step t j
unfolding complete_step finalize_current_step update_last_open
complete_step_absorb t t' j =
    ground (arith, finalize_history StepOutcome.completed StepOutcome.completed t t' j)

pub fail_step_absorb :
    (e : String) (t t' : ℕ) (j : Job) → fail_step e t' (fail_step e t j) ≡ fail_step e t j
unfolding fail_step fail_job finalize_current_step update_last_open
fail_step_absorb e t t' j =
    ground (arith, finalize_history (StepOutcome.failed e) (StepOutcome.failed e) t t' j)

pub exit_shell_absorb :
    (c : ℤ) (t t' : ℕ) (j : Job) → exit_shell c t' (exit_shell c t j) ≡ exit_shell c t j
unfolding exit_shell
exit_shell_absorb c t t' j = elim (Bool-cases (is_exit_zero (some c))) [
  | inl z ↦ rw (z, exit_shell) (complete_step_absorb t t' j)
  | inr z ↦ rw (z, exit_shell) (fail_step_absorb _ t t' j)
]

-- Where the step was moved, a second move either is skipped or changes nothing.
advance_step : (step : String) (t : ℕ) (j : Job) → (advance step t j).step ≡ step
unfolding advance enter_step clear_agent_signal keep_or_reset reset_action_attempts push_step
    record_step_visit
advance_step step t j = ground arith

advance_status : (step : String) (t : ℕ) (j : Job) → (advance step t j).step_status ≡ status_on step
unfolding advance enter_step clear_agent_signal keep_or_reset reset_action_attempts push_step
    record_step_visit
advance_status step t j = ground arith

pub skips-advance :
    (step : String) (t : ℕ) (j : Job)
    → skips step (some (advance step t j)) ≡ not (is_failed (status_on step))
unfolding skips
skips-advance step t j = rw (advance_step step t j, advance_status step t j, eq_refl step)

not_failed_of_live :
    (step : String) → is_terminal_step step ≡ false → is_failed (status_on step) ≡ false
unfolding status_on is_failed is_terminal_step
not_failed_of_live step h = ground arith

terminal_of_failed :
    (step : String) → is_failed (status_on step) ≡ true → is_terminal_step step ≡ true
unfolding status_on is_failed is_terminal_step
terminal_of_failed step h = ground arith

-- A job that has failed on the step: moving it there again finds everything in place.
advance_settled :
    (step : String) (t : ℕ) (j : Job)
    → is_terminal_step step ≡ true
    → is_failed j.step_status ≡ true
    → j.step ≡ step
    → j.step_status ≡ status_on step
    → j.action_tracker.agent_signal ≡ none
    → finalize_current_step (closing_outcome step j.error) t j ≡ j
    → advance step t j ≡ j
unfolding advance revive enter_step clear_agent_signal keep_or_reset is_terminal
    Tracker.clear_agent_signal
advance_settled step t j terminal failed here status quiet closed = ground arith

advance_closed :
    (o : StepOutcome) (step : String) (t t' : ℕ) (j : Job)
    → is_terminal_step step ≡ true
    → finalize_current_step o t' (advance step t j) ≡ advance step t j
unfolding advance revive enter_step clear_agent_signal keep_or_reset is_terminal
    finalize_current_step update_last_open reset_action_attempts
advance_closed o step t t' j terminal = ground (
  arith,
  finalize_history (closing_outcome step j.error) o t t' j,
  finalize_history (closing_outcome step none) o t t' j,
)

advance_quiet :
    (step : String) (t : ℕ) (j : Job)
    → is_terminal_step step ≡ true
    → (advance step t j).action_tracker.agent_signal ≡ none
unfolding advance enter_step clear_agent_signal Tracker.clear_agent_signal
advance_quiet step t j terminal = ground arith

pub advance_absorb :
    (step : String) (t t' : ℕ) (j : Job)
    → is_failed (status_on step) ≡ true
    → advance step t' (advance step t j) ≡ advance step t j
advance_absorb step t t' j h =
    let terminal = terminal_of_failed step h in
    advance_settled step t' (advance step t j) terminal (rw (advance_status step t j) h)
      (advance_step step t j) (advance_status step t j) (advance_quiet step t j terminal)
      (advance_closed _ step t t' j terminal)
