-- ===== src/Engine/Runtime/Stopping.antt =====
-- Cancelling a job, and cancelling it again.
use oddjobs.Prelude.{
  String, Option, none, some, List, [], ◌∷◌, true, false, ◌≡◌, refl, sym, ap, ◌∙◌, ◌==◌, ◌||◌,
  arith, Bool-cases, inl, inr, if_intro, All,
}
use mathlib.Core.Path.{subst}
use oddjobs.Prelude.Map
use oddjobs.Core.Effect.{Effect}
use oddjobs.Core.Event.{Event}
use oddjobs.Core.Job.{Job, is_terminal}
use oddjobs.Core.Timer.{liveness, exit_deferred}
use oddjobs.Storage.State.{MaterializedState}
use oddjobs.Storage.Lookup.{get_job, get_by_prefix}
use oddjobs.Engine.Steps.{
  cancellation_effects, cancellation_transition_effects, advance_unless_terminal, session_effects,
  append_effects,
}
use oddjobs.Engine.Runtime.{World, Answer, Run, Services, give, with_job, require_job}
use oddjobs.Engine.Runtime.Executor.{
  execute, execute_all, execute_inner, emit_event, note_effect, note,
}
use oddjobs.Engine.Runtime.Completion.{check_worker_job_complete}
use oddjobs.Engine.Runtime.Jobs.{
  leave_step, step_of, workspace_of, delete_if_there, workspace_cleanup_effects,
}
use oddjobs.Engine.Runtime.Transitions.{
  end_cancelled, execute_with_cleanup, cancel_to, cancel_finally, cancel_by, cancel_in, cancel_job,
  job_on_cancel, step_on_cancel, start_next,
}
use oddjobs.Engine.Runtime.Handlers.{handle_job_cancel}
use oddjobs.Engine.Runtime.Outcomes.{Outcome, OnOk, OnOk-weaken, then-OnOk, cached_runbook-OnOk}
use oddjobs.Engine.Runtime.Related.{append_effects-All, IsRelated}
use oddjobs.Engine.Runtime.Keeping.{
  Keeps, cancel_timer-Keeps, step_failed-Keeps, session_effects-Keep, kept-OnOk, kept_effect-OnOk,
  kept_effects-OnOk, check-Keeps, leave_step-Keeps, delete_workspace-Keeps,
}
use oddjobs.Engine.Runtime.Passing.{
  HasJob, is_terminal-IsStable, anything-IsStable, advanced-terminal, flagged,
}
use oddjobs.Engine.Runtime.Cancelling.{LeaveJobs, cancel_rest-Keeps, start_next-Keeps}
use oddjobs.Runbook.{JobDef}

-- The job is on its way to the end, or has reached it.
abbrev pub IsStopping : String → MaterializedState → Type 0
IsStopping id = HasJob id λ j. is_terminal j || j.cancelling

cancelling-IsStopping :
    (id : String) (s : MaterializedState) → HasJob id (λ j. j.cancelling) s → IsStopping id s
cancelling-IsStopping id s (j, found, h) = (j, found, ground (arith, h))

terminal-IsStopping :
    (id : String) (s : MaterializedState) → HasJob id is_terminal s → IsStopping id s
terminal-IsStopping id s (j, found, h) = (j, found, rw h refl)

module _ (v : Services) (f : LeaveJobs v) (job : Job) where
  -- From a state with the job, without an error, the run leads to one where the job stops.
  abbrev Stops : Run → Type 0
  Stops r =
      (w : World) → HasJob job.id (λ j. true) w.state → OnOk (λ es t. IsStopping job.id t) (r w)

  flag-Stops :
      (w : World)
      → HasJob job.id (λ j. true) w.state
      → OnOk
          (λ es t. HasJob job.id (λ j. j.cancelling) t)
          (execute v (Effect.emit (Event.job_cancelling job.id)) w)
  unfolding execute execute_inner emit_event note_effect note
  flag-Stops w p = flagged v.now job.id w.state p

  cancel_to-Stops : (target : String) → Stops (cancel_to v job target)
  unfolding cancel_to
  cancel_to-Stops target w p =
      let Flagged : Outcome = λ es t. HasJob job.id (λ j. j.cancelling) t in
      then-OnOk Flagged (λ es t. IsStopping job.id t) _ (start_next v job target) w
        (then-OnOk Flagged Flagged (execute v (Effect.emit (Event.job_cancelling job.id)))
          (execute_all v (cancellation_transition_effects job target)) w (flag-Stops w p)
          λ es u h.
            kept-OnOk v job.id (λ j. j.cancelling)
              (execute_all v (cancellation_transition_effects job target))
              (cancel_rest-Keeps v f job.id job target) u h)
        λ es u h.
          OnOk-weaken Flagged (λ fs t. IsStopping job.id t) (start_next v job target u)
            (kept-OnOk v job.id (λ j. j.cancelling) (start_next v job target)
              (start_next-Keeps v f job.id job target) u h)
            λ fs t k. cancelling-IsStopping job.id t k

  -- The effects of an end, and others that keep the job ended.
  first-OnOk :
      (Q R : MaterializedState → Type 0) (e : Effect) (effects : List Effect) (w : World)
      → OnOk (λ es t. Q t) (execute v e w)
      → ((u : World) → Q u.state → OnOk (λ es t. R t) (execute_all v effects u))
      → OnOk (λ es t. R t) (execute_all v (e ∷ effects) w)
  unfolding execute_all
  first-OnOk Q R e effects w h k =
      then-OnOk (λ es t. Q t) (λ es t. R t) (execute v e) (execute_all v effects) w h
        λ es u q. k u q

  advanced-OnOk :
      (w : World)
      → HasJob job.id (λ j. true) w.state
      → OnOk
          (λ es t. HasJob job.id is_terminal t)
          (execute v (Effect.emit (Event.job_advanced job.id "cancelled")) w)
  unfolding execute execute_inner emit_event note_effect note
  advanced-OnOk w p = advanced-terminal v.now job.id w.state p

  ends-OnOk :
      (more : List Effect) (w : World)
      → is_terminal job ≡ false
      → All (λ e. IsRelated (Keeps job.id is_terminal) (execute v e)) more
      → HasJob job.id (λ j. true) w.state
      → OnOk
          (λ es t. HasJob job.id is_terminal t)
          (execute_all v (append_effects (cancellation_effects job) more) w)
  unfolding cancellation_effects advance_unless_terminal append_effects
  ends-OnOk more w live h p =
      let Anything = HasJob job.id (λ j. true) in
      let Ended = HasJob job.id is_terminal in
      let session = session_effects-Keep v job.id is_terminal is_terminal-IsStable job.session_id in
      rw live (
        first-OnOk Anything Ended (Effect.cancel_timer (liveness job.id)) _ w
          (kept_effect-OnOk v job.id (λ j. true) (Effect.cancel_timer (liveness job.id))
            (cancel_timer-Keeps v job.id (λ j. true) (liveness job.id)) w p)
          λ w1 p1.
            first-OnOk Anything Ended (Effect.cancel_timer (exit_deferred job.id)) _ w1
              (kept_effect-OnOk v job.id (λ j. true) (Effect.cancel_timer (exit_deferred job.id))
                (cancel_timer-Keeps v job.id (λ j. true) (exit_deferred job.id)) w1 p1)
              λ w2 p2.
                first-OnOk Ended Ended (Effect.emit (Event.job_advanced job.id "cancelled")) _ w2
                  (advanced-OnOk w2 p2)
                  λ w3 p3.
                    kept_effects-OnOk v job.id is_terminal
                      (Effect.emit (Event.step_failed job.id job.step "cancelled")
                        ∷ append_effects (session_effects job.session_id) more)
                      (
                        step_failed-Keeps v job.id is_terminal is_terminal-IsStable job.id job.step
                            "cancelled",
                        append_effects-All (λ e. IsRelated (Keeps job.id is_terminal) (execute v e))
                            (session_effects job.session_id) more session h,
                      )
                      w3 p3)

  delete-Keep :
      (o : Option String) (s : MaterializedState)
      → All (λ e. IsRelated (Keeps job.id is_terminal) (execute v e)) (delete_if_there o s)
  unfolding delete_if_there
  delete-Keep none s = tt
  delete-Keep (some ws_id) s =
      if_intro (All λ e. IsRelated (Keeps job.id is_terminal) (execute v e))
        (Map.contains_key ws_id s.workspaces) (Effect.delete_workspace ws_id ∷ []) []
        (delete_workspace-Keeps v job.id is_terminal ws_id, tt) tt

  end_cancelled-Stops : is_terminal job ≡ false → Stops (end_cancelled v job)
  unfolding end_cancelled execute_with_cleanup workspace_cleanup_effects
  end_cancelled-Stops live w p =
      let Ended : Outcome = λ es t. HasJob job.id is_terminal t in
      then-OnOk Ended (λ es t. IsStopping job.id t) _
        (check_worker_job_complete v job.id "cancelled") w
        (ends-OnOk (delete_if_there (workspace_of job w.state) w.state) w live
          (delete-Keep (workspace_of job w.state) w.state) p)
        λ es u h.
          OnOk-weaken Ended (λ fs t. IsStopping job.id t)
            (check_worker_job_complete v job.id "cancelled" u)
            (kept-OnOk v job.id is_terminal (check_worker_job_complete v job.id "cancelled")
              (check-Keeps v job.id is_terminal job.id "cancelled") u h)
            λ fs t k. terminal-IsStopping job.id t k

  cancel_finally-Stops :
      (o : Option String) → is_terminal job ≡ false → Stops (cancel_finally v job o)
  unfolding cancel_finally
  cancel_finally-Stops none live = end_cancelled-Stops live
  cancel_finally-Stops (some target) live =
      if_intro Stops (job.step == target) _ _ (end_cancelled-Stops live) (cancel_to-Stops target)

  cancel_by-Stops :
      (def : Option JobDef) (o : Option String)
      → is_terminal job ≡ false
      → Stops (cancel_by v job def o)
  unfolding cancel_by
  cancel_by-Stops def (some target) live = cancel_to-Stops target
  cancel_by-Stops def none live = cancel_finally-Stops (job_on_cancel def) live

  cancel_in-Stops : (def : Option JobDef) → is_terminal job ≡ false → Stops (cancel_in v job def)
  unfolding cancel_in
  cancel_in-Stops def live w p =
      let step = step_of job.step def in
      then-OnOk (λ es t. HasJob job.id (λ j. true) t) (λ es t. IsStopping job.id t)
        (leave_step v step job) (cancel_by v job def (step_on_cancel step)) w
        (kept-OnOk v job.id (λ j. true) (leave_step v step job)
          (leave_step-Keeps v job.id (λ j. true) anything-IsStable step job) w p)
        λ es u h. cancel_by-Stops def (step_on_cancel step) live u h

  -- After a cancel that succeeds, the job that the state had is cancelling or has ended.
  cancel_job-Stops :
      (w : World)
      → Map.get job.id w.state.jobs ≡ some job
      → OnOk (λ es t. IsStopping job.id t) (cancel_job v job w)
  unfolding cancel_job
  cancel_job-Stops w found = elim (Bool-cases (is_terminal job || job.cancelling)) [
    | inl e ↦ rw e (unfold give in (job, found, e))
    | inr e ↦ rw e (
        cached_runbook-OnOk (λ es t. IsStopping job.id t) v job.runbook_hash
          (λ rb. cancel_in v job (Map.get job.kind rb.jobs)) w
          λ rb u same.
            cancel_in-Stops (Map.get job.kind rb.jobs) (ground (arith, e)) u
              (job, ap (λ s. Map.get job.id s.jobs) same ∙ found, refl))
  ]

get_job-found :
    (id : String) (s : MaterializedState) (j : Job)
    → Map.get id s.jobs ≡ some j
    → get_job id s ≡ some j
unfolding get_job get_by_prefix
get_job-found id s j h = rw (h, get_by_prefix) refl

pub require_job-found :
    (id : String) (next : Job → Run) (w : World) (j : Job)
    → Map.get id w.state.jobs ≡ some j
    → require_job id next w ≡ next j w
unfolding require_job with_job
require_job-found id next w j h = rw (get_job-found id w.state j h) refl

-- When a job that the state has under its id is cancelled without an error, cancelling it again
-- changes nothing and returns no event. The start of an agent, a parameter, is to leave the job's
-- flag as it is.
pub handle_job_cancel_twice :
    (v : Services) (job : Job) (w u : World) (es : List Event)
    → LeaveJobs v
    → Map.get job.id w.state.jobs ≡ some job
    → handle_job_cancel v job.id w ≡ (u, Answer.ok es)
    → handle_job_cancel v job.id u ≡ (u, Answer.ok [])
unfolding handle_job_cancel
handle_job_cancel_twice v job w u es f found cancelled =
    let first = sym (require_job-found job.id (cancel_job v) w job found) ∙ cancelled in
    let (j, held, stops) =
      subst (OnOk (λ es t. IsStopping job.id t)) first (cancel_job-Stops v f job w found) in
    require_job-found job.id (cancel_job v) u j held
    ∙ (unfold cancel_job in rw stops (unfold give in refl))
