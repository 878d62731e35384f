-- ===== src/Engine/Runtime/Lost.antt =====
-- What a transition of a job applies to the state and does not return for the log.
use oddjobs.Prelude.{
  String, Option, some, List, [], ◌∷◌, ◌≡◌, refl, ◌||◌, if◌then◌else◌, Bool-cases, inl, inr,
}
use mathlib.Core.List.{◌++◌}
use oddjobs.Prelude.Map
use oddjobs.Core.Event.{Event}
use oddjobs.Core.Job.{Job, is_terminal}
use oddjobs.Engine.Runtime.{World, Run, Services, cached, match_runbook, cached_runbook}
use oddjobs.Engine.Runtime.Jobs.{step_of}
use oddjobs.Engine.Runtime.Transitions.{
  advance_in, advance_job, fail_in, fail_job, cancel_in, cancel_job,
}
use oddjobs.Engine.Runtime.Outcomes.{OnOk}
use oddjobs.Engine.Runtime.Applied.{Accounts, then-Accounts, then-Hides, give-ReturnsAll}
use oddjobs.Engine.Runtime.Leaving.{left_events, leave_step-Hides, emit-Hides}
use oddjobs.Engine.Runtime.Durable.{
  AreFaithful, complete_job-ReturnsAll, advance_by-ReturnsAll, fail_by-ReturnsAll,
  cancel_by-ReturnsAll,
}
use oddjobs.Runbook.{JobDef, Runbook}

-- The events that leaving the job's step loses.
abbrev pub left_by : Job → Option JobDef → List Event
left_by job def = left_events (step_of job.step def) job

-- Advancing loses the completion of the step as well.
abbrev pub lost_by_advance : Job → Option JobDef → List Event
lost_by_advance job def =
    if is_terminal job then [] else left_by job def ++ (Event.step_completed job.id job.step ∷ [])

abbrev pub lost_by_cancel : Job → Option JobDef → List Event
lost_by_cancel job def = if is_terminal job || job.cancelling then [] else left_by job def

pub cached_runbook-found :
    (v : Services) (hash : String) (next : Runbook → Run) (w : World) (runbook : Runbook)
    → Map.get hash w.runbook_cache ≡ some runbook
    → cached_runbook v hash next w ≡ next runbook w
unfolding cached_runbook match_runbook cached
cached_runbook-found v hash next w runbook found = rw found refl

module _ (v : Services) (f : AreFaithful v) (job : Job) (w : World) where
  advance_in-Accounts :
      (def : Option JobDef)
      → OnOk
          (Accounts (left_by job def ++ (Event.step_completed job.id job.step ∷ [])) w.state)
          (advance_in v job def w)
  unfolding advance_in
  advance_in-Accounts def =
      let completed = Event.step_completed job.id job.step in
      then-Accounts (left_by job def ++ (completed ∷ [])) [] w.state _ _ w
        (then-Hides (left_by job def) (completed ∷ []) w.state _ _ w
          (leave_step-Hides v (step_of job.step def) job w) λ u. emit-Hides v completed u)
        λ u reached. advance_by-ReturnsAll v f job def _ u

  fail_in-Accounts :
      (error : String) (def : Option JobDef)
      → OnOk (Accounts (left_by job def) w.state) (fail_in v job error def w)
  unfolding fail_in
  fail_in-Accounts error def =
      then-Accounts (left_by job def) [] w.state _ _ w
        (leave_step-Hides v (step_of job.step def) job w)
        λ u reached. fail_by-ReturnsAll v f job def error _ u

  cancel_in-Accounts :
      (def : Option JobDef) → OnOk (Accounts (left_by job def) w.state) (cancel_in v job def w)
  unfolding cancel_in
  cancel_in-Accounts def =
      then-Accounts (left_by job def) [] w.state _ _ w
        (leave_step-Hides v (step_of job.step def) job w)
        λ u reached. cancel_by-ReturnsAll v f job def _ u

  advance_job-Accounts :
      (runbook : Runbook)
      → Map.get job.runbook_hash w.runbook_cache ≡ some runbook
      → let def = Map.get job.kind runbook.jobs in
        OnOk (Accounts (lost_by_advance job def) w.state) (advance_job v job w)
  unfolding advance_job
  advance_job-Accounts runbook found = elim (Bool-cases (is_terminal job)) [
    | inl e ↦ rw e (complete_job-ReturnsAll v f job w)
    | inr e ↦
        rw
          (
            e,
            cached_runbook-found v job.runbook_hash
                (λ rb. advance_in v job (Map.get job.kind rb.jobs)) w runbook found,
          )
          (advance_in-Accounts (Map.get job.kind runbook.jobs))
  ]

  fail_job-Accounts :
      (error : String) (runbook : Runbook)
      → Map.get job.runbook_hash w.runbook_cache ≡ some runbook
      → OnOk
          (Accounts (left_by job (Map.get job.kind runbook.jobs)) w.state)
          (fail_job v job error w)
  unfolding fail_job
  fail_job-Accounts error runbook found =
      rw
        (cached_runbook-found v job.runbook_hash
          (λ rb. fail_in v job error (Map.get job.kind rb.jobs)) w runbook found)
        (fail_in-Accounts error (Map.get job.kind runbook.jobs))

  cancel_job-Accounts :
      (runbook : Runbook)
      → Map.get job.runbook_hash w.runbook_cache ≡ some runbook
      → let def = Map.get job.kind runbook.jobs in
        OnOk (Accounts (lost_by_cancel job def) w.state) (cancel_job v job w)
  unfolding cancel_job
  cancel_job-Accounts runbook found = elim (Bool-cases (is_terminal job || job.cancelling)) [
    | inl e ↦ rw e (give-ReturnsAll w)
    | inr e ↦
        rw
          (
            e,
            cached_runbook-found v job.runbook_hash
                (λ rb. cancel_in v job (Map.get job.kind rb.jobs)) w runbook found,
          )
          (cancel_in-Accounts (Map.get job.kind runbook.jobs))
  ]

  -- When a job with a cached runbook is advanced, failed or cancelled without an error, the state
  -- comes from the state before by the lost events and then the returned ones, but for a runbook that
  -- the reload for a worker returns as loaded without applying it: leaving the step of
  -- an agent loses that its session is deleted, advancing loses that the step is completed, and
  -- nothing else is lost. The start of an agent, a parameter, is to return what it
  -- applies.
  pub transitions-Accounts :
      (error : String) (runbook : Runbook)
      → Map.get job.runbook_hash w.runbook_cache ≡ some runbook
      → let def = Map.get job.kind runbook.jobs in
        OnOk (Accounts (lost_by_advance job def) w.state) (advance_job v job w)
        × OnOk (Accounts (left_by job def) w.state) (fail_job v job error w)
        × OnOk (Accounts (lost_by_cancel job def) w.state) (cancel_job v job w)
  transitions-Accounts error runbook found = (
    advance_job-Accounts runbook found,
    fail_job-Accounts error runbook found,
    cancel_job-Accounts runbook found,
  )
