-- ===== src/Storage/Invariant/Jobs.antt =====
-- Every event keeps the histories of all jobs coherent.
use oddjobs.Prelude.{ℕ, String, Option, none, some, List, refl, arith, last?}
use oddjobs.Prelude.Map
use oddjobs.Prelude.Map.{Map, AllValues}
use oddjobs.Prelude.Map.Laws.{
  insert-AllValues, remove-AllValues, modify-AllValues, map_values-AllValues,
  modify_first-AllValues,
}
use oddjobs.Core.Agent.{ℤ}
use oddjobs.Core.Event.{Event}
use oddjobs.Core.Job.{Job, JobConfig, new_with_epoch_ms, get_step_visits}
use oddjobs.Core.Owner.{OwnerId}
use oddjobs.Core.Tracker.{AgentSignalKind, AgentSignal}
use oddjobs.Storage.State.{MaterializedState}
use oddjobs.Storage.Apply.{apply_event}
use oddjobs.Storage.Apply.Agents.{
  route_job, unless_terminal, exit_job, fail_job, signal_job, job_has_agent, store_signal,
}
use oddjobs.Storage.Apply.Jobs.{advance, job_advanced, end_job}
use oddjobs.Storage.Apply.Sessions.{link_workspace}
use oddjobs.Storage.Invariant.Histories.{IsCoherent}
use oddjobs.Storage.Invariant.Steps.{
  IsCoherent-of_same, complete_step-IsCoherent, fail_step-IsCoherent, exit_shell-IsCoherent,
  start_step-IsCoherent, wait_step-IsCoherent, unless_terminal-IsCoherent, advance-IsCoherent,
}
use oddjobs.Storage.Replay.{replay, replay_keeps}

abbrev pub AreCoherent : Map Job → Type 0
AreCoherent = AllValues IsCoherent

new_job-IsCoherent : (c : JobConfig) (t : ℕ) → IsCoherent (new_with_epoch_ms c t)
unfolding new_with_epoch_ms get_step_visits Map.get last?
new_job-IsCoherent c t = record {
  begun = refl;
  closed_before = tt;
  current = λ live. refl;
  counted = λ n. refl;
}

route_job-AreCoherent :
    (o : OwnerId) (f : Job → Job) (m : Map Job)
    → ((j : Job) → IsCoherent j → IsCoherent (f j))
    → AreCoherent m
    → AreCoherent (route_job o f m)
unfolding route_job
route_job-AreCoherent (OwnerId.job id) f m k h = modify-AllValues IsCoherent id f m k h
route_job-AreCoherent (OwnerId.agent_run id) f m k h = h

link_workspace-AreCoherent :
    (o : Option OwnerId) (id path : String) (m : Map Job)
    → AreCoherent m
    → AreCoherent (link_workspace o id path m)
unfolding link_workspace
link_workspace-AreCoherent none id path m h = h
link_workspace-AreCoherent (some o) id path m h =
    route_job-AreCoherent o _ m (λ j c. IsCoherent-of_same j _ refl refl refl c) h

failed-IsCoherent :
    (e : String) (j : Job) → IsCoherent j → IsCoherent (unless_terminal (fail_job e) j)
unfolding fail_job
failed-IsCoherent e j c = unless_terminal-IsCoherent _ j c (IsCoherent-of_same j _ refl refl refl c)

exited-IsCoherent :
    (x : Option ℤ) (j : Job) → IsCoherent j → IsCoherent (unless_terminal (exit_job x) j)
unfolding exit_job fail_job
exited-IsCoherent x j c =
    unless_terminal-IsCoherent _ j c
      (IsCoherent-of_same j (exit_job x j) (ground arith) (ground arith) (ground arith) c)

module _ (s : MaterializedState) (h : AreCoherent s.jobs) where
  store_signal-AreCoherent : (a : String) (g : AgentSignal) → AreCoherent (store_signal a g s).jobs
  unfolding store_signal
  store_signal-AreCoherent a g = ground (
    arith,
    h,
    modify_first-AllValues IsCoherent (job_has_agent a) (signal_job g) s.jobs
        (λ j c. unfold signal_job in IsCoherent-of_same j _ refl refl refl c) h,
  )

  job_advanced-AreCoherent :
      (t : ℕ) (id step : String) → AreCoherent (job_advanced t id step s).jobs
  unfolding job_advanced end_job
  job_advanced-AreCoherent t id step = ground (
    arith,
    h,
    modify-AllValues IsCoherent id (advance step t) s.jobs (λ j c. advance-IsCoherent step t j c) h,
  )

pub apply_event-AreCoherent :
    (t : ℕ) (e : Event) (s : MaterializedState)
    → AreCoherent s.jobs
    → AreCoherent (apply_event t e s).jobs
unfolding apply_event
apply_event-AreCoherent t (Event.agent_working a o) s h =
    route_job-AreCoherent o _ s.jobs (λ j c. IsCoherent-of_same j _ refl refl refl c) h
apply_event-AreCoherent t (Event.agent_exited a x o) s h =
    route_job-AreCoherent o _ s.jobs (exited-IsCoherent x) h
apply_event-AreCoherent t (Event.agent_failed a e o) s h =
    route_job-AreCoherent o _ s.jobs (failed-IsCoherent _) h
apply_event-AreCoherent t (Event.agent_gone a o) s h =
    route_job-AreCoherent o _ s.jobs (failed-IsCoherent _) h
apply_event-AreCoherent t (Event.agent_signal a AgentSignalKind.continue m) s h = h
apply_event-AreCoherent t (Event.agent_signal a k m) s h = store_signal-AreCoherent s h a _
apply_event-AreCoherent t (Event.job_created id kind name hash cwd vars step at ns cron) s h =
    insert-AllValues IsCoherent id _ s.jobs (new_job-IsCoherent _ at) h
apply_event-AreCoherent t (Event.job_advanced id step) s h = job_advanced-AreCoherent s h t id step
apply_event-AreCoherent t (Event.job_updated id vars) s h =
    modify-AllValues IsCoherent id _ s.jobs (λ j c. IsCoherent-of_same j _ refl refl refl c) h
apply_event-AreCoherent t (Event.job_cancelling id) s h =
    modify-AllValues IsCoherent id _ s.jobs (λ j c. IsCoherent-of_same j _ refl refl refl c) h
apply_event-AreCoherent t (Event.job_deleted id) s h = remove-AllValues IsCoherent id s.jobs h
apply_event-AreCoherent t (Event.session_created id o) s h =
    route_job-AreCoherent o _ s.jobs (λ j c. IsCoherent-of_same j _ refl refl refl c) h
apply_event-AreCoherent t (Event.session_deleted id) s h =
    map_values-AllValues IsCoherent _ s.jobs (λ j c. IsCoherent-of_same j _ refl refl refl c) h
apply_event-AreCoherent t (Event.shell_exited id step x out err) s h =
    modify-AllValues IsCoherent id _ s.jobs (exit_shell-IsCoherent x t) h
apply_event-AreCoherent t (Event.step_started id step a n) s h =
    modify-AllValues IsCoherent id _ s.jobs (start_step-IsCoherent a n) h
apply_event-AreCoherent t (Event.step_waiting id step r d) s h =
    modify-AllValues IsCoherent id _ s.jobs (wait_step-IsCoherent r d) h
apply_event-AreCoherent t (Event.step_completed id step) s h =
    modify-AllValues IsCoherent id _ s.jobs (complete_step-IsCoherent t) h
apply_event-AreCoherent t (Event.step_failed id step e) s h =
    modify-AllValues IsCoherent id _ s.jobs (fail_step-IsCoherent e t) h
apply_event-AreCoherent t (Event.workspace_created id path b o ty) s h =
    link_workspace-AreCoherent o id path s.jobs h
apply_event-AreCoherent t (Event.decision_created id job a o src ctx opts at ns) s h =
    route_job-AreCoherent o _ s.jobs (λ j c. IsCoherent-of_same j _ refl refl refl c) h
apply_event-AreCoherent t (Event.runbook_loaded hash v r) s h = ground (arith, h)
apply_event-AreCoherent t _ s h = h

-- After any replay from jobs with coherent histories, every job's history is coherent: it is not
-- empty, all records but the last are finished, the last record is that of the current step unless
-- the job has ended, and each step's visit counter is the number of its records after the first
-- record, modulo 2 ^ 32.
pub replay-AreCoherent :
    (es : List (ℕ × Event)) (s : MaterializedState)
    → AreCoherent s.jobs
    → AreCoherent (replay es s).jobs
replay-AreCoherent es s h = replay_keeps (λ q. AreCoherent q.jobs) apply_event-AreCoherent es s h
