-- ===== src/Tests/Steps.antt =====
-- The properties about the steps of a job and its end, and about lookups, at concrete inputs.
use oddjobs.Prelude.{
  ℕ, List, if◌then◌else◌, ltb, ◌%◌, ◌^◌, unwrap_or, ◌++◌, ◌*◌, String, none, some, [], ◌∷◌, true,
  false, ◌≡◌, ◌≢◌, refl, ◌⊎◌, arith, decimal,
}
use oddjobs.Prelude.Map
use oddjobs.Prelude.Map.{AllValues}
use oddjobs.Core.Event.{Event}
use oddjobs.Core.Tracker.{inc_u32}
use oddjobs.Core.Job.{
  Job, StepStatus, StepOutcome, new_with_epoch_ms, is_terminal, is_terminal_step, get_step_visits,
}
use oddjobs.Storage.State.{MaterializedState, empty_state}
use oddjobs.Storage.Apply.{apply_event}
use oddjobs.Storage.Apply.Jobs.{skips}
use oddjobs.Storage.Ending.{IsFreeOf, IsClosedFor, job_advanced-ends}
use oddjobs.Storage.Lookup.{get_by_prefix, prefix_matches, only}
use oddjobs.Storage.Lookup.Prefixes.{IsOnlyMatch, get_by_prefix-some}
use oddjobs.Engine.Steps.{failure_effects, cancellation_effects, completion_effects}
use oddjobs.Engine.Steps.Ends.{HasEnded, closed_history, after_effects, effects-HasEnded}
use oddjobs.Engine.Steps.Redelivery.{fail_over, visits_of, fail_over_redelivered}
use oddjobs.Storage.Replay.{replay}
use oddjobs.Storage.Invariant.Histories.{revisits}
use oddjobs.Engine.Breaker.{breaker_error, breaker_effects, replay-breaker_effects}
use oddjobs.Engine.Vars.{namespace_vars}
use oddjobs.Engine.Vars.Scoping.{AreScoped, namespace_vars-twice}
use oddjobs.Engine.Duration.{DurationResult, parse_duration}
use oddjobs.Engine.Duration.Units.{TimeUnit, unit_text, unit_millis, parse_duration-unit}

-- A job on its first step, with a session.
abbrev a_job : Job
unfolding new_with_epoch_ms
a_job =
    record (new_with_epoch_ms
      (record {
        id = "job-1";
        name = "build";
        kind = "build";
        vars = [];
        runbook_hash = "hash";
        cwd = "/tmp";
        initial_step = "init";
        namespace = "";
        cron_name = none;
      })
      20) { session_id = some "tmux-1" }

abbrev running : MaterializedState
running = record empty_state { jobs = ("job-1", a_job) ∷ [] }

found : Map.get a_job.id running.jobs ≡ some a_job
unfolding new_with_epoch_ms Map.get
found = refl

is_live : is_terminal a_job ≡ false
unfolding new_with_epoch_ms is_terminal is_terminal_step
is_live = refl

effects-HasEnded_example :
    let was_failed = closed_history (StepOutcome.failed (unwrap_or a_job.error "")) 30 a_job in
    HasEnded a_job.id "failed" StepStatus.failed
      (some "exit code 1")
      was_failed
      (after_effects 30 (failure_effects a_job "exit code 1") running)
    × HasEnded a_job.id "cancelled" StepStatus.failed
        (some "cancelled")
        was_failed
        (after_effects 30 (cancellation_effects a_job) running)
    × HasEnded a_job.id "done" StepStatus.completed a_job.error
        (closed_history StepOutcome.completed 30 a_job)
        (after_effects 30 (completion_effects a_job) running)
effects-HasEnded_example = effects-HasEnded 30 running a_job found is_live "exit code 1"

on_live : is_terminal_step "repair" ≡ false
unfolding is_terminal_step
on_live = refl

fail_over_redelivered_example :
    let s = after_effects 30 (fail_over a_job "repair" "exit code 1") running in
    (visits_of "repair" a_job.id s ≡ some (inc_u32 (get_step_visits "repair" a_job)))
    × (visits_of "repair" a_job.id (after_effects 30 (fail_over a_job "repair" "exit code 1") s)
        ≡ some (inc_u32 (inc_u32 (get_step_visits "repair" a_job))))
fail_over_redelivered_example =
    fail_over_redelivered 30 "repair" "exit code 1" on_live running a_job found

moves : skips "done" (Map.get "job-1" running.jobs) ≡ false
unfolding skips new_with_epoch_ms Map.get
moves = refl

done_ends : is_terminal_step "done" ≡ true
unfolding is_terminal_step
done_ends = refl

job_advanced-ends_example :
    let s' = apply_event 30 (Event.job_advanced "job-1" "done") running in
    AllValues (IsFreeOf "job-1") s'.workers
    × AllValues (IsClosedFor "job-1") s'.decisions
    × ((k : String) → "job-1" ≢ k → Map.get k s'.jobs ≡ Map.get k running.jobs)
job_advanced-ends_example = job_advanced-ends 30 "job-1" "done" running moves done_ends

by_prefix : get_by_prefix "job" running.jobs ≡ some a_job
unfolding get_by_prefix prefix_matches only Map.get new_with_epoch_ms
by_prefix = refl

get_by_prefix-some_example :
    (Map.get "job" running.jobs ≡ some a_job)
    ⊎ ((Map.get "job" running.jobs ≡ none) × IsOnlyMatch "job" a_job running.jobs)
get_by_prefix-some_example = get_by_prefix-some "job" a_job running.jobs by_prefix

parse_duration-unit_example :
    parse_duration (decimal 90 ++ unit_text TimeUnit.minute)
    ≡ DurationResult.ok (90 * unit_millis TimeUnit.minute)
parse_duration-unit_example = parse_duration-unit 90 TimeUnit.minute (omega arith)

-- The log of a job that has only been created, and the job.
abbrev created_log : List (ℕ × Event)
created_log =
    (20, Event.job_created "job-1" "build" "build" "hash" "/tmp" [] "init" 20 "" none) ∷ []

abbrev created_job : Job
created_job = record a_job { session_id = none }

created_found : Map.get "job-1" (replay created_log empty_state).jobs ≡ some created_job
unfolding replay apply_event Map.get Map.insert new_with_epoch_ms
created_found = refl

replay-breaker_effects_example : breaker_effects "init" created_job ≡ (
    if ltb 5 (revisits "init" created_job.step_history % 2 ^ 32)
    then some (
        failure_effects created_job
          (breaker_error "init" (revisits "init" created_job.step_history % 2 ^ 32)))
    else none)
replay-breaker_effects_example =
    replay-breaker_effects created_log empty_state "job-1" "init" created_job tt created_found

abbrev two_vars : List (String × String)
two_vars = ("branch", "main") ∷ ("item.id", "7") ∷ []

namespace_vars-twice_example :
    AreScoped (namespace_vars two_vars)
    × (namespace_vars (namespace_vars two_vars) ≡ namespace_vars two_vars)
namespace_vars-twice_example = namespace_vars-twice two_vars
