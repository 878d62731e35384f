-- ===== src/Engine/Breaker.antt =====
-- crates/engine/src/runtime/job.rs, the circuit breaker of `start_step`.
use oddjobs.Prelude.{
  ◌++◌, ℕ, ◌%◌, ◌^◌, String, Option, none, some, List, Bool, ◌≡◌, refl, if◌then◌else◌, ltb, decimal,
}
use oddjobs.Prelude.Map
use oddjobs.Prelude.Map.{Map, AllValues}
use oddjobs.Prelude.Map.Laws.{get-AllValues}
use oddjobs.Core.Effect.{Effect}
use oddjobs.Core.Event.{Event}
use oddjobs.Core.Job.{Job, max_step_visits, get_step_visits}
use oddjobs.Storage.State.{MaterializedState}
use oddjobs.Storage.Replay.{replay}
use oddjobs.Storage.Invariant.Histories.{IsCoherent, revisits}
use oddjobs.Storage.Invariant.Jobs.{AreCoherent, replay-AreCoherent}
use oddjobs.Engine.Steps.{failure_effects}

-- `visits > MAX_STEP_VISITS`
unfoldable pub trips : String → Job → Bool
trips step_name job = ltb max_step_visits (get_step_visits step_name job)

unfoldable pub breaker_error : String → ℕ → String
breaker_error step_name visits =
    "circuit breaker: step '"
    ++ step_name
    ++ "' entered "
    ++ decimal visits
    ++ " times (limit "
    ++ decimal max_step_visits
    ++ ")"

-- What `start_step` does in place of starting the step, or nothing when it goes on.
unfoldable pub breaker_effects : String → Job → Option (List Effect)
breaker_effects step_name job =
    if trips step_name job
    then some (failure_effects job (breaker_error step_name (get_step_visits step_name job)))
    else none

-- In the state after any replay, the circuit breaker of a job trips for a step just when its history
-- has more than five records of the step after the first record (modulo 2 ^ 32), and then the job is
-- failed instead.
pub replay-breaker_effects :
    (es : List (ℕ × Event)) (s : MaterializedState) (id step : String) (j : Job)
    → AreCoherent s.jobs
    → Map.get id (replay es s).jobs ≡ some j
    → breaker_effects step j ≡ (
        if ltb 5 (revisits step j.step_history % 2 ^ 32)
        then some (failure_effects j (breaker_error step (revisits step j.step_history % 2 ^ 32)))
        else none)
unfolding breaker_effects trips
replay-breaker_effects es s id step j h found =
    let coherent : IsCoherent j =
      get-AllValues IsCoherent id j (replay es s).jobs (replay-AreCoherent es s h) found in
    rw (coherent.counted step) refl
