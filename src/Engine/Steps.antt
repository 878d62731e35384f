-- ===== src/Engine/Steps.antt =====
-- crates/engine/src/steps.rs: the effects that move a job between steps.
pub mod Ends
pub mod Redelivery
use oddjobs.Prelude.{String, Option, none, some, List, [], ◌∷◌, Bool, if◌then◌else◌}
use oddjobs.Core.Effect.{Effect}
use oddjobs.Core.Event.{Event}
use oddjobs.Core.Job.{Job, is_terminal}
use oddjobs.Core.Timer.{liveness, exit_deferred}

unfoldable pub step_start_effects : String → String → List Effect
step_start_effects job_id step = Effect.emit (Event.step_started job_id step none none) ∷ []

unfoldable pub step_transition_effects : Job → String → List Effect
step_transition_effects job next_step = Effect.emit (Event.job_advanced job.id next_step) ∷ []

unfoldable pub failure_transition_effects : Job → String → String → List Effect
failure_transition_effects job on_fail error =
    Effect.emit (Event.step_failed job.id job.step error)
    ∷ Effect.emit (Event.job_advanced job.id on_fail)
    ∷ []

-- Kill the session, if there is one.
unfoldable pub session_effects : Option String → List Effect
session_effects none = []
session_effects (some session_id) =
    Effect.kill_session session_id ∷ Effect.emit (Event.session_deleted session_id) ∷ []

unfoldable pub failure_effects : Job → String → List Effect
failure_effects job error =
    Effect.cancel_timer (liveness job.id)
    ∷ Effect.cancel_timer (exit_deferred job.id)
    ∷ Effect.emit (Event.job_advanced job.id "failed")
    ∷ Effect.emit (Event.step_failed job.id job.step error)
    ∷ session_effects job.session_id

unfoldable pub cancellation_transition_effects : Job → String → List Effect
cancellation_transition_effects job on_cancel_step =
    Effect.emit (Event.step_failed job.id job.step "cancelled")
    ∷ Effect.emit (Event.job_advanced job.id on_cancel_step)
    ∷ []

-- `if !job.is_terminal() { effects.push(…) }`, then the rest.
unfoldable pub advance_unless_terminal : Job → String → List Effect → List Effect
advance_unless_terminal job step rest =
    if is_terminal job then rest else Effect.emit (Event.job_advanced job.id step) ∷ rest

unfoldable pub cancellation_effects : Job → List Effect
cancellation_effects job =
    Effect.cancel_timer (liveness job.id)
    ∷ Effect.cancel_timer (exit_deferred job.id)
    ∷ advance_unless_terminal job "cancelled" (
        Effect.emit (Event.step_failed job.id job.step "cancelled")
        ∷ session_effects job.session_id)

unfoldable pub completion_effects : Job → List Effect
completion_effects job =
    Effect.cancel_timer (liveness job.id)
    ∷ Effect.cancel_timer (exit_deferred job.id)
    ∷ advance_unless_terminal job "done"
        (Effect.emit (Event.step_completed job.id job.step) ∷ session_effects job.session_id)

-- Effects that are executed one list after the other.
unfoldable pub append_effects : List Effect → List Effect → List Effect
append_effects [] more = more
append_effects (e ∷ effects) more = e ∷ append_effects effects more

-- The events among the effects, which the executor applies in their order.
unfoldable pub emitted : List Effect → List Event
emitted [] = []
emitted (Effect.emit e ∷ effects) = e ∷ emitted effects
emitted (_ ∷ effects) = emitted effects
