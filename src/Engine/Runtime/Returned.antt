-- ===== src/Engine/Runtime/Returned.antt =====
-- The runs that return every event that they apply.
use oddjobs.Prelude.{ℕ, String, Option, none, some, List, [], ◌∷◌, ◌≡◌, refl, if_intro, All}
use oddjobs.Prelude.Map
use oddjobs.Prelude.Map.{Map}
use oddjobs.Core.Effect.{Effect}
use oddjobs.Core.Event.{Event}
use oddjobs.Core.Job.{Job, is_terminal}
use oddjobs.Storage.State.{MaterializedState}
use oddjobs.Engine.Steps.{
  session_effects, failure_effects, cancellation_effects, completion_effects,
  advance_unless_terminal,
}
use oddjobs.Engine.Runtime.{
  Run, RuntimeError, quietly, without_events, raise, Services, match_runbook, cached_runbook,
}
use oddjobs.Engine.Runtime.Executor.{note_effect, note, execute_inner, execute, execute_all}
use oddjobs.Engine.Runtime.Jobs.{
  emit_notify, workspace_of, delete_if_there, workspace_cleanup_effects,
}
use oddjobs.Engine.Runtime.Transitions.{execute_with_cleanup}
use oddjobs.Engine.Runtime.Applied.{ReturnsAll, give-ReturnsAll}
use oddjobs.Engine.Runtime.Executed.{lost_by, execute-ReturnsAll, execute_all-ReturnsAll}
use oddjobs.Engine.Runtime.Logged.{IsLoggedBy, append-IsLoggedBy}
use oddjobs.Engine.Runtime.Related.{append_effects-All, match_runbook-Rel, cached_runbook-Rel}
use oddjobs.Runbook.{Runbook}

abbrev pub AllHandled : List Effect → Type 0
AllHandled = All λ e. lost_by e ≡ []

session_effects-AllHandled : (o : Option String) → AllHandled (session_effects o)
unfolding session_effects lost_by
session_effects-AllHandled none = tt
session_effects-AllHandled (some id) = (refl, (refl, tt))

pub failure_effects-AllHandled :
    (job : Job) (error : String) → AllHandled (failure_effects job error)
unfolding failure_effects lost_by
failure_effects-AllHandled job error =
    (refl, (refl, (refl, (refl, session_effects-AllHandled job.session_id))))

unless-AllHandled :
    (job : Job) (step : String) (rest : List Effect)
    → AllHandled rest
    → AllHandled (advance_unless_terminal job step rest)
unfolding advance_unless_terminal lost_by
unless-AllHandled job step rest h = if_intro AllHandled (is_terminal job) _ _ h (refl, h)

pub cancellation_effects-AllHandled : (job : Job) → AllHandled (cancellation_effects job)
unfolding cancellation_effects lost_by
cancellation_effects-AllHandled job =
    let rest : AllHandled (
        Effect.emit (Event.step_failed job.id job.step "cancelled")
        ∷ session_effects job.session_id) =
      (refl, session_effects-AllHandled job.session_id) in
    (refl, (refl, unless-AllHandled job "cancelled" _ rest))

pub completion_effects-AllHandled : (job : Job) → AllHandled (completion_effects job)
unfolding completion_effects lost_by
completion_effects-AllHandled job =
    let rest : AllHandled
        (Effect.emit (Event.step_completed job.id job.step) ∷ session_effects job.session_id) =
      (refl, session_effects-AllHandled job.session_id) in
    (refl, (refl, unless-AllHandled job "done" _ rest))

delete-AllHandled : (o : Option String) (s : MaterializedState) → AllHandled (delete_if_there o s)
unfolding delete_if_there lost_by
delete-AllHandled none s = tt
delete-AllHandled (some ws_id) s =
    let deletes : AllHandled (Effect.delete_workspace ws_id ∷ []) = (refl, tt) in
    if_intro AllHandled (Map.contains_key ws_id s.workspaces) _ _ deletes tt

pub execute_with_cleanup-ReturnsAll :
    (v : Services) (job : Job) (effects : List Effect)
    → AllHandled effects
    → ReturnsAll (execute_with_cleanup v job effects)
unfolding execute_with_cleanup workspace_cleanup_effects
execute_with_cleanup-ReturnsAll v job effects h w =
    execute_all-ReturnsAll v _
      (append_effects-All (λ e. lost_by e ≡ []) effects _ h
        (delete-AllHandled (workspace_of job w.state) w.state))
      w

-- One event.
pub emit-ReturnsAll : (v : Services) (e : Event) → ReturnsAll (execute_all v (Effect.emit e ∷ []))
unfolding lost_by
emit-ReturnsAll v e = execute_all-ReturnsAll v (Effect.emit e ∷ []) (refl, tt)

pub raise-ReturnsAll : (e : RuntimeError) → ReturnsAll (raise e)
unfolding raise
raise-ReturnsAll e w = tt

pub set_timer-ReturnsAll :
    (v : Services) (id : String) (n : ℕ) → ReturnsAll (quietly (execute v (Effect.set_timer id n)))
unfolding quietly without_events execute note_effect note execute_inner
set_timer-ReturnsAll v id n w = refl

pub poll_queue-ReturnsAll :
    (v : Services) (n c d : String) → ReturnsAll (execute_all v (Effect.poll_queue n c d ∷ []))
unfolding lost_by
poll_queue-ReturnsAll v n c d = execute_all-ReturnsAll v _ (refl, tt)

pub match_runbook-ReturnsAll :
    (v : Services) (hash : String) (otherwise : RuntimeError → Run) (next : Runbook → Run)
    → ((e : RuntimeError) → ReturnsAll (otherwise e))
    → ((runbook : Runbook) → ReturnsAll (next runbook))
    → ReturnsAll (match_runbook v hash otherwise next)
match_runbook-ReturnsAll = match_runbook-Rel IsLoggedBy (λ s. refl) append-IsLoggedBy

pub cached_runbook-ReturnsAll :
    (v : Services) (hash : String) (next : Runbook → Run)
    → ((runbook : Runbook) → ReturnsAll (next runbook))
    → ReturnsAll (cached_runbook v hash next)
cached_runbook-ReturnsAll = cached_runbook-Rel IsLoggedBy (λ s. refl) append-IsLoggedBy

pub emit_notify-ReturnsAll :
    (v : Services) (job : Job) (o : Option String) → ReturnsAll (emit_notify v job o)
unfolding emit_notify lost_by
emit_notify-ReturnsAll v job none = give-ReturnsAll
emit_notify-ReturnsAll v job (some t) = execute-ReturnsAll v _ refl
