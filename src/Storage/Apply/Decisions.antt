-- ===== src/Storage/Apply/Decisions.antt =====
-- state.rs, `apply_event`: decisions.
use oddjobs.Prelude.{ℕ, String, Option, some, not, ◌&&◌, if◌then◌else◌}
use oddjobs.Prelude.Map
use oddjobs.Prelude.Map.{Map}
use oddjobs.Core.AgentRun.{AgentRunStatus}
use oddjobs.Core.Decision.{Decision, is_resolved}
use oddjobs.Core.Job.{StepStatus}
use oddjobs.Core.Owner.{OwnerId, owner_eq}
use oddjobs.Storage.State.{MaterializedState}
use oddjobs.Storage.Apply.Agents.{route_job}
use oddjobs.Storage.Apply.Sessions.{route_run}

-- Dismiss an open decision of the owner in favour of a newer one.
unfoldable pub supersede : OwnerId → String → ℕ → Decision → Decision
supersede owner id created_at_ms d =
    if owner_eq d.owner owner && not (is_resolved d)
    then record d { resolved_at_ms = some created_at_ms; superseded_by = some id }
    else d

unfoldable pub add_decision : Decision → Map Decision → Map Decision
add_decision d ds =
    if Map.contains_key d.id ds
    then ds
    else Map.insert d.id d (Map.map_values (supersede d.owner d.id d.created_at_ms) ds)

-- The event carries the new decision's fields; the others are `None`.
unfoldable pub decision_created : Decision → MaterializedState → MaterializedState
decision_created d s = record s {
  decisions = add_decision d s.decisions;
  jobs = route_job d.owner (λ j. record j { step_status = StepStatus.waiting (some d.id) }) s.jobs;
  agent_runs = route_run d.owner (λ r. record r { status = AgentRunStatus.waiting }) s.agent_runs;
}

unfoldable pub decision_resolved :
    String → Option ℕ → Option String → ℕ → MaterializedState → MaterializedState
decision_resolved id chosen message resolved_at_ms s = record s {
  decisions =
      Map.modify id
        (λ d. record d { chosen = chosen; message = message; resolved_at_ms = some resolved_at_ms })
        s.decisions;
}
