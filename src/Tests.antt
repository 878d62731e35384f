-- ===== src/Tests.antt =====
-- The properties at concrete inputs: the core and the state here, the engine in the child.
mod Engine
mod Steps
mod Log
mod Crash
mod Workers
mod Suggest
mod Requests
mod Runtime
use oddjobs.Prelude.{
  ℕ, String, Option, none, some, List, [], ◌∷◌, ◌≡◌, refl, inl, strip_prefix, inr, ◌≤◌, arith,
}
use oddjobs.Prelude.Map
use oddjobs.Core.Event.{Event}
use oddjobs.Core.Names.{scoped_name, split_scoped_name}
use oddjobs.Core.Names.Laws.{has_char, split_scoped_name-scoped_name}
use oddjobs.Core.Owner.{OwnerId}
use oddjobs.Core.Decision.{DecisionSource}
use oddjobs.Core.Timer.{
  owner_liveness, owner_exit_deferred, owner_cooldown, owner_idle_grace, owner_id,
}
use oddjobs.Core.Timer.Owners.{owner_id_of_cooldown}
use oddjobs.Storage.State.{MaterializedState, QueueItem, QueueItemStatus, empty_state}
use oddjobs.Storage.Apply.{apply_event}
use oddjobs.Storage.Replay.{replay}
use oddjobs.Storage.Idempotent.{apply_event_twice}
use oddjobs.Storage.Invariant.Decisions.{open_count, replay-open_count}
use oddjobs.Storage.Invariant.Queues.{HasUniqueIds, replay-HasUniqueIds}
use oddjobs.Storage.Invariant.Jobs.{AreCoherent, replay-AreCoherent}

-- A queue with one item, a job that goes through two steps, and a decision on it.
abbrev a_log : List (ℕ × Event)
a_log =
    (1, Event.queue_pushed "bugs" "item-1" [] 10 "")
    ∷ (2, Event.job_created "job-1" "build" "build" "hash" "/tmp" [] "init" 20 "" none)
    ∷ (3, Event.step_started "job-1" "init" (some "agent-1") (some "coder"))
    ∷ (
      4,
      Event.decision_created "dec-1" "job-1" none (OwnerId.job "job-1") DecisionSource.idle "stuck"
          [] 40 "",
    )
    ∷ (
      5,
      Event.decision_created "dec-2" "job-1" none (OwnerId.job "job-1") DecisionSource.idle "stuck"
          [] 50 "",
    )
    ∷ (6, Event.job_advanced "job-1" "test")
    ∷ (7, Event.queue_taken "bugs" "item-1" "fixer" "")
    ∷ []

abbrev a_state : MaterializedState
a_state = replay a_log empty_state

apply_event_twice_example :
    apply_event 9
      (Event.job_advanced "job-1" "init")
      (apply_event 8 (Event.job_advanced "job-1" "init") a_state)
    ≡ apply_event 8 (Event.job_advanced "job-1" "init") a_state
apply_event_twice_example =
    apply_event_twice 8 9 (Event.job_advanced "job-1" "init") a_state (inl refl)

replay-open_count_example :
    open_count (OwnerId.job "job-1") (replay a_log empty_state).decisions ≤ 1
unfolding open_count
replay-open_count_example = replay-open_count a_log empty_state (OwnerId.job "job-1") (omega arith)

replay-HasUniqueIds_example : HasUniqueIds (replay a_log empty_state)
replay-HasUniqueIds_example = replay-HasUniqueIds a_log empty_state (tt, tt)

replay-AreCoherent_example : AreCoherent (replay a_log empty_state).jobs
replay-AreCoherent_example = replay-AreCoherent a_log empty_state tt

split_scoped_name-scoped_name_example :
    split_scoped_name (scoped_name "shop" "bugs") ≡ ("shop", "bugs")
unfolding has_char
split_scoped_name-scoped_name_example = split_scoped_name-scoped_name "shop" "bugs" refl (λ e. refl)

owner_id_of_cooldown_example :
    owner_id (owner_cooldown (OwnerId.agent_run "run-1") "idle" 0)
    ≡ some (OwnerId.agent_run "run-1")
unfolding has_char
owner_id_of_cooldown_example = owner_id_of_cooldown (OwnerId.agent_run "run-1") "idle" 0 refl
