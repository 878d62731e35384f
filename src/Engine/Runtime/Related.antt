-- ===== src/Engine/Runtime/Related.antt =====
-- Relations between the state before and after a run, and the events that it returns.
use oddjobs.Prelude.{ℕ, String, Option, none, some, List, [], ◌∷◌, ◌==◌, if_intro, All}
use mathlib.Core.Path.{subst}
use mathlib.Core.List.{◌++◌}
use oddjobs.Prelude.Map
use oddjobs.Prelude.Map.{Map}
use oddjobs.Core.Effect.{Effect}
use oddjobs.Core.Event.{Event, Value}
use oddjobs.Core.Names.{scoped_name}
use oddjobs.Storage.State.{MaterializedState}
use oddjobs.Engine.Steps.{append_effects}
use oddjobs.Engine.Worker.{WorkerState, QueueType, should_poll}
use oddjobs.Engine.Retry.{RetryConfig, may_retry, count_of, find_item}
use oddjobs.Engine.Runtime.{
  World, Run, RuntimeError, ◌>>◌, quietly, give, raise, Services, match_runbook, cached_runbook,
}
use oddjobs.Engine.Runtime.Reload.{refresh_worker_runbook}
use oddjobs.Engine.Runtime.Executor.{execute, execute_all}
use oddjobs.Engine.Runtime.Completion.{
  owning_worker, retry_or_bury, retry_or_dead, settle_item, poll_external, poll_persisted_queue,
  poll, poll_worker, poll_if_free, after_refresh, after_release, release_from,
  check_worker_job_complete,
}
use oddjobs.Engine.Runtime.Outcomes.{OnOk, OnOk-weaken, then-OnOk, match_runbook-OnOk}
use oddjobs.Runbook.{Runbook, QueueDef}

-- The events about an item that the end of its job emits.
pub data IsItemEvent : Event → Type 0 where
  completed : (q i n : String) → IsItemEvent (Event.queue_completed q i n)
  failed : (q i e n : String) → IsItemEvent (Event.queue_failed q i e n)
  dead : (q i n : String) → IsItemEvent (Event.queue_item_dead q i n)

pub append_effects-All :
    (P : Effect → Type 0) (a b : List Effect) → All P a → All P b → All P (append_effects a b)
unfolding append_effects
append_effects-All P [] b h k = k
append_effects-All P (e ∷ a) b (h, hs) k = (h, append_effects-All P a b hs k)

abbrev pub Relation : Type 1
Relation = List Event → MaterializedState → MaterializedState → Type 0

abbrev pub IsRelated : Relation → Run → Type 0
IsRelated R r = (w : World) → OnOk (λ es t. R es w.state t) (r w)

module _ (R : Relation) (same : (s : MaterializedState) → R [] s s)
    (join : (es fs : List Event) (s t u : MaterializedState)
      → R es s t
      → R fs t u
      → R (es ++ fs) s u) where
  pub then-Rel : (r next : Run) → IsRelated R r → IsRelated R next → IsRelated R (r >> next)
  then-Rel r next h k w =
      then-OnOk (λ es t. R es w.state t) (λ es t. R es w.state t) r next w (h w)
        λ es u reached.
          OnOk-weaken (λ fs t. R fs u.state t) (λ fs t. R (es ++ fs) w.state t) (next u) (k u)
            λ fs t more. join es fs w.state u.state t reached more

  pub give-Rel : IsRelated R (give [])
  unfolding give
  give-Rel w = same w.state

  raise-Rel : (e : RuntimeError) → IsRelated R (raise e)
  unfolding raise
  raise-Rel e w = tt

  pub match_runbook-Rel :
      (v : Services) (hash : String) (otherwise : RuntimeError → Run) (next : Runbook → Run)
      → ((e : RuntimeError) → IsRelated R (otherwise e))
      → ((runbook : Runbook) → IsRelated R (next runbook))
      → IsRelated R (match_runbook v hash otherwise next)
  match_runbook-Rel v hash otherwise next f h w =
      match_runbook-OnOk (λ es t. R es w.state t) v hash otherwise next w (λ e. f e w)
        λ runbook u e. subst (λ s. OnOk (λ es t. R es s t) (next runbook u)) e (h runbook u)

  pub cached_runbook-Rel :
      (v : Services) (hash : String) (next : Runbook → Run)
      → ((runbook : Runbook) → IsRelated R (next runbook))
      → IsRelated R (cached_runbook v hash next)
  unfolding cached_runbook
  cached_runbook-Rel v hash next = match_runbook-Rel v hash raise next raise-Rel

-- The end of a job on its worker.
module _ (R : Relation) (same : (s : MaterializedState) → R [] s s)
    (join : (es fs : List Event) (s t u : MaterializedState)
      → R es s t
      → R fs t u
      → R (es ++ fs) s u)
    (v : Services)
    (emits : (e : Event) → IsItemEvent e → IsRelated R (execute_all v (Effect.emit e ∷ [])))
    (timed : (id : String) (n : ℕ) → IsRelated R (quietly (execute v (Effect.set_timer id n))))
    (asks : (n c d : String) → IsRelated R (execute_all v (Effect.poll_queue n c d ∷ [])))
    (polled : (name : String) (items : List Value) (s : MaterializedState)
      → R (Event.worker_poll_complete name items ∷ []) s s)
    (refreshed : (name : String) → IsRelated R (refresh_worker_runbook v name)) where
  retry_or_bury-Rel :
      (state : WorkerState) (item_id : String) (retry_config : Option RetryConfig)
      → IsRelated R (retry_or_bury v state item_id retry_config)
  unfolding retry_or_bury
  retry_or_bury-Rel state item_id retry_config w =
      if_intro (IsRelated R)
        (may_retry retry_config
          (count_of (find_item (scoped_name state.namespace state.queue_name) item_id w.state)))
        _ _ (timed _ _) (emits _ (IsItemEvent.dead _ _ _)) w

  settle_item-Rel :
      (terminal_step : String) (state : WorkerState) (hash : String) (type : QueueType)
      (item_id : Option String)
      → IsRelated R (settle_item v terminal_step state hash type item_id)
  unfolding settle_item retry_or_dead
  settle_item-Rel terminal_step state hash QueueType.persisted (some item_id) =
      if_intro (IsRelated R) (terminal_step == "done") _ _ (emits _ (IsItemEvent.completed _ _ _)) (
        then-Rel R same join _ _ (emits _ (IsItemEvent.failed _ _ _ _))
          (cached_runbook-Rel R same join v hash _ λ runbook. retry_or_bury-Rel state item_id _))
  settle_item-Rel terminal_step state hash QueueType.persisted none = give-Rel R same join
  settle_item-Rel terminal_step state hash QueueType.external item_id = give-Rel R same join

  poll_external-Rel :
      (name : String) (state : WorkerState) (q : Option QueueDef)
      → IsRelated R (poll_external v name state q)
  unfolding poll_external
  poll_external-Rel name state none = give-Rel R same join
  poll_external-Rel name state (some q) = asks _ _ _

  -- The event of the poll does not change the state.
  polled-Rel :
      (name queue_name namespace : String)
      → IsRelated R (poll_persisted_queue v name queue_name namespace)
  unfolding poll_persisted_queue give
  polled-Rel name queue_name namespace w = polled name _ w.state

  poll-Rel :
      (name : String) (state : WorkerState) (hash : String) (type : QueueType)
      → IsRelated R (poll v name state hash type)
  unfolding poll
  poll-Rel name state hash QueueType.external =
      cached_runbook-Rel R same join v hash _ λ runbook. poll_external-Rel name state _
  poll-Rel name state hash QueueType.persisted = polled-Rel name state.queue_name state.namespace

  poll_worker-Rel :
      (name : String) (state : WorkerState) (hash : String) (o : Option WorkerState)
      → IsRelated R (poll_worker v name state hash o)
  unfolding poll_worker
  poll_worker-Rel name state hash none = give-Rel R same join
  poll_worker-Rel name state hash (some now) =
      if_intro (IsRelated R) (should_poll now) _ _ (poll-Rel name state hash state.queue_type)
        (give-Rel R same join)

  poll_if_free-Rel :
      (name : String) (state : WorkerState) (hash : String)
      → IsRelated R (poll_if_free v name state hash)
  unfolding poll_if_free
  poll_if_free-Rel name state hash w =
      poll_worker-Rel name state hash (Map.get name w.worker_states) w

  after_refresh-Rel :
      (job_id terminal_step name : String) (state : WorkerState)
      → IsRelated R (after_refresh v job_id terminal_step name state)
  unfolding after_refresh
  after_refresh-Rel job_id terminal_step name state w =
      then-Rel R same join _ _ (settle_item-Rel terminal_step state _ state.queue_type _)
        (poll_if_free-Rel name state _) w

  release_from-Rel :
      (job_id terminal_step : String) (o : Option (String × WorkerState))
      → IsRelated R (release_from v job_id terminal_step o)
  unfolding release_from after_release
  release_from-Rel job_id terminal_step none w = unfold give in same w.state
  release_from-Rel job_id terminal_step (some (name, state)) w =
      then-Rel R same join (refresh_worker_runbook v name) _ (refreshed name)
        (after_refresh-Rel job_id terminal_step name state) _

  pub check-Rel :
      (job_id terminal_step : String)
      → IsRelated R (check_worker_job_complete v job_id terminal_step)
  unfolding check_worker_job_complete
  check-Rel job_id terminal_step w =
      release_from-Rel job_id terminal_step (owning_worker job_id w.worker_states) w
