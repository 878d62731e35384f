-- ===== src/Storage/Idempotent/Queues.antt =====
-- The handlers of queues, decisions and standalone runs, made twice.
use mathlib.Core.Option
use oddjobs.Prelude.{
  ℕ, String, Option, none, some, List, [], ◌∷◌, not, ◌==◌, ◌≡◌, refl, arith, eq_refl, any-push,
  modify_first, modify_first_absorb,
}
use oddjobs.Prelude.{retain as list_retain, retain_idem as list_retain_idem}
use oddjobs.Prelude.Map
use oddjobs.Prelude.Map.{Map}
use oddjobs.Prelude.Map.Laws.{
  modify_absorb, get-modify_self, retain_idem, insert_absorb, or_insert_absorb, remove_idem,
  contains_key-insert,
}
use oddjobs.Core.Agent.{AgentRecord}
use oddjobs.Core.AgentRun.{AgentRun, AgentRunStatus}
use oddjobs.Core.Decision.{Decision}
use oddjobs.Core.Job.{StepStatus}
use oddjobs.Core.Names.{scoped_name}
use oddjobs.Storage.State.{MaterializedState, QueueItem}
use oddjobs.Storage.Apply.Queues.{
  has_id, new_item, push_item, queue_pushed, on_item, take, complete, fail, retry, bury,
  queue_dropped, is_failed_item,
}
use oddjobs.Storage.Apply.Decisions.{supersede, add_decision, decision_created, decision_resolved}
use oddjobs.Storage.Apply.Runs.{
  agent_run_created, start_run, index_run, agent_run_started, set_status, run_survives,
  agent_run_status_changed, agent_run_deleted, standalone_agent,
}
use oddjobs.Storage.Idempotent.Agents.{route_job_absorb}
use oddjobs.Storage.Idempotent.Entities.{route_run_absorb}

push_item_idem :
    (i : QueueItem) (xs : List QueueItem) → push_item i (push_item i xs) ≡ push_item i xs
unfolding push_item has_id
push_item_idem i xs = ground (arith, any-push (λ (j : QueueItem). j.id == i.id) xs i, eq_refl i.id)

or_insert-modify :
    (k : String) (f : List QueueItem → List QueueItem) (m : Map (List QueueItem))
    → Map.or_insert k [] (Map.modify k f (Map.or_insert k [] m))
      ≡ Map.modify k f (Map.or_insert k [] m)
unfolding Map.or_insert Map.modify
or_insert-modify k f [] = ground (arith, eq_refl k)
or_insert-modify k f ((j, v) ∷ m) = ground (arith, or_insert-modify k f m)

modify_item_absorb :
    (id : String) (f : QueueItem → QueueItem)
    → ((i : QueueItem) → f (f i) ≡ f i)
    → ((i : QueueItem) → (f i).id ≡ i.id)
    → (xs : List QueueItem)
    → modify_first (has_id id) f (modify_first (has_id id) f xs) ≡ modify_first (has_id id) f xs
modify_item_absorb id f h k xs =
    modify_first_absorb (has_id id) f f xs h (λ i. unfold has_id in rw (k i))

module _ (s : MaterializedState) where
  pub queue_pushed_idem :
      (q id : String) (d : Map String) (at : ℕ) (ns : String)
      → queue_pushed q id d at ns (queue_pushed q id d at ns s) ≡ queue_pushed q id d at ns s
  unfolding queue_pushed
  queue_pushed_idem q id d at ns =
      let key = scoped_name ns q in
      let f = push_item (new_item q id d at) in
      rw
        (
          or_insert-modify key f s.queue_items,
          modify_absorb key f f (Map.or_insert key [] s.queue_items)
              (push_item_idem (new_item q id d at)),
        )
        refl

  on_item_idem :
      (q id : String) (f : QueueItem → QueueItem) (ns : String)
      → ((i : QueueItem) → f (f i) ≡ f i)
      → ((i : QueueItem) → (f i).id ≡ i.id)
      → on_item q id f ns (on_item q id f ns s) ≡ on_item q id f ns s
  unfolding on_item
  on_item_idem q id f ns h k =
      rw
        (modify_absorb (scoped_name ns q) (modify_first (has_id id) f) (modify_first (has_id id) f)
          s.queue_items (modify_item_absorb id f h k))
        refl

  module _ (q id ns : String) where
    pub queue_taken_idem :
        (w : String)
        → on_item q id (take w) ns (on_item q id (take w) ns s) ≡ on_item q id (take w) ns s
    unfolding take
    queue_taken_idem w = on_item_idem q id (take w) ns (λ i. refl) (λ i. refl)

    pub queue_completed_idem :
        on_item q id complete ns (on_item q id complete ns s) ≡ on_item q id complete ns s
    unfolding complete
    queue_completed_idem = on_item_idem q id complete ns (λ i. refl) (λ i. refl)

    pub queue_failed_idem : on_item q id fail ns (on_item q id fail ns s) ≡ on_item q id fail ns s
    unfolding fail is_failed_item
    queue_failed_idem = on_item_idem q id fail ns (λ i. refl) (λ i. refl)

    pub queue_item_retry_idem :
        on_item q id retry ns (on_item q id retry ns s) ≡ on_item q id retry ns s
    unfolding retry
    queue_item_retry_idem = on_item_idem q id retry ns (λ i. refl) (λ i. refl)

    pub queue_item_dead_idem :
        on_item q id bury ns (on_item q id bury ns s) ≡ on_item q id bury ns s
    unfolding bury
    queue_item_dead_idem = on_item_idem q id bury ns (λ i. refl) (λ i. refl)

    pub queue_dropped_idem :
        queue_dropped q id ns (queue_dropped q id ns s) ≡ queue_dropped q id ns s
    unfolding queue_dropped
    queue_dropped_idem =
        rw
          (modify_absorb (scoped_name ns q) (list_retain (λ i. not (has_id id i)))
            (list_retain (λ i. not (has_id id i))) s.queue_items
            (list_retain_idem (λ i. not (has_id id i))))
          refl

  add_decision_idem :
      (d : Decision) (m : Map Decision) → add_decision d (add_decision d m) ≡ add_decision d m
  unfolding add_decision
  add_decision_idem d m = ground (
    arith,
    contains_key-insert d.id d (Map.map_values (supersede d.owner d.id d.created_at_ms) m),
  )

  pub decision_created_idem :
      (d : Decision) → decision_created d (decision_created d s) ≡ decision_created d s
  unfolding decision_created
  decision_created_idem d =
      rw
        (
          add_decision_idem d s.decisions,
          route_job_absorb d.owner (λ j. record j { step_status = StepStatus.waiting (some d.id) })
              s.jobs (λ j. refl),
          route_run_absorb d.owner (λ r. record r { status = AgentRunStatus.waiting })
              (λ r. record r { status = AgentRunStatus.waiting }) s.agent_runs (λ r. refl),
        )
        refl

  pub decision_resolved_idem :
      (id : String) (c : Option ℕ) (m : Option String) (at : ℕ)
      → decision_resolved id c m at (decision_resolved id c m at s) ≡ decision_resolved id c m at s
  unfolding decision_resolved
  decision_resolved_idem id c m at =
      rw
        (modify_absorb id
          (λ (d : Decision). record d { chosen = c; message = m; resolved_at_ms = some at })
          (λ d. record d { chosen = c; message = m; resolved_at_ms = some at }) s.decisions
          (λ d. refl))
        refl

  pub agent_run_created_idem :
      (r : AgentRun) → agent_run_created r (agent_run_created r s) ≡ agent_run_created r s
  unfolding agent_run_created
  agent_run_created_idem r = simp insert_absorb

  index_run_absorb :
      (t : ℕ) (id a : String) (o : Option AgentRun) (m : Map AgentRecord)
      → index_run t id a (Option.map (start_run a t) o) (index_run t id a o m)
        ≡ index_run t id a o m
  unfolding index_run
  index_run_absorb t id a none m = refl
  index_run_absorb t id a (some r) m =
      or_insert_absorb a (standalone_agent t id a r) (standalone_agent t id a (start_run a t r)) m

  pub agent_run_started_idem :
      (t : ℕ) (id a : String)
      → agent_run_started t id a (agent_run_started t id a s) ≡ agent_run_started t id a s
  unfolding agent_run_started
  agent_run_started_idem t id a =
      rw
        (
          get-modify_self id (start_run a t) s.agent_runs,
          modify_absorb id (start_run a t) (start_run a t) s.agent_runs
              (λ r. unfold start_run in refl),
          index_run_absorb t id a (Map.get id s.agent_runs) s.agents,
        )
        refl

  pub agent_run_status_changed_idem :
      (t : ℕ) (id : String) (st : AgentRunStatus) (r : Option String)
      → agent_run_status_changed t id st r (agent_run_status_changed t id st r s)
        ≡ agent_run_status_changed t id st r s
  unfolding agent_run_status_changed
  agent_run_status_changed_idem t id st r = ground (
    arith,
    modify_absorb id (set_status st r t) (set_status st r t) s.agent_runs
        (λ q. unfold set_status in ground arith),
    retain_idem (run_survives id) s.decisions,
  )

  pub agent_run_deleted_idem :
      (id : String) → agent_run_deleted id (agent_run_deleted id s) ≡ agent_run_deleted id s
  unfolding agent_run_deleted
  agent_run_deleted_idem id = simp (remove_idem, retain_idem)
