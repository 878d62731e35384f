-- ===== src/Storage/Idempotent/Entities.antt =====
-- The handlers of runbooks, sessions, workspaces, workers and crons, made twice.
use oddjobs.Prelude.{ℕ, String, Option, none, some, ◌==◌, ◌≡◌, refl, arith, eq_refl, any-push}
use oddjobs.Prelude.Map.{Map}
use oddjobs.Prelude.Map.Laws.{
  modify_absorb, get-insert, map_values_absorb, insert_absorb, remove_idem, contains_key-insert,
}
use oddjobs.Core.Agent.{AgentRecord}
use oddjobs.Core.AgentRun.{AgentRun}
use oddjobs.Core.Event.{Value}
use oddjobs.Core.Job.{Job}
use oddjobs.Core.Names.{scoped_name}
use oddjobs.Core.Owner.{OwnerId}
use oddjobs.Core.Workspace.{WorkspaceStatus}
use oddjobs.Storage.State.{MaterializedState, Workspace, WorkerRecord, CronRecord}
use oddjobs.Storage.Apply.Agents.{opt_is}
use oddjobs.Storage.Apply.Sessions.{
  runbook_loaded, route_run, attach_session, session_created, without, session_deleted,
  link_workspace, workspace_created, set_workspace_status, workspace_deleted,
}
use oddjobs.Storage.Apply.Workers.{
  note_root, worker_started, active_ids, dispatch, worker_item_dispatched, worker_stopped,
  worker_resized, worker_deleted, command_run,
}
use oddjobs.Storage.Apply.Crons.{last_fired, cron_started, cron_stopped, cron_fired, cron_deleted}
use oddjobs.Storage.Idempotent.Agents.{route_job_absorb}

pub route_run_absorb :
    (o : OwnerId) (f g : AgentRun → AgentRun) (m : Map AgentRun)
    → ((r : AgentRun) → g (f r) ≡ f r)
    → route_run o g (route_run o f m) ≡ route_run o f m
unfolding route_run
route_run_absorb (OwnerId.job id) f g m h = refl
route_run_absorb (OwnerId.agent_run id) f g m h = modify_absorb id f g m h

dispatch_idem : (id : String) (w : WorkerRecord) → dispatch id (dispatch id w) ≡ dispatch id w
unfolding dispatch
dispatch_idem id w = ground (arith, any-push (λ pid. pid == id) w.active_job_ids id, eq_refl id)

module _ (s : MaterializedState) where
  pub runbook_loaded_idem :
      (h : String) (v : ℕ) (r : Value)
      → runbook_loaded h v r (runbook_loaded h v r s) ≡ runbook_loaded h v r s
  unfolding runbook_loaded
  runbook_loaded_idem h v r =
      ground (arith, contains_key-insert h (record { version = v; runbook = r }) s.runbooks)

  pub session_created_idem :
      (id : String) (o : OwnerId)
      → session_created id o (session_created id o s) ≡ session_created id o s
  unfolding session_created
  session_created_idem id o =
      rw
        (
          insert_absorb,
          route_job_absorb o (λ j. record j { session_id = some id }) s.jobs (λ j. refl),
          route_run_absorb o (λ r. record r { session_id = some id })
              (λ r. record r { session_id = some id }) s.agent_runs (λ r. refl),
          map_values_absorb (attach_session id o) (attach_session id o) s.agents
              (λ r. unfold attach_session in ground arith),
        )
        refl

  pub session_deleted_idem :
      (id : String) → session_deleted id (session_deleted id s) ≡ session_deleted id s
  unfolding session_deleted
  session_deleted_idem id =
      rw
        (
          remove_idem,
          map_values_absorb (λ (j : Job). record j { session_id = without id j.session_id })
              (λ j. record j { session_id = without id j.session_id }) s.jobs
              (λ j. unfold without opt_is in ground arith),
          map_values_absorb (λ (r : AgentRun). record r { session_id = without id r.session_id })
              (λ r. record r { session_id = without id r.session_id }) s.agent_runs
              (λ r. unfold without opt_is in ground arith),
          map_values_absorb (λ (r : AgentRecord). record r { session_id = without id r.session_id })
              (λ r. record r { session_id = without id r.session_id }) s.agents
              (λ r. unfold without opt_is in ground arith),
        )
        refl

  link_workspace_idem :
      (o : Option OwnerId) (id path : String)
      → link_workspace o id path (link_workspace o id path s.jobs) ≡ link_workspace o id path s.jobs
  unfolding link_workspace
  link_workspace_idem none id path = refl
  link_workspace_idem (some o) id path = route_job_absorb o _ s.jobs (λ j. refl)

  pub workspace_created_idem :
      (t : ℕ) (id path : String) (b : Option String) (o : Option OwnerId) (ty : Option String)
      → workspace_created t id path b o ty (workspace_created t id path b o ty s)
        ≡ workspace_created t id path b o ty s
  unfolding workspace_created
  workspace_created_idem t id path b o ty = rw (insert_absorb, link_workspace_idem o id path) refl

  pub set_workspace_status_idem :
      (id : String) (st : WorkspaceStatus)
      → set_workspace_status id st (set_workspace_status id st s) ≡ set_workspace_status id st s
  unfolding set_workspace_status
  set_workspace_status_idem id st = ground (
    arith,
    modify_absorb id (λ (w : Workspace). record w { status = st }) (λ w. record w { status = st })
        s.workspaces (λ w. refl),
  )

  pub workspace_deleted_idem :
      (id : String) → workspace_deleted id (workspace_deleted id s) ≡ workspace_deleted id s
  unfolding workspace_deleted
  workspace_deleted_idem id = simp remove_idem

  note_root_idem :
      (ns root : String) (m : Map String)
      → note_root ns root (note_root ns root m) ≡ note_root ns root m
  unfolding note_root
  note_root_idem ns root m = ground (arith, insert_absorb ns root root m)

  pub worker_started_idem :
      (w root h q : String) (c : ℕ) (ns : String)
      → worker_started w root h q c ns (worker_started w root h q c ns s)
        ≡ worker_started w root h q c ns s
  unfolding worker_started
  worker_started_idem w root h q c ns =
      rw
        (
          get-insert,
          eq_refl (scoped_name ns w),
          insert_absorb,
          note_root_idem ns root s.project_roots,
        )
        (unfold active_ids in refl)

  pub worker_item_dispatched_idem :
      (w id ns : String)
      → worker_item_dispatched w id ns (worker_item_dispatched w id ns s)
        ≡ worker_item_dispatched w id ns s
  unfolding worker_item_dispatched
  worker_item_dispatched_idem w id ns = ground (
    arith,
    modify_absorb (scoped_name ns w) (dispatch id) (dispatch id) s.workers (dispatch_idem id),
  )

  pub worker_stopped_idem :
      (w ns : String) → worker_stopped w ns (worker_stopped w ns s) ≡ worker_stopped w ns s
  unfolding worker_stopped
  worker_stopped_idem w ns = ground (
    arith,
    modify_absorb (scoped_name ns w) (λ (r : WorkerRecord). record r { status = "stopped" })
        (λ r. record r { status = "stopped" }) s.workers (λ r. refl),
  )

  pub worker_resized_idem :
      (w : String) (c : ℕ) (ns : String)
      → worker_resized w c ns (worker_resized w c ns s) ≡ worker_resized w c ns s
  unfolding worker_resized
  worker_resized_idem w c ns = ground (
    arith,
    modify_absorb (scoped_name ns w) (λ (r : WorkerRecord). record r { concurrency = c })
        (λ r. record r { concurrency = c }) s.workers (λ r. refl),
  )

  pub worker_deleted_idem :
      (w ns : String) → worker_deleted w ns (worker_deleted w ns s) ≡ worker_deleted w ns s
  unfolding worker_deleted
  worker_deleted_idem w ns = simp remove_idem

  pub command_run_idem :
      (ns root : String) → command_run ns root (command_run ns root s) ≡ command_run ns root s
  unfolding command_run
  command_run_idem ns root = ground (arith, note_root_idem ns root s.project_roots)

  pub cron_started_idem :
      (t : ℕ) (c root h i tgt ns : String)
      → cron_started t c root h i tgt ns (cron_started t c root h i tgt ns s)
        ≡ cron_started t c root h i tgt ns s
  unfolding cron_started
  cron_started_idem t c root h i tgt ns =
      rw
        (
          get-insert,
          eq_refl (scoped_name ns c),
          insert_absorb,
          note_root_idem ns root s.project_roots,
        )
        (unfold last_fired in refl)

  pub cron_stopped_idem :
      (c ns : String) → cron_stopped c ns (cron_stopped c ns s) ≡ cron_stopped c ns s
  unfolding cron_stopped
  cron_stopped_idem c ns = ground (
    arith,
    modify_absorb (scoped_name ns c) (λ (r : CronRecord). record r { status = "stopped" })
        (λ r. record r { status = "stopped" }) s.crons (λ r. refl),
  )

  pub cron_fired_idem :
      (t : ℕ) (c ns : String) → cron_fired t c ns (cron_fired t c ns s) ≡ cron_fired t c ns s
  unfolding cron_fired
  cron_fired_idem t c ns = ground (
    arith,
    modify_absorb (scoped_name ns c) (λ (r : CronRecord). record r { last_fired_at_ms = some t })
        (λ r. record r { last_fired_at_ms = some t }) s.crons (λ r. refl),
  )

  pub cron_deleted_idem :
      (c ns : String) → cron_deleted c ns (cron_deleted c ns s) ≡ cron_deleted c ns s
  unfolding cron_deleted
  cron_deleted_idem c ns = simp remove_idem
