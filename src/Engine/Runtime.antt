-- ===== src/Engine/Runtime.antt =====
-- crates/engine/src/runtime/mod.rs and executor.rs: the runtime, as functions on the world that it
-- changes. Logs, breadcrumbs and tracing are left out.
pub mod Executor
pub mod Completion
pub mod Jobs
pub mod Transitions
pub mod Handlers
pub mod Outcomes
pub mod Related
pub mod Reload
pub mod Logged
pub mod Applied
pub mod Executed
pub mod Leaving
pub mod Returned
pub mod Durable
pub mod Lost
pub mod Deletion
pub mod Settling
pub mod Arriving
pub mod Starting
pub mod Passing
pub mod Keeping
pub mod Cancelling
pub mod Stopping
use oddjobs.Prelude.{
  ℕ, String, Option, none, some, List, [], ◌∷◌, Bool, true, false, if◌then◌else◌, unwrap_or,
}
use mathlib.Core.List.{◌++◌}
use oddjobs.Prelude.Map
use oddjobs.Prelude.Map.{Map}
use oddjobs.Core.Effect.{Effect}
use oddjobs.Core.Event.{Event, Value}
use oddjobs.Core.Job.{Job}
use oddjobs.Core.Owner.{OwnerId}
use oddjobs.Core.Workspace.{WorkspaceStatus}
use oddjobs.Storage.State.{MaterializedState, StoredRunbook, QueueItem}
use oddjobs.Storage.Apply.{apply_event}
use oddjobs.Storage.Apply.Sessions.{set_workspace_status}
use oddjobs.Storage.Lookup.{get_job}
use oddjobs.Engine.Worker.{WorkerState}
use oddjobs.Runbook.{Runbook}

-- The runtime's shared fields, and the effects that were executed, the last one first.
pub record World : Type 0 where
  pub state : MaterializedState
  pub agent_owners : Map OwnerId
  pub runbook_cache : Map Runbook
  pub worker_states : Map WorkerState
  pub performed : List Effect

-- The errors that the modelled operations give; an error of the executor is one case.
pub data RuntimeError : Type 0 where
  execute_failed : Effect → RuntimeError
  job_not_found job_def_not_found step_not_found runbook_load_error : String → RuntimeError
  invalid_run_directive : (context value : String) → RuntimeError
  invalid_request agent_not_found : String → RuntimeError

-- `Result<Vec<Event>, RuntimeError>`
pub data Answer : Type 0 where
  ok : List Event → Answer
  err : RuntimeError → Answer

-- What the world becomes, also when there is an error.
abbrev pub Run : Type 0
Run = World → World × Answer

unfoldable pub prepend : List Event → World × Answer → World × Answer
prepend es (w, Answer.ok fs) = (w, Answer.ok (es ++ fs))
prepend es (w, Answer.err e) = (w, Answer.err e)

unfoldable pub continue_with : Run → World × Answer → World × Answer
continue_with next (w, Answer.ok es) = prepend es (next w)
continue_with next (w, Answer.err e) = (w, Answer.err e)

-- `result_events.extend(r.await?)`, then the rest.
infixl 5 ◌>>◌
unfoldable pub ◌>>◌ : Run → Run → Run
unfolding continue_with prepend
(r >> next) w = continue_with next (r w)

unfoldable pub without_events : World × Answer → World × Answer
without_events (w, Answer.ok es) = (w, Answer.ok [])
without_events (w, Answer.err e) = (w, Answer.err e)

-- `r.await?;`: the events are dropped.
unfoldable pub quietly : Run → Run
unfolding without_events
quietly r w = without_events (r w)

unfoldable pub without_error : World × Answer → World × Answer
without_error (w, _) = (w, Answer.ok [])

-- `let _ = r.await;`: the error is dropped as well.
unfoldable pub best_effort : Run → Run
unfolding without_error
best_effort r w = without_error (r w)

-- `Ok(es)`
unfoldable pub give : List Event → Run
give es w = (w, Answer.ok es)

unfoldable pub raise : RuntimeError → Run
raise e w = (w, Answer.err e)

-- How the making of a workspace's directory or worktree ends: `git` may give its error text.
pub data Creation : Type 0 where
  made broken : Creation
  refused : (stderr : String) → Creation

-- What the runbooks on disk come to for a worker (find.rs).
pub data RunbookLookup : Type 0 where
  found : Runbook → RunbookLookup
  missing : RunbookLookup
  broken : (error : String) → RunbookLookup

-- What the runtime uses: the clock, the adapters, the file system and `git` (what an effect comes to
-- after those that were executed), serde, the substitution into templates, the environment files,
-- the runbooks on disk, and the start of an agent (spawn.rs).
pub record Services : Type 0 where
  pub now : ℕ
  pub succeeds : List Effect → Effect → Bool
  pub spawns : List Effect → Effect → Option String
  pub creates : List Effect → Effect → Creation
  pub deserialize : Value → Option Runbook
  pub interpolate : String → Map String → String
  pub interpolate_shell : String → Map String → String
  pub merged_env : String → List (String × String)
  pub find_runbook_by_worker : (project_root worker_name : String) → RunbookLookup
  pub serialize : Runbook → Option Value
  pub content_hash : Value → Option String
  pub item_json : QueueItem → Value
  pub spawn_agent : String → String → Map String → Run
  pub resume_agent : Job → String → String → String → Map String → Bool → Run

-- The three steps of looking a runbook up, for the answers of the one before: one that is not in the
-- cache is read from the state, and kept in the cache.
unfoldable pub deserialized : String → (RuntimeError → Run) → (Runbook → Run) → Option Runbook → Run
deserialized hash otherwise next none w = otherwise (RuntimeError.runbook_load_error hash) w
deserialized hash otherwise next (some runbook) w =
    next runbook (record w { runbook_cache = Map.insert hash runbook w.runbook_cache })

unfoldable pub stored :
    Services → String → (RuntimeError → Run) → (Runbook → Run) → Option StoredRunbook → Run
stored v hash otherwise next none w = otherwise (RuntimeError.runbook_load_error hash) w
stored v hash otherwise next (some s) w =
    deserialized hash otherwise next (v.deserialize s.runbook) w

unfoldable pub cached :
    Services → String → (RuntimeError → Run) → (Runbook → Run) → Option Runbook → Run
cached v hash otherwise next (some runbook) w = next runbook w
cached v hash otherwise next none w = stored v hash otherwise next (Map.get hash w.state.runbooks) w

-- `match self.cached_runbook(hash)`
unfoldable pub match_runbook : Services → String → (RuntimeError → Run) → (Runbook → Run) → Run
unfolding cached stored deserialized
match_runbook v hash otherwise next w =
    cached v hash otherwise next (Map.get hash w.runbook_cache) w

-- `let runbook = self.cached_runbook(hash)?;`, then the rest.
unfoldable pub cached_runbook : Services → String → (Runbook → Run) → Run
cached_runbook v hash next = match_runbook v hash raise next

unfoldable pub with_job : String → (Job → Run) → Option Job → Run
with_job id next (some job) w = next job w
with_job id next none w = (w, Answer.err (RuntimeError.job_not_found id))

-- `let job = self.require_job(id)?;`, then the rest.
unfoldable pub require_job : String → (Job → Run) → Run
unfolding with_job
require_job id next w = with_job id next (get_job id w.state) w

unfoldable pub execution_dir : Job → String
execution_dir job = unwrap_or job.workspace_path job.cwd

unfoldable pub deregister_agent : Option String → Run
deregister_agent none w = (w, Answer.ok [])
deregister_agent (some agent_id) w =
    (record w { agent_owners = Map.remove agent_id w.agent_owners }, Answer.ok [])
