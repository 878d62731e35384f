-- ===== src/Storage/Apply/Sessions.antt =====
-- state.rs, `apply_event`: runbooks, sessions and workspaces.
use oddjobs.Prelude.{ℕ, String, Option, none, some, ◌&&◌, ◌==◌, if◌then◌else◌, is_none}
use oddjobs.Prelude.Map
use oddjobs.Prelude.Map.{Map}
use oddjobs.Core.Agent.{AgentRecord}
use oddjobs.Core.AgentRun.{AgentRun}
use oddjobs.Core.Event.{Value}
use oddjobs.Core.Job.{Job}
use oddjobs.Core.Owner.{OwnerId, owner_eq}
use oddjobs.Core.Workspace.{WorkspaceStatus}
use oddjobs.Storage.State.{WorkspaceType, MaterializedState}
use oddjobs.Storage.Apply.Agents.{route_job, opt_is}

unfoldable pub runbook_loaded : String → ℕ → Value → MaterializedState → MaterializedState
runbook_loaded hash version runbook s = if Map.contains_key hash s.runbooks then s else record s {
  runbooks = Map.insert hash (record { version = version; runbook = runbook }) s.runbooks;
}

unfoldable pub route_run : OwnerId → (AgentRun → AgentRun) → Map AgentRun → Map AgentRun
route_run (OwnerId.job _) f runs = runs
route_run (OwnerId.agent_run id) f runs = Map.modify id f runs

-- `Session.job_id`, empty for a standalone run.
unfoldable pub session_job : OwnerId → String
session_job (OwnerId.job id) = id
session_job (OwnerId.agent_run _) = ""

unfoldable pub attach_session : String → OwnerId → AgentRecord → AgentRecord
attach_session id owner r =
    if owner_eq r.owner owner && is_none r.session_id then record r { session_id = some id } else r

unfoldable pub session_created : String → OwnerId → MaterializedState → MaterializedState
session_created id owner s = record s {
  sessions = Map.insert id (record { id = id; job_id = session_job owner }) s.sessions;
  jobs = route_job owner (λ j. record j { session_id = some id }) s.jobs;
  agent_runs = route_run owner (λ r. record r { session_id = some id }) s.agent_runs;
  agents = Map.map_values (attach_session id owner) s.agents;
}

-- `if x.session_id.as_deref() == Some(id) { x.session_id = None }`
unfoldable pub without : String → Option String → Option String
without id session_id = if opt_is id session_id then none else session_id

unfoldable pub session_deleted : String → MaterializedState → MaterializedState
session_deleted id s = record s {
  sessions = Map.remove id s.sessions;
  jobs = Map.map_values (λ j. record j { session_id = without id j.session_id }) s.jobs;
  agent_runs = Map.map_values (λ r. record r { session_id = without id r.session_id }) s.agent_runs;
  agents = Map.map_values (λ r. record r { session_id = without id r.session_id }) s.agents;
}

-- Anything but "worktree" is a folder.
unfoldable pub workspace_type_of : Option String → WorkspaceType
workspace_type_of none = WorkspaceType.folder
workspace_type_of (some t) =
    if t == "worktree" then WorkspaceType.worktree else WorkspaceType.folder

unfoldable pub link_workspace : Option OwnerId → String → String → Map Job → Map Job
link_workspace none id path jobs = jobs
link_workspace (some owner) id path jobs =
    route_job owner (λ j. record j { workspace_path = some path; workspace_id = some id }) jobs

unfoldable pub workspace_created :
    ℕ
    → String
    → String
    → Option String
    → Option OwnerId
    → Option String
    → MaterializedState
    → MaterializedState
workspace_created now id path branch owner workspace_type s = record s {
  jobs = link_workspace owner id path s.jobs;
  workspaces =
      Map.insert id
        (record {
          id = id;
          path = path;
          branch = branch;
          owner = owner;
          status = WorkspaceStatus.creating;
          workspace_type = workspace_type_of workspace_type;
          created_at_ms = now;
        })
        s.workspaces;
}

unfoldable pub set_workspace_status :
    String → WorkspaceStatus → MaterializedState → MaterializedState
set_workspace_status id status s = record s {
  workspaces = Map.modify id (λ w. record w { status = status }) s.workspaces;
}

unfoldable pub workspace_deleted : String → MaterializedState → MaterializedState
workspace_deleted id s = record s { workspaces = Map.remove id s.workspaces }
