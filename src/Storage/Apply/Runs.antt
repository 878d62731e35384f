-- ===== src/Storage/Apply/Runs.antt =====
-- state.rs, `apply_event`: standalone agent runs.
use oddjobs.Prelude.{ℕ, String, Option, none, some, Bool, not, ◌||◌, if◌then◌else◌}
use oddjobs.Prelude.Map
use oddjobs.Prelude.Map.{Map}
use oddjobs.Core.Agent.{AgentRecord, AgentRecordStatus}
use oddjobs.Core.AgentRun.{AgentRun, AgentRunStatus, is_terminal_status}
use oddjobs.Core.Decision.{Decision, is_resolved}
use oddjobs.Core.Owner.{OwnerId, owner_eq}
use oddjobs.Core.Tracker.{default_tracker}
use oddjobs.Storage.State.{MaterializedState}

unfoldable pub new_run :
    String → String → String → String → String → String → Map String → ℕ → AgentRun
unfolding default_tracker
new_run id agent_name command_name namespace cwd runbook_hash vars created_at_epoch_ms = record {
  id = id;
  agent_name = agent_name;
  command_name = command_name;
  namespace = namespace;
  cwd = cwd;
  runbook_hash = runbook_hash;
  status = AgentRunStatus.starting;
  agent_id = none;
  session_id = none;
  error = none;
  created_at_ms = created_at_epoch_ms;
  updated_at_ms = created_at_epoch_ms;
  action_tracker = default_tracker;
  vars = vars;
  idle_grace_log_size = none;
  last_nudge_at = none;
}

unfoldable pub agent_run_created : AgentRun → MaterializedState → MaterializedState
agent_run_created r s = record s { agent_runs = Map.insert r.id r s.agent_runs }

unfoldable pub start_run : String → ℕ → AgentRun → AgentRun
start_run agent_id now r = record r {
  status = AgentRunStatus.running;
  agent_id = some agent_id;
  updated_at_ms = now;
}

unfoldable pub standalone_agent : ℕ → String → String → AgentRun → AgentRecord
standalone_agent now id agent_id r = record {
  agent_id = agent_id;
  agent_name = r.agent_name;
  owner = OwnerId.agent_run id;
  namespace = r.namespace;
  workspace_path = r.cwd;
  session_id = none;
  status = AgentRecordStatus.running;
  created_at_ms = now;
  updated_at_ms = now;
}

unfoldable pub index_run : ℕ → String → String → Option AgentRun → Map AgentRecord → Map AgentRecord
index_run now id agent_id none agents = agents
index_run now id agent_id (some r) agents =
    Map.or_insert agent_id (standalone_agent now id agent_id r) agents

unfoldable pub agent_run_started : ℕ → String → String → MaterializedState → MaterializedState
agent_run_started now id agent_id s = record s {
  agent_runs = Map.modify id (start_run agent_id now) s.agent_runs;
  agents = index_run now id agent_id (Map.get id s.agent_runs) s.agents;
}

or_keep : Option String → Option String → Option String
or_keep none error = error
or_keep (some reason) error = some reason

unfoldable pub set_status : AgentRunStatus → Option String → ℕ → AgentRun → AgentRun
unfolding or_keep
set_status status reason now r = record r {
  status = status;
  error = or_keep reason r.error;
  updated_at_ms = now;
}

unfoldable pub run_survives : String → Decision → Bool
run_survives id d = not (owner_eq d.owner (OwnerId.agent_run id)) || is_resolved d

-- A terminal status drops the run's open decisions.
unfoldable pub agent_run_status_changed :
    ℕ → String → AgentRunStatus → Option String → MaterializedState → MaterializedState
agent_run_status_changed now id status reason s = record s {
  agent_runs = Map.modify id (set_status status reason now) s.agent_runs;
  decisions =
      if is_terminal_status status then Map.retain (run_survives id) s.decisions else s.decisions;
}

unfoldable pub agent_run_deleted : String → MaterializedState → MaterializedState
agent_run_deleted id s = record s {
  agent_runs = Map.remove id s.agent_runs;
  agents = Map.retain (λ r. not (owner_eq r.owner (OwnerId.agent_run id))) s.agents;
}
