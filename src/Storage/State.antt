-- ===== src/Storage/State.antt =====
-- crates/storage/src/state.rs: the records of the materialized state.
use oddjobs.Prelude.{ℕ, String, Option, List, []}
use oddjobs.Prelude.Map.{Map}
use oddjobs.Core.Agent.{AgentRecord}
use oddjobs.Core.AgentRun.{AgentRun}
use oddjobs.Core.Decision.{Decision}
use oddjobs.Core.Event.{Value}
use oddjobs.Core.Job.{Job}
use oddjobs.Core.Owner.{OwnerId}
use oddjobs.Core.Workspace.{WorkspaceStatus}

pub record Session : Type 0 where
  pub id : String
  pub job_id : String

pub data WorkspaceType : Type 0 where
  folder worktree : WorkspaceType

pub record Workspace : Type 0 where
  pub id : String
  pub path : String
  pub branch : Option String
  pub owner : Option OwnerId
  pub status : WorkspaceStatus
  pub workspace_type : WorkspaceType
  pub created_at_ms : ℕ

pub record StoredRunbook : Type 0 where
  pub version : ℕ
  pub runbook : Value  -- `data`

pub record WorkerRecord : Type 0 where
  pub name : String
  pub namespace : String
  pub project_root : String
  pub runbook_hash : String
  pub status : String
  pub active_job_ids : List String
  pub queue_name : String
  pub concurrency : ℕ

pub data QueueItemStatus : Type 0 where
  pending active completed failed dead : QueueItemStatus

pub record QueueItem : Type 0 where
  pub id : String
  pub queue_name : String
  pub item_data : Map String  -- `data`
  pub status : QueueItemStatus
  pub worker_name : Option String
  pub pushed_at_epoch_ms : ℕ
  pub failure_count : ℕ

pub record CronRecord : Type 0 where
  pub name : String
  pub namespace : String
  pub project_root : String
  pub runbook_hash : String
  pub status : String
  pub interval : String
  pub run_target : String
  pub started_at_ms : ℕ
  pub last_fired_at_ms : Option ℕ

pub record MaterializedState : Type 0 where
  pub jobs : Map Job
  pub sessions : Map Session
  pub workspaces : Map Workspace
  pub runbooks : Map StoredRunbook
  pub workers : Map WorkerRecord
  pub queue_items : Map (List QueueItem)
  pub crons : Map CronRecord
  pub decisions : Map Decision
  pub agent_runs : Map AgentRun
  pub agents : Map AgentRecord
  pub project_roots : Map String

-- The derived `Default`.
abbrev pub empty_state : MaterializedState
empty_state = record {
  jobs = [];
  sessions = [];
  workspaces = [];
  runbooks = [];
  workers = [];
  queue_items = [];
  crons = [];
  decisions = [];
  agent_runs = [];
  agents = [];
  project_roots = [];
}
