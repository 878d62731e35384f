-- ===== src/Core/AgentRun.antt =====
-- crates/core/src/agent_run.rs: standalone agent runs.
use oddjobs.Prelude.{ℕ, String, Option, Bool, true, false}
use oddjobs.Prelude.Map.{Map}
use oddjobs.Core.Tracker.{ActionTracker}

pub data AgentRunStatus : Type 0 where
  starting running waiting completed failed escalated : AgentRunStatus

unfoldable pub is_terminal_status : AgentRunStatus → Bool
is_terminal_status AgentRunStatus.completed = true
is_terminal_status AgentRunStatus.failed = true
is_terminal_status _ = false

pub record AgentRun : Type 0 where
  pub id : String
  pub agent_name : String
  pub command_name : String
  pub namespace : String
  pub cwd : String
  pub runbook_hash : String
  pub status : AgentRunStatus
  pub agent_id : Option String
  pub session_id : Option String
  pub error : Option String
  pub created_at_ms : ℕ
  pub updated_at_ms : ℕ
  pub action_tracker : ActionTracker
  pub vars : Map String
  pub idle_grace_log_size : Option ℕ
  pub last_nudge_at : Option ℕ
