-- ===== src/Core/Agent.antt =====
-- crates/core/src/agent.rs and agent_record.rs: agents as they are monitored and as they are indexed.
-- Newtypes over `String` (`define_id!`) and `PathBuf` are texts.
use oddjobs.Prelude.{ℕ, String, Option}
use oddjobs.Core.Owner.{OwnerId}

-- An `i32`: `negsuc n` is -(n + 1).
pub data ℤ : Type 0 where
  pos : ℕ → ℤ
  negsuc : ℕ → ℤ

pub data AgentError : Type 0 where
  unauthorized out_of_credits no_internet rate_limited : AgentError
  other : String → AgentError

-- `Display for AgentError`
unfoldable pub agent_error_text : AgentError → String
agent_error_text AgentError.unauthorized = "unauthorized"
agent_error_text AgentError.out_of_credits = "out of credits"
agent_error_text AgentError.no_internet = "no internet connection"
agent_error_text AgentError.rate_limited = "rate limited"
agent_error_text (AgentError.other msg) = msg

pub data AgentState : Type 0 where
  working waiting_for_input : AgentState
  failed : AgentError → AgentState
  exited : Option ℤ → AgentState
  session_gone : AgentState

pub data AgentRecordStatus : Type 0 where
  starting running idle exited gone : AgentRecordStatus

pub record AgentRecord : Type 0 where
  pub agent_id : String
  pub agent_name : String
  pub owner : OwnerId
  pub namespace : String
  pub workspace_path : String
  pub session_id : Option String
  pub status : AgentRecordStatus
  pub created_at_ms : ℕ
  pub updated_at_ms : ℕ
