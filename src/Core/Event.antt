-- ===== src/Core/Event.antt =====
-- crates/core/src/event.rs: the events of the system, and the views of one event.
pub mod Views
pub mod Agreement
use oddjobs.Prelude.{ℕ, String, Option, List, Bool}
use oddjobs.Prelude.Map.{Map}
use oddjobs.Core.Agent.{ℤ, AgentError}
use oddjobs.Core.AgentRun.{AgentRunStatus}
use oddjobs.Core.Decision.{DecisionSource, DecisionOption}
use oddjobs.Core.Owner.{OwnerId}
use oddjobs.Core.Tracker.{AgentSignalKind}

-- A `serde_json::Value` by its text: it is stored, and nothing here looks inside.
abbrev pub Value : Type 0
Value = String

pub data PromptType : Type 0 where
  permission idle plan_approval question other : PromptType

pub record QuestionOption : Type 0 where
  pub label : String
  pub description : Option String

pub record QuestionEntry : Type 0 where
  pub question : String
  pub header : Option String
  pub options : List QuestionOption
  pub multi_select : Bool

pub record QuestionData : Type 0 where
  pub questions : List QuestionEntry

pub data Event : Type 0 where
  agent_working : (agent_id : String) (owner : OwnerId) → Event
  agent_waiting : (agent_id : String) (owner : OwnerId) → Event
  agent_failed : (agent_id : String) (error : AgentError) (owner : OwnerId) → Event
  agent_exited : (agent_id : String) (exit_code : Option ℤ) (owner : OwnerId) → Event
  agent_gone : (agent_id : String) (owner : OwnerId) → Event
  agent_input : (agent_id input : String) → Event
  agent_signal : (agent_id : String) (kind : AgentSignalKind) (message : Option String) → Event
  agent_idle : (agent_id : String) → Event
  agent_stop : (agent_id : String) → Event
  agent_prompt :
      (agent_id : String) (prompt_type : PromptType) (question_data : Option QuestionData)
      (assistant_context : Option String)
      → Event
  command_run :
      (job_id job_name project_root invoke_dir namespace command : String) (args : Map String)
      → Event
  job_created :
      (id kind name runbook_hash cwd : String) (vars : Map String) (initial_step : String)
      (created_at_epoch_ms : ℕ) (namespace : String) (cron_name : Option String)
      → Event
  job_advanced : (id step : String) → Event
  job_updated : (id : String) (vars : Map String) → Event
  job_resume : (id : String) (message : Option String) (vars : Map String) (kill : Bool) → Event
  job_cancelling : (id : String) → Event
  job_cancel : (id : String) → Event
  job_deleted : (id : String) → Event
  runbook_loaded : (hash : String) (version : ℕ) (runbook : Value) → Event
  session_created : (id : String) (owner : OwnerId) → Event
  session_input : (id input : String) → Event
  session_deleted : (id : String) → Event
  shell_exited : (job_id step : String) (exit_code : ℤ) (stdout stderr : Option String) → Event
  step_started : (job_id step : String) (agent_id agent_name : Option String) → Event
  step_waiting : (job_id step : String) (reason decision_id : Option String) → Event
  step_completed : (job_id step : String) → Event
  step_failed : (job_id step error : String) → Event
  shutdown : Event
  timer_start : (id : String) → Event
  workspace_created :
      (id path : String) (branch : Option String) (owner : Option OwnerId)
      (workspace_type : Option String)
      → Event
  workspace_ready : (id : String) → Event
  workspace_failed : (id reason : String) → Event
  workspace_deleted : (id : String) → Event
  workspace_drop : (id : String) → Event
  cron_started :
      (cron_name project_root runbook_hash interval run_target namespace : String) → Event
  cron_stopped : (cron_name namespace : String) → Event
  cron_once :
      (cron_name job_id job_name job_kind : String) (agent_run_id agent_name : Option String)
      (project_root runbook_hash run_target namespace : String)
      → Event
  cron_fired :
      (cron_name job_id : String) (agent_run_id : Option String) (namespace : String) → Event
  cron_deleted : (cron_name namespace : String) → Event
  worker_started :
      (worker_name project_root runbook_hash queue_name : String) (concurrency : ℕ)
      (namespace : String)
      → Event
  worker_wake : (worker_name namespace : String) → Event
  worker_poll_complete : (worker_name : String) (items : List Value) → Event
  worker_take_complete :
      (worker_name item_id : String) (item : Value) (exit_code : ℤ) (stderr : Option String) → Event
  worker_item_dispatched : (worker_name item_id job_id namespace : String) → Event
  worker_stopped : (worker_name namespace : String) → Event
  worker_resized : (worker_name : String) (concurrency : ℕ) (namespace : String) → Event
  worker_deleted : (worker_name namespace : String) → Event
  queue_pushed :
      (queue_name item_id : String) (item_data : Map String) (pushed_at_epoch_ms : ℕ)
      (namespace : String)
      → Event
  queue_taken : (queue_name item_id worker_name namespace : String) → Event
  queue_completed : (queue_name item_id namespace : String) → Event
  queue_failed : (queue_name item_id error namespace : String) → Event
  queue_dropped : (queue_name item_id namespace : String) → Event
  queue_item_retry : (queue_name item_id namespace : String) → Event
  queue_item_dead : (queue_name item_id namespace : String) → Event
  decision_created :
      (id job_id : String) (agent_id : Option String) (owner : OwnerId) (source : DecisionSource)
      (context : String) (options : List DecisionOption) (created_at_ms : ℕ) (namespace : String)
      → Event
  decision_resolved :
      (id : String) (chosen : Option ℕ) (message : Option String) (resolved_at_ms : ℕ)
      (namespace : String)
      → Event
  agent_run_created :
      (id agent_name command_name namespace cwd runbook_hash : String) (vars : Map String)
      (created_at_epoch_ms : ℕ)
      → Event
  agent_run_started : (id agent_id : String) → Event
  agent_run_status_changed :
      (id : String) (status : AgentRunStatus) (reason : Option String) → Event
  agent_run_resume : (id : String) (message : Option String) (kill : Bool) → Event
  agent_run_deleted : (id : String) → Event
  custom : Event
