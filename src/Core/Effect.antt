-- ===== src/Core/Effect.antt =====
-- crates/core/src/effect.rs: what the engine asks to be done.
use oddjobs.Prelude.{ℕ, String, Option, List}
use oddjobs.Prelude.Map.{Map}
use oddjobs.Core.Event.{Event, Value}
use oddjobs.Core.Owner.{OwnerId}

-- A duration is its number of milliseconds.
pub data Effect : Type 0 where
  emit : (event : Event) → Effect
  spawn_agent :
      (agent_id agent_name : String) (owner : OwnerId) (workspace_path : String)
      (input : Map String) (command : String) (env : List (String × String)) (cwd : Option String)
      (session_config : Map Value)
      → Effect
  send_to_agent : (agent_id input : String) → Effect
  kill_agent : (agent_id : String) → Effect
  send_to_session : (session_id input : String) → Effect
  kill_session : (session_id : String) → Effect
  create_workspace :
      (workspace_id path : String) (owner : Option OwnerId)
      (workspace_type repo_root branch start_point : Option String)
      → Effect
  delete_workspace : (workspace_id : String) → Effect
  set_timer : (id : String) (duration : ℕ) → Effect
  cancel_timer : (id : String) → Effect
  shell : (owner : Option OwnerId) (step command cwd : String) (env : Map String) → Effect
  poll_queue : (worker_name list_command cwd : String) → Effect
  take_queue_item : (worker_name take_command cwd item_id : String) (item : Value) → Effect
  notify : (title message : String) → Effect
