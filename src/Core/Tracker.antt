-- ===== src/Core/Tracker.antt =====
-- crates/core/src/action_tracker.rs: attempts of each action, and the agent's signal.
use oddjobs.Prelude.{◌++◌, ℕ, String, Option, none, [], ◌+◌, ◌%◌, ◌^◌, decimal, unwrap_or}
use oddjobs.Prelude.Map
use oddjobs.Prelude.Map.{Map}

-- A `u32` counter's `+= 1`, in a release build.
abbrev pub inc_u32 : ℕ → ℕ
inc_u32 n = (n + 1) % 2 ^ 32

pub data AgentSignalKind : Type 0 where
  complete escalate continue : AgentSignalKind

pub record AgentSignal : Type 0 where
  pub kind : AgentSignalKind
  pub message : Option String

pub record ActionTracker : Type 0 where
  pub action_attempts : Map ℕ
  pub agent_signal : Option AgentSignal

unfoldable pub default_tracker : ActionTracker
default_tracker = record { action_attempts = []; agent_signal = none }

unfoldable pub action_key : String → ℕ → String
action_key trigger chain_pos = trigger ++ ":" ++ decimal chain_pos

unfoldable pub get_action_attempt : String → ℕ → ActionTracker → ℕ
get_action_attempt trigger chain_pos t =
    unwrap_or (Map.get (action_key trigger chain_pos) t.action_attempts) 0

-- The new tracker, and the new count.
unfoldable pub increment_action_attempt : String → ℕ → ActionTracker → ActionTracker × ℕ
increment_action_attempt trigger chain_pos t =
    let key = action_key trigger chain_pos in
    let count = inc_u32 (unwrap_or (Map.get key t.action_attempts) 0) in
    (record t { action_attempts = Map.insert key count t.action_attempts }, count)

unfoldable pub reset_action_attempts : ActionTracker → ActionTracker
reset_action_attempts t = record t { action_attempts = [] }

unfoldable pub clear_agent_signal : ActionTracker → ActionTracker
clear_agent_signal t = record t { agent_signal = none }
