-- ===== src/Core.antt =====
-- The shared vocabulary of the system, crates/core: identifiers, records and events.
pub mod Names
pub mod Agent
pub mod Owner
pub mod Timer
pub mod Tracker
pub mod Decision
pub mod AgentRun
pub mod Workspace
pub mod Job
pub mod Event
pub mod Effect
