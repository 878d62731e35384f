-- ===== src/Engine.antt =====
-- The engine that drives jobs, crates/engine.
pub mod Scheduler
pub mod Duration
pub mod Retry
pub mod Steps
pub mod Breaker
pub mod Vars
pub mod Worker
pub mod Runtime
