-- ===== src/Storage/Invariant.antt =====
-- What every event keeps true of the materialized state.
pub mod Decisions
pub mod Queues
pub mod Histories
pub mod Steps
pub mod Jobs
