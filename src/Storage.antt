-- ===== src/Storage.antt =====
-- The materialized state, the log, snapshots and migrations, crates/storage.
pub mod State
pub mod Lookup
pub mod Apply
pub mod Idempotent
pub mod Replay
pub mod Wal
pub mod Recovery
pub mod Checkpoint
pub mod Migration
pub mod Invariant
pub mod Ending
