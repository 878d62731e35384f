-- ===== src/Daemon.antt =====
-- The daemon, crates/daemon.
pub mod Suggest
pub mod Queues
