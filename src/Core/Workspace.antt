-- ===== src/Core/Workspace.antt =====
-- crates/core/src/workspace.rs: the lifecycle status of a workspace.
use oddjobs.Prelude.{String}

pub data WorkspaceStatus : Type 0 where
  creating ready cleaning : WorkspaceStatus
  in_use : String → WorkspaceStatus
  failed : String → WorkspaceStatus
