-- ===== src/Storage/Checkpoint.antt =====
-- crates/storage/src/checkpoint.rs and the checkpoint task of crates/daemon/src/main.rs: the steps of
-- a checkpoint, and the truncation of the log after it.
pub mod Crash
use oddjobs.Prelude.{ℕ, List, Bool, true, false, ◌≡◌, ◌⊎◌, Option, none, some, eqb, if◌then◌else◌}
use oddjobs.Core.Event.{Event}
use oddjobs.Storage.State.{MaterializedState}
use oddjobs.Storage.Wal.{Codec}
use oddjobs.Storage.Wal.Operations.{Wal, truncate_before}
use oddjobs.Storage.Recovery.{Snapshot, current_snapshot_version}

-- `CheckpointWriter` over a disk of type `D`: the disk after an attempt, and whether it succeeds. The
-- file that is written holds the serialized and compressed snapshot.
pub record CheckpointWriter (D : Type 0) : Type 0 where
  pub write_tmp : Snapshot → D → D × Bool
  pub fsync_file : D → D × Bool
  pub rename : D → D × Bool
  pub fsync_dir : D → D × Bool

-- `?` on the result of a step.
unfoldable pub and_then : {D : Type 0} → (D → D × Bool) → D × Bool → D × Bool
and_then f (d, true) = f d
and_then f (d, false) = (d, false)

module _ {D : Type 0} (writer : CheckpointWriter D) where
  -- The prefixes of `checkpoint_blocking`: where a crash may stop it.
  unfoldable pub after_write : Snapshot → D → D × Bool
  after_write s d = writer.write_tmp s d

  unfoldable pub after_sync : Snapshot → D → D × Bool
  after_sync s d = and_then writer.fsync_file (after_write s d)

  unfoldable pub after_rename : Snapshot → D → D × Bool
  after_rename s d = and_then writer.rename (after_sync s d)

  -- `checkpoint_blocking` from the write to the temporary file on.
  unfoldable pub checkpoint_blocking : Snapshot → D → D × Bool
  checkpoint_blocking s d = and_then writer.fsync_dir (after_rename s d)

  -- After a checkpoint of the processed events: the log is truncated if it succeeded.
  unfoldable pub after_checkpoint : Codec Event → ℕ → ℕ → D × Bool → Wal → D × Wal
  after_checkpoint c now seq (d, true) w = (d, truncate_before c now seq w)
  after_checkpoint c now seq (d, false) w = (d, w)

  -- One round of the task, without a crash. Nothing is written before an event is processed.
  unfoldable pub checkpoint_round : Codec Event → ℕ → MaterializedState → D → Wal → D × Wal
  checkpoint_round c now state d w =
      let seq = w.processed_seq in
      let s : Snapshot = record { version = current_snapshot_version; seq = seq; state = state } in
      if eqb seq 0 then (d, w) else after_checkpoint c now seq (checkpoint_blocking s d) w

-- What the code relies on of the file system: `may_load d x` when a startup after a crash may find
-- the snapshot `x` at the path, by the documented behaviour of a file that is synced, a rename that is
-- atomic, and a directory that is synced.
pub record IsDurable {D : Type 0} (writer : CheckpointWriter D) : Type 1 where
  pub may_load : D → Option Snapshot → Type 0
  pub IsWritten : D → Snapshot → Type 0
  pub IsSynced : D → Snapshot → Type 0
  pub IsRenamed : D → Snapshot → Type 0
  pub write_keeps :
      (s : Snapshot) (d : D) (x : Option Snapshot)
      → may_load (writer.write_tmp s d).0 x
      → may_load d x
  pub write_holds :
      (s : Snapshot) (d : D)
      → (writer.write_tmp s d).1 ≡ true
      → IsWritten (writer.write_tmp s d).0 s
  pub sync_keeps : (d : D) (x : Option Snapshot) → may_load (writer.fsync_file d).0 x → may_load d x
  pub sync_holds :
      (d : D) (s : Snapshot)
      → IsWritten d s
      → (writer.fsync_file d).1 ≡ true
      → IsSynced (writer.fsync_file d).0 s
  pub rename_swaps :
      (d : D) (s : Snapshot) (x : Option Snapshot)
      → IsSynced d s
      → may_load (writer.rename d).0 x
      → may_load d x ⊎ (x ≡ some s)
  pub rename_holds :
      (d : D) (s : Snapshot)
      → IsSynced d s
      → (writer.rename d).1 ≡ true
      → IsRenamed (writer.rename d).0 s
  pub dir_keeps : (d : D) (x : Option Snapshot) → may_load (writer.fsync_dir d).0 x → may_load d x
  pub dir_holds :
      (d : D) (s : Snapshot) (x : Option Snapshot)
      → IsRenamed d s
      → (writer.fsync_dir d).1 ≡ true
      → may_load (writer.fsync_dir d).0 x
      → x ≡ some s
