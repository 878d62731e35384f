-- ===== src/Storage/Checkpoint/Crash.antt =====
-- crates/storage/src/checkpoint.rs: a crash at any point of a checkpoint.
use oddjobs.Prelude.{
  ℕ, List, Bool, true, false, ◌≡◌, refl, sym, ap, ◌∙◌, ◌⊎◌, inl, inr, Option, some, arith,
}
use mathlib.Core.Path.{subst}
use oddjobs.Core.Event.{Event}
use oddjobs.Storage.Wal.{Codec, RawLine, entries_after_in}
use oddjobs.Storage.Wal.Operations.{Wal, flush, truncate_before, entries_after}
use oddjobs.Storage.Wal.Cursor.{AreAscending, entries_in}
use oddjobs.Storage.Wal.Truncation.{entries_after-truncate_before}
use oddjobs.Storage.Wal.Queue.{full_file, file-flush_buffer, full_file-flush}
use oddjobs.Storage.Recovery.{
  Snapshot, recover, IsCheckpoint, IsRestored, recover-IsReachedBy, recover_new-IsRestored,
}
use oddjobs.Storage.Checkpoint.{
  CheckpointWriter, after_checkpoint, and_then, after_write, after_sync, after_rename,
  checkpoint_blocking, IsDurable,
}

-- A crash before a step, or with all steps done, when the log may be truncated or not yet.
pub data CrashPoint : Type 0 where
  unwritten written synced renamed untruncated truncated : CrashPoint

file-flush_twice : (now : ℕ) (w : Wal) → (flush now (flush now w)).file ≡ (flush now w).file
unfolding flush full_file
file-flush_twice now w =
    file-flush_buffer now (flush now w).write_buffer (flush now w) ∙ full_file-flush now w

module _ {D : Type 0} (writer : CheckpointWriter D) where
  abbrev pub disk_at : CrashPoint → Snapshot → D → D
  disk_at CrashPoint.unwritten s d = d
  disk_at CrashPoint.written s d = (after_write writer s d).0
  disk_at CrashPoint.synced s d = (after_sync writer s d).0
  disk_at CrashPoint.renamed s d = (after_rename writer s d).0
  disk_at CrashPoint.untruncated s d = (checkpoint_blocking writer s d).0
  disk_at CrashPoint.truncated s d = (checkpoint_blocking writer s d).0

  -- The file of the log, of which the buffer is flushed: truncated at the end, if the checkpoint
  -- succeeded.
  abbrev pub file_at : Codec Event → ℕ → CrashPoint → Snapshot → D → Wal → List RawLine
  file_at c now CrashPoint.truncated s d w =
      (after_checkpoint writer c now s.seq (checkpoint_blocking writer s d) (flush now w)).1.file
  file_at c now _ s d w = (flush now w).file

  module _ (fs : IsDurable writer) (s : Snapshot) where
    -- What a startup may find is the old snapshot, or the new one.
    abbrev IsOldOrNew : D → D → Type 0
    IsOldOrNew d e = (x : Option Snapshot) → fs.may_load e x → fs.may_load d x ⊎ (x ≡ some s)

    write_lem :
        (d : D)
        → ((x : Option Snapshot) → fs.may_load (after_write writer s d).0 x → fs.may_load d x)
          × ((after_write writer s d).1 ≡ true → fs.IsWritten (after_write writer s d).0 s)
    unfolding after_write
    write_lem d = (λ x h. fs.write_keeps s d x h, fs.write_holds s d)

    sync_lem :
        (d : D) (r : D × Bool)
        → ((x : Option Snapshot) → fs.may_load r.0 x → fs.may_load d x)
        → (r.1 ≡ true → fs.IsWritten r.0 s)
        → ((x : Option Snapshot) → fs.may_load (and_then writer.fsync_file r).0 x → fs.may_load d x)
          × ((and_then writer.fsync_file r).1 ≡ true
              → fs.IsSynced (and_then writer.fsync_file r).0 s)
    unfolding and_then
    sync_lem d (e, true) h k = (λ x m. h x (fs.sync_keeps e x m), fs.sync_holds e s (k refl))
    sync_lem d (e, false) h k = (h, λ f. ground (arith, f))

    rename_lem :
        (d : D) (r : D × Bool)
        → ((x : Option Snapshot) → fs.may_load r.0 x → fs.may_load d x)
        → (r.1 ≡ true → fs.IsSynced r.0 s)
        → IsOldOrNew d (and_then writer.rename r).0
          × ((and_then writer.rename r).1 ≡ true → fs.IsRenamed (and_then writer.rename r).0 s)
    unfolding and_then
    rename_lem d (e, true) h k = (
      λ x m. elim (fs.rename_swaps e s x (k refl) m) [ inl o ↦ inl (h x o) | inr n ↦ inr n ],
      fs.rename_holds e s (k refl),
    )
    rename_lem d (e, false) h k = (λ x m. inl (h x m), λ f. ground (arith, f))

    dir_lem :
        (d : D) (r : D × Bool)
        → IsOldOrNew d r.0
        → (r.1 ≡ true → fs.IsRenamed r.0 s)
        → IsOldOrNew d (and_then writer.fsync_dir r).0
          × ((and_then writer.fsync_dir r).1 ≡ true
              → (x : Option Snapshot) → fs.may_load (and_then writer.fsync_dir r).0 x
              → x ≡ some s)
    unfolding and_then
    dir_lem d (e, true) h k =
        (λ x m. h x (fs.dir_keeps e x m), λ o x m. fs.dir_holds e s x (k refl) o m)
    dir_lem d (e, false) h k = (h, λ f. ground (arith, f))

    after_sync_lem :
        (d : D)
        → ((x : Option Snapshot) → fs.may_load (after_sync writer s d).0 x → fs.may_load d x)
          × ((after_sync writer s d).1 ≡ true → fs.IsSynced (after_sync writer s d).0 s)
    unfolding after_sync
    after_sync_lem d = sync_lem d (after_write writer s d) (write_lem d).0 (write_lem d).1

    after_rename_lem :
        (d : D)
        → IsOldOrNew d (after_rename writer s d).0
          × ((after_rename writer s d).1 ≡ true → fs.IsRenamed (after_rename writer s d).0 s)
    unfolding after_rename
    after_rename_lem d =
        rename_lem d (after_sync writer s d) (after_sync_lem d).0 (after_sync_lem d).1

    -- At every point of a checkpoint a crash leaves the old snapshot or the new one, and after a
    -- checkpoint that succeeds it leaves the new one.
    pub checkpoint_blocking-IsOldOrNew :
        (d : D)
        → IsOldOrNew d (checkpoint_blocking writer s d).0
          × ((checkpoint_blocking writer s d).1 ≡ true
              → (x : Option Snapshot) → fs.may_load (checkpoint_blocking writer s d).0 x
              → x ≡ some s)
    unfolding checkpoint_blocking
    checkpoint_blocking-IsOldOrNew d =
        dir_lem d (after_rename writer s d) (after_rename_lem d).0 (after_rename_lem d).1

    module _ (c : Codec Event) (written_at now : ℕ) (old : Option Snapshot) (w : Wal) where
      same_file-IsRestored :
          (x : Option Snapshot)
          → AreAscending (entries_in c (flush written_at w).file)
          → IsCheckpoint c old (flush written_at w).file s
          → (x ≡ old) ⊎ (x ≡ some s)
          → IsRestored c old (flush written_at w).file (recover c now x (flush written_at w).file)
      same_file-IsRestored x a k (inl o) =
          subst
            (λ y.
              IsRestored c old (flush written_at w).file
                (recover c now y (flush written_at w).file))
            (sym o) (recover-IsReachedBy c now old (flush written_at w).file)
      same_file-IsRestored x a k (inr n) =
          subst
            (λ y.
              IsRestored c old (flush written_at w).file
                (recover c now y (flush written_at w).file))
            (sym n)
            (recover_new-IsRestored c now old s (flush written_at w).file (flush written_at w).file
              a k refl)

      truncated-IsRestored :
          (r : D × Bool) (x : Option Snapshot)
          → AreAscending (entries_in c (flush written_at w).file)
          → IsCheckpoint c old (flush written_at w).file s
          → (x ≡ old) ⊎ (x ≡ some s)
          → (r.1 ≡ true → x ≡ some s)
          → IsRestored c old (flush written_at w).file (
              recover c now x
                (after_checkpoint writer c written_at s.seq r (flush written_at w)).1.file)
      unfolding after_checkpoint entries_after
      truncated-IsRestored (e, true) x a k o n =
          subst
            (λ y.
              IsRestored c old (flush written_at w).file
                (recover c now y (truncate_before c written_at s.seq (flush written_at w)).file))
            (sym (n refl))
            (recover_new-IsRestored c now old s (flush written_at w).file
              (truncate_before c written_at s.seq (flush written_at w)).file a k
              (entries_after-truncate_before c written_at s.seq s.seq (flush written_at w)
                  (omega arith)
                ∙ ap (entries_after_in c s.seq) (file-flush_twice written_at w)))
      truncated-IsRestored (e, false) x a k o n = same_file-IsRestored x a k o

      old_or_new :
          (d e : D) (x : Option Snapshot)
          → ((y : Option Snapshot) → fs.may_load d y → y ≡ old)
          → IsOldOrNew d e
          → fs.may_load e x
          → (x ≡ old) ⊎ (x ≡ some s)
      old_or_new d e x u h m = elim (h x m) [ inl o ↦ inl (u x o) | inr n ↦ inr n ]

      -- A crash at any point of a checkpoint, also between the checkpoint and the truncation of the
      -- log, loses no flushed event and applies none twice: what a startup finds it brings to a state
      -- that the old snapshot and all flushed entries of the log lead to. The file system keeps what is
      -- synced, the log's sequence numbers ascend, the new snapshot is the old one brought forward to
      -- its sequence number, and before the checkpoint only the old one may be found.
      pub recover-disk_at :
          (pt : CrashPoint) (d : D) (x : Option Snapshot)
          → AreAscending (entries_in c (flush written_at w).file)
          → IsCheckpoint c old (flush written_at w).file s
          → ((y : Option Snapshot) → fs.may_load d y → y ≡ old)
          → fs.may_load (disk_at pt s d) x
          → IsRestored c old
              (flush written_at w).file
              (recover c now x (file_at c written_at pt s d w))
      recover-disk_at CrashPoint.unwritten d x a k u m = same_file-IsRestored x a k (inl (u x m))
      recover-disk_at CrashPoint.written d x a k u m =
          same_file-IsRestored x a k (inl (u x ((write_lem d).0 x m)))
      recover-disk_at CrashPoint.synced d x a k u m =
          same_file-IsRestored x a k (inl (u x ((after_sync_lem d).0 x m)))
      recover-disk_at CrashPoint.renamed d x a k u m =
          same_file-IsRestored x a k
            (old_or_new d (after_rename writer s d).0 x u (after_rename_lem d).0 m)
      recover-disk_at CrashPoint.untruncated d x a k u m = same_file-IsRestored x a k (
          old_or_new d (checkpoint_blocking writer s d).0 x u (checkpoint_blocking-IsOldOrNew d).0
            m)
      recover-disk_at CrashPoint.truncated d x a k u m =
          truncated-IsRestored (checkpoint_blocking writer s d) x a k
            (old_or_new d (checkpoint_blocking writer s d).0 x u
              (checkpoint_blocking-IsOldOrNew d).0 m)
            (λ o. (checkpoint_blocking-IsOldOrNew d).1 o x m)
