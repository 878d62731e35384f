-- ===== src/Tests/Crash.antt =====
-- A checkpoint with a crash, and migrations, at concrete inputs.
use oddjobs.Prelude.{
  ℕ, String, Option, none, some, [], ◌∷◌, Bool, true, false, ◌≡◌, refl, ◌∙◌, ◌⊎◌, inl, inr, arith,
  if◌then◌else◌,
}
use oddjobs.Prelude.Decimal.{digits_value, is_blank}
use oddjobs.Prelude.Trim.{trim, trim_start, trim_end, keep_end, is_whitespace}
use oddjobs.Core.Event.{Event}
use oddjobs.Storage.State.{empty_state}
use oddjobs.Storage.Apply.{apply_event}
use oddjobs.Storage.Wal.{
  Codec, RawLine, append_line, append_lines, classify, parse_line, parse_entry, entries_after_in,
}
use oddjobs.Storage.Wal.Operations.{Wal, flush, flush_buffer}
use oddjobs.Storage.Wal.Cursor.{AreAscending, entries_in}
use oddjobs.Storage.Recovery.{
  Snapshot, start_state, start_seq, events_of, upto, recover, IsCheckpoint, IsRestored,
}
use oddjobs.Storage.Checkpoint.{
  CheckpointWriter, IsDurable, and_then, after_write, after_sync, after_rename, checkpoint_blocking,
}
use oddjobs.Storage.Checkpoint.Crash.{CrashPoint, disk_at, file_at, recover-disk_at}
use oddjobs.Storage.Migration.{MigrationResult, Json, Migration, migrate_to}
use oddjobs.Storage.Migration.Termination.{EndsWell, migrate_to-EndsWell}

-- A disk: the snapshot's entry in the synced directory and in the one that is seen, and the
-- temporary file. A file that is renamed before it is synced may be lost.
record Disk : Type 0 where
  durable : Option Snapshot
  visible : Option Snapshot
  tmp : Option Snapshot
  tmp_synced : Bool

abbrev a_writer : CheckpointWriter Disk
a_writer = record {
  write_tmp = λ s d. (record d { tmp = some s; tmp_synced = false }, true);
  fsync_file = λ d. (record d { tmp_synced = true }, true);
  rename = λ d. (record d { visible = if d.tmp_synced then d.tmp else none; tmp = none }, true);
  fsync_dir = λ d. (record d { durable = d.visible }, true);
}

abbrev MayLoad : Disk → Option Snapshot → Type 0
MayLoad d x = (x ≡ d.durable) ⊎ (x ≡ d.visible)

rename_choice :
    (d : Disk) (s : Snapshot) (x : Option Snapshot)
    → (d.tmp ≡ some s) × (d.tmp_synced ≡ true)
    → MayLoad (a_writer.rename d).0 x
    → MayLoad d x ⊎ (x ≡ some s)
rename_choice d s x (h, k) (inl m) = inl (inl m)
rename_choice d s x (h, k) (inr m) = inr (ground (arith, h, k, m))

rename_done :
    (d : Disk) (s : Snapshot)
    → (d.tmp ≡ some s) × (d.tmp_synced ≡ true)
    → (a_writer.rename d).0.visible ≡ some s
rename_done d s (h, k) = ground (arith, h, k)

dir_choice :
    (d : Disk) (s : Snapshot) (x : Option Snapshot)
    → d.visible ≡ some s
    → MayLoad (a_writer.fsync_dir d).0 x
    → x ≡ some s
dir_choice d s x h (inl m) = m ∙ h
dir_choice d s x h (inr m) = m ∙ h

dir_keeps_choice :
    (d : Disk) (x : Option Snapshot) → MayLoad (a_writer.fsync_dir d).0 x → MayLoad d x
dir_keeps_choice d x (inl m) = inr m
dir_keeps_choice d x (inr m) = inr m

abbrev a_file_system : IsDurable a_writer
a_file_system = record {
  may_load = MayLoad;
  IsWritten = λ d s. d.tmp ≡ some s;
  IsSynced = λ d s. (d.tmp ≡ some s) × (d.tmp_synced ≡ true);
  IsRenamed = λ d s. d.visible ≡ some s;
  write_keeps = λ s d x m. m;
  write_holds = λ s d h. refl;
  sync_keeps = λ d x m. m;
  sync_holds = λ d s w h. (w, refl);
  rename_swaps = rename_choice;
  rename_holds = λ d s h k. rename_done d s h;
  dir_keeps = dir_keeps_choice;
  dir_holds = λ d s x h k m. dir_choice d s x h m;
}

-- Records that are their sequence number, all with the same event.
abbrev an_event : Event
an_event = Event.queue_pushed "bugs" "item-1" [] 10 ""

unfoldable a_codec : Codec Event
a_codec = record {
  to_json = λ n e. "1";
  from_json = λ s. some (record { seq = digits_value 0 s; event = an_event });
}

abbrev a_log : Wal
a_log = record {
  file = RawLine.line "1" ∷ RawLine.line "2" ∷ [];
  write_seq = 3;
  processed_seq = 2;
  write_buffer = "3" ∷ [];
  last_flush = 0;
  read_offset = 4;
}

abbrev a_snapshot : Snapshot
a_snapshot = record {
  version = 1;
  seq = 2;
  state = apply_event 8 an_event (apply_event 7 an_event empty_state);
}

a_log_ascends : AreAscending (entries_in a_codec (flush 9 a_log).file)
unfolding flush flush_buffer append_lines append_line entries_in a_codec classify trim parse_line
    parse_entry trim_start trim_end is_whitespace keep_end digits_value is_blank
a_log_ascends = ((omega arith, (omega arith, tt)), ((omega arith, tt), (tt, tt)))

a_snapshot_leads : IsCheckpoint a_codec none (flush 9 a_log).file a_snapshot
unfolding flush flush_buffer append_lines append_line entries_after_in a_codec classify trim
    parse_line parse_entry trim_start trim_end is_whitespace keep_end digits_value is_blank
    start_seq start_state events_of upto
a_snapshot_leads = record { later = omega arith; leads = (7, (8, refl)) }

empty_disk : Disk
empty_disk = record { durable = none; visible = none; tmp = none; tmp_synced = false }

empty_disk_loads : (y : Option Snapshot) → MayLoad empty_disk y → y ≡ none
unfolding empty_disk
empty_disk_loads y (inl m) = m
empty_disk_loads y (inr m) = m

a_snapshot_loads :
    MayLoad (disk_at a_writer CrashPoint.truncated a_snapshot empty_disk) (some a_snapshot)
unfolding empty_disk checkpoint_blocking after_rename after_sync after_write and_then
a_snapshot_loads = inl refl

recover-disk_at_example : IsRestored a_codec none (flush 9 a_log).file (
    recover a_codec 20
      (some a_snapshot)
      (file_at a_writer a_codec 9 CrashPoint.truncated a_snapshot empty_disk a_log))
recover-disk_at_example =
    recover-disk_at a_writer a_file_system a_snapshot a_codec 9 20 none a_log CrashPoint.truncated
      empty_disk (some a_snapshot) a_log_ascends a_snapshot_leads empty_disk_loads a_snapshot_loads

-- A snapshot that is its version and a text, and one migration.
abbrev a_json : Json (ℕ × String)
a_json = record {
  get_version = λ v. some v.0;
  is_object = λ v. true;
  insert_version = λ n v. (n, v.1);
}

abbrev a_migration : Migration (ℕ × String)
a_migration = record {
  source_version = 1;
  target_version = 2;
  migrate = λ v. MigrationResult.ok (v.0, "migrated");
}

migrate_to-EndsWell_example :
    EndsWell a_json 2 (migrate_to a_json 2 (a_migration ∷ []) (1, "old") 2)
migrate_to-EndsWell_example =
    migrate_to-EndsWell a_json 2 (a_migration ∷ []) (1, "old") 2 (omega arith, tt) (λ n x h. refl)
      (omega arith)
