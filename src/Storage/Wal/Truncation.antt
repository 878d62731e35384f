-- ===== src/Storage/Wal/Truncation.antt =====
-- crates/storage/src/wal.rs, `truncate_before`: what stays, and where the cursor comes to stand.
use oddjobs.Prelude.{ℕ, ◌+◌, ◌≤◌, Option, none, some, List, ◌≡◌, sym, ap, ◌∙◌}
use oddjobs.Storage.Wal.{WalEntry, Codec, RawLine, seek, kept_lines}
use oddjobs.Storage.Wal.Operations.{Wal, flush, entries_after, truncate_before}
use oddjobs.Storage.Wal.Entries.{entries_after_in-kept}
use oddjobs.Storage.Wal.Cursor.{
  AreAscending, entries_in, skip-from, seek-written, entries_in-skip, entries_after_in-after,
}

module _ {E : Type 0} (c : Codec E) where
  unfoldable pub entries_ahead : Option (List RawLine) → Option (List (WalEntry E))
  entries_ahead none = none
  entries_ahead (some ls) = some (entries_in c ls)

  -- The entries from the cursor on, as far as they can be read: none when it is inside a line.
  unfoldable pub unread : Wal → Option (List (WalEntry E))
  unread w = entries_ahead (seek w.read_offset w.file)

  -- Truncating the log keeps every entry that a recovery asks for, when the snapshot holds at least
  -- the events before `seq`: the entries after `q` are those of the flushed log, for `seq ≤ q + 1`.
  pub entries_after-truncate_before :
      (now seq q : ℕ) (w : Wal)
      → seq ≤ q + 1
      → entries_after c q (truncate_before c now seq w) ≡ entries_after c q (flush now w)
  unfolding entries_after truncate_before
  entries_after-truncate_before now seq q w h = entries_after_in-kept c q seq (flush now w).file h

  -- In a log with ascending sequence numbers, truncation up to at most the entry after the processed
  -- ones leaves the cursor on the first entry after them, wherever it was before: what is unread is
  -- all that is not processed.
  pub unread-truncate_before :
      (now seq : ℕ) (w : Wal)
      → seq ≤ (flush now w).processed_seq + 1
      → AreAscending (entries_in c (flush now w).file)
      → unread (truncate_before c now seq w)
        ≡ some (entries_after c (flush now w).processed_seq (flush now w))
  unfolding unread entries_ahead truncate_before entries_after
  unread-truncate_before now seq w h k =
      let f = flush now w in
      ap entries_ahead (seek-written f.processed_seq (kept_lines c seq f.file))
      ∙ ap some (
          entries_in-skip c f.processed_seq seq f.file
          ∙ skip-from f.processed_seq seq (entries_in c f.file) h k
          ∙ sym (entries_after_in-after c f.processed_seq f.file))
