-- ===== src/Storage/Wal/Meaning.antt =====
-- crates/storage/src/wal.rs: logs that stand for a plain list of entries.
use oddjobs.Prelude.{ℕ, ◌+◌, String, some, List, [], ◌∷◌, ◌≡◌, sym, ap, ◌∙◌, arith, push}
use mathlib.Core.Path.{subst}
use oddjobs.Storage.Wal.{
  WalEntry, Codec, RawLine, LineResult, append_line, append_lines, seek, classify,
}
use oddjobs.Storage.Wal.Operations.{Wal, flush_buffer, append}
use oddjobs.Storage.Wal.Cursor.{entries_in}
use oddjobs.Storage.Wal.Spec.{Spec, send}
use oddjobs.Storage.Wal.Queue.{
  full_file, HoldsEntries, append_lines-push, append_line-HoldsEntries, entries_in-append_line,
  seek-append_line, seek-HoldsEntries,
}

module _ {E : Type 0} (c : Codec E) where
  -- A log that stands for a list: its file, once the buffer is written, is whole lines with the
  -- entries, and the cursor is before the unread ones.
  pub record Represents (w : Wal) (s : Spec E) : Type 0 where
    pub ahead : List RawLine
    pub holds : HoldsEntries c (full_file w)
    pub entries_of : entries_in c (full_file w) ≡ s.entries
    pub at_cursor : seek w.read_offset (full_file w) ≡ some ahead
    pub unread_of : entries_in c ahead ≡ s.unread
    pub last_of : w.write_seq ≡ s.last
    pub processed_of : w.processed_seq ≡ s.processed

  push_entry :
      (x : E) (m n : ℕ) (es fs : List (WalEntry E))
      → m ≡ n
      → es ≡ fs
      → push es (record { seq = m + 1; event = x }) ≡ push fs (record { seq = n + 1; event = x })
  push_entry x m n es fs h k = ground (arith, h, k)

  pub append-Represents :
      (x : E) (w : Wal) (s : Spec E)
      → classify c (RawLine.line (c.to_json (w.write_seq + 1) x))
        ≡ LineResult.entry (w.write_seq + 1) x
      → Represents w s
      → Represents (append c x w) (send x s)
  unfolding append full_file
  append-Represents x w s h r =
      let json = c.to_json (w.write_seq + 1) x in
      let e = append_lines-push w.file w.write_buffer json in
      record {
        ahead = append_line r.ahead json;
        holds =
            subst (HoldsEntries c) (sym e)
              (append_line-HoldsEntries c (full_file w) json (w.write_seq + 1) x h r.holds);
        entries_of =
            ap (entries_in c) e
            ∙ entries_in-append_line c (full_file w) json (w.write_seq + 1) x h r.holds
            ∙ push_entry x w.write_seq s.last (entries_in c (full_file w)) s.entries r.last_of
                r.entries_of;
        at_cursor =
            ap (seek w.read_offset) e
            ∙ seek-append_line c w.read_offset (full_file w) r.ahead json r.holds r.at_cursor;
        unread_of =
            entries_in-append_line c r.ahead json (w.write_seq + 1) x h
              (seek-HoldsEntries c w.read_offset (full_file w) r.ahead r.holds r.at_cursor)
            ∙ push_entry x w.write_seq s.last (entries_in c r.ahead) s.unread r.last_of r.unread_of;
        last_of = ap (λ n. n + 1) r.last_of;
        processed_of = r.processed_of;
      }

  pub flush_buffer-Represents :
      (now : ℕ) (b : List String) (w : Wal) (s : Spec E)
      → b ≡ w.write_buffer
      → Represents w s
      → Represents (flush_buffer now b w) s
  unfolding flush_buffer full_file append_lines
  flush_buffer-Represents now [] w s h r = r
  flush_buffer-Represents now (t ∷ b) w s h r =
      let e = ap (append_lines w.file) h in
      record {
        ahead = r.ahead;
        holds = subst (HoldsEntries c) (sym e) r.holds;
        entries_of = ap (entries_in c) e ∙ r.entries_of;
        at_cursor = ap (seek w.read_offset) e ∙ r.at_cursor;
        unread_of = r.unread_of;
        last_of = r.last_of;
        processed_of = r.processed_of;
      }
