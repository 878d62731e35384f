-- ===== src/Storage/Wal/Operations.antt =====
-- crates/storage/src/wal.rs: the operations of the log.
use oddjobs.Prelude.{
  ℕ, ◌+◌, ◌-◌, String, Option, none, some, List, [], ◌∷◌, Bool, not, ◌&&◌, ◌||◌, eqb, ltb, leb,
  if◌then◌else◌, length, push,
}
use oddjobs.Storage.Wal.{
  WalEntry, Codec, RawLine, LineResult, utf8_len, width, append_lines, seek, classify, scan_wal,
  read_valid_lines, entries_after_in, kept_lines,
}

-- `Wal`, with the file's content for its two handles.
pub record Wal : Type 0 where
  pub file : List RawLine
  pub write_seq : ℕ
  pub processed_seq : ℕ
  pub write_buffer : List String
  pub last_flush : ℕ
  pub read_offset : ℕ

-- The write pass of `truncate_before`: the file.
unfoldable pub written : List (ℕ × String) → List RawLine
written [] = []
written ((n, s) ∷ kept) = RawLine.line s ∷ written kept

-- The write pass: the offset of the first unprocessed entry, or of the end.
unfoldable pub written_offset : ℕ → List (ℕ × String) → ℕ → Option ℕ → ℕ
written_offset processed_seq [] current_offset none = current_offset
written_offset processed_seq [] current_offset (some first) = first
written_offset processed_seq ((n, s) ∷ kept) current_offset none =
    let found = if ltb processed_seq n then some current_offset else none in
    written_offset processed_seq kept (current_offset + (utf8_len s + 1)) found
written_offset processed_seq ((n, s) ∷ kept) current_offset (some first) =
    written_offset processed_seq kept (current_offset + (utf8_len s + 1)) (some first)

-- `FLUSH_INTERVAL` in milliseconds, and `FLUSH_THRESHOLD`.
abbrev pub flush_interval : ℕ
flush_interval = 10

abbrev pub flush_threshold : ℕ
flush_threshold = 100

unfoldable pub needs_flush : ℕ → Wal → Bool
needs_flush now w =
    not (eqb (length w.write_buffer) 0)
    && (leb flush_interval (now - w.last_flush) || leb flush_threshold (length w.write_buffer))

-- `flush` with what is in the buffer.
unfoldable pub flush_buffer : ℕ → List String → Wal → Wal
flush_buffer now [] w = w
flush_buffer now (s ∷ buffer) w = record w {
  file = append_lines w.file (s ∷ buffer);
  write_buffer = [];
  last_flush = now;
}

unfoldable pub flush : ℕ → Wal → Wal
flush now w = flush_buffer now w.write_buffer w

unfoldable pub mark_processed : ℕ → Wal → Wal
mark_processed seq w = record w { processed_seq = seq }

module _ {E : Type 0} (c : Codec E) where
  -- The file that `open` leaves: a corrupt one is written anew.
  unfoldable pub clean_file : List RawLine → ℕ → List RawLine
  clean_file file processed_seq =
      if (scan_wal c file processed_seq).is_corrupt
      then append_lines [] (read_valid_lines c file)
      else file

  -- The log over a file that is clean.
  unfoldable pub opened : ℕ → List RawLine → ℕ → Wal
  opened now file processed_seq =
      let scan = scan_wal c file processed_seq in
      record {
        file = file;
        write_seq = scan.max_seq;
        processed_seq = processed_seq;
        write_buffer = [];
        last_flush = now;
        read_offset = scan.offset;
      }

  -- `Wal::open`, at the clock's reading `now`.
  unfoldable pub open_wal : ℕ → List RawLine → ℕ → Wal
  open_wal now file processed_seq = opened now (clean_file file processed_seq) processed_seq

  -- The sequence number it returns is the new `write_seq`.
  unfoldable pub append : E → Wal → Wal
  append event w =
      let seq = w.write_seq + 1 in
      record w { write_seq = seq; write_buffer = push w.write_buffer (c.to_json seq event) }

  -- It reads the file alone: what is in the buffer is not among the entries.
  unfoldable pub entries_after : ℕ → Wal → List (WalEntry E)
  entries_after seq w = entries_after_in c seq w.file

  -- What `next_unprocessed` does with the line it reads.
  unfoldable pub take_line : Wal → RawLine → Wal × Option (WalEntry E)
  take_line w l = elim (classify c l) [
    | LineResult.blank ↦ (w, none)
    | LineResult.entry n e ↦
        (record w { read_offset = w.read_offset + width l }, some (record { seq = n; event = e }))
    | LineResult.corrupt ↦ (record w { read_offset = w.read_offset + width l }, none)
    | LineResult.invalid_data ↦ (w, none)
  ]

  -- Nothing is read past the end; inside a line, which no operation leads to, nothing either.
  unfoldable pub read_next : Wal → Option (List RawLine) → Wal × Option (WalEntry E)
  read_next w none = (w, none)
  read_next w (some []) = (w, none)
  read_next w (some (l ∷ ls)) = take_line w l

  unfoldable pub next_unprocessed : ℕ → Wal → Wal × Option (WalEntry E)
  next_unprocessed now w = let f = flush now w in read_next f (seek f.read_offset f.file)

  unfoldable pub truncate_before : ℕ → ℕ → Wal → Wal
  truncate_before now seq w =
      let f = flush now w in
      let kept = kept_lines c seq f.file in
      record f { file = written kept; read_offset = written_offset f.processed_seq kept 0 none }
