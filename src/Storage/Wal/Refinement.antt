-- ===== src/Storage/Wal/Refinement.antt =====
-- crates/storage/src/wal.rs against a plain list: the log as its entries and those still unread.
use oddjobs.Prelude.{ℕ, ◌+◌, Option, none, some, List, [], ◌∷◌, ◌≡◌, refl, sym, ap, ◌∙◌, arith}
use mathlib.Core.Path.{subst, ap₂}
use oddjobs.Storage.Wal.{
  WalEntry, Codec, RawLine, LineResult, width, append_lines, seek, classify, kept_lines,
}
use oddjobs.Storage.Wal.Operations.{
  Wal, written, written_offset, flush, append, mark_processed, next_unprocessed, read_next,
  take_line, truncate_before,
}
use oddjobs.Storage.Wal.Cursor.{
  from, skip, entries_in, skip_processed, seek-written, entries_in-skip, entries_in-kept,
}
use oddjobs.Storage.Wal.Spec.{
  Spec, send, receive_from, receive, mark, truncate, Operation, run_spec, run_wal,
}
use oddjobs.Storage.Wal.Meaning.{Represents, append-Represents, flush_buffer-Represents}
use oddjobs.Storage.Wal.Queue.{
  full_file, HoldsEntries, write_buffer-flush_buffer, full_file-flush, seek-HoldsEntries, seek_next,
  written-HoldsEntries,
}

module _ {E : Type 0} (c : Codec E) where
  -- A state and a result of the log, and those of the list.
  abbrev Agree : Wal × Option (WalEntry E) → Spec E × Option (WalEntry E) → Type 0
  Agree a b = Represents c a.0 b.0 × (a.1 ≡ b.1)

  take_line_entry :
      (w : Wal) (l : RawLine) (n : ℕ) (x : E)
      → classify c l ≡ LineResult.entry n x
      → take_line c w l
        ≡ (record w { read_offset = w.read_offset + width l }, some (record { seq = n; event = x }))
  unfolding take_line
  take_line_entry w l n x h = ground (arith, h)

  pub entries_in_entry :
      (l : RawLine) (ls : List RawLine) (n : ℕ) (x : E)
      → classify c l ≡ LineResult.entry n x
      → entries_in c (l ∷ ls) ≡ record { seq = n; event = x } ∷ entries_in c ls
  unfolding entries_in
  entries_in_entry l ls n x h = ground (arith, h)

  read_next-Agree :
      (ls : List RawLine) (w : Wal) (s : Spec E)
      → HoldsEntries c ls
      → seek w.read_offset (full_file w) ≡ some ls
      → Represents c w s
      → Agree (read_next c w (some ls)) (receive_from (entries_in c ls) s)
  unfolding read_next entries_in full_file
  read_next-Agree [] w s h k r = (r, refl)
  read_next-Agree (RawLine.line t ∷ ls) w s ((n, x, e), h) k r =
      subst (λ a. Agree a (receive_from (entries_in c (RawLine.line t ∷ ls)) s))
        (sym (take_line_entry w (RawLine.line t) n x e))
        (subst
          (λ es.
            Agree
              (
                record w { read_offset = w.read_offset + width (RawLine.line t) },
                some (record { seq = n; event = x }),
              )
              (receive_from es s))
          (sym (entries_in_entry (RawLine.line t) ls n x e))
          (
            record {
              ahead = ls;
              holds = r.holds;
              entries_of = r.entries_of;
              at_cursor = seek_next c w.read_offset (full_file w) ls (RawLine.line t) r.holds k;
              unread_of = refl;
              last_of = r.last_of;
              processed_of = r.processed_of;
            },
            refl,
          ))
  read_next-Agree (RawLine.torn t ∷ ls) w s h k r = elim h [ ]
  read_next-Agree (RawLine.binary b ∷ ls) w s h k r = elim h [ ]

  next_unprocessed-Agree :
      (now : ℕ) (w : Wal) (s : Spec E)
      → Represents c w s
      → Agree (next_unprocessed c now w) (receive s)
  unfolding next_unprocessed flush full_file append_lines
  next_unprocessed-Agree now w s r =
      let f = flush now w in
      let q = flush_buffer-Represents c now w.write_buffer w s refl r in
      let e = full_file-flush now w in
      subst (λ o. Agree (read_next c f o) (receive s))
        (sym (ap (seek f.read_offset) (sym e) ∙ q.at_cursor))
        (subst (λ es. Agree (read_next c f (some q.ahead)) (receive_from es s)) q.unread_of
          (read_next-Agree q.ahead f s
            (seek-HoldsEntries c f.read_offset (full_file f) q.ahead q.holds q.at_cursor)
            q.at_cursor q))

  truncate_before-Represents :
      (now seq : ℕ) (w : Wal) (s : Spec E)
      → Represents c w s
      → Represents c (truncate_before c now seq w) (truncate seq s)
  unfolding truncate_before full_file append_lines flush
  truncate_before-Represents now seq w s r =
      let f = flush now w in
      let q = flush_buffer-Represents c now w.write_buffer w s refl r in
      let e = full_file-flush now w in
      let kept = kept_lines c seq f.file in
      let b =
        ap (append_lines (written kept)) (write_buffer-flush_buffer now w.write_buffer w refl) in
      let es = ap (entries_in c) (sym e) ∙ q.entries_of in
      record {
        ahead = written (skip_processed f.processed_seq kept);
        holds =
            subst (HoldsEntries c) (sym b)
              (written-HoldsEntries c seq f.file (subst (HoldsEntries c) e q.holds));
        entries_of = ap (entries_in c) b ∙ entries_in-kept c seq f.file ∙ ap (from seq) es;
        at_cursor =
            ap (seek (written_offset f.processed_seq kept 0 none)) b
            ∙ seek-written f.processed_seq kept;
        unread_of =
            entries_in-skip c f.processed_seq seq f.file
            ∙ ap (λ l. skip f.processed_seq (from seq l)) es
            ∙ ap (λ p. skip p (from seq s.entries)) q.processed_of;
        last_of = q.last_of;
        processed_of = q.processed_of;
      }

  mark_processed-Represents :
      (seq : ℕ) (w : Wal) (s : Spec E)
      → Represents c w s
      → Represents c (mark_processed seq w) (mark seq s)
  unfolding mark_processed full_file
  mark_processed-Represents seq w s r = record {
    ahead = r.ahead;
    holds = r.holds;
    entries_of = r.entries_of;
    at_cursor = r.at_cursor;
    unread_of = r.unread_of;
    last_of = r.last_of;
    processed_of = refl;
  }

  -- The log behaves as the list of its entries: whatever is sent, flushed, received, marked as
  -- processed and truncated, in any order, the entries received are those that the list gives, as
  -- long as the records that are written read back and the log represents the list at the start.
  pub run_wal-run_spec :
      (ops : List (Operation E)) (w : Wal) (s : Spec E)
      → ((n : ℕ) (x : E) → classify c (RawLine.line (c.to_json n x)) ≡ LineResult.entry n x)
      → Represents c w s
      → run_wal c ops w ≡ run_spec ops s
  unfolding run_wal run_spec mark_processed flush
  run_wal-run_spec [] w s h r = refl
  run_wal-run_spec (Operation.send_event x ∷ ops) w s h r =
      run_wal-run_spec ops (append c x w) (send x s) h
        (append-Represents c x w s (h (w.write_seq + 1) x) r)
  run_wal-run_spec (Operation.flush_now now ∷ ops) w s h r =
      run_wal-run_spec ops (flush now w) s h
        (flush_buffer-Represents c now w.write_buffer w s refl r)
  run_wal-run_spec (Operation.receive_event now ∷ ops) w s h r =
      let (q, e) = next_unprocessed-Agree now w s r in
      ap₂ (λ o os. o ∷ os) e (run_wal-run_spec ops (next_unprocessed c now w).0 (receive s).0 h q)
  run_wal-run_spec (Operation.mark_event seq ∷ ops) w s h r =
      run_wal-run_spec ops (mark_processed seq w) (mark seq s) h
        (mark_processed-Represents seq w s r)
  run_wal-run_spec (Operation.truncate_log now seq ∷ ops) w s h r =
      run_wal-run_spec ops (truncate_before c now seq w) (truncate seq s) h
        (truncate_before-Represents now seq w s r)
