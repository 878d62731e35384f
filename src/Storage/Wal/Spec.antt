-- ===== src/Storage/Wal/Spec.antt =====
-- crates/storage/src/wal.rs: the operations of the log on a plain list of entries, and sequences of
-- them on the log and on the list.
use oddjobs.Prelude.{ℕ, ◌+◌, Option, none, some, List, [], ◌∷◌, push}
use oddjobs.Storage.Wal.{WalEntry, Codec}
use oddjobs.Storage.Wal.Operations.{
  Wal, flush, append, mark_processed, next_unprocessed, truncate_before,
}
use oddjobs.Storage.Wal.Cursor.{from, skip}

-- What the log promises: entries in order, the part of them that is unread, and two counters.
pub record Spec (E : Type 0) : Type 0 where
  pub entries : List (WalEntry E)
  pub unread : List (WalEntry E)
  pub last : ℕ
  pub processed : ℕ

module _ {E : Type 0} where
  abbrev pub send : E → Spec E → Spec E
  send x s =
      let e : WalEntry E = record { seq = s.last + 1; event = x } in
      record s { entries = push s.entries e; unread = push s.unread e; last = s.last + 1 }

  abbrev pub receive_from : List (WalEntry E) → Spec E → Spec E × Option (WalEntry E)
  receive_from [] s = (s, none)
  receive_from (e ∷ es) s = (record s { unread = es }, some e)

  abbrev pub receive : Spec E → Spec E × Option (WalEntry E)
  receive s = receive_from s.unread s

  abbrev pub mark : ℕ → Spec E → Spec E
  mark seq s = record s { processed = seq }

  -- The entries before `seq` are gone, and the unread ones start after the processed ones.
  abbrev pub truncate : ℕ → Spec E → Spec E
  truncate seq s =
      let kept = from seq s.entries in record s { entries = kept; unread = skip s.processed kept }

-- What the daemon does to the log.
pub data Operation (E : Type 0) : Type 0 where
  send_event : (event : E) → Operation E
  flush_now : (now : ℕ) → Operation E
  receive_event : (now : ℕ) → Operation E
  mark_event : (seq : ℕ) → Operation E
  truncate_log : (now seq : ℕ) → Operation E

-- The entries received.
unfoldable pub run_spec : {E : Type 0} → List (Operation E) → Spec E → List (Option (WalEntry E))
run_spec [] s = []
run_spec (Operation.send_event x ∷ ops) s = run_spec ops (send x s)
run_spec (Operation.flush_now now ∷ ops) s = run_spec ops s
run_spec (Operation.receive_event now ∷ ops) s = let (t, r) = receive s in r ∷ run_spec ops t
run_spec (Operation.mark_event seq ∷ ops) s = run_spec ops (mark seq s)
run_spec (Operation.truncate_log now seq ∷ ops) s = run_spec ops (truncate seq s)

module _ {E : Type 0} (c : Codec E) where
  unfoldable pub run_wal : List (Operation E) → Wal → List (Option (WalEntry E))
  run_wal [] w = []
  run_wal (Operation.send_event x ∷ ops) w = run_wal ops (append c x w)
  run_wal (Operation.flush_now now ∷ ops) w = run_wal ops (flush now w)
  run_wal (Operation.receive_event now ∷ ops) w =
      let (v, r) = next_unprocessed c now w in r ∷ run_wal ops v
  run_wal (Operation.mark_event seq ∷ ops) w = run_wal ops (mark_processed seq w)
  run_wal (Operation.truncate_log now seq ∷ ops) w = run_wal ops (truncate_before c now seq w)
