-- ===== src/Tests/Log.antt =====
-- The properties of the log, the checkpoint and the migrations at concrete inputs.
use Prim.Native.Char.{code}
use oddjobs.Prelude.{
  ◌++◌, ℕ, ◌+◌, ◌≤◌, String, Option, none, some, List, [], ◌∷◌, ◌≡◌, refl, ap, ◌∙◌, arith, eqb,
  decimal, if◌then◌else◌, All,
}
use oddjobs.Prelude.Decimal.{
  digits_value, is_ascii_digit, digits_value-decimal, all_digits-decimal, is_blank,
  is_blank-decimal,
}
use oddjobs.Prelude.Trim.{trim, trim_start, trim_end, keep_end, is_whitespace}
use oddjobs.Prelude.Trim.Digits.{trim_start-append, trim_end-append, trim_end_digits, begun}
use oddjobs.Engine.Duration.{split_digits}
use oddjobs.Engine.Duration.Units.{split_digits-append}
use oddjobs.Storage.Wal.{
  WalEntry, Codec, RawLine, LineResult, classify, parse_line, parse_entry, scan_wal,
  entries_after_in,
}
use oddjobs.Storage.Wal.Operations.{
  Wal, open_wal, entries_after, flush, flush_buffer, truncate_before,
}
use oddjobs.Storage.Wal.Cursor.{AreAscending, entries_in, skip}
use oddjobs.Storage.Wal.Truncation.{unread, unread-truncate_before}
use oddjobs.Storage.Wal.Queue.{HoldsEntries}
use oddjobs.Storage.Wal.Spec.{Spec, Operation, run_spec, run_wal}
use oddjobs.Storage.Wal.Meaning.{Represents}
use oddjobs.Storage.Wal.Refinement.{run_wal-run_spec}
use oddjobs.Storage.Wal.Restart.{StartsProcessed, open_wal-Represents, unread-open_wal}
use oddjobs.Storage.Wal.Corruption.{entries_after-open_wal, write_seq-open_wal}

-- A record is written as two numbers with a comma between them.
entry_of : String × String → Option (WalEntry ℕ)
entry_of (num, String.[]) = none
entry_of (num, String.◌∷◌ c s) =
    if eqb (code c) b','
    then some (record { seq = digits_value 0 num; event = digits_value 0 s })
    else none

unfoldable number_codec : Codec ℕ
number_codec = record {
  to_json = λ n x. decimal n ++ ("," ++ decimal x);
  from_json = λ s. entry_of (split_digits s);
}

trim_end_comma : (t : String) → trim_end t ≡ t → trim_end ("," ++ t) ≡ "," ++ t
unfolding trim_end keep_end is_whitespace
trim_end_comma String.[] h = refl
trim_end_comma (String.◌∷◌ d t) h = rw h refl

trim_record : (n x : ℕ) → trim (decimal n ++ ("," ++ decimal x)) ≡ decimal n ++ ("," ++ decimal x)
unfolding trim trim_end keep_end is_whitespace
trim_record n x =
    ap trim_end
      (trim_start-append (decimal n) ("," ++ decimal x) (is_blank-decimal n) (all_digits-decimal n))
    ∙ trim_end-append (decimal n) ("," ++ decimal x) (all_digits-decimal n)
    ∙ ap (λ t. decimal n ++ t)
        (trim_end_comma (decimal x) (trim_end_digits (decimal x) (all_digits-decimal x)))

from_json_record :
    (n x : ℕ)
    → number_codec.from_json (decimal n ++ ("," ++ decimal x))
      ≡ some (record { seq = n; event = x })
unfolding number_codec entry_of split_digits is_ascii_digit
from_json_record n x =
    ap entry_of (split_digits-append (decimal n) ("," ++ decimal x) (all_digits-decimal n) refl)
    ∙ rw (digits_value-decimal n, digits_value-decimal x) refl

parse_entry-some :
    (s : String) (r : WalEntry ℕ)
    → number_codec.from_json s ≡ some r
    → parse_entry number_codec s ≡ LineResult.entry r.seq r.event
unfolding parse_entry
parse_entry-some s r h = ground (arith, h)

number_codec_reads_back :
    (n x : ℕ)
    → classify number_codec (RawLine.line (number_codec.to_json n x)) ≡ LineResult.entry n x
unfolding classify number_codec parse_line
number_codec_reads_back n x =
    rw (trim_record n x, begun (decimal n) ("," ++ decimal x) (is_blank-decimal n))
      (parse_entry-some (decimal n ++ ("," ++ decimal x)) (record { seq = n; event = x })
        (from_json_record n x))

abbrev three_entries : List RawLine
three_entries = RawLine.line "1,10" ∷ RawLine.line "2,20" ∷ RawLine.line "3,30" ∷ []

three_HoldsEntries : HoldsEntries number_codec three_entries
unfolding number_codec decimal
three_HoldsEntries = (
  (1, 10, number_codec_reads_back 1 10),
  ((2, 20, number_codec_reads_back 2 20), ((3, 30, number_codec_reads_back 3 30), tt)),
)

abbrev a_spec : Spec ℕ
a_spec = record {
  entries = entries_in number_codec three_entries;
  unread = skip 1 (entries_in number_codec three_entries);
  last = (scan_wal number_codec three_entries 1).max_seq;
  processed = 1;
}

three_StartsProcessed : StartsProcessed 1 (entries_in number_codec three_entries)
unfolding entries_in number_codec classify trim split_digits entry_of parse_line parse_entry
    trim_start trim_end is_whitespace keep_end is_ascii_digit digits_value is_blank
three_StartsProcessed = omega arith

abbrev a_wal : Wal
a_wal = record {
  file = three_entries;
  write_seq = 3;
  processed_seq = 1;
  write_buffer = [];
  last_flush = 0;
  read_offset = 10;
}

opened_a_wal : Represents number_codec (open_wal number_codec 0 three_entries 1) a_spec
opened_a_wal =
    open_wal-Represents number_codec 0 1 three_entries three_HoldsEntries three_StartsProcessed

-- The cursor of the log has read two entries of which one is processed.
three_ascend : AreAscending (entries_in number_codec (flush 0 a_wal).file)
unfolding flush flush_buffer entries_in number_codec classify trim split_digits entry_of parse_line
    parse_entry trim_start trim_end is_whitespace keep_end is_ascii_digit digits_value is_blank
three_ascend = ((omega arith, (omega arith, tt)), ((omega arith, tt), (tt, tt)))

a_wal_processed : 2 ≤ (flush 0 a_wal).processed_seq + 1
unfolding flush flush_buffer
a_wal_processed = omega arith

open_wal-Represents_example :
    Represents number_codec (open_wal number_codec 0 three_entries 1) a_spec
open_wal-Represents_example =
    open_wal-Represents number_codec 0 1 three_entries three_HoldsEntries three_StartsProcessed

abbrev some_operations : List (Operation ℕ)
some_operations =
    Operation.receive_event 5
    ∷ Operation.send_event 40
    ∷ Operation.receive_event 6
    ∷ Operation.mark_event 2
    ∷ Operation.truncate_log 7 2
    ∷ Operation.receive_event 8
    ∷ Operation.receive_event 9
    ∷ Operation.receive_event 9
    ∷ []

run_wal-run_spec_example :
    run_wal number_codec some_operations (open_wal number_codec 0 three_entries 1)
    ≡ run_spec some_operations a_spec
run_wal-run_spec_example =
    run_wal-run_spec number_codec some_operations (open_wal number_codec 0 three_entries 1) a_spec
      number_codec_reads_back opened_a_wal

unread-truncate_before_example :
    unread number_codec (truncate_before number_codec 0 2 a_wal)
    ≡ some (entries_after number_codec (flush 0 a_wal).processed_seq (flush 0 a_wal))
unread-truncate_before_example =
    unread-truncate_before number_codec 0 2 a_wal a_wal_processed three_ascend

unread-open_wal_example :
    unread number_codec (open_wal number_codec 0 (RawLine.line "1,10" ∷ RawLine.line "2,20" ∷ []) 0)
    ≡ some (entries_in number_codec (RawLine.line "2,20" ∷ []))
unfolding number_codec decimal
unread-open_wal_example =
    unread-open_wal number_codec 0 0 1 2 10 20 "1,10" "2,20" [] (number_codec_reads_back 1 10)
      (number_codec_reads_back 2 20) tt (omega arith) (omega arith)

-- The second line is corrupt.
abbrev corrupt_file : List RawLine
corrupt_file = RawLine.line "1,10" ∷ RawLine.line "oops" ∷ RawLine.line "3,30" ∷ []

entries_after-open_wal_example :
    entries_after number_codec 0 (open_wal number_codec 0 corrupt_file 0)
    ≡ entries_after_in number_codec 0 corrupt_file
entries_after-open_wal_example = entries_after-open_wal number_codec 0 0 0 corrupt_file

write_seq-open_wal_example :
    All
      (λ (e : WalEntry ℕ). e.seq ≤ (open_wal number_codec 0 corrupt_file 0).write_seq)
      (entries_in number_codec (open_wal number_codec 0 corrupt_file 0).file)
write_seq-open_wal_example = write_seq-open_wal number_codec 0 0 corrupt_file
