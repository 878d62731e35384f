-- ===== src/Storage/Wal.antt =====
-- crates/storage/src/wal.rs: the lines of the log, and the loops over them.
-- An input or output error, which ends an operation early, is not modelled.
pub mod Operations
pub mod Entries
pub mod Truncation
pub mod Cursor
pub mod Queue
pub mod Spec
pub mod Meaning
pub mod Refinement
pub mod Scanning
pub mod Restart
pub mod Corruption
use Prim.Native.Char.{code}
use oddjobs.Prelude.{
  ◌++◌, ℕ, ◌+◌, ◌-◌, String, Option, none, some, List, [], ◌∷◌, Bool, true, false, not, ◌&&◌, ◌||◌,
  eqb, ltb, leb, if◌then◌else◌, length, push,
}
use oddjobs.Prelude.Decimal.{is_blank}
use oddjobs.Prelude.Trim.{trim}

-- `E` is the type of the events, which the log only writes and reads.
pub record WalEntry (E : Type 0) : Type 0 where
  pub seq : ℕ
  pub event : E

-- serde_json, at the type of a record of the log.
pub record Codec (E : Type 0) : Type 0 where
  pub to_json : ℕ → E → String
  pub from_json : String → Option (WalEntry E)

-- A line of the file. The last may lack its newline, and one that is not UTF-8 has only its size.
pub data RawLine : Type 0 where
  line : (text : String) → RawLine
  torn : (text : String) → RawLine
  binary : (bytes : ℕ) → RawLine

-- The bytes of a text in UTF-8.
unfoldable pub utf8_len : String → ℕ
utf8_len String.[] = 0
utf8_len (String.◌∷◌ c s) =
    let n = code c in
    (if ltb n 128 then 1 else if ltb n 2048 then 2 else if ltb n 65536 then 3 else 4) + utf8_len s

-- What `read_line` counts.
unfoldable pub width : RawLine → ℕ
width (RawLine.line s) = utf8_len s + 1
width (RawLine.torn s) = utf8_len s
width (RawLine.binary n) = n + 1

-- `write_all(text)` and a newline, in append mode.
unfoldable pub append_line : List RawLine → String → List RawLine
append_line [] s = RawLine.line s ∷ []
append_line (RawLine.torn t ∷ []) s = RawLine.line (t ++ s) ∷ []
append_line (l ∷ ls) s = l ∷ append_line ls s

unfoldable pub append_lines : List RawLine → List String → List RawLine
append_lines file [] = file
append_lines file (s ∷ buffer) = append_lines (append_line file s) buffer

-- What a reader makes of a line.
pub data LineResult (E : Type 0) : Type 0 where
  blank : LineResult E
  entry : (seq : ℕ) → (event : E) → LineResult E
  corrupt : LineResult E
  invalid_data : LineResult E

-- The result of `scan_wal`.
pub record Scan : Type 0 where
  pub max_seq : ℕ
  pub offset : ℕ
  pub is_corrupt : Bool

-- After the scan's loop: 0 stands for no unprocessed entry.
unfoldable pub finish_scan : ℕ → ℕ → ℕ → Bool → Scan
finish_scan max_seq read_offset current_offset is_corrupt = record {
  max_seq = max_seq;
  offset = if eqb read_offset 0 then current_offset else read_offset;
  is_corrupt = is_corrupt;
}

-- The offsets at which the lines of a file start, and the position of a reader after a seek: none
-- when it is inside a line.
unfoldable pub seek : ℕ → List RawLine → Option (List RawLine)
seek n [] = if eqb n 0 then some [] else none
seek n (l ∷ ls) =
    let rest = seek (n - width l) ls in
    if eqb n 0 then some (l ∷ ls) else if leb (width l) n then rest else none

-- The trimmed text of a line that is not blank.
unfoldable pub text_of : RawLine → String
text_of (RawLine.line s) = trim s
text_of (RawLine.torn s) = trim s
text_of (RawLine.binary n) = String.[]

module _ {E : Type 0} (c : Codec E) where
  unfoldable pub parse_entry : String → LineResult E
  parse_entry s = elim (c.from_json s) [
    | none ↦ LineResult.corrupt
    | some r ↦ LineResult.entry r.seq r.event
  ]

  -- Of a trimmed line.
  unfoldable pub parse_line : String → LineResult E
  parse_line s = if is_blank s then LineResult.blank else parse_entry s

  unfoldable pub classify : RawLine → LineResult E
  classify (RawLine.line s) = parse_line (trim s)
  classify (RawLine.torn s) = parse_line (trim s)
  classify (RawLine.binary n) = LineResult.invalid_data

  -- The loop of `scan_wal`.
  unfoldable pub scan_lines : ℕ → List RawLine → ℕ → ℕ → ℕ → Scan
  scan_lines processed_seq [] max_seq read_offset current_offset =
      finish_scan max_seq read_offset current_offset false
  scan_lines processed_seq (l ∷ ls) max_seq read_offset current_offset = elim (classify l) [
    | LineResult.blank ↦ scan_lines processed_seq ls max_seq read_offset (current_offset + width l)
    | LineResult.entry seq _ ↦
        scan_lines processed_seq ls (if ltb max_seq seq then seq else max_seq)
          (if ltb processed_seq seq && eqb read_offset 0 then current_offset else read_offset)
          (current_offset + width l)
    | LineResult.corrupt ↦ finish_scan max_seq read_offset current_offset true
    | LineResult.invalid_data ↦ finish_scan max_seq read_offset current_offset true
  ]

  unfoldable pub scan_wal : List RawLine → ℕ → Scan
  scan_wal file processed_seq = scan_lines processed_seq file 0 0 0

  unfoldable pub read_valid_lines : List RawLine → List String
  read_valid_lines [] = []
  read_valid_lines (l ∷ ls) = elim (classify l) [
    | LineResult.blank ↦ read_valid_lines ls
    | LineResult.entry _ _ ↦ text_of l ∷ read_valid_lines ls
    | LineResult.corrupt ↦ []
    | LineResult.invalid_data ↦ []
  ]

  unfoldable pub entries_after_in : ℕ → List RawLine → List (WalEntry E)
  entries_after_in seq [] = []
  entries_after_in seq (l ∷ ls) = elim (classify l) [
    | LineResult.blank ↦ entries_after_in seq ls
    | LineResult.entry n e ↦
        let rest = entries_after_in seq ls in
        if ltb seq n then record { seq = n; event = e } ∷ rest else rest
    | LineResult.corrupt ↦ []
    | LineResult.invalid_data ↦ []
  ]

  -- The lines that `truncate_before` keeps, with their sequence numbers.
  unfoldable pub kept_lines : ℕ → List RawLine → List (ℕ × String)
  kept_lines seq [] = []
  kept_lines seq (l ∷ ls) = elim (classify l) [
    | LineResult.blank ↦ kept_lines seq ls
    | LineResult.entry n _ ↦
        let rest = kept_lines seq ls in if leb seq n then (n, text_of l) ∷ rest else rest
    | LineResult.corrupt ↦ []
    | LineResult.invalid_data ↦ []
  ]
