-- ===== src/Storage/Wal/Queue.antt =====
-- crates/storage/src/wal.rs : the file with the buffer written, and seeks in a file of whole entries.
use oddjobs.Prelude.{
  ℕ, ◌+◌, ◌-◌, ◌≤◌, ◌<◌, String, some, List, [], ◌∷◌, ◌≡◌, refl, sym, ap, ◌∙◌, arith, push,
  if◌then◌else◌, eqb, Bool-cases, inl, inr, ◌⊎◌, leb, if_intro,
}
use mathlib.Core.Path.{subst}
use oddjobs.Storage.Wal.{
  Codec, RawLine, LineResult, width, append_line, append_lines, seek, classify, text_of, kept_lines,
}
use oddjobs.Storage.Wal.Operations.{Wal, written, flush, flush_buffer}
use oddjobs.Storage.Wal.Entries.{classify-text_of}
use oddjobs.Storage.Wal.Cursor.{entries_in, seek_start}

-- The file as it is once the buffer is written.
unfoldable pub full_file : Wal → List RawLine
full_file w = append_lines w.file w.write_buffer

pub append_lines-push :
    (file : List RawLine) (buffer : List String) (s : String)
    → append_lines file (push buffer s) ≡ append_line (append_lines file buffer) s
unfolding append_lines push
append_lines-push file [] s = refl
append_lines-push file (b ∷ buffer) s = append_lines-push (append_line file b) buffer s

pub file-flush_buffer :
    (now : ℕ) (b : List String) (w : Wal) → (flush_buffer now b w).file ≡ append_lines w.file b
unfolding flush_buffer append_lines
file-flush_buffer now [] w = refl
file-flush_buffer now (s ∷ b) w = refl

pub write_buffer-flush_buffer :
    (now : ℕ) (b : List String) (w : Wal)
    → b ≡ w.write_buffer
    → (flush_buffer now b w).write_buffer ≡ []
unfolding flush_buffer
write_buffer-flush_buffer now [] w h = sym h
write_buffer-flush_buffer now (s ∷ b) w h = refl

pub full_file-flush : (now : ℕ) (w : Wal) → full_file (flush now w) ≡ (flush now w).file
unfolding full_file flush append_lines
full_file-flush now w =
    ap (append_lines (flush now w).file) (write_buffer-flush_buffer now w.write_buffer w refl)

-- Where a seek that succeeds ends: at the first line, or further on.
seek-cases :
    (o : ℕ) (l : RawLine) (ls rest : List RawLine)
    → seek o (l ∷ ls) ≡ some rest
    → ((o ≡ 0) × (l ∷ ls ≡ rest)) ⊎ ((width l ≤ o) × (seek (o - width l) ls ≡ some rest))
unfolding seek
seek-cases o l ls rest h = elim (Bool-cases (eqb o 0)) [
  | inl z ↦ inl (ground (arith, z), ground (arith, h, z))
  | inr z ↦ inr (ground (arith, h, z), ground (arith, h, z))
]

pub seek_beyond :
    (n o : ℕ) (l : RawLine) (ls : List RawLine)
    → 0 < width l
    → o ≡ n + width l
    → seek o (l ∷ ls) ≡ seek n ls
unfolding seek
seek_beyond n o l ls h e =
    let here : o - width l ≡ n = omega arith in ground (arith, h, e, ap (λ m. seek m ls) here)

module _ {E : Type 0} (c : Codec E) where
  -- Whole lines with an entry each.
  abbrev pub HoldsEntries : List RawLine → Type 0
  HoldsEntries [] = Unit
  HoldsEntries (RawLine.line s ∷ ls) =
      ((n : ℕ) × (e : E) × (classify c (RawLine.line s) ≡ LineResult.entry n e)) × HoldsEntries ls
  HoldsEntries (RawLine.torn s ∷ ls) = ⊥
  HoldsEntries (RawLine.binary n ∷ ls) = ⊥

  pub append_line-HoldsEntries :
      (ls : List RawLine) (s : String) (n : ℕ) (e : E)
      → classify c (RawLine.line s) ≡ LineResult.entry n e
      → HoldsEntries ls
      → HoldsEntries (append_line ls s)
  unfolding append_line
  append_line-HoldsEntries [] s n e h k = ((n, e, h), tt)
  append_line-HoldsEntries (RawLine.line t ∷ ls) s n e h (k, ks) =
      (k, append_line-HoldsEntries ls s n e h ks)
  append_line-HoldsEntries (RawLine.torn t ∷ ls) s n e h k = elim k [ ]
  append_line-HoldsEntries (RawLine.binary b ∷ ls) s n e h k = elim k [ ]

  pub entries_in-append_line :
      (ls : List RawLine) (s : String) (n : ℕ) (e : E)
      → classify c (RawLine.line s) ≡ LineResult.entry n e
      → HoldsEntries ls
      → entries_in c (append_line ls s) ≡ push (entries_in c ls) (record { seq = n; event = e })
  unfolding append_line entries_in push
  entries_in-append_line [] s n e h k = ground (arith, h)
  entries_in-append_line (RawLine.line t ∷ ls) s n e h ((m, x, k), ks) =
      ground (arith, k, entries_in-append_line ls s n e h ks)
  entries_in-append_line (RawLine.torn t ∷ ls) s n e h k = elim k [ ]
  entries_in-append_line (RawLine.binary b ∷ ls) s n e h k = elim k [ ]

  pub seek-append_line :
      (o : ℕ) (ls : List RawLine) (rest : List RawLine) (s : String)
      → HoldsEntries ls
      → seek o ls ≡ some rest
      → seek o (append_line ls s) ≡ some (append_line rest s)
  unfolding append_line seek
  seek-append_line o [] rest s k h = ground arith
  seek-append_line o (RawLine.line t ∷ ls) rest s (k, ks) h =
      ground (arith, h, seek-append_line (o - width (RawLine.line t)) ls rest s ks)
  seek-append_line o (RawLine.torn t ∷ ls) rest s k h = elim k [ ]
  seek-append_line o (RawLine.binary b ∷ ls) rest s k h = elim k [ ]

  pub seek-HoldsEntries :
      (o : ℕ) (ls rest : List RawLine) → HoldsEntries ls → seek o ls ≡ some rest → HoldsEntries rest
  unfolding seek
  seek-HoldsEntries o [] [] k h = tt
  seek-HoldsEntries o [] (l ∷ rest) k h = ground (arith, h)
  seek-HoldsEntries o (RawLine.line t ∷ ls) rest (k, ks) h =
      elim (seek-cases o (RawLine.line t) ls rest h) [
        | inl (z, e) ↦ subst HoldsEntries e (k, ks)
        | inr (b, e) ↦ seek-HoldsEntries (o - width (RawLine.line t)) ls rest ks e
      ]
  seek-HoldsEntries o (RawLine.torn t ∷ ls) rest k h = elim k [ ]
  seek-HoldsEntries o (RawLine.binary b ∷ ls) rest k h = elim k [ ]

  pub seek_next :
      (o : ℕ) (ls rest : List RawLine) (l : RawLine)
      → HoldsEntries ls
      → seek o ls ≡ some (l ∷ rest)
      → seek (o + width l) ls ≡ some rest
  unfolding seek width
  seek_next o [] rest l k h = ground arith
  seek_next o (RawLine.line t ∷ ls) rest l (k, ks) h =
      elim (seek-cases o (RawLine.line t) ls (l ∷ rest) h) [
        | inl (z, e) ↦
            seek_beyond 0 (o + width l) (RawLine.line t) ls (omega arith) (ground (arith, e, z))
            ∙ seek_start ls
            ∙ ap some (ground (arith, e))
        | inr (b, e) ↦
            seek_beyond (o - width (RawLine.line t) + width l) (o + width l) (RawLine.line t) ls
              (ground (arith)) (omega arith)
            ∙ seek_next (o - width (RawLine.line t)) ls rest l ks e
      ]
  seek_next o (RawLine.torn t ∷ ls) rest l k h = elim k [ ]
  seek_next o (RawLine.binary b ∷ ls) rest l k h = elim k [ ]

  kept_lines_entry :
      (seq n : ℕ) (x : E) (l : RawLine) (ls : List RawLine)
      → classify c l ≡ LineResult.entry n x
      → kept_lines c seq (l ∷ ls)
        ≡ (if leb seq n then (n, text_of l) ∷ kept_lines c seq ls else kept_lines c seq ls)
  unfolding kept_lines
  kept_lines_entry seq n x l ls h = ground (arith, h)

  pub written-HoldsEntries :
      (seq : ℕ) (ls : List RawLine) → HoldsEntries ls → HoldsEntries (written (kept_lines c seq ls))
  unfolding written kept_lines
  written-HoldsEntries seq [] k = tt
  written-HoldsEntries seq (RawLine.line t ∷ ls) ((n, x, k), ks) =
      let P = λ (kept : List (ℕ × String)). HoldsEntries (written kept) in
      let rest = written-HoldsEntries seq ls ks in
      subst P (sym (kept_lines_entry seq n x (RawLine.line t) ls k)) (
        if_intro P (leb seq n) ((n, text_of (RawLine.line t)) ∷ kept_lines c seq ls)
          (kept_lines c seq ls) ((n, x, classify-text_of c (RawLine.line t) n x k), rest) rest)
  written-HoldsEntries seq (RawLine.torn t ∷ ls) k = elim k [ ]
  written-HoldsEntries seq (RawLine.binary b ∷ ls) k = elim k [ ]
