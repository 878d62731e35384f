-- ===== src/Storage/Wal/Corruption.antt =====
-- crates/storage/src/wal.rs, `open`: what a restart keeps of a log, corrupt or not, and the sequence
-- numbers that it goes on with.
use oddjobs.Prelude.{
  ℕ, ◌+◌, ◌≤◌, String, List, [], ◌∷◌, true, ◌≡◌, refl, sym, ap, ◌∙◌, arith, inl, inr, Bool-cases,
  ◌&&◌, ltb, eqb, All, if◌then◌else◌, push,
}
use mathlib.Core.Path.{subst}
use oddjobs.Storage.Wal.{
  WalEntry, Codec, RawLine, width, append_line, append_lines, classify, read_valid_lines,
  finish_scan, Scan, scan_lines, scan_wal, entries_after_in,
}
use oddjobs.Storage.Wal.Operations.{clean_file, opened, open_wal, entries_after}
use oddjobs.Storage.Wal.Entries.{LineResult-cases, classify-text_of}
use oddjobs.Storage.Wal.Cursor.{after, entries_in, entries_after_in-after}

as_lines : List String → List RawLine
as_lines [] = []
as_lines (s ∷ texts) = RawLine.line s ∷ as_lines texts

append : List String → List String → List String
append [] b = b
append (s ∷ a) b = s ∷ append a b

append-push : (a b : List String) (s : String) → append (push a s) b ≡ append a (s ∷ b)
unfolding append push
append-push [] b s = refl
append-push (t ∷ a) b s = ap (λ l. t ∷ l) (append-push a b s)

append_nil : (a : List String) → a ≡ append a []
unfolding append
append_nil [] = refl
append_nil (s ∷ a) = ap (λ l. s ∷ l) (append_nil a)

append_line-as_lines :
    (a : List String) (s : String) → append_line (as_lines a) s ≡ as_lines (push a s)
unfolding append_line as_lines push
append_line-as_lines [] s = refl
append_line-as_lines (t ∷ a) s = ap (λ l. RawLine.line t ∷ l) (append_line-as_lines a s)

append_lines-as_lines : (a b : List String) → append_lines (as_lines a) b ≡ as_lines (append a b)
unfolding append_lines append
append_lines-as_lines a [] = ap as_lines (append_nil a)
append_lines-as_lines a (s ∷ b) =
    ap (λ l. append_lines l b) (append_line-as_lines a s)
    ∙ append_lines-as_lines (push a s) b
    ∙ ap as_lines (append-push a b s)

module _ {E : Type 0} (c : Codec E) where
  entries_in-valid :
      (ls : List RawLine) → entries_in c (as_lines (read_valid_lines c ls)) ≡ entries_in c ls
  unfolding entries_in read_valid_lines as_lines
  entries_in-valid [] = refl
  entries_in-valid (l ∷ ls) = elim (LineResult-cases (classify c l)) [
    | inl e ↦ ground (arith, e, entries_in-valid ls)
    | inr (inl (n, x, e)) ↦ ground (arith, e, classify-text_of c l n x e, entries_in-valid ls)
    | inr (inr (inl e)) ↦ ground (arith, e)
    | inr (inr (inr e)) ↦ ground (arith, e)
  ]

  clean_file-entries_in :
      (p : ℕ) (file : List RawLine) → entries_in c (clean_file c file p) ≡ entries_in c file
  unfolding clean_file as_lines append
  clean_file-entries_in p file = elim (Bool-cases (scan_wal c file p).is_corrupt) [
    | inl e ↦ rw e (
        ap (entries_in c) (append_lines-as_lines [] (read_valid_lines c file))
        ∙ entries_in-valid file)
    | inr e ↦ rw e refl
  ]

  -- A restart, whether it finds corruption or not, keeps the entries before the first corrupt line:
  -- a recovery from the opened log asks for the same entries as from the file before.
  pub entries_after-open_wal :
      (now p q : ℕ) (file : List RawLine)
      → entries_after c q (open_wal c now file p) ≡ entries_after_in c q file
  unfolding entries_after open_wal opened
  entries_after-open_wal now p q file =
      entries_after_in-after c q (clean_file c file p)
      ∙ ap (after q) (clean_file-entries_in p file)
      ∙ sym (entries_after_in-after c q file)

  abbrev Bounds : ℕ → List (WalEntry E) → Scan → Type 0
  Bounds m es s = (m ≤ s.max_seq) × All (λ (e : WalEntry E). e.seq ≤ s.max_seq) es

  -- The entries and the scan may both be replaced by equals.
  Bounds-equal :
      (m : ℕ) (es fs : List (WalEntry E)) (s t : Scan)
      → es ≡ fs
      → s ≡ t
      → Bounds m fs t
      → Bounds m es s
  Bounds-equal m es fs s t h k b = subst (λ x. Bounds m x s) (sym h) (subst (Bounds m fs) (sym k) b)

  scan_lines-Bounds :
      (p m r o : ℕ) (ls : List RawLine) → Bounds m (entries_in c ls) (scan_lines c p ls m r o)
  unfolding scan_lines finish_scan entries_in
  scan_lines-Bounds p m r o [] = (omega arith, tt)
  scan_lines-Bounds p m r o (l ∷ ls) =
      let es = entries_in c (l ∷ ls) in
      let s = scan_lines c p (l ∷ ls) m r o in
      elim (LineResult-cases (classify c l)) [
        | inl e ↦
            Bounds-equal m es (entries_in c ls) s (scan_lines c p ls m r (o + width l))
              (ground (arith, e)) (ground (arith, e)) (scan_lines-Bounds p m r (o + width l) ls)
        | inr (inl (n, x, e)) ↦
            let m2 = if ltb m n then n else m in
            let r2 = if ltb p n && eqb r 0 then o else r in
            let t = scan_lines c p ls m2 r2 (o + width l) in
            let (b, bs) = scan_lines-Bounds p m2 r2 (o + width l) ls in
            Bounds-equal m es (record { seq = n; event = x } ∷ entries_in c ls) s t
              (ground (arith, e)) (ground (arith, e)) (ground (arith, b), (ground (arith, b), bs))
        | inr (inr (inl e)) ↦
            Bounds-equal m es [] s (finish_scan m r o true) (ground (arith, e)) (ground (arith, e))
              (omega arith, tt)
        | inr (inr (inr e)) ↦
            Bounds-equal m es [] s (finish_scan m r o true) (ground (arith, e)) (ground (arith, e))
              (omega arith, tt)
      ]

  -- The next sequence number is larger than that of every entry that the restart keeps.
  pub write_seq-open_wal :
      (now p : ℕ) (file : List RawLine)
      → All
          (λ (e : WalEntry E). e.seq ≤ (open_wal c now file p).write_seq)
          (entries_in c (open_wal c now file p).file)
  unfolding open_wal opened scan_wal
  write_seq-open_wal now p file = (scan_lines-Bounds p 0 0 0 (clean_file c file p)).1
