-- ===== src/Storage/Wal/Scanning.antt =====
-- crates/storage/src/wal.rs, `scan_wal`: where the loop finds the first unprocessed entry.
use oddjobs.Prelude.{
  ℕ, ◌+◌, ◌-◌, ◌≤◌, ◌<◌, String, some, List, [], ◌∷◌, true, false, ◌&&◌, ◌≡◌, refl, sym, ap, ◌∙◌,
  arith, inl, inr, Bool-cases, ltb, eqb, if◌then◌else◌,
}
use mathlib.Core.Path.{subst}
use oddjobs.Storage.Wal.{
  Codec, RawLine, LineResult, width, seek, classify, Scan, finish_scan, scan_lines,
}
use oddjobs.Storage.Wal.Cursor.{skip, entries_in, seek_start}
use oddjobs.Storage.Wal.Queue.{HoldsEntries, seek_beyond}
use oddjobs.Storage.Wal.Refinement.{entries_in_entry}

pub width-line : (t : String) → 0 < width (RawLine.line t)
unfolding width
width-line t = omega arith

module _ {E : Type 0} (c : Codec E) where
  pub scan_lines_entry :
      (p m r o n : ℕ) (x : E) (l : RawLine) (ls : List RawLine)
      → classify c l ≡ LineResult.entry n x
      → scan_lines c p (l ∷ ls) m r o
        ≡ scan_lines c p ls
            (if ltb m n then n else m)
            (if ltb p n && eqb r 0 then o else r)
            (o + width l)
  unfolding scan_lines
  scan_lines_entry p m r o n x l ls h = ground (arith, h)

  pub scan_lines_found :
      (p m r o : ℕ) (ls : List RawLine)
      → HoldsEntries c ls
      → 0 < r
      → ((scan_lines c p ls m r o).offset ≡ r) × ((scan_lines c p ls m r o).is_corrupt ≡ false)
  unfolding scan_lines finish_scan
  scan_lines_found p m r o [] k h = (ground (arith, h), refl)
  scan_lines_found p m r o (RawLine.line t ∷ ls) ((n, x, e), k) h =
      let m2 = if ltb m n then n else m in
      let o2 = o + width (RawLine.line t) in
      ground (
        arith,
        h,
        scan_lines_entry p m r o n x (RawLine.line t) ls e,
        scan_lines_found p m2 r o2 ls k h,
      )
  scan_lines_found p m r o (RawLine.torn t ∷ ls) k h = elim k [ ]
  scan_lines_found p m r o (RawLine.binary b ∷ ls) k h = elim k [ ]

  -- What the scan's offset points at, seen from `o`.
  abbrev pub Finds : ℕ → ℕ → List RawLine → Scan → Type 0
  Finds p o ls s =
      (s.is_corrupt ≡ false)
      × (o ≤ s.offset)
      × ((rest : List RawLine) × (seek (s.offset - o) ls ≡ some rest)
          × (entries_in c rest ≡ skip p (entries_in c ls)))

  skip_entry :
      (p n : ℕ) (x : E) (l : RawLine) (ls : List RawLine)
      → classify c l ≡ LineResult.entry n x
      → skip p (entries_in c (l ∷ ls))
        ≡ (if ltb p n then entries_in c (l ∷ ls) else skip p (entries_in c ls))
  unfolding skip
  skip_entry p n x l ls h = ground (arith, entries_in_entry c l ls n x h)

  -- Past an entry that is processed.
  pub pass-Finds :
      (p m o n : ℕ) (x : E) (t : String) (ls : List RawLine)
      → classify c (RawLine.line t) ≡ LineResult.entry n x
      → ltb p n ≡ false
      → Finds p
          (o + width (RawLine.line t))
          ls
          (scan_lines c p ls (if ltb m n then n else m) 0 (o + width (RawLine.line t)))
      → Finds p o (RawLine.line t ∷ ls) (scan_lines c p (RawLine.line t ∷ ls) m 0 o)
  pass-Finds p m o n x t ls e b (u, f, (rest, g, v)) =
      let l = RawLine.line t in
      let w = width l in
      let s = scan_lines c p ls (if ltb m n then n else m) 0 (o + w) in
      let at : scan_lines c p (l ∷ ls) m 0 o ≡ s =
        ground (arith, b, scan_lines_entry p m 0 o n x l ls e) in
      subst (Finds p o (l ∷ ls)) (sym at) (
        u,
        omega (arith, f),
        (
          rest,
          seek_beyond (s.offset - (o + w)) (s.offset - o) l ls (width-line t) (omega (arith, f))
              ∙ g,
          ground (arith, b, v, skip_entry p n x l ls e),
        ),
      )

  -- At the first entry that is not processed.
  stop-Finds :
      (p m o n : ℕ) (x : E) (t : String) (ls : List RawLine)
      → classify c (RawLine.line t) ≡ LineResult.entry n x
      → ltb p n ≡ true
      → HoldsEntries c ls
      → 0 < o
      → Finds p o (RawLine.line t ∷ ls) (scan_lines c p (RawLine.line t ∷ ls) m 0 o)
  stop-Finds p m o n x t ls e b k h =
      let l = RawLine.line t in
      let m2 = if ltb m n then n else m in
      let s = scan_lines c p ls m2 o (o + width l) in
      let (f, u) = scan_lines_found p m2 o (o + width l) ls k h in
      let at : scan_lines c p (l ∷ ls) m 0 o ≡ s =
        ground (arith, b, scan_lines_entry p m 0 o n x l ls e) in
      let z : s.offset - o ≡ 0 = omega (arith, f) in
      subst (Finds p o (l ∷ ls)) (sym at) (
        u,
        omega (arith, f),
        (
          l ∷ ls,
          ap (λ i. seek i (l ∷ ls)) z ∙ seek_start (l ∷ ls),
          ground (arith, b, skip_entry p n x l ls e),
        ),
      )

  pub scan_lines-Finds :
      (p m o : ℕ) (ls : List RawLine)
      → HoldsEntries c ls
      → 0 < o
      → Finds p o ls (scan_lines c p ls m 0 o)
  unfolding seek scan_lines finish_scan entries_in skip
  scan_lines-Finds p m o [] k h = (refl, ground arith, ([], ground arith, refl))
  scan_lines-Finds p m o (RawLine.line t ∷ ls) ((n, x, e), k) h = elim (Bool-cases (ltb p n)) [
    | inl b ↦ stop-Finds p m o n x t ls e b k h
    | inr b ↦ pass-Finds p m o n x t ls e b (
        scan_lines-Finds p (if ltb m n then n else m) (o + width (RawLine.line t)) ls k
          (omega arith))
  ]
  scan_lines-Finds p m o (RawLine.torn t ∷ ls) k h = elim k [ ]
  scan_lines-Finds p m o (RawLine.binary b ∷ ls) k h = elim k [ ]
