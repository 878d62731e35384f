-- ===== src/Storage/Wal/Restart.antt =====
-- crates/storage/src/wal.rs, `open`: the log as a restart finds it.
use oddjobs.Prelude.{
  ℕ, ◌+◌, ◌-◌, ◌≤◌, ◌<◌, String, some, List, [], ◌∷◌, false, ◌≡◌, refl, sym, ap, ◌∙◌, arith, ltb,
  if◌then◌else◌,
}
use mathlib.Core.Path.{subst}
use oddjobs.Storage.Wal.{
  WalEntry, Codec, RawLine, LineResult, width, append_lines, seek, classify, finish_scan,
  scan_lines, scan_wal,
}
use oddjobs.Storage.Wal.Operations.{clean_file, opened, open_wal}
use oddjobs.Storage.Wal.Cursor.{skip, entries_in, seek_start}
use oddjobs.Storage.Wal.Queue.{full_file, HoldsEntries, seek_beyond}
use oddjobs.Storage.Wal.Scanning.{
  width-line, Finds, scan_lines_entry, scan_lines_found, pass-Finds, scan_lines-Finds,
}
use oddjobs.Storage.Wal.Meaning.{Represents}
use oddjobs.Storage.Wal.Refinement.{entries_in_entry}
use oddjobs.Storage.Wal.Truncation.{entries_ahead, unread}

minus_zero : (n : ℕ) → n ≡ n - 0
minus_zero n = omega arith

module _ {E : Type 0} where
  -- The first entry, if there is one, is processed.
  abbrev pub StartsProcessed : ℕ → List (WalEntry E) → Type 0
  StartsProcessed p [] = Unit
  StartsProcessed p (e ∷ es) = e.seq ≤ p

module _ {E : Type 0} (c : Codec E) where
  scan_wal-Finds :
      (p : ℕ) (file : List RawLine)
      → HoldsEntries c file
      → StartsProcessed p (entries_in c file)
      → Finds c p 0 file (scan_wal c file p)
  unfolding scan_wal scan_lines finish_scan entries_in skip seek
  scan_wal-Finds p [] k h = (refl, omega arith, ([], refl, refl))
  scan_wal-Finds p (RawLine.line t ∷ ls) ((n, x, e), k) h =
      let le : n ≤ p = subst (StartsProcessed p) (entries_in_entry c (RawLine.line t) ls n x e) h in
      pass-Finds c p 0 0 n x t ls e (ground (arith, le)) (
        scan_lines-Finds c p (if ltb 0 n then n else 0) (0 + width (RawLine.line t)) ls k
          (omega (arith, width-line t)))
  scan_wal-Finds p (RawLine.torn t ∷ ls) k h = elim k [ ]
  scan_wal-Finds p (RawLine.binary b ∷ ls) k h = elim k [ ]

  clean_file_same :
      (p : ℕ) (file : List RawLine)
      → (scan_wal c file p).is_corrupt ≡ false
      → clean_file c file p ≡ file
  unfolding clean_file
  clean_file_same p file h = rw h refl

  -- After a restart over a log of whole entries of which the first is processed, the cursor stands
  -- on the first entry that is not processed, and the log represents its list of entries.
  pub open_wal-Represents :
      (now p : ℕ) (file : List RawLine)
      → HoldsEntries c file
      → StartsProcessed p (entries_in c file)
      → Represents c (open_wal c now file p) (record {
        entries = entries_in c file;
        unread = skip p (entries_in c file);
        last = (scan_wal c file p).max_seq;
        processed = p;
      })
  unfolding open_wal opened full_file append_lines
  open_wal-Represents now p file k h =
      let (u, f, (rest, g, v)) = scan_wal-Finds p file k h in
      subst
        (λ clean. Represents c (opened c now clean p) (record {
          entries = entries_in c file;
          unread = skip p (entries_in c file);
          last = (scan_wal c file p).max_seq;
          processed = p;
        }))
        (sym (clean_file_same p file u))
        (record {
          ahead = rest;
          holds = k;
          entries_of = refl;
          at_cursor = ap (λ n. seek n file) (minus_zero (scan_wal c file p).offset) ∙ g;
          unread_of = v;
          last_of = refl;
          processed_of = refl;
        })

  scan_wal_second :
      (p n m : ℕ) (x y : E) (s t : String) (ls : List RawLine)
      → classify c (RawLine.line s) ≡ LineResult.entry n x
      → classify c (RawLine.line t) ≡ LineResult.entry m y
      → HoldsEntries c ls
      → p < n
      → p < m
      → ((scan_wal c (RawLine.line s ∷ RawLine.line t ∷ ls) p).offset ≡ 0 + width (RawLine.line s))
        × ((scan_wal c (RawLine.line s ∷ RawLine.line t ∷ ls) p).is_corrupt ≡ false)
  unfolding scan_wal
  scan_wal_second p n m x y s t ls h i r a b =
      let k = RawLine.line t in
      let w = width (RawLine.line s) in
      let m2 = if ltb 0 n then n else 0 in
      ground (
        arith,
        a,
        b,
        scan_lines_entry c p 0 0 0 n x (RawLine.line s) (k ∷ ls) h,
        scan_lines_entry c p m2 0 (0 + w) m y k ls i,
        scan_lines_found c p (if ltb m2 m then m else m2) (0 + w) (0 + w + width k) ls r
            (omega (arith, width-line s)),
      )

  -- After a restart over a log of whole entries of which the first two are not processed, what is
  -- unread is the entries from the second on.
  pub unread-open_wal :
      (now p n m : ℕ) (x y : E) (s t : String) (ls : List RawLine)
      → classify c (RawLine.line s) ≡ LineResult.entry n x
      → classify c (RawLine.line t) ≡ LineResult.entry m y
      → HoldsEntries c ls
      → p < n
      → p < m
      → unread c (open_wal c now (RawLine.line s ∷ RawLine.line t ∷ ls) p)
        ≡ some (entries_in c (RawLine.line t ∷ ls))
  unfolding open_wal opened unread entries_ahead
  unread-open_wal now p n m x y s t ls h i r a b =
      let file = RawLine.line s ∷ RawLine.line t ∷ ls in
      let (o, u) = scan_wal_second p n m x y s t ls h i r a b in
      subst
        (λ clean.
          entries_ahead c (seek (scan_wal c clean p).offset clean)
          ≡ some (entries_in c (RawLine.line t ∷ ls)))
        (sym (clean_file_same p file u))
        (ap (entries_ahead c) (
          seek_beyond 0 (scan_wal c file p).offset (RawLine.line s) (RawLine.line t ∷ ls)
            (width-line s) o
          ∙ seek_start (RawLine.line t ∷ ls)))
