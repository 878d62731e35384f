-- ===== src/Storage/Wal/Cursor.antt =====
-- crates/storage/src/wal.rs: the entries ahead of the cursor, as a list.
use oddjobs.Prelude.{
  ℕ, ◌+◌, ◌≤◌, ◌<◌, String, none, some, List, [], ◌∷◌, ◌≡◌, refl, inl, inr, arith, Bool-cases, ltb,
  leb, if◌then◌else◌, All,
}
use oddjobs.Storage.Wal.{
  WalEntry, Codec, RawLine, LineResult, utf8_len, width, seek, classify, entries_after_in,
  kept_lines,
}
use oddjobs.Storage.Wal.Operations.{written, written_offset}
use oddjobs.Storage.Wal.Entries.{LineResult-cases, classify-text_of}

module _ {E : Type 0} where
  -- Every entry comes after those before it.
  abbrev pub AreAscending : List (WalEntry E) → Type 0
  AreAscending [] = Unit
  AreAscending (e ∷ es) = All (λ (x : WalEntry E). e.seq < x.seq) es × AreAscending es

  unfoldable pub after : ℕ → List (WalEntry E) → List (WalEntry E)
  after q [] = []
  after q (e ∷ es) = let rest = after q es in if ltb q e.seq then e ∷ rest else rest

  unfoldable pub from : ℕ → List (WalEntry E) → List (WalEntry E)
  from seq [] = []
  from seq (e ∷ es) = let rest = from seq es in if leb seq e.seq then e ∷ rest else rest

  unfoldable pub skip : ℕ → List (WalEntry E) → List (WalEntry E)
  skip p [] = []
  skip p (e ∷ es) = let rest = skip p es in if ltb p e.seq then e ∷ es else rest

  from-All :
      (seq n : ℕ) (es : List (WalEntry E))
      → seq ≤ n
      → All (λ (x : WalEntry E). n < x.seq) es
      → from seq es ≡ es
  unfolding from
  from-All seq n [] h k = refl
  from-All seq n (e ∷ es) h (k, ks) = ground (arith, from-All seq n es h ks)

  pub after-All :
      (q n : ℕ) (es : List (WalEntry E))
      → q ≤ n
      → All (λ (x : WalEntry E). n < x.seq) es
      → after q es ≡ es
  unfolding after
  after-All q n [] h k = refl
  after-All q n (e ∷ es) h (k, ks) = ground (arith, after-All q n es h ks)

  pub skip-from :
      (p seq : ℕ) (es : List (WalEntry E))
      → seq ≤ p + 1
      → AreAscending es
      → skip p (from seq es) ≡ after p es
  unfolding skip from after
  skip-from p seq [] h k = refl
  skip-from p seq (e ∷ es) h (k, ks) = elim (Bool-cases (ltb p e.seq)) [
    | inl l ↦ ground (
      arith,
      l,
      from-All seq e.seq es (ground (arith, l)) k,
      after-All p e.seq es (ground (arith, l)) k,
    )
    | inr l ↦ ground (arith, l, skip-from p seq es h ks)
  ]

-- What `truncate_before` keeps of the file, from the first unprocessed entry on.
unfoldable pub skip_processed : ℕ → List (ℕ × String) → List (ℕ × String)
skip_processed p [] = []
skip_processed p ((n, s) ∷ kept) =
    let rest = skip_processed p kept in if ltb p n then (n, s) ∷ kept else rest

written_offset-some :
    (p : ℕ) (kept : List (ℕ × String)) (o first : ℕ) → written_offset p kept o (some first) ≡ first
unfolding written_offset
written_offset-some p [] o first = refl
written_offset-some p ((n, s) ∷ kept) o first =
    written_offset-some p kept (o + (utf8_len s + 1)) first

written_offset-shift :
    (p : ℕ) (kept : List (ℕ × String)) (o : ℕ)
    → written_offset p kept o none ≡ o + written_offset p kept 0 none
unfolding written_offset
written_offset-shift p [] o = omega arith
written_offset-shift p ((n, s) ∷ kept) o = ground (
  arith,
  written_offset-shift p kept (o + (utf8_len s + 1)),
  written_offset-shift p kept (utf8_len s + 1),
  written_offset-some p kept (o + (utf8_len s + 1)) o,
  written_offset-some p kept (utf8_len s + 1) 0,
)

pub seek_start : (ls : List RawLine) → seek 0 ls ≡ some ls
unfolding seek
seek_start [] = refl
seek_start (l ∷ ls) = refl

pub seek-written :
    (p : ℕ) (kept : List (ℕ × String))
    → seek (written_offset p kept 0 none) (written kept) ≡ some (written (skip_processed p kept))
unfolding seek written_offset written skip_processed width
seek-written p [] = refl
seek-written p ((n, s) ∷ kept) = elim (Bool-cases (ltb p n)) [
  | inl l ↦ ground (arith, l, written_offset-some p kept (utf8_len s + 1) 0)
  | inr l ↦ ground (arith, l, written_offset-shift p kept (utf8_len s + 1), seek-written p kept)
]

module _ {E : Type 0} (c : Codec E) where
  unfoldable pub entries_in : List RawLine → List (WalEntry E)
  entries_in [] = []
  entries_in (l ∷ ls) = elim (classify c l) [
    | LineResult.blank ↦ entries_in ls
    | LineResult.entry n e ↦ record { seq = n; event = e } ∷ entries_in ls
    | LineResult.corrupt ↦ []
    | LineResult.invalid_data ↦ []
  ]

  pub entries_after_in-after :
      (q : ℕ) (ls : List RawLine) → entries_after_in c q ls ≡ after q (entries_in ls)
  unfolding entries_after_in entries_in after
  entries_after_in-after q [] = refl
  entries_after_in-after q (l ∷ ls) = elim (LineResult-cases (classify c l)) [
    | inl e ↦ ground (arith, e, entries_after_in-after q ls)
    | inr (inl (n, x, e)) ↦ ground (arith, e, entries_after_in-after q ls)
    | inr (inr (inl e)) ↦ ground (arith, e)
    | inr (inr (inr e)) ↦ ground (arith, e)
  ]

  pub entries_in-kept :
      (seq : ℕ) (ls : List RawLine)
      → entries_in (written (kept_lines c seq ls)) ≡ from seq (entries_in ls)
  unfolding entries_in written kept_lines from
  entries_in-kept seq [] = refl
  entries_in-kept seq (l ∷ ls) = elim (LineResult-cases (classify c l)) [
    | inl e ↦ ground (arith, e, entries_in-kept seq ls)
    | inr (inl (n, x, e)) ↦ ground (arith, e, classify-text_of c l n x e, entries_in-kept seq ls)
    | inr (inr (inl e)) ↦ ground (arith, e)
    | inr (inr (inr e)) ↦ ground (arith, e)
  ]

  pub entries_in-skip :
      (p seq : ℕ) (ls : List RawLine)
      → entries_in (written (skip_processed p (kept_lines c seq ls)))
        ≡ skip p (from seq (entries_in ls))
  unfolding entries_in written kept_lines from skip skip_processed
  entries_in-skip p seq [] = refl
  entries_in-skip p seq (l ∷ ls) = elim (LineResult-cases (classify c l)) [
    | inl e ↦ ground (arith, e, entries_in-skip p seq ls)
    | inr (inl (n, x, e)) ↦
        ground
          (arith, e, classify-text_of c l n x e, entries_in-skip p seq ls, entries_in-kept seq ls)
    | inr (inr (inl e)) ↦ ground (arith, e)
    | inr (inr (inr e)) ↦ ground (arith, e)
  ]
