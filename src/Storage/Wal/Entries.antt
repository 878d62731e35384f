-- ===== src/Storage/Wal/Entries.antt =====
-- crates/storage/src/wal.rs: what the reader of the log finds again in the lines it keeps.
use oddjobs.Prelude.{ℕ, ◌+◌, ◌≤◌, List, [], ◌∷◌, ◌≡◌, refl, ◌⊎◌, inl, inr, arith}
use oddjobs.Prelude.Trim.{trim_idem}
use oddjobs.Storage.Wal.{
  Codec, RawLine, LineResult, classify, text_of, entries_after_in, kept_lines,
}
use oddjobs.Storage.Wal.Operations.{written}

pub LineResult-cases :
    {E : Type 0} (r : LineResult E)
    → (r ≡ LineResult.blank)
      ⊎ ((n : ℕ) × (e : E) × (r ≡ LineResult.entry n e))
      ⊎ (r ≡ LineResult.corrupt)
      ⊎ (r ≡ LineResult.invalid_data)
LineResult-cases LineResult.blank = inl refl
LineResult-cases (LineResult.entry n e) = inr (inl (n, e, refl))
LineResult-cases LineResult.corrupt = inr (inr (inl refl))
LineResult-cases LineResult.invalid_data = inr (inr (inr refl))

module _ {E : Type 0} (c : Codec E) where
  -- A line that is written again as its trimmed text reads as before.
  pub classify-text_of :
      (l : RawLine) (n : ℕ) (e : E)
      → classify c l ≡ LineResult.entry n e
      → classify c (RawLine.line (text_of l)) ≡ LineResult.entry n e
  unfolding classify text_of
  classify-text_of (RawLine.line s) n e h = rw (trim_idem s) h
  classify-text_of (RawLine.torn s) n e h = rw (trim_idem s) h
  classify-text_of (RawLine.binary b) n e h = ground arith

  pub entries_after_in-kept :
      (q seq : ℕ) (ls : List RawLine)
      → seq ≤ q + 1
      → entries_after_in c q (written (kept_lines c seq ls)) ≡ entries_after_in c q ls
  unfolding entries_after_in kept_lines written
  entries_after_in-kept q seq [] h = refl
  entries_after_in-kept q seq (l ∷ ls) h = elim (LineResult-cases (classify c l)) [
    | inl e ↦ ground (arith, e, entries_after_in-kept q seq ls h)
    | inr (inl (n, x, e)) ↦
        ground (arith, e, classify-text_of l n x e, entries_after_in-kept q seq ls h)
    | inr (inr (inl e)) ↦ ground (arith, e)
    | inr (inr (inr e)) ↦ ground (arith, e)
  ]
