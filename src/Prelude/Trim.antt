-- ===== src/Prelude/Trim.antt =====
-- Rust's `trim`, and what it leaves alone.
pub mod Digits
use Prim.Native.Nat.{ℕ, ◌+◌}
use Prim.Native.Char.{Char, code}
use Prim.Native.String.{String}
use mathlib.Core.Path.{◌≡◌, refl, ◌∙◌, ap}
use mathlib.Core.Logic.{inl, inr}
use mathlib.Core.Bool.{Bool, true, false, ◌&&◌, ◌||◌}
use mathlib.Core.List.{[], ◌∷◌}
use native.Mathlib.Omega.{arith}
use oddjobs.Prelude.Lists.{any}
use oddjobs.Prelude.Tests.{if◌then◌else◌, leb, eqb, Bool-cases}

-- Unicode's `White_Space`, by which `trim` goes.
unfoldable pub is_whitespace : ℕ → Bool
is_whitespace c =
    leb 9 c && leb c 13
    || (leb 8192 c && leb c 8202)
    || any (eqb c) (32 ∷ 133 ∷ 160 ∷ 5760 ∷ 8232 ∷ 8233 ∷ 8239 ∷ 8287 ∷ 12288 ∷ [])

unfoldable pub trim_start : String → String
trim_start String.[] = String.[]
trim_start (String.◌∷◌ c s) =
    let rest = trim_start s in if is_whitespace (code c) then rest else String.◌∷◌ c s

unfoldable pub keep_end : Char → String → String
keep_end c String.[] = if is_whitespace (code c) then String.[] else String.◌∷◌ c String.[]
keep_end c (String.◌∷◌ d s) = String.◌∷◌ c (String.◌∷◌ d s)

unfoldable pub trim_end : String → String
unfolding keep_end
trim_end String.[] = String.[]
trim_end (String.◌∷◌ c s) = keep_end c (trim_end s)

unfoldable pub trim : String → String
trim s = trim_end (trim_start s)

trim_end-keep_end :
    (c : Char) (s : String) → trim_end s ≡ s → trim_end (keep_end c s) ≡ keep_end c s
unfolding trim_end
trim_end-keep_end c String.[] h = elim (Bool-cases (is_whitespace (code c))) [
  | inl e ↦ rw e
  | inr e ↦ rw (e, e)
]
trim_end-keep_end c (String.◌∷◌ d s) h = ap (keep_end c) h

trim_end_idem : (s : String) → trim_end (trim_end s) ≡ trim_end s
unfolding trim_end
trim_end_idem String.[] = refl
trim_end_idem (String.◌∷◌ c s) = trim_end-keep_end c (trim_end s) (trim_end_idem s)

trim_start-keep_end :
    (c : Char) (s : String)
    → is_whitespace (code c) ≡ false
    → trim_start (keep_end c s) ≡ keep_end c s
unfolding trim_start keep_end
trim_start-keep_end c String.[] h = rw (h, h)
trim_start-keep_end c (String.◌∷◌ d s) h = rw h

-- What is trimmed at both ends starts with no white space.
trim_start-trim : (s : String) → trim_start (trim s) ≡ trim s
unfolding trim trim_start trim_end
trim_start-trim String.[] = refl
trim_start-trim (String.◌∷◌ c s) = elim (Bool-cases (is_whitespace (code c))) [
  | inl e ↦ rw e (trim_start-trim s)
  | inr e ↦ rw e (trim_start-keep_end c (trim_end s) e)
]

-- Trimming a trimmed text changes nothing.
pub trim_idem : (s : String) → trim (trim s) ≡ trim s
unfolding trim
trim_idem s = ap trim_end (trim_start-trim s) ∙ trim_end_idem (trim_start s)
