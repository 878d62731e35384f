-- ===== src/Core/Names/Laws.antt =====
-- Splitting a scoped key gives its parts back.
use Prim.Native.Char.{Char, code}
use oddjobs.Prelude.{
  ◌++◌, ℕ, String, Bool, false, ◌||◌, none, some, ◌==◌, ◌≡◌, refl, arith, eqb, eq_iff, Bool-cases,
  inl, inr,
}
use oddjobs.Core.Names.{scoped_name, split_once, split_scoped_name}

-- Whether a character occurs in a text.
unfoldable pub has_char : ℕ → String → Bool
has_char sep String.[] = false
has_char sep (String.◌∷◌ c s) = eqb (code c) sep || has_char sep s

pub split_once-append :
    (sep : ℕ) (s : String) (c : Char) (t : String)
    → has_char sep s ≡ false
    → code c ≡ sep
    → split_once sep (s ++ String.◌∷◌ c t) ≡ some (s, t)
unfolding has_char split_once
split_once-append sep String.[] c t h e = ground (arith, e)
split_once-append sep (String.◌∷◌ d s) c t h e = ground (arith, split_once-append sep s c t)

pub split_once-none : (sep : ℕ) (s : String) → has_char sep s ≡ false → split_once sep s ≡ none
unfolding has_char split_once
split_once-none sep String.[] h = refl
split_once-none sep (String.◌∷◌ c s) h = ground (arith, split_once-none sep s)

-- A key splits into the namespace and the name that it was built from, if the namespace has no slash
-- and, for the empty namespace, neither has the name.
pub split_scoped_name-scoped_name :
    (namespace name : String)
    → has_char b'/' namespace ≡ false
    → (namespace ≡ "" → has_char b'/' name ≡ false)
    → split_scoped_name (scoped_name namespace name) ≡ (namespace, name)
unfolding scoped_name split_scoped_name
split_scoped_name-scoped_name ns name h k = elim (Bool-cases (ns == "")) [
  | inl e ↦
      rw (e, split_once-none b'/' name (k ((eq_iff ns "").0 e))) (rw ((eq_iff ns "").0 e) refl)
  | inr n ↦ rw (n, split_once-append b'/' ns _ name h refl) refl
]
