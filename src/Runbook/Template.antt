-- ===== src/Runbook/Template.antt =====
-- crates/runbook/src/template.rs, `escape_for_shell`, and what bash reads between double quotes.
use Prim.Native.Char.{Char, code}
use mathlib.Core.Option
use oddjobs.Prelude.{
  ◌++◌, String, Option, none, some, Bool, true, false, ◌||◌, ◌≡◌, refl, ap, ◌∙◌, arith, eqb,
  if◌then◌else◌, Bool-cases, inl, inr,
}

-- The four characters of the `match`: a backslash, a dollar sign, a backtick and a double quote.
unfoldable pub is_escaped : Char → Bool
is_escaped c = eqb (code c) b'\\' || eqb (code c) b'$' || eqb (code c) b'`' || eqb (code c) b'"'

unfoldable pub escape_for_shell : String → String
escape_for_shell String.[] = String.[]
escape_for_shell (String.◌∷◌ c s) =
    let rest = escape_for_shell s in
    if is_escaped c then "\\" ++ String.◌∷◌ c rest else String.◌∷◌ c rest

-- The character ends the text, or starts an expansion.
acts : Char → Bool
acts c = eqb (code c) b'"' || eqb (code c) b'$' || eqb (code c) b'`'

consed : Char → Option String → Option String
consed c = Option.map λ s. String.◌∷◌ c s

-- What bash reads as the text up to the end, after a backslash or not: none if the text ends before
-- that or something in it is expanded. A backslash stays where it does not quote anything.
read : Bool → String → Option String
unfolding acts consed
read true String.[] = none
read false String.[] = some String.[]
read true (String.◌∷◌ c s) =
    let rest = read false s in
    if acts c || eqb (code c) b'\\'
    then consed c rest
    else Option.map (λ t. "\\" ++ String.◌∷◌ c t) rest
read false (String.◌∷◌ c s) =
    let quoting = read true s in
    let rest = read false s in
    if eqb (code c) b'\\' then quoting else if acts c then none else consed c rest

unfoldable pub read_quoted : String → Option String
unfolding read
read_quoted = read false

read_escaped :
    (c : Char) (s : String)
    → is_escaped c ≡ true
    → read false ("\\" ++ String.◌∷◌ c s) ≡ consed c (read false s)
unfolding read is_escaped acts
read_escaped c s h =
    let same : (acts c || eqb (code c) b'\\') ≡ true = ground (arith, h) in rw same refl

read_plain :
    (c : Char) (s : String)
    → is_escaped c ≡ false
    → read false (String.◌∷◌ c s) ≡ consed c (read false s)
unfolding read is_escaped acts
read_plain c s h = ground (arith, h)

map_empty : (o : Option String) → o ≡ Option.map (λ t. "" ++ t) o
map_empty none = refl
map_empty (some t) = refl

consed-map :
    (c : Char) (s : String) (o : Option String)
    → consed c (Option.map (λ t. s ++ t) o) ≡ Option.map (λ t. String.◌∷◌ c s ++ t) o
unfolding consed
consed-map c s none = refl
consed-map c s (some t) = refl

-- Between double quotes, a value that is escaped is read as just the value, whatever text follows,
-- and does not change how that text is read.
pub read_quoted-escape_for_shell :
    (value rest : String)
    → read_quoted (escape_for_shell value ++ rest) ≡ Option.map (λ t. value ++ t) (read_quoted rest)
unfolding read_quoted escape_for_shell
read_quoted-escape_for_shell String.[] rest = map_empty (read false rest)
read_quoted-escape_for_shell (String.◌∷◌ c s) rest =
    let more =
      ap (consed c) (read_quoted-escape_for_shell s rest) ∙ consed-map c s (read false rest) in
    elim (Bool-cases (is_escaped c)) [
      | inl e ↦ rw e (read_escaped c (escape_for_shell s ++ rest) e ∙ more)
      | inr e ↦ rw e (read_plain c (escape_for_shell s ++ rest) e ∙ more)
    ]
