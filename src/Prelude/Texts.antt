-- ===== src/Prelude/Texts.antt =====
-- Texts: concatenation piece by piece, decimal printing, and splits at a character.
use Prim.Native.Nat.{ℕ, zero, suc, ◌/◌, ◌%◌}
use Prim.Native.Char.{code}
use Prim.Native.String.{String}
use mathlib.Core.Option.{Option, none, some}
use oddjobs.Prelude.Tests.{if◌then◌else◌, ltb, eqb}

infixr 65 ◌++◌
-- By clauses, so that it computes at a literal before a variable.
abbrev pub ◌++◌ : String → String → String
String.[] ++ t = t
(String.◌∷◌ c s) ++ t = String.◌∷◌ c (s ++ t)

-- The digit below 10 as a text.
unfoldable pub digit : ℕ → String
digit zero = "0"
digit (suc zero) = "1"
digit (suc (suc zero)) = "2"
digit (suc (suc (suc zero))) = "3"
digit (suc (suc (suc (suc zero)))) = "4"
digit (suc (suc (suc (suc (suc zero))))) = "5"
digit (suc (suc (suc (suc (suc (suc zero)))))) = "6"
digit (suc (suc (suc (suc (suc (suc (suc zero))))))) = "7"
digit (suc (suc (suc (suc (suc (suc (suc (suc zero)))))))) = "8"
digit _ = "9"

-- `n + 1` rounds are enough, since every round but the last divides by ten.
unfoldable pub decimal_digits : ℕ → ℕ → String
decimal_digits zero n = ""
decimal_digits (suc fuel) n =
    let high = decimal_digits fuel (n / 10) in if ltb n 10 then digit n else high ++ digit (n % 10)

-- `Display` of an unsigned integer.
unfoldable pub decimal : ℕ → String
unfolding decimal_digits digit
decimal n = decimal_digits (suc n) n

-- `strip_prefix`
unfoldable pub strip_prefix : String → String → Option String
strip_prefix String.[] t = some t
strip_prefix (String.◌∷◌ c s) String.[] = none
strip_prefix (String.◌∷◌ c s) (String.◌∷◌ d t) =
    let rest = strip_prefix s t in if eqb (code c) (code d) then rest else none
