-- ===== src/Prelude/Trim/Digits.antt =====
-- Trimming a text that starts with digits.
use Prim.Native.Nat.{ℕ}
use Prim.Native.Char.{Char, code}
use Prim.Native.String.{String}
use mathlib.Core.Path.{◌≡◌, refl, ◌∙◌, ap}
use mathlib.Core.Bool.{true, false}
use native.Mathlib.Omega.{arith}
use oddjobs.Prelude.Texts.{◌++◌}
use oddjobs.Prelude.Decimal.{is_ascii_digit, all_digits, is_blank}
use oddjobs.Prelude.Trim.{is_whitespace, trim_start, keep_end, trim_end}

pub digit_not_whitespace : (c : ℕ) → is_ascii_digit c ≡ true → is_whitespace c ≡ false
unfolding is_ascii_digit is_whitespace
digit_not_whitespace c h = ground arith

pub first_digit :
    (c : Char) (s : String) → all_digits (String.◌∷◌ c s) ≡ true → is_ascii_digit (code c) ≡ true
unfolding all_digits
first_digit c s h = ground arith

pub other_digits :
    (c : Char) (s : String) → all_digits (String.◌∷◌ c s) ≡ true → all_digits s ≡ true
unfolding all_digits
other_digits c s h = ground arith

pub keep_end_dark :
    (c : Char) (t : String) → is_whitespace (code c) ≡ false → keep_end c t ≡ String.◌∷◌ c t
unfolding keep_end
keep_end_dark c String.[] h = rw h refl
keep_end_dark c (String.◌∷◌ d t) h = refl

pub trim_start-append :
    (s t : String) → is_blank s ≡ false → all_digits s ≡ true → trim_start (s ++ t) ≡ s ++ t
unfolding is_blank trim_start
trim_start-append String.[] t b h = ground arith
trim_start-append (String.◌∷◌ c s) t b h =
    rw (digit_not_whitespace (code c) (first_digit c s h)) refl

pub trim_end-append : (s t : String) → all_digits s ≡ true → trim_end (s ++ t) ≡ s ++ trim_end t
unfolding all_digits trim_end
trim_end-append String.[] t h = refl
trim_end-append (String.◌∷◌ c s) t h =
    keep_end_dark c (trim_end (s ++ t)) (digit_not_whitespace (code c) (first_digit c s h))
    ∙ ap (String.◌∷◌ c) (trim_end-append s t (other_digits c s h))

pub begun : (s t : String) → is_blank s ≡ false → is_blank (s ++ t) ≡ false
unfolding is_blank
begun String.[] t h = ground arith
begun (String.◌∷◌ c s) t h = refl

pub trim_end_digits : (s : String) → all_digits s ≡ true → trim_end s ≡ s
unfolding trim_end
trim_end_digits String.[] h = refl
trim_end_digits (String.◌∷◌ c s) h =
    ap (keep_end c) (trim_end_digits s (other_digits c s h))
    ∙ keep_end_dark c s (digit_not_whitespace (code c) (first_digit c s h))
