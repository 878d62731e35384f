-- ===== src/Engine/Duration/Units.antt =====
-- Durations that are written as a number and a unit.
use oddjobs.Prelude.{
  ◌++◌, ℕ, ◌*◌, ◌^◌, ◌<◌, String, some, true, false, ◌≡◌, refl, ◌∙◌, ap, arith, decimal, lt→ltb,
}
use oddjobs.Prelude.Decimal.{
  digits_value, digits_value-decimal, is_ascii_digit, all_digits, all_digits-decimal, is_blank,
  is_blank-decimal,
}
use oddjobs.Prelude.Trim.Digits.{
  first_digit, other_digits, trim_start-append, trim_end-append, begun,
}
use oddjobs.Prelude.Trim.{is_whitespace, trim_start, keep_end, trim_end, trim}
use oddjobs.Engine.Duration.{
  DurationResult, split_digits, parse_u64, multiplier, is_one_of, is_millis, from_unit, with_number,
  parse_trimmed, parse_duration,
}

-- The short names of the units.
pub data TimeUnit : Type 0 where
  millisecond second minute hour day : TimeUnit

abbrev pub unit_text : TimeUnit → String
unit_text TimeUnit.millisecond = "ms"
unit_text TimeUnit.second = "s"
unit_text TimeUnit.minute = "m"
unit_text TimeUnit.hour = "h"
unit_text TimeUnit.day = "d"

abbrev pub unit_millis : TimeUnit → ℕ
unit_millis TimeUnit.millisecond = 1
unit_millis TimeUnit.second = 1000
unit_millis TimeUnit.minute = 60000
unit_millis TimeUnit.hour = 3600000
unit_millis TimeUnit.day = 86400000

pub split_digits-append :
    (s t : String) → all_digits s ≡ true → split_digits t ≡ ("", t) → split_digits (s ++ t) ≡ (s, t)
unfolding all_digits split_digits
split_digits-append String.[] t h k = k
split_digits-append (String.◌∷◌ c s) t h k =
    rw (first_digit c s h, split_digits-append s t (other_digits c s h) k) refl

parse_trimmed_dark :
    (s : String)
    → is_blank s ≡ false
    → parse_trimmed s ≡ with_number s (split_digits s).1 (parse_u64 (split_digits s).0)
unfolding is_blank parse_trimmed
parse_trimmed_dark String.[] h = ground arith
parse_trimmed_dark (String.◌∷◌ c s) h = refl

parse_u64_dark :
    (s : String) (n : ℕ)
    → is_blank s ≡ false
    → digits_value 0 s ≡ n
    → n < 2 ^ 64
    → parse_u64 s ≡ some n
unfolding is_blank parse_u64
parse_u64_dark String.[] n b h k = ground arith
parse_u64_dark (String.◌∷◌ c s) n b h k = rw (h, lt→ltb n (2 ^ 64) k) refl

-- A number that fits into 64 bits with its unit is parsed up to the unit.
parse_number :
    (n : ℕ) (unit : String)
    → n < 2 ^ 64
    → trim_end unit ≡ unit
    → split_digits unit ≡ ("", unit)
    → parse_duration (decimal n ++ unit) ≡ with_number (decimal n ++ unit) unit (some n)
unfolding parse_duration trim
parse_number n unit k e d =
    let dark = is_blank-decimal n in
    let digits = all_digits-decimal n in
    rw (trim_start-append (decimal n) unit dark digits, trim_end-append (decimal n) unit digits, e)
      (parse_trimmed_dark (decimal n ++ unit) (begun (decimal n) unit dark)
        ∙ rw
            (
              split_digits-append (decimal n) unit digits d,
              parse_u64_dark (decimal n) n dark (digits_value-decimal n) k,
            )
            refl)

-- A number and the short name of a unit are parsed as that many of the unit, if its milliseconds fit
-- into 64 bits.
pub parse_duration-unit :
    (n : ℕ) (u : TimeUnit)
    → n * unit_millis u < 2 ^ 64
    → parse_duration (decimal n ++ unit_text u) ≡ DurationResult.ok (n * unit_millis u)
unfolding trim_end split_digits keep_end is_whitespace is_ascii_digit with_number trim trim_start
    is_millis is_one_of from_unit multiplier
parse_duration-unit n TimeUnit.millisecond h =
    parse_number n "ms" (omega arith) refl refl ∙ ap DurationResult.ok (omega arith)
parse_duration-unit n TimeUnit.second h =
    parse_number n "s" (omega arith) refl refl ∙ ap DurationResult.ok (omega arith)
parse_duration-unit n TimeUnit.minute h =
    parse_number n "m" (omega arith) refl refl ∙ ap DurationResult.ok (omega arith)
parse_duration-unit n TimeUnit.hour h =
    parse_number n "h" (omega arith) refl refl ∙ ap DurationResult.ok (omega arith)
parse_duration-unit n TimeUnit.day h =
    parse_number n "d" (omega arith) refl refl ∙ ap DurationResult.ok (omega arith)
