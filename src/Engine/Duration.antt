-- ===== src/Engine/Duration.antt =====
-- crates/engine/src/monitor.rs, `parse_duration`. A `Duration` is its number of milliseconds.
pub mod Units
use Prim.Native.Char.{Char, code}
use oddjobs.Prelude.{
  ◌++◌, ℕ, ◌+◌, ◌-◌, ◌*◌, ◌%◌, ◌^◌, String, Option, none, some, List, [], ◌∷◌, Bool, ◌&&◌, ◌||◌,
  ◌==◌, eqb, ltb, leb, if◌then◌else◌, any,
}
use oddjobs.Prelude.Trim.{trim}
use oddjobs.Prelude.Decimal.{digits_value, is_ascii_digit}

-- `Result<Duration, String>`
pub data DurationResult : Type 0 where
  ok : (millis : ℕ) → DurationResult
  err : (message : String) → DurationResult

-- The text up to the first character that is no digit, and from it on.
unfoldable pub split_digits : String → String × String
split_digits String.[] = (String.[], String.[])
split_digits (String.◌∷◌ c s) =
    let (num, suffix) = split_digits s in
    if is_ascii_digit (code c) then (String.◌∷◌ c num, suffix) else (String.[], String.◌∷◌ c s)

-- `parse::<u64>()` of a text of digits: none at all and too large a value are errors.
unfoldable pub parse_u64 : String → Option ℕ
parse_u64 String.[] = none
parse_u64 s = let n = digits_value 0 s in if ltb n (2 ^ 64) then some n else none

unfoldable pub is_one_of : List String → String → Bool
is_one_of names s = any (λ n. s == n) names

-- The seconds of a unit, and none for an unknown one.
unfoldable pub multiplier : String → Option ℕ
multiplier unit =
    if is_one_of ("" ∷ "s" ∷ "sec" ∷ "secs" ∷ "second" ∷ "seconds" ∷ []) unit
    then some 1
    else if is_one_of ("m" ∷ "min" ∷ "mins" ∷ "minute" ∷ "minutes" ∷ []) unit
    then some 60
    else if is_one_of ("h" ∷ "hr" ∷ "hrs" ∷ "hour" ∷ "hours" ∷ []) unit
    then some 3600
    else if is_one_of ("d" ∷ "day" ∷ "days" ∷ []) unit
    then some 86400
    else none

unfoldable pub is_millis : String → Bool
is_millis = is_one_of ("ms" ∷ "millis" ∷ "millisecond" ∷ "milliseconds" ∷ [])

-- `Duration::from_secs(num * multiplier)`, whose product wraps around in a release build.
unfoldable pub from_unit : ℕ → String → Option ℕ → DurationResult
from_unit num unit none = DurationResult.err ("unknown duration suffix: " ++ unit)
from_unit num unit (some m) = DurationResult.ok (num * m % 2 ^ 64 * 1000)

unfoldable pub with_number : String → String → Option ℕ → DurationResult
with_number s suffix none = DurationResult.err ("invalid number in duration: " ++ s)
with_number s suffix (some num) =
    let unit = trim suffix in
    if is_millis unit then DurationResult.ok num else from_unit num unit (multiplier unit)

unfoldable pub parse_trimmed : String → DurationResult
parse_trimmed String.[] = DurationResult.err "empty duration string"
parse_trimmed s = let (num, suffix) = split_digits s in with_number s suffix (parse_u64 num)

unfoldable pub parse_duration : String → DurationResult
parse_duration s = parse_trimmed (trim s)

-- `.unwrap_or(Duration::ZERO)`
unfoldable pub or_zero : DurationResult → ℕ
or_zero (DurationResult.ok millis) = millis
or_zero (DurationResult.err _) = 0
