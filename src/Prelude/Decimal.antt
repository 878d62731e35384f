-- ===== src/Prelude/Decimal.antt =====
-- The decimal digits of a number: their value is the number.
use Prim.Native.Nat.{ℕ, zero, suc, ◌+◌, ◌-◌, ◌*◌, ◌/◌, ◌%◌, ◌<◌}
use Prim.Native.Char.{code}
use Prim.Native.String.{String}
use mathlib.Core.Path.{◌≡◌, refl}
use mathlib.Core.Bool.{Bool, true, false, ◌&&◌}
use native.Mathlib.Omega.{arith}
use oddjobs.Prelude.Tests.{leb}
use oddjobs.Prelude.Texts.{◌++◌, decimal, decimal_digits, digit}

-- The value of digits after those that make up `acc`.
unfoldable pub digits_value : ℕ → String → ℕ
digits_value acc String.[] = acc
digits_value acc (String.◌∷◌ c s) = digits_value (acc * 10 + (code c - b'0')) s

digits_value-append :
    (acc : ℕ) (s t : String) → digits_value acc (s ++ t) ≡ digits_value (digits_value acc s) t
unfolding digits_value
digits_value-append acc String.[] t = refl
digits_value-append acc (String.◌∷◌ c s) t = digits_value-append (acc * 10 + (code c - b'0')) s t

digits_value-digit : (acc d : ℕ) → d < 10 → digits_value acc (digit d) ≡ acc * 10 + d
unfolding digits_value digit
digits_value-digit acc zero h = omega arith
digits_value-digit acc (suc zero) h = omega arith
digits_value-digit acc (suc (suc zero)) h = omega arith
digits_value-digit acc (suc (suc (suc zero))) h = omega arith
digits_value-digit acc (suc (suc (suc (suc zero)))) h = omega arith
digits_value-digit acc (suc (suc (suc (suc (suc zero))))) h = omega arith
digits_value-digit acc (suc (suc (suc (suc (suc (suc zero)))))) h = omega arith
digits_value-digit acc (suc (suc (suc (suc (suc (suc (suc zero))))))) h = omega arith
digits_value-digit acc (suc (suc (suc (suc (suc (suc (suc (suc zero)))))))) h = omega arith
digits_value-digit acc (suc (suc (suc (suc (suc (suc (suc (suc (suc n))))))))) h = ground arith

digits_value-decimal_digits : (fuel n : ℕ) → n < fuel → digits_value 0 (decimal_digits fuel n) ≡ n
unfolding decimal_digits
digits_value-decimal_digits zero n h = ground arith
digits_value-decimal_digits (suc fuel) n h = ground (
  arith,
  digits_value-digit 0 n,
  digits_value-append 0 (decimal_digits fuel (n / 10)) (digit (n % 10)),
  digits_value-digit (digits_value 0 (decimal_digits fuel (n / 10))) (n % 10),
  digits_value-decimal_digits fuel (n / 10),
)

pub digits_value-decimal : (n : ℕ) → digits_value 0 (decimal n) ≡ n
unfolding decimal
digits_value-decimal n = digits_value-decimal_digits (suc n) n (omega arith)

-- `c.is_ascii_digit()`
unfoldable pub is_ascii_digit : ℕ → Bool
is_ascii_digit c = leb b'0' c && leb c b'9'

unfoldable pub all_digits : String → Bool
all_digits String.[] = true
all_digits (String.◌∷◌ c s) = is_ascii_digit (code c) && all_digits s

unfoldable pub is_blank : String → Bool
is_blank String.[] = true
is_blank (String.◌∷◌ c s) = false

all_digits-append :
    (s t : String) → all_digits s ≡ true → all_digits t ≡ true → all_digits (s ++ t) ≡ true
unfolding all_digits
all_digits-append String.[] t h k = k
all_digits-append (String.◌∷◌ c s) t h k = ground (arith, all_digits-append s t)

all_digits-digit : (d : ℕ) → all_digits (digit d) ≡ true
unfolding all_digits digit is_ascii_digit
all_digits-digit zero = refl
all_digits-digit (suc zero) = refl
all_digits-digit (suc (suc zero)) = refl
all_digits-digit (suc (suc (suc zero))) = refl
all_digits-digit (suc (suc (suc (suc zero)))) = refl
all_digits-digit (suc (suc (suc (suc (suc zero))))) = refl
all_digits-digit (suc (suc (suc (suc (suc (suc zero)))))) = refl
all_digits-digit (suc (suc (suc (suc (suc (suc (suc zero))))))) = refl
all_digits-digit (suc (suc (suc (suc (suc (suc (suc (suc zero)))))))) = refl
all_digits-digit (suc (suc (suc (suc (suc (suc (suc (suc (suc n))))))))) = refl

all_digits-decimal_digits : (fuel n : ℕ) → all_digits (decimal_digits fuel n) ≡ true
unfolding decimal_digits all_digits
all_digits-decimal_digits zero n = refl
all_digits-decimal_digits (suc fuel) n = ground (
  arith,
  all_digits-digit n,
  all_digits-append (decimal_digits fuel (n / 10)) (digit (n % 10)),
  all_digits-digit (n % 10),
  all_digits-decimal_digits fuel (n / 10),
)

is_blank-append : (s t : String) → is_blank t ≡ false → is_blank (s ++ t) ≡ false
unfolding is_blank
is_blank-append String.[] t h = h
is_blank-append (String.◌∷◌ c s) t h = refl

is_blank-digit : (d : ℕ) → is_blank (digit d) ≡ false
unfolding is_blank digit
is_blank-digit zero = refl
is_blank-digit (suc zero) = refl
is_blank-digit (suc (suc zero)) = refl
is_blank-digit (suc (suc (suc zero))) = refl
is_blank-digit (suc (suc (suc (suc zero)))) = refl
is_blank-digit (suc (suc (suc (suc (suc zero))))) = refl
is_blank-digit (suc (suc (suc (suc (suc (suc zero)))))) = refl
is_blank-digit (suc (suc (suc (suc (suc (suc (suc zero))))))) = refl
is_blank-digit (suc (suc (suc (suc (suc (suc (suc (suc zero)))))))) = refl
is_blank-digit (suc (suc (suc (suc (suc (suc (suc (suc (suc n))))))))) = refl

pub is_blank-decimal : (n : ℕ) → is_blank (decimal n) ≡ false
unfolding decimal decimal_digits
is_blank-decimal n = ground (
  arith,
  is_blank-digit n,
  is_blank-append (decimal_digits n (n / 10)) (digit (n % 10)),
  is_blank-digit (n % 10),
)

pub all_digits-decimal : (n : ℕ) → all_digits (decimal n) ≡ true
unfolding decimal
all_digits-decimal n = all_digits-decimal_digits (suc n) n
