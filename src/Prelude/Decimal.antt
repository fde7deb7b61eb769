-- ===== src/Prelude/Decimal.antt =====
-- Decimal numerals: `${n}` on a number, `BigInt(digits)` on a text of digits, and what joins them.
use Prim.Native.Nat.{ℕ, zero, suc, ◌+◌, ◌-◌, ◌*◌, ◌/◌, ◌%◌, ◌<◌}
use mathlib.Core.Path.{◌≡◌, refl}
use mathlib.Core.Bool.{Bool, true, ◌&&◌}
use mathlib.Core.List.{List, [], ◌∷◌, ◌++◌}
use native.Mathlib.Omega.{arith}
use telegram_mini_app.Prelude.Tests.{leb}
use telegram_mini_app.Prelude.Lists.{all}
use telegram_mini_app.Prelude.Text.{Text}

-- The decimal digits of a number, least first: `${n}`. The fuel is one more than the number, and a
-- number has no more digits than that.
abbrev pub digits_on : ℕ → ℕ → List ℕ → List ℕ
digits_on zero n found = found
digits_on (suc fuel) n found =
    let next = digits_on fuel (n / 10) ((b'0' + n % 10) ∷ found) in
    elim (n / 10) [ zero ↦ (b'0' + n % 10) ∷ found | suc m ↦ next ]

unfoldable pub decimal : ℕ → Text
decimal n = digits_on (suc n) n []

-- `\d`.
abbrev pub is_digit : ℕ → Bool
is_digit c = leb b'0' c && leb c b'9'

-- What the digits read so far and those of a text denote: `BigInt` on digits.
abbrev pub digits_value : ℕ → Text → ℕ
digits_value acc [] = acc
digits_value acc (c ∷ s) = digits_value (acc * 10 + (c - b'0')) s

pub digits_value-append :
    (acc : ℕ) (s t : Text) → digits_value acc (s ++ t) ≡ digits_value (digits_value acc s) t
digits_value-append acc [] t = refl
digits_value-append acc (c ∷ s) t = digits_value-append (acc * 10 + (c - b'0')) s t

digits_value-digits_on :
    (fuel n : ℕ) (found : Text)
    → n < fuel
    → digits_value 0 (digits_on fuel n found) ≡ digits_value n found
digits_value-digits_on zero n found h = absurd (omega arith)
digits_value-digits_on (suc fuel) n found h =
    ground (arith, digits_value-digits_on fuel (n / 10) ((b'0' + n % 10) ∷ found))

pub digits_value-decimal : (n : ℕ) → digits_value 0 (decimal n) ≡ n
unfolding decimal
digits_value-decimal n = digits_value-digits_on (suc n) n [] (omega arith)

digits_on-digits :
    (fuel n : ℕ) (found : Text)
    → all is_digit found ≡ true
    → all is_digit (digits_on fuel n found) ≡ true
digits_on-digits zero n found h = h
digits_on-digits (suc fuel) n found h =
    ground (arith, digits_on-digits fuel (n / 10) ((b'0' + n % 10) ∷ found))

pub decimal-digits : (n : ℕ) → all is_digit (decimal n) ≡ true
unfolding decimal
decimal-digits n = digits_on-digits (suc n) n [] refl
