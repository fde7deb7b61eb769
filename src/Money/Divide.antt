-- ===== src/Money/Divide.antt =====
-- Division of money with an explicit rounding mode, and the other arithmetic on amounts
-- (src/common/helpers/money.util.ts, from `divideMinor` on). `MONEY_UNKNOWN_ROUNDING` has no input
-- here, since a mode is one of the five.
use telegram_mini_app.Prelude.{
  ℕ, zero, suc, ◌*◌, ◌/◌, ◌%◌, Bool, true, false, not, ltb, leb, if◌then◌else◌,
}
use telegram_mini_app.Prelude.Integers.{ℤ, pos, negsuc, neg_ℤ, ◌+ℤ◌, ◌-ℤ◌, ◌*ℤ◌, eqb_ℤ}
use telegram_mini_app.Types.{money_error, divide_by_zero, Result, ok, err}

pub data Rounding : Type 0 where
  trunc floor ceil half_up half_even : Rounding

-- The magnitude of an integer, and the integer of a sign and a magnitude.
abbrev pub magnitude : ℤ → ℕ
magnitude (pos n) = n
magnitude (negsuc n) = suc n

abbrev pub with_sign : Bool → ℕ → ℤ
with_sign false m = pos m
with_sign true zero = pos 0
with_sign true (suc m) = negsuc m

-- `a < 0n`.
abbrev pub is_negative : ℤ → Bool
is_negative (pos n) = false
is_negative (negsuc n) = true

-- `a / b` and `a % b` on `bigint`: the quotient is cut towards zero, and the remainder has the sign
-- of the dividend.
abbrev pub quotient_of : ℤ → ℤ → ℤ
quotient_of a b =
    with_sign (if is_negative b then not (is_negative a) else is_negative a)
      (magnitude a / magnitude b)

abbrev pub remainder_of : ℤ → ℤ → ℤ
remainder_of a b = with_sign (is_negative a) (magnitude a % magnitude b)

abbrev pub away_from_zero : Bool → ℤ → ℤ
away_from_zero negative quotient = if negative then quotient -ℤ pos 1 else (quotient +ℤ pos 1)

-- The `switch` on the mode; `twice` is twice the magnitude of the remainder.
abbrev pub round_by : Rounding → Bool → ℤ → ℕ → ℕ → ℤ
round_by trunc negative quotient twice d = quotient
round_by floor negative quotient twice d = if negative then quotient -ℤ pos 1 else quotient
round_by ceil negative quotient twice d = if negative then quotient else (quotient +ℤ pos 1)
round_by half_up negative quotient twice d =
    if leb d twice then away_from_zero negative quotient else quotient
round_by half_even negative quotient twice d =
    if ltb d twice
    then away_from_zero negative quotient
    else if ltb twice d
    then quotient
    else if eqb_ℤ (remainder_of quotient (pos 2)) (pos 0)
    then quotient
    else away_from_zero negative quotient

-- The division of `n` by a positive `d`.
abbrev pub divide_positive : Rounding → ℤ → ℤ → ℤ
divide_positive rounding n d =
    let quotient = quotient_of n d in
    let remainder = remainder_of n d in
    if eqb_ℤ remainder (pos 0)
    then quotient
    else round_by rounding (is_negative n) quotient (magnitude remainder * 2) (magnitude d)

unfoldable pub divide_minor : ℤ → ℤ → Rounding → Result ℤ
divide_minor numerator denominator rounding =
    let flip = is_negative denominator in
    let n = if flip then neg_ℤ numerator else numerator in
    let d = if flip then neg_ℤ denominator else denominator in
    if eqb_ℤ denominator (pos 0)
    then err (money_error divide_by_zero)
    else ok (divide_positive rounding n d)

unfoldable pub mul_div_minor : ℤ → ℤ → ℤ → Rounding → Result ℤ
mul_div_minor value numerator denominator rounding =
    divide_minor (value *ℤ numerator) denominator rounding

-- The basis points are whole by their type.
unfoldable pub apply_bps : ℤ → ℤ → Rounding → Result ℤ
apply_bps minor bps rounding = mul_div_minor minor bps (pos 10000) rounding
