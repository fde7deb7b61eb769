-- ===== src/Money/Parse.antt =====
-- Reading a decimal amount (src/common/helpers/money.util.ts, `parseDecimalToMinor`).
use telegram_mini_app.Prelude.{
  ℕ, zero, suc, ◌-◌, [], ◌∷◌, ◌++◌, none, some, length, ltb, if◌then◌else◌,
}
use telegram_mini_app.Prelude.Integers.{ℤ, pos, neg_ℤ}
use telegram_mini_app.Prelude.Text.{Text}
use telegram_mini_app.Prelude.Decimal.{digits_value}
use telegram_mini_app.Types.{money_error, invalid_decimal, too_many_decimals, Result, ok, err}
use telegram_mini_app.Money.Scale.{assert_scale, trim, DecimalMatch, match_decimal}

-- `n` zeros.
abbrev pub zeros : ℕ → Text
zeros zero = []
zeros (suc n) = b'0' ∷ zeros n

-- `s.padEnd(n, '0')`.
abbrev pub pad_end : Text → ℕ → Text
pad_end s n = s ++ zeros (n - length s)

-- `s.padStart(n, '0')`.
abbrev pub pad_start : Text → ℕ → Text
pad_start s n = zeros (n - length s) ++ s

abbrev pub matched_minor : DecimalMatch → ℕ → Result ℤ
matched_minor found scale =
    let magnitude = pos (digits_value 0 (found.whole ++ pad_end found.fraction scale)) in
    if ltb scale (length found.fraction)
    then err (money_error too_many_decimals)
    else ok (if found.negative then neg_ℤ magnitude else magnitude)

unfoldable pub parse_decimal_to_minor : Text → ℕ → Result ℤ
parse_decimal_to_minor input scale = elim (assert_scale scale) [
  | err e ↦ err e
  | ok done ↦ elim (match_decimal (trim input)) [
    | none ↦ err (money_error invalid_decimal)
    | some found ↦ matched_minor found scale
  ]
]
