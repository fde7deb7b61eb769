-- ===== src/Money/Scale.antt =====
-- The scale of a currency and the decimal texts that `parseDecimalToMinor` accepts
-- (src/common/helpers/money.util.ts, `assertScale` and `DECIMAL_RE`). A scale is a natural number
-- here, so that the test on whole numbers and the test `scale < 0` pass.
use telegram_mini_app.Prelude.{
  ℕ, Bool, true, false, not, ◌&&◌, [], ◌∷◌, Option, none, some, any, ltb, ◌==◌, if◌then◌else◌,
}
use telegram_mini_app.Prelude.Text.{Text, nonempty}
use telegram_mini_app.Prelude.Decimal.{is_digit}
use telegram_mini_app.Types.{money_error, invalid_scale, Result, ok, err}

abbrev pub default_money_scale : ℕ
default_money_scale = 2

abbrev pub max_money_scale : ℕ
max_money_scale = 8

abbrev pub assert_scale : ℕ → Result {0} Unit
assert_scale scale = if ltb max_money_scale scale then err (money_error invalid_scale) else ok tt

-- The code units that `String.prototype.trim` removes.
unfoldable pub is_space : ℕ → Bool
is_space c =
    any (λ d. c == d)
      (9 ∷ 10 ∷ 11 ∷ 12 ∷ 13 ∷ 32 ∷ 160 ∷ 5760 ∷ 8192 ∷ 8193 ∷ 8194 ∷ 8195 ∷ 8196 ∷ 8197 ∷ 8198
        ∷ 8199 ∷ 8200 ∷ 8201 ∷ 8202 ∷ 8232 ∷ 8233 ∷ 8239 ∷ 8287 ∷ 12288 ∷ 65279 ∷ [])

abbrev pub trim_start : Text → Text
trim_start [] = []
trim_start (c ∷ s) = if is_space c then trim_start s else c ∷ s

abbrev pub trim_end : Text → Text
trim_end [] = []
trim_end (c ∷ s) =
    let rest = trim_end s in if is_space c && not (nonempty rest) then [] else c ∷ rest

abbrev pub trim : Text → Text
trim s = trim_end (trim_start s)

-- The longest prefix of digits, and what follows it.
abbrev pub take_digits : Text → Text
take_digits [] = []
take_digits (c ∷ s) = if is_digit c then c ∷ take_digits s else []

abbrev pub drop_digits : Text → Text
drop_digits [] = []
drop_digits (c ∷ s) = if is_digit c then drop_digits s else c ∷ s

-- The groups of a match of `/^([+-]?)(\d+)(?:\.(\d+))?$/`.
pub record DecimalMatch : Type 0 where
  pub negative : Bool
  pub whole : Text
  pub fraction : Text

-- `(?:\.(\d+))?$` on what follows the whole part.
abbrev pub match_fraction : Text → Option Text
match_fraction [] = some []
match_fraction (c ∷ s) =
    if (c == b'.') && (nonempty (take_digits s) && not (nonempty (drop_digits s)))
    then some (take_digits s)
    else none

-- `(\d+)` and what follows it.
abbrev pub match_number : Bool → Text → Option DecimalMatch
match_number negative s = elim (match_fraction (drop_digits s)) [
  | none ↦ none
  | some fraction ↦
      if nonempty (take_digits s)
      then some (record { negative = negative; whole = take_digits s; fraction = fraction })
      else none
]

abbrev pub match_decimal : Text → Option DecimalMatch
match_decimal [] = none
match_decimal (c ∷ s) =
    if c == b'-'
    then match_number true s
    else if c == b'+'
    then match_number false s
    else match_number false (c ∷ s)
