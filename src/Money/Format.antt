-- ===== src/Money/Format.antt =====
-- Printing an amount as a decimal (src/common/helpers/money.util.ts, `formatMinorToDecimal`).
use telegram_mini_app.Prelude.{ℕ, zero, suc, ◌+◌, ◌-◌, [], ◌∷◌, ◌++◌, length, ltb, if◌then◌else◌}
use telegram_mini_app.Prelude.Integers.{ℤ, pos, ltb_ℤ, neg_ℤ, pos_part}
use telegram_mini_app.Prelude.Text.{Text}
use telegram_mini_app.Prelude.Decimal.{decimal}
use telegram_mini_app.Types.{Result, ok, err}
use telegram_mini_app.Money.Scale.{assert_scale}
use telegram_mini_app.Money.Parse.{pad_start}

-- `s.slice(0, n)` and `s.slice(n)`.
abbrev pub take : ℕ → Text → Text
take zero s = []
take (suc n) [] = []
take (suc n) (c ∷ s) = c ∷ take n s

abbrev pub drop : ℕ → Text → Text
drop zero s = s
drop (suc n) [] = []
drop (suc n) (c ∷ s) = drop n s

-- The digits of a magnitude, with the point before the last `scale` of them.
abbrev pub with_point : Text → ℕ → Text
with_point digits scale =
    let cut = length digits - scale in
    take cut digits ++ (if ltb 0 scale then b'.' ∷ drop cut digits else [])

unfoldable pub format_minor_to_decimal : ℤ → ℕ → Result Text
format_minor_to_decimal minor scale =
    let negative = ltb_ℤ minor (pos 0) in
    let magnitude = if negative then neg_ℤ minor else minor in
    let digits = pad_start (decimal (pos_part magnitude)) (scale + 1) in
    elim (assert_scale scale) [
      | err e ↦ err e
      | ok done ↦ ok ((if negative then b'-' ∷ [] else []) ++ with_point digits scale)
    ]
