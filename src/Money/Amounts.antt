-- ===== src/Money/Amounts.antt =====
-- The small operations on amounts and the guards (src/common/helpers/money.util.ts).
use telegram_mini_app.Prelude.{false, List, [], ◌∷◌, if◌then◌else◌, ◌≡◌, ap, ◌∙◌, arith}
use telegram_mini_app.Prelude.Integers.{
  ℤ, pos, negsuc, neg_ℤ, ◌+ℤ◌, ◌-ℤ◌, ltb_ℤ, leb_ℤ, sum_ℤ, int_laws, -ℤ_parts, eq_of_parts,
}
use telegram_mini_app.Types.{money_error, negative_amount, not_positive, Result, ok, err}

abbrev pub add_minor : ℤ → ℤ → ℤ
add_minor a b = a +ℤ b

abbrev pub sub_minor : ℤ → ℤ → ℤ
sub_minor a b = a -ℤ b

abbrev pub negate_minor : ℤ → ℤ
negate_minor a = neg_ℤ a

abbrev pub abs_minor : ℤ → ℤ
abs_minor a = if ltb_ℤ a (pos 0) then neg_ℤ a else a

abbrev pub min_minor : ℤ → ℤ → ℤ
min_minor a b = if ltb_ℤ a b then a else b

abbrev pub max_minor : ℤ → ℤ → ℤ
max_minor a b = if ltb_ℤ b a then a else b

-- `-1 | 0 | 1`.
abbrev pub compare_minor : ℤ → ℤ → ℤ
compare_minor a b = if ltb_ℤ a b then negsuc 0 else if ltb_ℤ b a then pos 1 else pos 0

-- The loop of `sumMinor`, with the total so far.
abbrev pub sum_on : ℤ → List ℤ → ℤ
sum_on total [] = total
sum_on total (value ∷ values) = sum_on (total +ℤ value) values

unfoldable pub sum_minor : List ℤ → ℤ
sum_minor values = sum_on (pos 0) values

abbrev pub assert_non_negative : ℤ → Result ℤ
assert_non_negative minor =
    if ltb_ℤ minor (pos 0) then err (money_error negative_amount) else ok minor

abbrev pub assert_positive : ℤ → Result ℤ
assert_positive minor = if leb_ℤ minor (pos 0) then err (money_error not_positive) else ok minor

+ℤ_assoc : (a b c : ℤ) → (a +ℤ b) +ℤ c ≡ a +ℤ (b +ℤ c)
+ℤ_assoc a b c = grind int_laws

sum_on-sum_ℤ : (total : ℤ) (values : List ℤ) → sum_on total values ≡ total +ℤ sum_ℤ values
sum_on-sum_ℤ total [] = grind int_laws
sum_on-sum_ℤ total (v ∷ values) = sum_on-sum_ℤ (total +ℤ v) values ∙ +ℤ_assoc total v (sum_ℤ values)

-- The running total of the loop is the sum of the list.
pub sum_minor-sum_ℤ : (values : List ℤ) → sum_minor values ≡ sum_ℤ values
unfolding sum_minor
sum_minor-sum_ℤ values = sum_on-sum_ℤ (pos 0) values ∙ grind int_laws

+ℤ_comm : (a b : ℤ) → a +ℤ b ≡ b +ℤ a
+ℤ_comm a b = grind int_laws

-- When neither of two amounts is the smaller, they are one.
+ℤ_same : (a b : ℤ) → ltb_ℤ a b ≡ false → ltb_ℤ b a ≡ false → b +ℤ b ≡ a +ℤ b
+ℤ_same a b h k = ap (λ x. x +ℤ b) (eq_of_parts b a (ground arith))

opposite : (a b : ℤ) → b -ℤ a ≡ neg_ℤ (a -ℤ b)
opposite a b = grind int_laws

min-max : (a b : ℤ) → min_minor a b +ℤ max_minor a b ≡ add_minor a b
min-max a b = ground (arith, +ℤ_comm a b, +ℤ_same a b)

difference : (a b : ℤ) → sub_minor (max_minor a b) (min_minor a b) ≡ abs_minor (sub_minor a b)
difference a b = ground (arith, opposite a b, -ℤ_parts a b, -ℤ_parts b a)

-- The comparison is the sign of the difference, and swapping the operands negates it; the smaller
-- and the larger of two amounts add up to the two amounts, and their difference is the magnitude.
pub compare_minor_laws :
    (a b : ℤ)
    → (compare_minor a b ≡ negate_minor (compare_minor b a))
      × (min_minor a b +ℤ max_minor a b ≡ add_minor a b)
      × (sub_minor (max_minor a b) (min_minor a b) ≡ abs_minor (sub_minor a b))
unfolding neg_ℤ
compare_minor_laws a b = (ground arith, min-max a b, difference a b)
