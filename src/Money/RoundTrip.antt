-- ===== src/Money/RoundTrip.antt =====
-- What `formatMinorToDecimal` prints, `parseDecimalToMinor` reads (src/common/helpers/money.util.ts).
use telegram_mini_app.Prelude.{
  ℕ, zero, suc, ◌+◌, ◌-◌, ◌≤◌, Bool, true, false, [], ◌∷◌, ◌++◌, length, length-append, ltb, all,
  if◌then◌else◌, ◌≡◌, refl, ap, ◌∙◌, arith,
}
use telegram_mini_app.Prelude.Integers.{ℤ, pos, negsuc, neg_ℤ, ltb_ℤ, pos_part}
use telegram_mini_app.Prelude.Text.{Text, nonempty}
use telegram_mini_app.Prelude.Decimal.{
  is_digit, decimal, digits_value, digits_value-decimal, decimal-digits,
}
use telegram_mini_app.Types.{ok}
use telegram_mini_app.Money.Scale.{assert_scale, max_money_scale}
use telegram_mini_app.Money.Parse.{zeros, pad_end, pad_start, parse_decimal_to_minor}
use telegram_mini_app.Money.Format.{take, drop, with_point, format_minor_to_decimal}
use telegram_mini_app.Money.Accepts.{minus, point, signed, parse-parts}

take-drop : (n : ℕ) (s : Text) → take n s ++ drop n s ≡ s
take-drop zero s = refl
take-drop (suc n) [] = refl
take-drop (suc n) (c ∷ s) = ap (λ t. c ∷ t) (take-drop n s)

length-drop : (n : ℕ) (s : Text) → length (drop n s) ≡ length s - n
length-drop zero s = omega arith
length-drop (suc n) [] = omega arith
length-drop (suc n) (c ∷ s) = omega (arith, length-drop n s)

all-append : (p : ℕ → Bool) (s t : Text) → all p s ≡ true → all p t ≡ true → all p (s ++ t) ≡ true
all-append p [] t h k = k
all-append p (c ∷ s) t h k = ground (arith, all-append p s t)

all-split :
    (p : ℕ → Bool) (s t : Text) → all p (s ++ t) ≡ true → (all p s ≡ true) × (all p t ≡ true)
all-split p [] t h = (refl, h)
all-split p (c ∷ s) t h = ground (arith, all-split p s t)

zeros-digits : (n : ℕ) → all is_digit (zeros n) ≡ true
zeros-digits zero = refl
zeros-digits (suc n) = zeros-digits n

length-zeros : (n : ℕ) → length (zeros n) ≡ n
length-zeros zero = refl
length-zeros (suc n) = ap suc (length-zeros n)

value-zeros : (n : ℕ) (s : Text) → digits_value 0 (zeros n ++ s) ≡ digits_value 0 s
value-zeros zero s = refl
value-zeros (suc n) s = value-zeros n s

append-nil : (s : Text) → s ++ [] ≡ s
append-nil [] = refl
append-nil (c ∷ s) = ap (λ t. c ∷ t) (append-nil s)

-- The magnitude `m` with at least one digit before the point and `scale` behind it.
abbrev padded : ℕ → ℕ → Text
padded m scale = pad_start (decimal m) (scale + 1)

padded-length : (m scale : ℕ) → suc scale ≤ length (padded m scale)
padded-length m scale = omega (
  arith,
  length-append (zeros (scale + 1 - length (decimal m))) (decimal m),
  length-zeros (scale + 1 - length (decimal m)),
)

padded-digits : (m scale : ℕ) → all is_digit (padded m scale) ≡ true
padded-digits m scale =
    all-append is_digit (zeros (scale + 1 - length (decimal m))) (decimal m)
      (zeros-digits (scale + 1 - length (decimal m))) (decimal-digits m)

padded-value : (m scale : ℕ) → digits_value 0 (padded m scale) ≡ m
padded-value m scale =
    value-zeros (scale + 1 - length (decimal m)) (decimal m) ∙ digits_value-decimal m

take-nonempty : (n : ℕ) (s : Text) → 1 ≤ n → 1 ≤ length s → nonempty (take n s) ≡ true
take-nonempty zero s h k = absurd (omega arith)
take-nonempty (suc n) [] h k = absurd (omega arith)
take-nonempty (suc n) (c ∷ s) h k = refl

point-of_length :
    (f : Text) (scale : ℕ) → length f ≡ scale → (if ltb 0 scale then b'.' ∷ f else []) ≡ point f
point-of_length [] scale h = ground arith
point-of_length (c ∷ f) scale h = ground arith

pad_end-full : (f : Text) (scale : ℕ) → length f ≡ scale → pad_end f scale ≡ f
pad_end-full f scale h =
    let full : scale - length f ≡ 0 = omega arith in ap (λ n. f ++ zeros n) full ∙ append-nil f

parse-with_point :
    (negative : Bool) (digits : Text) (scale : ℕ)
    → all is_digit digits ≡ true
    → suc scale ≤ length digits
    → scale ≤ max_money_scale
    → parse_decimal_to_minor (minus negative ++ with_point digits scale) scale
      ≡ ok (signed negative (digits_value 0 digits))
parse-with_point negative digits scale h k l =
    let cut = length digits - scale in
    let behind : length (drop cut digits) ≡ scale = omega (arith, length-drop cut digits) in
    let parts =
      all-split is_digit (take cut digits) (drop cut digits) (rw (take-drop cut digits) h) in
    ap (λ t. parse_decimal_to_minor (minus negative ++ (take cut digits ++ t)) scale)
      (point-of_length (drop cut digits) scale behind)
    ∙ parse-parts negative (take cut digits) (drop cut digits) scale parts.0 parts.1
        (take-nonempty cut digits (omega arith) (omega arith)) (omega arith) l
    ∙ ap (λ t. ok (signed negative (digits_value 0 (take cut digits ++ t))))
        (pad_end-full (drop cut digits) scale behind)
    ∙ ap (λ t. ok (signed negative (digits_value 0 t))) (take-drop cut digits)

padded-parse :
    (negative : Bool) (m scale : ℕ)
    → scale ≤ max_money_scale
    → parse_decimal_to_minor (minus negative ++ with_point (padded m scale) scale) scale
      ≡ ok (signed negative m)
padded-parse negative m scale l =
    parse-with_point negative (padded m scale) scale (padded-digits m scale) (padded-length m scale)
      l
    ∙ ap (λ n. ok (signed negative n)) (padded-value m scale)

assert_scale-ok : (scale : ℕ) → scale ≤ max_money_scale → assert_scale scale ≡ ok tt
assert_scale-ok scale l = ground arith

pos-sign : (n : ℕ) → ltb_ℤ (pos n) (pos 0) ≡ false
pos-sign n = ground arith

negsuc-sign : (n : ℕ) → ltb_ℤ (negsuc n) (pos 0) ≡ true
negsuc-sign n = ground arith

negsuc-magnitude : (n : ℕ) → pos_part (neg_ℤ (negsuc n)) ≡ suc n
unfolding neg_ℤ
negsuc-magnitude n = ground arith

signed-negsuc : (n : ℕ) → signed true (suc n) ≡ negsuc n
unfolding neg_ℤ
signed-negsuc n = ground arith

-- An amount that is printed at an accepted scale is read back, at that scale, as the same amount.
pub parse-format :
    (minor : ℤ) (scale : ℕ)
    → scale ≤ max_money_scale
    → (printed : Text) × (format_minor_to_decimal minor scale ≡ ok printed)
      × (parse_decimal_to_minor printed scale ≡ ok minor)
unfolding format_minor_to_decimal
parse-format (pos n) scale l = (
  with_point (padded n scale) scale,
  cc (assert_scale-ok scale l, pos-sign n),
  padded-parse false n scale l,
)
parse-format (negsuc n) scale l = (
  b'-' ∷ with_point (padded (suc n) scale) scale,
  cc (assert_scale-ok scale l, negsuc-sign n, negsuc-magnitude n),
  padded-parse true (suc n) scale l ∙ ap ok (signed-negsuc n),
)
