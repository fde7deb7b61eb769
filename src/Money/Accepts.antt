-- ===== src/Money/Accepts.antt =====
-- Which texts `parseDecimalToMinor` accepts, and as what (src/common/helpers/money.util.ts).
use telegram_mini_app.Prelude.{
  ℕ, ◌≤◌, Bool, true, false, not, [], ◌∷◌, ◌++◌, some, length, all, if◌then◌else◌, ◌≡◌, refl, arith,
}
use telegram_mini_app.Prelude.Integers.{ℤ, pos, neg_ℤ}
use telegram_mini_app.Prelude.Text.{Text, nonempty}
use telegram_mini_app.Prelude.Decimal.{is_digit, digits_value}
use telegram_mini_app.Types.{ok}
use telegram_mini_app.Money.Scale.{
  is_space, trim_end, trim, take_digits, drop_digits, match_number, match_fraction, match_decimal,
  max_money_scale,
}
use telegram_mini_app.Money.Parse.{pad_end, parse_decimal_to_minor}

digit-space : (c : ℕ) → is_digit c ≡ true → is_space c ≡ false
unfolding is_space
digit-space c h = ground arith

-- The signs and the point are no white space.
sign-space : (is_space b'-' ≡ false) × ((is_space b'+' ≡ false) × (is_space b'.' ≡ false))
unfolding is_space
sign-space = (refl, (refl, refl))

-- A text of digits, with a point and more digits behind it when there are any.
abbrev pub point : Text → Text
point [] = []
point (c ∷ s) = b'.' ∷ (c ∷ s)

abbrev pub minus : Bool → Text
minus true = b'-' ∷ []
minus false = []

abbrev solid : Text → Bool
solid = all (λ c. not (is_space c))

minus-solid : (negative : Bool) → solid (minus negative) ≡ true
minus-solid true = ground (arith, sign-space)
minus-solid false = refl

digits-solid : (s : Text) → all is_digit s ≡ true → solid s ≡ true
digits-solid [] h = refl
digits-solid (c ∷ s) h = ground (arith, digit-space c, digits-solid s)

solid-trim_end : (s : Text) → solid s ≡ true → trim_end s ≡ s
solid-trim_end [] h = refl
solid-trim_end (c ∷ s) h = ground (arith, solid-trim_end s)

solid-trim : (s : Text) → solid s ≡ true → trim s ≡ s
solid-trim [] h = refl
solid-trim (c ∷ s) h = ground (arith, solid-trim_end (c ∷ s))

solid-append : (s t : Text) → solid s ≡ true → solid t ≡ true → solid (s ++ t) ≡ true
solid-append [] t h k = k
solid-append (c ∷ s) t h k = ground (arith, solid-append s t)

point-solid : (s : Text) → all is_digit s ≡ true → solid (point s) ≡ true
point-solid [] h = refl
point-solid (c ∷ s) h = ground (arith, digits-solid (c ∷ s) h, sign-space)

take_digits-all : (s : Text) → all is_digit s ≡ true → take_digits s ≡ s
take_digits-all [] h = refl
take_digits-all (c ∷ s) h = ground (arith, take_digits-all s)

drop_digits-all : (s : Text) → all is_digit s ≡ true → drop_digits s ≡ []
drop_digits-all [] h = refl
drop_digits-all (c ∷ s) h = ground (arith, drop_digits-all s)

take_digits-point : (w f : Text) → all is_digit w ≡ true → take_digits (w ++ point f) ≡ w
take_digits-point [] [] h = refl
take_digits-point [] (c ∷ f) h = refl
take_digits-point (c ∷ w) f h = ground (arith, take_digits-point w f)

drop_digits-point : (w f : Text) → all is_digit w ≡ true → drop_digits (w ++ point f) ≡ point f
drop_digits-point [] [] h = refl
drop_digits-point [] (c ∷ f) h = refl
drop_digits-point (c ∷ w) f h = ground (arith, drop_digits-point w f)

match_fraction-point : (f : Text) → all is_digit f ≡ true → match_fraction (point f) ≡ some f
match_fraction-point [] h = refl
match_fraction-point (c ∷ f) h =
    ground (arith, take_digits-all (c ∷ f) h, drop_digits-all (c ∷ f) h)

match_number-point :
    (negative : Bool) (w f : Text)
    → all is_digit w ≡ true
    → all is_digit f ≡ true
    → nonempty w ≡ true
    → match_number negative (w ++ point f)
      ≡ some (record { negative = negative; whole = w; fraction = f })
match_number-point negative w f h k n =
    cc (take_digits-point w f h, drop_digits-point w f h, match_fraction-point f k)

match_decimal-parts :
    (negative : Bool) (w f : Text)
    → all is_digit w ≡ true
    → all is_digit f ≡ true
    → nonempty w ≡ true
    → match_decimal (minus negative ++ (w ++ point f))
      ≡ some (record { negative = negative; whole = w; fraction = f })
match_decimal-parts true w f h k n = match_number-point true w f h k n
match_decimal-parts false [] f h k n = absurd (cc)
match_decimal-parts false (c ∷ w) f h k n = ground (arith, match_number-point false (c ∷ w) f h k n)

parts-solid :
    (negative : Bool) (w f : Text)
    → all is_digit w ≡ true
    → all is_digit f ≡ true
    → solid (minus negative ++ (w ++ point f)) ≡ true
parts-solid negative w f h k =
    solid-append (minus negative) (w ++ point f) (minus-solid negative)
      (solid-append w (point f) (digits-solid w h) (point-solid f k))

abbrev pub signed : Bool → ℕ → ℤ
signed negative n = if negative then neg_ℤ (pos n) else pos n

pub parse-parts :
    (negative : Bool) (w f : Text) (scale : ℕ)
    → all is_digit w ≡ true
    → all is_digit f ≡ true
    → nonempty w ≡ true
    → length f ≤ scale
    → scale ≤ max_money_scale
    → parse_decimal_to_minor (minus negative ++ (w ++ point f)) scale
      ≡ ok (signed negative (digits_value 0 (w ++ pad_end f scale)))
unfolding parse_decimal_to_minor
parse-parts negative w f scale h k n l m = ground (
  arith,
  solid-trim (minus negative ++ (w ++ point f)) (parts-solid negative w f h k),
  match_decimal-parts negative w f h k n,
)
