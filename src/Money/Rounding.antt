-- ===== src/Money/Rounding.antt =====
-- What each rounding mode of `divideMinor` promises (src/common/helpers/money.util.ts).
use native.Mathlib.Omega.{div_any}
use telegram_mini_app.Prelude.{
  ℕ, zero, suc, ◌+◌, ◌-◌, ◌*◌, ◌/◌, ◌%◌, ◌≤◌, ◌<◌, Bool, true, false, ◌≡◌, refl, sym, ap, subst,
  ◌∙◌, arith, Bool-cases, inl, inr, ◌⊎◌, not, leb, ltb, ◌==◌, if-cases,
}
use telegram_mini_app.Prelude.Integers.{ℤ, pos, negsuc, neg_ℤ, ◌+ℤ◌, ◌-ℤ◌, ◌*ℤ◌, ◌≤ℤ◌, eqb_ℤ}
use telegram_mini_app.Types.{ok, err, money_error, divide_by_zero}
use telegram_mini_app.Money.Divide.{
  Rounding, trunc, floor, ceil, half_up, half_even, magnitude, with_sign, is_negative, remainder_of,
  divide_positive, divide_minor, round_by, away_from_zero,
}

-- What the rounded quotient leaves of the dividend.
abbrev pub residue : ℤ → ℕ → ℤ → ℤ
residue n d q = n -ℤ q *ℤ pos d

-- What a mode promises of the quotient `q` of `n` by `d`, when it leaves `x`.
abbrev pub Leaves : Rounding → ℤ → ℕ → ℤ → ℤ → Type 0
Leaves trunc n d q x = (magnitude x < d) × ((magnitude x ≡ 0) ⊎ (is_negative x ≡ is_negative n))
Leaves floor n d q x = (pos 0 ≤ℤ x) × (magnitude x < d)
Leaves ceil n d q x = (x ≤ℤ pos 0) × (magnitude x < d)
Leaves half_up n d q x =
    (magnitude x * 2 < d) ⊎ ((magnitude x * 2 ≡ d) × (is_negative x ≡ not (is_negative n)))
Leaves half_even n d q x = (magnitude x * 2 < d) ⊎ ((magnitude x * 2 ≡ d) × (magnitude q % 2 ≡ 0))

abbrev pub IsRounded : Rounding → ℤ → ℕ → ℤ → Type 0
IsRounded rounding n d q = Leaves rounding n d q (residue n d q)

with_sign-residue :
    (negative : Bool) (k r d : ℕ)
    → residue (with_sign negative (d * k + r)) d (with_sign negative k) ≡ with_sign negative r
unfolding ◌-ℤ◌ ◌*ℤ◌
with_sign-residue false k r d = ground arith
with_sign-residue true k r d = ground arith

away-residue :
    (negative : Bool) (k r d : ℕ)
    → r ≤ d
    → residue (with_sign negative (d * k + r)) d (with_sign negative (suc k))
      ≡ with_sign (not negative) (d - r)
unfolding ◌-ℤ◌ ◌*ℤ◌
away-residue false k r d h = ground arith
away-residue true k r d h = ground arith

away_from_zero-with_sign :
    (negative : Bool) (k : ℕ)
    → away_from_zero negative (with_sign negative k) ≡ with_sign negative (suc k)
unfolding ◌-ℤ◌ ◌+ℤ◌
away_from_zero-with_sign false k = ground arith
away_from_zero-with_sign true zero = refl
away_from_zero-with_sign true (suc k) = ground arith

magnitude-with_sign : (negative : Bool) (k : ℕ) → magnitude (with_sign negative k) ≡ k
magnitude-with_sign false k = omega arith
magnitude-with_sign true zero = refl
magnitude-with_sign true (suc k) = omega arith

is_negative-with_sign :
    (negative : Bool) (k : ℕ) → 1 ≤ k → is_negative (with_sign negative k) ≡ negative
is_negative-with_sign false k h = refl
is_negative-with_sign true zero h = absurd (omega arith)
is_negative-with_sign true (suc k) h = refl

-- A quotient that leaves nothing is right in every mode.
exact-IsRounded :
    (rounding : Rounding) (n : ℤ) (d : ℕ) (q : ℤ)
    → 1 ≤ d
    → residue n d q ≡ pos 0
    → IsRounded rounding n d q
exact-IsRounded trunc n d q h e = rw (e) (h, inl refl)
exact-IsRounded floor n d q h e = rw (e) (omega arith, h)
exact-IsRounded ceil n d q h e = rw (e) (omega arith, h)
exact-IsRounded half_up n d q h e = rw (e) (inl h)
exact-IsRounded half_even n d q h e = rw (e) (inl h)

even-with_sign :
    (negative : Bool) (k : ℕ)
    → eqb_ℤ (remainder_of (with_sign negative k) (pos 2)) (pos 0) ≡ (k % 2 == 0)
even-with_sign false k = ground arith
even-with_sign true zero = refl
even-with_sign true (suc k) = ground arith

-- The two candidates: what the quotient and its neighbour away from zero leave.
module _ (k r d : ℕ) (low : 1 ≤ r) (high : r < d) where
  abbrev dividend : Bool → ℤ
  dividend negative = with_sign negative (d * k + r)

  sign : (negative : Bool) → is_negative (dividend negative) ≡ negative
  sign negative = is_negative-with_sign negative (d * k + r) (omega arith)

  stay :
      (negative : Bool) (rounding : Rounding)
      → Leaves rounding (dividend negative) d (with_sign negative k) (with_sign negative r)
      → IsRounded rounding (dividend negative) d (with_sign negative k)
  stay negative rounding h = rw (with_sign-residue negative k r d) h

  move :
      (negative : Bool) (rounding : Rounding)
      → Leaves rounding
          (dividend negative)
          d
          (with_sign negative (suc k))
          (with_sign (not negative) (d - r))
      → IsRounded rounding (dividend negative) d (away_from_zero negative (with_sign negative k))
  move negative rounding h =
      rw (away_from_zero-with_sign negative k, away-residue negative k r d (omega arith)) h

  move-half_up :
      (negative : Bool)
      → leb d (r * 2) ≡ true
      → Leaves half_up
          (dividend negative)
          d
          (with_sign negative (suc k))
          (with_sign (not negative) (d - r))
  move-half_up negative e =
      rw
        (
          sign negative,
          magnitude-with_sign (not negative) (d - r),
          is_negative-with_sign (not negative) (d - r) (omega arith),
        )
        (ground arith)

  stay-half_up :
      (negative : Bool)
      → leb d (r * 2) ≡ false
      → Leaves half_up (dividend negative) d (with_sign negative k) (with_sign negative r)
  stay-half_up negative e = rw (magnitude-with_sign negative r) (ground arith)

  half_even-IsRounded :
      (negative : Bool)
      → IsRounded half_even
          (dividend negative)
          d
          (round_by half_even negative (with_sign negative k) (r * 2) d)
  half_even-IsRounded negative =
      let P : ℤ → Type 0 = IsRounded half_even (dividend negative) d in
      let up = magnitude-with_sign (not negative) (d - r) in
      let down = magnitude-with_sign negative r in
      let even = eqb_ℤ (remainder_of (with_sign negative k) (pos 2)) (pos 0) in
      if-cases P (ltb d (r * 2)) (λ e. move negative half_even (ground (arith, up)))
        (λ e.
          if-cases P (ltb (r * 2) d) (λ f. stay negative half_even (ground (arith, down)))
            (λ f.
              if-cases P even
                (λ g. stay negative half_even (
                  rw (down, magnitude-with_sign negative k)
                    (ground (arith, even-with_sign negative k))))
                (λ g. move negative half_even (
                  rw (up, magnitude-with_sign negative (suc k))
                    (ground (arith, even-with_sign negative k))))))

  round_by-IsRounded :
      (negative : Bool) (rounding : Rounding)
      → IsRounded rounding
          (dividend negative)
          d
          (round_by rounding negative (with_sign negative k) (r * 2) d)
  round_by-IsRounded false trunc = stay false trunc (omega arith, inr (sym (sign false)))
  round_by-IsRounded true trunc =
      stay true trunc (ground arith, inr (is_negative-with_sign true r low ∙ sym (sign true)))
  round_by-IsRounded false floor = stay false floor (ground arith)
  round_by-IsRounded true floor = move true floor (ground arith)
  round_by-IsRounded false ceil = move false ceil (ground arith)
  round_by-IsRounded true ceil = stay true ceil (ground arith)
  round_by-IsRounded negative half_up = elim (Bool-cases (leb d (r * 2))) [
    | inl e ↦ rw (e) (move negative half_up (move-half_up negative e))
    | inr e ↦ rw (e) (stay negative half_up (stay-half_up negative e))
  ]
  round_by-IsRounded negative half_even = half_even-IsRounded negative

sign-magnitude : (n : ℤ) → with_sign (is_negative n) (magnitude n) ≡ n
sign-magnitude (pos n) = refl
sign-magnitude (negsuc n) = refl

-- The quotient towards zero and the remainder make up the dividend.
quotient-remainder :
    (n : ℤ) (d : ℕ) → with_sign (is_negative n) (d * (magnitude n / d) + magnitude n % d) ≡ n
quotient-remainder n d =
    ap (with_sign (is_negative n)) (omega (arith, div_any (magnitude n) d)) ∙ sign-magnitude n

with_sign-zero : (negative : Bool) → with_sign negative 0 ≡ pos 0
with_sign-zero false = refl
with_sign-zero true = refl

-- A remainder is zero when its magnitude is.
remainder-zero : (negative : Bool) (r : ℕ) → eqb_ℤ (with_sign negative r) (pos 0) ≡ (r == 0)
remainder-zero false r = ground arith
remainder-zero true zero = refl
remainder-zero true (suc r) = ground arith

exact-quotient :
    (rounding : Rounding) (n : ℤ) (d : ℕ)
    → 1 ≤ d
    → magnitude n % d ≡ 0
    → IsRounded rounding n d (with_sign (is_negative n) (magnitude n / d))
exact-quotient rounding n d h e =
    let b = is_negative n in
    let k = magnitude n / d in
    let r = magnitude n % d in
    exact-IsRounded rounding n d (with_sign b k) h (
      ap (λ m. residue m d (with_sign b k)) (sym (quotient-remainder n d))
      ∙ with_sign-residue b k r d
      ∙ ap (with_sign b) e
      ∙ with_sign-zero b)

divide_positive-IsRounded :
    (rounding : Rounding) (n : ℤ) (d : ℕ)
    → 1 ≤ d
    → IsRounded rounding n d (divide_positive rounding n (pos d))
divide_positive-IsRounded rounding n d h =
    let b = is_negative n in
    let k = magnitude n / d in
    let r = magnitude n % d in
    if-cases (IsRounded rounding n d) (eqb_ℤ (remainder_of n (pos d)) (pos 0))
      (λ e. exact-quotient rounding n d h (ground (arith, remainder-zero b r)))
      (λ e.
        subst
          (λ m.
            IsRounded rounding m d
              (round_by rounding b (with_sign b k) (magnitude (with_sign b r) * 2) d))
          (quotient-remainder n d)
          (rw (magnitude-with_sign b r) (
            round_by-IsRounded k r d (ground (arith, remainder-zero b r)) (omega arith) b
              rounding)))

-- Dividing an amount by a positive number gives, in each mode, a quotient that leaves what the mode
-- promises: `trunc` less than the divisor and nothing beyond the amount, `floor` and `ceil` less than
-- the divisor above and below the quotient, `half_up` at most half of it with ties away from zero,
-- `half_even` at most half of it with ties to an even quotient.
pub divide_minor-IsRounded :
    (n : ℤ) (d : ℕ) (rounding : Rounding)
    → 1 ≤ d
    → (q : ℤ) × (divide_minor n (pos d) rounding ≡ ok q) × IsRounded rounding n d q
unfolding divide_minor
divide_minor-IsRounded n d rounding h =
    (divide_positive rounding n (pos d), ground arith, divide_positive-IsRounded rounding n d h)

-- Dividing by zero is an error in every mode, and dividing by a negative number divides the opposite
-- amount by its opposite.
pub divide_minor_signs :
    (n : ℤ) (d : ℕ) (rounding : Rounding)
    → (divide_minor n (pos 0) rounding ≡ err (money_error divide_by_zero))
      × (divide_minor n (negsuc d) rounding ≡ divide_minor (neg_ℤ n) (pos (suc d)) rounding)
unfolding divide_minor neg_ℤ
divide_minor_signs n d rounding = (refl, ground arith)
