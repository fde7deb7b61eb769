-- ===== src/Money/Fees.antt =====
-- Percentages in basis points (src/common/helpers/money.util.ts, `applyBps`).
use telegram_mini_app.Prelude.{ℕ, zero, suc, ◌*◌, ◌≤◌, ◌<◌, ◌≡◌, refl, arith, subst, inl, inr}
use telegram_mini_app.Prelude.Integers.{ℤ, pos, negsuc, ◌-ℤ◌, ◌*ℤ◌}
use telegram_mini_app.Types.{ok}
use telegram_mini_app.Money.Divide.{
  Rounding, trunc, floor, ceil, half_up, half_even, magnitude, divide_minor, mul_div_minor,
  apply_bps,
}
use telegram_mini_app.Money.Rounding.{residue, IsRounded, divide_minor-IsRounded}

-- In every mode the quotient leaves less than the divisor.
close :
    (rounding : Rounding) (n : ℤ) (d : ℕ) (q : ℤ)
    → 1 ≤ d
    → IsRounded rounding n d q
    → magnitude (residue n d q) < d
close trunc n d q l h = h.0
close floor n d q l h = h.1
close ceil n d q l h = h.1
close half_up n d q l (inl h) = omega arith
close half_up n d q l (inr h) = omega (arith, h.0)
close half_even n d q l (inl h) = omega arith
close half_even n d q l (inr h) = omega (arith, h.0)

times_le : (m a b : ℕ) → a ≤ b → m * a ≤ m * b
times_le zero a b h = omega arith
times_le (suc m) a b h = omega (arith, times_le m a b h)

-- A quotient that leaves less than the divisor of a share of `m` is an amount up to `m`.
share :
    (m b : ℕ) (q : ℤ)
    → b ≤ 10000
    → magnitude (residue (pos m *ℤ pos b) 10000 q) < 10000
    → (j : ℕ) × (q ≡ pos j) × (j ≤ m)
unfolding ◌-ℤ◌ ◌*ℤ◌
share m b (pos j) h k = (j, refl, ground (arith, times_le m b 10000 h))
share m b (negsuc j) h k = absurd (ground arith)

-- A fee of at most 10,000 basis points of an amount that is not negative lies, in every rounding
-- mode, between zero and the amount.
pub apply_bps_bounds :
    (m bps : ℕ) (rounding : Rounding)
    → bps ≤ 10000
    → (fee : ℕ) × (apply_bps (pos m) (pos bps) rounding ≡ ok (pos fee)) × (fee ≤ m)
unfolding apply_bps mul_div_minor
apply_bps_bounds m bps rounding h =
    let (q, e, r) = divide_minor-IsRounded (pos m *ℤ pos bps) 10000 rounding (omega arith) in
    let (j, f, l) = share m bps q h (close rounding (pos m *ℤ pos bps) 10000 q (omega arith) r) in
    (j, subst (λ x. divide_minor (pos m *ℤ pos bps) (pos 10000) rounding ≡ ok x) f e, l)
