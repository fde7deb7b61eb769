-- ===== src/Outbox/Backoff.antt =====
-- The delay before a failed publish is tried again (src/core/outbox/outbox.constants.ts).
use native.Mathlib.Nat.{one-le-pow}
use telegram_mini_app.Prelude.{ℕ, ◌+◌, ◌-◌, ◌*◌, ◌/◌, ◌^◌, ◌≤◌, ◌<◌, arith}
use telegram_mini_app.Outbox.Table.{min_ℕ, publish_backoff_ms, backoff_base_ms, backoff_max_ms}

power_pos : (n : ℕ) → 1 ≤ 2 ^ n
power_pos n = one-le-pow n 2 (omega arith)

window_bounds :
    (x : ℕ) → 2000 ≤ x → (2000 ≤ min_ℕ x backoff_max_ms) × (min_ℕ x backoff_max_ms ≤ 300000)
window_bounds x h = ground arith

delay_bounds :
    (window : ℕ) (scaled : ℕ → ℕ)
    → ((n : ℕ) → 1 ≤ n → scaled n < n)
    → (2000 ≤ window) × (window ≤ 300000)
    → (1000 ≤ window / 2 + scaled (window / 2)) × (window / 2 + scaled (window / 2) < 300000)
delay_bounds window scaled h k =
    let draw = h (window / 2) (omega (arith, k.0)) in (omega (arith, k.0), omega (arith, k.1, draw))

-- Whatever the attempt count, a retry waits at least one second and less than five minutes, if the
-- random draw is below its bound.
pub publish_backoff_ms_bounds :
    (attempts : ℕ) (scaled : ℕ → ℕ)
    → ((n : ℕ) → 1 ≤ n → scaled n < n)
    → (1000 ≤ publish_backoff_ms attempts scaled) × (publish_backoff_ms attempts scaled < 300000)
unfolding publish_backoff_ms
publish_backoff_ms_bounds attempts scaled h =
    let exponent = min_ℕ (attempts - 1) 20 in
    delay_bounds (min_ℕ (backoff_base_ms * 2 ^ exponent) backoff_max_ms) scaled h
      (window_bounds (backoff_base_ms * 2 ^ exponent) (omega (arith, power_pos exponent)))
