-- ===== src/Examples/Conflicts.antt =====
-- A transaction that loses two races and then commits.
use telegram_mini_app.Prelude.{ℕ, zero, none, some, ◌≡◌, arith, ltb, if◌then◌else◌}
use telegram_mini_app.Prelude.Text.{text}
use telegram_mini_app.Transactions.{
  Thrown, thrown, Attempt, returned, failed, Backoff, stopped, invalid_attempts,
  with_serialization_retry,
}
use telegram_mini_app.Transactions.Attempts.{Runs, with_serialization_retry-Runs}

abbrev conflict : Thrown
conflict = thrown (record {
  code = some (text "P2034");
  meta_code = none;
  db_error_code = none;
  adapter_original_code = none;
  adapter_kind = none;
  message = none;
})

abbrev backoff : Backoff
backoff = record { base_delay_ms = 25; max_delay_ms = 500; jittered = λ n window. window }

abbrev work : ℕ → Attempt ℕ
work n = if ltb n 3 then failed conflict else returned n

with_serialization_retry-Runs_example :
    Runs backoff work 1 5 (with_serialization_retry 5 backoff work)
    × (with_serialization_retry zero backoff work ≡ stopped 0 invalid_attempts)
with_serialization_retry-Runs_example =
    with_serialization_retry-Runs 4 backoff work (λ n window. omega arith)
