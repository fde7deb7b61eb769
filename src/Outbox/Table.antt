-- ===== src/Outbox/Table.antt =====
-- The columns of `outbox_messages` that the relay works with (prisma/schema.prisma) and its constants
-- (src/core/outbox/outbox.constants.ts).
use telegram_mini_app.Prelude.{
  ℕ, ◌+◌, ◌-◌, ◌*◌, ◌/◌, ◌^◌, Bool, List, [], ◌∷◌, Option, none, ltb, ◌==◌, any, if◌then◌else◌, ◌≡◌,
}
use telegram_mini_app.Prelude.Text.{Text, text_eq}
use telegram_mini_app.Db.Rows.{OutboxMessage}

pub data OutboxStatus : Type 0 where
  pending in_flight sent failed dead : OutboxStatus

abbrev pub status_index : OutboxStatus → ℕ
status_index pending = 0
status_index in_flight = 1
status_index sent = 2
status_index failed = 3
status_index dead = 4

abbrev pub has_status : OutboxStatus → OutboxStatus → Bool
has_status a b = status_index a == status_index b

-- A row as it is inserted, with the columns that the relay writes. `available_at` starts as the
-- producer's.
pub record OutboxRow : Type 0 where
  pub message : OutboxMessage
  pub status : OutboxStatus
  pub attempts : ℕ
  pub available_at : ℕ
  pub locked_at : Option ℕ
  pub locked_by : Option Text
  pub sent_at : Option ℕ
  pub last_error : Option Text

-- The defaults of a row that the producer has just inserted.
abbrev pub new_row : OutboxMessage → OutboxRow
new_row m = record {
  message = m;
  status = pending;
  attempts = 0;
  available_at = m.available_at;
  locked_at = none;
  locked_by = none;
  sent_at = none;
  last_error = none;
}

abbrev pub row_id : OutboxRow → Text
row_id row = row.message.id

abbrev pub claim_batch_size : ℕ
claim_batch_size = 100

abbrev pub max_publish_attempts : ℕ
max_publish_attempts = 8

abbrev pub backoff_base_ms : ℕ
backoff_base_ms = 2000

abbrev pub backoff_max_ms : ℕ
backoff_max_ms = 5 * 60000

abbrev pub stale_lock_ms : ℕ
stale_lock_ms = 60000

abbrev pub min_ℕ : ℕ → ℕ → ℕ
min_ℕ a b = if ltb b a then b else a

-- Exponential backoff with jitter. `scaled n` is `Math.floor(random() * n)`; the window is even, so
-- that the floor of the sum is the sum of the floor. `attempts - 1` stops at 0, as `Math.max` does.
unfoldable pub publish_backoff_ms : ℕ → (ℕ → ℕ) → ℕ
publish_backoff_ms attempts scaled =
    let exponent = min_ℕ (attempts - 1) 20 in
    let window = min_ℕ (backoff_base_ms * 2 ^ exponent) backoff_max_ms in
    let half = window / 2 in half + scaled half

-- The ids of a table are those of its primary key: no two rows share one.
abbrev pub same_id : OutboxRow → OutboxRow → Bool
same_id a b = text_eq (row_id a) (row_id b)

abbrev pub IsKeyed : List OutboxRow → Type 0
IsKeyed [] = Unit
IsKeyed (row ∷ rows) = (any (same_id row) rows ≡ Bool.false) × IsKeyed rows
