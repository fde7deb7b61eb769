-- ===== src/Deposit/Credit/Keys.antt =====
-- The keys under which a deposit's messages are deduplicated, `topic:id:what:epoch`, and the message
-- itself (src/modules/deposit/services/deposit-credit.service.ts, `notify` and its neighbours).
use telegram_mini_app.Prelude.{◌++◌, none, some}
use telegram_mini_app.Prelude.Text.{Text, text}
use telegram_mini_app.Prelude.Decimal.{decimal}
use telegram_mini_app.Db.Rows.{Deposit, Payload, OutboxInput}

unfoldable pub dedupe_key : Text → Deposit → Text → Text
dedupe_key topic deposit what =
    topic ++ (text ":" ++ (deposit.id ++ (what ++ decimal deposit.credit_key_epoch)))

unfoldable pub outbox_input : Deposit → Text → Payload → Text → OutboxInput
outbox_input deposit topic payload key = record {
  aggregate_id = deposit.id;
  topic = topic;
  payload = payload;
  dedupe_key = some key;
  available_at = none;
}
