-- ===== src/Examples/Relaying.antt =====
-- The theorems on the outbox relay at one message.
use telegram_mini_app.Prelude.{
  ℕ, zero, suc, ◌-◌, true, false, List, [], ◌∷◌, none, some, All, find, map, map_where, arith, ◌≡◌,
  refl,
}
use telegram_mini_app.Prelude.Text.{Text, text, text_lt, text_eq}
use telegram_mini_app.Db.Rows.{OutboxMessage, card_update}
use telegram_mini_app.Outbox.Table.{OutboxRow, new_row}
use telegram_mini_app.Outbox.Relay.{
  Worker, published, refused, run_once, claim, mark_sent, reap, tick, is_picked, claim_row,
}
use telegram_mini_app.Outbox.Relay.Rows.{after_claim, run_once-rows}
use telegram_mini_app.Outbox.Relay.Life.{
  IsLive, Reachable, empty, after, enqueued, ticked, reaped, Reachable-IsLive,
}
use telegram_mini_app.Outbox.Relay.Final.{named, is_settled, Step-settled}
use telegram_mini_app.Outbox.Relay.Settles.{Rounds, done, next, Rounds-settled}
use telegram_mini_app.Outbox.Dispatch.{
  OutboxTopicHandler, process, only_in, to_job, process_in_tenant,
}
use telegram_mini_app.Examples.{operator}

abbrev message : OutboxMessage
message = record {
  id = 31 ∷ [];
  tenant_id = operator;
  input = record {
    aggregate_id = 1 ∷ [];
    topic = text "deposit.card_update";
    payload = card_update (1 ∷ []) (text "approved");
    dedupe_key = none;
    available_at = none;
  };
  available_at = 1000;
}

abbrev worker_at : ℕ → Worker
worker_at now = record {
  now = now;
  limit = 100;
  locked = λ id. false;
  worker_id = 41 ∷ [];
  scaled = λ n. n - 1;
}

abbrev waiting : List OutboxRow
waiting = new_row message ∷ []

run_once-rows_example :
    (run_once (worker_at 2000) (refused (51 ∷ [])) waiting).0
    ≡ map_where
        (is_picked 2000 100 (λ id. false) waiting)
        (λ row. after_claim (worker_at 2000) (refused (51 ∷ [])) (claim_row 2000 (41 ∷ []) row))
        waiting
run_once-rows_example = run_once-rows (worker_at 2000) (refused (51 ∷ [])) waiting (refl, tt)

waiting_reached : Reachable waiting
waiting_reached = after empty (enqueued message refl)

Reachable-IsLive_example : IsLive (tick true false (worker_at 2000) published waiting).0
Reachable-IsLive_example =
    Reachable-IsLive (after waiting_reached (ticked true false (worker_at 2000) published))

abbrev sent_table : List OutboxRow
sent_table = (run_once (worker_at 2000) published waiting).0

abbrev sent_message : OutboxRow
sent_message = after_claim (worker_at 2000) published (claim_row 2000 (41 ∷ []) (new_row message))

sent-IsLive : IsLive sent_table
unfolding run_once claim mark_sent text_lt text_eq
sent-IsLive = ((refl, tt), ((omega arith, omega arith, refl), tt))

sent_found : find (named (31 ∷ [])) sent_table ≡ some sent_message
unfolding run_once claim mark_sent text_lt text_eq
sent_found = refl

Step-settled_example : find (named (31 ∷ [])) (reap 900000 sent_table) ≡ some sent_message
Step-settled_example = Step-settled (31 ∷ []) sent-IsLive (reaped 900000) sent_found refl

-- Nothing happens any more to a table whose one message is sent.
quiet : (n : ℕ) → Rounds (sent_message ∷ []) n (sent_message ∷ [])
unfolding run_once claim reap
quiet zero = done
quiet (suc n) =
    next (worker_at 3000) published 900000 (omega arith) (λ e. e, tt) (λ e. e, tt) (quiet n)

one_message : Rounds waiting 16 (sent_message ∷ [])
unfolding run_once claim mark_sent reap text_lt text_eq
one_message =
    next (worker_at 2000) published 900000 (omega arith) (λ e. e, tt) (λ e. absurd (cc), tt)
      (quiet 15)

Rounds-settled_example : All (λ row. is_settled row ≡ true) (sent_message ∷ [])
Rounds-settled_example =
    Rounds-settled ((refl, tt), ((omega arith, refl), tt)) (omega arith) one_message

-- A handler that writes down the operator in which it runs.
abbrev recorder : OutboxTopicHandler (List Text)
recorder = record { topic = text "deposit.*"; handle = λ tenant m seen. some (tenant ∷ seen) }

process_in_tenant_example :
    process (map (only_in operator) (recorder ∷ [])) (to_job (new_row message)) []
    ≡ process (recorder ∷ []) (to_job (new_row message)) []
process_in_tenant_example = process_in_tenant (recorder ∷ []) (new_row message) []
