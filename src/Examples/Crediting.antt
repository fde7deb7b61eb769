-- ===== src/Examples/Crediting.antt =====
-- The theorems on the credit of one approved deposit.
use telegram_mini_app.Prelude.{ℕ, ◌+◌, length, ◌≤◌, true, false, [], ◌∷◌, some, ◌≡◌, refl}
use telegram_mini_app.Prelude.Integers.{pos, ◌-ℤ◌}
use telegram_mini_app.Prelude.Text.{text, text_eq}
use telegram_mini_app.Types.{approved, crediting, credit_failed, illegal_transition, ok, err}
use telegram_mini_app.Db.{require_effective_tenant_id, generate_id, update_deposit, write_audit}
use telegram_mini_app.Ledger.AccountCodes.{singleton_code, kind_name}
use telegram_mini_app.Deposit.Credit.{
  CreditTask, credit, credit_found, credit_unless, skip_reason, credit_under_lock, unless_short,
  with_link, taken_input, with_baseline, after_first, settle_first, retry_once, after_second,
  settle_second, verify_by_delta, find_deposit,
}
use telegram_mini_app.Deposit.Credit.Effects.{
  World, Run, CreditCall, answered, ambiguous, ◌>>=◌, run_in_transaction, get_player_balance,
  credit_player, extend_lock, ensure_linked, under_lock,
}
use telegram_mini_app.Deposit.Credit.Finish.{
  reported, unresolved, finish_failed, finish_needs_reconciliation, unresolved_transaction,
}
use telegram_mini_app.Deposit.Credit.Calls.{copies}
use telegram_mini_app.Deposit.Credit.Bound.{at_most_two_posts, no_retry_after_answer}
use telegram_mini_app.Deposit.Credit.Backing.{credit-IsBacked}
use telegram_mini_app.Deposit.Credit.Yields.{finish_failed_throws}
use telegram_mini_app.Deposit.Credit.Writes.{
  float_shortfall, record_baseline, bump_attempts, record_after_balance,
  compute_balance_from_entries,
}
use telegram_mini_app.Prelude.Decimal.{decimal}
use telegram_mini_app.Deposit.Credit.Keys.{dedupe_key, outbox_input}
use telegram_mini_app.Ledger.Repository.Accounts.{find_by_code}
use telegram_mini_app.Deposit.StateMachine.{try_transition, transition}
use telegram_mini_app.Deposit.StateMachine.Patch.{apply_patch}
use telegram_mini_app.Outbox.{enqueue_many}
use telegram_mini_app.Examples.{env, deposit_in, db_with}

-- The cashier answers no POST; the balance stands still, and the lock is never lost.
abbrev silent_cashier : World
silent_cashier = record {
  acquire_reply = true;
  link_reply = some (51 ∷ []);
  balance_reply = λ n. answered (pos 300);
  credit_reply = λ n. ambiguous (61 ∷ []);
  extend_reply = λ n. true;
  others = λ n db. db;
}

abbrev good_cashier : World
good_cashier = record silent_cashier { credit_reply = λ n. answered tt }

abbrev task : CreditTask
task = record { deposit_request_id = 1 ∷ []; credit_key_epoch = 0; amount_minor = pos 10000 }

abbrev run : Run
run = record { db = db_with approved; posts = []; reads = 0; extends = 0; steps = 0; held = false }

at_most_two_posts_example :
    (k : ℕ) × (c : CreditCall) × (k ≤ 2)
    × (c.amount_minor ≡ pos 10000)
    × ((credit silent_cashier env task run).1.posts ≡ copies k c [])
at_most_two_posts_example = at_most_two_posts silent_cashier env task run

no_retry_after_answer_example :
    (k : ℕ) × (c : CreditCall) × (k ≤ 1)
    × (c.amount_minor ≡ pos 10000)
    × ((credit good_cashier env task run).1.posts ≡ copies k c [])
no_retry_after_answer_example = no_retry_after_answer good_cashier (λ n. refl) env task run

finish_failed_throws_example :
    (finish_failed good_cashier env (deposit_in crediting) (71 ∷ []) true run).0
    ≡ err (illegal_transition approved credit_failed)
finish_failed_throws_example =
    finish_failed_throws good_cashier env (deposit_in crediting) (71 ∷ []) true run

-- Neither POST is answered and the balance never moves: a case for a human.
silent_run : (credit silent_cashier env task run).0 ≡ ok (unresolved (reported (61 ∷ [])))
unfolding credit ◌>>=◌ run_in_transaction get_player_balance credit_player extend_lock ensure_linked
    under_lock credit_found credit_unless skip_reason credit_under_lock unless_short with_link
    taken_input with_baseline after_first settle_first retry_once after_second settle_second
    verify_by_delta find_deposit float_shortfall record_baseline bump_attempts record_after_balance
    compute_balance_from_entries finish_needs_reconciliation unresolved_transaction dedupe_key
    decimal outbox_input text text_eq singleton_code kind_name find_by_code
    require_effective_tenant_id generate_id try_transition transition apply_patch update_deposit
    write_audit enqueue_many ◌-ℤ◌
silent_run = refl

credit-IsBacked_example :
    (n : ℕ) × (length run.posts ≤ n)
    × (n ≤ length run.posts + 1)
    × (silent_cashier.credit_reply n ≡ ambiguous (61 ∷ []))
credit-IsBacked_example = credit-IsBacked silent_cashier env task run silent_run
