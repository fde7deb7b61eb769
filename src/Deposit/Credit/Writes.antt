-- ===== src/Deposit/Credit/Writes.antt =====
-- The reads and the small writes of a credit (the `SMALL WRITES` of
-- src/modules/deposit/services/deposit-credit.service.ts).
use telegram_mini_app.Prelude.{suc, Option, none, some, keep, map, if◌then◌else◌}
use telegram_mini_app.Prelude.Integers.{ℤ, ◌-ℤ◌, leb_ℤ, sum_ℤ}
use telegram_mini_app.Prelude.Text.{Text, text_eq}
use telegram_mini_app.Types.{ok}
use telegram_mini_app.Db.{Db, Env, Tx, ◌>>=◌, update_deposit}
use telegram_mini_app.Db.Rows.{Deposit, LedgerAccount, LedgerEntry}
use telegram_mini_app.Ledger.AccountCodes.{ichancy_agent_float_code}
use telegram_mini_app.Ledger.Repository.Accounts.{lift, find_by_code}
use telegram_mini_app.Deposit.Credit.Effects.{World, Job, run_in_transaction}

-- `computeBalanceFromEntries`.
unfoldable pub compute_balance_from_entries : Text → Db → ℤ
compute_balance_from_entries id db = sum_ℤ (
    map (λ (e : LedgerEntry). e.amount_minor)
      (keep (λ (e : LedgerEntry). text_eq e.ledger_account_id id) db.entries))

shortfall_of : ℤ → ℤ → Option ℤ
shortfall_of balance amount = if leb_ℤ amount balance then none else some (amount -ℤ balance)

-- The two statements of `floatShortfall`, as one read of the database.
float_gap : ℤ → Option LedgerAccount → Tx (Option ℤ)
unfolding shortfall_of
float_gap amount none db = ok (none, db)
float_gap amount (some account) db =
    ok (shortfall_of (compute_balance_from_entries account.id db) amount, db)

unfoldable pub float_shortfall : Env → Text → ℤ → Tx (Option ℤ)
unfolding float_gap
float_shortfall env currency amount = do
  code ← lift (ichancy_agent_float_code currency)
  found ← find_by_code env code
  float_gap amount found

-- `recordBaseline`, `recordAfterBalance` and `bumpAttempts`.
unfoldable pub record_baseline : World → Env → Deposit → ℤ → Job (Unit {0})
record_baseline world env deposit b0 = run_in_transaction world (
    update_deposit env deposit.tenant_id deposit.id
      (λ d. record d { balance_before_minor = some b0 }))

unfoldable pub record_after_balance : World → Env → Deposit → ℤ → Job (Unit {0})
record_after_balance world env deposit b1 = run_in_transaction world (
    update_deposit env deposit.tenant_id deposit.id
      (λ d. record d { balance_after_minor = some b1 }))

unfoldable pub bump_attempts : World → Env → Deposit → Job (Unit {0})
bump_attempts world env deposit = run_in_transaction world (
    update_deposit env deposit.tenant_id deposit.id
      (λ d. record d { credit_attempts = suc d.credit_attempts }))
