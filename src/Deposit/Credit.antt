-- ===== src/Deposit/Credit.antt =====
-- Crediting a player in Ichancy: src/modules/deposit/services/deposit-credit.service.ts.
pub mod Effects
pub mod Keys
pub mod Finish
pub mod Writes
pub mod Calls
pub mod Posts
pub mod Bound
pub mod Evidence
pub mod Backing
pub mod Yields
pub mod Triples
use telegram_mini_app.Prelude.{
  ℕ, suc, Bool, true, false, List, [], ◌∷◌, Option, none, some, find, keep, map, or_else, ◌==◌,
  if◌then◌else◌,
}
use telegram_mini_app.Prelude.Integers.{ℤ, ◌-ℤ◌, leb_ℤ, sum_ℤ}
use telegram_mini_app.Prelude.Text.{Text, text, text_eq}
use telegram_mini_app.Types.{
  DepositStatus, approved, crediting, credited, status_eq, system_actor, CreditVerifiedBy, api_ok,
  balance_delta, credit_retry_later, Result, ok, err,
}
use telegram_mini_app.Db.{Db, Env, Tx, update_deposit}
use telegram_mini_app.Db.Rows.{Deposit, LedgerAccount, LedgerEntry}
use telegram_mini_app.Deposit.StateMachine.{TransitionInput, no_guard, try_transition}
use telegram_mini_app.Ledger.AccountCodes.{ichancy_agent_float_code}
use telegram_mini_app.Ledger.Repository.Accounts.{lift, find_by_code}
use Writes.{float_shortfall, record_baseline, record_after_balance, bump_attempts}
use Effects.{
  IchancyResult, answered, rejected_by, ambiguous, CreditCall, World, Run, Job, finish, fail, ◌>>=◌,
  ◌>>◌, run_in_transaction, get_player_balance, credit_player, extend_lock, ensure_linked,
  under_lock,
}
use Finish.{
  SkipReason, CreditOutcome, skipped, deposit_not_found, stale_epoch, already_credited,
  not_creditable, reported, finish_credited, finish_failed, finish_needs_reconciliation,
  handle_rejection,
}

-- `amountMinor` travels as a decimal string; here it is the integer that the string denotes.
pub record CreditTask : Type 0 where
  pub deposit_request_id : Text
  pub credit_key_epoch : ℕ
  pub amount_minor : ℤ

-- What `verifyByDelta` measured: did the credit land, and the balance, where it could be read.
pub record Verdict : Type 0 where
  pub landed : Bool
  pub balance_minor : Option ℤ

abbrev pub covers : ℤ → ℤ → ℤ → Bool
covers b0 b1 amount = leb_ℤ amount (b1 -ℤ b0)

measured : World → Env → Deposit → ℤ → ℤ → IchancyResult ℤ → Job Verdict
measured world env deposit b0 amount (answered b1) = do
  record_after_balance world env deposit b1
  finish (record { landed = covers b0 b1 amount; balance_minor = some b1 })
measured world env deposit b0 amount _ = finish (record { landed = false; balance_minor = none })

-- The lock must still be held for the measure to mean anything.
check_lock : Bool → Job (Unit {0})
check_lock still_ours = if still_ours then finish tt else fail credit_retry_later

-- `verifyByDelta`; the waits before it only pass time.
unfoldable pub verify_by_delta : World → Env → Deposit → ℤ → ℤ → Job Verdict
unfolding measured check_lock
verify_by_delta world env deposit b0 amount = do
  still_ours ← extend_lock world
  check_lock still_ours
  after ← get_player_balance world
  measured world env deposit b0 amount after

abbrev pub credit_call : Text → Deposit → ℤ → CreditCall
credit_call link deposit amount = record {
  ichancy_player_id = link;
  amount_minor = amount;
  comment = deposit.short_id;
}

-- After the second measure: landed, or a case for a human.
unfoldable pub settle_second : World → Env → Deposit → ℤ → ℤ → Text → Verdict → Job CreditOutcome
settle_second world env deposit amount b0 cause v =
    if v.landed
    then finish_credited world env deposit amount balance_delta b0 v.balance_minor
    else finish_needs_reconciliation world env deposit (reported cause) amount b0 v.balance_minor

-- What follows the answer to the second POST.
unfoldable pub after_second :
    World → Env → Deposit → ℤ → ℤ → IchancyResult (Unit {0}) → Job CreditOutcome
after_second world env deposit amount b0 (answered done) =
    finish_credited world env deposit amount api_ok b0 none
after_second world env deposit amount b0 (rejected_by code) =
    handle_rejection world env deposit code
after_second world env deposit amount b0 (ambiguous cause) = do
  verdict ← verify_by_delta world env deposit b0 amount
  settle_second world env deposit amount b0 cause verdict

-- The only retry.
unfoldable pub retry_once : World → Env → Text → Deposit → ℤ → ℤ → Job CreditOutcome
retry_once world env link deposit amount b0 = do
  bump_attempts world env deposit
  second ← credit_player world (credit_call link deposit amount)
  after_second world env deposit amount b0 second

unfoldable pub settle_first : World → Env → Text → Deposit → ℤ → ℤ → Verdict → Job CreditOutcome
settle_first world env link deposit amount b0 v =
    if v.landed
    then finish_credited world env deposit amount balance_delta b0 v.balance_minor
    else retry_once world env link deposit amount b0

-- What follows the answer to the first POST.
unfoldable pub after_first :
    World → Env → Text → Deposit → ℤ → ℤ → IchancyResult (Unit {0}) → Job CreditOutcome
after_first world env link deposit amount b0 (answered done) =
    finish_credited world env deposit amount api_ok b0 none
after_first world env link deposit amount b0 (rejected_by code) =
    handle_rejection world env deposit code
after_first world env link deposit amount b0 (ambiguous cause) = do
  verdict ← verify_by_delta world env deposit b0 amount
  settle_first world env link deposit amount b0 verdict

-- From the baseline on: no baseline, no money.
unfoldable pub with_baseline :
    World → Env → Text → Deposit → ℤ → IchancyResult ℤ → Job CreditOutcome
with_baseline world env link deposit amount (answered b0) = do
  record_baseline world env deposit b0
  first ← credit_player world (credit_call link deposit amount)
  after_first world env link deposit amount b0 first
with_baseline world env link deposit amount _ = fail credit_retry_later

unfoldable pub taken_input : Deposit → TransitionInput
taken_input deposit = record {
  deposit_request_id = deposit.id;
  from = approved ∷ [];
  to = crediting;
  actor = system_actor;
  patch = [];
  guard = no_guard;
}

-- From the player's account on.
unfoldable pub with_link : World → Env → Deposit → ℤ → Text → Job CreditOutcome
unfolding taken_input
with_link world env accepted amount link = do
  moved ← run_in_transaction world (try_transition env (taken_input accepted))
  bump_attempts world env (or_else moved accepted)
  before ← get_player_balance world
  with_baseline world env link (or_else moved accepted) amount before

unfoldable pub unless_short : World → Env → Deposit → ℤ → Option ℤ → Job CreditOutcome
unless_short world env accepted amount (some shortfall) =
    finish_failed world env accepted (text "AGENT_FLOAT_INSUFFICIENT") true
unless_short world env accepted amount none =
    ensure_linked world >>= with_link world env accepted amount

-- `creditUnderLock`.
unfoldable pub credit_under_lock : World → Env → Deposit → ℤ → Job CreditOutcome
credit_under_lock world env accepted amount = do
  shortfall ← run_in_transaction world (float_shortfall env accepted.currency_code amount)
  unless_short world env accepted amount shortfall

abbrev pub is_creditable : DepositStatus → Bool
is_creditable s = elim s [ approved ↦ true | crediting ↦ true | _ ↦ false ]

-- The guards of `credit` over the row that it found: why the job has nothing to do, if so.
unfoldable pub skip_reason : CreditTask → Deposit → Option SkipReason
skip_reason task d =
    if d.credit_key_epoch == task.credit_key_epoch
    then (if status_eq d.status credited
        then some already_credited
        else if is_creditable d.status
        then none
        else some (not_creditable d.status))
    else some stale_epoch

-- `runWithTenant` puts the row's operator in context.
unfoldable pub credit_unless :
    World → Env → CreditTask → Deposit → Option SkipReason → Job CreditOutcome
credit_unless world env task d (some reason) = finish (skipped reason)
credit_unless world env task d none =
    under_lock world
      (credit_under_lock world (record env { tenant = some d.tenant_id }) d task.amount_minor)

unfoldable pub credit_found : World → Env → CreditTask → Option Deposit → Job CreditOutcome
credit_found world env task none = finish (skipped deposit_not_found)
credit_found world env task (some d) = credit_unless world env task d (skip_reason task d)

unfoldable pub find_deposit : CreditTask → Tx (Option Deposit)
find_deposit task db =
    ok (find (λ (d : Deposit). text_eq d.id task.deposit_request_id) db.deposits, db)

-- `credit`.
unfoldable pub credit : World → Env → CreditTask → Job CreditOutcome
unfolding find_deposit
credit world env task = run_in_transaction world (find_deposit task) >>= credit_found world env task
