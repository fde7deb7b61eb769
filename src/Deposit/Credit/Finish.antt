-- ===== src/Deposit/Credit/Finish.antt =====
-- The terminal states of a credit (`finishCredited`, `handleRejection`, `finishFailed` and
-- `finishNeedsReconciliation` of src/modules/deposit/services/deposit-credit.service.ts).
use telegram_mini_app.Prelude.{
  Bool, true, false, List, [], ◌∷◌, ◌++◌, Option, none, some, or_else, if◌then◌else◌,
}
use telegram_mini_app.Prelude.Integers.{ℤ}
use telegram_mini_app.Prelude.Text.{Text, text, text_eq}
use telegram_mini_app.Types.{
  DepositStatus, approved, crediting, credited, credit_failed, needs_reconciliation,
  CreditVerifiedBy, system_actor, LedgerErrorCode, ledger_error, Result, ok, err,
}
use telegram_mini_app.Db.{Env, Tx, pure, ◌>>=◌, ◌>>◌, update_deposit, write_audit}
use telegram_mini_app.Db.Rows.{Deposit, card_update, notify_player, alert, ops_card}
use telegram_mini_app.Deposit.StateMachine.{
  TransitionInput, TransitionOutcome, transitioned, already_handled, no_guard, transition,
}
use telegram_mini_app.Deposit.StateMachine.Patch.{
  PatchField, balance_before_minor, balance_after_minor, credited_at, credit_verified_by,
}
use telegram_mini_app.Ledger.Posting.{Posting}
use telegram_mini_app.Ledger.Repository.{post}
use telegram_mini_app.Ledger.Repository.Accounts.{lift}
use telegram_mini_app.Ledger.Rules.{ichancy_credited}
use telegram_mini_app.Outbox.{enqueue, enqueue_many}
use telegram_mini_app.Deposit.Credit.Keys.{dedupe_key, outbox_input}
use telegram_mini_app.Deposit.Credit.Effects.{World, Run, Job, run_in_transaction}

-- Why a job did nothing. `already none` is `ALREADY_GONE`.
pub data SkipReason : Type 0 where
  deposit_not_found stale_epoch already_credited : SkipReason
  not_creditable : DepositStatus → SkipReason
  already : Option DepositStatus → SkipReason

-- Why a human must look. `ledger_refused c` is `LEDGER_REFUSED_T2:c`.
pub data Cause : Type 0 where
  reported : Text → Cause
  ledger_refused : LedgerErrorCode → Cause

pub data CreditOutcome : Type 0 where
  credited_with : CreditVerifiedBy → Text → CreditOutcome
  failed_with : Text → CreditOutcome
  unresolved : Cause → CreditOutcome
  skipped : SkipReason → CreditOutcome

-- The balance after the credit, which is patched only where it was read.
abbrev after_patch : Option ℤ → List PatchField
after_patch none = []
after_patch (some b1) = balance_after_minor (some b1) ∷ []

-- T2 of a deposit.
unfoldable pub credit_posting : Env → Deposit → ℤ → Result Posting
credit_posting env deposit amount = ichancy_credited (record {
  deposit_id = deposit.id;
  short_id = deposit.short_id;
  player_id = deposit.player_id;
  amount_minor = amount;
  currency = deposit.currency_code;
  actor = system_actor;
  occurred_at = some env.now;
})

-- What follows T2 in its transaction: its reference, the trail, the messages.
unfoldable pub announce_credit : Env → Deposit → ℤ → Text → Tx (Unit {0})
announce_credit env deposit amount tx_id = do
  update_deposit env deposit.tenant_id deposit.id
      (λ d. record d { ledger_credit_tx_id = some tx_id })
  write_audit env (text "deposit.credited") system_actor deposit.id (some amount)
  enqueue env (
      outbox_input deposit (text "deposit.notify_player")
        (notify_player deposit.id deposit.player_id (text "deposit.credited"))
        (dedupe_key (text "deposit.notify_player") deposit (text ":deposit.credited:")))
  enqueue env (
      outbox_input deposit (text "deposit.card_update") (card_update deposit.id (text "credited"))
        (dedupe_key (text "deposit.card_update") deposit (text ":credited:")))
  enqueue env (
      outbox_input deposit (text "deposit.ops_card") (ops_card deposit.id tx_id)
        (text "deposit.ops_card:" ++ deposit.id))

unfoldable pub record_credit : Env → Deposit → ℤ → CreditVerifiedBy → Tx CreditOutcome
record_credit env deposit amount verified_by = do
  posting ← lift (credit_posting env deposit amount)
  posted ← post env posting
  announce_credit env deposit amount posted.transaction_id
  pure (credited_with verified_by posted.transaction_id)

abbrev pub credited_input : Env → Deposit → CreditVerifiedBy → ℤ → Option ℤ → TransitionInput
credited_input env deposit verified_by b0 b1 = record {
  deposit_request_id = deposit.id;
  from = crediting ∷ [];
  to = credited;
  actor = system_actor;
  patch =
      credited_at (some env.now)
      ∷ (credit_verified_by (some verified_by) ∷ (balance_before_minor (some b0) ∷ after_patch b1));
  guard = no_guard;
}

unfoldable pub credit_moved :
    Env → Deposit → ℤ → CreditVerifiedBy → TransitionOutcome → Tx CreditOutcome
credit_moved env deposit amount verified_by (already_handled current reason) =
    pure (skipped (already current))
credit_moved env deposit amount verified_by (transitioned d from) =
    record_credit env deposit amount verified_by

-- The transaction of `finishCredited`.
unfoldable pub credited_transaction :
    Env → Deposit → ℤ → CreditVerifiedBy → ℤ → Option ℤ → Tx CreditOutcome
credited_transaction env deposit amount verified_by b0 b1 = do
  outcome ← transition env (credited_input env deposit verified_by b0 b1)
  credit_moved env deposit amount verified_by outcome

abbrev pub unresolved_input : Deposit → ℤ → Option ℤ → TransitionInput
unresolved_input deposit b0 b1 = record {
  deposit_request_id = deposit.id;
  from = crediting ∷ [];
  to = needs_reconciliation;
  actor = system_actor;
  patch = balance_before_minor (some b0) ∷ after_patch b1;
  guard = no_guard;
}

report_unresolved : Env → Deposit → ℤ → TransitionOutcome → Tx (Unit {0})
report_unresolved env deposit amount (already_handled current reason) = pure tt
report_unresolved env deposit amount (transitioned d from) = do
  write_audit env (text "deposit.credit.unresolved") system_actor deposit.id (some amount)
  enqueue_many env (
      outbox_input deposit (text "deposit.alert")
        (alert deposit.id deposit.short_id (text "CREDIT_UNRESOLVED"))
        (dedupe_key (text "deposit.alert") deposit (text ":unresolved:"))
      ∷ (outbox_input deposit (text "deposit.card_update")
            (card_update deposit.id (text "needs-reconciliation"))
            (dedupe_key (text "deposit.card_update") deposit (text ":unresolved:"))
          ∷ []))
  pure tt

unfoldable pub unresolved_transaction : Env → Deposit → ℤ → ℤ → Option ℤ → Tx (Unit {0})
unfolding report_unresolved
unresolved_transaction env deposit amount b0 b1 = do
  outcome ← transition env (unresolved_input deposit b0 b1)
  report_unresolved env deposit amount outcome

abbrev pub unresolved_of : Cause → Result (Unit {0}) × Run → Result CreditOutcome × Run
unresolved_of cause (ok done, r) = (ok (unresolved cause), r)
unresolved_of cause (err e, r) = (err e, r)

-- `finishNeedsReconciliation`.
unfoldable pub finish_needs_reconciliation :
    World → Env → Deposit → Cause → ℤ → ℤ → Option ℤ → Job CreditOutcome
finish_needs_reconciliation world env deposit cause amount b0 b1 r =
    unresolved_of cause
      (run_in_transaction world (unresolved_transaction env deposit amount b0 b1) r)

-- The `catch` of `finishCredited`: only what the ledger refused is turned into a case for a human.
abbrev pub catch_ledger :
    World
    → Env
    → Deposit
    → ℤ
    → ℤ
    → Option ℤ
    → Result CreditOutcome × Run
    → Result CreditOutcome × Run
catch_ledger world env deposit amount b0 b1 (err (ledger_error c), r) =
    finish_needs_reconciliation world env deposit (ledger_refused c) amount b0 b1 r
catch_ledger world env deposit amount b0 b1 (o, r) = (o, r)

-- `finishCredited`.
unfoldable pub finish_credited :
    World → Env → Deposit → ℤ → CreditVerifiedBy → ℤ → Option ℤ → Job CreditOutcome
finish_credited world env deposit amount verified_by b0 b1 r =
    catch_ledger world env deposit amount b0 b1
      (run_in_transaction world (credited_transaction env deposit amount verified_by b0 b1) r)

abbrev pub failed_input : Deposit → TransitionInput
failed_input deposit = record {
  deposit_request_id = deposit.id;
  from = crediting ∷ (approved ∷ []);
  to = credit_failed;
  actor = system_actor;
  patch = [];
  guard = no_guard;
}

-- The alert of a failure that asks for one.
raise_alert : Env → Deposit → Text → Bool → Tx (Unit {0})
raise_alert env deposit code false = pure tt
raise_alert env deposit code true = enqueue env (
    outbox_input deposit (text "deposit.alert") (alert deposit.id deposit.short_id code)
      (dedupe_key (text "deposit.alert") deposit (text ":" ++ (code ++ text ":"))))

report_failed : Env → Deposit → Text → Bool → TransitionOutcome → Tx (Unit {0})
unfolding raise_alert
report_failed env deposit code alarm (already_handled current reason) = pure tt
report_failed env deposit code alarm (transitioned d from) = do
  write_audit env (text "deposit.credit.failed") system_actor deposit.id
      (some (or_else deposit.credited_amount_minor deposit.claimed_amount_minor))
  enqueue env (
      outbox_input deposit (text "deposit.notify_player")
        (notify_player deposit.id deposit.player_id (text "deposit.credit_failed"))
        (dedupe_key (text "deposit.notify_player") deposit (text ":deposit.credit_failed:")))
  enqueue env (
      outbox_input deposit (text "deposit.card_update")
        (card_update deposit.id (text "credit-failed"))
        (dedupe_key (text "deposit.card_update") deposit (text ":credit-failed:")))
  raise_alert env deposit code alarm

unfoldable pub failed_transaction : Env → Deposit → Text → Bool → Tx (Unit {0})
unfolding report_failed
failed_transaction env deposit code alarm = do
  outcome ← transition env (failed_input deposit)
  report_failed env deposit code alarm outcome

abbrev pub failed_of : Text → Result (Unit {0}) × Run → Result CreditOutcome × Run
failed_of code (ok done, r) = (ok (failed_with code), r)
failed_of code (err e, r) = (err e, r)

-- `finishFailed`.
unfoldable pub finish_failed : World → Env → Deposit → Text → Bool → Job CreditOutcome
finish_failed world env deposit code alarm r =
    failed_of code (run_in_transaction world (failed_transaction env deposit code alarm) r)

-- `handleRejection`.
unfoldable pub handle_rejection : World → Env → Deposit → Text → Job CreditOutcome
handle_rejection world env deposit code =
    let float_empty = text_eq code (text "INSUFFICIENT_AGENT_FLOAT") in
    finish_failed world env deposit (if float_empty then text "AGENT_FLOAT_INSUFFICIENT" else code)
      float_empty
