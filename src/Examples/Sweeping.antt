-- ===== src/Examples/Sweeping.antt =====
-- The theorems on the sweep and on the re-run of a credit at one deposit.
use telegram_mini_app.Prelude.{true, false, [], ◌∷◌, some, is_some, find, ◌≡◌, refl}
use telegram_mini_app.Prelude.Integers.{pos}
use telegram_mini_app.Prelude.Text.{Text, text_eq}
use telegram_mini_app.Types.{
  crediting, credit_failed, needs_reconciliation, super_admin, finance_admin, status_in, ok,
}
use telegram_mini_app.Db.{
  Db, is_deposit, require_effective_tenant_id, find_by_id_in_tenant, write_audit, generate_id,
}
use telegram_mini_app.Db.Rows.{Deposit}
use telegram_mini_app.Deposit.Sweep.{run_once}
use telegram_mini_app.Deposit.Sweep.Frame.{IsSweep}
use telegram_mini_app.Deposit.Sweep.Money.{run_once-IsSweep}
use telegram_mini_app.Admin.Authority.{AuthenticatedAdmin, holds_any_role}
use telegram_mini_app.Deposit.Retry.{
  Requeued, requeue_credit, requeue_amount, requeue_input, requeued_with,
}
use telegram_mini_app.Deposit.Retry.Epoch.{Rerun, requeue_credit_won}
use telegram_mini_app.Deposit.Review.{require_deposit}
use telegram_mini_app.Deposit.StateMachine.{transition}
use telegram_mini_app.Deposit.StateMachine.Patch.{apply_patch}
use telegram_mini_app.Outbox.{enqueue}
use telegram_mini_app.Examples.{env, operator, deposit_in, db_with, returned_or}

run_once-IsSweep_example : IsSweep (db_with crediting) (run_once env (db_with crediting)).1
run_once-IsSweep_example = run_once-IsSweep env (db_with crediting)

abbrev manager : AuthenticatedAdmin
manager = record { admin_user_id = 4 ∷ []; role = finance_admin; tenant_id = operator }

abbrev failed_deposit : Deposit
failed_deposit = record (deposit_in credit_failed) { credited_amount_minor = some (pos 10000) }

abbrev failed_db : Db
failed_db = record (db_with credit_failed) { deposits = failed_deposit ∷ [] }

abbrev answer : Requeued × Db
answer =
    returned_or (record { requeued = false; epoch = 0 }, failed_db)
      (requeue_credit env (1 ∷ []) manager failed_db)

requeued_run : requeue_credit env (1 ∷ []) manager failed_db ≡ ok answer
unfolding requeue_credit holds_any_role require_deposit require_effective_tenant_id
    find_by_id_in_tenant text_eq requeue_amount transition requeue_input apply_patch requeued_with
    write_audit enqueue generate_id
requeued_run = refl

requeued_yes : answer.0.requeued ≡ true
unfolding requeue_credit holds_any_role require_deposit require_effective_tenant_id
    find_by_id_in_tenant text_eq requeue_amount transition requeue_input apply_patch requeued_with
    write_audit enqueue generate_id
requeued_yes = refl

requeue_credit_won_example :
    (tenant : Text) × (d : Deposit) × (env.tenant ≡ some tenant)
    × (find (is_deposit tenant (1 ∷ [])) failed_db.deposits ≡ some d)
    × (holds_any_role manager (super_admin ∷ finance_admin ∷ []) ≡ true)
    × (status_in d.status (credit_failed ∷ needs_reconciliation ∷ []) ≡ true)
    × (is_some d.credited_amount_minor ≡ true)
    × Rerun tenant d failed_db answer.0 answer.1
requeue_credit_won_example =
    requeue_credit_won env (1 ∷ []) manager failed_db (refl, tt) requeued_run requeued_yes
