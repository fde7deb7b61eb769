-- ===== src/Deposit/Retry.antt =====
-- Running a failed credit again: src/modules/deposit/services/deposit-retry.service.ts. The reason that
-- is shown to people is left out.
pub mod Epoch
use telegram_mini_app.Prelude.{
  ℕ, suc, ◌+◌, Bool, true, false, ◌||◌, List, [], ◌∷◌, ◌++◌, Option, none, some,
}
use telegram_mini_app.Prelude.Integers.{ℤ}
use telegram_mini_app.Prelude.Text.{Text, text}
use telegram_mini_app.Prelude.Decimal.{decimal}
use telegram_mini_app.Types.{
  AdminRole, super_admin, finance_admin, credit_failed, needs_reconciliation, approved, status_eq,
  admin_actor, forbidden, business_rule, admin_no_approval_limit, deposit_invalid_state,
  verified_amount_required,
}
use telegram_mini_app.Db.{Env, Tx, pure, throw, require, ◌>>=◌, ◌>>◌, write_audit}
use telegram_mini_app.Db.Rows.{Deposit, credit_requested}
use telegram_mini_app.Deposit.StateMachine.{
  TransitionInput, TransitionOutcome, transitioned, already_handled, no_guard, transition,
}
use telegram_mini_app.Deposit.StateMachine.Patch.{
  credit_key_epoch, balance_before_minor, balance_after_minor, credit_verified_by,
}
use telegram_mini_app.Deposit.Credit.Keys.{outbox_input}
use telegram_mini_app.Deposit.Review.{require_deposit}
use telegram_mini_app.Outbox.{enqueue}
use telegram_mini_app.Admin.Authority.{AuthenticatedAdmin, holds_any_role}

pub record Requeued : Type 0 where
  pub requeued : Bool
  pub epoch : ℕ

abbrev pub allowed_roles : List AdminRole
allowed_roles = super_admin ∷ (finance_admin ∷ [])

abbrev pub is_requeueable : Deposit → Bool
is_requeueable d = status_eq d.status credit_failed || status_eq d.status needs_reconciliation

unfoldable pub requeue_input : Deposit → AuthenticatedAdmin → TransitionInput
requeue_input before admin = record {
  deposit_request_id = before.id;
  from = credit_failed ∷ (needs_reconciliation ∷ []);
  to = approved;
  actor = admin_actor admin.admin_user_id;
  patch =
      credit_key_epoch (before.credit_key_epoch + 1)
      ∷ (balance_before_minor none ∷ (balance_after_minor none ∷ (credit_verified_by none ∷ [])));
  guard = no_guard;
}

-- What follows the transition.
unfoldable pub requeued_with :
    Env → Deposit → AuthenticatedAdmin → ℤ → TransitionOutcome → Tx Requeued
requeued_with env before admin amount (already_handled current reason) =
    pure (record { requeued = false; epoch = before.credit_key_epoch })
requeued_with env before admin amount (transitioned d from) = do
  write_audit env (text "deposit.credit.requeue") (admin_actor admin.admin_user_id) before.id
      (some amount)
  enqueue env (
      outbox_input before (text "deposit.credit_requested")
        (credit_requested before.id before.short_id before.player_id (before.credit_key_epoch + 1)
          amount)
        (text "deposit.credit_requested:"
          ++ (before.id ++ (text ":" ++ decimal (before.credit_key_epoch + 1)))))
  pure (record { requeued = true; epoch = before.credit_key_epoch + 1 })

unfoldable pub requeue_amount : Env → Deposit → AuthenticatedAdmin → Option ℤ → Tx Requeued
requeue_amount env before admin none = throw (business_rule verified_amount_required)
requeue_amount env before admin (some amount) = do
  outcome ← transition env (requeue_input before admin)
  requeued_with env before admin amount outcome

unfoldable pub requeue_credit : Env → Text → AuthenticatedAdmin → Tx Requeued
requeue_credit env id admin = do
  require (holds_any_role admin allowed_roles) (forbidden admin_no_approval_limit)
  before ← require_deposit env id
  require (is_requeueable before) (business_rule deposit_invalid_state)
  requeue_amount env before admin before.credited_amount_minor
