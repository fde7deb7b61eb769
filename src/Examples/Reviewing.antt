-- ===== src/Examples/Reviewing.antt =====
-- The theorems on approvals at one deposit that waits for its second approval.
use telegram_mini_app.Prelude.{true, false, [], ◌∷◌, none, some, or_else, find, ◌≡◌, ◌≢◌, refl}
use telegram_mini_app.Prelude.Integers.{pos, ◌+ℤ◌, ◌-ℤ◌, ◌≤ℤ◌, ◌<ℤ◌, neg_ℤ}
use telegram_mini_app.Prelude.Text.{Text, text, text_eq, text_lt}
use telegram_mini_app.Types.{pending_second_approval, status_eq, reviewer, ok}
use telegram_mini_app.Db.{
  Db, is_deposit, require_effective_tenant_id, generate_id, find_by_id_in_tenant, update_deposit,
  write_audit,
}
use telegram_mini_app.Db.Rows.{Deposit, ApprovalLimit}
use telegram_mini_app.Deposit.Review.{
  ReviewOutcome, approved_as, review_handled, ApproveInput, assert_can_decide, require_deposit,
  evaluate_authority,
}
use telegram_mini_app.Deposit.Review.Approval.{
  approve, verified_of, other_decider, approve_decided, finalize_approval, announce_approval,
  approval_guard, approval_input, claim_posting, settle_approval,
}
use telegram_mini_app.Deposit.Review.FourEyes.{approve_four_eyes}
use telegram_mini_app.Admin.Authority.{AuthenticatedAdmin, holds_any_role, is_platform_staff}
use telegram_mini_app.Admin.Limits.{
  allowed, needs_second, denied, approver_roles, evaluate, find_effective, daily_approved_minor,
  by_limit, within_limit,
}
use telegram_mini_app.Admin.Ceilings.{evaluate-bounds}
use telegram_mini_app.Prelude.Decimal.{decimal}
use telegram_mini_app.Deposit.Credit.Keys.{dedupe_key, outbox_input}
use telegram_mini_app.Deposit.StateMachine.Patch.{apply_patch}
use telegram_mini_app.Deposit.StateMachine.{transition}
use telegram_mini_app.Ledger.AccountCodes.{kind_name, parse_account_code, scoped_code}
use telegram_mini_app.Ledger.Repository.Accounts.{resolve_many_or_create, sorted_unique}
use telegram_mini_app.Ledger.Repository.{assert_first, post}
use telegram_mini_app.Ledger.Rules.{deposit_approved}
use telegram_mini_app.Ledger.Validation.{assert_valid_posting}
use telegram_mini_app.Outbox.{enqueue_many}
use telegram_mini_app.Uuid.{is_uuid}
use telegram_mini_app.Examples.{env, operator, deposit_in, db_with, returned_or}

abbrev second_admin : AuthenticatedAdmin
second_admin = record { admin_user_id = 4 ∷ []; role = reviewer; tenant_id = operator }

abbrev limit : ApprovalLimit
limit = record {
  id = 81 ∷ [];
  tenant_id = operator;
  admin_user_id = 4 ∷ [];
  currency_code = text "NSP";
  max_single_approval_minor = pos 20000;
  max_daily_approval_minor = pos 30000;
  second_approval_above_minor = none;
  effective_from = 10;
  effective_to = none;
}

abbrev waiting : Db
waiting = record (db_with pending_second_approval) {
  deposits =
      record (deposit_in pending_second_approval) {
        decided_by_admin_id = some (3 ∷ []);
        decided_at = some 600;
      }
      ∷ [];
  limits = limit ∷ [];
}

abbrev input : ApproveInput
input = record { deposit_request_id = 1 ∷ []; admin = second_admin; verified_amount_minor = none }

asks_second : evaluate env operator second_admin (pos 10000) (text "NSP") waiting ≡ needs_second
unfolding evaluate text holds_any_role is_platform_staff by_limit find_effective text_eq
    within_limit ◌+ℤ◌ daily_approved_minor
asks_second = refl

not_denied : evaluate env operator second_admin (pos 10000) (text "NSP") waiting ≢ denied
not_denied e = absurd (cc (asks_second, e))

no_staff : is_platform_staff second_admin ≡ false
unfolding is_platform_staff
no_staff = refl

evaluate-bounds_example :
    (pos 0 <ℤ pos 10000)
    × (holds_any_role second_admin approver_roles ≡ true)
    × ((l : ApprovalLimit) × (find_effective operator (4 ∷ []) (text "NSP") 1000 waiting ≡ some l)
        × (pos 10000 ≤ℤ l.max_single_approval_minor)
        × (daily_approved_minor operator (4 ∷ []) (text "NSP") 1000 waiting +ℤ pos 10000
            ≤ℤ l.max_daily_approval_minor)
        × (evaluate env operator second_admin (pos 10000) (text "NSP") waiting ≡ allowed
            → pos 10000 ≤ℤ or_else l.second_approval_above_minor (pos 5000)))
evaluate-bounds_example =
    evaluate-bounds env operator second_admin (pos 10000) (text "NSP") waiting no_staff not_denied

abbrev result : ReviewOutcome × Db
result = returned_or (review_handled none, waiting) (approve env input waiting)

approved_run : approve env input waiting ≡ ok (approved_as (99 ∷ (2 ∷ [])), result.1)
unfolding approve assert_first text assert_can_decide holds_any_role require_deposit
    require_effective_tenant_id find_by_id_in_tenant text_eq evaluate_authority evaluate
    is_platform_staff by_limit find_effective within_limit ◌+ℤ◌ daily_approved_minor approve_decided
    finalize_approval ◌-ℤ◌ generate_id update_deposit write_audit decimal dedupe_key outbox_input
    announce_approval approval_guard approval_input claim_posting other_decider settle_approval
    apply_patch transition kind_name parse_account_code scoped_code resolve_many_or_create
    sorted_unique post deposit_approved assert_valid_posting enqueue_many neg_ℤ text_lt is_uuid
approved_run = refl

approve_four_eyes_example :
    (tenant : Text) × (d : Deposit) × (env.tenant ≡ some tenant)
    × (find (is_deposit tenant (1 ∷ [])) waiting.deposits ≡ some d)
    × (evaluate env tenant second_admin (verified_of input d) d.currency_code waiting ≢ denied)
    × (evaluate env tenant second_admin (verified_of input d) d.currency_code waiting ≡ needs_second
        → (status_eq d.status pending_second_approval ≡ true) × (other_decider (4 ∷ []) d ≡ true))
approve_four_eyes_example = approve_four_eyes env input waiting (refl, tt) approved_run
