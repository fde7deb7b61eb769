-- ===== src/Deposit/Review.antt =====
-- The decisions of an admin on a deposit: src/modules/deposit/services/deposit-review.service.ts.
pub mod Approval
pub mod FourEyes
use telegram_mini_app.Prelude.{
  ℕ, Bool, true, false, not, ◌&&◌, ◌||◌, ◌-◌, ◌*◌, List, [], ◌∷◌, ◌++◌, Option, none, some, or_else,
  ltb, if◌then◌else◌,
}
use telegram_mini_app.Prelude.Integers.{ℤ, pos, ◌-ℤ◌, leb_ℤ}
use telegram_mini_app.Prelude.Text.{Text, text, is_text}
use telegram_mini_app.Types.{
  DepositStatus, submitted, under_review, pending_second_approval, approved, rejected, status_eq,
  RejectionCode, Actor, admin_actor, system_actor, forbidden, not_found, business_rule,
  deposit_not_found, admin_limit_exceeded, admin_no_approval_limit, second_approver_must_differ,
  deposit_claimed_by_other, verified_amount_required, Result,
}
use telegram_mini_app.Db.{
  Db, Env, Tx, pure, throw, require, ◌>>=◌, ◌>>◌, require_effective_tenant_id, find_by_id_in_tenant,
  update_deposit, write_audit,
}
use telegram_mini_app.Db.Rows.{Deposit, credit_requested, card_update, notify_player}
use telegram_mini_app.Deposit.StateMachine.{
  TransitionInput, TransitionOutcome, transitioned, already_handled, AlreadyHandledReason,
  not_found_reason, status_mismatch, guard_failed, no_guard, reviewable_statuses, transition,
}
use telegram_mini_app.Deposit.StateMachine.Patch.{
  PatchField, verified_amount_minor, review_started_at, decided_at, second_approved_at,
  decided_by_admin_id, second_approver_admin_id, rejection_code,
}
use telegram_mini_app.Deposit.Credit.Keys.{outbox_input, dedupe_key}
use telegram_mini_app.Ledger.Posting.{Posting}
use telegram_mini_app.Ledger.Repository.{post}
use telegram_mini_app.Ledger.Repository.Accounts.{lift}
use telegram_mini_app.Ledger.Rules.{DepositApprovedInput, deposit_approved}
use telegram_mini_app.Outbox.{enqueue, enqueue_many}
use telegram_mini_app.Admin.Authority.{AuthenticatedAdmin, holds_any_role}
use telegram_mini_app.Admin.Limits.{
  ApprovalDecision, allowed, needs_second, denied, approver_roles, evaluate,
}

pub data ReviewOutcome : Type 0 where
  approved_as : Text → ReviewOutcome
  awaiting_second_approval rejected_as claimed_as released_as : Deposit → ReviewOutcome
  review_handled : Option DepositStatus → ReviewOutcome

pub record ApproveInput : Type 0 where
  pub deposit_request_id : Text
  pub admin : AuthenticatedAdmin
  pub verified_amount_minor : Option ℤ

-- `assertCanDecide`; the two role lists are the same three roles.
unfoldable pub assert_can_decide : AuthenticatedAdmin → Tx (Unit {0})
assert_can_decide admin =
    require (holds_any_role admin approver_roles) (forbidden admin_no_approval_limit)

found_deposit : Option Deposit → Tx Deposit
found_deposit none = throw (not_found deposit_not_found)
found_deposit (some d) = pure d

unfoldable pub require_deposit : Env → Text → Tx Deposit
unfolding found_deposit
require_deposit env id = do
  tenant ← require_effective_tenant_id env
  found ← find_by_id_in_tenant tenant id
  found_deposit found

authority_of : ApprovalDecision → Tx ApprovalDecision
authority_of denied = throw (forbidden admin_limit_exceeded)
authority_of decision = pure decision

-- `evaluateAuthority`: a denial is thrown.
unfoldable pub evaluate_authority : Env → ApproveInput → ℤ → Text → Tx ApprovalDecision
unfolding authority_of
evaluate_authority env input amount currency = do
  tenant ← require_effective_tenant_id env
  λ db. authority_of (evaluate env tenant input.admin amount currency db) db

-- `reviewStartedAt` is NULL, or this admin holds the claim, or the claim is stale.
stale : Option ℕ → ℕ → Bool
stale none now = true
stale (some t) now = ltb t (now - 10 * 60000)

unfoldable pub claim_input : Env → Text → AuthenticatedAdmin → TransitionInput
unfolding stale
claim_input env id admin = record {
  deposit_request_id = id;
  from = submitted ∷ (under_review ∷ []);
  to = under_review;
  actor = admin_actor admin.admin_user_id;
  patch = review_started_at (some env.now) ∷ (decided_by_admin_id (some admin.admin_user_id) ∷ []);
  guard =
      λ d. is_text d.decided_by_admin_id admin.admin_user_id || stale d.review_started_at env.now;
}

claimed : Env → Text → AuthenticatedAdmin → TransitionOutcome → Tx ReviewOutcome
claimed env id admin (already_handled current not_found_reason) =
    throw (not_found deposit_not_found)
claimed env id admin (already_handled current guard_failed) =
    throw (business_rule deposit_claimed_by_other)
claimed env id admin (already_handled current status_mismatch) = pure (review_handled current)
claimed env id admin (transitioned d from) = do
  write_audit env (text "deposit.claim") (admin_actor admin.admin_user_id) id none
  pure (claimed_as d)

unfoldable pub claim : Env → Text → AuthenticatedAdmin → Tx ReviewOutcome
unfolding claimed
claim env id admin = do
  assert_can_decide admin
  outcome ← transition env (claim_input env id admin)
  claimed env id admin outcome

release_actor : Option AuthenticatedAdmin → Actor
release_actor none = system_actor
release_actor (some admin) = admin_actor admin.admin_user_id

release_guard : Option AuthenticatedAdmin → Deposit → Bool
release_guard none d = true
release_guard (some admin) d = is_text d.decided_by_admin_id admin.admin_user_id

unfoldable pub release_input : Text → Option AuthenticatedAdmin → TransitionInput
unfolding release_actor release_guard
release_input id admin = record {
  deposit_request_id = id;
  from = under_review ∷ [];
  to = submitted;
  actor = release_actor admin;
  patch = review_started_at none ∷ (decided_by_admin_id none ∷ []);
  guard = release_guard admin;
}

released : TransitionOutcome → Tx ReviewOutcome
released (already_handled current not_found_reason) = throw (not_found deposit_not_found)
released (already_handled current _) = pure (review_handled current)
released (transitioned d from) = pure (released_as d)

unfoldable pub release : Env → Text → Option AuthenticatedAdmin → Tx ReviewOutcome
unfolding released
release env id admin = do outcome ← transition env (release_input id admin); released outcome
