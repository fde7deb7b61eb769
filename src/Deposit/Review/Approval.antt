-- ===== src/Deposit/Review/Approval.antt =====
-- `reject` and `approve` of src/modules/deposit/services/deposit-review.service.ts. The warning on a low
-- float only logs and is left out.
use telegram_mini_app.Prelude.{
  Bool, true, false, not, ◌&&◌, List, [], ◌∷◌, ◌++◌, Option, none, some, or_else, if◌then◌else◌,
}
use telegram_mini_app.Prelude.Integers.{ℤ, pos, ◌-ℤ◌, leb_ℤ}
use telegram_mini_app.Prelude.Text.{Text, text, is_text}
use telegram_mini_app.Types.{
  submitted, under_review, pending_second_approval, approved, rejected, status_eq, RejectionCode,
  admin_actor, forbidden, business_rule, second_approver_must_differ, verified_amount_required,
  Result,
}
use telegram_mini_app.Db.{Env, Tx, pure, throw, require, ◌>>=◌, ◌>>◌, update_deposit, write_audit}
use telegram_mini_app.Db.Rows.{Deposit, OutboxInput, credit_requested, card_update, notify_player}
use telegram_mini_app.Deposit.StateMachine.{
  TransitionInput, TransitionOutcome, transitioned, already_handled, guard_failed, no_guard,
  reviewable_statuses, transition,
}
use telegram_mini_app.Deposit.StateMachine.Patch.{
  PatchField, verified_amount_minor, review_started_at, decided_at, second_approved_at,
  decided_by_admin_id, second_approver_admin_id, rejection_code, rejection_note,
}
use telegram_mini_app.Deposit.Credit.Keys.{outbox_input, dedupe_key}
use telegram_mini_app.Deposit.Review.{
  ReviewOutcome, approved_as, awaiting_second_approval, rejected_as, review_handled, ApproveInput,
  assert_can_decide, require_deposit, evaluate_authority,
}
use telegram_mini_app.Ledger.Posting.{Posting}
use telegram_mini_app.Ledger.Repository.{post}
use telegram_mini_app.Ledger.Repository.Accounts.{lift}
use telegram_mini_app.Ledger.Rules.{deposit_approved}
use telegram_mini_app.Outbox.{enqueue, enqueue_many}
use telegram_mini_app.Admin.Authority.{AuthenticatedAdmin}
use telegram_mini_app.Admin.Limits.{ApprovalDecision, needs_second}

-- A message about the deposit under `topic:id:what`.
message : Deposit → Text → Text → OutboxInput
message before topic what =
    outbox_input before topic (card_update before.id what)
      (topic ++ (text ":" ++ (before.id ++ (text ":" ++ what))))

unfoldable pub reject_input :
    Env → Text → AuthenticatedAdmin → RejectionCode → Option Text → TransitionInput
reject_input env id admin code note = record {
  deposit_request_id = id;
  from = reviewable_statuses;
  to = rejected;
  actor = admin_actor admin.admin_user_id;
  patch =
      rejection_code (some code)
      ∷ rejection_note note
      ∷ decided_at (some env.now)
      ∷ decided_by_admin_id (some admin.admin_user_id)
      ∷ review_started_at none
      ∷ [];
  guard = no_guard;
}

rejected_with : Env → Deposit → AuthenticatedAdmin → TransitionOutcome → Tx ReviewOutcome
unfolding message
rejected_with env before admin (already_handled current reason) = pure (review_handled current)
rejected_with env before admin (transitioned d from) = do
  write_audit env (text "deposit.reject") (admin_actor admin.admin_user_id) before.id
      (some before.claimed_amount_minor)
  enqueue_many env (
      outbox_input before (text "deposit.notify_player")
        (notify_player before.id before.player_id (text "deposit.rejected"))
        (text "deposit.notify_player:" ++ (before.id ++ text ":rejected"))
      ∷ (message before (text "deposit.card_update") (text "rejected") ∷ []))
  pure (rejected_as d)

unfoldable pub reject :
    Env → Text → AuthenticatedAdmin → RejectionCode → Option Text → Tx ReviewOutcome
unfolding rejected_with
reject env id admin code note = do
  assert_can_decide admin
  before ← require_deposit env id
  outcome ← transition env (reject_input env id admin code note)
  rejected_with env before admin outcome

unfoldable pub first_input : Env → Deposit → AuthenticatedAdmin → ℤ → TransitionInput
first_input env before admin verified = record {
  deposit_request_id = before.id;
  from = submitted ∷ (under_review ∷ []);
  to = pending_second_approval;
  actor = admin_actor admin.admin_user_id;
  patch =
      decided_by_admin_id (some admin.admin_user_id)
      ∷ (decided_at (some env.now)
          ∷ (verified_amount_minor (some verified) ∷ (review_started_at none ∷ [])));
  guard = no_guard;
}

unfoldable pub parked :
    Env → Deposit → AuthenticatedAdmin → ℤ → TransitionOutcome → Tx ReviewOutcome
unfolding message
parked env before admin verified (already_handled current reason) = pure (review_handled current)
parked env before admin verified (transitioned d from) = do
  write_audit env (text "deposit.approve.first") (admin_actor admin.admin_user_id) before.id
      (some verified)
  enqueue env (
      outbox_input before (text "deposit.card_update")
        (card_update before.id (text "awaiting-second-approval"))
        (text "deposit.card_update:" ++ (before.id ++ text ":second-approval")))
  pure (awaiting_second_approval d)

-- `recordFirstApproval`.
unfoldable pub record_first_approval : Env → Deposit → AuthenticatedAdmin → ℤ → Tx ReviewOutcome
record_first_approval env before admin verified = do
  outcome ← transition env (first_input env before admin verified)
  parked env before admin verified outcome

approver : Env → AuthenticatedAdmin → Bool → List PatchField
approver env admin true =
    second_approver_admin_id (some admin.admin_user_id) ∷ (second_approved_at (some env.now) ∷ [])
approver env admin false = decided_by_admin_id (some admin.admin_user_id) ∷ []

-- SQL's `decided_by_admin_id <> id`, which NULL does not satisfy.
unfoldable pub other_decider : Text → Deposit → Bool
other_decider admin_user_id d = elim d.decided_by_admin_id [
  | none ↦ false
  | some first ↦ not (is_text (some first) admin_user_id)
]

unfoldable pub approval_guard : AuthenticatedAdmin → Bool → Deposit → Bool
unfolding other_decider
approval_guard admin true = other_decider admin.admin_user_id
approval_guard admin false = no_guard

unfoldable pub approval_input : Env → Deposit → AuthenticatedAdmin → Bool → TransitionInput
unfolding approver
approval_input env before admin second = record {
  deposit_request_id = before.id;
  from = reviewable_statuses;
  to = approved;
  actor = admin_actor admin.admin_user_id;
  patch = approver env admin second ++ (decided_at (some env.now) ∷ (review_started_at none ∷ []));
  guard = approval_guard admin second;
}

-- T1 of a deposit.
unfoldable pub claim_posting : Env → Deposit → AuthenticatedAdmin → ℤ → Result Posting
claim_posting env before admin amount = deposit_approved (record {
  deposit_id = before.id;
  short_id = before.short_id;
  player_id = before.player_id;
  payment_method_id = before.payment_method_id;
  amount_minor = amount;
  currency = before.currency_code;
  actor = admin_actor admin.admin_user_id;
  occurred_at = some (or_else before.submitted_at env.now);
})

-- Steps 4 to 6: the amounts, the trail, the messages.
unfoldable pub announce_approval :
    Env → Deposit → AuthenticatedAdmin → ℤ → ℤ → Bool → Text → Tx ReviewOutcome
unfolding message
announce_approval env before admin verified amount second tx_id = do
  update_deposit env before.tenant_id before.id (λ d. record d {
    verified_amount_minor = some verified;
    credited_amount_minor = some amount;
    ledger_claim_tx_id = some tx_id;
  })
  write_audit env (if second then text "deposit.approve.second" else text "deposit.approve")
      (admin_actor admin.admin_user_id) before.id (some verified)
  enqueue_many env (
      outbox_input before (text "deposit.credit_requested")
        (credit_requested before.id before.short_id before.player_id before.credit_key_epoch amount)
        (dedupe_key (text "deposit.credit_requested") before (text ":"))
      ∷ (message before (text "deposit.card_update") (text "approved") ∷ []))
  pure (approved_as tx_id)

unfoldable pub settle_approval :
    Env → Deposit → ApproveInput → ℤ → ℤ → Bool → TransitionOutcome → Tx ReviewOutcome
settle_approval env before input verified amount second (already_handled current guard_failed) =
    throw (forbidden second_approver_must_differ)
settle_approval env before input verified amount second (already_handled current _) =
    pure (review_handled current)
settle_approval env before input verified amount second (transitioned d from) = do
  evaluate_authority env input verified before.currency_code
  posting ← lift (claim_posting env before input.admin amount)
  posted ← post env posting
  announce_approval env before input.admin verified amount second posted.transaction_id

-- `finalizeApproval`.
unfoldable pub finalize_approval : Env → Deposit → ApproveInput → ℤ → Bool → Tx ReviewOutcome
finalize_approval env before input verified second = do
  let amount = verified -ℤ before.fee_minor
  require (not (leb_ℤ amount (pos 0))) (business_rule verified_amount_required)
  outcome ← transition env (approval_input env before input.admin second)
  settle_approval env before input verified amount second outcome

abbrev pub is_needs_second : ApprovalDecision → Bool
is_needs_second d = elim d [ needs_second ↦ true | _ ↦ false ]

-- Which approval this is.
unfoldable pub approve_decided : Env → Deposit → ApproveInput → ℤ → Bool → Tx ReviewOutcome
approve_decided env before input verified second =
    if second && not (status_eq before.status pending_second_approval)
    then record_first_approval env before input.admin verified
    else if second && is_text before.decided_by_admin_id input.admin.admin_user_id
    then throw (forbidden second_approver_must_differ)
    else finalize_approval env before input verified second

abbrev pub verified_of : ApproveInput → Deposit → ℤ
verified_of input before = or_else input.verified_amount_minor before.claimed_amount_minor

unfoldable pub approve : Env → ApproveInput → Tx ReviewOutcome
approve env input = do
  assert_can_decide input.admin
  before ← require_deposit env input.deposit_request_id
  require (not (leb_ℤ (verified_of input before) (pos 0))) (business_rule verified_amount_required)
  decision ← evaluate_authority env input (verified_of input before) before.currency_code
  approve_decided env before input (verified_of input before) (is_needs_second decision)
