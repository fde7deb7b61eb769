-- ===== src/Admin/Limits.antt =====
-- May this admin release this amount alone (`evaluateDetailed` of
-- src/modules/admin/services/admin-approval-limit.service.ts)? Only the decision is kept, not the figures
-- that explain it on a card.
use telegram_mini_app.Prelude.{
  ℕ, Bool, true, false, not, ◌&&◌, ◌||◌, ◌-◌, ◌%◌, List, [], ◌∷◌, Option, none, some, keep, map,
  or_else, leb, ltb, if◌then◌else◌,
}
use telegram_mini_app.Prelude.Integers.{ℤ, pos, ◌+ℤ◌, leb_ℤ, ltb_ℤ, sum_ℤ}
use telegram_mini_app.Prelude.Text.{Text, text_eq, is_text}
use telegram_mini_app.Types.{
  DepositStatus, pending_second_approval, approved, crediting, credited, needs_reconciliation,
  status_in, AdminRole, super_admin, finance_admin, reviewer,
}
use telegram_mini_app.Db.{Db, Env}
use telegram_mini_app.Db.Rows.{Deposit, ApprovalLimit}
use telegram_mini_app.Admin.Authority.{AuthenticatedAdmin, holds_any_role, is_platform_staff}

pub data ApprovalDecision : Type 0 where
  allowed needs_second denied : ApprovalDecision

abbrev pub approver_roles : List AdminRole
approver_roles = super_admin ∷ finance_admin ∷ reviewer ∷ []

abbrev pub approval_consuming_statuses : List DepositStatus
approval_consuming_statuses =
    pending_second_approval ∷ approved ∷ crediting ∷ credited ∷ needs_reconciliation ∷ []

abbrev pub ms_per_day : ℕ
ms_per_day = 86400000

-- Midnight, in UTC, of the day of that time.
abbrev pub day_start : ℕ → ℕ
day_start at = at - at % ms_per_day

abbrev within : Option ℕ → ℕ → Bool
within none at = false
within (some t) at = leb (day_start at) t && leb t at

-- An approval of this admin that stands, of today and in this currency.
abbrev pub consumes : Text → Text → Text → ℕ → Deposit → Bool
consumes tenant admin_user_id currency at d =
    text_eq d.tenant_id tenant
    && (text_eq d.currency_code currency
        && (within d.decided_at at
            && (status_in d.status approval_consuming_statuses
                && (is_text d.decided_by_admin_id admin_user_id
                    || is_text d.second_approver_admin_id admin_user_id))))

-- `dailyApprovedMinor`, in the operator in context.
unfoldable pub daily_approved_minor : Text → Text → Text → ℕ → Db → ℤ
daily_approved_minor tenant admin_user_id currency at db = sum_ℤ (
    map (λ (d : Deposit). or_else d.verified_amount_minor d.claimed_amount_minor)
      (keep (consumes tenant admin_user_id currency at) db.deposits))

abbrev still_open : Option ℕ → ℕ → Bool
still_open none at = true
still_open (some t) at = ltb at t

abbrev pub is_effective : Text → Text → Text → ℕ → ApprovalLimit → Bool
is_effective tenant admin_user_id currency at l =
    text_eq l.tenant_id tenant
    && (text_eq l.admin_user_id admin_user_id
        && (text_eq l.currency_code currency
            && (leb l.effective_from at && still_open l.effective_to at)))

-- The first row in the order of `effectiveFrom`, the latest first.
latest : List ApprovalLimit → Option ApprovalLimit
latest [] = none
latest (l ∷ ls) =
    let rest = latest ls in
    elim rest [
      | none ↦ some l
      | some k ↦ if leb k.effective_from l.effective_from then some l else some k
    ]

-- `findEffective`.
unfoldable pub find_effective : Text → Text → Text → ℕ → Db → Option ApprovalLimit
unfolding latest
find_effective tenant admin_user_id currency at db =
    latest (keep (is_effective tenant admin_user_id currency at) db.limits)

-- The end of both paths: above the threshold somebody else must agree.
abbrev pub by_threshold : ℤ → ℤ → ApprovalDecision
by_threshold amount threshold = if ltb_ℤ threshold amount then needs_second else allowed

-- The ceilings of an admin's row, `used` being what stands of today.
unfoldable pub within_limit : ApprovalLimit → ℤ → ℤ → ℤ → ApprovalDecision
within_limit l global_threshold used amount =
    if ltb_ℤ l.max_single_approval_minor amount
    then denied
    else if ltb_ℤ l.max_daily_approval_minor (used +ℤ amount)
    then denied
    else by_threshold amount (or_else l.second_approval_above_minor global_threshold)

unfoldable pub by_limit : Option ApprovalLimit → ℤ → ℤ → ℤ → ApprovalDecision
by_limit none global_threshold used amount = denied
by_limit (some l) global_threshold used amount = within_limit l global_threshold used amount

-- `evaluate`, in the operator in context.
unfoldable pub evaluate : Env → Text → AuthenticatedAdmin → ℤ → Text → Db → ApprovalDecision
evaluate env tenant admin amount currency db =
    if leb_ℤ amount (pos 0)
    then denied
    else if not (holds_any_role admin approver_roles)
    then denied
    else if is_platform_staff admin
    then by_threshold amount env.dual_approval_threshold_minor
    else by_limit (find_effective tenant admin.admin_user_id currency env.now db)
        env.dual_approval_threshold_minor
        (daily_approved_minor tenant admin.admin_user_id currency env.now db) amount
