-- ===== src/Admin/Ceilings.antt =====
-- What a decision of the evaluator guarantees.
use telegram_mini_app.Prelude.{
  true, false, some, or_else, ◌≡◌, ◌≢◌, refl, sym, ◌∙◌, arith, Bool-cases, Option-cases, inl, inr,
}
use telegram_mini_app.Prelude.Integers.{ℤ, pos, ◌+ℤ◌, ◌≤ℤ◌, ◌<ℤ◌, leb_ℤ, ltb_ℤ}
use telegram_mini_app.Prelude.Text.{Text}
use telegram_mini_app.Db.{Db, Env}
use telegram_mini_app.Db.Rows.{ApprovalLimit}
use telegram_mini_app.Admin.Authority.{AuthenticatedAdmin, holds_any_role, is_platform_staff}
use telegram_mini_app.Admin.Limits.{
  allowed, denied, approver_roles, evaluate, by_limit, within_limit, find_effective,
  daily_approved_minor,
}

within_limit-bounds :
    (l : ApprovalLimit) (threshold used amount : ℤ)
    → within_limit l threshold used amount ≢ denied
    → (amount ≤ℤ l.max_single_approval_minor)
      × (used +ℤ amount ≤ℤ l.max_daily_approval_minor)
      × (within_limit l threshold used amount ≡ allowed
          → amount ≤ℤ or_else l.second_approval_above_minor threshold)
unfolding within_limit
within_limit-bounds l threshold used amount h =
    elim (Bool-cases (ltb_ℤ l.max_single_approval_minor amount)) [
      | inl over ↦ absurd (h (rw over refl))
      | inr single ↦ elim (Bool-cases (ltb_ℤ l.max_daily_approval_minor (used +ℤ amount))) [
        | inl over ↦ absurd (h (rw single (rw over refl)))
        | inr daily ↦ (ground arith, ground arith, λ e. ground arith)
      ]
    ]

-- What is not denied stays below the ceilings: unless the admin is platform staff, the amount is
-- positive, the role may approve, and a limit is in force that covers the amount alone and together
-- with what this admin approved today. What is allowed alone is not above the threshold either.
pub evaluate-bounds :
    (env : Env) (tenant : Text) (admin : AuthenticatedAdmin) (amount : ℤ) (currency : Text)
    (db : Db)
    → is_platform_staff admin ≡ false
    → evaluate env tenant admin amount currency db ≢ denied
    → (pos 0 <ℤ amount)
      × (holds_any_role admin approver_roles ≡ true)
      × ((l : ApprovalLimit) × (find_effective tenant admin.admin_user_id currency env.now db
            ≡ some l)
          × (amount ≤ℤ l.max_single_approval_minor)
          × (daily_approved_minor tenant admin.admin_user_id currency env.now db +ℤ amount
              ≤ℤ l.max_daily_approval_minor)
          × (evaluate env tenant admin amount currency db ≡ allowed
              → amount ≤ℤ or_else l.second_approval_above_minor env.dual_approval_threshold_minor))
unfolding evaluate by_limit
evaluate-bounds env tenant admin amount currency db staff h =
    elim (Bool-cases (leb_ℤ amount (pos 0))) [
      | inl small ↦ absurd (h (rw small refl))
      | inr positive ↦ elim (Bool-cases (holds_any_role admin approver_roles)) [
        | inr no_role ↦ absurd (h (rw positive (rw no_role refl)))
        | inl role ↦
            elim (Option-cases (find_effective tenant admin.admin_user_id currency env.now db)) [
              | inl gone ↦ absurd (h (rw positive (rw role (rw staff (rw gone refl)))))
              | inr (l, found) ↦
                  let same : evaluate env tenant admin amount currency db
                      ≡ within_limit l env.dual_approval_threshold_minor
                          (daily_approved_minor tenant admin.admin_user_id currency env.now db)
                          amount =
                    rw positive (rw role (rw staff (rw found refl))) in
                  let bounds = within_limit-bounds l _ _ _ (λ e. h (same ∙ e)) in
                  (ground arith, role, (l, found, bounds.0, bounds.1, λ e. bounds.2 (sym same ∙ e)))
            ]
      ]
    ]
