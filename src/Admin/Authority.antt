-- ===== src/Admin/Authority.antt =====
-- Does this admin hold one of these roles (src/core/auth/admin-authority.ts)?
use telegram_mini_app.Prelude.{ℕ, Bool, ◌&&◌, ◌||◌, List, any, ◌==◌}
use telegram_mini_app.Prelude.Text.{Text, text, text_eq}
use telegram_mini_app.Types.{
  AdminRole, platform_admin, super_admin, finance_admin, reviewer, support, viewer,
}

-- `AuthenticatedAdmin` and `ApprovingAdmin`, less the name that is shown.
pub record AuthenticatedAdmin : Type 0 where
  pub admin_user_id : Text
  pub role : AdminRole
  pub tenant_id : Text

abbrev role_index : AdminRole → ℕ
role_index platform_admin = 0
role_index super_admin = 1
role_index finance_admin = 2
role_index reviewer = 3
role_index support = 4
role_index viewer = 5

abbrev role_eq : AdminRole → AdminRole → Bool
role_eq a b = role_index a == role_index b

unfoldable pub tenant_zero_id : Text
unfolding text
tenant_zero_id = text "00000000-0000-0000-0000-000000000000"

unfoldable pub is_platform_staff : AuthenticatedAdmin → Bool
unfolding tenant_zero_id
is_platform_staff admin =
    role_eq admin.role platform_admin && text_eq admin.tenant_id tenant_zero_id

unfoldable pub holds_any_role : AuthenticatedAdmin → List AdminRole → Bool
holds_any_role admin roles = any (role_eq admin.role) roles || is_platform_staff admin
