-- ===== src/Deposit/Policy.antt =====
-- May this player open a deposit of this amount? src/modules/deposit/services/deposit-policy.service.ts,
-- with the queries of src/modules/deposit/repositories/deposit.repository.ts that it asks. The extension
-- src/core/prisma/tenant-scope.extension.ts adds the operator in context to the filters of the client's
-- queries, not to raw SQL.
pub mod Permits
use telegram_mini_app.Prelude.{
  ℕ, suc, ◌+◌, ◌*◌, Bool, true, false, not, ◌&&◌, ◌||◌, List, [], ◌∷◌, Option, none, some, any,
  find, keep, length, map, or_else, ltb, leb, ◌==◌, if◌then◌else◌,
}
use telegram_mini_app.Prelude.Integers.{ℤ, pos, negsuc, ◌+ℤ◌, leb_ℤ, sum_ℤ}
use telegram_mini_app.Prelude.Text.{Text, text_eq}
use telegram_mini_app.Types.{
  DepositStatus, draft, awaiting_proof, submitted, under_review, pending_second_approval, approved,
  crediting, credit_failed, rejected, expired, reversed, status_in, status_eq, PlayerStatus,
  pending_ichancy, active, suspended, self_excluded, closed, Error, business_rule, record_not_found,
  player_self_excluded, player_suspended, deposit_too_many_open, single_deposit_limit_exceeded,
  deposit_cooldown_active, deposit_cap_exceeded,
}
use telegram_mini_app.Db.{
  Db, Env, Tx, pure, throw, ◌>>=◌, ◌>>◌, require, require_effective_tenant_id,
}
use telegram_mini_app.Db.Rows.{Deposit, Player, PlayerLimit, SelfExclusion}

abbrev pub open_statuses : List DepositStatus
open_statuses =
    draft ∷ awaiting_proof ∷ submitted ∷ under_review ∷ pending_second_approval ∷ approved
    ∷ crediting ∷ []

abbrev pub max_open_deposits_per_player : ℕ
max_open_deposits_per_player = 3

abbrev pub deposit_cap_window_hours : ℕ
deposit_cap_window_hours = 24

abbrev pub hour_ms : ℕ
hour_ms = 60 * 60 * 1000

pub record PolicyCheckInput : Type 0 where
  pub player_id : Text
  pub currency_code : Text
  pub amount_minor : ℤ

pub record PolicyDecision : Type 0 where
  pub applied_limit_id : Option Text
  pub window_used_minor : ℤ
  pub window_cap_minor : Option ℤ

-- The filter that the extension adds: the operator in context, where there is one.
abbrev pub in_effective_tenant : Env → Text → Bool
in_effective_tenant env tenant = elim env.tenant [ none ↦ true | some t ↦ text_eq tenant t ]

abbrev pub is_after : Option ℕ → ℕ → Bool
is_after none now = true
is_after (some t) now = ltb now t

abbrev pub is_excluding : Env → Text → SelfExclusion → Bool
is_excluding env player x =
    in_effective_tenant env x.tenant_id
    && (text_eq x.player_id player
        && (elim x.revoked_at [ none ↦ true | some t ↦ false ]
            && (leb x.starts_at env.now && is_after x.ends_at env.now)))

unfoldable pub assert_not_self_excluded : Env → Text → Tx (Unit {0})
assert_not_self_excluded env player db =
    require (not (any (is_excluding env player) db.exclusions)) (business_rule player_self_excluded)
      db

abbrev pub may_deposit : PlayerStatus → Bool
may_deposit pending_ichancy = true
may_deposit active = true
may_deposit suspended = false
may_deposit self_excluded = false
may_deposit closed = false

abbrev pub is_player : Text → Text → Player → Bool
is_player tenant id p = text_eq p.id id && text_eq p.tenant_id tenant

unfoldable pub assert_player_active : Env → Text → Tx (Unit {0})
assert_player_active env player = do
  tenant ← require_effective_tenant_id env
  λ db. elim (find (is_player tenant player) db.players) [
    | none ↦ throw record_not_found db
    | some p ↦ require (may_deposit p.status) (business_rule player_suspended) db
  ]

abbrev pub is_open_of : Env → Text → Deposit → Bool
is_open_of env player d =
    in_effective_tenant env d.tenant_id
    && (text_eq d.player_id player && status_in d.status open_statuses)

-- `DepositRepository.countOpenForPlayer`.
abbrev pub count_open_for_player : Env → Text → List Deposit → ℕ
count_open_for_player env player deposits = length (keep (is_open_of env player) deposits)

unfoldable pub assert_not_too_many_open : Env → Text → Tx (Unit {0})
assert_not_too_many_open env player db =
    require (ltb (count_open_for_player env player db.deposits) max_open_deposits_per_player)
      (business_rule deposit_too_many_open) db

abbrev pub is_in_force : Env → Text → Text → PlayerLimit → Bool
is_in_force env player currency l =
    in_effective_tenant env l.tenant_id
    && (text_eq l.player_id player
        && (text_eq l.currency_code currency
            && (leb l.effective_from env.now && is_after l.effective_to env.now)))

-- The row that took effect last.
abbrev pub newest : List PlayerLimit → Option PlayerLimit
newest [] = none
newest (l ∷ ls) =
    let rest = newest ls in
    elim rest [
      | none ↦ some l
      | some k ↦ if leb k.effective_from l.effective_from then some l else some k
    ]

unfoldable pub effective_limit : Env → Text → Text → Db → Option PlayerLimit
effective_limit env player currency db =
    newest (keep (is_in_force env player currency) db.player_limits)

abbrev pub allows : Option ℤ → ℤ → Bool
allows none amount = true
allows (some most) amount = leb_ℤ amount most

unfoldable pub assert_single_deposit_limit : Option PlayerLimit → ℤ → Tx (Unit {0})
assert_single_deposit_limit none amount = pure tt
assert_single_deposit_limit (some l) amount =
    require (allows l.max_single_deposit_minor amount) (business_rule single_deposit_limit_exceeded)

-- A cooldown that is not positive is none.
abbrev pub cooldown_of : PlayerLimit → ℕ
cooldown_of l = elim l.cooldown_minutes [
  | none ↦ 0
  | some minutes ↦ elim minutes [ pos n ↦ n | negsuc n ↦ 0 ]
]

abbrev pub is_submission_of : Env → Text → Deposit → Bool
is_submission_of env player d =
    in_effective_tenant env d.tenant_id
    && (text_eq d.player_id player && not (status_eq d.status draft))

-- The instant of the row that was created last, and its query, `DepositRepository.lastSubmissionAt`.
abbrev pub last_created : List Deposit → Option ℕ
last_created [] = none
last_created (d ∷ ds) =
    let rest = last_created ds in
    elim rest [
      | none ↦ some d.created_at
      | some t ↦ some (if ltb t d.created_at then d.created_at else t)
    ]

abbrev pub last_submission_at : Env → Text → List Deposit → Option ℕ
last_submission_at env player deposits = last_created (keep (is_submission_of env player) deposits)

abbrev pub is_ready : ℕ → ℕ → Option ℕ → Bool
is_ready cooldown now none = true
is_ready cooldown now (some last) = leb (last + cooldown * 60000) now

unfoldable pub assert_cooldown : Env → Option PlayerLimit → Text → Tx (Unit {0})
assert_cooldown env none player db = pure tt db
assert_cooldown env (some l) player db =
    require
      (cooldown_of l == 0
        || is_ready (cooldown_of l) env.now (last_submission_at env player db.deposits))
      (business_rule deposit_cooldown_active) db

abbrev pub uncounted_statuses : List DepositStatus
uncounted_statuses = rejected ∷ expired ∷ reversed ∷ credit_failed ∷ []

-- Created at or after `now - 24 h`, without going below zero.
abbrev pub counts_since : ℕ → Text → Deposit → Bool
counts_since now player d =
    text_eq d.player_id player
    && (leb now (d.created_at + deposit_cap_window_hours * hour_ms)
        && not (status_in d.status uncounted_statuses))

-- `DepositRepository.sumAcceptedSince`, in raw SQL.
unfoldable pub sum_accepted_since : ℕ → Text → List Deposit → ℤ
sum_accepted_since now player deposits = sum_ℤ (
    map (λ (d : Deposit). or_else d.verified_amount_minor d.claimed_amount_minor)
      (keep (counts_since now player) deposits))

abbrev pub cap_of : Option PlayerLimit → Option ℤ
cap_of none = none
cap_of (some l) = l.daily_deposit_cap_minor

unfoldable pub assert_rolling_cap : Env → Option PlayerLimit → PolicyCheckInput → Tx (ℤ × Option ℤ)
assert_rolling_cap env limit input db =
    let used = sum_accepted_since env.now input.player_id db.deposits in
    (do
      require (allows (cap_of limit) (used +ℤ input.amount_minor))
          (business_rule deposit_cap_exceeded)
      pure (used, cap_of limit))
      db

abbrev pub limit_id : Option PlayerLimit → Option Text
limit_id none = none
limit_id (some l) = some l.id

unfoldable pub assert_may_deposit : Env → PolicyCheckInput → Tx PolicyDecision
assert_may_deposit env input db =
    let limit = effective_limit env input.player_id input.currency_code db in
    (do
      assert_not_self_excluded env input.player_id
      assert_player_active env input.player_id
      assert_not_too_many_open env input.player_id
      assert_single_deposit_limit limit input.amount_minor
      assert_cooldown env limit input.player_id
      window ← assert_rolling_cap env limit input
      pure (record {
        applied_limit_id = limit_id limit;
        window_used_minor = window.0;
        window_cap_minor = window.1;
      }))
      db
