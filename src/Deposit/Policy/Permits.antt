-- ===== src/Deposit/Policy/Permits.antt =====
-- What the policy of deposits lets through (src/modules/deposit/services/deposit-policy.service.ts).
use telegram_mini_app.Prelude.{
  ◌<◌, Bool, true, false, not, ◌||◌, ◌==◌, Option, none, some, any, find, Option-cases, inl, inr,
  ltb, lt→ltb, ltb→lt, ◌≡◌, ◌↔◌, refl, sym, ap, ◌∙◌, arith, subst,
}
use telegram_mini_app.Prelude.Integers.{ℤ, ◌+ℤ◌}
use telegram_mini_app.Prelude.Text.{Text}
use telegram_mini_app.Types.{
  ok, Error, business_rule, player_self_excluded, player_suspended, deposit_too_many_open,
  deposit_cap_exceeded,
}
use telegram_mini_app.Db.{
  Db, Env, require, require_effective_tenant_id, bind_ok, bind_step, returned,
}
use telegram_mini_app.Db.Rows.{Player, PlayerLimit}
use telegram_mini_app.Deposit.Review.FourEyes.{require_ok}
use telegram_mini_app.Deposit.Policy.{
  PolicyCheckInput, PolicyDecision, is_excluding, assert_not_self_excluded, may_deposit, is_player,
  assert_player_active, count_open_for_player, max_open_deposits_per_player,
  assert_not_too_many_open, effective_limit, allows, assert_single_deposit_limit, cooldown_of,
  last_submission_at, is_ready, assert_cooldown, sum_accepted_since, cap_of, assert_rolling_cap,
  limit_id, assert_may_deposit,
}

-- The limit's own ceiling on one deposit.
abbrev pub single_of : Option PlayerLimit → Option ℤ
single_of limit = elim limit [ none ↦ none | some l ↦ l.max_single_deposit_minor ]

abbrev pub rested : Env → Option PlayerLimit → Text → Db → Bool
rested env limit player db = elim limit [
  | none ↦ true
  | some l ↦
      cooldown_of l == 0
      || is_ready (cooldown_of l) env.now (last_submission_at env player db.deposits)
]

pub record Permits (env : Env) (input : PolicyCheckInput) (db : Db) : Type 0 where
  pub not_excluded : any (is_excluding env input.player_id) db.exclusions ≡ false
  pub tenant : Text
  pub in_tenant : env.tenant ≡ some tenant
  pub player : Player
  pub is_there : find (is_player tenant input.player_id) db.players ≡ some player
  pub is_active : may_deposit player.status ≡ true
  pub few_open :
      count_open_for_player env input.player_id db.deposits < max_open_deposits_per_player
  pub within_single :
      allows
        (single_of (effective_limit env input.player_id input.currency_code db))
        input.amount_minor
      ≡ true
  pub has_rested :
      rested env (effective_limit env input.player_id input.currency_code db) input.player_id db
      ≡ true
  pub within_cap :
      allows
        (cap_of (effective_limit env input.player_id input.currency_code db))
        (sum_accepted_since env.now input.player_id db.deposits +ℤ input.amount_minor)
      ≡ true

abbrev pub decision_on : Env → PolicyCheckInput → Db → PolicyDecision
decision_on env input db =
    let limit = effective_limit env input.player_id input.currency_code db in
    record {
      applied_limit_id = limit_id limit;
      window_used_minor = sum_accepted_since env.now input.player_id db.deposits;
      window_cap_minor = cap_of limit;
    }

single_ok :
    (limit : Option PlayerLimit) (amount : ℤ) (db : Db) {u : Unit {0}} {db' : Db}
    → assert_single_deposit_limit limit amount db ≡ ok (u, db')
    → (allows (single_of limit) amount ≡ true) × (db' ≡ db)
unfolding assert_single_deposit_limit
single_ok none amount db h = (refl, sym (returned h).1)
single_ok (some l) amount db h = require_ok _ _ db h

cooldown_ok :
    (env : Env) (limit : Option PlayerLimit) (player : Text) (db : Db) {u : Unit {0}} {db' : Db}
    → assert_cooldown env limit player db ≡ ok (u, db')
    → (rested env limit player db ≡ true) × (db' ≡ db)
unfolding assert_cooldown
cooldown_ok env none player db h = (refl, sym (returned h).1)
cooldown_ok env (some l) player db h = require_ok _ _ db h

active_ok :
    (env : Env) (player : Text) (db : Db) {u : Unit {0}} {db' : Db}
    → assert_player_active env player db ≡ ok (u, db')
    → (tenant : Text) × (p : Player) × (env.tenant ≡ some tenant)
      × (find (is_player tenant player) db.players ≡ some p)
      × (may_deposit p.status ≡ true)
      × (db' ≡ db)
unfolding assert_player_active require_effective_tenant_id
active_ok env player db {u} {db'} h = elim (Option-cases env.tenant) [
  | inl none_set ↦ absurd (ground arith)
  | inr (tenant, e) ↦ elim (Option-cases (find (is_player tenant player) db.players)) [
    | inl gone ↦ absurd (ground arith)
    | inr (p, found) ↦
        let k : require (may_deposit p.status) (business_rule player_suspended) db ≡ ok (u, db') =
          ground (arith, e, found, h) in
        let (yes_active, same) = require_ok _ _ db k in (tenant, p, e, found, yes_active, same)
  ]
]

cap_ok :
    (env : Env) (limit : Option PlayerLimit) (input : PolicyCheckInput) (db : Db)
    {window : ℤ × Option ℤ} {db' : Db}
    → assert_rolling_cap env limit input db ≡ ok (window, db')
    → (allows
          (cap_of limit)
          (sum_accepted_since env.now input.player_id db.deposits +ℤ input.amount_minor)
        ≡ true)
      × (window ≡ (sum_accepted_since env.now input.player_id db.deposits, cap_of limit))
      × (db' ≡ db)
unfolding assert_rolling_cap
cap_ok env limit input db h =
    let (_, mid, h0, k0) = bind_ok (require _ (business_rule deposit_cap_exceeded)) _ db h in
    let (b, same) = require_ok _ _ db h0 in (b, sym (returned k0).0, sym (returned k0).1 ∙ same)

require-true : (b : Bool) (e : Error) (db : Db) → b ≡ true → require b e db ≡ ok (tt, db)
require-true b e db h = rw h refl

checks_single :
    (limit : Option PlayerLimit) (amount : ℤ) (db : Db)
    → allows (single_of limit) amount ≡ true
    → assert_single_deposit_limit limit amount db ≡ ok (tt, db)
unfolding assert_single_deposit_limit
checks_single none amount db h = refl
checks_single (some l) amount db h = require-true _ _ db h

checks_cooldown :
    (env : Env) (limit : Option PlayerLimit) (player : Text) (db : Db)
    → rested env limit player db ≡ true
    → assert_cooldown env limit player db ≡ ok (tt, db)
unfolding assert_cooldown
checks_cooldown env none player db h = refl
checks_cooldown env (some l) player db h = require-true _ _ db h

pub context_ok :
    (env : Env) (tenant : Text) (db : Db)
    → env.tenant ≡ some tenant
    → require_effective_tenant_id env db ≡ ok (tenant, db)
unfolding require_effective_tenant_id
context_ok env tenant db h = rw h refl

checks_player :
    (env : Env) (input : PolicyCheckInput) (db : Db)
    → Permits env input db
    → assert_player_active env input.player_id db ≡ ok (tt, db)
unfolding assert_player_active require_effective_tenant_id
checks_player env input db p =
    bind_step (require_effective_tenant_id env) _ db {a = p.tenant} {mid = db}
      (context_ok env p.tenant db p.in_tenant)
      (rw p.is_there (require-true _ (business_rule player_suspended) db p.is_active))

Permits-ok :
    (env : Env) (input : PolicyCheckInput) (db : Db)
    → Permits env input db
    → assert_may_deposit env input db ≡ ok (decision_on env input db, db)
unfolding assert_may_deposit assert_not_self_excluded assert_not_too_many_open assert_rolling_cap
Permits-ok env input db p =
    let limit = effective_limit env input.player_id input.currency_code db in
    let clear = require-true _ (business_rule player_self_excluded) db (ap not p.not_excluded) in
    let few = require-true _ (business_rule deposit_too_many_open) db (lt→ltb _ _ p.few_open) in
    let small = checks_single limit input.amount_minor db p.within_single in
    let calm = checks_cooldown env limit input.player_id db p.has_rested in
    let fits = require-true _ (business_rule deposit_cap_exceeded) db p.within_cap in
    bind_step (assert_not_self_excluded env input.player_id) _ db clear (
      bind_step (assert_player_active env input.player_id) _ db (checks_player env input db p) (
        bind_step (assert_not_too_many_open env input.player_id) _ db few (
          bind_step (assert_single_deposit_limit limit input.amount_minor) _ db small (
            bind_step (assert_cooldown env limit input.player_id) _ db calm (
              bind_step (assert_rolling_cap env limit input) _ db
                (bind_step (require _ (business_rule deposit_cap_exceeded)) _ db fits refl)
                refl)))))

-- What the policy lets through is permitted, changes nothing, and is answered with the limit row that
-- applied, what the window holds and its cap.
pub permitted :
    (env : Env) (input : PolicyCheckInput) (db : Db) {decision : PolicyDecision} {db' : Db}
    → assert_may_deposit env input db ≡ ok (decision, db')
    → Permits env input db × (db' ≡ db) × (decision ≡ decision_on env input db)
unfolding assert_may_deposit assert_not_self_excluded assert_not_too_many_open assert_rolling_cap
permitted env input db h =
    let limit = effective_limit env input.player_id input.currency_code db in
    let (_, d0, h0, k0) = bind_ok (assert_not_self_excluded env input.player_id) _ db h in
    let (_, d1, h1, k1) = bind_ok (assert_player_active env input.player_id) _ d0 k0 in
    let (_, d2, h2, k2) = bind_ok (assert_not_too_many_open env input.player_id) _ d1 k1 in
    let (_, d3, h3, k3) = bind_ok (assert_single_deposit_limit limit input.amount_minor) _ d2 k2 in
    let (_, d4, h4, k4) = bind_ok (assert_cooldown env limit input.player_id) _ d3 k3 in
    let (window, d5, h5, k5) = bind_ok (assert_rolling_cap env limit input) _ d4 k4 in
    let (clear, same0) = require_ok _ _ db h0 in
    let (tenant, player, context, found, live, same1) = active_ok env input.player_id d0 h1 in
    let (few, same2) = require_ok _ _ d1 h2 in
    let (small, same3) = single_ok limit input.amount_minor d2 h3 in
    let (calm, same4) = cooldown_ok env limit input.player_id d3 h4 in
    let to1 = same1 ∙ same0 in
    let to3 = same3 ∙ same2 ∙ to1 in
    let to4 = same4 ∙ to3 in
    let (capped, held, same5) = cap_ok env limit input d4 h5 in
    let few_open : count_open_for_player env input.player_id db.deposits
        < max_open_deposits_per_player =
      ltb→lt _ _ (
        subst
          (λ (x : Db).
            ltb (count_open_for_player env input.player_id x.deposits) max_open_deposits_per_player
            ≡ true)
          to1 few) in
    let has_rested = subst (λ (x : Db). rested env limit input.player_id x ≡ true) to3 calm in
    let within_cap =
      subst
        (λ (x : Db).
          allows (cap_of limit)
            (sum_accepted_since env.now input.player_id x.deposits +ℤ input.amount_minor)
          ≡ true)
        to4 capped in
    let seen =
      subst
        (λ (x : Db). window ≡ (sum_accepted_since env.now input.player_id x.deposits, cap_of limit))
        to4 held in
    (
      record {
        not_excluded = ground (arith, clear);
        tenant = tenant;
        in_tenant = context;
        player = player;
        is_there =
            subst (λ (x : Db). find (is_player tenant input.player_id) x.players ≡ some player)
              same0 found;
        is_active = live;
        few_open = few_open;
        within_single = small;
        has_rested = has_rested;
        within_cap = within_cap;
      },
      sym (returned k5).1 ∙ same5 ∙ to4,
      sym (returned k5).0
          ∙ ap
              (λ (w : ℤ × Option ℤ). record {
                applied_limit_id = limit_id limit;
                window_used_minor = w.0;
                window_cap_minor = w.1;
              })
              seen,
    )

-- The policy lets a deposit through, and answers with the limit row that applied, what the window holds
-- and its cap, exactly when it is permitted: no self-exclusion is in force, the player of the operator in
-- context is neither suspended, excluded nor closed, fewer than three of the player's deposits are open,
-- and the limit in force has room for the amount, alone and in the window, and has no cooldown running.
-- It writes nothing.
pub assert_may_deposit_lem :
    (env : Env) (input : PolicyCheckInput) (db : Db)
    → (assert_may_deposit env input db ≡ ok (decision_on env input db, db)) ↔ Permits env input db
assert_may_deposit_lem env input db =
    (λ h. (permitted env input db h).0, λ p. Permits-ok env input db p)
