-- ===== src/Deposit/Creation/Replay.antt =====
-- A request to open a deposit that is sent again (src/modules/deposit/services/deposit.service.ts).
use telegram_mini_app.Prelude.{
  ℕ, suc, ◌+◌, ◌*◌, ◌<◌, Bool, true, false, List, ◌∷◌, some, find-any, keep, map_where, ◌≡◌, ◌≢◌,
  ◌⊎◌, inl, inr, refl, ◌∙◌, subst, arith, Option-cases, if◌then◌else◌,
}
use telegram_mini_app.Prelude.Text.{Text, text_eq_refl}
use telegram_mini_app.Types.{Actor, ok, err, transaction_aborted}
use telegram_mini_app.Db.{Db, Env, bind_step, bind_throws, require_effective_tenant_id, generate_id}
use telegram_mini_app.Db.Rows.{Deposit, PlayerLimit}
use telegram_mini_app.Deposit.StateMachine.{matches, written}
use telegram_mini_app.Deposit.StateMachine.Patch.{apply_patch}
use telegram_mini_app.Deposit.Policy.{
  effective_limit, cooldown_of, is_ready, last_created, last_submission_at, is_submission_of,
  assert_may_deposit,
}
use telegram_mini_app.Deposit.Policy.Permits.{Permits, rested, context_ok, assert_may_deposit_lem}
use telegram_mini_app.Deposit.Creation.{
  DepositArgs, deposit_row, opening_input, policy_input, open_deposit, find_by_idempotency_key,
  has_idempotency_key, collides, explain_refusal, store_deposit, insert_deposit, announce_opening,
}
use telegram_mini_app.Deposit.Creation.Cases.{Replayed, Opened, open_deposit-cases, row_matches}

not_ready :
    (cooldown now : ℕ) (x : Deposit) (xs : List Deposit)
    → now < x.created_at + cooldown * 60000
    → is_ready cooldown now (last_created (x ∷ xs)) ≡ false
not_ready cooldown now x xs h = elim (Option-cases (last_created xs)) [
  | inl e ↦ rw e (ground (arith, h))
  | inr (t, e) ↦ rw e (ground (arith, h))
]

Opened-not_rested :
    (env env' : Env) (actor : Actor) (args : DepositArgs) (l : PlayerLimit) (db : Db) {d : Deposit}
    {db' : Db}
    → Opened env actor args db d db'
    → env'.tenant ≡ env.tenant
    → 0 < cooldown_of l
    → env'.now < env.now + cooldown_of l * 60000
    → rested env' (some l) args.input.player_id db' ≡ false
unfolding apply_patch
Opened-not_rested env env' actor args l db {d} {db'} o same cools soon =
    let input = opening_input actor o.id in
    let row = deposit_row env args o.tenant o.short o.id in
    let rest = map_where (matches o.tenant input) (written env input) db.deposits in
    let player = args.input.player_id in
    let waiting : is_submission_of env' player (written env input row) ≡ true =
      rw (same, o.in_context, text_eq_refl o.tenant, text_eq_refl player) refl in
    let head : db'.deposits ≡ written env input row ∷ rest =
      o.deposits ∙ rw (row_matches env actor args o.tenant o.short o.id) refl in
    let blocked : is_ready (cooldown_of l) env'.now (last_submission_at env' player db'.deposits)
        ≡ false =
      rw (head, waiting)
        (not_ready (cooldown_of l) env'.now (written env input row)
          (keep (is_submission_of env' player) rest) soon) in
    ground (arith, blocked, cools)

-- A request that is sent again while the cooldown of its player runs is refused, whether or not it bears
-- the key of the first: the deposit that the first one opened starts the cooldown, and the policy is
-- asked before the key. (The first did not itself answer with a deposit that was there under its key.)
pub retry_meets_cooldown :
    (env env' : Env) (survives survives' : Bool) (actor actor' : Actor) (args args' : DepositArgs)
    (l : PlayerLimit) (db : Db) (d : Deposit) (db' : Db) (again : Deposit × Db)
    → open_deposit env survives actor args db ≡ ok (d, db')
    → env'.tenant ≡ env.tenant
    → args'.input.player_id ≡ args.input.player_id
    → effective_limit env' args'.input.player_id args'.method.currency_code db' ≡ some l
    → 0 < cooldown_of l
    → env'.now < env.now + cooldown_of l * 60000
    → Replayed env args db d db' ⊎ (open_deposit env' survives' actor' args' db' ≢ ok again)
retry_meets_cooldown env env' survives survives' actor actor' args args' l db d db' again h same
      player limited cools soon =
    elim (open_deposit-cases env survives actor args db h).1 [
      | inl r ↦ inl r
      | inr o ↦ inr (λ k.
          let permits = (open_deposit-cases env' survives' actor' args' db' k).0 in
          let calm : rested env' (some l) args.input.player_id db' ≡ true =
            subst (λ p. rested env' (some l) p db' ≡ true) player
              (subst (λ o. rested env' o args'.input.player_id db' ≡ true) limited
                permits.has_rested) in
          absurd (cc (calm, Opened-not_rested env env' actor args l db o same cools soon)))
    ]

-- The key of the request is found before its reference and its short id are looked at.
taken_collides :
    (env : Env) (args : DepositArgs) (tenant short id key : Text) (d : Deposit)
    (deposits : List Deposit)
    → args.input.idempotency_key ≡ some key
    → find_by_idempotency_key tenant key deposits ≡ some d
    → collides (deposit_row env args tenant short id) deposits ≡ true
taken_collides env args tenant short id key d deposits e found =
    rw e (ground (arith, find-any (has_idempotency_key tenant key) deposits d found))

store_taken :
    (env : Env) (survives : Bool) (args : DepositArgs) (tenant short id key : Text) (d : Deposit)
    (db : Db)
    → args.input.idempotency_key ≡ some key
    → find_by_idempotency_key tenant key db.deposits ≡ some d
    → store_deposit survives (deposit_row env args tenant short id) db
      ≡ (if survives then ok ((d, true), db) else err transaction_aborted)
unfolding store_deposit explain_refusal
store_taken env true args tenant short id key d db e found =
    rw (taken_collides env args tenant short id key d db.deposits e found) (rw e (rw found refl))
store_taken env false args tenant short id key d db e found =
    rw (taken_collides env args tenant short id key d db.deposits e found) (rw e refl)

insert_taken :
    (env : Env) (survives : Bool) (args : DepositArgs) (tenant key : Text) (d : Deposit) (db : Db)
    → env.tenant ≡ some tenant
    → args.input.idempotency_key ≡ some key
    → find_by_idempotency_key tenant key db.deposits ≡ some d
    → insert_deposit env survives args db ≡ (
        if survives
        then ok ((d, true), record db { generated = suc (suc db.generated) })
        else err transaction_aborted)
unfolding insert_deposit generate_id
insert_taken env survives args tenant key d db context e found =
    bind_step (require_effective_tenant_id env) _ db {a = tenant} {mid = db}
      (context_ok env tenant db context)
      (store_taken env survives args tenant (db.ids db.generated) (db.ids (suc db.generated)) key d
        (record db { generated = suc (suc db.generated) }) e found)

-- A permitted request whose key the operator's deposits already hold opens nothing. Where the database
-- lets a transaction go on after a statement of it has failed, the answer is the deposit of the key, as it
-- is now, and only two identifiers are used up; where it does not, the lookup of that deposit fails too,
-- and so does the request.
pub open_deposit_taken :
    (env : Env) (survives : Bool) (actor : Actor) (args : DepositArgs) (tenant key : Text)
    (d : Deposit) (db : Db)
    → env.tenant ≡ some tenant
    → args.input.idempotency_key ≡ some key
    → find_by_idempotency_key tenant key db.deposits ≡ some d
    → Permits env (policy_input args) db
    → open_deposit env survives actor args db ≡ (
        if survives
        then ok (d, record db { generated = suc (suc db.generated) })
        else err transaction_aborted)
unfolding open_deposit announce_opening
open_deposit_taken env true actor args tenant key d db context e found permits =
    bind_step (assert_may_deposit env (policy_input args)) _ db
      ((assert_may_deposit_lem env (policy_input args) db).1 permits)
      (bind_step (insert_deposit env true args) _ db
        (insert_taken env true args tenant key d db context e found) refl)
open_deposit_taken env false actor args tenant key d db context e found permits =
    bind_step (assert_may_deposit env (policy_input args)) _ db
      ((assert_may_deposit_lem env (policy_input args) db).1 permits)
      (bind_throws (insert_deposit env false args) _ db
        (insert_taken env false args tenant key d db context e found))
