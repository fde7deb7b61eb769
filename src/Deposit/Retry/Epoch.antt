-- ===== src/Deposit/Retry/Epoch.antt =====
-- What a credit that is run again leaves behind (src/modules/deposit/services/deposit-retry.service.ts).
use telegram_mini_app.Prelude.{
  ℕ, ◌+◌, ◌++◌, [], ◌∷◌, any, arith, true, Option, none, some, is_some, find, ◌≡◌, refl, sym, ap,
  ◌∙◌, subst, inl, inr,
}
use telegram_mini_app.Prelude.Integers.{ℤ}
use telegram_mini_app.Prelude.Text.{Text, text}
use telegram_mini_app.Types.{
  DepositStatus, approved, credit_failed, needs_reconciliation, super_admin, finance_admin,
  status_in, ok, admin_actor, forbidden, business_rule, admin_no_approval_limit,
  deposit_invalid_state,
}
use telegram_mini_app.Db.{Db, Env, bind_ok, returned, require, is_deposit, write_audit}
use telegram_mini_app.Db.Rows.{Deposit}
use telegram_mini_app.Deposit.StateMachine.{
  TransitionInput, TransitionOutcome, transitioned, already_handled, transition,
}
use telegram_mini_app.Deposit.StateMachine.Once.{IsKeyed, Rewritten, transition_won}
use telegram_mini_app.Deposit.StateMachine.Writes.{KeepsClaim, transition-cases}
use telegram_mini_app.Deposit.StateMachine.Patch.{credited_amount_minor}
use telegram_mini_app.Deposit.Credit.Keys.{outbox_input}
use telegram_mini_app.Deposit.Review.{require_deposit}
use telegram_mini_app.Deposit.Review.FourEyes.{same_row, require_ok, require_deposit_found}
use telegram_mini_app.Admin.Authority.{AuthenticatedAdmin, holds_any_role}
use telegram_mini_app.Prelude.Decimal.{decimal}
use telegram_mini_app.Outbox.{same_key, enqueue}
use telegram_mini_app.Outbox.Holds.{enqueue_holds}
use telegram_mini_app.Outbox.Frame.{
  SameBooks, SameBooks-trans, SameBooks-of_eq, write_audit-SameBooks, enqueue-SameBooks,
}
use telegram_mini_app.Deposit.Retry.{
  Requeued, allowed_roles, is_requeueable, requeue_input, requeued_with, requeue_amount,
  requeue_credit,
}

-- The answer names a move only where the transition won.
requeued_won :
    (env : Env) (before : Deposit) (admin : AuthenticatedAdmin) (amount : ℤ)
    (outcome : TransitionOutcome) (db : Db) {r : Requeued} {db' : Db}
    → requeued_with env before admin amount outcome db ≡ ok (r, db')
    → r.requeued ≡ true
    → (row : Deposit) × (from : DepositStatus) × (outcome ≡ transitioned row from)
unfolding requeued_with
requeued_won env before admin amount (transitioned row from) db h e = (row, from, refl)
requeued_won env before admin amount (already_handled current reason) db h e =
    absurd (cc (ap (λ (x : Requeued). x.requeued) (returned h).0))

requeued-SameBooks :
    (env : Env) (before : Deposit) (admin : AuthenticatedAdmin) (amount : ℤ)
    (outcome : TransitionOutcome) (db : Db) {r : Requeued} {db' : Db}
    → requeued_with env before admin amount outcome db ≡ ok (r, db')
    → SameBooks db db'
unfolding requeued_with
requeued-SameBooks env before admin amount (already_handled current reason) db h =
    SameBooks-of_eq (sym (returned h).1)
requeued-SameBooks env before admin amount (transitioned row from) db h =
    let (_, d1, h1, k1) =
      bind_ok
        (write_audit env (text "deposit.credit.requeue") (admin_actor admin.admin_user_id) before.id
          (some amount))
        _ db h in
    let (_, d2, h2, k2) = bind_ok (enqueue env _) _ d1 k1 in
    SameBooks-trans (write_audit-SameBooks env _ _ _ _ db h1)
      (SameBooks-trans (enqueue-SameBooks env _ d1 h2) (SameBooks-of_eq (sym (returned k2).1)))

requeued_epoch :
    (env : Env) (before : Deposit) (admin : AuthenticatedAdmin) (amount : ℤ)
    (outcome : TransitionOutcome) (db : Db) {r : Requeued} {db' : Db}
    → requeued_with env before admin amount outcome db ≡ ok (r, db')
    → r.requeued ≡ true
    → r.epoch ≡ before.credit_key_epoch + 1
unfolding requeued_with
requeued_epoch env before admin amount (already_handled current reason) db h e =
    absurd (cc (ap (λ (x : Requeued). x.requeued) (returned h).0))
requeued_epoch env before admin amount (transitioned row from) db h e =
    let (_, d1, h1, k1) =
      bind_ok
        (write_audit env (text "deposit.credit.requeue") (admin_actor admin.admin_user_id) before.id
          (some amount))
        _ db h in
    let (_, d2, h2, k2) = bind_ok (enqueue env _) _ d1 k1 in
    sym (ap (λ (x : Requeued). x.epoch) (returned k2).0)

-- A transition writes no ledger entry.
transition_entries :
    (env : Env) (input : TransitionInput) (db : Db) {o : TransitionOutcome} {db' : Db}
    → transition env input db ≡ ok (o, db')
    → db'.entries ≡ db.entries
transition_entries env input db h = elim (transition-cases env input db h) [
  | inl m ↦ ap (λ (x : Db). x.entries) m.same
  | inr s ↦ ap (λ (x : Db). x.entries) s.after
]

-- The key of the message that asks for a credit under an epoch.
abbrev pub credit_key : Deposit → ℕ → Text
credit_key d epoch = text "deposit.credit_requested:" ++ (d.id ++ (text ":" ++ decimal epoch))

-- A call that went through: the table holds the deposit APPROVED, under the next epoch, with the readings
-- of the old attempt erased and its claim and its amount as they were; the message for that epoch stands
-- in the outbox, and no ledger entry was written.
pub record Rerun (tenant : Text) (before : Deposit) (db : Db) (r : Requeued) (db' : Db)
    : Type 0 where
  pub row : Deposit
  pub stands : find (is_deposit tenant before.id) db'.deposits ≡ some row
  pub status : row.status ≡ approved
  pub epoch : row.credit_key_epoch ≡ before.credit_key_epoch + 1
  pub balance_before : row.balance_before_minor ≡ none
  pub balance_after : row.balance_after_minor ≡ none
  pub verified_by : row.credit_verified_by ≡ none
  pub amount : row.credited_amount_minor ≡ before.credited_amount_minor
  pub claim : KeepsClaim before row
  pub answered : r.epoch ≡ before.credit_key_epoch + 1
  pub told :
      any (same_key tenant (credit_key before (before.credit_key_epoch + 1))) db'.outbox ≡ true
  pub entries : db'.entries ≡ db.entries

-- What follows the transition where it won.
requeued_told :
    (env : Env) (tenant : Text) (before : Deposit) (admin : AuthenticatedAdmin) (amount : ℤ)
    (outcome : TransitionOutcome) (db : Db) {r : Requeued} {db' : Db}
    → env.tenant ≡ some tenant
    → requeued_with env before admin amount outcome db ≡ ok (r, db')
    → r.requeued ≡ true
    → any (same_key tenant (credit_key before (before.credit_key_epoch + 1))) db'.outbox ≡ true
unfolding requeued_with outbox_input
requeued_told env tenant before admin amount (already_handled current reason) db context h e =
    absurd (cc (ap (λ (x : Requeued). x.requeued) (returned h).0))
requeued_told env tenant before admin amount (transitioned row from) db context h e =
    let key = credit_key before (before.credit_key_epoch + 1) in
    let (_, d1, h1, k1) =
      bind_ok
        (write_audit env (text "deposit.credit.requeue") (admin_actor admin.admin_user_id) before.id
          (some amount))
        _ db h in
    let (_, d2, h2, k2) = bind_ok (enqueue env _) _ d1 k1 in
    subst (λ (x : Db). any (same_key tenant key) x.outbox ≡ true) (returned k2).1
      (enqueue_holds env _ tenant key d1 context refl h2)

requeue_written :
    (env : Env) (before d row : Deposit) (admin : AuthenticatedAdmin)
    → Rewritten env (requeue_input before admin) d row
    → (row.status ≡ approved)
      × (row.credit_key_epoch ≡ before.credit_key_epoch + 1)
      × (row.balance_before_minor ≡ none)
      × (row.balance_after_minor ≡ none)
      × (row.credit_verified_by ≡ none)
      × (row.credited_amount_minor ≡ d.credited_amount_minor)
unfolding requeue_input
requeue_written env before d row admin w = (
  w.arrived,
  w.patched.0 refl,
  w.patched.1.0 refl,
  w.patched.1.1.0 refl,
  w.patched.1.1.1.0 refl,
  w.others (credited_amount_minor d.credited_amount_minor) refl refl,
)

requeue_names :
    (before : Deposit) (admin : AuthenticatedAdmin)
    → (requeue_input before admin).deposit_request_id ≡ before.id
unfolding requeue_input
requeue_names before admin = refl

requeue_amount_won :
    (env : Env) (tenant id : Text) (before : Deposit) (admin : AuthenticatedAdmin)
    (amount : Option ℤ) (db : Db) {r : Requeued} {db' : Db}
    → IsKeyed db.deposits
    → env.tenant ≡ some tenant
    → find (is_deposit tenant id) db.deposits ≡ some before
    → requeue_amount env before admin amount db ≡ ok (r, db')
    → r.requeued ≡ true
    → (is_some amount ≡ true) × Rerun tenant before db r db'
unfolding requeue_amount requeue_input
requeue_amount_won env tenant id before admin none db keyed context found h e = absurd (cc)
requeue_amount_won env tenant id before admin (some amount) db {r} {db'} keyed context found h e =
    let input = requeue_input before admin in
    let (outcome, mid, h1, k1) = bind_ok (transition env input) _ db h in
    let (row, from, won) = requeued_won env before admin amount outcome mid k1 e in
    let kept = requeued-SameBooks env before admin amount outcome mid k1 in
    let moved = subst (λ o. transition env input db ≡ ok (o, mid)) won h1 in
    let (other, d, _, there, named, _, _, stands, wrote, _, _) =
      transition_won env input db keyed moved in
    let owner : other ≡ tenant = cc in
    let same : d ≡ before = same_row env tenant other id db context there found named in
    let (status, epoch, b0, b1, by, kept_amount) = requeue_written env before d row admin wrote in
    let here : find (is_deposit tenant before.id) mid.deposits ≡ some row =
      subst (λ t. find (is_deposit t before.id) mid.deposits ≡ some row) owner stands in
    (
      refl,
      record {
        row = row;
        stands =
            subst (λ ds. find (is_deposit tenant before.id) ds ≡ some row) (sym kept.deposits) here;
        status = status;
        epoch = epoch;
        balance_before = b0;
        balance_after = b1;
        verified_by = by;
        amount = kept_amount ∙ ap (λ (x : Deposit). x.credited_amount_minor) same;
        claim = subst (λ x. KeepsClaim x row) same wrote.claim;
        answered = requeued_epoch env before admin amount outcome mid k1 e;
        told = requeued_told env tenant before admin amount outcome mid context k1 e;
        entries = kept.entries ∙ transition_entries env input db h1;
      },
    )

-- A credit is run again only by an admin who may, only for a deposit of the operator in context that
-- failed or is unresolved and has an amount to credit. Where the answer says that it was, and ids are
-- unique, the table holds the deposit APPROVED under the next epoch, with the readings of the old attempt
-- erased and its claim and amount as they were; the message that asks for the credit under that epoch
-- stands in the outbox, and no ledger entry was written.
pub requeue_credit_won :
    (env : Env) (id : Text) (admin : AuthenticatedAdmin) (db : Db) {r : Requeued} {db' : Db}
    → IsKeyed db.deposits
    → requeue_credit env id admin db ≡ ok (r, db')
    → r.requeued ≡ true
    → (tenant : Text) × (d : Deposit) × (env.tenant ≡ some tenant)
      × (find (is_deposit tenant id) db.deposits ≡ some d)
      × (holds_any_role admin (super_admin ∷ finance_admin ∷ []) ≡ true)
      × (status_in d.status (credit_failed ∷ needs_reconciliation ∷ []) ≡ true)
      × (is_some d.credited_amount_minor ≡ true)
      × Rerun tenant d db r db'
unfolding requeue_credit
requeue_credit_won env id admin db {r} {db'} keyed h won =
    let (_, d0, h0, k0) =
      bind_ok (require (holds_any_role admin allowed_roles) (forbidden admin_no_approval_limit)) _
        db h in
    let (before, d1, h1, k1) = bind_ok (require_deposit env id) _ d0 k0 in
    let (_, d2, h2, k2) =
      bind_ok (require (is_requeueable before) (business_rule deposit_invalid_state)) _ d1 k1 in
    let (may, same0) = require_ok _ _ db h0 in
    let (tenant, context, found, same1) = require_deposit_found env id d0 h1 in
    let (retryable, same2) = require_ok _ _ d1 h2 in
    let same : d2 ≡ db = same2 ∙ same1 ∙ same0 in
    let here : find (is_deposit tenant id) db.deposits ≡ some before = rw (same0) at found in
    let (amount, rerun) =
      requeue_amount_won env tenant id before admin before.credited_amount_minor db keyed context
        here
        (subst (λ x. requeue_amount env before admin before.credited_amount_minor x ≡ ok (r, db'))
          same k2)
        won in
    (tenant, before, context, here, may, ground (arith, retryable), amount, rerun)
