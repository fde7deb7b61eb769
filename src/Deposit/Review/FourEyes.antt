-- ===== src/Deposit/Review/FourEyes.antt =====
-- Who may have approved a deposit.
use telegram_mini_app.Prelude.{
  Bool, true, false, not, some, find, ◌≡◌, ◌≢◌, refl, sym, ◌∙◌, arith, Bool-cases, Option-cases,
  inl, inr, find-holds,
}
use telegram_mini_app.Prelude.Integers.{ℤ, pos, ◌-ℤ◌, leb_ℤ}
use telegram_mini_app.Prelude.Text.{Text, text_eq_iff, is_text}
use telegram_mini_app.Types.{
  DepositStatus, pending_second_approval, status_eq, Error, business_rule, verified_amount_required,
  ok,
}
use telegram_mini_app.Db.{
  Db, Env, write_audit, require, is_deposit, bind_ok, returned, require_effective_tenant_id,
  find_by_id_in_tenant,
}
use telegram_mini_app.Db.Rows.{Deposit}
use telegram_mini_app.Deposit.StateMachine.{
  TransitionOutcome, transitioned, already_handled, guard_failed, transition,
}
use telegram_mini_app.Deposit.StateMachine.Once.{IsKeyed, transition_won}
use telegram_mini_app.Deposit.Review.{
  approved_as, ApproveInput, assert_can_decide, require_deposit, evaluate_authority, authority_of,
}
use telegram_mini_app.Deposit.Review.Approval.{
  approve, approve_decided, verified_of, is_needs_second, record_first_approval, first_input,
  parked, finalize_approval, approval_input, settle_approval, approval_guard, other_decider,
}
use telegram_mini_app.Outbox.{enqueue}
use telegram_mini_app.Admin.Limits.{ApprovalDecision, allowed, needs_second, denied, evaluate}

pub require_ok :
    (b : Bool) (e : Error) (db : Db) {u : Unit {0}} {db' : Db}
    → require b e db ≡ ok (u, db')
    → (b ≡ true) × (db' ≡ db)
require_ok true e db h = (refl, sym (returned h).1)
require_ok false e db h = absurd (cc)

assert_can_decide_same :
    (input : ApproveInput) (db : Db) {u : Unit {0}} {db' : Db}
    → assert_can_decide input.admin db ≡ ok (u, db')
    → db' ≡ db
unfolding assert_can_decide
assert_can_decide_same input db h = (require_ok _ _ db h).1

pub require_deposit_found :
    (env : Env) (id : Text) (db : Db) {d : Deposit} {db' : Db}
    → require_deposit env id db ≡ ok (d, db')
    → (tenant : Text) × (env.tenant ≡ some tenant)
      × (find (is_deposit tenant id) db.deposits ≡ some d)
      × (db' ≡ db)
unfolding require_deposit require_effective_tenant_id find_by_id_in_tenant
require_deposit_found env id db {d} {db'} h = elim (Option-cases env.tenant) [
  | inl none_set ↦ absurd (ground arith)
  | inr (tenant, e) ↦ elim (Option-cases (find (is_deposit tenant id) db.deposits)) [
    | inl gone ↦ absurd (ground arith)
    | inr (row, found) ↦ (tenant, e, ground arith, ground arith)
  ]
]

authority_of_ok :
    (x : ApprovalDecision) (db : Db) {decision : ApprovalDecision} {db' : Db}
    → authority_of x db ≡ ok (decision, db')
    → (decision ≡ x) × (x ≢ denied) × (db' ≡ db)
unfolding authority_of
authority_of_ok allowed db h = (sym (returned h).0, λ e. absurd (cc), sym (returned h).1)
authority_of_ok needs_second db h = (sym (returned h).0, λ e. absurd (cc), sym (returned h).1)
authority_of_ok denied db h = absurd (cc)

evaluate_authority_ok :
    (env : Env) (input : ApproveInput) (amount : ℤ) (currency tenant : Text) (db : Db)
    {decision : ApprovalDecision} {db' : Db}
    → env.tenant ≡ some tenant
    → evaluate_authority env input amount currency db ≡ ok (decision, db')
    → (decision ≡ evaluate env tenant input.admin amount currency db)
      × (evaluate env tenant input.admin amount currency db ≢ denied)
      × (db' ≡ db)
unfolding evaluate_authority require_effective_tenant_id evaluate
evaluate_authority_ok env input amount currency tenant db e h = authority_of_ok _ db (rw e at h)

-- The first of two approvals does not return `approved`.
parked_lem :
    (env : Env) (before : Deposit) (input : ApproveInput) (verified : ℤ)
    (outcome : TransitionOutcome) (db : Db) {tx : Text} {db' : Db}
    → parked env before input.admin verified outcome db ≢ ok (approved_as tx, db')
unfolding parked
parked_lem env before input verified (already_handled current reason) db h = absurd (cc)
parked_lem env before input verified (transitioned d from) db h =
    let (_, d1, _, h1) = bind_ok (write_audit env _ _ _ _) _ db h in
    let (_, d2, _, h2) = bind_ok (enqueue env _) _ d1 h1 in absurd (cc (returned h2).0)

parked_not_approved :
    (env : Env) (before : Deposit) (input : ApproveInput) (verified : ℤ) (db : Db) {tx : Text}
    {db' : Db}
    → record_first_approval env before input.admin verified db ≢ ok (approved_as tx, db')
unfolding record_first_approval
parked_not_approved env before input verified db h =
    let (outcome, mid, _, k) =
      bind_ok (transition env (first_input env before input.admin verified)) _ db h in
    parked_lem env before input verified outcome mid k

settled_transitioned :
    (env : Env) (before : Deposit) (input : ApproveInput) (verified amount : ℤ) (second : Bool)
    (outcome : TransitionOutcome) (db : Db) {tx : Text} {db' : Db}
    → settle_approval env before input verified amount second outcome db ≡ ok (approved_as tx, db')
    → (d : Deposit) × (from : DepositStatus) × (outcome ≡ transitioned d from)
unfolding settle_approval
settled_transitioned env before input verified amount second (transitioned d from) db h =
    (d, from, refl)
settled_transitioned env before input verified amount second (already_handled current guard_failed)
      db h =
    absurd (cc)
settled_transitioned env before input verified amount second (already_handled current _) db h =
    absurd (cc)

at_start :
    (env : Env) (before : Deposit) (input : ApproveInput) (second : Bool) {db d1 d2 : Db}
    {outcome : TransitionOutcome} {row : Deposit} {from : DepositStatus}
    → d1 ≡ db
    → transition env (approval_input env before input.admin second) d1 ≡ ok (outcome, d2)
    → outcome ≡ transitioned row from
    → transition env (approval_input env before input.admin second) db
      ≡ ok (transitioned row from, d2)
at_start env before input second same h e = rw same at (rw e at h)

-- A final approval came from the compare-and-swap.
finalized :
    (env : Env) (before : Deposit) (input : ApproveInput) (verified : ℤ) (second : Bool) (db : Db)
    {tx : Text} {db' : Db}
    → finalize_approval env before input verified second db ≡ ok (approved_as tx, db')
    → (d : Deposit) × (from : DepositStatus) × (mid : Db) × (transition env
          (approval_input env before input.admin second)
          db
        ≡ ok (transitioned d from, mid))
unfolding finalize_approval
finalized env before input verified second db {tx} {db'} h =
    let (_, d1, h1, k1) =
      bind_ok
        (require (not (leb_ℤ (verified -ℤ before.fee_minor) (pos 0)))
          (business_rule verified_amount_required))
        _ db h in
    let (outcome, d2, h2, k2) =
      bind_ok (transition env (approval_input env before input.admin second)) _ d1 k1 in
    let (row, from, e) =
      settled_transitioned env before input verified (verified -ℤ before.fee_minor) second outcome
        d2 k2 in
    (row, from, d2, at_start env before input second (require_ok _ _ db h1).1 h2 e)

-- The row that the compare-and-swap finds is the one that was read before it.
pub same_row :
    (env : Env) (tenant other id : Text) (db : Db) {before d : Deposit}
    → env.tenant ≡ some tenant
    → env.tenant ≡ some other
    → find (is_deposit tenant id) db.deposits ≡ some before
    → find (is_deposit other before.id) db.deposits ≡ some d
    → d ≡ before
same_row env tenant other id db {before} {d} e f found again =
    let named : before.id ≡ id =
      (text_eq_iff before.id id).0
        (ground (arith, find-holds (is_deposit tenant id) db.deposits found)) in
    let owner : other ≡ tenant = ground arith in ground arith

guard_held :
    (env : Env) (before : Deposit) (input : ApproveInput) (d : Deposit)
    → (approval_input env before input.admin true).guard d ≡ true
    → other_decider input.admin.admin_user_id d ≡ true
unfolding approval_input approval_guard
guard_held env before input d h = ground arith

by_another :
    (env : Env) (input : ApproveInput) (db : Db) (tenant : Text) (before : Deposit) (verified : ℤ)
    {tx : Text} {db' : Db}
    → IsKeyed db.deposits
    → env.tenant ≡ some tenant
    → find (is_deposit tenant input.deposit_request_id) db.deposits ≡ some before
    → finalize_approval env before input verified true db ≡ ok (approved_as tx, db')
    → other_decider input.admin.admin_user_id before ≡ true
unfolding approval_input
by_another env input db tenant before verified keyed context found k =
    let (row, from, mid, moved) = finalized env before input verified true db k in
    let won = transition_won env (approval_input env before input.admin true) db keyed moved in
    rw (same_row env tenant won.0 input.deposit_request_id db context won.3 found won.4) at
      (guard_held env before input won.1 won.5)

-- A second approval that goes through.
decided_second :
    (env : Env) (input : ApproveInput) (db : Db) (tenant : Text) (before : Deposit) (verified : ℤ)
    {tx : Text} {db' : Db}
    → IsKeyed db.deposits
    → env.tenant ≡ some tenant
    → find (is_deposit tenant input.deposit_request_id) db.deposits ≡ some before
    → approve_decided env before input verified true db ≡ ok (approved_as tx, db')
    → (status_eq before.status pending_second_approval ≡ true)
      × (other_decider input.admin.admin_user_id before ≡ true)
unfolding approve_decided
decided_second env input db tenant before verified keyed context found h =
    elim (Bool-cases (status_eq before.status pending_second_approval)) [
      | inr early ↦ absurd (parked_not_approved env before input verified db (rw early at h))
      | inl waits ↦
          elim (Bool-cases (is_text before.decided_by_admin_id input.admin.admin_user_id)) [
            | inl itself ↦ absurd (cc (rw itself at (rw waits at h)))
            | inr another ↦ (
              waits,
              by_another env input db tenant before verified keyed context found
                  (rw another at (rw waits at h)),
            )
          ]
    ]

module _ (env : Env) (input : ApproveInput) (before : Deposit) (tenant : Text) where
  still_passed :
      {db d : Db}
      → d ≡ db
      → evaluate env tenant input.admin (verified_of input before) before.currency_code d ≢ denied
      → evaluate env tenant input.admin (verified_of input before) before.currency_code db ≢ denied
  still_passed same h = rw same at h

  as_second :
      {decision : ApprovalDecision} {db d2 d3 : Db} {tx : Text} {db' : Db}
      → d2 ≡ db
      → d3 ≡ d2
      → decision
        ≡ evaluate env tenant input.admin (verified_of input before) before.currency_code d2
      → evaluate env tenant input.admin (verified_of input before) before.currency_code db
        ≡ needs_second
      → approve_decided env before input (verified_of input before) (is_needs_second decision) d3
        ≡ ok (approved_as tx, db')
      → approve_decided env before input (verified_of input before) true db
        ≡ ok (approved_as tx, db')
  as_second {decision} same same3 asked e h =
      let second : decision ≡ needs_second = asked ∙ (rw same e) in
      rw second at (rw same at (rw same3 at h))

-- Four eyes. Where the amount asks for a second approval, an approval goes through only for a deposit
-- that waits for the second one, and whose first approver is on record and is somebody else. And the
-- evaluator did not deny the amount to the admin who asked. Ids are unique in the table.
pub approve_four_eyes :
    (env : Env) (input : ApproveInput) (db : Db) {tx : Text} {db' : Db}
    → IsKeyed db.deposits
    → approve env input db ≡ ok (approved_as tx, db')
    → (tenant : Text) × (d : Deposit) × (env.tenant ≡ some tenant)
      × (find (is_deposit tenant input.deposit_request_id) db.deposits ≡ some d)
      × (evaluate env tenant input.admin (verified_of input d) d.currency_code db ≢ denied)
      × (evaluate env tenant input.admin (verified_of input d) d.currency_code db ≡ needs_second
          → (status_eq d.status pending_second_approval ≡ true)
            × (other_decider input.admin.admin_user_id d ≡ true))
unfolding approve
approve_four_eyes env input db {tx} {db'} keyed h =
    let (_, d0, h0, k0) = bind_ok (assert_can_decide input.admin) _ db h in
    let (before, d1, h1, k1) = bind_ok (require_deposit env input.deposit_request_id) _ d0 k0 in
    let (_, d2, h2, k2) =
      bind_ok
        (require (not (leb_ℤ (verified_of input before) (pos 0)))
          (business_rule verified_amount_required))
        _ d1 k1 in
    let (decision, d3, h3, k3) =
      bind_ok (evaluate_authority env input (verified_of input before) before.currency_code) _ d2
        k2 in
    let (tenant, context, found, same1) =
      require_deposit_found env input.deposit_request_id d0 h1 in
    let same0 = assert_can_decide_same input db h0 in
    let same2 = (require_ok _ _ d1 h2).1 in
    let (asked, passed, same3) =
      evaluate_authority_ok env input (verified_of input before) before.currency_code tenant d2
        context h3 in
    (
      tenant,
      before,
      context,
      rw same0 at found,
      still_passed env input before tenant (same2 ∙ same1 ∙ same0) passed,
      λ e.
          decided_second env input db tenant before (verified_of input before) keyed context
            (rw same0 at found)
            (as_second env input before tenant (same2 ∙ same1 ∙ same0) same3 asked e k3),
    )
