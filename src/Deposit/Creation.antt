-- ===== src/Deposit/Creation.antt =====
-- Opening a deposit: `create` of src/modules/deposit/services/deposit.service.ts. The payment methods and
-- their rails are reached through the interface of src/modules/deposit/ports/index.ts. The source, address
-- and browser of the request, and what is rendered for the player, are left out.
pub mod Cases
pub mod Limits
pub mod Replay
use telegram_mini_app.Prelude.{
  ℕ, ◌+◌, ◌*◌, Bool, true, false, not, ◌&&◌, ◌||◌, List, [], ◌∷◌, Option, none, some, any, find,
  or_else, if◌then◌else◌,
}
use telegram_mini_app.Prelude.Integers.{ℤ, pos, ◌+ℤ◌, eqb_ℤ}
use telegram_mini_app.Prelude.Text.{Text, text, text_eq, is_text, nonempty}
use telegram_mini_app.Types.{
  Actor, DepositStatus, draft, awaiting_proof, rejected, status_eq, TenantStatus, active_tenant,
  suspended_tenant, closed_tenant, Error, Result, ok, err, business_rule, validation_error,
  transaction_aborted, tenant_not_active, tenant_staff_group_required, reference_already_used,
  payment_destination_unavailable,
}
use telegram_mini_app.Db.{
  Db, Env, Tx, pure, throw, ◌>>=◌, ◌>>◌, require, require_effective_tenant_id, generate_id,
  write_audit,
}
use telegram_mini_app.Db.Rows.{Deposit, Tenant}
use telegram_mini_app.Money.Scale.{trim}
use telegram_mini_app.Money.Divide.{half_up, apply_bps}
use telegram_mini_app.Deposit.StateMachine.{
  TransitionInput, TransitionOutcome, no_guard, transition,
}
use telegram_mini_app.Deposit.Policy.{PolicyCheckInput, PolicyDecision, assert_may_deposit}

pub data PaymentRail : Type 0 where
  bank_transfer mobile_wallet cash_office crypto internal : PaymentRail

pub record ResolvedPaymentMethod : Type 0 where
  pub id : Text
  pub rail : PaymentRail
  pub currency_code : Text
  pub fee_fixed_minor : ℤ
  pub fee_bps : ℤ

pub data RailStage : Type 0 where
  create_stage submit_stage : RailStage

pub record SubmissionCheckInput : Type 0 where
  pub payment_method_id : Text
  pub destination_id : Option Text
  pub amount_minor : ℤ
  pub external_reference : Option Text
  pub sender_account : Option Text
  pub proof_count : ℕ
  pub stage : RailStage

-- The code of each issue.
pub data SubmissionCheck : Type 0 where
  accepted : SubmissionCheck
  issues : List Text → SubmissionCheck

-- `PAYMENT_METHOD_PORT`, as it answers this call. A destination is its id.
pub record PaymentMethodPort : Type 0 where
  pub get_active_by_id : Text → Result ResolvedPaymentMethod
  pub pick_destination : Text → Text → Result Text
  pub check_submission : SubmissionCheckInput → SubmissionCheck

-- The configured minutes that a player has to pay, whether the database lets a transaction go on after
-- a statement of it has failed (PostgreSQL does not), and what others commit between the first reads
-- and the transaction.
pub record Surroundings : Type 0 where
  pub payments : PaymentMethodPort
  pub deposit_expiry_minutes : ℕ
  pub survives_failure : Bool
  pub others : Db → Db

pub record CreateDepositInput : Type 0 where
  pub player_id : Text
  pub payment_method_id : Text
  pub payment_destination_id : Option Text
  pub amount_minor : ℤ
  pub external_reference : Option Text
  pub sender_account : Option Text
  pub idempotency_key : Option Text

pub record CreatedDeposit : Type 0 where
  pub short_id : Text
  pub status : DepositStatus
  pub amount_minor : ℤ
  pub fee_minor : ℤ
  pub currency_code : Text
  pub expires_at : ℕ

-- A blank field is absent.
unfoldable pub blank_to_null : Option Text → Option Text
blank_to_null none = none
blank_to_null (some value) = if nonempty (trim value) then some (trim value) else none

abbrev pub lift : {A : Type 0} → Result A → Tx A
lift (ok a) = pure a
lift (err e) = throw e

abbrev pub is_serving : Tenant → Bool
is_serving t = elim t.status [
  | active_tenant ↦ true
  | suspended_tenant ↦ false
  | closed_tenant ↦ false
]

-- `boundChatOf(adminChatId) === null`.
abbrev pub is_unbound : Tenant → Bool
is_unbound t = eqb_ℤ t.admin_chat_id (pos 0)

unfoldable pub assert_operator_serving : Env → Tx (Unit {0})
assert_operator_serving env = do
  tenant ← require_effective_tenant_id env
  λ db. elim (find (λ (t : Tenant). text_eq t.id tenant) db.tenants) [
    | none ↦ throw (business_rule tenant_not_active) db
    | some t ↦
        (do
          require (is_serving t) (business_rule tenant_not_active)
          require (not (is_unbound t)) (business_rule tenant_staff_group_required))
          db
  ]

-- The client may name a destination only if it is the one that the rotation picks.
unfoldable pub resolve_destination : PaymentMethodPort → CreateDepositInput → Text → Result Text
resolve_destination port input method = elim (port.pick_destination method input.player_id) [
  | err e ↦ err e
  | ok picked ↦ elim input.payment_destination_id [
    | none ↦ ok picked
    | some asked ↦
        if text_eq asked picked
        then ok picked
        else err (business_rule payment_destination_unavailable)
  ]
]

-- The code of the first issue.
abbrev pub issue_code : List Text → Text
issue_code [] = text "REFERENCE_MALFORMED"
issue_code (code ∷ codes) = code

unfoldable pub assert_rail_accepts : PaymentMethodPort → SubmissionCheckInput → Tx (Unit {0})
assert_rail_accepts port input = elim (port.check_submission input) [
  | accepted ↦ pure tt
  | issues codes ↦ throw (validation_error (issue_code codes))
]

unfoldable pub fee_for : ResolvedPaymentMethod → ℤ → Result ℤ
fee_for method amount = elim method.rail [
  | internal ↦ ok (pos 0)
  | _ ↦ elim (apply_bps amount method.fee_bps half_up) [
    | ok fee ↦ ok (method.fee_fixed_minor +ℤ fee)
    | err e ↦ err e
  ]
]

-- What `insertDeposit` is handed.
pub record DepositArgs : Type 0 where
  pub input : CreateDepositInput
  pub method : ResolvedPaymentMethod
  pub destination : Text
  pub fee_minor : ℤ
  pub expires_at : ℕ
  pub reference : Option Text
  pub sender_account : Option Text

abbrev pub deposit_row : Env → DepositArgs → Text → Text → Text → Deposit
deposit_row env args tenant short id = record {
  id = id;
  tenant_id = tenant;
  short_id = short;
  player_id = args.input.player_id;
  payment_method_id = args.method.id;
  payment_destination_id = some args.destination;
  currency_code = args.method.currency_code;
  status = draft;
  claimed_amount_minor = args.input.amount_minor;
  verified_amount_minor = none;
  credited_amount_minor = none;
  fee_minor = args.fee_minor;
  external_reference = args.reference;
  sender_account = args.sender_account;
  expires_at = some args.expires_at;
  submitted_at = none;
  review_started_at = none;
  decided_at = none;
  second_approved_at = none;
  credited_at = none;
  decided_by_admin_id = none;
  second_approver_admin_id = none;
  rejection_code = none;
  rejection_note = none;
  idempotency_key = args.input.idempotency_key;
  credit_key_epoch = 0;
  credit_attempts = 0;
  credit_verified_by = none;
  balance_before_minor = none;
  balance_after_minor = none;
  ledger_claim_tx_id = none;
  ledger_credit_tx_id = none;
  admin_chat_id = none;
  admin_message_id = none;
  admin_thread_id = none;
  created_at = env.now;
  updated_at = env.now;
}

-- UNIQUE(tenant_id, idempotency_key), where NULL equals nothing.
abbrev pub has_idempotency_key : Text → Text → Deposit → Bool
has_idempotency_key tenant key d = is_text d.idempotency_key key && text_eq d.tenant_id tenant

-- `uq_deposit_external_reference_active` (prisma/sql/004_partial_indexes.sql).
abbrev pub claims_reference : Text → Text → Deposit → Bool
claims_reference method reference d =
    is_text d.external_reference reference
    && (text_eq d.payment_method_id method && not (status_eq d.status rejected))

abbrev pub under_key : (Text → Deposit → Bool) → Option Text → List Deposit → Bool
under_key test key deposits = elim key [ none ↦ false | some k ↦ any (test k) deposits ]

-- Does a unique index of the table refuse the row?
abbrev pub collides : Deposit → List Deposit → Bool
collides row deposits =
    under_key (has_idempotency_key row.tenant_id) row.idempotency_key deposits
    || (under_key (claims_reference row.payment_method_id) row.external_reference deposits
        || any
            (λ (d : Deposit). text_eq d.short_id row.short_id && text_eq d.tenant_id row.tenant_id)
            deposits)

-- `DepositRepository.findByIdempotencyKey`.
abbrev pub find_by_idempotency_key : Text → Text → List Deposit → Option Deposit
find_by_idempotency_key tenant key deposits = find (has_idempotency_key tenant key) deposits

-- After a refused insert: the deposit of the key, flagged as a replay.
unfoldable pub explain_refusal : Bool → Text → Option Text → Tx (Deposit × Bool)
explain_refusal survives tenant none db = throw (business_rule reference_already_used) db
explain_refusal survives tenant (some key) db =
    if survives
    then elim (find_by_idempotency_key tenant key db.deposits) [
      | none ↦ throw (business_rule reference_already_used) db
      | some existing ↦ pure (existing, true) db
    ]
    else throw transaction_aborted db

-- The insert of a row, and whether one was there before.
unfoldable pub store_deposit : Bool → Deposit → Tx (Deposit × Bool)
store_deposit survives row db =
    if collides row db.deposits
    then explain_refusal survives row.tenant_id row.idempotency_key db
    else ok ((row, false), record db { deposits = row ∷ db.deposits })

unfoldable pub insert_deposit : Env → Bool → DepositArgs → Tx (Deposit × Bool)
insert_deposit env survives args = do
  tenant ← require_effective_tenant_id env
  short ← generate_id
  id ← generate_id
  store_deposit survives (deposit_row env args tenant short id)

abbrev pub opening_input : Actor → Text → TransitionInput
opening_input actor id = record {
  deposit_request_id = id;
  from = draft ∷ [];
  to = awaiting_proof;
  actor = actor;
  patch = [];
  guard = no_guard;
}

unfoldable pub announce_opening : Env → Actor → Deposit × Bool → Tx Deposit
announce_opening env actor (d, true) = pure d
announce_opening env actor (d, false) = do
  transition env (opening_input actor d.id)
  write_audit env (text "deposit.create") actor d.id (some d.claimed_amount_minor)
  pure (record d { status = awaiting_proof })

abbrev pub policy_input : DepositArgs → PolicyCheckInput
policy_input args = record {
  player_id = args.input.player_id;
  currency_code = args.method.currency_code;
  amount_minor = args.input.amount_minor;
}

-- The transaction of `create`.
unfoldable pub open_deposit : Env → Bool → Actor → DepositArgs → Tx Deposit
open_deposit env survives actor args = do
  assert_may_deposit env (policy_input args)
  created ← insert_deposit env survives args
  announce_opening env actor created

abbrev pub creation_check : ResolvedPaymentMethod → Text → CreateDepositInput → SubmissionCheckInput
creation_check method destination input = record {
  payment_method_id = method.id;
  destination_id = some destination;
  amount_minor = input.amount_minor;
  external_reference = blank_to_null input.external_reference;
  sender_account = blank_to_null input.sender_account;
  proof_count = 0;
  stage = create_stage;
}

abbrev pub created_view : ℕ → Deposit → CreatedDeposit
created_view expires d = record {
  short_id = d.short_id;
  status = d.status;
  amount_minor = d.claimed_amount_minor;
  fee_minor = d.fee_minor;
  currency_code = d.currency_code;
  expires_at = or_else d.expires_at expires;
}

unfoldable pub create_deposit : Env → Surroundings → Actor → CreateDepositInput → Tx CreatedDeposit
create_deposit env around actor input = do
  assert_operator_serving env
  method ← lift (around.payments.get_active_by_id input.payment_method_id)
  destination ← lift (resolve_destination around.payments input method.id)
  assert_rail_accepts around.payments (creation_check method destination input)
  fee ← lift (fee_for method input.amount_minor)
  let expires = env.now + around.deposit_expiry_minutes * 60000
  d ← λ db.
      open_deposit env around.survives_failure actor
        (record {
          input = input;
          method = method;
          destination = destination;
          fee_minor = fee;
          expires_at = expires;
          reference = blank_to_null input.external_reference;
          sender_account = blank_to_null input.sender_account;
        })
        (around.others db)
  pure (created_view expires d)
