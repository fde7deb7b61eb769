-- ===== src/Types.antt =====
-- The enums of prisma/schema.prisma that the code branches on, the actor of a change
-- (src/common/types/actor.type.ts), and the errors that the modelled code throws.
use telegram_mini_app.Prelude.{
  ℕ, zero, suc, Bool, true, List, [], ◌∷◌, any, all, ◌==◌, ==_iff, ◌≡◌, refl, ap, arith, Bool-cases,
  inl, inr, sym, ◌∙◌,
}
use telegram_mini_app.Prelude.Text.{Text}

pub data DepositStatus : Type 0 where
  draft awaiting_proof submitted under_review pending_second_approval : DepositStatus
  approved crediting credited credit_failed needs_reconciliation : DepositStatus
  rejected expired reversed : DepositStatus

abbrev pub status_index : DepositStatus → ℕ
status_index draft = 0
status_index awaiting_proof = 1
status_index submitted = 2
status_index under_review = 3
status_index pending_second_approval = 4
status_index approved = 5
status_index crediting = 6
status_index credited = 7
status_index credit_failed = 8
status_index needs_reconciliation = 9
status_index rejected = 10
status_index expired = 11
status_index reversed = 12

-- `a === b` on statuses.
abbrev pub status_eq : DepositStatus → DepositStatus → Bool
status_eq a b = status_index a == status_index b

abbrev status_at : ℕ → DepositStatus
status_at zero = draft
status_at (suc zero) = awaiting_proof
status_at (suc (suc zero)) = submitted
status_at (suc (suc (suc zero))) = under_review
status_at (suc (suc (suc (suc zero)))) = pending_second_approval
status_at (suc (suc (suc (suc (suc zero))))) = approved
status_at (suc (suc (suc (suc (suc (suc zero)))))) = crediting
status_at (suc (suc (suc (suc (suc (suc (suc zero))))))) = credited
status_at (suc (suc (suc (suc (suc (suc (suc (suc zero)))))))) = credit_failed
status_at (suc (suc (suc (suc (suc (suc (suc (suc (suc zero))))))))) = needs_reconciliation
status_at (suc (suc (suc (suc (suc (suc (suc (suc (suc (suc zero)))))))))) = rejected
status_at (suc (suc (suc (suc (suc (suc (suc (suc (suc (suc (suc zero))))))))))) = expired
status_at (suc (suc (suc (suc (suc (suc (suc (suc (suc (suc (suc n))))))))))) = reversed

status_at-index : (s : DepositStatus) → status_at (status_index s) ≡ s
status_at-index draft = refl
status_at-index _ = refl

pub status_eq-eq : (s t : DepositStatus) → status_eq s t ≡ true → s ≡ t
status_eq-eq s t h = sym (status_at-index s) ∙ ap status_at ((==_iff _ _).0 h) ∙ status_at-index t

pub status_eq_refl : (s : DepositStatus) → status_eq s s ≡ true
status_eq_refl s = (==_iff _ _).1 refl

-- `statuses.includes(status)`.
abbrev pub status_in : DepositStatus → List DepositStatus → Bool
status_in s = any (status_eq s)

-- A test that every listed status passes holds of a status in the list.
pub all-status_in :
    (p : DepositStatus → Bool) (s : DepositStatus) (l : List DepositStatus)
    → all p l ≡ true
    → status_in s l ≡ true
    → p s ≡ true
all-status_in p s [] h m = absurd (cc)
all-status_in p s (t ∷ l) h m = elim (Bool-cases (status_eq s t)) [
  | inl e ↦ rw (status_eq-eq s t e) (ground arith)
  | inr e ↦ all-status_in p s l (ground arith) (ground arith)
]

pub data TenantStatus : Type 0 where
  active_tenant suspended_tenant closed_tenant : TenantStatus

pub data PlayerStatus : Type 0 where
  pending_ichancy active suspended self_excluded closed : PlayerStatus

pub data LedgerAccountKind : Type 0 where
  rail_clearing house_cash player_liability ichancy_agent_float : LedgerAccountKind
  casino_mirror suspense_unidentified house_rounding : LedgerAccountKind

pub data LedgerTxKind : Type 0 where
  deposit_claim deposit_credit deposit_reversal agent_float_topup : LedgerTxKind
  agent_float_sync fee rounding manual_adjustment reconciliation_writeoff : LedgerTxKind

-- What a posting is about.
pub data LedgerRefType : Type 0 where
  deposit_ref agent_float_ref rail_settlement_ref reconciliation_ref : LedgerRefType
  reversal_ref manual_ref : LedgerRefType

pub data AdminRole : Type 0 where
  platform_admin super_admin finance_admin reviewer support viewer : AdminRole

pub data RejectionCode : Type 0 where
  duplicate_proof proof_unreadable proof_missing amount_mismatch reference_not_found : RejectionCode
  wrong_destination sender_mismatch suspected_fraud limit_exceeded player_ineligible : RejectionCode
  expired_code other : RejectionCode

pub data CreditVerifiedBy : Type 0 where
  api_ok balance_delta manual : CreditVerifiedBy

pub data Actor : Type 0 where
  player_actor admin_actor : Text → Actor
  system_actor : Actor

pub data LedgerErrorCode : Type 0 where
  empty_posting single_sided unbalanced missing_account_ref zero_amount_entry : LedgerErrorCode
  invalid_account_code account_not_found account_inactive currency_mismatch : LedgerErrorCode
  sign_violation idempotency_key_reused idempotency_in_flight : LedgerErrorCode
  replay_target_missing nothing_to_reverse invalid_amount retry_exhausted : LedgerErrorCode

pub data MoneyErrorCode : Type 0 where
  invalid_scale invalid_decimal too_many_decimals not_finite unsafe_number divide_by_zero :
      MoneyErrorCode
  negative_amount not_positive unknown_rounding : MoneyErrorCode

pub data DepositErrorCode : Type 0 where
  deposit_not_found deposit_invalid_state admin_limit_exceeded : DepositErrorCode
  admin_no_approval_limit second_approver_must_differ : DepositErrorCode
  deposit_claimed_by_other verified_amount_required : DepositErrorCode
  player_self_excluded player_suspended deposit_too_many_open : DepositErrorCode
  single_deposit_limit_exceeded deposit_cooldown_active deposit_cap_exceeded : DepositErrorCode
  reference_already_used payment_destination_unavailable : DepositErrorCode
  deposit_expired deposit_too_many_proofs proof_duplicate_in_deposit : DepositErrorCode
  tenant_not_active tenant_staff_group_required : DepositErrorCode

-- What a call may throw. `record_not_found` is Prisma's refusal to update a row that is not there, and
-- `unique_violation` of an insert that a unique index forbids, and `transaction_aborted` the database's refusal of any statement after one that failed.
pub data Error : Type 0 where
  ledger_error : LedgerErrorCode → Error
  money_error : MoneyErrorCode → Error
  illegal_transition : DepositStatus → DepositStatus → Error
  forbidden not_found business_rule : DepositErrorCode → Error
  no_tenant_context record_not_found credit_retry_later player_link_failed : Error
  approval_limit_invalid transaction_aborted unique_violation : Error
  validation_error : Text → Error

-- A call that returns or throws.
pub data Result {ℓ} (A : Type ℓ) : Type ℓ where
  ok : A → Result A
  err : Error → Result A

-- The two halves of a chain that returned.
pub chain_ok {ℓ κ} :
    {A : Type ℓ} {B : Type κ} (m : Result A) (f : A → Result B) {b : B}
    → elim m [ ok a ↦ f a | err e ↦ err e ] ≡ ok b
    → (a : A) × (m ≡ ok a) × (f a ≡ ok b)
chain_ok (ok a) f h = (a, refl, h)
chain_ok (err e) f h = absurd (cc)
