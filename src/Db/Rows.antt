-- ===== src/Db/Rows.antt =====
-- The rows of the tables that the modelled code reads and writes (prisma/schema.prisma). Times are
-- milliseconds. Columns that hold prose for a human or free-form JSON are left out.
use telegram_mini_app.Prelude.{ℕ, Bool, List, Option}
use telegram_mini_app.Prelude.Integers.{ℤ}
use telegram_mini_app.Prelude.Text.{Text}
use telegram_mini_app.Types.{
  LedgerRefType, DepositStatus, LedgerAccountKind, LedgerTxKind, RejectionCode, CreditVerifiedBy,
  Actor, TenantStatus, PlayerStatus,
}

pub record Deposit : Type 0 where
  pub id : Text
  pub tenant_id : Text
  pub short_id : Text
  pub player_id : Text
  pub payment_method_id : Text
  pub payment_destination_id : Option Text
  pub currency_code : Text
  pub status : DepositStatus
  pub claimed_amount_minor : ℤ
  pub verified_amount_minor : Option ℤ
  pub credited_amount_minor : Option ℤ
  pub fee_minor : ℤ
  pub external_reference : Option Text
  pub sender_account : Option Text
  pub expires_at : Option ℕ
  pub submitted_at : Option ℕ
  pub review_started_at : Option ℕ
  pub decided_at : Option ℕ
  pub second_approved_at : Option ℕ
  pub credited_at : Option ℕ
  pub decided_by_admin_id : Option Text
  pub second_approver_admin_id : Option Text
  pub rejection_code : Option RejectionCode
  pub rejection_note : Option Text
  pub idempotency_key : Option Text
  pub credit_key_epoch : ℕ
  pub credit_attempts : ℕ
  pub credit_verified_by : Option CreditVerifiedBy
  pub balance_before_minor : Option ℤ
  pub balance_after_minor : Option ℤ
  pub ledger_claim_tx_id : Option Text
  pub ledger_credit_tx_id : Option Text
  pub admin_chat_id : Option ℤ
  pub admin_message_id : Option ℤ
  pub admin_thread_id : Option ℤ
  pub created_at : ℕ
  pub updated_at : ℕ

pub record DepositTransition : Type 0 where
  pub tenant_id : Text
  pub deposit_request_id : Text
  pub from_status : Option DepositStatus
  pub to_status : DepositStatus
  pub actor : Actor
  pub actor_id : Option Text
  pub from_candidates : List DepositStatus

pub data Payload : Type 0 where
  credit_requested : Text → Text → Text → ℕ → ℤ → Payload
  card_update : Text → Text → Payload
  notify_player : Text → Text → Text → Payload
  alert : Text → Text → Text → Payload
  ops_card : Text → Text → Payload
  notify_admin : Text → Text → Text → Payload
  proof_ingest : Text → Text → Payload

pub record OutboxInput : Type 0 where
  pub aggregate_id : Text
  pub topic : Text
  pub payload : Payload
  pub dedupe_key : Option Text
  pub available_at : Option ℕ

pub record OutboxMessage : Type 0 where
  pub id : Text
  pub tenant_id : Text
  pub input : OutboxInput
  pub available_at : ℕ

pub record AuditEntry : Type 0 where
  pub tenant_id : Text
  pub action : Text
  pub actor : Actor
  pub subject_id : Text
  pub amount_minor : Option ℤ

pub record LedgerAccount : Type 0 where
  pub id : Text
  pub tenant_id : Text
  pub code : Text
  pub kind : LedgerAccountKind
  pub currency_code : Text
  pub is_debit_normal : Bool
  pub is_active : Bool
  pub cached_balance_minor : ℤ

pub record EntryBalanceSnapshot : Type 0 where
  pub sequence : ℕ
  pub account_id : Text
  pub account_code : Text
  pub previous_balance_minor : ℤ
  pub current_balance_minor : ℤ

pub record LedgerTransaction : Type 0 where
  pub id : Text
  pub tenant_id : Text
  pub kind : LedgerTxKind
  pub currency_code : Text
  pub occurred_at : ℕ
  pub deposit_request_id : Option Text
  pub external_ref : Option Text
  pub reverses_tx_id : Option Text
  pub balance_snapshots : List EntryBalanceSnapshot

pub record LedgerEntry : Type 0 where
  pub tenant_id : Text
  pub ledger_transaction_id : Text
  pub ledger_account_id : Text
  pub currency_code : Text
  pub amount_minor : ℤ
  pub sequence : ℕ

-- A row of `idempotency_keys` in the scope `ledger.post`.
pub record IdempotencyKey : Type 0 where
  pub tenant_id : Text
  pub key : Text
  pub request_hash : Text
  pub result_ref : Option Text
  pub expires_at : ℕ

pub record ApprovalLimit : Type 0 where
  pub id : Text
  pub tenant_id : Text
  pub admin_user_id : Text
  pub currency_code : Text
  pub max_single_approval_minor : ℤ
  pub max_daily_approval_minor : ℤ
  pub second_approval_above_minor : Option ℤ
  pub effective_from : ℕ
  pub effective_to : Option ℕ

-- `adminChatId`, a 64-bit integer, is 0 while no staff group is bound.
pub record Tenant : Type 0 where
  pub id : Text
  pub status : TenantStatus
  pub admin_chat_id : ℤ

pub record Player : Type 0 where
  pub id : Text
  pub tenant_id : Text
  pub status : PlayerStatus
  pub created_at : ℕ

-- `cooldownMinutes` is a signed column.
pub record PlayerLimit : Type 0 where
  pub id : Text
  pub tenant_id : Text
  pub player_id : Text
  pub currency_code : Text
  pub daily_deposit_cap_minor : Option ℤ
  pub max_single_deposit_minor : Option ℤ
  pub cooldown_minutes : Option ℤ
  pub effective_from : ℕ
  pub effective_to : Option ℕ

pub record SelfExclusion : Type 0 where
  pub id : Text
  pub tenant_id : Text
  pub player_id : Text
  pub starts_at : ℕ
  pub ends_at : Option ℕ
  pub revoked_at : Option ℕ

pub data ProofSource : Type 0 where
  telegram_photo telegram_document player_upload admin_upload : ProofSource

pub record DepositProof : Type 0 where
  pub id : Text
  pub tenant_id : Text
  pub deposit_request_id : Text
  pub sha256 : Text
  pub created_at : ℕ

-- What defines a movement of money: the object that `hashPosting` serialises and hashes.
pub record PostingBody : Type 0 where
  pub kind : LedgerTxKind
  pub ref_type : LedgerRefType
  pub ref_id : Text
  pub currency : Text
  pub reverses_tx_id : Option Text
  pub entries : List (Text × ℤ)
