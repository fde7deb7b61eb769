-- ===== src/Examples.antt =====
-- Concrete inputs for the theorems: one operator, one deposit, two ledger accounts.
pub mod Machine
pub mod Books
pub mod Crediting
pub mod Reviewing
pub mod Amounts
pub mod Relaying
pub mod Sweeping
pub mod Requests
pub mod Opening
pub mod Conflicts
pub mod Submitting
pub mod Intercepting
use telegram_mini_app.Prelude.{ℕ, Bool, true, false, List, [], ◌∷◌, Option, none, some, length}
use telegram_mini_app.Prelude.Integers.{ℤ, pos, negsuc}
use telegram_mini_app.Prelude.Text.{Text, text}
use telegram_mini_app.Types.{
  DepositStatus, house_rounding, deposit_claim, deposit_ref, system_actor, Result, ok, err,
}
use telegram_mini_app.Db.{Db, Env}
use telegram_mini_app.Db.Rows.{Deposit, LedgerAccount, PostingBody}
use telegram_mini_app.Ledger.Posting.{Posting, by_id}

abbrev pub operator : Text
operator = 7 ∷ []

abbrev pub env : Env
env = record {
  tenant = some operator;
  now = 1000;
  dual_approval_threshold_minor = pos 5000;
  request_hash = λ (b : PostingBody). length b.entries ∷ b.ref_id;
}

-- A deposit of 100.00 in that status.
abbrev pub deposit_in : DepositStatus → Deposit
deposit_in status = record {
  id = 1 ∷ [];
  tenant_id = operator;
  short_id = 11 ∷ [];
  player_id = text "0f8fad5b-D9cb-469f-A165-70867728950e";
  payment_method_id = text "7c9e6679-7425-40de-944b-e07fc1f90ae7";
  payment_destination_id = none;
  currency_code = text "NSP";
  status = status;
  claimed_amount_minor = pos 10000;
  verified_amount_minor = none;
  credited_amount_minor = none;
  fee_minor = pos 0;
  external_reference = none;
  sender_account = none;
  expires_at = none;
  submitted_at = some 500;
  review_started_at = none;
  decided_at = none;
  second_approved_at = none;
  credited_at = none;
  decided_by_admin_id = none;
  second_approver_admin_id = none;
  rejection_code = none;
  rejection_note = none;
  idempotency_key = none;
  credit_key_epoch = 0;
  credit_attempts = 0;
  credit_verified_by = none;
  balance_before_minor = none;
  balance_after_minor = none;
  ledger_claim_tx_id = none;
  ledger_credit_tx_id = none;
  admin_chat_id = none;
  admin_message_id = none;
  admin_thread_id = none;
  created_at = 400;
  updated_at = 500;
}

abbrev pub account : Text → Text → LedgerAccount
account id code = record {
  id = id;
  tenant_id = operator;
  code = code;
  kind = house_rounding;
  currency_code = text "NSP";
  is_debit_normal = true;
  is_active = true;
  cached_balance_minor = pos 0;
}

abbrev pub db_with : DepositStatus → Db
db_with status = record {
  deposits = deposit_in status ∷ [];
  transitions = [];
  outbox = [];
  audits = [];
  accounts =
      account (21 ∷ []) (text "HOUSE_ROUNDING:NSP")
      ∷ (account (22 ∷ []) (text "HOUSE_ROUNDING:USD") ∷ []);
  transactions = [];
  entries = [];
  keys = [];
  limits = [];
  tenants = [];
  players = [];
  player_limits = [];
  exclusions = [];
  proofs = [];
  ids = λ n. 99 ∷ (n ∷ []);
  generated = 0;
}

-- Five units from the second account to the first.
abbrev pub posting_for : Text → Posting
posting_for ref = record {
  idempotency_key = 5 ∷ [];
  kind = deposit_claim;
  ref_type = deposit_ref;
  ref_id = ref;
  currency = text "NSP";
  entries = by_id (21 ∷ []) (pos 5) ∷ (by_id (22 ∷ []) (negsuc 4) ∷ []);
  actor = system_actor;
  occurred_at = none;
  external_ref = none;
  reverses_tx_id = none;
  allow_negative = none;
}

-- What a call returned.
abbrev pub returned_or : {A : Type 0} → A → Result A → A
returned_or d (ok a) = a
returned_or d (err e) = d
