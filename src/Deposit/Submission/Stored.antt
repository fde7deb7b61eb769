-- ===== src/Deposit/Submission/Stored.antt =====
-- A photo that the bot has stored already: `attachStoredProof` of
-- src/modules/deposit/services/deposit.service.ts.
use telegram_mini_app.Prelude.{ℕ, ◌+◌, List, [], ◌∷◌, ◌++◌, Option, none, some, if◌then◌else◌}
use telegram_mini_app.Prelude.Text.{Text, text}
use telegram_mini_app.Types.{Actor, DepositStatus, status_in, not_found, deposit_not_found}
use telegram_mini_app.Db.{
  Db, Env, Tx, pure, throw, ◌>>=◌, ◌>>◌, require_effective_tenant_id, find_by_id_in_tenant,
  write_audit,
}
use telegram_mini_app.Db.Rows.{Deposit, OutboxInput, proof_ingest}
use telegram_mini_app.Outbox.{enqueue}
use telegram_mini_app.Deposit.Creation.{PaymentMethodPort}
use telegram_mini_app.Deposit.Submission.{
  before_submission, assert_accepts_proof, proof_gaps, submission_check_for, count_proofs,
  insert_proof, Evidence, finish_submission,
}

abbrev pub no_evidence : Evidence
no_evidence = record { external_reference = none; sender_account = none }

abbrev pub ingest_message : Deposit → Text → OutboxInput
ingest_message d proof = record {
  aggregate_id = d.id;
  topic = text "deposit.proof_ingest";
  payload = proof_ingest proof d.id;
  dedupe_key = some (text "deposit.proof_ingest:" ++ proof);
  available_at = none;
}

pub record StoredProofResult : Type 0 where
  pub status : DepositStatus
  pub proof_id : Text
  pub missing : List Text

-- The end of `attachStoredProof`: where the rail still misses something, nothing is submitted.
unfoldable pub settle_stored_proof : Env → Deposit → Actor → Text → List Text → Tx StoredProofResult
settle_stored_proof env d actor proof [] = do
  status ← finish_submission env d actor proof no_evidence
  pure (record { status = status; proof_id = proof; missing = [] })
settle_stored_proof env d actor proof (code ∷ codes) = do
  write_audit env (text "deposit.proof.attach") actor d.id none
  pure (record { status = d.status; proof_id = proof; missing = code ∷ codes })

abbrev pub gaps_of : PaymentMethodPort → Deposit → ℕ → List Text
gaps_of port d count =
    if status_in d.status before_submission
    then proof_gaps port (submission_check_for d count)
    else []

pub record StoredProofInput : Type 0 where
  pub deposit_request_id : Text
  pub sha256 : Text
  pub uploaded_by : Actor

abbrev pub or_not_found : Option Deposit → Tx Deposit
or_not_found none = throw (not_found deposit_not_found)
or_not_found (some d) = pure d

-- The row that is read before the transaction.
unfoldable pub require_own_deposit : Env → Text → Tx Deposit
require_own_deposit env id = do
  tenant ← require_effective_tenant_id env
  found ← find_by_id_in_tenant tenant id
  or_not_found found

-- The transaction of `attachStoredProof`.
unfoldable pub store_proof : Env → Deposit → StoredProofInput → List Text → Tx StoredProofResult
store_proof env d input missing = do
  proof ← insert_proof env d input.sha256
  enqueue env (ingest_message d proof.id)
  settle_stored_proof env d input.uploaded_by proof.id missing

-- `attachStoredProof` once the row is read: others commit before its transaction.
abbrev pub attach_to :
    Env → PaymentMethodPort → (Db → Db) → StoredProofInput → Deposit → Tx StoredProofResult
attach_to env port others input d = do
  assert_accepts_proof env d
  λ db. store_proof env d input (gaps_of port d (count_proofs env d.id db.proofs + 1)) (others db)

unfoldable pub attach_stored_proof :
    Env → PaymentMethodPort → (Db → Db) → StoredProofInput → Tx StoredProofResult
attach_stored_proof env port others input = do
  d ← require_own_deposit env input.deposit_request_id
  attach_to env port others input d
