-- ===== src/Deposit/Submission.antt =====
-- What every proof of payment goes through, from the checks to the end of a submission, of
-- src/modules/deposit/services/deposit.service.ts. Decoding, storage, the risk flags (which only go to the
-- card and to metadata) and the index of perceptual hashes are left out.
pub mod Stored
pub mod Upload
pub mod Given
pub mod Gate
use telegram_mini_app.Prelude.{
  ℕ, suc, ◌+◌, ◌*◌, Bool, true, false, not, ◌&&◌, ◌||◌, List, [], ◌∷◌, ◌++◌, Option, none, some,
  any, find, keep, length, or_else, ltb, leb, if◌then◌else◌,
}
use telegram_mini_app.Prelude.Integers.{ℤ}
use telegram_mini_app.Prelude.Text.{Text, text, text_eq}
use telegram_mini_app.Types.{
  Actor, DepositStatus, draft, awaiting_proof, submitted, under_review, rejected, other, status_in,
  Error, Result, ok, err, business_rule, validation_error, not_found, deposit_not_found,
  deposit_invalid_state, deposit_expired, deposit_too_many_proofs, proof_duplicate_in_deposit,
  reference_already_used,
}
use telegram_mini_app.Db.{
  Db, Env, Tx, pure, throw, ◌>>=◌, ◌>>◌, require, require_effective_tenant_id, find_by_id_in_tenant,
  generate_id, write_audit,
}
use telegram_mini_app.Db.Rows.{
  Deposit, DepositProof, OutboxInput, notify_admin, card_update, proof_ingest,
}
use telegram_mini_app.Outbox.{enqueue}
use telegram_mini_app.Deposit.StateMachine.{
  TransitionInput, TransitionOutcome, transitioned, already_handled, no_guard, transition,
}
use telegram_mini_app.Deposit.StateMachine.Patch.{
  PatchField, submitted_at, decided_at, rejection_code, external_reference, sender_account,
}
use telegram_mini_app.Deposit.Policy.{in_effective_tenant}
use telegram_mini_app.Deposit.Creation.{
  PaymentMethodPort, SubmissionCheck, accepted, issues, SubmissionCheckInput, submit_stage,
  claims_reference, issue_code, blank_to_null,
}

abbrev pub max_proofs_per_deposit : ℕ
max_proofs_per_deposit = 5

abbrev pub before_submission : List DepositStatus
before_submission = draft ∷ awaiting_proof ∷ []

abbrev pub is_past_expiry : Env → Deposit → Bool
is_past_expiry env d = elim d.expires_at [ none ↦ false | some t ↦ ltb t env.now ]

abbrev pub accepting : Deposit → Bool
accepting d = status_in d.status (draft ∷ awaiting_proof ∷ submitted ∷ under_review ∷ [])

-- Expiry counts before submission only.
abbrev pub is_in_time : Env → Deposit → Bool
is_in_time env d = not (status_in d.status before_submission && is_past_expiry env d)

unfoldable pub assert_accepts_proof : Env → Deposit → Tx (Unit {0})
assert_accepts_proof env d = do
  require (accepting d) (business_rule deposit_invalid_state)
  require (is_in_time env d) (business_rule deposit_expired)

abbrev pub config_drift_codes : List Text
config_drift_codes = text "AMOUNT_BELOW_MINIMUM" ∷ text "AMOUNT_ABOVE_MAXIMUM" ∷ []

abbrev pub is_drift : Text → Bool
is_drift code = any (text_eq code) config_drift_codes

abbrev pub blocking : SubmissionCheck → List Text
blocking accepted = []
blocking (issues codes) = keep (λ code. not (is_drift code)) codes

-- What the rail still asks of an existing deposit.
unfoldable pub proof_gaps : PaymentMethodPort → SubmissionCheckInput → List Text
proof_gaps port input = blocking (port.check_submission (record input { stage = submit_stage }))

-- `submissionCheckFor`.
abbrev pub submission_check_for : Deposit → ℕ → SubmissionCheckInput
submission_check_for d count = record {
  payment_method_id = d.payment_method_id;
  destination_id = d.payment_destination_id;
  amount_minor = d.claimed_amount_minor;
  external_reference = d.external_reference;
  sender_account = d.sender_account;
  proof_count = count;
  stage = submit_stage;
}

-- `assertProofComplete`.
unfoldable pub assert_proof_complete : PaymentMethodPort → SubmissionCheckInput → Tx (Unit {0})
assert_proof_complete port input = elim (proof_gaps port input) [
  | [] ↦ pure tt
  | code ∷ codes ↦ throw (validation_error (issue_code (code ∷ codes)))
]

-- `DepositRepository.countProofs`, with the filter of the tenant in context.
abbrev pub count_proofs : Env → Text → List DepositProof → ℕ
count_proofs env deposit proofs = length (
    keep
      (λ (p : DepositProof).
        in_effective_tenant env p.tenant_id && text_eq p.deposit_request_id deposit)
      proofs)

-- `@@unique([depositRequestId, sha256])`.
abbrev pub is_same_picture : Text → Text → DepositProof → Bool
is_same_picture deposit sha p = text_eq p.deposit_request_id deposit && text_eq p.sha256 sha

unfoldable pub insert_proof : Env → Deposit → Text → Tx DepositProof
insert_proof env d sha = do
  id ← generate_id
  λ db.
      let row : DepositProof = record {
        id = id;
        tenant_id = d.tenant_id;
        deposit_request_id = d.id;
        sha256 = sha;
        created_at = env.now;
      } in
      if any (is_same_picture d.id sha) db.proofs
      then throw (business_rule proof_duplicate_in_deposit) db
      else ok (row, record db { proofs = row ∷ db.proofs })

-- The fields that the player gave, already normalized: a blank one is none, and leaves what is stored.
pub record Evidence : Type 0 where
  pub external_reference : Option Text
  pub sender_account : Option Text

abbrev pub evidence_patch : Evidence → List PatchField
evidence_patch e =
    (elim e.external_reference [ none ↦ [] | some r ↦ external_reference (some r) ∷ [] ])
    ++ (elim e.sender_account [ none ↦ [] | some a ↦ sender_account (some a) ∷ [] ])

abbrev pub submission_input : Env → Actor → Text → Evidence → TransitionInput
submission_input env actor id e = record {
  deposit_request_id = id;
  from = before_submission;
  to = submitted;
  actor = actor;
  patch = submitted_at (some env.now) ∷ evidence_patch e;
  guard = no_guard;
}

-- Does the written reference stand twice in `uq_deposit_external_reference_active`?
abbrev pub breaks_reference : Text → Option Text → List Deposit → Bool
breaks_reference method none deposits = false
breaks_reference method (some r) deposits =
    ltb 1 (length (keep (claims_reference method r) deposits))

-- The index weighs the row that the update wrote; a miss writes none.
abbrev pub index_refuses : Option Text → TransitionOutcome → List Deposit → Bool
index_refuses reference (transitioned row from) deposits =
    breaks_reference row.payment_method_id reference deposits
index_refuses reference (already_handled current reason) deposits = false

-- The compare-and-swap, whose update the index may refuse.
unfoldable pub transition_or_explain_reference :
    Env → Option Text → TransitionInput → Tx TransitionOutcome
transition_or_explain_reference env reference input = do
  outcome ← transition env input
  λ db.
      (require (not (index_refuses reference outcome db.deposits))
            (business_rule reference_already_used)
          >> pure outcome)
        db

abbrev pub admin_message : Deposit → OutboxInput
admin_message d = record {
  aggregate_id = d.id;
  topic = text "deposit.notify_admin";
  payload = notify_admin d.id d.short_id (text "submitted");
  dedupe_key = some (text "deposit.notify_admin:" ++ d.id);
  available_at = none;
}

abbrev pub refresh_message : Deposit → Text → OutboxInput
refresh_message d proof = record {
  aggregate_id = d.id;
  topic = text "deposit.card_update";
  payload = card_update d.id (text "additional-proof");
  dedupe_key = some (text "deposit.card_update:" ++ proof);
  available_at = none;
}

-- The audit entry and the message of each outcome; the answer is the deposit's status.
unfoldable pub report_submission :
    Env → Deposit → Actor → Text → TransitionOutcome → Tx DepositStatus
report_submission env d actor proof (transitioned row from) = do
  write_audit env (text "deposit.submit") actor d.id (some d.claimed_amount_minor)
  enqueue env (admin_message d)
  pure row.status
report_submission env d actor proof (already_handled current reason) = do
  write_audit env (text "deposit.proof.attach") actor d.id none
  enqueue env (refresh_message d proof)
  pure d.status

unfoldable pub finish_submission : Env → Deposit → Actor → Text → Evidence → Tx DepositStatus
finish_submission env d actor proof e = do
  outcome ←
      transition_or_explain_reference env e.external_reference (submission_input env actor d.id e)
  report_submission env d actor proof outcome

-- The transaction of `submitProof`, for a picture of that digest.
unfoldable pub submit_in_transaction : Env → Deposit → Actor → Text → Evidence → Tx DepositStatus
submit_in_transaction env d actor sha e = do
  λ db.
      require (ltb (count_proofs env d.id db.proofs) max_proofs_per_deposit)
        (business_rule deposit_too_many_proofs) db
  proof ← insert_proof env d sha
  finish_submission env d actor proof.id e
