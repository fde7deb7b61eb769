-- ===== src/Deposit/Submission/Upload.antt =====
-- A proof that the player uploads, and cancelling: `submitProof` and `cancel` of
-- src/modules/deposit/services/deposit.service.ts.
use telegram_mini_app.Prelude.{
  ℕ, ◌+◌, ◌*◌, Bool, true, false, not, ◌&&◌, ◌||◌, List, [], ◌∷◌, Option, none, some, any, find,
  keep, length, leb,
}
use telegram_mini_app.Prelude.Text.{Text, text, text_eq}
use telegram_mini_app.Types.{
  Actor, DepositStatus, rejected, other, Result, ok, err, business_rule, validation_error,
  deposit_invalid_state, reference_already_used,
}
use telegram_mini_app.Db.{Db, Env, Tx, pure, throw, ◌>>=◌, ◌>>◌, require, write_audit}
use telegram_mini_app.Db.Rows.{Deposit, DepositProof}
use telegram_mini_app.Deposit.StateMachine.{
  TransitionInput, TransitionOutcome, transitioned, already_handled, no_guard, transition,
}
use telegram_mini_app.Deposit.StateMachine.Patch.{decided_at, rejection_code, rejection_note}
use telegram_mini_app.Deposit.Policy.{in_effective_tenant}
use telegram_mini_app.Deposit.Creation.{
  PaymentMethodPort, SubmissionCheckInput, claims_reference, blank_to_null,
}
use telegram_mini_app.Deposit.Submission.Stored.{or_not_found}
use telegram_mini_app.Deposit.Submission.{
  before_submission, assert_accepts_proof, submission_check_for, assert_proof_complete, Evidence,
  submit_in_transaction,
}

abbrev pub is_players : Env → Text → Text → Deposit → Bool
is_players env short player d =
    in_effective_tenant env d.tenant_id && (text_eq d.short_id short && text_eq d.player_id player)

-- `requirePlayerDeposit`.
unfoldable pub require_player_deposit : Env → Text → Text → Tx Deposit
require_player_deposit env short player db =
    or_not_found (find (is_players env short player) db.deposits) db

abbrev pub cancel_input : Env → Actor → Text → TransitionInput
cancel_input env actor id = record {
  deposit_request_id = id;
  from = before_submission;
  to = rejected;
  actor = actor;
  patch =
      rejection_code (some other)
      ∷ rejection_note (some (text "Cancelled by player"))
      ∷ decided_at (some env.now)
      ∷ [];
  guard = no_guard;
}

unfoldable pub cancelled : Env → Actor → Text → TransitionOutcome → Tx Deposit
cancelled env actor id (already_handled current reason) =
    throw (business_rule deposit_invalid_state)
cancelled env actor id (transitioned d from) = do
  write_audit env (text "deposit.cancel") actor id none
  pure d

-- `cancel`, by the player.
unfoldable pub cancel : Env → (Db → Db) → Actor → Text → Text → Tx Deposit
cancel env others actor player short = do
  d ← require_player_deposit env short player
  λ db.
      (do outcome ← transition env (cancel_input env actor d.id); cancelled env actor d.id outcome)
        (others db)

-- `MAX_PROOF_BYTES` of src/core/file/telegram-file.service.ts.
abbrev pub max_proof_bytes : ℕ
max_proof_bytes = 10 * 1024 * 1024

-- The picture is its size, whether its media type is accepted, and the digest that decoding makes of it,
-- which may fail.
pub record SubmitProofInput : Type 0 where
  pub player_id : Text
  pub short_id : Text
  pub media_accepted : Bool
  pub byte_length : ℕ
  pub normalized : Result Text
  pub external_reference : Option Text
  pub sender_account : Option Text

abbrev pub evidence_of : SubmitProofInput → Evidence
evidence_of input = record {
  external_reference = blank_to_null input.external_reference;
  sender_account = blank_to_null input.sender_account;
}

abbrev pub first_of : Option Text → Option Text → Option Text
first_of none b = b
first_of (some a) b = some a

abbrev pub same_text : Option Text → Option Text → Bool
same_text none none = true
same_text none (some b) = false
same_text (some a) none = false
same_text (some a) (some b) = text_eq a b

-- What the rail is asked: a value typed at creation still counts, and this picture is a proof.
abbrev pub proof_check : Deposit → Evidence → List DepositProof → SubmissionCheckInput
proof_check d e proofs =
    record (submission_check_for d
      (length (keep (λ (p : DepositProof). text_eq p.deposit_request_id d.id) proofs) + 1)) {
        external_reference = first_of e.external_reference d.external_reference;
        sender_account = first_of e.sender_account d.sender_account;
      }

abbrev pub is_other_claim : Env → Deposit → Text → Deposit → Bool
is_other_claim env d reference o =
    in_effective_tenant env o.tenant_id
    && (claims_reference d.payment_method_id reference o && not (text_eq o.id d.id))

-- `assertReferenceUnused`, for a reference that is given and is not the deposit's own.
unfoldable pub assert_reference_unused : Env → Deposit → Option Text → Tx (Unit {0})
assert_reference_unused env d none db = pure tt db
assert_reference_unused env d (some r) db =
    require
      (same_text (some r) d.external_reference || not (any (is_other_claim env d r) db.deposits))
      (business_rule reference_already_used) db

abbrev pub proof_ready : Env → PaymentMethodPort → SubmitProofInput → Deposit → Tx (Unit {0})
proof_ready env port input d = do
  assert_accepts_proof env d
  λ db. assert_proof_complete port (proof_check d (evidence_of input) db.proofs) db
  assert_reference_unused env d (evidence_of input).external_reference

-- `submitProof`: others commit while the picture is uploaded.
unfoldable pub submit_proof :
    Env → PaymentMethodPort → (Db → Db) → Actor → SubmitProofInput → Tx DepositStatus
submit_proof env port others actor input = do
  require input.media_accepted (validation_error (text "PROOF_MEDIA_UNSUPPORTED"))
  require (leb input.byte_length max_proof_bytes) (validation_error (text "PROOF_TOO_LARGE"))
  d ← require_player_deposit env input.short_id input.player_id
  proof_ready env port input d
  λ db. elim input.normalized [
    | err e ↦ err e
    | ok sha ↦ submit_in_transaction env d actor sha (evidence_of input) (others db)
  ]
