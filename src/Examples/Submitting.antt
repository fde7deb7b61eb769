-- ===== src/Examples/Submitting.antt =====
-- The theorems on proofs of payment, at one deposit.
use telegram_mini_app.Prelude.{true, [], ◌∷◌, none, some, any, find, ◌≡◌, refl}
use telegram_mini_app.Prelude.Integers.{pos}
use telegram_mini_app.Prelude.Text.{text, text_eq}
use telegram_mini_app.Types.{DepositStatus, awaiting_proof, submitted, system_actor, ok}
use telegram_mini_app.Db.{
  Db, generate_id, require_effective_tenant_id, write_audit, find_by_id_in_tenant, is_deposit,
}
use telegram_mini_app.Db.Rows.{Deposit}
use telegram_mini_app.Outbox.{enqueue}
use telegram_mini_app.Deposit.StateMachine.{transition}
use telegram_mini_app.Deposit.StateMachine.Patch.{apply_patch}
use telegram_mini_app.Deposit.Creation.{PaymentMethodPort, issues, bank_transfer}
use telegram_mini_app.Deposit.Submission.{
  Evidence, transition_or_explain_reference, report_submission, finish_submission, insert_proof,
  is_same_picture, assert_accepts_proof, proof_gaps,
}
use telegram_mini_app.Deposit.Submission.Stored.{
  StoredProofInput, StoredProofResult, settle_stored_proof, store_proof, require_own_deposit,
  attach_stored_proof, gaps_of,
}
use telegram_mini_app.Deposit.Submission.Gate.{
  Settled, finish_submission-Settled, attach_stored_proof_incomplete,
}
use telegram_mini_app.Examples.{operator, env, deposit_in, db_with, returned_or}

abbrev waiting : Deposit
waiting = deposit_in awaiting_proof

abbrev typed : Evidence
typed = record { external_reference = some (51 ∷ []); sender_account = none }

abbrev sent : DepositStatus × Db
sent =
    returned_or (awaiting_proof, db_with awaiting_proof)
      (finish_submission env waiting system_actor (52 ∷ []) typed (db_with awaiting_proof))

sent_run :
    finish_submission env waiting system_actor (52 ∷ []) typed (db_with awaiting_proof) ≡ ok sent
unfolding finish_submission transition_or_explain_reference transition report_submission write_audit
    enqueue generate_id require_effective_tenant_id apply_patch text text_eq
sent_run = refl

finish_submission-Settled_example :
    Settled env waiting (52 ∷ []) operator typed sent.0 (db_with awaiting_proof) sent.1
finish_submission-Settled_example =
    finish_submission-Settled env waiting system_actor (52 ∷ []) operator typed
      (db_with awaiting_proof) sent.0 sent.1 (refl, tt) refl sent_run

-- A rail that asks for a reference.
abbrev rail : PaymentMethodPort
rail = record {
  get_active_by_id = λ id. ok (record {
    id = id;
    rail = bank_transfer;
    currency_code = 6 ∷ [];
    fee_fixed_minor = pos 0;
    fee_bps = pos 0;
  });
  pick_destination = λ method player. ok (9 ∷ []);
  check_submission = λ input. issues (text "REFERENCE_REQUIRED" ∷ []);
}

abbrev photo : StoredProofInput
photo = record { deposit_request_id = 1 ∷ []; sha256 = 53 ∷ []; uploaded_by = system_actor }

abbrev attached : StoredProofResult × Db
attached =
    returned_or (record { status = submitted; proof_id = []; missing = [] }, db_with awaiting_proof)
      (attach_stored_proof env rail (λ db. db) photo (db_with awaiting_proof))

attached_run : attach_stored_proof env rail (λ db. db) photo (db_with awaiting_proof) ≡ ok attached
unfolding attach_stored_proof require_own_deposit find_by_id_in_tenant require_effective_tenant_id
    assert_accepts_proof store_proof insert_proof generate_id enqueue settle_stored_proof
    write_audit proof_gaps text text_eq
attached_run = refl

misses_reference : gaps_of rail waiting 1 ≡ text "REFERENCE_REQUIRED" ∷ []
unfolding proof_gaps text text_eq
misses_reference = refl

found_waiting : find (is_deposit operator (1 ∷ [])) (db_with awaiting_proof).deposits ≡ some waiting
unfolding text_eq
found_waiting = refl

attach_stored_proof_incomplete_example :
    (attached.1.deposits ≡ (db_with awaiting_proof).deposits)
    × (any (is_same_picture (1 ∷ []) (53 ∷ [])) attached.1.proofs ≡ true)
    × (attached.0.missing ≡ text "REFERENCE_REQUIRED" ∷ [])
    × (attached.0.status ≡ awaiting_proof)
attach_stored_proof_incomplete_example =
    attach_stored_proof_incomplete env rail (λ db. db) photo operator waiting
      (text "REFERENCE_REQUIRED") [] (db_with awaiting_proof) attached.0 attached.1 refl
      found_waiting misses_reference attached_run
