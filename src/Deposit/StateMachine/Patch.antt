-- ===== src/Deposit/StateMachine/Patch.antt =====
-- The columns that a transition may write beside the status: `TransitionPatch` and `toPrismaPatch`
-- of src/modules/deposit/deposit-state.machine.ts. A patch lists the keys that the caller set.
use telegram_mini_app.Prelude.{ℕ, List, [], ◌∷◌, Option}
use telegram_mini_app.Prelude.Integers.{ℤ}
use telegram_mini_app.Prelude.Text.{Text}
use telegram_mini_app.Types.{RejectionCode, CreditVerifiedBy}
use telegram_mini_app.Db.Rows.{Deposit}

pub data PatchField : Type 0 where
  verified_amount_minor credited_amount_minor : Option ℤ → PatchField
  balance_before_minor balance_after_minor : Option ℤ → PatchField
  fee_minor : ℤ → PatchField
  expires_at submitted_at review_started_at decided_at : Option ℕ → PatchField
  second_approved_at credited_at : Option ℕ → PatchField
  decided_by_admin_id second_approver_admin_id : Option Text → PatchField
  rejection_code : Option RejectionCode → PatchField
  credit_key_epoch credit_attempts : ℕ → PatchField
  credit_verified_by : Option CreditVerifiedBy → PatchField
  ledger_claim_tx_id ledger_credit_tx_id : Option Text → PatchField
  external_reference sender_account : Option Text → PatchField
  rejection_note payment_destination_id : Option Text → PatchField
  admin_chat_id admin_message_id admin_thread_id : Option ℤ → PatchField

unfoldable pub apply_field : PatchField → Deposit → Deposit
apply_field (verified_amount_minor v) d = record d { verified_amount_minor = v }
apply_field (credited_amount_minor v) d = record d { credited_amount_minor = v }
apply_field (balance_before_minor v) d = record d { balance_before_minor = v }
apply_field (balance_after_minor v) d = record d { balance_after_minor = v }
apply_field (fee_minor v) d = record d { fee_minor = v }
apply_field (expires_at v) d = record d { expires_at = v }
apply_field (submitted_at v) d = record d { submitted_at = v }
apply_field (review_started_at v) d = record d { review_started_at = v }
apply_field (decided_at v) d = record d { decided_at = v }
apply_field (second_approved_at v) d = record d { second_approved_at = v }
apply_field (credited_at v) d = record d { credited_at = v }
apply_field (decided_by_admin_id v) d = record d { decided_by_admin_id = v }
apply_field (second_approver_admin_id v) d = record d { second_approver_admin_id = v }
apply_field (rejection_code v) d = record d { rejection_code = v }
apply_field (credit_key_epoch v) d = record d { credit_key_epoch = v }
apply_field (credit_attempts v) d = record d { credit_attempts = v }
apply_field (credit_verified_by v) d = record d { credit_verified_by = v }
apply_field (ledger_claim_tx_id v) d = record d { ledger_claim_tx_id = v }
apply_field (ledger_credit_tx_id v) d = record d { ledger_credit_tx_id = v }
apply_field (external_reference v) d = record d { external_reference = v }
apply_field (sender_account v) d = record d { sender_account = v }
apply_field (rejection_note v) d = record d { rejection_note = v }
apply_field (payment_destination_id v) d = record d { payment_destination_id = v }
apply_field (admin_chat_id v) d = record d { admin_chat_id = v }
apply_field (admin_message_id v) d = record d { admin_message_id = v }
apply_field (admin_thread_id v) d = record d { admin_thread_id = v }

unfoldable pub apply_patch : List PatchField → Deposit → Deposit
unfolding apply_field
apply_patch [] d = d
apply_patch (f ∷ fs) d = apply_patch fs (apply_field f d)
