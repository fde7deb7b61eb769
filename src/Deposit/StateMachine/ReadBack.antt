-- ===== src/Deposit/StateMachine/ReadBack.antt =====
-- A patch reads back from the row that it was written over.
use telegram_mini_app.Prelude.{ℕ, Bool, false, List, [], ◌∷◌, any, ◌==◌, ◌≡◌, refl, arith}
use telegram_mini_app.Types.{DepositStatus}
use telegram_mini_app.Db.Rows.{Deposit}
use telegram_mini_app.Deposit.StateMachine.Patch.{PatchField, apply_field, apply_patch}

-- The column that a field writes, by a number of its own.
abbrev pub column : PatchField → ℕ
column (PatchField.verified_amount_minor v) = 0
column (PatchField.credited_amount_minor v) = 1
column (PatchField.balance_before_minor v) = 2
column (PatchField.balance_after_minor v) = 3
column (PatchField.fee_minor v) = 4
column (PatchField.expires_at v) = 5
column (PatchField.submitted_at v) = 6
column (PatchField.review_started_at v) = 7
column (PatchField.decided_at v) = 8
column (PatchField.second_approved_at v) = 9
column (PatchField.credited_at v) = 10
column (PatchField.decided_by_admin_id v) = 11
column (PatchField.second_approver_admin_id v) = 12
column (PatchField.rejection_code v) = 13
column (PatchField.credit_key_epoch v) = 14
column (PatchField.credit_attempts v) = 15
column (PatchField.credit_verified_by v) = 16
column (PatchField.ledger_claim_tx_id v) = 17
column (PatchField.ledger_credit_tx_id v) = 18
column (PatchField.external_reference v) = 19
column (PatchField.sender_account v) = 20
column (PatchField.rejection_note v) = 21
column (PatchField.payment_destination_id v) = 22
column (PatchField.admin_chat_id v) = 23
column (PatchField.admin_message_id v) = 24
column (PatchField.admin_thread_id v) = 25

-- The row holds the value that the field writes.
abbrev pub Reads : PatchField → Deposit → Type 0
Reads (PatchField.verified_amount_minor v) d = d.verified_amount_minor ≡ v
Reads (PatchField.credited_amount_minor v) d = d.credited_amount_minor ≡ v
Reads (PatchField.balance_before_minor v) d = d.balance_before_minor ≡ v
Reads (PatchField.balance_after_minor v) d = d.balance_after_minor ≡ v
Reads (PatchField.fee_minor v) d = d.fee_minor ≡ v
Reads (PatchField.expires_at v) d = d.expires_at ≡ v
Reads (PatchField.submitted_at v) d = d.submitted_at ≡ v
Reads (PatchField.review_started_at v) d = d.review_started_at ≡ v
Reads (PatchField.decided_at v) d = d.decided_at ≡ v
Reads (PatchField.second_approved_at v) d = d.second_approved_at ≡ v
Reads (PatchField.credited_at v) d = d.credited_at ≡ v
Reads (PatchField.decided_by_admin_id v) d = d.decided_by_admin_id ≡ v
Reads (PatchField.second_approver_admin_id v) d = d.second_approver_admin_id ≡ v
Reads (PatchField.rejection_code v) d = d.rejection_code ≡ v
Reads (PatchField.credit_key_epoch v) d = d.credit_key_epoch ≡ v
Reads (PatchField.credit_attempts v) d = d.credit_attempts ≡ v
Reads (PatchField.credit_verified_by v) d = d.credit_verified_by ≡ v
Reads (PatchField.ledger_claim_tx_id v) d = d.ledger_claim_tx_id ≡ v
Reads (PatchField.ledger_credit_tx_id v) d = d.ledger_credit_tx_id ≡ v
Reads (PatchField.external_reference v) d = d.external_reference ≡ v
Reads (PatchField.sender_account v) d = d.sender_account ≡ v
Reads (PatchField.rejection_note v) d = d.rejection_note ≡ v
Reads (PatchField.payment_destination_id v) d = d.payment_destination_id ≡ v
Reads (PatchField.admin_chat_id v) d = d.admin_chat_id ≡ v
Reads (PatchField.admin_message_id v) d = d.admin_message_id ≡ v
Reads (PatchField.admin_thread_id v) d = d.admin_thread_id ≡ v

applied-Reads : (f : PatchField) (d : Deposit) → Reads f (apply_field f d)
unfolding apply_field
applied-Reads (PatchField.fee_minor v) d = refl
applied-Reads _ d = refl

kept-Reads :
    (f g : PatchField) (d : Deposit)
    → (column f == column g) ≡ false
    → Reads f d
    → Reads f (apply_field g d)
unfolding apply_field
kept-Reads (PatchField.fee_minor v) g d e h = ground arith
kept-Reads f g d e h = ground arith

abbrev pub same_column : PatchField → PatchField → Bool
same_column f g = column f == column g

-- What nothing of the patch writes stays.
pub apply_patch-keeps :
    (f : PatchField) (fs : List PatchField) (d : Deposit)
    → any (same_column f) fs ≡ false
    → Reads f d
    → Reads f (apply_patch fs d)
unfolding apply_patch
apply_patch-keeps f [] d e h = h
apply_patch-keeps f (g ∷ gs) d e h =
    apply_patch-keeps f gs (apply_field g d) (ground arith) (kept-Reads f g d (ground arith) h)

-- Every field of the patch stands in the row, unless a later one writes the same column.
abbrev pub Patched : List PatchField → Deposit → Type 0
Patched [] d = Unit
Patched (f ∷ fs) d = (any (same_column f) fs ≡ false → Reads f d) × Patched fs d

pub apply_patch-Patched : (fs : List PatchField) (d : Deposit) → Patched fs (apply_patch fs d)
unfolding apply_patch
apply_patch-Patched [] d = tt
apply_patch-Patched (f ∷ fs) d = (
  (λ last. apply_patch-keeps f fs (apply_field f d) last (applied-Reads f d)),
  apply_patch-Patched fs (apply_field f d),
)

pub status-Reads :
    (f : PatchField) (s : DepositStatus) (d : Deposit)
    → Reads f d
    → Reads f (record d { status = s })
status-Reads (PatchField.fee_minor v) s d h = h
status-Reads _ s d h = h

pub stamp-Reads :
    (f : PatchField) (t : ℕ) (d : Deposit) → Reads f d → Reads f (record d { updated_at = t })
stamp-Reads (PatchField.fee_minor v) t d h = h
stamp-Reads _ t d h = h

pub stamp-Patched :
    (fs : List PatchField) (t : ℕ) (d : Deposit)
    → Patched fs d
    → Patched fs (record d { updated_at = t })
stamp-Patched [] t d h = tt
stamp-Patched (f ∷ fs) t d h = ((λ last. stamp-Reads f t d (h.0 last)), stamp-Patched fs t d h.1)
