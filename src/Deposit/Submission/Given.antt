-- ===== src/Deposit/Submission/Given.antt =====
-- What the player gave with a proof, as it stands in the deposit afterwards
-- (src/modules/deposit/services/deposit.service.ts).
use telegram_mini_app.Prelude.{
  ℕ, ◌≤◌, true, false, not, ◌&&◌, List, [], ◌∷◌, Option, none, some, keep, find, any, length, ◌≡◌,
  refl, arith, inl, inr, Bool-cases, if-cases, Bool,
}
use telegram_mini_app.Prelude.Text.{Text, text_eq, text_eq_refl, is_text}
use telegram_mini_app.Types.{Actor, submitted, rejected, status_eq}
use telegram_mini_app.Db.{Env}
use telegram_mini_app.Db.Rows.{Deposit}
use telegram_mini_app.Deposit.StateMachine.Patch.{
  PatchField, submitted_at, external_reference, sender_account,
}
use telegram_mini_app.Deposit.StateMachine.ReadBack.{Patched, Reads, same_column}
use telegram_mini_app.Deposit.StateMachine.Once.{Rewritten}
use telegram_mini_app.Deposit.Submission.{
  Evidence, evidence_patch, submission_input, breaks_reference,
}

-- A field that was given stands in the row; one that was left blank leaves what was there.
abbrev pub given_or : Option Text → Option Text → Option Text
given_or none before = before
given_or (some s) before = some s

abbrev pub EvidenceKept : Evidence → Deposit → Deposit → Type 0
EvidenceKept e d row =
    (row.external_reference ≡ given_or e.external_reference d.external_reference)
    × (row.sender_account ≡ given_or e.sender_account d.sender_account)

-- The deposits of a payment method that hold a reference, but for the rejected ones.
abbrev pub holders : Text → Text → List Deposit → List Deposit
holders method reference deposits =
    keep
      (λ (d : Deposit).
        is_text d.external_reference reference
        && (text_eq d.payment_method_id method && not (status_eq d.status rejected)))
      deposits

-- A reference that was given stands exactly once.
abbrev pub StandsOnce : Text → Option Text → List Deposit → Type 0
StandsOnce method none deposits = Unit
StandsOnce method (some r) deposits = length (holders method r deposits) ≡ 1

find-kept :
    (q p : Deposit → Bool) (ds : List Deposit) {d : Deposit}
    → find q ds ≡ some d
    → p d ≡ true
    → 1 ≤ length (keep p ds)
find-kept q p [] e h = absurd (cc)
find-kept q p (x ∷ xs) {d} e h = elim (Bool-cases (q x)) [
  | inl t ↦
      let same : ◌≡◌ {A = Option Deposit} (some x) (some d) = ground (arith, e, t) in
      let here : x ≡ d = cc in let holds : p x ≡ true = rw here h in rw holds (omega arith)
  | inr t ↦
      let rest = find-kept q p xs {d = d} (ground (arith, e, t)) h in
      if-cases (λ (l : List Deposit). 1 ≤ length l) (p x) (λ u. omega arith) (λ u. rest)
]

few :
    (r method : Text) (ds : List Deposit)
    → breaks_reference method (some r) ds ≡ false
    → length (holders method r ds) ≤ 1
few r method ds h = ground arith

-- A reference that the row holds stands once where the index takes the row.
pub stands_once :
    (q : Deposit → Bool) (row : Deposit) (ds : List Deposit) (given before : Option Text)
    → find q ds ≡ some row
    → row.external_reference ≡ given_or given before
    → row.status ≡ submitted
    → breaks_reference row.payment_method_id given ds ≡ false
    → StandsOnce row.payment_method_id given ds
stands_once q row ds none before there held moved unbroken = tt
stands_once q row ds (some r) before there held moved unbroken =
    let own : (is_text row.external_reference r
          && (text_eq row.payment_method_id row.payment_method_id
              && not (status_eq row.status rejected)))
        ≡ true =
      rw (held, moved, text_eq_refl r, text_eq_refl row.payment_method_id) refl in
    let some_one =
      find-kept q
        (λ (d : Deposit).
          is_text d.external_reference r
          && (text_eq d.payment_method_id row.payment_method_id
              && not (status_eq d.status rejected)))
        ds there own in
    let one_at_most = few r row.payment_method_id ds unbroken in omega arith

evidence_read :
    (now : ℕ) (r s : Option Text) (before row : Deposit)
    → Patched
        (submitted_at (some now)
          ∷ evidence_patch (record { external_reference = r; sender_account = s }))
        row
    → ((f : PatchField)
        → any (same_column f) (
            submitted_at (some now)
            ∷ evidence_patch (record { external_reference = r; sender_account = s }))
          ≡ false
        → Reads f before
        → Reads f row)
    → (row.submitted_at ≡ some now)
      × (row.external_reference ≡ given_or r before.external_reference)
      × (row.sender_account ≡ given_or s before.sender_account)
evidence_read now none none before row h k = (
  h.0 refl,
  k (external_reference before.external_reference) refl refl,
  k (sender_account before.sender_account) refl refl,
)
evidence_read now (some r) none before row h k =
    (h.0 refl, h.1.0 refl, k (sender_account before.sender_account) refl refl)
evidence_read now none (some s) before row h k =
    (h.0 refl, k (external_reference before.external_reference) refl refl, h.1.0 refl)
evidence_read now (some r) (some s) before row h k = (h.0 refl, h.1.0 refl, h.1.1.0 refl)

-- What a submission writes beside the status.
pub submission_written :
    (env : Env) (actor : Actor) (id : Text) (e : Evidence) (before row : Deposit)
    → Rewritten env (submission_input env actor id e) before row
    → (row.submitted_at ≡ some env.now) × EvidenceKept e before row
submission_written env actor id e before row w =
    let (sent_at, reference, account) =
      evidence_read env.now e.external_reference e.sender_account before row w.patched w.others in
    (sent_at, (reference, account))
