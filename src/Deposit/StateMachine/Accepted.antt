-- ===== src/Deposit/StateMachine/Accepted.antt =====
-- What an accepted claim becomes (src/modules/deposit/deposit-state.machine.ts).
use telegram_mini_app.Prelude.{
  true, not, ◌||◌, List, [], ◌∷◌, All₂, ◌≡◌, refl, ◌⊎◌, inl, inr, Bool-cases,
}
use telegram_mini_app.Types.{status_in, ok}
use telegram_mini_app.Db.{Db, Env}
use telegram_mini_app.Db.Rows.{Deposit}
use telegram_mini_app.Deposit.StateMachine.{TransitionInput, TransitionOutcome, transition}
use telegram_mini_app.Deposit.StateMachine.Edges.{accepted_statuses, accepted_step}
use telegram_mini_app.Deposit.StateMachine.Moves.{Moved, transition-Moved}

-- If the first has an accepted claim, so has the second.
abbrev pub KeepsAccepted : Deposit → Deposit → Type 0
KeepsAccepted d e =
    (not (status_in d.status accepted_statuses) || status_in e.status accepted_statuses) ≡ true

accepted_after :
    (env : Env) (input : TransitionInput) (d e : Deposit)
    → (e ≡ d) ⊎ Moved env input d e
    → KeepsAccepted d e
accepted_after env input d e h = elim (Bool-cases (status_in d.status accepted_statuses)) [
  | inr before ↦ rw before refl
  | inl after ↦ elim h [
    | inl same ↦ rw (after, same) after
    | inr m ↦ rw after (accepted_step d.status e.status after m.legal)
  ]
]

rows_keep :
    (env : Env) (input : TransitionInput) (ds es : List Deposit)
    → All₂ (λ d e. (e ≡ d) ⊎ Moved env input d e) ds es
    → All₂ KeepsAccepted ds es
rows_keep env input [] [] h = tt
rows_keep env input [] (e ∷ es) h = h
rows_keep env input (d ∷ ds) [] h = h
rows_keep env input (d ∷ ds) (e ∷ es) h =
    (accepted_after env input d e h.0, rows_keep env input ds es h.1)

-- No transition takes a deposit whose claim was accepted (APPROVED, CREDITING, CREDITED, CREDIT_FAILED,
-- NEEDS_RECONCILIATION or REVERSED) back to a status before the approval, or to REJECTED or EXPIRED: each
-- row of the table that had one of those six before a call that returns has one of them after it.
pub transition-KeepsAccepted :
    (env : Env) (input : TransitionInput) (db : Db) {o : TransitionOutcome} {db' : Db}
    → transition env input db ≡ ok (o, db')
    → All₂ KeepsAccepted db.deposits db'.deposits
transition-KeepsAccepted env input db {o} {db'} h =
    rows_keep env input db.deposits db'.deposits (transition-Moved env input db h)
