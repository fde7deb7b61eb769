-- ===== src/Deposit/Credit/Yields.antt =====
-- What a job can return: a predicate on its result, carried through the chain.
use telegram_mini_app.Prelude.{Bool, Option, ◌≡◌, refl}
use telegram_mini_app.Prelude.Integers.{ℤ}
use telegram_mini_app.Prelude.Text.{Text}
use telegram_mini_app.Types.{
  CreditVerifiedBy, ledger_error, illegal_transition, approved, credit_failed, Result, ok, err,
}
use telegram_mini_app.Db.{Db, Env, bind_ok, returned}
use telegram_mini_app.Db.Rows.{Deposit}
use telegram_mini_app.Deposit.StateMachine.{
  TransitionOutcome, transitioned, already_handled, transition, assert_all_legal,
}
use telegram_mini_app.Ledger.Repository.{post}
use telegram_mini_app.Ledger.Repository.Accounts.{lift}
use telegram_mini_app.Deposit.Credit.Effects.{
  World, Run, Job, continue_with, committed, ◌>>=◌, run_in_transaction,
}
use telegram_mini_app.Deposit.Credit.Finish.{
  Cause, ledger_refused, CreditOutcome, credited_with, failed_with, unresolved, skipped,
  catch_ledger, unresolved_of, finish_credited, finish_failed, failed_transaction,
  finish_needs_reconciliation, credited_transaction, record_credit, credit_moved, credit_posting,
  announce_credit, credited_input,
}

-- A result that holds of what was returned; of what was thrown nothing is claimed.
abbrev pub Holds : {A : Type 0} → (A → Type 0) → Result A → Type 0
Holds Q (ok a) = Q a
Holds Q (err e) = Unit

abbrev pub Yields : {A : Type 0} → (A → Type 0) → Job A → Type 0
Yields Q m = (r : Run) → Holds Q (m r).0

pub bind-Yields :
    {A B : Type 0} (P : A → Type 0) (Q : B → Type 0) (m : Job A) (f : A → Job B)
    → Yields P m
    → ((a : A) → P a → Yields Q (f a))
    → Yields Q (m >>= f)
unfolding ◌>>=◌
bind-Yields {A} {B} P Q m f hm hf r = split (m r) (hm r)
  where
    split : (x : Result A × Run) → Holds P x.0 → Holds Q (continue_with f x).0
    split (ok a, s) h = hf a h s
    split (err e, s) h = tt

-- A first part of which nothing is known.
pub then-Yields :
    {A B : Type 0} (Q : B → Type 0) (m : Job A) (f : A → Job B)
    → ((a : A) → Yields Q (f a))
    → Yields Q (m >>= f)
then-Yields {A} Q m f hf = bind-Yields (λ _. Unit {0}) Q m f (λ r. any (m r).0) λ a _. hf a
  where
    any : (x : Result A) → Holds (λ _. Unit) x
    any (ok a) = tt
    any (err e) = tt

module _ (world : World) (env : Env) (deposit : Deposit) where
  failed_transaction_throws :
      (code : Text) (alarm : Bool) (db : Db)
      → failed_transaction env deposit code alarm db
        ≡ err (illegal_transition approved credit_failed)
  unfolding failed_transaction transition assert_all_legal
  failed_transaction_throws code alarm db = refl

  -- The handler of a failed credit always throws: the table has no edge from APPROVED, one of the
  -- statuses that it declares, to CREDIT_FAILED.
  pub finish_failed_throws :
      (code : Text) (alarm : Bool) (r : Run)
      → (finish_failed world env deposit code alarm r).0
        ≡ err (illegal_transition approved credit_failed)
  unfolding finish_failed run_in_transaction
  finish_failed_throws code alarm r =
      rw (failed_transaction_throws code alarm (world.others r.steps r.db)) refl

  pub finish_failed-Yields :
      (Q : CreditOutcome → Type 0) (code : Text) (alarm : Bool)
      → Yields Q (finish_failed world env deposit code alarm)
  finish_failed-Yields Q code alarm r = rw (finish_failed_throws code alarm r) tt

  pub finish_needs_reconciliation-Yields :
      (Q : CreditOutcome → Type 0) (cause : Cause) (amount b0 : ℤ) (b1 : Option ℤ)
      → Q (unresolved cause)
      → Yields Q (finish_needs_reconciliation world env deposit cause amount b0 b1)
  unfolding finish_needs_reconciliation
  finish_needs_reconciliation-Yields Q cause amount b0 b1 q r = split (run_in_transaction world _ r)
    where
      split : (x : Result (Unit {0}) × Run) → Holds Q (unresolved_of cause x).0
      split (ok done, s) = q
      split (err e, s) = tt

-- What `finishCredited` may come to: credited that way, skipped, or refused by the ledger.
abbrev pub After : CreditVerifiedBy → CreditOutcome → Type 0
After by (credited_with v tx) = v ≡ by
After by (failed_with code) = ⊥
After by (unresolved (ledger_refused c)) = Unit
After by (unresolved _) = ⊥
After by (skipped reason) = Unit

module _ (world : World) (env : Env) (deposit : Deposit) (amount : ℤ) (by : CreditVerifiedBy) where
  record_credit-After :
      (db : Db) {o : CreditOutcome} {db' : Db}
      → record_credit env deposit amount by db ≡ ok (o, db')
      → After by o
  unfolding record_credit
  record_credit-After db h =
      let (posting, d1, _, h1) = bind_ok (lift (credit_posting env deposit amount)) _ db h in
      let (posted, d2, _, h2) = bind_ok (post env posting) _ d1 h1 in
      let (_, d3, _, h3) =
        bind_ok (announce_credit env deposit amount posted.transaction_id) _ d2 h2 in
      rw (← (returned h3).0) refl

  credit_moved-After :
      (m : TransitionOutcome) (db : Db) {o : CreditOutcome} {db' : Db}
      → credit_moved env deposit amount by m db ≡ ok (o, db')
      → After by o
  unfolding credit_moved
  credit_moved-After (already_handled current reason) db h = rw (← (returned h).0) tt
  credit_moved-After (transitioned d from) db h = record_credit-After db h

  module _ (b0 : ℤ) (b1 : Option ℤ) where
    credited_transaction-After :
        (db : Db) {o : CreditOutcome} {db' : Db}
        → credited_transaction env deposit amount by b0 b1 db ≡ ok (o, db')
        → After by o
    unfolding credited_transaction
    credited_transaction-After db h =
        let (m, d1, _, h1) =
          bind_ok (transition env (credited_input env deposit by b0 b1)) _ db h in
        credit_moved-After m d1 h1

    pub finish_credited-After :
        Yields (After by) (finish_credited world env deposit amount by b0 b1)
    unfolding finish_credited run_in_transaction
    finish_credited-After r =
        split (credited_transaction env deposit amount by b0 b1 seen)
          (λ o db' h. credited_transaction-After seen h)
      where
        seen : Db
        seen = world.others r.steps r.db

        split :
            (x : Result (CreditOutcome × Db))
            → ((o : CreditOutcome) (db' : Db) → x ≡ ok (o, db') → After by o)
            → Holds (After by) (catch_ledger world env deposit amount b0 b1 (committed r seen x)).0
        split (ok (o, db')) k = k o db' refl
        split (err (ledger_error c)) k =
            finish_needs_reconciliation-Yields world env deposit (After by) (ledger_refused c)
              amount b0 b1 tt _
        split (err _) k = tt
