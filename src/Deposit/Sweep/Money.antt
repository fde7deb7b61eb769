-- ===== src/Deposit/Sweep/Money.antt =====
-- A sweep moves no money (src/modules/deposit/services/deposit-sweep.service.ts).
use telegram_mini_app.Prelude.{ℕ, Bool, true, List, [], ◌∷◌, none, ◌≡◌, refl, sym, arith, subst}
use telegram_mini_app.Prelude.Text.{Text, text}
use telegram_mini_app.Types.{Result, ok, err, system_actor}
use telegram_mini_app.Db.{Db, Env, Tx, bind_ok, returned, write_audit, pure, ◌>>◌}
use telegram_mini_app.Db.Rows.{Deposit, OutboxInput}
use telegram_mini_app.Deposit.StateMachine.{
  TransitionOutcome, transitioned, already_handled, matches, written, transition,
}
use telegram_mini_app.Deposit.StateMachine.Patch.{apply_patch, apply_field}
use telegram_mini_app.Outbox.{enqueue}
use telegram_mini_app.Outbox.Frame.{write_audit-SameBooks, enqueue-SameBooks}
use telegram_mini_app.Deposit.Sweep.{
  Pass, expire_input, expired_with, expire_one, release_stale_input, released_with, release_one,
  reap_input, reaped_with, reap_one, as_tenant, each_candidate, count_done, expire_unpaid,
  release_stale_claims, reap_stuck_credits, follow, then_pass, run_once,
}
use telegram_mini_app.Deposit.Sweep.Frame.{
  Swept, IsSweep, IsSweep-refl, IsSweep-trans, SameBooks-IsSweep, transition-IsSweep,
}

expire-Swept :
    (env : Env) (c : Deposit) (tenant : Text) (d : Deposit)
    → matches tenant (expire_input c) d ≡ true
    → Swept d (written env (expire_input c) d)
unfolding expire_input apply_patch
expire-Swept env c tenant d h = record {
  id = refl;
  tenant_id = refl;
  claimed = refl;
  verified = refl;
  credited = refl;
  epoch = refl;
  moved = ground (arith, h);
}

release-Swept :
    (stale_before : ℕ) (env : Env) (c : Deposit) (tenant : Text) (d : Deposit)
    → matches tenant (release_stale_input stale_before c) d ≡ true
    → Swept d (written env (release_stale_input stale_before c) d)
unfolding release_stale_input apply_patch apply_field
release-Swept stale_before env c tenant d h = record {
  id = refl;
  tenant_id = refl;
  claimed = refl;
  verified = refl;
  credited = refl;
  epoch = refl;
  moved = ground (arith, h);
}

reap-Swept :
    (stale_before : ℕ) (env : Env) (c : Deposit) (tenant : Text) (d : Deposit)
    → matches tenant (reap_input stale_before c) d ≡ true
    → Swept d (written env (reap_input stale_before c) d)
unfolding reap_input apply_patch
reap-Swept stale_before env c tenant d h = record {
  id = refl;
  tenant_id = refl;
  claimed = refl;
  verified = refl;
  credited = refl;
  epoch = refl;
  moved = ground (arith, h);
}

-- What a transaction of a sweep does when it commits.
Sweeps : (Env → Deposit → Tx Bool) → Type 0
Sweeps one =
    (env : Env) (c : Deposit) (db : Db) (b : Bool) (db' : Db)
    → one env c db ≡ ok (b, db')
    → IsSweep db db'

same : (a b : Db) → b ≡ a → IsSweep a b
same a b h = subst (IsSweep a) (sym h) (IsSweep-refl a)

-- A message, and a statement that ends the transaction.
enqueued-IsSweep :
    (env : Env) (input : OutboxInput) (db : Db) {b : Bool} {db' : Db}
    → (enqueue env input >> pure true) db ≡ ok (b, db')
    → IsSweep db db'
enqueued-IsSweep env input db {b} {db'} h =
    let (_, mid, h1, k1) = bind_ok (enqueue env input) _ db h in
    IsSweep-trans db mid db' (SameBooks-IsSweep db mid (enqueue-SameBooks env input db h1))
      (same mid db' (sym (returned k1).1))

-- The same after a line of the audit trail.
audited-IsSweep :
    (env : Env) (action subject : Text) (input : OutboxInput) (db : Db) {b : Bool} {db' : Db}
    → (write_audit env action system_actor subject none >> (enqueue env input >> pure true)) db
      ≡ ok (b, db')
    → IsSweep db db'
audited-IsSweep env action subject input db {b} {db'} h =
    let (_, mid, h1, k1) = bind_ok (write_audit env action system_actor subject none) _ db h in
    IsSweep-trans db mid db'
      (SameBooks-IsSweep db mid (write_audit-SameBooks env action system_actor subject none db h1))
      (enqueued-IsSweep env input mid k1)

expired_with-IsSweep :
    (env : Env) (c : Deposit) (o : TransitionOutcome) (db : Db) {b : Bool} {db' : Db}
    → expired_with env c o db ≡ ok (b, db')
    → IsSweep db db'
unfolding expired_with
expired_with-IsSweep env c (already_handled current reason) db {b} {db'} h =
    same db db' (sym (returned h).1)
expired_with-IsSweep env c (transitioned d from) db h =
    audited-IsSweep env (text "deposit.expire") c.id _ db h

released_with-IsSweep :
    (env : Env) (t : ℕ) (c : Deposit) (o : TransitionOutcome) (db : Db) {b : Bool} {db' : Db}
    → released_with env t c o db ≡ ok (b, db')
    → IsSweep db db'
unfolding released_with
released_with-IsSweep env t c (already_handled current reason) db {b} {db'} h =
    same db db' (sym (returned h).1)
released_with-IsSweep env t c (transitioned d from) db h = enqueued-IsSweep env _ db h

reaped_with-IsSweep :
    (env : Env) (t : ℕ) (c : Deposit) (o : TransitionOutcome) (db : Db) {b : Bool} {db' : Db}
    → reaped_with env t c o db ≡ ok (b, db')
    → IsSweep db db'
unfolding reaped_with
reaped_with-IsSweep env t c (already_handled current reason) db {b} {db'} h =
    same db db' (sym (returned h).1)
reaped_with-IsSweep env t c (transitioned d from) db h =
    audited-IsSweep env (text "deposit.credit.reaped") c.id _ db h

expire_one-Sweeps : Sweeps expire_one
unfolding expire_one Sweeps
expire_one-Sweeps env c db b db' h =
    let (o, mid, h1, k1) = bind_ok (transition env (expire_input c)) _ db h in
    IsSweep-trans db mid db' (transition-IsSweep env (expire_input c) db (expire-Swept env c) h1)
      (expired_with-IsSweep env c o mid k1)

release_one-Sweeps : (t : ℕ) → Sweeps (release_one t)
unfolding release_one Sweeps
release_one-Sweeps t env c db b db' h =
    let (o, mid, h1, k1) = bind_ok (transition env (release_stale_input t c)) _ db h in
    IsSweep-trans db mid db'
      (transition-IsSweep env (release_stale_input t c) db (release-Swept t env c) h1)
      (released_with-IsSweep env t c o mid k1)

reap_one-Sweeps : (t : ℕ) → Sweeps (reap_one t)
unfolding reap_one Sweeps
reap_one-Sweeps t env c db b db' h =
    let (o, mid, h1, k1) = bind_ok (transition env (reap_input t c)) _ db h in
    IsSweep-trans db mid db' (transition-IsSweep env (reap_input t c) db (reap-Swept t env c) h1)
      (reaped_with-IsSweep env t c o mid k1)

-- A pass is a sweep whether it ends or throws.
each_candidate-IsSweep :
    (one : Env → Deposit → Tx Bool)
    → Sweeps one
    → (env : Env) (cs : List Deposit) (db : Db) → IsSweep db (each_candidate one env cs db).1
unfolding each_candidate Sweeps
each_candidate-IsSweep one k env [] db = IsSweep-refl db
each_candidate-IsSweep one k env (c ∷ cs) db =
    split (one (as_tenant env c) c db) refl (each_candidate-IsSweep one k env cs)
  where
    counted : (done : Bool) (r : Result ℕ × Db) → (count_done done r).1 ≡ r.1
    counted done (ok n, d) = refl
    counted done (err e, d) = refl

    split :
        (r : Result (Bool × Db))
        → one (as_tenant env c) c db ≡ r
        → ((d : Db) → IsSweep d (each_candidate one env cs d).1)
        → IsSweep db
            (elim r as (λ x. Result ℕ × Db) [
              | err e ↦ (err e, db)
              | ok (done, next) ↦ count_done done (each_candidate one env cs next)
            ]).1
    split (err e) h rest = IsSweep-refl db
    split (ok (done, next)) h rest =
        IsSweep-trans db next _ (k (as_tenant env c) c db done next h)
          (subst (IsSweep next) (sym (counted done (each_candidate one env cs next))) (rest next))

then_pass-IsSweep :
    {A B : Type 0} (m : Pass A) (f : A → Pass B) (db : Db)
    → IsSweep db (m db).1
    → ((a : A) (d : Db) → IsSweep d (f a d).1)
    → IsSweep db (then_pass m f db).1
then_pass-IsSweep {A} {B} m f db h k = split (m db) h
  where
    split : (r : Result A × Db) → IsSweep db r.1 → IsSweep db (follow f r).1
    split (ok a, d) g = IsSweep-trans db d _ g (k a d)
    split (err e, d) g = g

-- Whatever a sweep finds, and wherever it stops, each deposit keeps its amounts and its epoch and makes
-- at most one move: an unpaid one to EXPIRED, a forgotten one from UNDER_REVIEW back to SUBMITTED, a
-- stuck one from CREDITING back to APPROVED. No account, transaction or entry of the ledger changes.
pub run_once-IsSweep : (env : Env) (db : Db) → IsSweep db (run_once env db).1
unfolding run_once expire_unpaid release_stale_claims reap_stuck_credits
run_once-IsSweep env db =
    then_pass-IsSweep (expire_unpaid env) _ db
      (each_candidate-IsSweep expire_one expire_one-Sweeps env _ db)
      (λ a d.
        then_pass-IsSweep (release_stale_claims env) _ d
          (each_candidate-IsSweep (release_one _) (release_one-Sweeps _) env _ d)
          (λ b e.
            then_pass-IsSweep (reap_stuck_credits env) _ e
              (each_candidate-IsSweep (reap_one _) (reap_one-Sweeps _) env _ e)
              (λ n f. IsSweep-refl f)))
