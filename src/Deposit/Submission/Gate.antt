-- ===== src/Deposit/Submission/Gate.antt =====
-- What a proof of payment does to its deposit (src/modules/deposit/services/deposit.service.ts).
use telegram_mini_app.Prelude.{
  ◌+◌, ◌++◌, true, false, not, List, [], ◌∷◌, Option, none, some, any, ◌≡◌, ◌⊎◌, inl, inr, refl,
  sym, ap, ◌∙◌, subst, arith, Bool-cases, find,
}
use telegram_mini_app.Prelude.Text.{Text, text, text_eq_refl}
use telegram_mini_app.Types.{
  Actor, DepositStatus, draft, awaiting_proof, submitted, status_in, ok, business_rule,
  reference_already_used, deposit_invalid_state, deposit_expired,
}
use telegram_mini_app.Db.{
  Db, Env, bind_ok, bind_step, returned, require, is_deposit, write_audit, generate_id,
  require_effective_tenant_id, find_by_id_in_tenant,
}
use telegram_mini_app.Db.Rows.{Deposit, DepositProof}
use telegram_mini_app.Outbox.{same_key, enqueue}
use telegram_mini_app.Outbox.Frame.{write_audit-SameBooks, enqueue-SameBooks}
use telegram_mini_app.Outbox.Holds.{enqueue_holds}
use telegram_mini_app.Deposit.StateMachine.{
  TransitionInput, TransitionOutcome, AlreadyHandledReason, transitioned, already_handled,
  transition,
}
use telegram_mini_app.Deposit.StateMachine.Once.{IsKeyed, transition_won}
use telegram_mini_app.Deposit.StateMachine.Writes.{KeepsClaim, transition-cases}
use telegram_mini_app.Deposit.Review.FourEyes.{require_ok}
use telegram_mini_app.Deposit.Policy.Permits.{context_ok}
use telegram_mini_app.Deposit.Creation.{PaymentMethodPort}
use telegram_mini_app.Deposit.Submission.{
  count_proofs, accepting, is_in_time, Evidence, submission_input, breaks_reference, index_refuses,
  transition_or_explain_reference, admin_message, refresh_message, report_submission,
  finish_submission, insert_proof, is_same_picture, assert_accepts_proof,
}
use telegram_mini_app.Deposit.Submission.Given.{
  EvidenceKept, StandsOnce, stands_once, submission_written,
}
use telegram_mini_app.Deposit.Submission.Stored.{
  gaps_of, or_not_found, ingest_message, StoredProofInput, StoredProofResult, settle_stored_proof,
  store_proof, require_own_deposit, attach_stored_proof, attach_to,
}

abbrev pub admin_key : Deposit → Text
admin_key d = text "deposit.notify_admin:" ++ d.id

abbrev pub refresh_key : Text → Text
refresh_key proof = text "deposit.card_update:" ++ proof

explained_ok :
    (env : Env) (reference : Option Text) (input : TransitionInput) (db : Db)
    {o : TransitionOutcome} {db' : Db}
    → transition_or_explain_reference env reference input db ≡ ok (o, db')
    → (transition env input db ≡ ok (o, db')) × (index_refuses reference o db'.deposits ≡ false)
unfolding transition_or_explain_reference
explained_ok env reference input db {o} {db'} h =
    let (outcome, after, h0, k0) = bind_ok (transition env input) _ db h in
    let (_, d1, h1, k1) =
      bind_ok
        (require (not (index_refuses reference outcome after.deposits))
          (business_rule reference_already_used))
        _ after k0 in
    let (unbroken, same) = require_ok _ _ after h1 in
    let done = returned k1 in
    let last : after ≡ db' = sym same ∙ done.1 in
    (
      h0
          ∙ ap (λ (x : Db). ok (outcome, x)) last
          ∙ ap (λ (x : TransitionOutcome). ok (x, db')) done.0,
      subst (λ (x : Db). index_refuses reference o x.deposits ≡ false) last
          (subst (λ t. index_refuses reference t after.deposits ≡ false) done.0
            (ground (arith, unbroken))),
    )

reported_won :
    (env : Env) (d : Deposit) (actor : Actor) (proof tenant : Text) (row : Deposit)
    (from : DepositStatus) (mid : Db) {status : DepositStatus} {db' : Db}
    → env.tenant ≡ some tenant
    → report_submission env d actor proof (transitioned row from) mid ≡ ok (status, db')
    → (db'.deposits ≡ mid.deposits)
      × (any (same_key tenant (admin_key d)) db'.outbox ≡ true)
      × (status ≡ row.status)
unfolding report_submission
reported_won env d actor proof tenant row from mid {status} {db'} e h =
    let (_, d1, h1, k1) =
      bind_ok (write_audit env (text "deposit.submit") actor d.id (some d.claimed_amount_minor)) _
        mid h in
    let (_, d2, h2, k2) = bind_ok (enqueue env (admin_message d)) _ d1 k1 in
    let done = returned k2 in
    (
      ap (λ (x : Db). x.deposits) (sym done.1)
          ∙ (enqueue-SameBooks env _ d1 h2).deposits
          ∙ (write_audit-SameBooks env _ actor d.id _ mid h1).deposits,
      subst (λ (x : Db). any (same_key tenant (admin_key d)) x.outbox ≡ true) done.1
          (enqueue_holds env (admin_message d) tenant (admin_key d) d1 e refl h2),
      sym done.0,
    )

reported_handled :
    (env : Env) (d : Deposit) (actor : Actor) (proof tenant : Text) (mid : Db)
    (current : Option DepositStatus) (reason : AlreadyHandledReason) {status : DepositStatus}
    {db' : Db}
    → env.tenant ≡ some tenant
    → report_submission env d actor proof (already_handled current reason) mid ≡ ok (status, db')
    → (db'.deposits ≡ mid.deposits)
      × (any (same_key tenant (refresh_key proof)) db'.outbox ≡ true)
      × (status ≡ d.status)
unfolding report_submission
reported_handled env d actor proof tenant mid current reason {status} {db'} e h =
    let (_, d1, h1, k1) =
      bind_ok (write_audit env (text "deposit.proof.attach") actor d.id none) _ mid h in
    let (_, d2, h2, k2) = bind_ok (enqueue env (refresh_message d proof)) _ d1 k1 in
    let done = returned k2 in
    (
      ap (λ (x : Db). x.deposits) (sym done.1)
          ∙ (enqueue-SameBooks env _ d1 h2).deposits
          ∙ (write_audit-SameBooks env _ actor d.id _ mid h1).deposits,
      subst (λ (x : Db). any (same_key tenant (refresh_key proof)) x.outbox ≡ true) done.1
          (enqueue_holds env (refresh_message d proof) tenant (refresh_key proof) d1 e refl h2),
      sym done.0,
    )

-- The end of a submission, by the outcome of its transition.
abbrev pub Settled : Env → Deposit → Text → Text → Evidence → DepositStatus → Db → Db → Type 0
Settled env d proof tenant e status db db' =
    ((any (same_key tenant (admin_key d)) db'.outbox ≡ true)
      × (status ≡ submitted)
      × (before : Deposit) × (row : Deposit) × (find (is_deposit tenant d.id) db.deposits
          ≡ some before)
      × (status_in before.status (draft ∷ awaiting_proof ∷ []) ≡ true)
      × (find (is_deposit tenant d.id) db'.deposits ≡ some row)
      × (row.status ≡ submitted)
      × KeepsClaim before row
      × (row.submitted_at ≡ some env.now)
      × EvidenceKept e before row
      × StandsOnce row.payment_method_id e.external_reference db'.deposits)
    ⊎ ((any (same_key tenant (refresh_key proof)) db'.outbox ≡ true)
        × (db'.deposits ≡ db.deposits)
        × (status ≡ d.status))

settles :
    (env : Env) (d : Deposit) (actor : Actor) (proof tenant : Text) (e : Evidence)
    (o : TransitionOutcome) (db mid : Db) {status : DepositStatus} {db' : Db}
    → IsKeyed db.deposits
    → env.tenant ≡ some tenant
    → transition env (submission_input env actor d.id e) db ≡ ok (o, mid)
    → index_refuses e.external_reference o mid.deposits ≡ false
    → report_submission env d actor proof o mid ≡ ok (status, db')
    → Settled env d proof tenant e status db db'
settles env d actor proof tenant e (transitioned row from) db mid {db' = db'} keyed context h once
      k =
    let (kept, told, answer) = reported_won env d actor proof tenant row from mid context k in
    let input = submission_input env actor d.id e in
    let (t, before, _, there, found, _, hit, stands, wrote, _, _) =
      transition_won env input db keyed h in
    let same : t ≡ tenant = cc in
    let there_now : find (is_deposit tenant d.id) db'.deposits ≡ some row =
      subst (λ ds. find (is_deposit tenant d.id) ds ≡ some row) (sym kept)
        (subst (λ s. find (is_deposit s d.id) mid.deposits ≡ some row) same stands) in
    let (sent_at, given) = submission_written env actor d.id e before row wrote in
    inl (
      told,
      answer ∙ wrote.arrived,
      before,
      row,
      subst (λ s. find (is_deposit s d.id) db.deposits ≡ some before) same found,
      hit,
      there_now,
      wrote.arrived,
      wrote.claim,
      sent_at,
      given,
      stands_once (is_deposit tenant d.id) row db'.deposits e.external_reference
          before.external_reference there_now given.0 wrote.arrived
          (subst (λ ds. breaks_reference row.payment_method_id e.external_reference ds ≡ false)
            (sym kept) once),
    )
settles env d actor proof tenant e (already_handled current reason) db mid keyed context h once k =
    let (kept, told, answer) =
      reported_handled env d actor proof tenant mid current reason context k in
    let still : mid.deposits ≡ db.deposits =
      elim (transition-cases env (submission_input env actor d.id e) db h) [
        | inl m ↦ ap (λ (x : Db). x.deposits) m.same
        | inr w ↦ absurd (cc (w.reported.1))
      ] in
    inr (told, kept ∙ still, answer)

-- The end of a submission that went through, for ids that are unique. If it moved the deposit, that was a
-- draft or waited for its proof, and the table now holds it SUBMITTED at the time of the call, with its
-- claim as it was, the reference and the sender's account that were given, and what it had of those that
-- were not; the answer is SUBMITTED, a message for an admin stands in the outbox under the deposit's own
-- key, and a reference that was given stands exactly once among the deposits of the payment method that
-- are not rejected. If not, no deposit changed, the answer is the status that was read, and a message to
-- refresh the card stands under the proof's key.
pub finish_submission-Settled :
    (env : Env) (d : Deposit) (actor : Actor) (proof tenant : Text) (e : Evidence) (db : Db)
    (status : DepositStatus) (db' : Db)
    → IsKeyed db.deposits
    → env.tenant ≡ some tenant
    → finish_submission env d actor proof e db ≡ ok (status, db')
    → Settled env d proof tenant e status db db'
unfolding finish_submission
finish_submission-Settled env d actor proof tenant e db status db' keyed context h =
    let input = submission_input env actor d.id e in
    let (o, mid, h0, k0) =
      bind_ok (transition_or_explain_reference env e.external_reference input) _ db h in
    let (ran, once) = explained_ok env e.external_reference input db h0 in
    settles env d actor proof tenant e o db mid keyed context ran once k0

inserted :
    (env : Env) (d : Deposit) (sha : Text) (db : Db) {proof : DepositProof} {db' : Db}
    → insert_proof env d sha db ≡ ok (proof, db')
    → (db'.deposits ≡ db.deposits) × (any (is_same_picture d.id sha) db'.proofs ≡ true)
unfolding insert_proof generate_id
inserted env d sha db {proof} {db'} h =
    elim (Bool-cases (any (is_same_picture d.id sha) db.proofs)) [
      | inl e ↦ absurd (cc (rw e at h))
      | inr e ↦
          let done = (returned (rw e at h)).1 in
          (
            ap (λ (x : Db). x.deposits) (sym done),
            subst (λ (x : Db). any (is_same_picture d.id sha) x.proofs ≡ true) done
                (rw (text_eq_refl d.id, text_eq_refl sha) refl),
          )
    ]

stored_incomplete :
    (env : Env) (d : Deposit) (input : StoredProofInput) (code : Text) (codes : List Text) (db : Db)
    {r : StoredProofResult} {db' : Db}
    → store_proof env d input (code ∷ codes) db ≡ ok (r, db')
    → (db'.deposits ≡ db.deposits)
      × (any (is_same_picture d.id input.sha256) db'.proofs ≡ true)
      × (r.missing ≡ code ∷ codes)
      × (r.status ≡ d.status)
unfolding store_proof settle_stored_proof
stored_incomplete env d input code codes db {r} {db'} h =
    let (proof, d1, h1, k1) = bind_ok (insert_proof env d input.sha256) _ db h in
    let (_, d2, h2, k2) = bind_ok (enqueue env (ingest_message d proof.id)) _ d1 k1 in
    let (_, d3, h3, k3) =
      bind_ok (write_audit env (text "deposit.proof.attach") input.uploaded_by d.id none) _ d2 k2 in
    let done = returned k3 in
    let (kept, there) = inserted env d input.sha256 db h1 in
    let told = enqueue-SameBooks env (ingest_message d proof.id) d1 h2 in
    let noted = write_audit-SameBooks env _ input.uploaded_by d.id none d2 h3 in
    (
      ap (λ (x : Db). x.deposits) (sym done.1) ∙ noted.deposits ∙ told.deposits ∙ kept,
      subst (λ ps. any (is_same_picture d.id input.sha256) ps ≡ true)
          (sym (ap (λ (x : Db). x.proofs) (sym done.1) ∙ noted.proofs ∙ told.proofs)) there,
      ap (λ (x : StoredProofResult). x.missing) (sym done.0),
      ap (λ (x : StoredProofResult). x.status) (sym done.0),
    )

own_ok :
    (env : Env) (tenant id : Text) (d : Deposit) (db : Db)
    → env.tenant ≡ some tenant
    → find (is_deposit tenant id) db.deposits ≡ some d
    → require_own_deposit env id db ≡ ok (d, db)
unfolding require_own_deposit find_by_id_in_tenant
own_ok env tenant id d db context found =
    bind_step (require_effective_tenant_id env) _ db {a = tenant} {mid = db}
      (context_ok env tenant db context)
      (bind_step (find_by_id_in_tenant tenant id) or_not_found db {a = some d} {mid = db}
        (rw found refl) refl)

accepts_same :
    (env : Env) (d : Deposit) (db : Db) {u : Unit {0}} {db' : Db}
    → assert_accepts_proof env d db ≡ ok (u, db')
    → db' ≡ db
unfolding assert_accepts_proof
accepts_same env d db h =
    let (_, mid, h0, k0) =
      bind_ok (require (accepting d) (business_rule deposit_invalid_state))
        (λ _. require (is_in_time env d) (business_rule deposit_expired)) db h in
    (require_ok (is_in_time env d) (business_rule deposit_expired) mid k0).1
    ∙ (require_ok (accepting d) (business_rule deposit_invalid_state) db h0).1

-- A photo that goes in for a deposit before submission, while the rail still misses something of it, is
-- kept as a proof, but the deposit is not submitted: no deposit changes from what others have committed
-- meanwhile, and the answer is the status that was read, with what is missing.
pub attach_stored_proof_incomplete :
    (env : Env) (port : PaymentMethodPort) (others : Db → Db) (input : StoredProofInput)
    (tenant : Text) (d : Deposit) (code : Text) (codes : List Text) (db : Db)
    (r : StoredProofResult) (db' : Db)
    → env.tenant ≡ some tenant
    → find (is_deposit tenant input.deposit_request_id) db.deposits ≡ some d
    → gaps_of port d (count_proofs env d.id db.proofs + 1) ≡ code ∷ codes
    → attach_stored_proof env port others input db ≡ ok (r, db')
    → (db'.deposits ≡ (others db).deposits)
      × (any (is_same_picture d.id input.sha256) db'.proofs ≡ true)
      × (r.missing ≡ code ∷ codes)
      × (r.status ≡ d.status)
unfolding attach_stored_proof
attach_stored_proof_incomplete env port others input tenant d code codes db r db' context found gaps
      h =
    let own = own_ok env tenant input.deposit_request_id d db context found in
    let (_, mid, h0, k0) = bind_ok (assert_accepts_proof env d) _ db (
      sym (
        bind_step (require_own_deposit env input.deposit_request_id)
          (attach_to env port others input) db {r = attach_to env port others input d db} own refl)
      ∙ h) in
    let run =
      subst
        (λ (x : Db).
          store_proof env d input (gaps_of port d (count_proofs env d.id x.proofs + 1)) (others x)
          ≡ ok (r, db'))
        (accepts_same env d db h0) k0 in
    stored_incomplete env d input code codes (others db)
      (subst (λ m. store_proof env d input m (others db) ≡ ok (r, db')) gaps run)
