-- ===== src/Deposit/Sweep.antt =====
-- The periodic clean-up of deposits: src/modules/deposit/services/deposit-sweep.service.ts, and the
-- cron that runs it (deposit-expiry.cron.ts). Reasons that are shown to people are left out. The cron's
-- lock is Redis and a parameter.
pub mod Frame
pub mod Money
use telegram_mini_app.Prelude.{
  ℕ, zero, suc, ◌+◌, ◌-◌, ◌*◌, Bool, true, false, ◌&&◌, ◌||◌, List, [], ◌∷◌, ◌++◌, Option, none,
  some, keep, ltb, leb, or_else, if◌then◌else◌,
}
use telegram_mini_app.Prelude.Integers.{ℤ}
use telegram_mini_app.Prelude.Text.{Text, text, text_eq}
use telegram_mini_app.Prelude.Decimal.{decimal}
use telegram_mini_app.Types.{
  DepositStatus, draft, awaiting_proof, submitted, under_review, approved, crediting, expired,
  status_eq, status_in, system_actor, Result, ok, err,
}
use telegram_mini_app.Db.{Db, Env, Tx, pure, ◌>>=◌, ◌>>◌, write_audit}
use telegram_mini_app.Db.Rows.{Deposit, OutboxInput, credit_requested, card_update, notify_player}
use telegram_mini_app.Deposit.StateMachine.{
  TransitionInput, TransitionOutcome, transitioned, already_handled, no_guard, transition,
}
use telegram_mini_app.Deposit.StateMachine.Patch.{review_started_at, decided_by_admin_id}
use telegram_mini_app.Deposit.Credit.Keys.{outbox_input}
use telegram_mini_app.Outbox.{enqueue}

abbrev pub batch_size : ℕ
batch_size = 100

abbrev pub review_claim_minutes : ℕ
review_claim_minutes = 10

abbrev pub crediting_stuck_minutes : ℕ
crediting_stuck_minutes = 20

-- SQL's `column < t`, which NULL does not satisfy.
abbrev pub is_before : Option ℕ → ℕ → Bool
is_before none t = false
is_before (some at) t = ltb at t

-- `scanScope`: every operator's rows without a tenant in context, else that operator's.
abbrev pub in_scope : Env → Deposit → Bool
in_scope env d = elim env.tenant [ none ↦ true | some tenant ↦ text_eq d.tenant_id tenant ]

-- `orderBy … asc` on a column that the rows have, and `take`.
abbrev pub insert_by : (Deposit → ℕ) → Deposit → List Deposit → List Deposit
insert_by key d [] = d ∷ []
insert_by key d (e ∷ ds) =
    let rest = insert_by key d ds in if leb (key d) (key e) then d ∷ (e ∷ ds) else e ∷ rest

abbrev pub sort_by : (Deposit → ℕ) → List Deposit → List Deposit
sort_by key [] = []
sort_by key (d ∷ ds) = insert_by key d (sort_by key ds)

abbrev pub take : ℕ → List Deposit → List Deposit
take zero ds = []
take (suc n) [] = []
take (suc n) (d ∷ ds) = d ∷ take n ds

abbrev pub candidates : Env → (Deposit → Bool) → (Deposit → ℕ) → Db → List Deposit
candidates env p key db =
    take batch_size (sort_by key (keep (λ d. in_scope env d && p d) db.deposits))

-- `runWithTenant(candidate.tenantId, …)`.
abbrev pub as_tenant : Env → Deposit → Env
as_tenant env d = record env { tenant = some d.tenant_id }

unfoldable pub expire_input : Deposit → TransitionInput
expire_input d = record {
  deposit_request_id = d.id;
  from = draft ∷ (awaiting_proof ∷ []);
  to = expired;
  actor = system_actor;
  patch = [];
  guard = no_guard;
}

unfoldable pub expired_with : Env → Deposit → TransitionOutcome → Tx Bool
expired_with env candidate (already_handled current reason) = pure false
expired_with env candidate (transitioned d from) = do
  write_audit env (text "deposit.expire") system_actor candidate.id none
  enqueue env (
      outbox_input candidate (text "deposit.notify_player")
        (notify_player candidate.id d.player_id (text "deposit.expired"))
        (text "deposit.notify_player:" ++ (candidate.id ++ text ":expired")))
  pure true

unfoldable pub expire_one : Env → Deposit → Tx Bool
expire_one env candidate = do
  outcome ← transition env (expire_input candidate)
  expired_with env candidate outcome

unfoldable pub release_stale_input : ℕ → Deposit → TransitionInput
release_stale_input stale_before d = record {
  deposit_request_id = d.id;
  from = under_review ∷ [];
  to = submitted;
  actor = system_actor;
  patch = review_started_at none ∷ (decided_by_admin_id none ∷ []);
  guard = λ e. is_before e.review_started_at stale_before;
}

unfoldable pub released_with : Env → ℕ → Deposit → TransitionOutcome → Tx Bool
released_with env stale_before candidate (already_handled current reason) = pure false
released_with env stale_before candidate (transitioned d from) = do
  enqueue env (
      outbox_input candidate (text "deposit.card_update")
        (card_update candidate.id (text "claim-released"))
        (text "deposit.card_update:"
          ++ (candidate.id ++ (text ":released:" ++ decimal stale_before))))
  pure true

unfoldable pub release_one : ℕ → Env → Deposit → Tx Bool
release_one stale_before env candidate = do
  outcome ← transition env (release_stale_input stale_before candidate)
  released_with env stale_before candidate outcome

unfoldable pub reap_input : ℕ → Deposit → TransitionInput
reap_input stale_before d = record {
  deposit_request_id = d.id;
  from = crediting ∷ [];
  to = approved;
  actor = system_actor;
  patch = [];
  guard = λ e. ltb e.updated_at stale_before;
}

unfoldable pub reaped_with : Env → ℕ → Deposit → TransitionOutcome → Tx Bool
reaped_with env stale_before candidate (already_handled current reason) = pure false
reaped_with env stale_before candidate (transitioned d from) = do
  write_audit env (text "deposit.credit.reaped") system_actor candidate.id none
  enqueue env (
      outbox_input candidate (text "deposit.credit_requested")
        (credit_requested candidate.id d.short_id d.player_id d.credit_key_epoch
          (or_else d.credited_amount_minor d.claimed_amount_minor))
        (text "deposit.credit_requested:"
          ++ (candidate.id
              ++ (text ":"
                  ++ (decimal d.credit_key_epoch ++ (text ":reap:" ++ decimal stale_before))))))
  pure true

unfoldable pub reap_one : ℕ → Env → Deposit → Tx Bool
reap_one stale_before env candidate = do
  outcome ← transition env (reap_input stale_before candidate)
  reaped_with env stale_before candidate outcome

-- One transaction for each candidate. What one throws ends the pass; what was committed before stays.
abbrev pub Pass : Type 0 → Type 0
Pass A = Db → Result A × Db

abbrev pub count_done : Bool → Result ℕ × Db → Result ℕ × Db
count_done done (ok n, db) = (ok (if done then suc n else n), db)
count_done done (err e, db) = (err e, db)

unfoldable pub each_candidate : (Env → Deposit → Tx Bool) → Env → List Deposit → Pass ℕ
each_candidate one env [] db = (ok 0, db)
each_candidate one env (d ∷ ds) db = elim (one (as_tenant env d) d db) [
  | err e ↦ (err e, db)
  | ok (done, next) ↦ count_done done (each_candidate one env ds next)
]

unfoldable pub expire_unpaid : Env → Pass ℕ
expire_unpaid env db =
    each_candidate expire_one env
      (candidates env
        (λ d. status_in d.status (draft ∷ (awaiting_proof ∷ [])) && is_before d.expires_at env.now)
        (λ d. or_else d.expires_at 0) db)
      db

unfoldable pub release_stale_claims : Env → Pass ℕ
release_stale_claims env db =
    let stale_before = env.now - review_claim_minutes * 60000 in
    each_candidate (release_one stale_before) env
      (candidates env
        (λ d. status_eq d.status under_review && is_before d.review_started_at stale_before)
        (λ d. or_else d.review_started_at 0) db)
      db

unfoldable pub reap_stuck_credits : Env → Pass ℕ
reap_stuck_credits env db =
    let stale_before = env.now - crediting_stuck_minutes * 60000 in
    each_candidate (reap_one stale_before) env
      (candidates env (λ d. status_eq d.status crediting && ltb d.updated_at stale_before)
        (λ d. d.updated_at) db)
      db

-- The next pass, unless this one threw.
abbrev pub follow : {A B : Type 0} → (A → Pass B) → Result A × Db → Result B × Db
follow f (ok a, db) = f a db
follow f (err e, db) = (err e, db)

abbrev pub then_pass : {A B : Type 0} → Pass A → (A → Pass B) → Pass B
then_pass m f db = follow f (m db)

pub record SweepReport : Type 0 where
  pub expired_count : ℕ
  pub released_count : ℕ
  pub reaped_count : ℕ

unfoldable pub run_once : Env → Pass SweepReport
run_once env = then_pass (expire_unpaid env) (λ expired_count.
    then_pass (release_stale_claims env) (λ released_count.
      then_pass (reap_stuck_credits env) (λ reaped_count db. (
        ok (record {
          expired_count = expired_count;
          released_count = released_count;
          reaped_count = reaped_count;
        }),
        db,
      ))))

-- The cron's tick: only a worker that got the lock sweeps, for every operator, and swallows what the
-- sweep throws.
unfoldable pub cron_sweep : Bool → Bool → Env → Db → Db
cron_sweep is_worker acquired env db =
    if is_worker && acquired then (run_once (record env { tenant = none }) db).1 else db
