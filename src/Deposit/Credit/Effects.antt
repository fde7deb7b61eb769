-- ===== src/Deposit/Credit/Effects.antt =====
-- A credit job between the database, the Ichancy cashier and the lock (the worker's side of
-- src/modules/deposit/services/deposit-credit.service.ts): unlike a transaction, a job that throws
-- keeps what it did, so the state is kept on both outcomes.
use telegram_mini_app.Prelude.{ℕ, suc, List, ◌∷◌, Option, none, some, length, if◌then◌else◌, Bool}
use telegram_mini_app.Prelude.Integers.{ℤ}
use telegram_mini_app.Prelude.Text.{Text}
use telegram_mini_app.Types.{Error, credit_retry_later, player_link_failed, Result, ok, err}
use telegram_mini_app.Db.{Db, Tx}

-- `IchancyResult`; a message for humans is left out.
pub data IchancyResult (A : Type 0) : Type 0 where
  answered : A → IchancyResult A
  rejected_by : Text → IchancyResult A
  ambiguous : Text → IchancyResult A

-- `CreditPlayerInput` without its log context: the comment is the deposit's short id.
pub record CreditCall : Type 0 where
  pub ichancy_player_id : Text
  pub amount_minor : ℤ
  pub comment : Text

-- What the services outside this repository answer to the calls of one job, each to its n-th call,
-- and what other workers and operators do to the database before this job's n-th statement.
pub record World : Type 0 where
  pub acquire_reply : Bool
  pub link_reply : Option Text
  pub balance_reply : ℕ → IchancyResult ℤ
  pub credit_reply : ℕ → IchancyResult (Unit {0})
  pub extend_reply : ℕ → Bool
  pub others : ℕ → Db → Db

-- The POSTs that the job has sent, newest first, and its other calls, counted.
pub record Run : Type 0 where
  pub db : Db
  pub posts : List CreditCall
  pub reads : ℕ
  pub extends : ℕ
  pub steps : ℕ
  pub held : Bool

abbrev pub Job : Type 0 → Type 0
Job A = Run → Result A × Run

module _ {A : Type 0} where
  abbrev pub finish : A → Job A
  finish a r = (ok a, r)

  abbrev pub fail : Error → Job A
  fail e r = (err e, r)

-- A continuation of what a job came to.
abbrev pub continue_with : {A B : Type 0} → (A → Job B) → Result A × Run → Result B × Run
continue_with f (ok a, r) = f a r
continue_with f (err e, r) = (err e, r)

infixl 5 ◌>>=◌ ◌>>◌
unfoldable pub ◌>>=◌ : {A B : Type 0} → Job A → (A → Job B) → Job B
◌>>=◌ m f r = continue_with f (m r)

abbrev pub ◌>>◌ : {A B : Type 0} → Job A → Job B → Job B
m >> k = m >>= λ _. k

abbrev pub committed : {A : Type 0} → Run → Db → Result (A × Db) → Result A × Run
committed r seen (ok (a, db)) = (ok a, record r { db = db; steps = suc r.steps })
committed r seen (err e) = (err e, record r { db = seen; steps = suc r.steps })

-- `prisma.runInTransaction`, and a statement of its own: the others move first.
unfoldable pub run_in_transaction : {A : Type 0} → World → Tx A → Job A
run_in_transaction world t r = let seen = world.others r.steps r.db in committed r seen (t seen)

-- `ichancy.getPlayerBalance`.
unfoldable pub get_player_balance : World → Job (IchancyResult ℤ)
get_player_balance world r = (ok (world.balance_reply r.reads), record r { reads = suc r.reads })

-- `ichancy.creditPlayer`.
unfoldable pub credit_player : World → CreditCall → Job (IchancyResult (Unit {0}))
credit_player world call r =
    (ok (world.credit_reply (length r.posts)), record r { posts = call ∷ r.posts })

-- `locks.extend`.
unfoldable pub extend_lock : World → Job Bool
extend_lock world r = (ok (world.extend_reply r.extends), record r { extends = suc r.extends })

-- `playerLink.ensureLinked`, which returns a linked account or throws.
unfoldable pub ensure_linked : World → Job Text
ensure_linked world r = elim world.link_reply [
  | none ↦ (err player_link_failed, r)
  | some id ↦ (ok id, r)
]

abbrev pub released : {A : Type 0} → Result A × Run → Result A × Run
released (a, r) = (a, record r { held = Bool.false })

-- `locks.acquire`, then the body, then `locks.release` whatever the body came to.
unfoldable pub under_lock : {A : Type 0} → World → Job A → Job A
under_lock world body r =
    let locked = record r { held = Bool.true } in
    if world.acquire_reply then released (body locked) else (err credit_retry_later, r)
