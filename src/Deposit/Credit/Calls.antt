-- ===== src/Deposit/Credit/Calls.antt =====
-- How many POSTs a job sends: the pieces that send none, and how a chain adds up.
use telegram_mini_app.Prelude.{
  ℕ, zero, suc, ◌≤◌, length, Bool, List, ◌∷◌, Option, ◌≡◌, refl, ap, ◌∙◌, arith, Option-cases, inl,
  inr,
}
use telegram_mini_app.Prelude.Integers.{ℤ}
use telegram_mini_app.Prelude.Text.{Text}
use telegram_mini_app.Types.{CreditVerifiedBy, ledger_error, Result, ok, err}
use telegram_mini_app.Db.{Db, Env, Tx}
use telegram_mini_app.Db.Rows.{Deposit}
use telegram_mini_app.Deposit.Credit.Effects.{
  World, Run, Job, CreditCall, IchancyResult, continue_with, committed, ◌>>=◌, run_in_transaction,
  get_player_balance, credit_player, extend_lock, ensure_linked,
}
use telegram_mini_app.Deposit.Credit.Finish.{
  Cause, ledger_refused, CreditOutcome, catch_ledger, unresolved_of, failed_of, finish_credited,
  finish_failed, finish_needs_reconciliation, handle_rejection,
}

-- `k` times the same call, before those of old.
abbrev pub copies : ℕ → CreditCall → List CreditCall → List CreditCall
copies zero c old = old
copies (suc k) c old = c ∷ copies k c old

copies-snoc :
    (k : ℕ) (c : CreditCall) (old : List CreditCall) → copies k c (c ∷ old) ≡ c ∷ copies k c old
copies-snoc zero c old = refl
copies-snoc (suc k) c old = ap (λ l. c ∷ l) (copies-snoc k c old)

-- A job that sends no money.
abbrev pub Silent : {A : Type 0} → Job A → Type 0
Silent m = (r : Run) → (m r).1.posts ≡ r.posts

-- After a run the POSTs are those of before, and at most `n` copies of one call with the property.
abbrev pub Sent : ℕ → (CreditCall → Type 0) → List CreditCall → List CreditCall → Type 0
Sent n P now before = (k : ℕ) × (c : CreditCall) × (k ≤ n) × P c × (now ≡ copies k c before)

abbrev pub Sends : {A : Type 0} → ℕ → (CreditCall → Type 0) → Job A → Type 0
Sends n P m = (r : Run) → Sent n P (m r).1.posts r.posts

module _ {A B : Type 0} (m : Job A) (f : A → Job B) where
  pub bind-Silent : Silent m → ((a : A) → Silent (f a)) → Silent (m >>= f)
  unfolding ◌>>=◌
  bind-Silent qm qf r = split (m r) (qm r)
    where
      split : (x : Result A × Run) → x.1.posts ≡ r.posts → (continue_with f x).1.posts ≡ r.posts
      split (ok a, s) h = qf a s ∙ h
      split (err e, s) h = h

  -- A silent first part, of which the last part may use what it returned.
  pub bind-Sends :
      {n : ℕ} {P : CreditCall → Type 0} (c : CreditCall)
      → P c
      → Silent m
      → ((a : A) → Sends n P (f a))
      → Sends n P (m >>= f)
  unfolding ◌>>=◌
  bind-Sends {n} {P} c pc qm sf r = split (m r) (qm r)
    where
      split :
          (x : Result A × Run) → x.1.posts ≡ r.posts → Sent n P (continue_with f x).1.posts r.posts
      split (ok a, s) h = rw (← h) (sf a s)
      split (err e, s) h = (0, c, omega arith, pc, h)

-- One POST, then the rest.
pub post-Sends :
    {B : Type 0} (world : World) (c : CreditCall) (f : IchancyResult (Unit {0}) → Job B) {n : ℕ}
    (r : Run)
    → Sent n
        (λ x. x ≡ c)
        (f (world.credit_reply (length r.posts)) (record r { posts = c ∷ r.posts })).1.posts
        (c ∷ r.posts)
    → Sent (suc n) (λ x. x ≡ c) ((credit_player world c >>= f) r).1.posts r.posts
unfolding credit_player ◌>>=◌
post-Sends world c f {n} r (k, x, le, e, h) =
    (suc k, x, omega (arith, le), e, rw e (rw e at h ∙ copies-snoc k c r.posts))

pub Silent-Sent :
    {now before : List CreditCall} (n : ℕ) (P : CreditCall → Type 0) (c : CreditCall)
    → P c
    → now ≡ before
    → Sent n P now before
Silent-Sent n P c pc h = (0, c, omega arith, pc, h)

-- A weaker claim on the calls, and more of them.
pub Sent-weaken :
    {now before : List CreditCall} {n m : ℕ} {P Q : CreditCall → Type 0}
    → n ≤ m
    → ((c : CreditCall) → P c → Q c)
    → Sent n P now before
    → Sent m Q now before
Sent-weaken le f (k, c, k≤n, p, h) = (k, c, omega (arith, le, k≤n), f c p, h)

module _ (world : World) where
  pub run_in_transaction-Silent : {A : Type 0} (t : Tx A) → Silent (run_in_transaction world t)
  unfolding run_in_transaction
  run_in_transaction-Silent {A} t r = split (t (world.others r.steps r.db))
    where
      split : (x : Result (A × Db)) → (committed r (world.others r.steps r.db) x).1.posts ≡ r.posts
      split (ok (a, db)) = refl
      split (err e) = refl

  pub extend_lock-Silent : Silent (extend_lock world)
  unfolding extend_lock
  extend_lock-Silent r = refl

  pub get_player_balance-Silent : Silent (get_player_balance world)
  unfolding get_player_balance
  get_player_balance-Silent r = refl

  pub ensure_linked-Silent : Silent (ensure_linked world)
  unfolding ensure_linked
  ensure_linked-Silent r = elim (Option-cases world.link_reply) [
    | inl e ↦ rw e refl
    | inr (id, e) ↦ rw e refl
  ]

  module _ (env : Env) (deposit : Deposit) (amount b0 : ℤ) (b1 : Option ℤ) where
    pub finish_needs_reconciliation-Silent :
        (cause : Cause) → Silent (finish_needs_reconciliation world env deposit cause amount b0 b1)
    unfolding finish_needs_reconciliation
    finish_needs_reconciliation-Silent cause r = split _ (run_in_transaction-Silent _ r)
      where
        split :
            (x : Result (Unit {0}) × Run)
            → x.1.posts ≡ r.posts
            → (unresolved_of cause x).1.posts ≡ r.posts
        split (ok done, s) h = h
        split (err e, s) h = h

    pub finish_credited-Silent :
        (by : CreditVerifiedBy) → Silent (finish_credited world env deposit amount by b0 b1)
    unfolding finish_credited
    finish_credited-Silent by r = split _ (run_in_transaction-Silent _ r)
      where
        split :
            (x : Result CreditOutcome × Run)
            → x.1.posts ≡ r.posts
            → (catch_ledger world env deposit amount b0 b1 x).1.posts ≡ r.posts
        split (ok o, s) h = h
        split (err (ledger_error c), s) h =
            finish_needs_reconciliation-Silent (ledger_refused c) s ∙ h
        split (err _, s) h = h

  pub finish_failed-Silent :
      (env : Env) (deposit : Deposit) (code : Text) (alarm : Bool)
      → Silent (finish_failed world env deposit code alarm)
  unfolding finish_failed
  finish_failed-Silent env deposit code alarm r = split _ (run_in_transaction-Silent _ r)
    where
      split :
          (x : Result (Unit {0}) × Run) → x.1.posts ≡ r.posts → (failed_of code x).1.posts ≡ r.posts
      split (ok done, s) h = h
      split (err e, s) h = h

  pub handle_rejection-Silent :
      (env : Env) (deposit : Deposit) (code : Text)
      → Silent (handle_rejection world env deposit code)
  unfolding handle_rejection
  handle_rejection-Silent env deposit code = finish_failed-Silent env deposit _ _
