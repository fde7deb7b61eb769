-- ===== src/Deposit/Credit/Posts.antt =====
-- The money that one credit job may move: how often it calls the cashier, and with what.
use telegram_mini_app.Prelude.{ℕ, suc, Bool, true, false, none, ◌≡◌, refl, Bool-cases, inl, inr}
use telegram_mini_app.Prelude.Integers.{ℤ}
use telegram_mini_app.Prelude.Text.{Text}
use telegram_mini_app.Types.{api_ok, balance_delta, credit_retry_later}
use telegram_mini_app.Db.{Env}
use telegram_mini_app.Db.Rows.{Deposit}
use telegram_mini_app.Deposit.Credit.{
  Verdict, verify_by_delta, measured, check_lock, credit_call, settle_second, after_second,
  retry_once, settle_first, after_first, with_baseline,
}
use telegram_mini_app.Deposit.Credit.Effects.{
  World, IchancyResult, answered, rejected_by, ambiguous, fail,
}
use telegram_mini_app.Deposit.Credit.Finish.{CreditOutcome}
use telegram_mini_app.Deposit.Credit.Writes.{record_baseline, record_after_balance, bump_attempts}
use telegram_mini_app.Deposit.Credit.Calls.{
  Silent, Sends, Silent-Sent, bind-Silent, bind-Sends, post-Sends, run_in_transaction-Silent,
  extend_lock-Silent, get_player_balance-Silent, finish_credited-Silent,
  finish_needs_reconciliation-Silent, handle_rejection-Silent,
}

module _ (world : World) (env : Env) (link : Text) (deposit : Deposit) (amount b0 : ℤ) where
  measured-Silent : (x : IchancyResult ℤ) → Silent (measured world env deposit b0 amount x)
  unfolding measured record_after_balance
  measured-Silent (answered b1) = bind-Silent _ _ (run_in_transaction-Silent world _) λ _ r. refl
  measured-Silent (rejected_by code) = λ r. refl
  measured-Silent (ambiguous cause) = λ r. refl

  check_lock-Silent : (b : Bool) → Silent (check_lock b)
  unfolding check_lock
  check_lock-Silent true r = refl
  check_lock-Silent false r = refl

  verify_by_delta-Silent : Silent (verify_by_delta world env deposit b0 amount)
  unfolding verify_by_delta
  verify_by_delta-Silent = bind-Silent _ _ (extend_lock-Silent world) λ b.
      bind-Silent _ _ (check_lock-Silent b)
        λ _. bind-Silent _ _ (get_player_balance-Silent world) measured-Silent

  settle_second-Silent :
      (cause : Text) (v : Verdict) → Silent (settle_second world env deposit amount b0 cause v)
  unfolding settle_second
  settle_second-Silent cause v r = elim (Bool-cases v.landed) [
    | inl e ↦
        rw e (finish_credited-Silent world env deposit amount b0 v.balance_minor balance_delta r)
    | inr e ↦
        rw e (finish_needs_reconciliation-Silent world env deposit amount b0 v.balance_minor _ r)
  ]

  after_second-Silent :
      (x : IchancyResult (Unit {0})) → Silent (after_second world env deposit amount b0 x)
  unfolding after_second
  after_second-Silent (answered done) =
      finish_credited-Silent world env deposit amount b0 none api_ok
  after_second-Silent (rejected_by code) = handle_rejection-Silent world env deposit code
  after_second-Silent (ambiguous cause) =
      bind-Silent _ _ verify_by_delta-Silent (settle_second-Silent cause)

  -- One POST at most, and it is the deposit's.
  retry_once-Sends :
      Sends 1
        (λ c. c ≡ credit_call link deposit amount)
        (retry_once world env link deposit amount b0)
  unfolding retry_once bump_attempts
  retry_once-Sends =
      bind-Sends _ _ (credit_call link deposit amount) refl (run_in_transaction-Silent world _)
        λ _ r.
          post-Sends world _ _ r
            (Silent-Sent 0 _ (credit_call link deposit amount) refl (after_second-Silent _ _))

  settle_first-Sends :
      (v : Verdict)
      → Sends 1
          (λ c. c ≡ credit_call link deposit amount)
          (settle_first world env link deposit amount b0 v)
  unfolding settle_first
  settle_first-Sends v r = elim (Bool-cases v.landed) [
    | inl e ↦ rw e (
        Silent-Sent 1 _ (credit_call link deposit amount) refl
          (finish_credited-Silent world env deposit amount b0 v.balance_minor balance_delta r))
    | inr e ↦ rw e (retry_once-Sends r)
  ]

  after_first-Sends :
      (x : IchancyResult (Unit {0}))
      → Sends 1
          (λ c. c ≡ credit_call link deposit amount)
          (after_first world env link deposit amount b0 x)
  unfolding after_first
  after_first-Sends (answered done) = λ r.
      Silent-Sent 1 _ (credit_call link deposit amount) refl
        (finish_credited-Silent world env deposit amount b0 none api_ok r)
  after_first-Sends (rejected_by code) = λ r.
      Silent-Sent 1 _ (credit_call link deposit amount) refl
        (handle_rejection-Silent world env deposit code r)
  after_first-Sends (ambiguous cause) =
      bind-Sends _ _ (credit_call link deposit amount) refl verify_by_delta-Silent
        settle_first-Sends

module _ (world : World) (env : Env) (link : Text) (deposit : Deposit) (amount : ℤ) where
  -- The first POST, and at most `n` more behind it.
  first_post :
      (n : ℕ) (b0 : ℤ)
      → ((k : ℕ)
          → Sends n
              (λ c. c ≡ credit_call link deposit amount)
              (after_first world env link deposit amount b0 (world.credit_reply k)))
      → Sends
          (suc n)
          (λ c. c ≡ credit_call link deposit amount)
          (with_baseline world env link deposit amount (answered b0))
  unfolding with_baseline record_baseline
  first_post n b0 later =
      bind-Sends _ _ (credit_call link deposit amount) refl (run_in_transaction-Silent world _)
        λ _ r. post-Sends world _ _ r (later _ _)

  no_baseline :
      (n : ℕ)
      → Sends {A = CreditOutcome} n
          (λ c. c ≡ credit_call link deposit amount)
          (fail credit_retry_later)
  no_baseline n r = Silent-Sent n _ (credit_call link deposit amount) refl refl

  pub with_baseline-Sends :
      (x : IchancyResult ℤ)
      → Sends 2
          (λ c. c ≡ credit_call link deposit amount)
          (with_baseline world env link deposit amount x)
  unfolding with_baseline
  with_baseline-Sends (answered b0) =
      first_post 1 b0 λ k. after_first-Sends world env link deposit amount b0 (world.credit_reply k)
  with_baseline-Sends (rejected_by code) = no_baseline 2
  with_baseline-Sends (ambiguous cause) = no_baseline 2

abbrev pub is_ambiguous : {A : Type 0} → IchancyResult A → Bool
is_ambiguous (ambiguous cause) = true
is_ambiguous _ = false

module _ (world : World) (sure : (k : ℕ) → is_ambiguous (world.credit_reply k) ≡ false) where
  after_first-sure :
      (env : Env) (link : Text) (deposit : Deposit) (amount b0 : ℤ) (x : IchancyResult (Unit {0}))
      → is_ambiguous x ≡ false
      → Silent (after_first world env link deposit amount b0 x)
  unfolding after_first
  after_first-sure env link deposit amount b0 (answered done) h =
      finish_credited-Silent world env deposit amount b0 none api_ok
  after_first-sure env link deposit amount b0 (rejected_by code) h =
      handle_rejection-Silent world env deposit code
  after_first-sure env link deposit amount b0 (ambiguous cause) h = absurd (cc)

  pub with_baseline-sure :
      (env : Env) (link : Text) (deposit : Deposit) (amount : ℤ) (x : IchancyResult ℤ)
      → Sends 1
          (λ c. c ≡ credit_call link deposit amount)
          (with_baseline world env link deposit amount x)
  unfolding with_baseline
  with_baseline-sure env link deposit amount (answered b0) =
      first_post world env link deposit amount 0 b0 λ k r.
        Silent-Sent 0 _ (credit_call link deposit amount) refl
          (after_first-sure env link deposit amount b0 _ (sure k) r)
  with_baseline-sure env link deposit amount (rejected_by code) =
      no_baseline world env link deposit amount 1
  with_baseline-sure env link deposit amount (ambiguous cause) =
      no_baseline world env link deposit amount 1
