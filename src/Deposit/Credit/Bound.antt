-- ===== src/Deposit/Credit/Bound.antt =====
-- How many POSTs a whole credit job sends, from the guards on the row to the terminal state.
use telegram_mini_app.Prelude.{
  ℕ, ◌≤◌, true, false, [], Option, none, some, or_else, ◌≡◌, refl, ap, arith, Bool-cases, inl, inr,
}
use telegram_mini_app.Prelude.Integers.{ℤ}
use telegram_mini_app.Prelude.Text.{Text, text}
use telegram_mini_app.Db.{Env}
use telegram_mini_app.Db.Rows.{Deposit}
use telegram_mini_app.Deposit.Credit.{
  credit_call, with_baseline, with_link, unless_short, credit_under_lock, credit_unless,
  skip_reason, credit_found, credit, CreditTask,
}
use telegram_mini_app.Deposit.Credit.Effects.{
  World, Run, Job, CreditCall, IchancyResult, under_lock,
}
use telegram_mini_app.Deposit.Credit.Finish.{CreditOutcome, SkipReason}
use telegram_mini_app.Deposit.Credit.Writes.{bump_attempts}
use telegram_mini_app.Deposit.Credit.Posts.{with_baseline-Sends, with_baseline-sure, is_ambiguous}
use telegram_mini_app.Deposit.Credit.Calls.{
  copies, Sends, Silent-Sent, Sent-weaken, bind-Sends, run_in_transaction-Silent,
  get_player_balance-Silent, ensure_linked-Silent, finish_failed-Silent,
}

-- A call for that amount.
abbrev pub IsOf : ℤ → CreditCall → Type 0
IsOf amount c = c.amount_minor ≡ amount

abbrev a_call : ℤ → CreditCall
a_call amount = record { ichancy_player_id = []; amount_minor = amount; comment = [] }

-- Everything before the baseline is silent, so a bound behind it is a bound on the job.
module _ (world : World) (n : ℕ)
    (bound : (env : Env) (link : Text) (deposit : Deposit) (amount : ℤ) (x : IchancyResult ℤ)
      → Sends n
          (λ c. c ≡ credit_call link deposit amount)
          (with_baseline world env link deposit amount x)) where
  with_link-Sends :
      (env : Env) (accepted : Deposit) (amount : ℤ) (link : Text)
      → Sends n (IsOf amount) (with_link world env accepted amount link)
  unfolding with_link bump_attempts
  with_link-Sends env accepted amount link =
      bind-Sends _ _ (a_call amount) refl (run_in_transaction-Silent world _) λ moved.
        bind-Sends _ _ (a_call amount) refl (run_in_transaction-Silent world _) λ _.
          bind-Sends _ _ (a_call amount) refl (get_player_balance-Silent world) λ x r.
            Sent-weaken (omega arith) (λ c e. ap (λ (y : CreditCall). y.amount_minor) e)
              (bound env link (or_else moved accepted) amount x r)

  unless_short-Sends :
      (env : Env) (accepted : Deposit) (amount : ℤ) (short : Option ℤ)
      → Sends n (IsOf amount) (unless_short world env accepted amount short)
  unfolding unless_short
  unless_short-Sends env accepted amount (some s) = λ r.
      Silent-Sent n _ (a_call amount) refl
        (finish_failed-Silent world env accepted (text "AGENT_FLOAT_INSUFFICIENT") true r)
  unless_short-Sends env accepted amount none =
      bind-Sends _ _ (a_call amount) refl (ensure_linked-Silent world)
        (with_link-Sends env accepted amount)

  credit_under_lock-Sends :
      (env : Env) (accepted : Deposit) (amount : ℤ)
      → Sends n (IsOf amount) (credit_under_lock world env accepted amount)
  unfolding credit_under_lock
  credit_under_lock-Sends env accepted amount =
      bind-Sends _ _ (a_call amount) refl (run_in_transaction-Silent world _)
        (unless_short-Sends env accepted amount)

  under_lock-Sends :
      (amount : ℤ) (body : Job CreditOutcome)
      → Sends n (IsOf amount) body
      → Sends n (IsOf amount) (under_lock world body)
  unfolding under_lock
  under_lock-Sends amount body h r = elim (Bool-cases world.acquire_reply) [
    | inl e ↦ rw e (h (record r { held = true }))
    | inr e ↦ rw e (Silent-Sent n _ (a_call amount) refl refl)
  ]

  credit_unless-Sends :
      (env : Env) (task : CreditTask) (d : Deposit) (reason : Option SkipReason)
      → Sends n (IsOf task.amount_minor) (credit_unless world env task d reason)
  unfolding credit_unless
  credit_unless-Sends env task d (some reason) =
      λ r. Silent-Sent n _ (a_call task.amount_minor) refl refl
  credit_unless-Sends env task d none =
      under_lock-Sends task.amount_minor _
        (credit_under_lock-Sends (record env { tenant = some d.tenant_id }) d task.amount_minor)

  credit_found-Sends :
      (env : Env) (task : CreditTask) (found : Option Deposit)
      → Sends n (IsOf task.amount_minor) (credit_found world env task found)
  unfolding credit_found
  credit_found-Sends env task none = λ r. Silent-Sent n _ (a_call task.amount_minor) refl refl
  credit_found-Sends env task (some d) = credit_unless-Sends env task d (skip_reason task d)

  credit-Sends :
      (env : Env) (task : CreditTask) → Sends n (IsOf task.amount_minor) (credit world env task)
  unfolding credit
  credit-Sends env task =
      bind-Sends _ _ (a_call task.amount_minor) refl (run_in_transaction-Silent world _)
        (credit_found-Sends env task)

-- Whatever the cashier, the lock, the other workers and the database do: one run of a credit job sends
-- at most two POSTs, they are the same call, and it is for the amount of the task.
pub at_most_two_posts :
    (world : World) (env : Env) (task : CreditTask) (r : Run)
    → (k : ℕ) × (c : CreditCall) × (k ≤ 2)
      × (c.amount_minor ≡ task.amount_minor)
      × ((credit world env task r).1.posts ≡ copies k c r.posts)
at_most_two_posts world = credit-Sends world 2 (with_baseline-Sends world)

-- If the cashier answers every POST with a yes or a no, the job sends at most one.
pub no_retry_after_answer :
    (world : World)
    → ((k : ℕ) → is_ambiguous (world.credit_reply k) ≡ false)
    → (env : Env) (task : CreditTask) (r : Run)
    → (k : ℕ) × (c : CreditCall) × (k ≤ 1)
      × (c.amount_minor ≡ task.amount_minor)
      × ((credit world env task r).1.posts ≡ copies k c r.posts)
no_retry_after_answer world sure = credit-Sends world 1 (with_baseline-sure world sure)
