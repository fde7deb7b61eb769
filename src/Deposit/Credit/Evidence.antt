-- ===== src/Deposit/Credit/Evidence.antt =====
-- What stands behind the answer of a credit job.
use telegram_mini_app.Prelude.{ℕ, ◌+◌, ◌<◌, ◌≤◌, true, Option, length, ◌≡◌, ◌⊎◌, inl, inr}
use telegram_mini_app.Prelude.Integers.{ℤ, ◌-ℤ◌, leb_ℤ}
use telegram_mini_app.Prelude.Text.{Text}
use telegram_mini_app.Types.{api_ok, balance_delta, manual, Result, ok, err}
use telegram_mini_app.Db.{Env}
use telegram_mini_app.Db.Rows.{Deposit}
use telegram_mini_app.Deposit.Credit.Effects.{World, Run, answered, ambiguous}
use telegram_mini_app.Deposit.Credit.Finish.{
  ledger_refused, reported, CreditOutcome, credited_with, failed_with, unresolved, skipped,
  finish_credited, handle_rejection,
}
use telegram_mini_app.Deposit.Credit.Yields.{
  Holds, Yields, After, finish_credited-After, finish_failed-Yields,
}

-- The cashier answered one of the job's two POSTs with a yes: those that follow what was sent before.
abbrev pub IsConfirmed : World → Run → Type 0
IsConfirmed world start =
    (n : ℕ) × (length start.posts ≤ n)
    × (n ≤ length start.posts + 1)
    × (world.credit_reply n ≡ answered tt)

-- The first read of the job found one balance, and its second or third, which came later, another one
-- that is higher by the amount or more.
abbrev pub IsMeasured : World → Run → ℤ → Type 0
IsMeasured world start amount =
    (j : ℕ) × (b0 : ℤ) × (b1 : ℤ) × (start.reads < j)
    × (j ≤ start.reads + 2)
    × (world.balance_reply start.reads ≡ answered b0)
    × (world.balance_reply j ≡ answered b1)
    × (leb_ℤ amount (b1 -ℤ b0) ≡ true)

-- What an outcome says about the world. A job never returns `failed`.
abbrev pub IsBacked : World → Run → ℤ → CreditOutcome → Type 0
IsBacked world start amount (credited_with api_ok tx) = IsConfirmed world start
IsBacked world start amount (credited_with balance_delta tx) = IsMeasured world start amount
IsBacked world start amount (credited_with manual tx) = ⊥
IsBacked world start amount (failed_with code) = ⊥
IsBacked world start amount (unresolved (ledger_refused c)) =
    IsConfirmed world start ⊎ IsMeasured world start amount
IsBacked world start amount (unresolved (reported cause)) =
    (n : ℕ) × (length start.posts ≤ n)
    × (n ≤ length start.posts + 1)
    × (world.credit_reply n ≡ ambiguous cause)
IsBacked world start amount (skipped reason) = Unit

module _ (world : World) (start : Run) (env : Env) (deposit : Deposit) (amount : ℤ) where
  confirmed_backs :
      IsConfirmed world start → (o : CreditOutcome) → After api_ok o → IsBacked world start amount o
  confirmed_backs e (credited_with api_ok tx) h = e
  confirmed_backs e (credited_with balance_delta tx) h = absurd (cc)
  confirmed_backs e (credited_with manual tx) h = absurd (cc)
  confirmed_backs e (failed_with code) h = h
  confirmed_backs e (unresolved (ledger_refused c)) h = inl e
  confirmed_backs e (unresolved (reported cause)) h = absurd h
  confirmed_backs e (skipped reason) h = tt

  landed_backs :
      IsMeasured world start amount
      → (o : CreditOutcome) → After balance_delta o
      → IsBacked world start amount o
  landed_backs e (credited_with api_ok tx) h = absurd (cc)
  landed_backs e (credited_with balance_delta tx) h = e
  landed_backs e (credited_with manual tx) h = absurd (cc)
  landed_backs e (failed_with code) h = h
  landed_backs e (unresolved (ledger_refused c)) h = inr e
  landed_backs e (unresolved (reported cause)) h = absurd h
  landed_backs e (skipped reason) h = tt

  Holds-map :
      (P Q : CreditOutcome → Type 0) (x : Result CreditOutcome)
      → ((o : CreditOutcome) → P o → Q o)
      → Holds P x
      → Holds Q x
  Holds-map P Q (ok o) f h = f o h
  Holds-map P Q (err e) f h = tt

  pub confirmed :
      (b0 : ℤ) (b1 : Option ℤ)
      → IsConfirmed world start
      → Yields (IsBacked world start amount) (finish_credited world env deposit amount api_ok b0 b1)
  confirmed b0 b1 e r =
      Holds-map _ _ _ (confirmed_backs e)
        (finish_credited-After world env deposit amount api_ok b0 b1 r)

  pub delta_landed :
      (b0 : ℤ) (b1 : Option ℤ)
      → IsMeasured world start amount
      → Yields
          (IsBacked world start amount)
          (finish_credited world env deposit amount balance_delta b0 b1)
  delta_landed b0 b1 e r =
      Holds-map _ _ _ (landed_backs e)
        (finish_credited-After world env deposit amount balance_delta b0 b1 r)

  pub rejection-IsBacked :
      (code : Text) → Yields (IsBacked world start amount) (handle_rejection world env deposit code)
  unfolding handle_rejection
  rejection-IsBacked code = finish_failed-Yields world env deposit _ _ _
