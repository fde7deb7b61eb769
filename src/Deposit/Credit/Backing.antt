-- ===== src/Deposit/Credit/Backing.antt =====
-- The answer of a whole credit job is backed by what the cashier said.
use telegram_mini_app.Prelude.{
  ℕ, ◌+◌, ◌≤◌, Bool, true, false, Option, none, some, or_else, length, ◌≡◌, refl, subst, arith, inl,
  inr, Bool-cases, if-cases,
}
use telegram_mini_app.Prelude.Integers.{ℤ}
use telegram_mini_app.Prelude.Text.{Text, text}
use telegram_mini_app.Types.{Result, ok, api_ok, balance_delta}
use telegram_mini_app.Db.{Env}
use telegram_mini_app.Db.Rows.{Deposit}
use telegram_mini_app.Deposit.Credit.{
  Verdict, verify_by_delta, measured, check_lock, settle_second, after_second, retry_once,
  settle_first, after_first, with_baseline, with_link, unless_short, credit_under_lock,
  credit_unless, skip_reason, credit_found, credit, CreditTask,
}
use telegram_mini_app.Deposit.Credit.Effects.{
  World, Run, Job, IchancyResult, answered, rejected_by, ambiguous, under_lock,
}
use telegram_mini_app.Deposit.Credit.Finish.{
  reported, CreditOutcome, SkipReason, finish_credited, finish_failed, handle_rejection,
}
use telegram_mini_app.Deposit.Credit.Evidence.{
  IsMeasured, IsBacked, confirmed, delta_landed, rejection-IsBacked,
}
use telegram_mini_app.Deposit.Credit.Yields.{
  Holds, Yields, finish_failed-Yields, finish_needs_reconciliation-Yields,
}
use telegram_mini_app.Deposit.Credit.Writes.{record_baseline, record_after_balance, bump_attempts}
use telegram_mini_app.Deposit.Credit.Triples.{
  At, Triple, Leaves-Holds, Leaves-released, Yields-Triple, bind-Triple, then-Triple,
  run_in_transaction-Quiet, ensure_linked-Quiet, extend_lock-Quiet, Quiet, answered_balance,
  replied, Read, Replied,
}

check_lock-Quiet : (b : Bool) → Quiet (check_lock b)
unfolding check_lock
check_lock-Quiet true r = (refl, refl)
check_lock-Quiet false r = (refl, refl)

module _ (world : World) (start : Run) (env : Env) (amount : ℤ) where
  abbrev Landed : Verdict → Type 0
  Landed v = v.landed ≡ true → IsMeasured world start amount

  abbrev Backed : CreditOutcome → Run → Type 0
  Backed o r = IsBacked world start amount o

  backed :
      (P : Run → Type 0) (m : Job CreditOutcome)
      → Yields (IsBacked world start amount) m
      → Triple P m Backed
  backed P m h = Yields-Triple P (IsBacked world start amount) m h

  module _ (deposit : Deposit) (b0 : ℤ) (base : Read world start 0 (answered b0)) where
    measured-Landed :
        (k p : ℕ) (x : IchancyResult ℤ)
        → 1 ≤ k
        → k ≤ 2
        → Read world start k x
        → Triple
            (At start (k + 1) p)
            (measured world env deposit b0 amount x)
            (λ v s. Landed v × At start (k + 1) p s)
    unfolding measured record_after_balance
    measured-Landed k p (answered b1) l h e =
        then-Triple start (k + 1) p _ _ (λ v s. Landed v × At start (k + 1) p s)
          (run_in_transaction-Quiet world _)
          λ _ s at. (
            (λ covered. (
              start.reads + k,
              b0,
              b1,
              omega (arith, l),
              omega (arith, h),
              subst (λ n. world.balance_reply n ≡ answered b0) (omega arith) base,
              e,
              covered,
            )),
            at,
          )
    measured-Landed k p (rejected_by code) l h e = λ s at. ((λ c. absurd (cc)), at)
    measured-Landed k p (ambiguous cause) l h e = λ s at. ((λ c. absurd (cc)), at)

    verify_by_delta-Landed :
        (k p : ℕ)
        → 1 ≤ k
        → k ≤ 2
        → Triple
            (At start k p)
            (verify_by_delta world env deposit b0 amount)
            (λ v s. Landed v × At start (k + 1) p s)
    unfolding verify_by_delta
    verify_by_delta-Landed k p l h = then-Triple start k p _ _ _ (extend_lock-Quiet world) λ b.
        then-Triple start k p _ _ _ (check_lock-Quiet b) λ _.
          bind-Triple (At start k p) (λ x s. Read world start k x × At start (k + 1) p s)
            (λ v s. Landed v × At start (k + 1) p s) _ _ (answered_balance world start k p)
            λ x s e. measured-Landed k p x l h e.0 s e.1

    settle_second-IsBacked :
        (cause : Text)
        → Replied world start 1 (ambiguous cause)
        → (v : Verdict) → Landed v
        → Yields (IsBacked world start amount) (settle_second world env deposit amount b0 cause v)
    unfolding settle_second
    settle_second-IsBacked cause e v h r = elim (Bool-cases v.landed) [
      | inl l ↦ rw l (delta_landed world start env deposit amount b0 v.balance_minor (h l) r)
      | inr l ↦ rw l (
          finish_needs_reconciliation-Yields world env deposit (IsBacked world start amount)
            (reported cause) amount b0 v.balance_minor
            (length start.posts + 1, omega arith, omega arith, e) r)
    ]

    after_second-IsBacked :
        (x : IchancyResult (Unit {0}))
        → Replied world start 1 x
        → Triple (At start 2 2) (after_second world env deposit amount b0 x) Backed
    unfolding after_second
    after_second-IsBacked (answered done) e =
        backed (At start 2 2) (finish_credited world env deposit amount api_ok b0 none) (
          confirmed world start env deposit amount b0 none
            (length start.posts + 1, omega arith, omega arith, e))
    after_second-IsBacked (rejected_by code) e =
        backed (At start 2 2) (handle_rejection world env deposit code)
          (rejection-IsBacked world start env deposit amount code)
    after_second-IsBacked (ambiguous cause) e =
        bind-Triple (At start 2 2) (λ v s. Landed v × At start 3 2 s) Backed _ _
          (verify_by_delta-Landed 2 2 (omega arith) (omega arith))
          λ v s h.
            backed (At start 3 2) (settle_second world env deposit amount b0 cause v)
              (settle_second-IsBacked cause e v h.0) s h.1

    module _ (link : Text) where
      retry_once-IsBacked :
          Triple (At start 2 1) (retry_once world env link deposit amount b0) Backed
      unfolding retry_once bump_attempts
      retry_once-IsBacked = then-Triple start 2 1 _ _ _ (run_in_transaction-Quiet world _) λ _.
          bind-Triple (At start 2 1) (λ x s. Replied world start 1 x × At start 2 2 s) Backed _ _
            (replied world start 2 1 _) λ x s e. after_second-IsBacked x e.0 s e.1

      settle_first-IsBacked :
          (v : Verdict)
          → Landed v
          → Triple (At start 2 1) (settle_first world env link deposit amount b0 v) Backed
      unfolding settle_first
      settle_first-IsBacked v h =
          if-cases (λ m. Triple (At start 2 1) m Backed) v.landed
            (λ l.
              backed (At start 2 1)
                (finish_credited world env deposit amount balance_delta b0 v.balance_minor)
                (delta_landed world start env deposit amount b0 v.balance_minor (h l)))
            (λ l. retry_once-IsBacked)

      after_first-IsBacked :
          (x : IchancyResult (Unit {0}))
          → Replied world start 0 x
          → Triple (At start 1 1) (after_first world env link deposit amount b0 x) Backed
      unfolding after_first
      after_first-IsBacked (answered done) e =
          backed (At start 1 1) (finish_credited world env deposit amount api_ok b0 none) (
            confirmed world start env deposit amount b0 none
              (length start.posts + 0, omega arith, omega arith, e))
      after_first-IsBacked (rejected_by code) e =
          backed (At start 1 1) (handle_rejection world env deposit code)
            (rejection-IsBacked world start env deposit amount code)
      after_first-IsBacked (ambiguous cause) e =
          bind-Triple (At start 1 1) (λ v s. Landed v × At start 2 1 s) Backed _ _
            (verify_by_delta-Landed 1 1 (omega arith) (omega arith))
            λ v s h. settle_first-IsBacked v h.0 s h.1

  with_baseline-IsBacked :
      (link : Text) (deposit : Deposit) (x : IchancyResult ℤ)
      → Read world start 0 x
      → Triple (At start 1 0) (with_baseline world env link deposit amount x) Backed
  unfolding with_baseline record_baseline
  with_baseline-IsBacked link deposit (answered b0) base =
      then-Triple start 1 0 _ _ _ (run_in_transaction-Quiet world _) λ _.
        bind-Triple (At start 1 0) (λ x s. Replied world start 0 x × At start 1 1 s) Backed _ _
          (replied world start 1 0 _) λ x s e. after_first-IsBacked deposit b0 base link x e.0 s e.1
  with_baseline-IsBacked link deposit (rejected_by code) base = λ s at. tt
  with_baseline-IsBacked link deposit (ambiguous cause) base = λ s at. tt

  with_link-IsBacked :
      (accepted : Deposit) (link : Text)
      → Triple (At start 0 0) (with_link world env accepted amount link) Backed
  unfolding with_link bump_attempts
  with_link-IsBacked accepted link =
      then-Triple start 0 0 _ _ _ (run_in_transaction-Quiet world _) λ moved.
        then-Triple start 0 0 _ _ _ (run_in_transaction-Quiet world _) λ _.
          bind-Triple (At start 0 0) (λ x s. Read world start 0 x × At start 1 0 s) Backed _ _
            (answered_balance world start 0 0)
            λ x s e. with_baseline-IsBacked link (or_else moved accepted) x e.0 s e.1

  unless_short-IsBacked :
      (accepted : Deposit) (short : Option ℤ)
      → Triple (At start 0 0) (unless_short world env accepted amount short) Backed
  unfolding unless_short
  unless_short-IsBacked accepted (some s) =
      backed (At start 0 0)
        (finish_failed world env accepted (text "AGENT_FLOAT_INSUFFICIENT") true)
        (finish_failed-Yields world env accepted (IsBacked world start amount) _ _)
  unless_short-IsBacked accepted none =
      then-Triple start 0 0 _ _ _ (ensure_linked-Quiet world) (with_link-IsBacked accepted)

  under_lock-IsBacked :
      (body : Job CreditOutcome)
      → Triple (At start 0 0) body Backed
      → Triple (At start 0 0) (under_lock world body) Backed
  unfolding under_lock
  under_lock-IsBacked body h r at = elim (Bool-cases world.acquire_reply) [
    | inl e ↦
        rw e (Leaves-released (IsBacked world start amount) _ (h (record r { held = true }) at))
    | inr e ↦ rw e tt
  ]

  credit_under_lock-IsBacked :
      (accepted : Deposit)
      → Triple (At start 0 0) (credit_under_lock world env accepted amount) Backed
  unfolding credit_under_lock
  credit_under_lock-IsBacked accepted =
      then-Triple start 0 0 _ _ _ (run_in_transaction-Quiet world _)
        (unless_short-IsBacked accepted)

module _ (world : World) (start : Run) (env : Env) (task : CreditTask) where
  credit_unless-IsBacked :
      (d : Deposit) (reason : Option SkipReason)
      → Triple
          (At start 0 0)
          (credit_unless world env task d reason)
          (λ o s. IsBacked world start task.amount_minor o)
  unfolding credit_unless
  credit_unless-IsBacked d (some reason) = λ s at. tt
  credit_unless-IsBacked d none = under_lock-IsBacked world start env task.amount_minor _ (
      credit_under_lock-IsBacked world start (record env { tenant = some d.tenant_id })
        task.amount_minor d)

  credit_found-IsBacked :
      (found : Option Deposit)
      → Triple
          (At start 0 0)
          (credit_found world env task found)
          (λ o s. IsBacked world start task.amount_minor o)
  unfolding credit_found
  credit_found-IsBacked none = λ s at. tt
  credit_found-IsBacked (some d) = credit_unless-IsBacked d (skip_reason task d)

credit-Triple :
    (world : World) (env : Env) (task : CreditTask) (start : Run)
    → Triple
        (At start 0 0)
        (credit world env task)
        (λ o s. IsBacked world start task.amount_minor o)
unfolding credit
credit-Triple world env task start =
    then-Triple start 0 0 _ _ _ (run_in_transaction-Quiet world _)
      (credit_found-IsBacked world start env task)

returned_Holds : {A : Type 0} (Q : A → Type 0) {x : Result A} {a : A} → x ≡ ok a → Holds Q x → Q a
returned_Holds Q {x} e h = rw e at h

-- Whatever happens around it, what a credit job returns is backed: `credited` by a yes of the cashier to
-- one of its two POSTs, or by a rise of the balance from its first read to its second or third that
-- covers the amount; `needs_reconciliation` by an ambiguous answer to one of them, or by a credit that is
-- confirmed in one of those two ways and that the ledger refused to post; and it never returns `failed`.
pub credit-IsBacked :
    (world : World) (env : Env) (task : CreditTask) (r : Run) {o : CreditOutcome}
    → (credit world env task r).0 ≡ ok o
    → IsBacked world r task.amount_minor o
credit-IsBacked world env task r {o} e = returned_Holds (IsBacked world r task.amount_minor) e (
    Leaves-Holds (IsBacked world r task.amount_minor) (credit world env task r)
      (credit-Triple world env task r r (omega arith, omega arith)))
