-- ===== src/Deposit/Credit/Triples.antt =====
-- What a step of a credit job leaves, from what it found: its result, and how many reads and POSTs the
-- job has made since it began.
use telegram_mini_app.Prelude.{
  ℕ, Option-cases, inl, inr, ◌+◌, length, ◌≡◌, refl, sym, ap, ◌∙◌, arith,
}
use telegram_mini_app.Prelude.Integers.{ℤ}
use telegram_mini_app.Types.{Result, ok, err}
use telegram_mini_app.Db.{Db, Tx}
use telegram_mini_app.Deposit.Credit.Effects.{
  World, Run, Job, CreditCall, IchancyResult, continue_with, committed, ◌>>=◌, run_in_transaction,
  get_player_balance, credit_player, extend_lock, ensure_linked, released,
}
use telegram_mini_app.Deposit.Credit.Yields.{Holds, Yields}

-- So many reads and POSTs after the job began.
abbrev pub At : Run → ℕ → ℕ → Run → Type 0
At start k p r = (r.reads ≡ start.reads + k) × (length r.posts ≡ length start.posts + p)

-- Of what was thrown nothing is claimed.
abbrev pub Leaves : {A : Type 0} → (A → Run → Type 0) → Result A × Run → Type 0
Leaves Q (ok a, s) = Q a s
Leaves Q (err e, s) = Unit

pub Leaves-Holds :
    {A : Type 0} (Q : A → Type 0) (x : Result A × Run) → Leaves (λ a s. Q a) x → Holds Q x.0
Leaves-Holds Q (ok a, s) h = h
Leaves-Holds Q (err e, s) h = tt

pub Leaves-released :
    {A : Type 0} (Q : A → Type 0) (x : Result A × Run)
    → Leaves (λ a s. Q a) x
    → Leaves (λ a s. Q a) (released x)
Leaves-released Q (ok a, s) h = h
Leaves-released Q (err e, s) h = tt

abbrev pub Triple : {A : Type 0} → (Run → Type 0) → Job A → (A → Run → Type 0) → Type 0
Triple P m Q = (r : Run) → P r → Leaves Q (m r)

pub Yields-Triple :
    {A : Type 0} (P : Run → Type 0) (Q : A → Type 0) (m : Job A)
    → Yields Q m
    → Triple P m (λ a s. Q a)
Yields-Triple {A} P Q m h r p = split (m r) (h r)
  where
    split : (x : Result A × Run) → Holds Q x.0 → Leaves (λ a s. Q a) x
    split (ok a, s) k = k
    split (err e, s) k = tt

pub bind-Triple :
    {A B : Type 0} (P : Run → Type 0) (M : A → Run → Type 0) (Q : B → Run → Type 0) (m : Job A)
    (f : A → Job B)
    → Triple P m M
    → ((a : A) (s : Run) → M a s → Leaves Q (f a s))
    → Triple P (m >>= f) Q
unfolding ◌>>=◌
bind-Triple {A} {B} P M Q m f hm hf r p = split (m r) (hm r p)
  where
    split : (x : Result A × Run) → Leaves M x → Leaves Q (continue_with f x)
    split (ok a, s) h = hf a s h
    split (err e, s) h = tt

-- A step that neither reads a balance nor sends a POST.
abbrev pub Quiet : {A : Type 0} → Job A → Type 0
Quiet m = (r : Run) → ((m r).1.reads ≡ r.reads) × ((m r).1.posts ≡ r.posts)

pub then-Triple :
    {A B : Type 0} (start : Run) (k p : ℕ) (m : Job A) (f : A → Job B) (Q : B → Run → Type 0)
    → Quiet m
    → ((a : A) → Triple (At start k p) (f a) Q)
    → Triple (At start k p) (m >>= f) Q
then-Triple {A} start k p m f Q quiet hf =
    bind-Triple (At start k p) (λ a s. At start k p s) Q m f
      (λ r at. split (m r) ((quiet r).0 ∙ at.0, ap (λ ps. length ps) (quiet r).1 ∙ at.1)) hf
  where
    split : (x : Result A × Run) → At start k p x.1 → Leaves (λ a s. At start k p s) x
    split (ok a, s) h = h
    split (err e, s) h = tt

committed-Quiet :
    {A : Type 0} (r : Run) (seen : Db) (x : Result (A × Db))
    → ((committed r seen x).1.reads ≡ r.reads) × ((committed r seen x).1.posts ≡ r.posts)
committed-Quiet r seen (ok (a, db)) = (refl, refl)
committed-Quiet r seen (err e) = (refl, refl)

pub run_in_transaction-Quiet :
    {A : Type 0} (world : World) (t : Tx A) → Quiet (run_in_transaction world t)
unfolding run_in_transaction
run_in_transaction-Quiet world t r =
    let seen = world.others r.steps r.db in committed-Quiet r seen (t seen)

module _ (world : World) where
  pub extend_lock-Quiet : Quiet (extend_lock world)
  unfolding extend_lock
  extend_lock-Quiet r = (refl, refl)

  pub ensure_linked-Quiet : Quiet (ensure_linked world)
  unfolding ensure_linked
  ensure_linked-Quiet r = elim (Option-cases world.link_reply) [
    | inl e ↦ rw e (refl, refl)
    | inr (id, e) ↦ rw e (refl, refl)
  ]

-- The answer to that read, or to that POST, of the job.
abbrev pub Read : World → Run → ℕ → IchancyResult ℤ → Type 0
Read world start k x = world.balance_reply (start.reads + k) ≡ x

abbrev pub Replied : World → Run → ℕ → IchancyResult (Unit {0}) → Type 0
Replied world start p x = world.credit_reply (length start.posts + p) ≡ x

pub answered_balance :
    (world : World) (start : Run) (k p : ℕ)
    → Triple
        (At start k p)
        (get_player_balance world)
        (λ x s. Read world start k x × At start (k + 1) p s)
unfolding get_player_balance
answered_balance world start k p r at =
    (ap world.balance_reply (sym at.0), (omega (arith, at.0), at.1))

pub replied :
    (world : World) (start : Run) (k p : ℕ) (c : CreditCall)
    → Triple
        (At start k p)
        (credit_player world c)
        (λ x s. Replied world start p x × At start k (p + 1) s)
unfolding credit_player
replied world start k p c r at = (ap world.credit_reply (sym at.1), (at.0, omega (arith, at.1)))
