-- ===== src/Deposit/Sweep/Frame.antt =====
-- What a sweep may do to a deposit, and the order of such changes
-- (src/modules/deposit/services/deposit-sweep.service.ts).
use telegram_mini_app.Prelude.{
  Bool, true, ◌&&◌, ◌||◌, List, [], ◌∷◌, map_where, All₂, if-cases, ◌≡◌, refl, sym, ◌∙◌, arith, inl,
  inr, subst,
}
use telegram_mini_app.Prelude.Text.{Text}
use telegram_mini_app.Types.{
  DepositStatus, status_eq, draft, awaiting_proof, submitted, under_review, approved, crediting,
  expired, ok,
}
use telegram_mini_app.Db.{Db, Env}
use telegram_mini_app.Db.Rows.{Deposit}
use telegram_mini_app.Deposit.StateMachine.{
  TransitionInput, TransitionOutcome, matches, written, transition,
}
use telegram_mini_app.Deposit.StateMachine.Writes.{transition-cases}
use telegram_mini_app.Outbox.Frame.{SameBooks}

-- The moves of a sweep, on the indexes of the statuses: none, to EXPIRED from DRAFT or AWAITING_PROOF,
-- from UNDER_REVIEW to SUBMITTED, or from CREDITING to APPROVED.
abbrev pub is_sweep_move : DepositStatus → DepositStatus → Bool
is_sweep_move a b =
    status_eq a b
    || ((status_eq a draft || status_eq a awaiting_proof) && status_eq b expired)
    || (status_eq a under_review && status_eq b submitted)
    || (status_eq a crediting && status_eq b approved)

pub record Swept (d e : Deposit) : Type 0 where
  pub id : e.id ≡ d.id
  pub tenant_id : e.tenant_id ≡ d.tenant_id
  pub claimed : e.claimed_amount_minor ≡ d.claimed_amount_minor
  pub verified : e.verified_amount_minor ≡ d.verified_amount_minor
  pub credited : e.credited_amount_minor ≡ d.credited_amount_minor
  pub epoch : e.credit_key_epoch ≡ d.credit_key_epoch
  pub moved : is_sweep_move d.status e.status ≡ true

move_refl : (s : DepositStatus) → is_sweep_move s s ≡ true
move_refl s = ground arith

move_trans :
    (a b c : DepositStatus)
    → is_sweep_move a b ≡ true
    → is_sweep_move b c ≡ true
    → is_sweep_move a c ≡ true
move_trans a b c h k = ground arith

Swept-refl : (d : Deposit) → Swept d d
Swept-refl d = record {
  id = refl;
  tenant_id = refl;
  claimed = refl;
  verified = refl;
  credited = refl;
  epoch = refl;
  moved = move_refl d.status;
}

Swept-trans : (d e f : Deposit) → Swept d e → Swept e f → Swept d f
Swept-trans d e f h k = record {
  id = k.id ∙ h.id;
  tenant_id = k.tenant_id ∙ h.tenant_id;
  claimed = k.claimed ∙ h.claimed;
  verified = k.verified ∙ h.verified;
  credited = k.credited ∙ h.credited;
  epoch = k.epoch ∙ h.epoch;
  moved = move_trans d.status e.status f.status h.moved k.moved;
}

All₂-refl : (ds : List Deposit) → All₂ Swept ds ds
All₂-refl [] = tt
All₂-refl (d ∷ ds) = (Swept-refl d, All₂-refl ds)

All₂-trans : (xs ys zs : List Deposit) → All₂ Swept xs ys → All₂ Swept ys zs → All₂ Swept xs zs
All₂-trans [] [] [] h k = tt
All₂-trans (a ∷ xs) (b ∷ ys) (c ∷ zs) h k = (Swept-trans a b c h.0 k.0, All₂-trans xs ys zs h.1 k.1)
All₂-trans [] [] (c ∷ zs) h k = absurd k
All₂-trans [] (b ∷ ys) zs h k = absurd h
All₂-trans (a ∷ xs) [] zs h k = absurd h
All₂-trans (a ∷ xs) (b ∷ ys) [] h k = absurd k

-- Deposits are swept row by row, and the books stay xs they are.
pub record IsSweep (db db' : Db) : Type 0 where
  pub rows : All₂ Swept db.deposits db'.deposits
  pub entries : db'.entries ≡ db.entries
  pub transactions : db'.transactions ≡ db.transactions
  pub accounts : db'.accounts ≡ db.accounts

pub IsSweep-refl : (db : Db) → IsSweep db db
IsSweep-refl db = record {
  rows = All₂-refl db.deposits;
  entries = refl;
  transactions = refl;
  accounts = refl;
}

pub IsSweep-trans : (a b c : Db) → IsSweep a b → IsSweep b c → IsSweep a c
IsSweep-trans a b c h k = record {
  rows = All₂-trans a.deposits b.deposits c.deposits h.rows k.rows;
  entries = k.entries ∙ h.entries;
  transactions = k.transactions ∙ h.transactions;
  accounts = k.accounts ∙ h.accounts;
}

pub SameBooks-IsSweep : (a b : Db) → SameBooks a b → IsSweep a b
SameBooks-IsSweep a b h = record {
  rows = subst (All₂ Swept a.deposits) (sym h.deposits) (All₂-refl a.deposits);
  entries = h.entries;
  transactions = h.transactions;
  accounts = h.accounts;
}

All₂-map_where :
    (p : Deposit → Bool) (f : Deposit → Deposit)
    → ((d : Deposit) → p d ≡ true → Swept d (f d))
    → (ds : List Deposit) → All₂ Swept ds (map_where p f ds)
All₂-map_where p f k [] = tt
All₂-map_where p f k (d ∷ ds) =
    (if-cases (Swept d) (p d) (λ e. k d e) (λ e. Swept-refl d), All₂-map_where p f k ds)

-- A transition whose write sweeps each row that it matches is a sweep.
pub transition-IsSweep :
    (env : Env) (input : TransitionInput) (db : Db) {o : TransitionOutcome} {db' : Db}
    → ((tenant : Text) (d : Deposit)
        → matches tenant input d ≡ true
        → Swept d (written env input d))
    → transition env input db ≡ ok (o, db')
    → IsSweep db db'
transition-IsSweep env input db {o} {db'} k h = elim (transition-cases env input db h) [
  | inl m ↦ subst (IsSweep db) (sym m.same) (IsSweep-refl db)
  | inr s ↦ subst (IsSweep db) (sym s.after) (record {
    rows = All₂-map_where (matches s.tenant input) (written env input) (k s.tenant) db.deposits;
    entries = refl;
    transactions = refl;
    accounts = refl;
  })
]
