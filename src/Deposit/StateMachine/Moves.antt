-- ===== src/Deposit/StateMachine/Moves.antt =====
-- A transition moves the named deposit along an edge of the table, and nothing else.
use telegram_mini_app.Prelude.{
  true, List, [], ◌∷◌, some, all, map_where, All₂, if◌then◌else◌, ◌≡◌, refl, sym, ap, ◌∙◌, ◌⊎◌, inl,
  inr, arith, Bool-cases,
}
use telegram_mini_app.Prelude.Text.{Text, text_eq_iff}
use telegram_mini_app.Types.{status_in, all-status_in, ok}
use telegram_mini_app.Db.{Db, Env}
use telegram_mini_app.Db.Rows.{Deposit}
use telegram_mini_app.Deposit.StateMachine.{
  is_legal, TransitionInput, TransitionOutcome, matches, written, transition,
}
use telegram_mini_app.Deposit.StateMachine.Writes.{
  KeepsClaim, apply_patch-KeepsClaim, transition-legal, transition-cases,
}

-- A row that the compare-and-swap rewrote: it is the deposit that was named, in the operator in
-- context, its status was a declared one, and the edge is in the table.
pub record Moved (env : Env) (input : TransitionInput) (d e : Deposit) : Type 0 where
  pub named : d.id ≡ input.deposit_request_id
  pub owned : env.tenant ≡ some d.tenant_id
  pub was_declared : status_in d.status input.from ≡ true
  pub legal : is_legal d.status e.status ≡ true
  pub arrived : e.status ≡ input.to
  pub claim : KeepsClaim d e
  pub stamped : e.updated_at ≡ env.now

pub written-KeepsClaim :
    (env : Env) (input : TransitionInput) (d : Deposit)
    → KeepsClaim d (written env input d) × ((written env input d).status ≡ input.to)
written-KeepsClaim env input d =
    ground (arith, apply_patch-KeepsClaim input.patch (record d { status = input.to }))

written-Moved :
    (env : Env) (input : TransitionInput) (tenant : Text) (d : Deposit)
    → env.tenant ≡ some tenant
    → all (λ f. is_legal f input.to) input.from ≡ true
    → matches tenant input d ≡ true
    → Moved env input d (written env input d)
written-Moved env input tenant d e legal h =
    let declared : status_in d.status input.from ≡ true = ground arith in
    let id : d.id ≡ input.deposit_request_id = (text_eq_iff _ _).0 (ground arith) in
    let owner : d.tenant_id ≡ tenant = (text_eq_iff _ _).0 (ground arith) in
    let (claim, arrived) = written-KeepsClaim env input d in
    record {
      named = id;
      owned = e ∙ ap some (sym owner);
      was_declared = declared;
      legal =
          rw arrived (all-status_in (λ f. is_legal f input.to) d.status input.from legal declared);
      arrived = arrived;
      claim = claim;
      stamped = refl;
    }

rows_Moved :
    (env : Env) (input : TransitionInput) (tenant : Text) (ds : List Deposit)
    → env.tenant ≡ some tenant
    → all (λ f. is_legal f input.to) input.from ≡ true
    → All₂
        (λ d e. (e ≡ d) ⊎ Moved env input d e)
        ds
        (map_where (matches tenant input) (written env input) ds)
rows_Moved env input tenant [] e legal = tt
rows_Moved env input tenant (d ∷ ds) e legal = elim (Bool-cases (matches tenant input d)) [
  | inl hit ↦ (
    rw (hit, if◌then◌else◌) (inr (written-Moved env input tenant d e legal hit)),
    rows_Moved env input tenant ds e legal,
  )
  | inr miss ↦ (rw (miss, if◌then◌else◌) (inl refl), rows_Moved env input tenant ds e legal)
]

All₂-refl :
    (R : Deposit → Deposit → Type 0) (ds : List Deposit) → ((d : Deposit) → R d d) → All₂ R ds ds
All₂-refl R [] r = tt
All₂-refl R (d ∷ ds) r = (r d, All₂-refl R ds r)

-- A transition that returns leaves every deposit as it was, or moves it: only the named deposit of
-- the operator in context, along an edge of the table from a declared status to the requested one,
-- with the claim (ids, currency, rail, claimed amount) as it was. Rows are neither added nor lost.
pub transition-Moved :
    (env : Env) (input : TransitionInput) (db : Db) {o : TransitionOutcome} {db' : Db}
    → transition env input db ≡ ok (o, db')
    → All₂ (λ d e. (e ≡ d) ⊎ Moved env input d e) db.deposits db'.deposits
transition-Moved env input db h = elim (transition-cases env input db h) [
  | inl m ↦ rw (m.same) (All₂-refl _ db.deposits (λ d. inl refl))
  | inr s ↦
      rw (s.after)
        (rows_Moved env input s.tenant db.deposits s.in_context (transition-legal env input db h))
]
