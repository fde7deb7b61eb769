-- ===== src/Deposit/StateMachine/Writes.antt =====
-- What one transition does to the rows.
use telegram_mini_app.Prelude.{
  true, false, ◌≢◌, List, [], ◌∷◌, Option, none, some, find, keep, length, all, map_where,
  map_where-none, or_else, ◌==◌, if◌then◌else◌, ◌≡◌, refl, sym, ap, ◌∙◌, ◌⊎◌, inl, inr, arith,
  Bool-cases, Option-cases,
}
use telegram_mini_app.Prelude.Text.{Text}
use telegram_mini_app.Types.{DepositStatus, status_in, illegal_transition, ok, err}
use telegram_mini_app.Db.{Tx, ◌>>=◌, Db, Env, is_deposit, require_effective_tenant_id}
use telegram_mini_app.Db.Rows.{Deposit}
use telegram_mini_app.Deposit.StateMachine.{
  is_legal, AlreadyHandledReason, not_found_reason, status_mismatch, guard_failed, TransitionInput,
  TransitionOutcome, transitioned, already_handled, assert_all_legal, matches, single_from, written,
  update_many, explain_miss, record_move, history_row, transition,
}
use telegram_mini_app.Deposit.StateMachine.Patch.{PatchField, apply_field, apply_patch}

-- The columns that say what was claimed, by whom and against which rail.
pub record KeepsClaim (d e : Deposit) : Type 0 where
  pub id : e.id ≡ d.id
  pub tenant_id : e.tenant_id ≡ d.tenant_id
  pub short_id : e.short_id ≡ d.short_id
  pub player_id : e.player_id ≡ d.player_id
  pub payment_method_id : e.payment_method_id ≡ d.payment_method_id
  pub currency_code : e.currency_code ≡ d.currency_code
  pub claimed_amount_minor : e.claimed_amount_minor ≡ d.claimed_amount_minor

apply_field-KeepsClaim :
    (f : PatchField) (d : Deposit)
    → KeepsClaim d (apply_field f d) × ((apply_field f d).status ≡ d.status)
unfolding apply_field
apply_field-KeepsClaim (PatchField.verified_amount_minor v) d = ground arith
apply_field-KeepsClaim _ d = ground arith

pub apply_patch-KeepsClaim :
    (fs : List PatchField) (d : Deposit)
    → KeepsClaim d (apply_patch fs d) × ((apply_patch fs d).status ≡ d.status)
unfolding apply_patch
apply_patch-KeepsClaim [] d = ground arith
apply_patch-KeepsClaim (f ∷ fs) d =
    unfold apply_patch in
    ground (arith, apply_field-KeepsClaim f d, apply_patch-KeepsClaim fs (apply_field f d))

pub assert_all_legal_lem :
    (from : List DepositStatus) (to : DepositStatus) (db : Db)
    → all (λ f. is_legal f to) from ≡ true
    → assert_all_legal from to db ≡ ok (tt, db)
unfolding assert_all_legal
assert_all_legal_lem [] to db h = refl
assert_all_legal_lem (f ∷ from) to db h = ground (arith, assert_all_legal_lem from to db)

-- An edge that is not in the table stops the call.
pub assert_all_legal_err :
    (from : List DepositStatus) (to : DepositStatus) (db : Db)
    → all (λ f. is_legal f to) from ≡ false
    → (f : DepositStatus) × (assert_all_legal from to db ≡ err (illegal_transition f to))
      × (is_legal f to ≡ false)
unfolding assert_all_legal
assert_all_legal_err [] to db h = absurd (cc)
assert_all_legal_err (f ∷ from) to db h = elim (Bool-cases (is_legal f to)) [
  | inl legal ↦
      let (g, e, n) = assert_all_legal_err from to db (rw legal at h) in
      (g, rw (legal, if◌then◌else◌) e, n)
  | inr illegal ↦ (f, rw illegal, illegal)
]

-- A transition that returned: it named an operator, every declared edge was legal, and either no row
-- matched and nothing was written, or the matching rows were written and one history row was added.
pub record Missed (env : Env) (input : TransitionInput) (o : TransitionOutcome) (db db' : Db)
    : Type 0 where
  pub tenant : Text
  pub in_context : env.tenant ≡ some tenant
  pub no_match : keep (matches tenant input) db.deposits ≡ []
  pub explained : explain_miss tenant input db ≡ ok (o, db)
  pub same : db' ≡ db

pub record Swapped (env : Env) (input : TransitionInput) (o : TransitionOutcome) (db db' : Db)
    : Type 0 where
  pub tenant : Text
  pub in_context : env.tenant ≡ some tenant
  pub row : Deposit
  pub found :
      find
        (is_deposit tenant input.deposit_request_id)
        (map_where (matches tenant input) (written env input) db.deposits)
      ≡ some row
  pub some_match : keep (matches tenant input) db.deposits ≢ []
  pub reported : (from : DepositStatus) × (o ≡ transitioned row from)
  pub after : db' ≡ record db {
    deposits = map_where (matches tenant input) (written env input) db.deposits;
    transitions = history_row input row ∷ db.transitions;
  }

explain_miss-same :
    (tenant : Text) (input : TransitionInput) (db : Db) {o : TransitionOutcome} {db' : Db}
    → explain_miss tenant input db ≡ ok (o, db')
    → (explain_miss tenant input db ≡ ok (o, db)) × (db' ≡ db)
unfolding explain_miss
explain_miss-same tenant input db h = ground arith

pub transition-legal :
    (env : Env) (input : TransitionInput) (db : Db) {r : TransitionOutcome × Db}
    → transition env input db ≡ ok r
    → all (λ f. is_legal f input.to) input.from ≡ true
unfolding transition
transition-legal env input db h = elim (Bool-cases (all (λ f. is_legal f input.to) input.from)) [
  | inl legal ↦ legal
  | inr illegal ↦
      let (f, e, n) = assert_all_legal_err input.from input.to db illegal in absurd (cc e)
]

length-zero : {A : Type 0} (xs : List A) → (length xs == 0) ≡ true → xs ≡ []
length-zero [] h = refl
length-zero (x ∷ xs) h = absurd (ground arith)

-- What is left of a call once its edges are legal and an operator is in context.
swap_or_explain : (env : Env) (input : TransitionInput) (tenant : Text) → Tx TransitionOutcome
swap_or_explain env input tenant db =
    (if length (keep (matches tenant input) db.deposits) == 0
        then explain_miss tenant input
        else record_move tenant input)
      (record db { deposits = map_where (matches tenant input) (written env input) db.deposits })

transition-eq :
    (env : Env) (input : TransitionInput) (db : Db) (tenant : Text)
    → env.tenant ≡ some tenant
    → all (λ f. is_legal f input.to) input.from ≡ true
    → transition env input db ≡ swap_or_explain env input tenant db
unfolding transition require_effective_tenant_id update_many swap_or_explain
transition-eq env input db tenant e legal =
    rw (assert_all_legal_lem input.from input.to db legal, ◌>>=◌) (rw (e, ◌>>=◌))

no_context :
    (env : Env) (input : TransitionInput) (db : Db) {r : TransitionOutcome × Db}
    → env.tenant ≡ none
    → transition env input db ≢ ok r
unfolding transition require_effective_tenant_id
no_context env input db e h =
    ground (arith, assert_all_legal_lem input.from input.to db (transition-legal env input db h))

missed :
    (env : Env) (input : TransitionInput) (db : Db) {o : TransitionOutcome} {db' : Db}
    (tenant : Text)
    → env.tenant ≡ some tenant
    → keep (matches tenant input) db.deposits ≡ []
    → swap_or_explain env input tenant db ≡ ok (o, db')
    → Missed env input o db db'
unfolding swap_or_explain
missed env input db tenant e nothing h =
    let h' =
      rw (nothing, map_where-none (matches tenant input) (written env input) db.deposits nothing) at
        h in
    let (same, explained) = explain_miss-same tenant input db h' in
    record {
      tenant = tenant;
      in_context = e;
      no_match = nothing;
      explained = same;
      same = explained;
    }

swapped :
    (env : Env) (input : TransitionInput) (db : Db) {o : TransitionOutcome} {db' : Db}
    (tenant : Text)
    → env.tenant ≡ some tenant
    → (length (keep (matches tenant input) db.deposits) == 0) ≡ false
    → swap_or_explain env input tenant db ≡ ok (o, db')
    → Swapped env input o db db'
unfolding swap_or_explain record_move
swapped env input db tenant e rows h =
    elim (Option-cases (
      find (is_deposit tenant input.deposit_request_id)
        (map_where (matches tenant input) (written env input) db.deposits))) [
          | inl gone ↦ absurd (ground arith)
          | inr (row, found) ↦ record {
            tenant = tenant;
            in_context = e;
            row = row;
            found = found;
            some_match = λ nothing. ground (arith, ap length nothing);
            reported = (or_else (single_from input.from) row.status, ground arith);
            after = ground arith;
          }
        ]

pub transition-cases :
    (env : Env) (input : TransitionInput) (db : Db) {o : TransitionOutcome} {db' : Db}
    → transition env input db ≡ ok (o, db')
    → Missed env input o db db' ⊎ Swapped env input o db db'
transition-cases env input db {o} {db'} h = elim (Option-cases env.tenant) [
  | inl e ↦ absurd (no_context env input db e h)
  | inr (tenant, e) ↦
      let legal = transition-legal env input db h in
      let run = sym (transition-eq env input db tenant e legal) ∙ h in
      elim (Bool-cases (length (keep (matches tenant input) db.deposits) == 0)) [
        | inl none_match ↦ inl (missed env input db tenant e (length-zero _ none_match) run)
        | inr rows ↦ inr (swapped env input db tenant e rows run)
      ]
]

-- Where no row matches, the call explains why and writes nothing.
pub transition-miss :
    (env : Env) (input : TransitionInput) (db : Db) (tenant : Text)
    → env.tenant ≡ some tenant
    → all (λ f. is_legal f input.to) input.from ≡ true
    → keep (matches tenant input) db.deposits ≡ []
    → (current : Option DepositStatus) × (reason : AlreadyHandledReason) × (transition env input db
        ≡ ok (already_handled current reason, db))
unfolding swap_or_explain explain_miss
transition-miss env input db tenant e legal nothing =
    let run = transition-eq env input db tenant e legal in
    let still = map_where-none (matches tenant input) (written env input) db.deposits nothing in
    elim (Option-cases (find (is_deposit tenant input.deposit_request_id) db.deposits)) [
      | inl gone ↦ (none, not_found_reason, run ∙ rw (nothing, still) (rw (gone, explain_miss)))
      | inr (row, found) ↦ (
        some row.status,
        if status_in row.status input.from then guard_failed else status_mismatch,
        run ∙ rw (nothing, still) (rw (found, explain_miss)),
      )
    ]
