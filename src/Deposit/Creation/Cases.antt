-- ===== src/Deposit/Creation/Cases.antt =====
-- The outcomes of the transaction that opens a deposit
-- (src/modules/deposit/services/deposit.service.ts).
use telegram_mini_app.Prelude.{
  Bool, true, false, List, [], ◌∷◌, Option, none, some, keep, map_where, ◌≡◌, ◌≢◌, ◌⊎◌, inl, inr,
  refl, sym, ap, ◌∙◌, subst, Bool-cases, Option-cases,
}
use telegram_mini_app.Prelude.Text.{Text, text, text_eq_refl}
use telegram_mini_app.Types.{Actor, awaiting_proof, ok}
use telegram_mini_app.Db.{
  Db, Env, ◌>>=◌, bind_ok, returned, require_effective_tenant_id, generate_id, write_audit,
}
use telegram_mini_app.Db.Rows.{Deposit}
use telegram_mini_app.Outbox.Frame.{write_audit-SameBooks}
use telegram_mini_app.Deposit.StateMachine.{matches, written, transition}
use telegram_mini_app.Deposit.StateMachine.Writes.{transition-cases}
use telegram_mini_app.Deposit.Policy.{assert_may_deposit}
use telegram_mini_app.Deposit.Policy.Permits.{Permits, permitted}
use telegram_mini_app.Deposit.Creation.{
  DepositArgs, deposit_row, collides, find_by_idempotency_key, store_deposit, explain_refusal,
  insert_deposit, opening_input, announce_opening, policy_input, open_deposit,
}

-- The row of a fresh insert, once it is moved on.
pub record Inserted (env : Env) (args : DepositArgs) (db : Db) (d : Deposit) (db' : Db)
    : Type 0 where
  pub tenant : Text
  pub in_context : env.tenant ≡ some tenant
  pub short : Text
  pub id : Text
  pub row : d ≡ deposit_row env args tenant short id
  pub is_new : collides d db.deposits ≡ false
  pub deposits : db'.deposits ≡ d ∷ db.deposits

-- The deposit that was already there under the request's key.
pub record Replayed (env : Env) (args : DepositArgs) (db : Db) (d : Deposit) (db' : Db)
    : Type 0 where
  pub tenant : Text
  pub key : Text
  pub in_context : env.tenant ≡ some tenant
  pub has_key : args.input.idempotency_key ≡ some key
  pub found : find_by_idempotency_key tenant key db.deposits ≡ some d
  pub deposits : db'.deposits ≡ db.deposits

refused :
    (survives : Bool) (tenant : Text) (key : Option Text) (db : Db) {created : Deposit × Bool}
    {db' : Db}
    → explain_refusal survives tenant key db ≡ ok (created, db')
    → (k : Text) × (key ≡ some k)
      × (find_by_idempotency_key tenant k db.deposits ≡ some created.0)
      × (created.1 ≡ true)
      × (db' ≡ db)
unfolding explain_refusal
refused survives tenant none db h = absurd (cc)
refused false tenant (some key) db h = absurd (cc)
refused true tenant (some key) db {created} h =
    elim (Option-cases (find_by_idempotency_key tenant key db.deposits)) [
      | inl gone ↦ absurd (cc (rw gone at h))
      | inr (d, found) ↦
          let done = returned (rw found at h) in
          (
            key,
            refl,
            found ∙ ap some (ap (λ (c : Deposit × Bool). c.0) done.0),
            sym (ap (λ (c : Deposit × Bool). c.1) done.0),
            sym done.1,
          )
    ]

store_cases :
    (survives : Bool) (row : Deposit) (db : Db) {created : Deposit × Bool} {db' : Db}
    → store_deposit survives row db ≡ ok (created, db')
    → ((k : Text) × (row.idempotency_key ≡ some k)
        × (find_by_idempotency_key row.tenant_id k db.deposits ≡ some created.0)
        × (created.1 ≡ true)
        × (db' ≡ db))
      ⊎ ((created ≡ (row, false))
          × (collides row db.deposits ≡ false)
          × (db'.deposits ≡ row ∷ db.deposits))
unfolding store_deposit
store_cases survives row db h = elim (Bool-cases (collides row db.deposits)) [
  | inl e ↦ inl (refused survives row.tenant_id row.idempotency_key db (rw e at h))
  | inr e ↦
      let done = returned (rw e at h) in
      inr (sym done.0, e, ap (λ (x : Db). x.deposits) (sym done.1))
]

context_set :
    (env : Env) (db : Db) {tenant : Text} {db' : Db}
    → require_effective_tenant_id env db ≡ ok (tenant, db')
    → (env.tenant ≡ some tenant) × (db' ≡ db)
unfolding require_effective_tenant_id
context_set env db h = elim (Option-cases env.tenant) [
  | inl e ↦ absurd (cc (rw e at h))
  | inr (t, e) ↦ let done = returned (rw e at h) in (e ∙ ap some done.0, sym done.1)
]

drawn_deposits :
    (db : Db) {id : Text} {db' : Db} → generate_id db ≡ ok (id, db') → db'.deposits ≡ db.deposits
unfolding generate_id
drawn_deposits db h = sym (ap (λ (x : Db). x.deposits) (returned h).1)

insert_cases :
    (env : Env) (survives : Bool) (args : DepositArgs) (db : Db) {created : Deposit × Bool}
    {db' : Db}
    → insert_deposit env survives args db ≡ ok (created, db')
    → ((created.1 ≡ true) × Replayed env args db created.0 db')
      ⊎ ((created.1 ≡ false) × Inserted env args db created.0 db')
unfolding insert_deposit
insert_cases env survives args db {created} {db'} h =
    let (tenant, d0, h0, k0) = bind_ok (require_effective_tenant_id env) _ db h in
    let (short, d1, h1, k1) = bind_ok generate_id _ d0 k0 in
    let (id, d2, h2, k2) = bind_ok generate_id _ d1 k1 in
    let (context, same) = context_set env db h0 in
    let stay = drawn_deposits d1 h2 ∙ drawn_deposits d0 h1 ∙ ap (λ (x : Db). x.deposits) same in
    elim (store_cases survives (deposit_row env args tenant short id) d2 k2) [
      | inl (key, e, found, was, kept) ↦ inl (
        was,
        record {
          tenant = tenant;
          key = key;
          in_context = context;
          has_key = e;
          found = subst (λ ds. find_by_idempotency_key tenant key ds ≡ some created.0) stay found;
          deposits = ap (λ (x : Db). x.deposits) kept ∙ stay;
        },
      )
      | inr (e, fresh, added) ↦
          let draft_row = deposit_row env args tenant short id in
          let row : created.0 ≡ draft_row = ap (λ (c : Deposit × Bool). c.0) e in
          inr (
            ap (λ (c : Deposit × Bool). c.1) e,
            record {
              tenant = tenant;
              in_context = context;
              short = short;
              id = id;
              row = row;
              is_new =
                  subst (λ x. collides x db.deposits ≡ false) (sym row)
                    (subst (λ ds. collides draft_row ds ≡ false) stay fresh);
              deposits =
                  added ∙ ap (λ ds. draft_row ∷ ds) stay ∙ ap (λ x. x ∷ db.deposits) (sym row);
            },
          )
    ]

-- What `create` leaves of the deposits where it inserted a row.
pub record Opened (env : Env) (actor : Actor) (args : DepositArgs) (db : Db) (d : Deposit)
    (db' : Db) : Type 0 where
  pub tenant : Text
  pub in_context : env.tenant ≡ some tenant
  pub short : Text
  pub id : Text
  pub is_new : collides (deposit_row env args tenant short id) db.deposits ≡ false
  pub returned_row : d ≡ record (deposit_row env args tenant short id) { status = awaiting_proof }
  pub deposits :
      db'.deposits
      ≡ map_where
          (matches tenant (opening_input actor id))
          (written env (opening_input actor id))
          (deposit_row env args tenant short id ∷ db.deposits)

pub row_matches :
    (env : Env) (actor : Actor) (args : DepositArgs) (tenant short id : Text)
    → matches tenant (opening_input actor id) (deposit_row env args tenant short id) ≡ true
row_matches env actor args tenant short id = rw (text_eq_refl id, text_eq_refl tenant) refl

never_missed :
    (env : Env) (actor : Actor) (args : DepositArgs) (tenant short id : Text) (rows : List Deposit)
    → keep (matches tenant (opening_input actor id)) (deposit_row env args tenant short id ∷ rows)
      ≢ []
never_missed env actor args tenant short id rows h =
    absurd (cc (rw (row_matches env actor args tenant short id) at h))

same_tenant : (env : Env) {s t : Text} → env.tenant ≡ some s → env.tenant ≡ some t → s ≡ t
same_tenant env h k = cc

moved_on :
    (env : Env) (actor : Actor) (args : DepositArgs) (db : Db) (tenant short id : Text)
    (d : Deposit) (mid : Db) {db' : Db}
    → env.tenant ≡ some tenant
    → collides (deposit_row env args tenant short id) db.deposits ≡ false
    → mid.deposits ≡ deposit_row env args tenant short id ∷ db.deposits
    → announce_opening env actor (deposit_row env args tenant short id, false) mid ≡ ok (d, db')
    → Opened env actor args db d db'
unfolding announce_opening
moved_on env actor args db tenant short id d mid {db'} context fresh there h =
    let input = opening_input actor id in
    let row = deposit_row env args tenant short id in
    let (o, d1, h1, k1) = bind_ok (transition env input) _ mid h in
    let (_, d2, h2, k2) =
      bind_ok (write_audit env (text "deposit.create") actor id (some args.input.amount_minor)) _ d1
        k1 in
    let tail : db'.deposits ≡ d1.deposits =
      ap (λ (x : Db). x.deposits) (sym (returned k2).1)
      ∙ (write_audit-SameBooks env _ actor id _ d1 h2).deposits in
    elim (transition-cases env input mid h1) [
      | inl m ↦
          let nothing =
            subst (λ t. keep (matches t input) mid.deposits ≡ [])
              (same_tenant env m.in_context context) m.no_match in
          absurd (
            never_missed env actor args tenant short id db.deposits
              (subst (λ ds. keep (matches tenant input) ds ≡ []) there nothing))
      | inr w ↦
          let swapped =
            subst (λ t. d1.deposits ≡ map_where (matches t input) (written env input) mid.deposits)
              (same_tenant env w.in_context context) (ap (λ (x : Db). x.deposits) w.after) in
          record {
            tenant = tenant;
            in_context = context;
            short = short;
            id = id;
            is_new = fresh;
            returned_row = sym (returned k2).0;
            deposits =
                tail ∙ swapped ∙ ap (map_where (matches tenant input) (written env input)) there;
          }
    ]

replayed_row :
    (env : Env) (actor : Actor) (row d : Deposit) {db db' : Db}
    → announce_opening env actor (row, true) db ≡ ok (d, db')
    → (row ≡ d) × (db ≡ db')
unfolding announce_opening
replayed_row env actor row d h = returned h

settled :
    (env : Env) (actor : Actor) (args : DepositArgs) (db : Db) (created : Deposit × Bool) (mid : Db)
    {d : Deposit} {db' : Db}
    → ((created.1 ≡ true) × Replayed env args db created.0 mid)
      ⊎ ((created.1 ≡ false) × Inserted env args db created.0 mid)
    → announce_opening env actor created mid ≡ ok (d, db')
    → Replayed env args db d db' ⊎ Opened env actor args db d db'
settled env actor args db (row, true) mid {d} {db'} (inl (e, r)) h =
    let (same, kept) = replayed_row env actor row d h in
    inl (record {
      tenant = r.tenant;
      key = r.key;
      in_context = r.in_context;
      has_key = r.has_key;
      found = r.found ∙ ap some same;
      deposits = ap (λ (x : Db). x.deposits) (sym kept) ∙ r.deposits;
    })
settled env actor args db (row, false) mid {d} {db'} (inr (e, i)) h = inr (
    moved_on env actor args db i.tenant i.short i.id d mid i.in_context
      (subst (λ x. collides x db.deposits ≡ false) i.row i.is_new)
      (i.deposits ∙ ap (λ x. x ∷ db.deposits) i.row)
      (subst (λ x. announce_opening env actor (x, false) mid ≡ ok (d, db')) i.row h))
settled env actor args db (row, false) mid (inl (e, r)) h = absurd (cc)
settled env actor args db (row, true) mid (inr (e, i)) h = absurd (cc)

-- Of a transaction of `create` that returned: the policy permitted the deposit, and the deposit was there
-- before under the request's key, or is new and waits for its proof.
pub open_deposit-cases :
    (env : Env) (survives : Bool) (actor : Actor) (args : DepositArgs) (db : Db) {d : Deposit}
    {db' : Db}
    → open_deposit env survives actor args db ≡ ok (d, db')
    → Permits env (policy_input args) db
      × (Replayed env args db d db' ⊎ Opened env actor args db d db')
unfolding open_deposit
open_deposit-cases env survives actor args db {d} {db'} h =
    let (decision, d0, h0, k0) = bind_ok (assert_may_deposit env (policy_input args)) _ db h in
    let (permits, same, _) = permitted env (policy_input args) db h0 in
    let (created, d1, h1, k1) = bind_ok (insert_deposit env survives args) _ db (
      subst
        (λ (x : Db).
          (insert_deposit env survives args >>= announce_opening env actor) x ≡ ok (d, db'))
        same k0) in
    (permits, settled env actor args db created d1 (insert_cases env survives args db h1) k1)
