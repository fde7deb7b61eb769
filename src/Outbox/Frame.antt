-- ===== src/Outbox/Frame.antt =====
-- What a business write that only reports may change: the outbox, the audit trail and the identifiers
-- that are used up (src/core/outbox/outbox.service.ts, src/core/audit).
use telegram_mini_app.Prelude.{
  ℕ, suc, or_else, List, [], ◌∷◌, Option, some, ◌≡◌, refl, sym, ◌∙◌, arith, Option-cases, inl, inr,
}
use telegram_mini_app.Prelude.Integers.{ℤ}
use telegram_mini_app.Prelude.Text.{Text}
use telegram_mini_app.Types.{Actor, ok}
use telegram_mini_app.Db.{Db, Env, returned, generate_id, require_effective_tenant_id, write_audit}
use telegram_mini_app.Db.Rows.{OutboxInput, OutboxMessage, AuditEntry}
use telegram_mini_app.Outbox.{insert_rows, outbox_rows, store_rows, enqueue_many, enqueue}

-- Two databases with the same deposits and the same books.
pub record SameBooks (db db' : Db) : Type 0 where
  pub deposits : db'.deposits ≡ db.deposits
  pub transitions : db'.transitions ≡ db.transitions
  pub accounts : db'.accounts ≡ db.accounts
  pub transactions : db'.transactions ≡ db.transactions
  pub entries : db'.entries ≡ db.entries
  pub proofs : db'.proofs ≡ db.proofs

pub SameBooks-refl : (db : Db) → SameBooks db db
SameBooks-refl db = record {
  deposits = refl;
  transitions = refl;
  accounts = refl;
  transactions = refl;
  entries = refl;
  proofs = refl;
}

pub SameBooks-trans : {a b c : Db} → SameBooks a b → SameBooks b c → SameBooks a c
SameBooks-trans h k = record {
  deposits = k.deposits ∙ h.deposits;
  transitions = k.transitions ∙ h.transitions;
  accounts = k.accounts ∙ h.accounts;
  transactions = k.transactions ∙ h.transactions;
  entries = k.entries ∙ h.entries;
  proofs = k.proofs ∙ h.proofs;
}

pub SameBooks-of_eq : {a b : Db} → b ≡ a → SameBooks a b
SameBooks-of_eq {a} h = rw (h) (SameBooks-refl a)

-- A change of the outbox, of the audit trail and of the identifiers used up keeps the rest.
reported-SameBooks :
    (db : Db) (outbox : List OutboxMessage) (audits : List AuditEntry) (generated : ℕ)
    → SameBooks db (record db { outbox = outbox; audits = audits; generated = generated })
reported-SameBooks db outbox audits generated = record {
  deposits = refl;
  transitions = refl;
  accounts = refl;
  transactions = refl;
  entries = refl;
  proofs = refl;
}

pub write_audit-SameBooks :
    (env : Env) (action : Text) (actor : Actor) (subject : Text) (amount : Option ℤ) (db : Db)
    {u : Unit {0}} {db' : Db}
    → write_audit env action actor subject amount db ≡ ok (u, db')
    → SameBooks db db'
unfolding write_audit
write_audit-SameBooks env action actor subject amount db {u} {db'} h =
    elim (Option-cases env.tenant) [
      | inl e ↦ absurd (ground arith)
      | inr (tenant, e) ↦
          let entry : AuditEntry = record {
            tenant_id = tenant;
            action = action;
            actor = actor;
            subject_id = subject;
            amount_minor = amount;
          } in
          let same : db' ≡ record db { audits = entry ∷ db.audits } = ground (arith, e) in
          rw (same) (reported-SameBooks db db.outbox (entry ∷ db.audits) db.generated)
    ]

outbox_rows_lem :
    (env : Env) (tenant : Text) (inputs : List OutboxInput) (db : Db)
    → (rows : List OutboxMessage) × (k : ℕ) × (outbox_rows env tenant inputs db
        ≡ ok (rows, record db { generated = k }))
unfolding outbox_rows generate_id
outbox_rows_lem env tenant [] db = ([], db.generated, refl)
outbox_rows_lem env tenant (input ∷ inputs) db =
    let (rows, k, e) =
      outbox_rows_lem env tenant inputs (record db { generated = suc db.generated }) in
    let row : OutboxMessage = record {
      id = db.ids db.generated;
      tenant_id = tenant;
      input = input;
      available_at = or_else input.available_at env.now;
    } in
    (row ∷ rows, k, cc (e))

enqueue_lem :
    (env : Env) (input : OutboxInput) (db : Db) (tenant : Text)
    → env.tenant ≡ some tenant
    → (outbox : List OutboxMessage) × (k : ℕ) × (enqueue env input db
        ≡ ok (tt, record db { outbox = outbox; generated = k }))
unfolding enqueue enqueue_many store_rows require_effective_tenant_id
enqueue_lem env input db tenant e =
    let (rows, k, f) = outbox_rows_lem env tenant (input ∷ []) db in
    ((insert_rows rows db.outbox).0, k, cc (e, f))

pub enqueue-SameBooks :
    (env : Env) (input : OutboxInput) (db : Db) {u : Unit {0}} {db' : Db}
    → enqueue env input db ≡ ok (u, db')
    → SameBooks db db'
unfolding enqueue enqueue_many require_effective_tenant_id
enqueue-SameBooks env input db {u} {db'} h = elim (Option-cases env.tenant) [
  | inl e ↦ absurd (ground (arith, e))
  | inr (tenant, e) ↦
      let (outbox, k, f) = enqueue_lem env input db tenant e in
      rw ((returned (sym f ∙ h)).1) at (reported-SameBooks db outbox db.audits k)
]
