-- ===== src/Db.antt =====
-- The database, the transaction that a service runs in, and the statements that the services share:
-- `runInTransaction` (src/core/prisma/prisma.service.ts), the tenant in context
-- (src/core/tenant/tenant.storage.ts) and the audit trail.
pub mod Rows
use telegram_mini_app.Prelude.{
  ℕ, suc, Bool, ◌&&◌, List, [], ◌∷◌, Option, none, some, find, is_some, map_where, if◌then◌else◌,
  ◌≡◌, refl, sym, subst,
}
use telegram_mini_app.Prelude.Integers.{ℤ}
use telegram_mini_app.Prelude.Text.{Text, text_eq}
use telegram_mini_app.Types.{Actor, Error, no_tenant_context, record_not_found, Result, ok, err}
use Rows.{
  Deposit, DepositTransition, OutboxMessage, AuditEntry, LedgerAccount, LedgerTransaction,
  LedgerEntry, IdempotencyKey, ApprovalLimit, PostingBody, Tenant, Player, PlayerLimit,
  SelfExclusion, DepositProof,
}

-- Lists hold the newest row first, but for the tables of deposits and accounts, whose order is free. `ids` are the
-- identifiers that the database and the uuid library hand out, `generated` how many are used up.
pub record Db : Type 0 where
  pub deposits : List Deposit
  pub transitions : List DepositTransition
  pub outbox : List OutboxMessage
  pub audits : List AuditEntry
  pub accounts : List LedgerAccount
  pub transactions : List LedgerTransaction
  pub entries : List LedgerEntry
  pub keys : List IdempotencyKey
  pub limits : List ApprovalLimit
  pub tenants : List Tenant
  pub players : List Player
  pub player_limits : List PlayerLimit
  pub exclusions : List SelfExclusion
  pub proofs : List DepositProof
  pub ids : ℕ → Text
  pub generated : ℕ

-- What a call finds around it: the operator in context, the clock, the configuration, and the
-- digest of a posting's body (JSON and sha256, which are not this repository's).
pub record Env : Type 0 where
  pub tenant : Option Text
  pub now : ℕ
  pub dual_approval_threshold_minor : ℤ
  pub request_hash : PostingBody → Text

-- A statement inside a transaction. What it throws rolls the transaction back, so no state is kept.
abbrev pub Tx : Type 0 → Type 0
Tx A = Db → Result (A × Db)

module _ {A : Type 0} where
  abbrev pub pure : A → Tx A
  pure a db = ok (a, db)

  abbrev pub throw : Error → Tx A
  throw e db = err e

infixl 5 ◌>>=◌ ◌>>◌
abbrev pub ◌>>=◌ : {A B : Type 0} → Tx A → (A → Tx B) → Tx B
◌>>=◌ m f db = elim (m db) [ ok (a, db') ↦ f a db' | err e ↦ err e ]

abbrev pub ◌>>◌ : {A B : Type 0} → Tx A → Tx B → Tx B
m >> k = m >>= λ _. k

abbrev pub require : Bool → Error → Tx (Unit {0})
require b e db = if b then ok (tt, db) else err e

-- `requireEffectiveTenantId()`.
unfoldable pub require_effective_tenant_id : Env → Tx Text
require_effective_tenant_id env db = elim env.tenant [
  | none ↦ err no_tenant_context
  | some tenant ↦ ok (tenant, db)
]

-- The next identifier that the database or the uuid library hands out.
unfoldable pub generate_id : Tx Text
generate_id db = ok (db.ids db.generated, record db { generated = suc db.generated })

-- Is this the row with that id, in that operator?
abbrev pub is_deposit : Text → Text → Deposit → Bool
is_deposit tenant id d = text_eq d.id id && text_eq d.tenant_id tenant

-- `DepositRepository.findByIdInTenant`.
unfoldable pub find_by_id_in_tenant : Text → Text → Tx (Option Deposit)
find_by_id_in_tenant tenant id db = ok (find (is_deposit tenant id) db.deposits, db)

-- `tx.depositRequest.update({ where: { id, tenantId }, data })`, which stamps `updated_at`.
unfoldable pub update_deposit : Env → Text → Text → (Deposit → Deposit) → Tx (Unit {0})
update_deposit env tenant id write db =
    if is_some (find (is_deposit tenant id) db.deposits)
    then ok (
      tt,
      record db {
        deposits =
            map_where (is_deposit tenant id) (λ d. record (write d) { updated_at = env.now })
              db.deposits;
      },
    )
    else err record_not_found

-- `AuditService.write`, with the columns that are not free-form JSON.
unfoldable pub write_audit : Env → Text → Actor → Text → Option ℤ → Tx (Unit {0})
write_audit env action actor subject amount db = elim env.tenant [
  | none ↦ err no_tenant_context
  | some tenant ↦ ok (
    tt,
    record db {
      audits =
          record {
            tenant_id = tenant;
            action = action;
            actor = actor;
            subject_id = subject;
            amount_minor = amount;
          }
          ∷ db.audits;
    },
  )
]

-- The two halves of a chain that returned.
pub bind_ok :
    {A B : Type 0} (m : Tx A) (f : A → Tx B) (db : Db) {b : B} {db' : Db}
    → (m >>= f) db ≡ ok (b, db')
    → (a : A) × (mid : Db) × (m db ≡ ok (a, mid)) × (f a mid ≡ ok (b, db'))
bind_ok {A} m f db {b} {db'} h = split (m db) refl h
  where
    split :
        (r : Result (A × Db))
        → m db ≡ r
        → elim r [ ok (a, mid) ↦ f a mid | err e ↦ err e ] ≡ ok (b, db')
        → (a : A) × (mid : Db) × (m db ≡ ok (a, mid)) × (f a mid ≡ ok (b, db'))
    split (ok (a, mid)) e k = (a, mid, e, k)
    split (err x) e k = absurd (cc)

-- A chain goes on where its first half returned.
pub bind_step :
    {A B : Type 0} (m : Tx A) (f : A → Tx B) (db : Db) {a : A} {mid : Db} {r : Result (B × Db)}
    → m db ≡ ok (a, mid)
    → f a mid ≡ r
    → (m >>= f) db ≡ r
bind_step {A} {B} m f db {a} {mid} {r} h k =
    subst (λ (x : Result (A × Db)). elim x [ ok (b, db') ↦ f b db' | err e ↦ err e ] ≡ r) (sym h) k

-- A chain stops where its first half throws.
pub bind_throws :
    {A B : Type 0} (m : Tx A) (f : A → Tx B) (db : Db) {e : Error}
    → m db ≡ err e
    → (m >>= f) db ≡ err e
bind_throws {A} {B} m f db {e} h =
    subst (λ (x : Result (A × Db)). elim x [ ok (b, db') ↦ f b db' | err y ↦ err y ] ≡ err e)
      (sym h) refl

pub returned :
    {A : Type 0} {a b : A} {x y : Db}
    → ◌≡◌ {A = Result (A × Db)} (ok (a, x)) (ok (b, y))
    → (a ≡ b) × (x ≡ y)
returned h = (cc, cc)
